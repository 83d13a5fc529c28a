-- ===== src/Store/Integrity/Calls.antt =====
-- internal/store/store.go: the Storer interface as data, DBStore as the action of each call, and a
-- client as any sequence of calls.
use jeffrey_s_agenda_tool.Prelude.{ℕ, Text, List}
use jeffrey_s_agenda_tool.Domain.{Uuid, Time, Bytes, AccountStatus, GmailMessageStatus}
use jeffrey_s_agenda_tool.Database.Integrity.{IsConsistent}
use jeffrey_s_agenda_tool.Action.{Env, World, Action, pure, attempt, for_each}
use jeffrey_s_agenda_tool.Action.Keeps.{Keeps, Keeps-attempt, Keeps-pure, Keeps-for_each}
use jeffrey_s_agenda_tool.Store.User
use jeffrey_s_agenda_tool.Store.Account
use jeffrey_s_agenda_tool.Store.Account.Token
use jeffrey_s_agenda_tool.Store.Rule
use jeffrey_s_agenda_tool.Store.Log
use jeffrey_s_agenda_tool.Store.Gmail
use jeffrey_s_agenda_tool.Store.Gmail.Messages
use jeffrey_s_agenda_tool.Store.Integrity.Users
use jeffrey_s_agenda_tool.Store.Integrity.Accounts
use jeffrey_s_agenda_tool.Store.Integrity.Rules
use jeffrey_s_agenda_tool.Store.Integrity.Gmail as GmailIntegrity

pub data StoreCall : Type 0 where
  create_user : Text → Text → StoreCall
  get_user_by_id delete_user : Uuid → StoreCall
  upsert_connected_account : Account.UpsertConnectedAccountParams → StoreCall
  get_connected_account_by_id : Uuid → StoreCall
  update_account_tokens : Account.UpdateAccountTokensParams → StoreCall
  update_account_last_checked : Uuid → StoreCall
  get_active_accounts : StoreCall
  get_accounts_for_user : Uuid → StoreCall
  verify_account_ownership : Uuid → Uuid → StoreCall
  delete_connected_account : Uuid → StoreCall
  create_automation_rule : Rule.CreateAutomationRuleParams → StoreCall
  get_rule_by_id get_rules_for_account : Uuid → StoreCall
  update_rule : Rule.UpdateRuleParams → StoreCall
  toggle_rule_status : Uuid → StoreCall
  verify_rule_ownership : Uuid → Uuid → StoreCall
  delete_rule : Uuid → StoreCall
  update_account_status : Uuid → AccountStatus → StoreCall
  create_automation_log : Log.CreateLogParams → StoreCall
  has_log_for_trigger : Uuid → Text → StoreCall
  get_logs_for_account : Uuid → ℕ → StoreCall
  get_valid_token_for_account : Uuid → StoreCall
  update_connected_account_token : Uuid → Bytes → Bytes → Time → StoreCall
  create_gmail_automation_rule : Gmail.CreateGmailAutomationRuleParams → StoreCall
  get_gmail_rules_for_account : Uuid → StoreCall
  update_gmail_rule : Gmail.UpdateGmailRuleParams → StoreCall
  delete_gmail_rule toggle_gmail_rule_status : Uuid → StoreCall
  store_gmail_message : Messages.StoreGmailMessageParams → StoreCall
  store_gmail_thread : Messages.StoreGmailThreadParams → StoreCall
  update_gmail_message_status : Uuid → Text → GmailMessageStatus → StoreCall
  get_gmail_messages_for_account : Uuid → ℕ → StoreCall
  update_gmail_sync_state : Uuid → Text → Time → StoreCall
  get_gmail_sync_state : Uuid → StoreCall

-- The client goes on, whatever the call returns.
discard : {A : Type 0} → Action A → Action (Unit {0})
discard m = attempt m (λ _. pure tt) (λ _. pure tt)

module _ (env : Env) where
  pub perform : StoreCall → Action (Unit {0})
  unfolding discard
  perform (create_user email name) = discard (User.create_user env email name)
  perform (get_user_by_id k) = discard (User.get_user_by_id env k)
  perform (delete_user k) = discard (User.delete_user env k)
  perform (upsert_connected_account arg) = discard (Account.upsert_connected_account env arg)
  perform (get_connected_account_by_id k) = discard (Account.get_connected_account_by_id env k)
  perform (update_account_tokens arg) = discard (Account.update_account_tokens env arg)
  perform (update_account_last_checked k) = discard (Account.update_account_last_checked env k)
  perform get_active_accounts = discard (Account.get_active_accounts env)
  perform (get_accounts_for_user k) = discard (Account.get_accounts_for_user env k)
  perform (verify_account_ownership k u) = discard (Account.verify_account_ownership env k u)
  perform (delete_connected_account k) = discard (Account.delete_connected_account env k)
  perform (create_automation_rule arg) = discard (Rule.create_automation_rule env arg)
  perform (get_rule_by_id k) = discard (Rule.get_rule_by_id env k)
  perform (get_rules_for_account k) = discard (Rule.get_rules_for_account env k)
  perform (update_rule arg) = discard (Rule.update_rule env arg)
  perform (toggle_rule_status k) = discard (Rule.toggle_rule_status env k)
  perform (verify_rule_ownership k u) = discard (Rule.verify_rule_ownership env k u)
  perform (delete_rule k) = discard (Rule.delete_rule env k)
  perform (update_account_status k s) = discard (Account.update_account_status env k s)
  perform (create_automation_log arg) = discard (Log.create_automation_log env arg)
  perform (has_log_for_trigger k e) = discard (Log.has_log_for_trigger env k e)
  perform (get_logs_for_account k n) = discard (Log.get_logs_for_account env k n)
  perform (get_valid_token_for_account k) = discard (Token.get_valid_token_for_account env k)
  perform (update_connected_account_token k a r t) =
      discard (Account.update_connected_account_token env k a r t)
  perform (create_gmail_automation_rule arg) = discard (Gmail.create_gmail_automation_rule env arg)
  perform (get_gmail_rules_for_account k) = discard (Gmail.get_gmail_rules_for_account env k)
  perform (update_gmail_rule arg) = discard (Gmail.update_gmail_rule env arg)
  perform (delete_gmail_rule k) = discard (Gmail.delete_gmail_rule env k)
  perform (toggle_gmail_rule_status k) = discard (Gmail.toggle_gmail_rule_status env k)
  perform (store_gmail_message arg) = discard (Messages.store_gmail_message env arg)
  perform (store_gmail_thread arg) = discard (Messages.store_gmail_thread env arg)
  perform (update_gmail_message_status k m s) =
      discard (Messages.update_gmail_message_status env k m s)
  perform (get_gmail_messages_for_account k n) =
      discard (Messages.get_gmail_messages_for_account env k n)
  perform (update_gmail_sync_state k h t) = discard (Gmail.update_gmail_sync_state env k h t)
  perform (get_gmail_sync_state k) = discard (Gmail.get_gmail_sync_state env k)

  pub run_calls : List StoreCall → Action (Unit {0})
  run_calls calls = for_each calls perform

discard-Keeps : {A : Type 0} (m : Action A) → Keeps IsConsistent m → Keeps IsConsistent (discard m)
unfolding discard
discard-Keeps m k = Keeps-attempt m _ _ k (λ _. Keeps-pure tt) (λ _. Keeps-pure tt)

module _ (env : Env) where
  perform-Keeps : (call : StoreCall) → Keeps IsConsistent (perform env call)
  unfolding perform
  perform-Keeps (create_user email name) = discard-Keeps _ (Users.create_user-Keeps env email name)
  perform-Keeps (get_user_by_id k) = discard-Keeps _ (Users.get_user_by_id-Keeps env k)
  perform-Keeps (delete_user k) = discard-Keeps _ (Users.delete_user-Keeps env k)
  perform-Keeps (upsert_connected_account arg) =
      discard-Keeps _ (Accounts.upsert_connected_account-Keeps env arg)
  perform-Keeps (get_connected_account_by_id k) =
      discard-Keeps _ (Accounts.get_connected_account_by_id-Keeps env k)
  perform-Keeps (update_account_tokens arg) =
      discard-Keeps _ (Accounts.update_account_tokens-Keeps env arg)
  perform-Keeps (update_account_last_checked k) =
      discard-Keeps _ (Accounts.update_account_last_checked-Keeps env k)
  perform-Keeps get_active_accounts = discard-Keeps _ (Accounts.get_active_accounts-Keeps env)
  perform-Keeps (get_accounts_for_user k) =
      discard-Keeps _ (Accounts.get_accounts_for_user-Keeps env k)
  perform-Keeps (verify_account_ownership k u) =
      discard-Keeps _ (Accounts.verify_account_ownership-Keeps env k u)
  perform-Keeps (delete_connected_account k) =
      discard-Keeps _ (Accounts.delete_connected_account-Keeps env k)
  perform-Keeps (create_automation_rule arg) =
      discard-Keeps _ (Rules.create_automation_rule-Keeps env arg)
  perform-Keeps (get_rule_by_id k) = discard-Keeps _ (Rules.get_rule_by_id-Keeps env k)
  perform-Keeps (get_rules_for_account k) =
      discard-Keeps _ (Rules.get_rules_for_account-Keeps env k)
  perform-Keeps (update_rule arg) = discard-Keeps _ (Rules.update_rule-Keeps env arg)
  perform-Keeps (toggle_rule_status k) = discard-Keeps _ (Rules.toggle_rule_status-Keeps env k)
  perform-Keeps (verify_rule_ownership k u) =
      discard-Keeps _ (Rules.verify_rule_ownership-Keeps env k u)
  perform-Keeps (delete_rule k) = discard-Keeps _ (Rules.delete_rule-Keeps env k)
  perform-Keeps (update_account_status k s) =
      discard-Keeps _ (Accounts.update_account_status-Keeps env k s)
  perform-Keeps (create_automation_log arg) =
      discard-Keeps _ (Rules.create_automation_log-Keeps env arg)
  perform-Keeps (has_log_for_trigger k e) =
      discard-Keeps _ (Rules.has_log_for_trigger-Keeps env k e)
  perform-Keeps (get_logs_for_account k n) =
      discard-Keeps _ (Rules.get_logs_for_account-Keeps env k n)
  perform-Keeps (get_valid_token_for_account k) =
      discard-Keeps _ (Accounts.get_valid_token_for_account-Keeps env k)
  perform-Keeps (update_connected_account_token k a r t) =
      discard-Keeps _ (Accounts.update_connected_account_token-Keeps env k a r t)
  perform-Keeps (create_gmail_automation_rule arg) =
      discard-Keeps _ (GmailIntegrity.create_gmail_automation_rule-Keeps env arg)
  perform-Keeps (get_gmail_rules_for_account k) =
      discard-Keeps _ (GmailIntegrity.get_gmail_rules_for_account-Keeps env k)
  perform-Keeps (update_gmail_rule arg) =
      discard-Keeps _ (GmailIntegrity.update_gmail_rule-Keeps env arg)
  perform-Keeps (delete_gmail_rule k) =
      discard-Keeps _ (GmailIntegrity.delete_gmail_rule-Keeps env k)
  perform-Keeps (toggle_gmail_rule_status k) =
      discard-Keeps _ (GmailIntegrity.toggle_gmail_rule_status-Keeps env k)
  perform-Keeps (store_gmail_message arg) =
      discard-Keeps _ (GmailIntegrity.store_gmail_message-Keeps env arg)
  perform-Keeps (store_gmail_thread arg) =
      discard-Keeps _ (GmailIntegrity.store_gmail_thread-Keeps env arg)
  perform-Keeps (update_gmail_message_status k m s) =
      discard-Keeps _ (GmailIntegrity.update_gmail_message_status-Keeps env k m s)
  perform-Keeps (get_gmail_messages_for_account k n) =
      discard-Keeps _ (GmailIntegrity.get_gmail_messages_for_account-Keeps env k n)
  perform-Keeps (update_gmail_sync_state k h t) =
      discard-Keeps _ (GmailIntegrity.update_gmail_sync_state-Keeps env k h t)
  perform-Keeps (get_gmail_sync_state k) =
      discard-Keeps _ (GmailIntegrity.get_gmail_sync_state-Keeps env k)

-- From a consistent database, any sequence of calls of the Storer interface, with whatever
-- arguments, failures of the server and replies of Google, leads to a consistent database: keys are
-- unique and every reference leads to a row.
pub run_calls-IsConsistent :
    (env : Env) (calls : List StoreCall) (w : World)
    → IsConsistent w.db
    → IsConsistent (run_calls env calls w).1.db
unfolding run_calls
run_calls-IsConsistent env calls w c =
    (Keeps-for_each calls (perform env) (perform-Keeps env)).at w c
