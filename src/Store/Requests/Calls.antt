-- ===== src/Store/Requests/Calls.antt =====
-- internal/store: the requests of the operations that the handlers of the API call.
use jeffrey_s_agenda_tool.Google.{Request}
use jeffrey_s_agenda_tool.Action.{Env}
use jeffrey_s_agenda_tool.Action.Sends.{Sends, sends_rules}
use jeffrey_s_agenda_tool.Store.Requests.{encrypt-Sends, Sends-or_missing, Sends-require_rows}
use jeffrey_s_agenda_tool.Store.User.{create_user, get_user_by_id}
use jeffrey_s_agenda_tool.Store.Account.{
  upsert_connected_account, get_accounts_for_user, delete_connected_account,
}
use jeffrey_s_agenda_tool.Store.Rule.{
  create_automation_rule, get_rule_by_id, update_rule, toggle_rule_status, delete_rule,
}
use jeffrey_s_agenda_tool.Store.Log.{get_logs_for_account}
use jeffrey_s_agenda_tool.Store.Gmail.{create_gmail_automation_rule, get_gmail_rules_for_account}

module _ {Allowed : Request → Type 0} (env : Env) where
  pub get_user_by_id-Sends : (k : _) → Sends Allowed (get_user_by_id env k)
  unfolding get_user_by_id
  get_user_by_id-Sends k = search (sends_rules, Sends-or_missing)

  pub get_accounts_for_user-Sends : (k : _) → Sends Allowed (get_accounts_for_user env k)
  unfolding get_accounts_for_user
  get_accounts_for_user-Sends k = search sends_rules

  pub delete_connected_account-Sends : (k : _) → Sends Allowed (delete_connected_account env k)
  unfolding delete_connected_account
  delete_connected_account-Sends k = search (sends_rules, Sends-require_rows)

  pub create_automation_rule-Sends : (arg : _) → Sends Allowed (create_automation_rule env arg)
  unfolding create_automation_rule
  create_automation_rule-Sends arg = search sends_rules

  pub get_rule_by_id-Sends : (k : _) → Sends Allowed (get_rule_by_id env k)
  unfolding get_rule_by_id
  get_rule_by_id-Sends k = search (sends_rules, Sends-or_missing)

  pub update_rule-Sends : (arg : _) → Sends Allowed (update_rule env arg)
  unfolding update_rule
  update_rule-Sends arg = search sends_rules

  pub toggle_rule_status-Sends : (k : _) → Sends Allowed (toggle_rule_status env k)
  unfolding toggle_rule_status
  toggle_rule_status-Sends k = search sends_rules

  pub delete_rule-Sends : (k : _) → Sends Allowed (delete_rule env k)
  unfolding delete_rule
  delete_rule-Sends k = search (sends_rules, Sends-require_rows)

  pub get_logs_for_account-Sends : (k limit : _) → Sends Allowed (get_logs_for_account env k limit)
  unfolding get_logs_for_account
  get_logs_for_account-Sends k limit = search sends_rules

  pub create_gmail_automation_rule-Sends :
      (arg : _) → Sends Allowed (create_gmail_automation_rule env arg)
  unfolding create_gmail_automation_rule
  create_gmail_automation_rule-Sends arg = search sends_rules

  pub get_gmail_rules_for_account-Sends :
      (k : _) → Sends Allowed (get_gmail_rules_for_account env k)
  unfolding get_gmail_rules_for_account
  get_gmail_rules_for_account-Sends k = search sends_rules

  pub create_user-Sends : (email name : _) → Sends Allowed (create_user env email name)
  unfolding create_user
  create_user-Sends email name = search sends_rules

  pub upsert_connected_account-Sends : (arg : _) → Sends Allowed (upsert_connected_account env arg)
  unfolding upsert_connected_account
  upsert_connected_account-Sends arg = search (sends_rules, encrypt-Sends)
