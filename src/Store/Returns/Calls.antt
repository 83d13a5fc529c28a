-- ===== src/Store/Returns/Calls.antt =====
-- internal/store: panics in the operations that the handlers of the API call.
use jeffrey_s_agenda_tool.Prelude.{Text, not, ◌&&◌, Option, none, some, any, find, text_eq}
use jeffrey_s_agenda_tool.Json.{Json}
use jeffrey_s_agenda_tool.Domain.{
  Uuid, Time, Bytes, User, ConnectedAccount, AutomationRule, is_known_trigger, is_known_action,
}
use jeffrey_s_agenda_tool.Database.{Db, user_has, account_has, rule_has, gmail_rule_has}
use jeffrey_s_agenda_tool.Action.{Env}
use jeffrey_s_agenda_tool.Action.Returns.{IsReturn, IsTotal, Returns}
use jeffrey_s_agenda_tool.Store.Returns.{
  scan-IsReturn, either, Returns-or_missing, Returns-require_rows, encrypt-Returns, total_rules,
}
use jeffrey_s_agenda_tool.Store.User
use jeffrey_s_agenda_tool.Store.User.{upsert_user, create_user, get_user_by_id}
use jeffrey_s_agenda_tool.Store.Account
use jeffrey_s_agenda_tool.Store.Account.{
  UpsertConnectedAccountParams, upsert_account, encrypt_refresh_token, upsert_connected_account,
  get_accounts_for_user, delete_connected_account,
}
use jeffrey_s_agenda_tool.Store.Rule
use jeffrey_s_agenda_tool.Store.Rule.{
  CreateAutomationRuleParams, UpdateRuleParams, insert_rule, update_rule_row,
  create_automation_rule, get_rule_by_id, update_rule, toggle_rule_status, delete_rule,
}
use jeffrey_s_agenda_tool.Store.Log.{get_logs_for_account}
use jeffrey_s_agenda_tool.Store.Gmail
use jeffrey_s_agenda_tool.Store.Gmail.{
  CreateGmailAutomationRuleParams, insert_gmail_rule, create_gmail_automation_rule,
  get_gmail_rules_for_account,
}

upsert_user-IsTotal : (email name : Text) → IsTotal (upsert_user email name)
unfolding upsert_user
upsert_user-IsTotal email name = record {
  at = λ now id db. upsert_at-IsReturn (find (λ v. text_eq v.email email) db.users) now id db;
}
  where
    upsert_at-IsReturn :
        (o : Option User) (now : Time) (id : Uuid) (db : Db)
        → IsReturn (User.upsert_at o email name now id db)
    upsert_at-IsReturn (some u) now id db = tt
    upsert_at-IsReturn none now id db = either (any (user_has id) db.users) _ _ tt tt

upsert_account-IsTotal :
    (arg : UpsertConnectedAccountParams) (access refresh : Bytes)
    → IsTotal (upsert_account arg access refresh)
unfolding upsert_account
upsert_account-IsTotal arg access refresh = record {
  at = λ now id db. upsert_at-IsReturn _ now id db;
}
  where
    upsert_at-IsReturn :
        (o : Option ConnectedAccount) (now : Time) (id : Uuid) (db : Db)
        → IsReturn (Account.upsert_at o arg access refresh now id db)
    upsert_at-IsReturn (some a) now id db = tt
    upsert_at-IsReturn none now id db =
        either (any (account_has id) db.connected_accounts) _ _ tt
          (either (any (user_has arg.user_id) db.users) _ _ tt tt)

insert_fields-IsReturn :
    (arg : CreateAutomationRuleParams) (trigger action : Option Json) (now : Time) (id : Uuid)
    (db : Db)
    → IsReturn (Rule.insert_fields arg trigger action now id db)
unfolding insert_rule
insert_fields-IsReturn arg (some t) (some a) now id db =
    either (any (rule_has id) db.automation_rules) _ _ tt
      (either (any (account_has arg.connected_account_id) db.connected_accounts) _ _ tt tt)
insert_fields-IsReturn arg (some t) none now id db = tt
insert_fields-IsReturn arg none action now id db = tt

insert_rule-IsTotal : (arg : CreateAutomationRuleParams) → IsTotal (insert_rule arg)
unfolding insert_rule
insert_rule-IsTotal arg = record {
  at = λ now id db. insert_fields-IsReturn arg arg.trigger_conditions arg.action_params now id db;
}

update_rule_row-IsTotal :
    (k : Uuid) (change : Time → AutomationRule → AutomationRule)
    → IsTotal (update_rule_row k change)
unfolding update_rule_row
update_rule_row-IsTotal k change = record { at = λ now id db. scan-IsReturn _ _ }

update_fields-IsTotal :
    (arg : UpdateRuleParams) (trigger action : Option Json)
    → IsTotal (Rule.update_fields arg trigger action)
unfolding Rule.update_fields
update_fields-IsTotal arg (some t) (some a) = record { at = λ now id db. scan-IsReturn _ _ }
update_fields-IsTotal arg (some t) none = record {
  at = λ now id db. either (any (rule_has arg.rule_id) db.automation_rules) _ _ tt tt;
}
update_fields-IsTotal arg none action = record {
  at = λ now id db. either (any (rule_has arg.rule_id) db.automation_rules) _ _ tt tt;
}

gmail_fields-IsReturn :
    (arg : CreateGmailAutomationRuleParams) (trigger action : Option Json) (now : Time) (id : Uuid)
    (db : Db)
    → IsReturn (Gmail.insert_fields arg trigger action now id db)
unfolding Gmail.insert_fields
gmail_fields-IsReturn arg (some t) (some a) now id db =
    either (not (is_known_trigger arg.trigger_type && is_known_action arg.action_type)) _ _ tt (
      either (any (gmail_rule_has id) db.gmail_automation_rules) _ _ tt
        (either (any (account_has arg.connected_account_id) db.connected_accounts) _ _ tt tt))
gmail_fields-IsReturn arg (some t) none now id db = tt
gmail_fields-IsReturn arg none action now id db = tt

insert_gmail_rule-IsTotal :
    (arg : CreateGmailAutomationRuleParams) → IsTotal (insert_gmail_rule arg)
unfolding insert_gmail_rule
insert_gmail_rule-IsTotal arg = record {
  at = λ now id db. gmail_fields-IsReturn arg arg.trigger_conditions arg.action_params now id db;
}

encrypt_refresh_token-Returns : (env : Env) (t : Text) → Returns (encrypt_refresh_token env t)
unfolding encrypt_refresh_token
encrypt_refresh_token-Returns env t = search (total_rules, encrypt-Returns)

module _ (env : Env) where
  pub get_user_by_id-Returns : (k : _) → Returns (get_user_by_id env k)
  unfolding get_user_by_id
  get_user_by_id-Returns k = search (total_rules, Returns-or_missing)

  pub create_user-Returns : (email name : _) → Returns (create_user env email name)
  unfolding create_user
  create_user-Returns email name = search (total_rules, upsert_user-IsTotal)

  pub upsert_connected_account-Returns : (arg : _) → Returns (upsert_connected_account env arg)
  unfolding upsert_connected_account
  upsert_connected_account-Returns arg =
      search (total_rules, encrypt-Returns, encrypt_refresh_token-Returns, upsert_account-IsTotal)

  pub get_accounts_for_user-Returns : (k : _) → Returns (get_accounts_for_user env k)
  unfolding get_accounts_for_user
  get_accounts_for_user-Returns k = search total_rules

  pub delete_connected_account-Returns : (k : _) → Returns (delete_connected_account env k)
  unfolding delete_connected_account
  delete_connected_account-Returns k = search (total_rules, Returns-require_rows)

  pub create_automation_rule-Returns : (arg : _) → Returns (create_automation_rule env arg)
  unfolding create_automation_rule
  create_automation_rule-Returns arg = search (total_rules, insert_rule-IsTotal)

  pub get_rule_by_id-Returns : (k : _) → Returns (get_rule_by_id env k)
  unfolding get_rule_by_id
  get_rule_by_id-Returns k = search (total_rules, Returns-or_missing)

  pub update_rule-Returns : (arg : _) → Returns (update_rule env arg)
  unfolding update_rule
  update_rule-Returns arg = search (total_rules, update_fields-IsTotal)

  pub toggle_rule_status-Returns : (k : _) → Returns (toggle_rule_status env k)
  unfolding toggle_rule_status
  toggle_rule_status-Returns k = search (total_rules, update_rule_row-IsTotal)

  pub delete_rule-Returns : (k : _) → Returns (delete_rule env k)
  unfolding delete_rule
  delete_rule-Returns k = search (total_rules, Returns-require_rows)

  pub get_logs_for_account-Returns : (k limit : _) → Returns (get_logs_for_account env k limit)
  unfolding get_logs_for_account
  get_logs_for_account-Returns k limit = search total_rules

  pub create_gmail_automation_rule-Returns :
      (arg : _) → Returns (create_gmail_automation_rule env arg)
  unfolding create_gmail_automation_rule
  create_gmail_automation_rule-Returns arg = search (total_rules, insert_gmail_rule-IsTotal)

  pub get_gmail_rules_for_account-Returns : (k : _) → Returns (get_gmail_rules_for_account env k)
  unfolding get_gmail_rules_for_account
  get_gmail_rules_for_account-Returns k = search total_rules
