-- ===== src/Api/Requests/Steps.antt =====
-- internal/api: the requests of the checks before a handler, and the rules for those after them.
use jeffrey_s_agenda_tool.Prelude.{Text, Option}
use jeffrey_s_agenda_tool.Domain.{Uuid}
use jeffrey_s_agenda_tool.Google.{Request}
use jeffrey_s_agenda_tool.Action.{Env, Action}
use jeffrey_s_agenda_tool.Action.Sends.{Sends, sends_rules}
use jeffrey_s_agenda_tool.Api.{HttpRequest, Response, with_user}
use jeffrey_s_agenda_tool.Api.Rule.{with_account, with_rule}
use jeffrey_s_agenda_tool.Store.Requests.{
  get_connected_account_by_id-Sends, get_rules_for_account-Sends,
}
use jeffrey_s_agenda_tool.Store.Requests.Calls.{
  get_user_by_id-Sends, get_accounts_for_user-Sends, delete_connected_account-Sends,
  create_automation_rule-Sends, get_rule_by_id-Sends, update_rule-Sends, toggle_rule_status-Sends,
  delete_rule-Sends, get_logs_for_account-Sends, create_gmail_automation_rule-Sends,
  get_gmail_rules_for_account-Sends,
}
use jeffrey_s_agenda_tool.Api.Requests.Rules.{
  Sends-write_json, Sends-write_json_error, Sends-report, require_any-Sends,
  with_named_account-Sends, with_mailbox-Sends, with_calendar-Sends, with_gmail-Sends,
  transform_messages-Sends, or_from_now-Sends, aggregate-Sends,
}

pub with_account-Sends :
    {Allowed : Request → Type 0} (env : Env) (parse_uuid : Text → Option Uuid) (u : Option Uuid)
    (req : HttpRequest) (k : Uuid → Action Response)
    → ((id : Uuid) → Sends Allowed (k id))
    → Sends Allowed (with_account env parse_uuid u req k)
unfolding with_account with_user
with_account-Sends env parse_uuid u req k sk =
    search (sends_rules, require_any-Sends, get_connected_account_by_id-Sends) depth 8

pub with_rule-Sends :
    {Allowed : Request → Type 0} (env : Env) (parse_uuid : Text → Option Uuid) (u : Option Uuid)
    (req : HttpRequest) (k : Uuid → Action Response)
    → ((id : Uuid) → Sends Allowed (k id))
    → Sends Allowed (with_rule env parse_uuid u req k)
unfolding with_rule with_user
with_rule-Sends env parse_uuid u req k sk =
    search (sends_rules, require_any-Sends, get_rule_by_id-Sends, get_connected_account_by_id-Sends)
      depth 10

pub ruleset response_rules =
    (sends_rules, require_any-Sends, Sends-write_json, Sends-write_json_error, Sends-report)

pub ruleset database_rules = (
  response_rules, with_account-Sends, with_rule-Sends, get_user_by_id-Sends,
  get_accounts_for_user-Sends, delete_connected_account-Sends, create_automation_rule-Sends,
  get_rules_for_account-Sends, update_rule-Sends, toggle_rule_status-Sends, delete_rule-Sends,
  get_logs_for_account-Sends, create_gmail_automation_rule-Sends, get_gmail_rules_for_account-Sends,
)

pub ruleset google_rules = (
  response_rules, with_named_account-Sends, with_mailbox-Sends, with_calendar-Sends,
  with_gmail-Sends, transform_messages-Sends, or_from_now-Sends, aggregate-Sends,
)
