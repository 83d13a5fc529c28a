-- ===== src/Api/Integrity.antt =====
-- internal/api: the invariant of the database over the calls of the server.
use jeffrey_s_agenda_tool.Prelude.{Text, Option, List, [], ◌∷◌}
use jeffrey_s_agenda_tool.Domain.{Uuid}
use jeffrey_s_agenda_tool.Database.Integrity.{IsConsistent}
use jeffrey_s_agenda_tool.Action.{Env, Action}
use jeffrey_s_agenda_tool.Action.Keeps.{Keeps, Keeps-pure, Keeps-bind, keeps_rules}
use jeffrey_s_agenda_tool.Api.{HttpRequest, CalendarChoice, Response, with_user}
use jeffrey_s_agenda_tool.Api.Keeps.{
  write_json-Keeps, write_json_error-Keeps, report-Keeps, require-Keeps, or_from_now-Keeps,
  transform_messages-Keeps,
}
use jeffrey_s_agenda_tool.Api.Auth.{AuthEnv, auth_middleware}
use jeffrey_s_agenda_tool.Api.Client.{get_calendar_client, get_gmail_client}
use jeffrey_s_agenda_tool.Api.Login.{
  LoginEnv, generate_jwt, connect, handle_google_login, handle_google_callback,
}
use jeffrey_s_agenda_tool.Api.Rule.{
  with_account, with_rule, handle_create_rule, handle_get_rules, handle_update_rule,
  handle_delete_rule, handle_toggle_rule,
}
use jeffrey_s_agenda_tool.Api.Account.{
  handle_get_me, handle_get_connected_accounts, handle_delete_connected_account,
  handle_get_automation_logs,
}
use jeffrey_s_agenda_tool.Api.Calendar.{
  with_named_account, with_calendar, with_event, chosen_events, aggregate, handle_create_event,
  handle_update_event, handle_delete_event, handle_get_calendar_events, handle_list_calendars,
  handle_get_aggregated_events,
}
use jeffrey_s_agenda_tool.Api.Gmail.{
  with_mailbox, with_gmail, with_mail, handle_get_gmail_messages, handle_send_gmail_message,
  handle_get_gmail_labels, handle_create_gmail_draft, handle_get_gmail_drafts,
  handle_create_gmail_rule, handle_get_gmail_rules,
}
use jeffrey_s_agenda_tool.Api.Server.{
  Route, get_me, get_accounts, delete_account, create_rule, get_rules, update_rule, delete_rule,
  toggle_rule, get_logs, list_calendars, get_calendar_events, create_event, update_event,
  delete_event, get_aggregated_events, get_gmail_messages, send_gmail_message, get_gmail_labels,
  create_gmail_draft, get_gmail_drafts, create_gmail_rule, get_gmail_rules, handle, serve,
  ServerCall, health, google_login, google_callback, protected, handle_health, serve_call,
}
use jeffrey_s_agenda_tool.Store.Integrity.Users.{create_user-Keeps, get_user_by_id-Keeps}
use jeffrey_s_agenda_tool.Store.Integrity.Accounts.{
  upsert_connected_account-Keeps, get_connected_account_by_id-Keeps, get_accounts_for_user-Keeps,
  delete_connected_account-Keeps, get_valid_token_for_account-Keeps,
}
use jeffrey_s_agenda_tool.Store.Integrity.Rules.{
  create_automation_rule-Keeps, get_rule_by_id-Keeps, get_rules_for_account-Keeps,
  update_rule-Keeps, toggle_rule_status-Keeps, delete_rule-Keeps, get_logs_for_account-Keeps,
}
use jeffrey_s_agenda_tool.Store.Integrity.Gmail.{
  create_gmail_automation_rule-Keeps, get_gmail_rules_for_account-Keeps,
}

ruleset response_rules =
    (keeps_rules, write_json-Keeps, write_json_error-Keeps, report-Keeps, require-Keeps)

module _ (env : Env) where
  get_calendar_client-Keeps : (k : Uuid) → Keeps IsConsistent (get_calendar_client env k)
  unfolding get_calendar_client
  get_calendar_client-Keeps k = search (keeps_rules, get_valid_token_for_account-Keeps)

  get_gmail_client-Keeps : (k : Uuid) → Keeps IsConsistent (get_gmail_client env k)
  unfolding get_gmail_client
  get_gmail_client-Keeps k = search (keeps_rules, get_valid_token_for_account-Keeps)

ruleset store_calls = (
  response_rules, get_user_by_id-Keeps, get_connected_account_by_id-Keeps,
  get_accounts_for_user-Keeps, delete_connected_account-Keeps, create_automation_rule-Keeps,
  get_rule_by_id-Keeps, get_rules_for_account-Keeps, update_rule-Keeps, toggle_rule_status-Keeps,
  delete_rule-Keeps, get_logs_for_account-Keeps, create_gmail_automation_rule-Keeps,
  get_gmail_rules_for_account-Keeps,
)

module _ (env : Env) (parse_uuid : Text → Option Uuid) where
  module _ (u : Option Uuid) (req : HttpRequest) (k : Uuid → Action Response) where
    with_account-Keeps :
        ((id : Uuid) → Keeps IsConsistent (k id))
        → Keeps IsConsistent (with_account env parse_uuid u req k)
    unfolding with_account with_user
    with_account-Keeps kk = search store_calls depth 10

    with_rule-Keeps :
        ((id : Uuid) → Keeps IsConsistent (k id))
        → Keeps IsConsistent (with_rule env parse_uuid u req k)
    unfolding with_rule with_user
    with_rule-Keeps kk = search store_calls depth 12

  chosen_events-Keeps :
      (user : Uuid) (time_min time_max : Text) (choice : CalendarChoice)
      → Keeps IsConsistent (chosen_events env parse_uuid user time_min time_max choice)
  unfolding chosen_events
  chosen_events-Keeps user time_min time_max choice =
      search (store_calls, get_calendar_client-Keeps) depth 8

  aggregate-Keeps :
      (user : Uuid) (time_min time_max : Text) (choices : List CalendarChoice)
      → Keeps IsConsistent (aggregate env parse_uuid user time_min time_max choices)
  unfolding aggregate
  aggregate-Keeps user time_min time_max [] = Keeps-pure []
  aggregate-Keeps user time_min time_max (choice ∷ choices) =
      Keeps-bind _ _ (chosen_events-Keeps user time_min time_max choice) (λ events.
        Keeps-bind _ _ (aggregate-Keeps user time_min time_max choices) (λ later. Keeps-pure _))

ruleset handler_rules = (
  store_calls, with_account-Keeps, with_rule-Keeps, get_calendar_client-Keeps,
  get_gmail_client-Keeps, aggregate-Keeps, or_from_now-Keeps, transform_messages-Keeps,
)

module _ (env : Env) (auth : AuthEnv) (req : HttpRequest) where
  handle-Keeps :
      (route : Route) (u : Option Uuid) → Keeps IsConsistent (handle env auth route req u)
  unfolding handle with_user with_named_account with_calendar with_event with_mailbox with_gmail
      with_mail handle_get_me handle_get_connected_accounts handle_delete_connected_account
      handle_create_rule handle_get_rules handle_update_rule handle_delete_rule handle_toggle_rule
      handle_get_automation_logs handle_list_calendars handle_get_calendar_events
      handle_create_event handle_update_event handle_delete_event handle_get_aggregated_events
      handle_get_gmail_messages handle_send_gmail_message handle_get_gmail_labels
      handle_create_gmail_draft handle_get_gmail_drafts handle_create_gmail_rule
      handle_get_gmail_rules
  handle-Keeps get_me u = search handler_rules depth 10
  handle-Keeps get_accounts u = search handler_rules depth 10
  handle-Keeps delete_account u = search handler_rules depth 10
  handle-Keeps create_rule u = search handler_rules depth 10
  handle-Keeps get_rules u = search handler_rules depth 10
  handle-Keeps update_rule u = search handler_rules depth 10
  handle-Keeps delete_rule u = search handler_rules depth 10
  handle-Keeps toggle_rule u = search handler_rules depth 10
  handle-Keeps get_logs u = search handler_rules depth 10
  handle-Keeps list_calendars u = search handler_rules depth 10
  handle-Keeps get_calendar_events u = search handler_rules depth 10
  handle-Keeps create_event u = search handler_rules depth 10
  handle-Keeps update_event u = search handler_rules depth 10
  handle-Keeps delete_event u = search handler_rules depth 10
  handle-Keeps get_aggregated_events u = search handler_rules depth 10
  handle-Keeps get_gmail_messages u = search handler_rules depth 10
  handle-Keeps send_gmail_message u = search handler_rules depth 10
  handle-Keeps get_gmail_labels u = search handler_rules depth 10
  handle-Keeps create_gmail_draft u = search handler_rules depth 10
  handle-Keeps get_gmail_drafts u = search handler_rules depth 10
  handle-Keeps create_gmail_rule u = search handler_rules depth 10
  handle-Keeps get_gmail_rules u = search handler_rules depth 10

auth_middleware-Keeps :
    (auth : AuthEnv) (next : Option Uuid → Action Response) (req : HttpRequest)
    → ((u : Option Uuid) → Keeps IsConsistent (next u))
    → Keeps IsConsistent (auth_middleware auth next req)
unfolding auth_middleware
auth_middleware-Keeps auth next req kn = search response_rules depth 12

module _ (env : Env) (login : LoginEnv) where
  generate_jwt-Keeps : (user : Uuid) → Keeps IsConsistent (generate_jwt env login user)
  unfolding generate_jwt
  generate_jwt-Keeps user = search keeps_rules

  connect-Keeps : (info : _) (token : _) → Keeps IsConsistent (connect env login info token)
  unfolding connect
  connect-Keeps info token =
      search (response_rules, create_user-Keeps, upsert_connected_account-Keeps, generate_jwt-Keeps)

  handle_google_callback-Keeps :
      (req : _) → Keeps IsConsistent (handle_google_callback env login req)
  unfolding handle_google_callback
  handle_google_callback-Keeps req = search (response_rules, connect-Keeps) depth 10

-- Every call of the server, whatever the request, the failures and the replies, leaves a consistent
-- database consistent.
pub serve_call-Keeps :
    (env : Env) (auth : AuthEnv) (login : LoginEnv) (call : ServerCall)
    → Keeps IsConsistent (serve_call env auth login call)
unfolding serve_call handle_health handle_google_login serve
serve_call-Keeps env auth login health = write_json-Keeps _ _
serve_call-Keeps env auth login google_login = search response_rules
serve_call-Keeps env auth login (google_callback req) = handle_google_callback-Keeps env login req
serve_call-Keeps env auth login (protected route req) =
    auth_middleware-Keeps auth (handle env auth route req) req (handle-Keeps env auth req route)
