-- ===== src/Api/Answers.antt =====
-- internal/api: the responses to the calls of the server.
pub mod Steps
use jeffrey_s_agenda_tool.Prelude.{ℕ, Text, Option, none, some, List, [], ◌∷◌, ◌≡◌, ◌≢◌, refl}
use jeffrey_s_agenda_tool.Domain.{Uuid}
use jeffrey_s_agenda_tool.Database.{Err}
use jeffrey_s_agenda_tool.Google.{Token, Message, Part, Reply, answer, failed}
use jeffrey_s_agenda_tool.Action.{Env, World, Action, receive, continue, attempt, ask, step}
use jeffrey_s_agenda_tool.Action.Returns.{Returns, returns_rules}
use jeffrey_s_agenda_tool.Action.Answers.{
  IsAnswer, Answers, Answers-pure, Answers-bind, answers_rules,
}
use jeffrey_s_agenda_tool.Api.{
  HttpRequest, CalendarChoice, Payload, Response, write_json, write_json_error, require, report,
  with_user,
}
use jeffrey_s_agenda_tool.Api.Auth.{AuthEnv, auth_middleware}
use jeffrey_s_agenda_tool.Api.Client.{get_calendar_client, get_gmail_client}
use jeffrey_s_agenda_tool.Api.Login.{
  LoginEnv, generate_jwt, connect, handle_google_login, handle_google_callback,
}
use jeffrey_s_agenda_tool.Api.Rule.{
  with_account, with_rule, handle_create_rule, handle_get_rules, handle_update_rule,
  handle_delete_rule, handle_toggle_rule,
}
use jeffrey_s_agenda_tool.Api.Account.{
  handle_get_me, handle_get_connected_accounts, handle_delete_connected_account,
  handle_get_automation_logs,
}
use jeffrey_s_agenda_tool.Api.Calendar.{
  or_from_now, with_named_account, with_calendar, with_event, chosen_events, aggregate,
  handle_create_event, handle_update_event, handle_delete_event, handle_get_calendar_events,
  handle_list_calendars, handle_get_aggregated_events,
}
use jeffrey_s_agenda_tool.Api.Gmail.{
  with_mailbox, with_gmail, with_mail, handle_get_gmail_messages, handle_send_gmail_message,
  handle_get_gmail_labels, handle_create_gmail_draft, handle_get_gmail_drafts,
  handle_create_gmail_rule, handle_get_gmail_rules,
}
use jeffrey_s_agenda_tool.Api.Gmail.Messages.{transform, transform_entry, transform_messages}
use jeffrey_s_agenda_tool.Api.Server.{
  Route, get_me, get_accounts, delete_account, create_rule, get_rules, update_rule, delete_rule,
  toggle_rule, get_logs, list_calendars, get_calendar_events, create_event, update_event,
  delete_event, get_aggregated_events, get_gmail_messages, send_gmail_message, get_gmail_labels,
  create_gmail_draft, get_gmail_drafts, create_gmail_rule, get_gmail_rules, handle, serve,
  ServerCall, health, google_login, google_callback, protected, handle_health, serve_call,
}
use jeffrey_s_agenda_tool.Store.Returns.{
  get_connected_account_by_id-Returns, get_valid_token_for_account-Returns,
  get_rules_for_account-Returns,
}
use jeffrey_s_agenda_tool.Store.Returns.Calls.{
  get_user_by_id-Returns, create_user-Returns, upsert_connected_account-Returns,
  get_accounts_for_user-Returns, delete_connected_account-Returns, create_automation_rule-Returns,
  get_rule_by_id-Returns, update_rule-Returns, toggle_rule_status-Returns, delete_rule-Returns,
  get_logs_for_account-Returns, create_gmail_automation_rule-Returns,
  get_gmail_rules_for_account-Returns,
}
use Steps.{
  GivesPayloads, Answers-write_json, Answers-write_json_error, Answers-report, Answers-require,
  attempt-ask-Answers, or_from_now-Answers, transform-Answers, transform_entry-Answers,
  transform_messages-Answers, response_rules, get_calendar_client-Returns, get_gmail_client-Returns,
  store_calls, with_account-Answers, with_rule-Answers, chosen_events-Answers, aggregate-Answers,
  handler_rules,
}

module _ (env : Env) (gives : GivesPayloads env) (auth : AuthEnv) (req : HttpRequest) where
  handle-Answers : (route : Route) (u : Option Uuid) → Answers (handle env auth route req u)
  unfolding handle with_user with_named_account with_calendar with_event with_mailbox with_gmail
      with_mail handle_get_me handle_get_connected_accounts handle_delete_connected_account
      handle_create_rule handle_get_rules handle_update_rule handle_delete_rule handle_toggle_rule
      handle_get_automation_logs handle_list_calendars handle_get_calendar_events
      handle_create_event handle_update_event handle_delete_event handle_get_aggregated_events
      handle_get_gmail_messages handle_send_gmail_message handle_get_gmail_labels
      handle_create_gmail_draft handle_get_gmail_drafts handle_create_gmail_rule
      handle_get_gmail_rules
  handle-Answers get_me u = search handler_rules depth 10
  handle-Answers get_accounts u = search handler_rules depth 10
  handle-Answers delete_account u = search handler_rules depth 10
  handle-Answers create_rule u = search handler_rules depth 10
  handle-Answers get_rules u = search handler_rules depth 10
  handle-Answers update_rule u = search handler_rules depth 10
  handle-Answers delete_rule u = search handler_rules depth 10
  handle-Answers toggle_rule u = search handler_rules depth 10
  handle-Answers get_logs u = search handler_rules depth 10
  handle-Answers list_calendars u = search handler_rules depth 10
  handle-Answers get_calendar_events u = search handler_rules depth 10
  handle-Answers create_event u = search handler_rules depth 10
  handle-Answers update_event u = search handler_rules depth 10
  handle-Answers delete_event u = search handler_rules depth 10
  handle-Answers get_aggregated_events u = search handler_rules depth 10
  handle-Answers get_gmail_messages u =
      search (handler_rules, transform_messages-Answers env gives) depth 10
  handle-Answers send_gmail_message u = search handler_rules depth 10
  handle-Answers get_gmail_labels u = search handler_rules depth 10
  handle-Answers create_gmail_draft u = search handler_rules depth 10
  handle-Answers get_gmail_drafts u = search handler_rules depth 10
  handle-Answers create_gmail_rule u = search handler_rules depth 10
  handle-Answers get_gmail_rules u = search handler_rules depth 10

auth_middleware-Answers :
    (auth : AuthEnv) (next : Option Uuid → Action Response) (req : HttpRequest)
    → ((u : Option Uuid) → Answers (next u))
    → Answers (auth_middleware auth next req)
unfolding auth_middleware
auth_middleware-Answers auth next req kn = search response_rules depth 12

module _ (env : Env) (login : LoginEnv) where
  generate_jwt-Returns : (user : Uuid) → Returns (generate_jwt env login user)
  unfolding generate_jwt
  generate_jwt-Returns user = search returns_rules

  connect-Answers : (info : _) (token : _) → Answers (connect env login info token)
  unfolding connect
  connect-Answers info token =
      search (
        response_rules, create_user-Returns, upsert_connected_account-Returns, generate_jwt-Returns,
      )

  handle_google_callback-Answers : (req : _) → Answers (handle_google_callback env login req)
  unfolding handle_google_callback
  handle_google_callback-Answers req = search (response_rules, connect-Answers) depth 10

serve_call-Answers :
    (env : Env) (auth : AuthEnv) (login : LoginEnv) (call : ServerCall)
    → GivesPayloads env
    → Answers (serve_call env auth login call)
unfolding serve_call handle_health handle_google_login serve
serve_call-Answers env auth login health gives = Answers-write_json _ _
serve_call-Answers env auth login google_login gives = search response_rules
serve_call-Answers env auth login (google_callback req) gives =
    handle_google_callback-Answers env login req
serve_call-Answers env auth login (protected route req) gives =
    auth_middleware-Answers auth (handle env auth route req) req
      (handle-Answers env gives auth req route)

-- If the service answers a request for a message with a payload, every call of the server is answered
-- with a response, whatever the request, the failures of the database and the other replies: no error
-- is left over, and nothing panics.
pub serve_call-IsAnswer :
    (env : Env) (auth : AuthEnv) (login : LoginEnv) (call : ServerCall) (w : World)
    → GivesPayloads env
    → IsAnswer (serve_call env auth login call w).0
serve_call-IsAnswer env auth login call w gives =
    (serve_call-Answers env auth login call gives).at w
