-- ===== src/Api/Server.antt =====
-- internal/api/server.go: the routes of the API.
use jeffrey_s_agenda_tool.Prelude.{text, Option}
use jeffrey_s_agenda_tool.Domain.{Uuid}
use jeffrey_s_agenda_tool.Action.{Env, Action}
use jeffrey_s_agenda_tool.Api.{HttpRequest, Payload, Response, write_json}
use jeffrey_s_agenda_tool.Api.Auth.{AuthEnv, auth_middleware}
use jeffrey_s_agenda_tool.Api.Login.{
  LoginEnv, CallbackRequest, handle_google_login, handle_google_callback,
}
use jeffrey_s_agenda_tool.Api.Rule
use jeffrey_s_agenda_tool.Api.Account
use jeffrey_s_agenda_tool.Api.Calendar
use jeffrey_s_agenda_tool.Api.Gmail

-- The routes behind authMiddleware; /me and /users/me are one.
pub data Route : Type 0 where
  get_me get_accounts delete_account create_rule get_rules update_rule delete_rule toggle_rule :
      Route
  get_logs list_calendars get_calendar_events create_event update_event delete_event : Route
  get_aggregated_events get_gmail_messages send_gmail_message get_gmail_labels : Route
  create_gmail_draft get_gmail_drafts create_gmail_rule get_gmail_rules : Route

-- internal/api/health/health.go: HandleHealth
unfoldable pub handle_health : Action Response
unfolding write_json
handle_health = write_json 200 (Payload.health_status (text "ok"))

module _ (env : Env) (auth : AuthEnv) where
  unfoldable pub handle : Route → HttpRequest → Option Uuid → Action Response
  handle get_me req user = Account.handle_get_me env auth.parse_uuid user req
  handle get_accounts req user = Account.handle_get_connected_accounts env auth.parse_uuid user req
  handle delete_account req user =
      Account.handle_delete_connected_account env auth.parse_uuid user req
  handle create_rule req user = Rule.handle_create_rule env auth.parse_uuid user req
  handle get_rules req user = Rule.handle_get_rules env auth.parse_uuid user req
  handle update_rule req user = Rule.handle_update_rule env auth.parse_uuid user req
  handle delete_rule req user = Rule.handle_delete_rule env auth.parse_uuid user req
  handle toggle_rule req user = Rule.handle_toggle_rule env auth.parse_uuid user req
  handle get_logs req user = Account.handle_get_automation_logs env auth.parse_uuid user req
  handle list_calendars req user = Calendar.handle_list_calendars env auth.parse_uuid req
  handle get_calendar_events req user = Calendar.handle_get_calendar_events env auth.parse_uuid req
  handle create_event req user = Calendar.handle_create_event env auth.parse_uuid req
  handle update_event req user = Calendar.handle_update_event env auth.parse_uuid req
  handle delete_event req user = Calendar.handle_delete_event env auth.parse_uuid req
  handle get_aggregated_events req user =
      Calendar.handle_get_aggregated_events env auth.parse_uuid user req
  handle get_gmail_messages req user = Gmail.handle_get_gmail_messages env auth.parse_uuid req
  handle send_gmail_message req user = Gmail.handle_send_gmail_message env auth.parse_uuid req
  handle get_gmail_labels req user = Gmail.handle_get_gmail_labels env auth.parse_uuid req
  handle create_gmail_draft req user = Gmail.handle_create_gmail_draft env auth.parse_uuid req
  handle get_gmail_drafts req user = Gmail.handle_get_gmail_drafts env auth.parse_uuid req
  handle create_gmail_rule req user = Gmail.handle_create_gmail_rule env auth.parse_uuid user req
  handle get_gmail_rules req user = Gmail.handle_get_gmail_rules env auth.parse_uuid user req

  unfoldable pub serve : Route → HttpRequest → Action Response
  unfolding handle auth_middleware
  serve route req = auth_middleware auth (handle route req) req

-- Every request to the server, by the route that the router chooses for it.
pub data ServerCall : Type 0 where
  health google_login : ServerCall
  google_callback : CallbackRequest → ServerCall
  protected : Route → HttpRequest → ServerCall

module _ (env : Env) (auth : AuthEnv) (login : LoginEnv) where
  unfoldable pub serve_call : ServerCall → Action Response
  serve_call health = handle_health
  serve_call google_login = handle_google_login env login
  serve_call (google_callback req) = handle_google_callback env login req
  serve_call (protected route req) = serve env auth route req
