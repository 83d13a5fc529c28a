-- ===== src/Api/Requests.antt =====
-- internal/api: the requests to Google that each route may send.
pub mod Allowed
pub mod Rules
pub mod Clients
pub mod Steps
pub mod Login
use jeffrey_s_agenda_tool.Prelude.{Option, some, refl}
use jeffrey_s_agenda_tool.Domain.{Uuid}
use jeffrey_s_agenda_tool.Google.{update_event, delete_event}
use jeffrey_s_agenda_tool.Action.{Env, World, Action}
use jeffrey_s_agenda_tool.Action.Adds.{AtMostOne, Adds, Adds-Quiet, Adds-send}
use Allowed.{Allows}
use Clients.{
  auth_middleware-Adds, with_named_account-Adds, with_event-Adds, with_mailbox-Adds, with_mail-Adds,
  with_calendar-Adds, with_gmail-Adds,
}
use jeffrey_s_agenda_tool.Api.{HttpRequest, Response, with_user, first_value}
use jeffrey_s_agenda_tool.Api.Auth.{AuthEnv}
use jeffrey_s_agenda_tool.Api.Rule.{
  handle_create_rule, handle_get_rules, handle_update_rule, handle_delete_rule, handle_toggle_rule,
}
use jeffrey_s_agenda_tool.Api.Account.{
  handle_get_me, handle_get_connected_accounts, handle_delete_connected_account,
  handle_get_automation_logs,
}
use jeffrey_s_agenda_tool.Api.Calendar.{
  or_primary, calendar_id, handle_create_event, handle_update_event, handle_delete_event,
  handle_get_calendar_events, handle_list_calendars, handle_get_aggregated_events,
}
use jeffrey_s_agenda_tool.Api.Gmail.{
  handle_get_gmail_messages, handle_send_gmail_message, handle_get_gmail_labels,
  handle_create_gmail_draft, handle_get_gmail_drafts, handle_create_gmail_rule,
  handle_get_gmail_rules,
}
use jeffrey_s_agenda_tool.Api.Server.{
  Route, get_me, get_accounts, delete_account, create_rule, get_rules, update_rule, delete_rule,
  toggle_rule, get_logs, list_calendars, get_calendar_events, create_event, update_event,
  delete_event, get_aggregated_events, get_gmail_messages, send_gmail_message, get_gmail_labels,
  create_gmail_draft, get_gmail_drafts, create_gmail_rule, get_gmail_rules, handle, serve,
}
use Steps.{response_rules, database_rules, google_rules}

module _ (env : Env) (auth : AuthEnv) (req : HttpRequest) where
  abbrev AddsOne : Route → Action Response → World → Type 0
  AddsOne route m w = Adds (Allows env auth.parse_uuid w route req) m w

  handle_create_event-Adds :
      (w : World) → AddsOne create_event (handle_create_event env auth.parse_uuid req) w
  unfolding handle_create_event calendar_id first_value or_primary
  handle_create_event-Adds w = with_named_account-Adds env auth.parse_uuid req _ w λ k parsed.
      with_event-Adds env auth.parse_uuid req _ w λ event read.
        with_calendar-Adds env auth.parse_uuid req k _ w λ token given.
          Adds-send _ _ _ _ _ ((k, parsed, given), read, refl) (λ e. search response_rules)
            (λ a. search response_rules)

  handle_update_event-Adds :
      (w : World) → AddsOne update_event (handle_update_event env auth.parse_uuid req) w
  unfolding handle_update_event calendar_id first_value or_primary
  handle_update_event-Adds w = with_named_account-Adds env auth.parse_uuid req _ w λ k parsed.
      with_event-Adds env auth.parse_uuid req _ w λ event read.
        with_calendar-Adds env auth.parse_uuid req k _ w λ token given.
          Adds-send _ _ _ _ _ ((k, parsed, given), read, refl, refl) (λ e. search response_rules)
            (λ a. search response_rules)

  handle_delete_event-Adds :
      (w : World) → AddsOne delete_event (handle_delete_event env auth.parse_uuid req) w
  unfolding handle_delete_event calendar_id first_value or_primary
  handle_delete_event-Adds w = with_named_account-Adds env auth.parse_uuid req _ w λ k parsed.
      with_calendar-Adds env auth.parse_uuid req k _ w λ token given.
        Adds-send _ _ _ _ _ ((k, parsed, given), refl, refl) (λ e. search response_rules)
          (λ a. search response_rules)

  handle_send_gmail_message-Adds :
      (w : World) → AddsOne send_gmail_message (handle_send_gmail_message env auth.parse_uuid req) w
  unfolding handle_send_gmail_message
  handle_send_gmail_message-Adds w = with_mailbox-Adds env auth.parse_uuid req _ w λ k parsed.
      with_mail-Adds env auth.parse_uuid req _ w λ mail read.
        with_gmail-Adds env auth.parse_uuid req k _ w λ token given.
          Adds-send _ _ _ _ _ ((k, parsed, given), refl, mail, read, refl)
            (λ e. search response_rules) (λ a. search response_rules)

  handle_create_gmail_draft-Adds :
      (w : World) → AddsOne create_gmail_draft (handle_create_gmail_draft env auth.parse_uuid req) w
  unfolding handle_create_gmail_draft
  handle_create_gmail_draft-Adds w = with_mailbox-Adds env auth.parse_uuid req _ w λ k parsed.
      with_mail-Adds env auth.parse_uuid req _ w λ mail read.
        with_gmail-Adds env auth.parse_uuid req k _ w λ token given.
          Adds-send _ _ _ _ _ ((k, parsed, given), mail, read, refl) (λ e. search response_rules)
            (λ a. search response_rules)

  handle-Adds :
      (route : Route) (u : Option Uuid) (w : World) → AddsOne route (handle env auth route req u) w
  unfolding handle with_user calendar_id first_value or_primary handle_get_me
      handle_get_connected_accounts handle_delete_connected_account handle_create_rule
      handle_get_rules handle_update_rule handle_delete_rule handle_toggle_rule
      handle_get_automation_logs handle_list_calendars handle_get_calendar_events
      handle_create_event handle_update_event handle_delete_event handle_get_aggregated_events
      handle_get_gmail_messages handle_send_gmail_message handle_get_gmail_labels
      handle_create_gmail_draft handle_get_gmail_drafts handle_create_gmail_rule
      handle_get_gmail_rules
  handle-Adds get_me u w = Adds-Quiet _ w (search database_rules depth 8)
  handle-Adds get_accounts u w = Adds-Quiet _ w (search database_rules depth 8)
  handle-Adds delete_account u w = Adds-Quiet _ w (search database_rules depth 8)
  handle-Adds create_rule u w = Adds-Quiet _ w (search database_rules depth 8)
  handle-Adds get_rules u w = Adds-Quiet _ w (search database_rules depth 8)
  handle-Adds update_rule u w = Adds-Quiet _ w (search database_rules depth 8)
  handle-Adds delete_rule u w = Adds-Quiet _ w (search database_rules depth 8)
  handle-Adds toggle_rule u w = Adds-Quiet _ w (search database_rules depth 8)
  handle-Adds get_logs u w = Adds-Quiet _ w (search database_rules depth 8)
  handle-Adds list_calendars u w = Adds-Quiet _ w (search google_rules depth 8)
  handle-Adds get_calendar_events u w = Adds-Quiet _ w (search google_rules depth 8)
  handle-Adds create_event u w = handle_create_event-Adds w
  handle-Adds update_event u w = handle_update_event-Adds w
  handle-Adds delete_event u w = handle_delete_event-Adds w
  handle-Adds get_aggregated_events u w = Adds-Quiet _ w (search google_rules depth 8)
  handle-Adds get_gmail_messages u w = Adds-Quiet _ w (search google_rules depth 8)
  handle-Adds send_gmail_message u w = handle_send_gmail_message-Adds w
  handle-Adds get_gmail_labels u w = Adds-Quiet _ w (search google_rules depth 8)
  handle-Adds create_gmail_draft u w = handle_create_gmail_draft-Adds w
  handle-Adds get_gmail_drafts u w = Adds-Quiet _ w (search google_rules depth 8)
  handle-Adds create_gmail_rule u w = Adds-Quiet _ w (search database_rules depth 8)
  handle-Adds get_gmail_rules u w = Adds-Quiet _ w (search database_rules depth 8)

serve-Adds :
    (env : Env) (auth : AuthEnv) (route : Route) (req : HttpRequest) (w : World)
    → Adds (Allows env auth.parse_uuid w route req) (serve env auth route req) w
unfolding serve
serve-Adds env auth route req w =
    auth_middleware-Adds auth (handle env auth route req) req w
      (λ user. handle-Adds env auth req route (some user) w)

-- Serving a request sends at most one request to Google that changes something there. It has a valid
-- token of the account of the URL: creating, updating or deleting an event sends that change, for the
-- calendar and the event of the request; sending a mail and creating a draft send the mail of the
-- body. Every other route changes nothing at Google.
pub serve-Allows :
    (env : Env) (auth : AuthEnv) (route : Route) (req : HttpRequest) (w : World)
    → AtMostOne (Allows env auth.parse_uuid w route req) w (serve env auth route req w).1
serve-Allows env auth route req w = (serve-Adds env auth route req w).at
