-- ===== src/Api/Calendar.antt =====
-- internal/api/calendar/calendar.go
pub mod Foreign
pub mod Owned
use jeffrey_s_agenda_tool.Prelude.{
  ℕ, Text, text, is_empty, not, ◌==◌, Option, none, some, List, [], ◌∷◌, ◌++◌, if◌then◌else◌,
}
use jeffrey_s_agenda_tool.Domain.{Uuid, Time}
use jeffrey_s_agenda_tool.Google.{
  Token, CalendarEvent, ListQuery, insert_event, update_event, delete_event,
}
use jeffrey_s_agenda_tool.Action.{Env, Action, pure, attempt, ask, send, clock, ◌>>=◌}
use jeffrey_s_agenda_tool.Store.Account.{get_connected_account_by_id}
use jeffrey_s_agenda_tool.Api.{
  HttpRequest, CalendarChoice, Payload, Response, write_json, write_json_error, require, with_user,
  report, first_value,
}
use jeffrey_s_agenda_tool.Api.Client.{get_calendar_client}

-- The calendar that is asked for, or the primary one.
unfoldable pub or_primary : Text → Text
unfolding is_empty
or_primary calendar = if is_empty calendar then text "primary" else calendar

module _ (env : Env) where
  -- A time that is not given is counted from the present.
  unfoldable pub or_from_now : (Time → Time) → Text → Action Text
  unfolding is_empty
  or_from_now shift t =
      if is_empty t then clock env >>= (λ now. pure (env.format_time (shift now))) else pure t

module _ (env : Env) (parse_uuid : Text → Option Uuid) (req : HttpRequest) where
  unfoldable pub calendar_id : Text
  unfolding or_primary first_value
  calendar_id = or_primary (first_value (req.query (text "calendarId")))

  -- The account of the URL, whose owner is not looked at.
  unfoldable pub with_named_account : (Uuid → Action Response) → Action Response
  unfolding require write_json_error
  with_named_account k =
      require (parse_uuid req.account_id) (write_json_error 400 (text "Ongeldig account ID")) k

  unfoldable pub with_calendar : Uuid → (Token → Action Response) → Action Response
  unfolding write_json_error
  with_calendar k use_client =
      attempt (get_calendar_client env k)
        (λ _. write_json_error 500 (text "Kon calendar client niet initialiseren")) use_client

  unfoldable pub with_event : (CalendarEvent → Action Response) → Action Response
  unfolding require write_json_error
  with_event k = require req.event (write_json_error 400 (text "Ongeldige request body")) k

  unfoldable pub handle_create_event : Action Response
  unfolding calendar_id with_named_account with_calendar with_event write_json report
  handle_create_event = with_named_account λ k. with_event λ event. with_calendar k λ token.
      attempt (send (insert_event token calendar_id event) (λ n. env.google.event_inserted n event))
        (report env 500 (text "Kon event niet creren: "))
        (λ created. write_json 201 (Payload.event created))

  unfoldable pub handle_update_event : Action Response
  unfolding calendar_id with_named_account with_calendar with_event write_json report
  handle_update_event = with_named_account λ k. with_event λ event. with_calendar k λ token.
      attempt
        (send (update_event token calendar_id req.event_id event)
          (λ n. env.google.event_updated n event))
        (report env 500 (text "Kon event niet updaten: "))
        (λ updated. write_json 200 (Payload.event updated))

  unfoldable pub handle_delete_event : Action Response
  unfolding calendar_id with_named_account with_calendar write_json report
  handle_delete_event = with_named_account λ k. with_calendar k λ token.
      attempt (send (delete_event token calendar_id req.event_id) env.google.event_deleted)
        (report env 500 (text "Kon event niet verwijderen: ")) (λ _. write_json 204 Payload.nothing)

  unfoldable pub handle_get_calendar_events : Action Response
  unfolding calendar_id with_named_account with_calendar or_from_now first_value write_json report
  handle_get_calendar_events = with_named_account λ k. do
    time_min ← or_from_now env (λ now. now) (first_value (req.query (text "timeMin")))
    time_max ←
        or_from_now env (λ now. env.add_months now 3) (first_value (req.query (text "timeMax")))
    with_calendar k λ token.
        attempt
          (ask λ n. env.google.list_events n token calendar_id (record {
            time_min = time_min;
            time_max = time_max;
            max_results = some 250;
            order_by = text "startTime";
          }))
          (report env 500 (text "Kon events niet ophalen: "))
          (λ events. write_json 200 (Payload.events events))

  unfoldable pub handle_list_calendars : Action Response
  unfolding with_named_account with_calendar write_json report
  handle_list_calendars = with_named_account λ k. with_calendar k λ token.
      attempt (ask λ n. env.google.list_calendars n token)
        (report env 500 (text "Kon calendars niet ophalen: "))
        (λ calendars. write_json 200 (Payload.calendars calendars))

module _ (env : Env) (parse_uuid : Text → Option Uuid) (user_id : Uuid)
    (time_min time_max : Text) where
  -- The events of one choice; none on any error, and for an account of another user.
  unfoldable pub chosen_events : CalendarChoice → Action (List CalendarEvent)
  unfolding require or_primary
  chosen_events choice = require (parse_uuid choice.account_id) (pure []) λ k.
      attempt (get_connected_account_by_id env k) (λ _. pure [])
        λ account.
          if not (account.user_id == user_id)
          then pure []
          else attempt (get_calendar_client env k) (λ _. pure [])
              λ token.
                attempt
                  (ask λ n. env.google.list_events n token (or_primary choice.calendar_id) (record {
                    time_min = time_min;
                    time_max = time_max;
                    max_results = none;
                    order_by = text "startTime";
                  }))
                  (λ _. pure []) pure

  -- The loop over the choices.
  unfoldable pub aggregate : List CalendarChoice → Action (List CalendarEvent)
  aggregate [] = pure []
  aggregate (choice ∷ rest) = do
    events ← chosen_events choice
    later ← aggregate rest
    pure (events ++ later)

unfoldable pub handle_get_aggregated_events :
    Env → (Text → Option Uuid) → Option Uuid → HttpRequest → Action Response
unfolding with_user require write_json write_json_error
handle_get_aggregated_events env parse_uuid user req = with_user user λ user_id.
    require req.choices (write_json_error 400 (text "Ongeldige request body")) λ choices. do
      now ← clock env
      events ←
          aggregate env parse_uuid user_id (env.format_time now)
            (env.format_time (env.add_months now 3)) choices
      write_json 200 (Payload.events events)
