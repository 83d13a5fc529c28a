-- ===== src/Worker/Calendar.antt =====
-- internal/worker/calendar/calendar.go
pub mod Trigger
pub mod Reminder
pub mod Requests
pub mod Returns
pub mod Once
pub mod Keeps
pub mod Ticks
use jeffrey_s_agenda_tool.Prelude.{
  ℕ, Text, text, text_eq, has_prefix, is_empty, ℤ, pos, Bool, true, false, not, ◌&&◌, Option, none,
  some, List, [], ◌∷◌, any, ◌++◌, if◌then◌else◌,
}
use jeffrey_s_agenda_tool.Json.{Json, Fields}
use jeffrey_s_agenda_tool.Domain.{
  Uuid, Time, ConnectedAccount, AutomationRule, AutomationLogStatus, ActionParams,
  TriggerConditions,
}
use jeffrey_s_agenda_tool.Database.{Err}
use jeffrey_s_agenda_tool.Google.{
  Token, EventDateTime, CalendarEvent, ListQuery, Request, insert_event,
}
use jeffrey_s_agenda_tool.Action.{
  Env, Action, pure, crash, attempt, ask, send, logged, for_each, ◌>>=◌, ◌>>◌,
}
use jeffrey_s_agenda_tool.Store.Log.{CreateLogParams, create_automation_log, has_log_for_trigger}
use jeffrey_s_agenda_tool.Store.Rule.{get_rules_for_account}
use Trigger.{unmarshal_trigger, summary_matches, location_matches}
use Reminder.{unmarshal_action, reminder_time, end_time, minute_before, minute_after}

abbrev pub reminder_prefix : Text
reminder_prefix = text "Automatische reminder voor:"

-- event.Start or event.End is read: a nil pointer panics.
unfoldable pub dereference :
    {A : Type 0} → Option EventDateTime → (EventDateTime → Action A) → Action A
dereference none k = crash
dereference (some t) k = k t

module _ (env : Env) (token : Token) where
  -- Is there an event of this title in the window of the reminder? An error counts as no.
  unfoldable pub event_exists : Time → Time → Text → Action Bool
  event_exists start finish title =
      attempt
        (ask λ n. env.google.list_events n token (text "primary") (record {
          time_min = env.format_time (minute_before start);
          time_max = env.format_time (minute_after finish);
          max_results = none;
          order_by = [];
        }))
        (λ _. pure false) (λ items. pure (any (λ i. text_eq i.summary title) items))

  unfoldable pub new_event :
      CalendarEvent
      → EventDateTime
      → EventDateTime
      → AutomationRule
      → Time
      → Time
      → Text
      → CalendarEvent
  new_event event event_start event_end rule start finish title = record {
    id = [];
    summary = title;
    description =
        text "Automatische reminder voor: "
        ++ (event.summary ++ (text "\nGemaakt door regel: " ++ rule.name));
    location = [];
    start = some (record { date_time = env.format_time start; time_zone = event_start.time_zone });
    finish = some (record { date_time = env.format_time finish; time_zone = event_end.time_zone });
  }

  -- json.Marshal of TriggerLogDetails and ActionLogDetails
  unfoldable pub trigger_details : CalendarEvent → Time → Json
  trigger_details event start = Json.obj (
      Fields.field (text "google_event_id") (Json.str event.id) (
        Fields.field (text "trigger_summary") (Json.str event.summary)
          (Fields.field (text "trigger_time") (Json.str (env.marshal_time start)) Fields.end)))

  unfoldable pub action_details : Text → Text → Time → Json
  action_details id summary reminder = Json.obj (
      Fields.field (text "created_event_id") (Json.str id) (
        Fields.field (text "created_event_summary") (Json.str summary)
          (Fields.field (text "reminder_time") (Json.str (env.marshal_time reminder)) Fields.end)))

  module _ (acc : ConnectedAccount) (event : CalendarEvent) (rule : AutomationRule) where
    unfoldable pub log_params : AutomationLogStatus → Time → Option Json → Text → CreateLogParams
    unfolding trigger_details
    log_params status start details message = record {
      connected_account_id = acc.id;
      rule_id = some rule.id;
      status = status;
      trigger_details = some (trigger_details event start);
      action_details = details;
      error_message = message;
    }

    unfoldable pub on_created : Time → Time → CalendarEvent → Action (Unit {0})
    unfolding log_params action_details
    on_created start reminder created = logged (
        create_automation_log env (
          log_params AutomationLogStatus.success start
            (some (action_details created.id created.summary reminder)) []))

    unfoldable pub on_create_error : Time → Err → Action (Unit {0})
    unfolding log_params
    on_create_error start e = logged (
        create_automation_log env
          (log_params AutomationLogStatus.failure start none (env.error_text e)))

    unfoldable pub skip_existing : Time → Time → Text → Action (Unit {0})
    unfolding log_params action_details
    skip_existing start reminder title = logged (
        create_automation_log env (
          log_params AutomationLogStatus.skipped start
            (some (action_details (text "unknown-pre-existing") title reminder)) []))

    unfoldable pub create_reminder : Time → Time → Time → Text → Action (Unit {0})
    unfolding new_event dereference
    create_reminder start reminder finish title = dereference event.start λ event_start.
        dereference event.finish λ event_end.
          let created = new_event event event_start event_end rule reminder finish title in
          attempt
            (send (insert_event token (text "primary") created)
              (λ n. env.google.event_inserted n created))
            (on_create_error start) (on_created start reminder)

    unfoldable pub remind_at : ActionParams → Time → Action (Unit {0})
    remind_at action start = do
      let reminder = reminder_time start action
      let finish = end_time reminder action
      found ← event_exists reminder finish action.new_event_title
      if found
          then skip_existing start reminder action.new_event_title
          else create_reminder start reminder finish action.new_event_title

    unfoldable pub remind_parsed : ActionParams → Option Time → Action (Unit {0})
    remind_parsed action none = pure tt
    remind_parsed action (some start) = remind_at action start

    unfoldable pub remind_with : Option ActionParams → Action (Unit {0})
    unfolding dereference
    remind_with none = pure tt
    remind_with (some action) =
        if is_empty action.new_event_title
        then pure tt
        else dereference event.start
            λ event_start. remind_parsed action (env.parse_time event_start.date_time)

    -- An error of the log query is reported and counts as no log.
    unfoldable pub unless_logged : Action (Unit {0}) → Action (Unit {0})
    unless_logged remind =
        attempt (has_log_for_trigger env rule.id event.id) (λ _. remind)
          (λ has_logged. if has_logged then pure tt else remind)

    unfoldable pub fires : Option TriggerConditions → Bool
    fires none = false
    fires (some trigger) =
        summary_matches trigger event.summary
        && location_matches env.to_lower trigger event.location

    -- One round of the inner loop.
    unfoldable pub process_rule : Action (Unit {0})
    unfolding fires
    process_rule =
        if rule.is_active && fires (unmarshal_trigger rule.trigger_conditions)
        then unless_logged (remind_with (unmarshal_action rule.action_params))
        else pure tt

  -- One round of the outer loop: events that the program made itself are passed over.
  unfoldable pub process_event :
      ConnectedAccount → List AutomationRule → CalendarEvent → Action (Unit {0})
  process_event acc rules event =
      if has_prefix event.description reminder_prefix
      then pure tt
      else for_each rules (process_rule acc event)

  abbrev pub all_events : ListQuery
  all_events = record {
    time_min = env.format_time (pos 0);
    time_max = env.format_time (pos 4_102_444_800_000_000_000);
    max_results = some 2500;
    order_by = text "startTime";
  }

  unfoldable pub process_fetched : ConnectedAccount → List AutomationRule → Action (Unit {0})
  process_fetched acc [] = pure tt
  process_fetched acc (r ∷ rs) = do
    ask (env.google.new_service)
    events ← ask (λ n. env.google.list_events n token (text "primary") all_events)
    for_each events (process_event acc (r ∷ rs))

unfoldable pub process_events : Env → ConnectedAccount → Token → Action (Unit {0})
process_events env acc token = do
  rules ← get_rules_for_account env acc.id
  process_fetched env token acc rules
