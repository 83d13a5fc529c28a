-- ===== src/Worker/Calendar/Requests.antt =====
-- internal/worker/calendar/calendar.go: the requests that the processing of events sends.
use jeffrey_s_agenda_tool.Prelude.{
  Text, has_prefix, true, Option, none, some, List, [], ◌∷◌, ◌≡◌, refl,
}
use jeffrey_s_agenda_tool.Domain.{ConnectedAccount, AutomationRule, Time, ActionParams}
use jeffrey_s_agenda_tool.Database.{Err}
use jeffrey_s_agenda_tool.Google.{
  Token, EventDateTime, CalendarEvent, Request, insert_event, update_event, delete_event,
  send_message, modify_message, create_label, create_draft,
}
use jeffrey_s_agenda_tool.Action.{Env, Action}
use jeffrey_s_agenda_tool.Action.Sends.{Sends, Sends-pure, Sends-crash, Sends-send, sends_rules}
use jeffrey_s_agenda_tool.Worker.Calendar.{
  reminder_prefix, event_exists, new_event, on_created, on_create_error, skip_existing,
  create_reminder, dereference, remind_at, remind_parsed, remind_with, unless_logged, process_rule,
  process_event, process_fetched, process_events,
}
use jeffrey_s_agenda_tool.Store.Requests.{
  create_automation_log-Sends, has_log_for_trigger-Sends, get_rules_for_account-Sends,
}

-- The request inserts an event that the worker recognises as its own.
abbrev pub IsReminder : Request → Type 0
IsReminder (insert_event token calendar event) = has_prefix event.description reminder_prefix ≡ true
IsReminder (send_message token thread raw) = ⊥
IsReminder (modify_message token id change) = ⊥
IsReminder (create_label token name) = ⊥
IsReminder (update_event token calendar id event) = ⊥
IsReminder (delete_event token calendar id) = ⊥
IsReminder (create_draft token raw) = ⊥

dereference-Sends :
    {Allowed : Request → Type 0} {A : Type 0} (o : Option EventDateTime)
    (k : EventDateTime → Action A)
    → ((t : EventDateTime) → Sends Allowed (k t))
    → Sends Allowed (dereference o k)
unfolding dereference
dereference-Sends none k kk = Sends-crash
dereference-Sends (some t) k kk = kk t

pub new_event-IsReminder :
    (env : Env) (token : Token) (event : CalendarEvent) (event_start event_end : EventDateTime)
    (rule : AutomationRule) (start finish : Time) (title : Text)
    → has_prefix
        (new_event env token event event_start event_end rule start finish title).description
        reminder_prefix
      ≡ true
unfolding new_event has_prefix
new_event-IsReminder env token event event_start event_end rule start finish title = refl

module _ (env : Env) (token : Token) where
  event_exists-Sends :
      {Allowed : Request → Type 0} (start finish : Time) (title : Text)
      → Sends Allowed (event_exists env token start finish title)
  unfolding event_exists
  event_exists-Sends start finish title = search sends_rules

  module _ (acc : ConnectedAccount) (event : CalendarEvent) (rule : AutomationRule) where
    on_created-Sends :
        (start reminder : Time) (c : CalendarEvent)
        → Sends IsReminder (on_created env token acc event rule start reminder c)
    unfolding on_created
    on_created-Sends start reminder c = search (sends_rules, create_automation_log-Sends)

    on_create_error-Sends :
        (start : Time) (e : Err)
        → Sends IsReminder (on_create_error env token acc event rule start e)
    unfolding on_create_error
    on_create_error-Sends start e = search (sends_rules, create_automation_log-Sends)

    skip_existing-Sends :
        (start reminder : Time) (title : Text)
        → Sends IsReminder (skip_existing env token acc event rule start reminder title)
    unfolding skip_existing
    skip_existing-Sends start reminder title = search (sends_rules, create_automation_log-Sends)

    create_reminder-Sends :
        (start reminder finish : Time) (title : Text)
        → Sends IsReminder (create_reminder env token acc event rule start reminder finish title)
    unfolding create_reminder
    create_reminder-Sends start reminder finish title = search (
      sends_rules, dereference-Sends, Sends-send, new_event-IsReminder, on_created-Sends,
      on_create_error-Sends,
    )

    remind_at-Sends :
        (action : ActionParams) (start : Time)
        → Sends IsReminder (remind_at env token acc event rule action start)
    unfolding remind_at
    remind_at-Sends action start =
        search (sends_rules, event_exists-Sends, skip_existing-Sends, create_reminder-Sends)

    remind_parsed-Sends :
        (action : ActionParams) (start : Option Time)
        → Sends IsReminder (remind_parsed env token acc event rule action start)
    unfolding remind_parsed
    remind_parsed-Sends action none = Sends-pure tt
    remind_parsed-Sends action (some start) = remind_at-Sends action start

    remind_with-Sends :
        (action : Option ActionParams)
        → Sends IsReminder (remind_with env token acc event rule action)
    unfolding remind_with
    remind_with-Sends none = Sends-pure tt
    remind_with-Sends (some action) = search (sends_rules, dereference-Sends, remind_parsed-Sends)

    pub process_rule-Sends : Sends IsReminder (process_rule env token acc event rule)
    unfolding process_rule unless_logged
    process_rule-Sends = search (sends_rules, has_log_for_trigger-Sends, remind_with-Sends)

  process_event-Sends :
      (acc : ConnectedAccount) (rules : List AutomationRule) (event : CalendarEvent)
      → Sends IsReminder (process_event env token acc rules event)
  unfolding process_event
  process_event-Sends acc rules event = search (sends_rules, process_rule-Sends)

  process_fetched-Sends :
      (acc : ConnectedAccount) (rules : List AutomationRule)
      → Sends IsReminder (process_fetched env token acc rules)
  unfolding process_fetched
  process_fetched-Sends acc [] = Sends-pure tt
  process_fetched-Sends acc (r ∷ rs) = search (sends_rules, process_event-Sends)

pub process_events-Sends :
    (env : Env) (acc : ConnectedAccount) (token : Token)
    → Sends IsReminder (process_events env acc token)
unfolding process_events
process_events-Sends env acc token =
    search (sends_rules, process_fetched-Sends, get_rules_for_account-Sends)
