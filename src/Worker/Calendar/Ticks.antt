-- ===== src/Worker/Calendar/Ticks.antt =====
-- internal/worker/calendar/calendar.go: the number of steps that the processing of events takes.
use jeffrey_s_agenda_tool.Prelude.{Text, Option, none, some, List, [], ◌∷◌}
use jeffrey_s_agenda_tool.Domain.{ConnectedAccount, AutomationRule, Time, ActionParams}
use jeffrey_s_agenda_tool.Database.{Err}
use jeffrey_s_agenda_tool.Google.{Token, EventDateTime, CalendarEvent}
use jeffrey_s_agenda_tool.Action.{Env, Action}
use jeffrey_s_agenda_tool.Action.Ticks.{Ticks, Ticks-pure, Ticks-crash, ticks_rules}
use jeffrey_s_agenda_tool.Store.Log.{
  CreateLogParams, create_automation_log, found_nothing, has_log_for_trigger,
}
use jeffrey_s_agenda_tool.Store.Rule.{get_rules_for_account}
use jeffrey_s_agenda_tool.Worker.Calendar.{
  event_exists, on_created, on_create_error, skip_existing, create_reminder, dereference, remind_at,
  remind_parsed, remind_with, unless_logged, process_rule, process_event, process_fetched,
  process_events,
}

dereference-Ticks :
    {A : Type 0} (o : Option EventDateTime) (k : EventDateTime → Action A)
    → ((t : EventDateTime) → Ticks (k t))
    → Ticks (dereference o k)
unfolding dereference
dereference-Ticks none k kk = Ticks-crash
dereference-Ticks (some t) k kk = kk t

create_automation_log-Ticks :
    (env : Env) (arg : CreateLogParams) → Ticks (create_automation_log env arg)
unfolding create_automation_log
create_automation_log-Ticks env arg = search ticks_rules

found_nothing-Ticks : (env : Env) (e : Err) → Ticks (found_nothing env e)
unfolding found_nothing
found_nothing-Ticks env Err.no_rows = Ticks-pure _
found_nothing-Ticks env other = search ticks_rules

has_log_for_trigger-Ticks : (env : Env) (k event : _) → Ticks (has_log_for_trigger env k event)
unfolding has_log_for_trigger
has_log_for_trigger-Ticks env k event = search (ticks_rules, found_nothing-Ticks)

get_rules_for_account-Ticks : (env : Env) (k : _) → Ticks (get_rules_for_account env k)
unfolding get_rules_for_account
get_rules_for_account-Ticks env k = search ticks_rules

module _ (env : Env) (token : Token) where
  event_exists-Ticks :
      (start finish : Time) (title : Text) → Ticks (event_exists env token start finish title)
  unfolding event_exists
  event_exists-Ticks start finish title = search ticks_rules

  module _ (acc : ConnectedAccount) (event : CalendarEvent) (rule : AutomationRule) where
    on_created-Ticks :
        (start reminder : Time) (c : CalendarEvent)
        → Ticks (on_created env token acc event rule start reminder c)
    unfolding on_created
    on_created-Ticks start reminder c = search (ticks_rules, create_automation_log-Ticks)

    on_create_error-Ticks :
        (start : Time) (e : Err) → Ticks (on_create_error env token acc event rule start e)
    unfolding on_create_error
    on_create_error-Ticks start e = search (ticks_rules, create_automation_log-Ticks)

    skip_existing-Ticks :
        (start reminder : Time) (title : Text)
        → Ticks (skip_existing env token acc event rule start reminder title)
    unfolding skip_existing
    skip_existing-Ticks start reminder title = search (ticks_rules, create_automation_log-Ticks)

    create_reminder-Ticks :
        (start reminder finish : Time) (title : Text)
        → Ticks (create_reminder env token acc event rule start reminder finish title)
    unfolding create_reminder
    create_reminder-Ticks start reminder finish title =
        search (ticks_rules, dereference-Ticks, on_created-Ticks, on_create_error-Ticks)

    remind_at-Ticks :
        (action : ActionParams) (start : Time)
        → Ticks (remind_at env token acc event rule action start)
    unfolding remind_at
    remind_at-Ticks action start =
        search (ticks_rules, event_exists-Ticks, skip_existing-Ticks, create_reminder-Ticks)

    remind_parsed-Ticks :
        (action : ActionParams) (start : Option Time)
        → Ticks (remind_parsed env token acc event rule action start)
    unfolding remind_parsed
    remind_parsed-Ticks action none = Ticks-pure tt
    remind_parsed-Ticks action (some start) = remind_at-Ticks action start

    remind_with-Ticks :
        (action : Option ActionParams) → Ticks (remind_with env token acc event rule action)
    unfolding remind_with
    remind_with-Ticks none = Ticks-pure tt
    remind_with-Ticks (some action) = search (ticks_rules, dereference-Ticks, remind_parsed-Ticks)

    process_rule-Ticks : Ticks (process_rule env token acc event rule)
    unfolding process_rule unless_logged
    process_rule-Ticks = search (ticks_rules, has_log_for_trigger-Ticks, remind_with-Ticks)

  process_event-Ticks :
      (acc : ConnectedAccount) (rules : List AutomationRule) (event : CalendarEvent)
      → Ticks (process_event env token acc rules event)
  unfolding process_event
  process_event-Ticks acc rules event = search (ticks_rules, process_rule-Ticks)

  process_fetched-Ticks :
      (acc : ConnectedAccount) (rules : List AutomationRule)
      → Ticks (process_fetched env token acc rules)
  unfolding process_fetched
  process_fetched-Ticks acc [] = Ticks-pure tt
  process_fetched-Ticks acc (r ∷ rs) = search (ticks_rules, process_event-Ticks)

pub process_events-Ticks :
    (env : Env) (acc : ConnectedAccount) (token : Token) → Ticks (process_events env acc token)
unfolding process_events
process_events-Ticks env acc token =
    search (ticks_rules, process_fetched-Ticks env, get_rules_for_account-Ticks)
