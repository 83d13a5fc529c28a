-- ===== src/Worker/Calendar/Keeps.antt =====
-- internal/worker/calendar/calendar.go: what the processing of events keeps of the tables, if its logs do.
use jeffrey_s_agenda_tool.Prelude.{Text, Option, none, some, List, [], ◌∷◌}
use jeffrey_s_agenda_tool.Domain.{ConnectedAccount, AutomationRule, Time, ActionParams}
use jeffrey_s_agenda_tool.Database.{Err, Db}
use jeffrey_s_agenda_tool.Google.{Token, EventDateTime, CalendarEvent}
use jeffrey_s_agenda_tool.Action.{Env, Action}
use jeffrey_s_agenda_tool.Action.Keeps.{Keeps, Keeps-pure, Keeps-crash, keeps_rules}
use jeffrey_s_agenda_tool.Store.Sql.{store_rules}
use jeffrey_s_agenda_tool.Store.Log.{
  CreateLogParams, create_automation_log, found_nothing, has_log_for_trigger,
}
use jeffrey_s_agenda_tool.Store.Rule.{get_rules_for_account}
use jeffrey_s_agenda_tool.Worker.Calendar.{
  event_exists, on_created, on_create_error, skip_existing, create_reminder, dereference, remind_at,
  remind_parsed, remind_with, unless_logged, process_rule, process_event, process_fetched,
  process_events,
}

dereference-Keeps :
    {P : Db → Type 0} {A : Type 0} (o : Option EventDateTime) (k : EventDateTime → Action A)
    → ((t : EventDateTime) → Keeps P (k t))
    → Keeps P (dereference o k)
unfolding dereference
dereference-Keeps none k kk = Keeps-crash
dereference-Keeps (some t) k kk = kk t

found_nothing-Keeps : {P : Db → Type 0} (env : Env) (e : Err) → Keeps P (found_nothing env e)
unfolding found_nothing
found_nothing-Keeps env Err.no_rows = Keeps-pure _
found_nothing-Keeps env other = search keeps_rules

has_log_for_trigger-Keeps :
    {P : Db → Type 0} (env : Env) (k event : _) → Keeps P (has_log_for_trigger env k event)
unfolding has_log_for_trigger
has_log_for_trigger-Keeps env k event = search (store_rules, found_nothing-Keeps)

get_rules_for_account-Keeps :
    {P : Db → Type 0} (env : Env) (k : _) → Keeps P (get_rules_for_account env k)
unfolding get_rules_for_account
get_rules_for_account-Keeps env k = search store_rules

module _ {P : Db → Type 0} (env : Env)
    (logs : (arg : CreateLogParams) → Keeps P (create_automation_log env arg)) (token : Token) where
  event_exists-Keeps :
      (start finish : Time) (title : Text) → Keeps P (event_exists env token start finish title)
  unfolding event_exists
  event_exists-Keeps start finish title = search keeps_rules

  module _ (acc : ConnectedAccount) (event : CalendarEvent) (rule : AutomationRule) where
    on_created-Keeps :
        (start reminder : Time) (c : CalendarEvent)
        → Keeps P (on_created env token acc event rule start reminder c)
    unfolding on_created
    on_created-Keeps start reminder c = search (keeps_rules, logs)

    on_create_error-Keeps :
        (start : Time) (e : Err) → Keeps P (on_create_error env token acc event rule start e)
    unfolding on_create_error
    on_create_error-Keeps start e = search (keeps_rules, logs)

    skip_existing-Keeps :
        (start reminder : Time) (title : Text)
        → Keeps P (skip_existing env token acc event rule start reminder title)
    unfolding skip_existing
    skip_existing-Keeps start reminder title = search (keeps_rules, logs)

    create_reminder-Keeps :
        (start reminder finish : Time) (title : Text)
        → Keeps P (create_reminder env token acc event rule start reminder finish title)
    unfolding create_reminder
    create_reminder-Keeps start reminder finish title =
        search (keeps_rules, dereference-Keeps, on_created-Keeps, on_create_error-Keeps)

    remind_at-Keeps :
        (action : ActionParams) (start : Time)
        → Keeps P (remind_at env token acc event rule action start)
    unfolding remind_at
    remind_at-Keeps action start =
        search (keeps_rules, event_exists-Keeps, skip_existing-Keeps, create_reminder-Keeps)

    remind_parsed-Keeps :
        (action : ActionParams) (start : Option Time)
        → Keeps P (remind_parsed env token acc event rule action start)
    unfolding remind_parsed
    remind_parsed-Keeps action none = Keeps-pure tt
    remind_parsed-Keeps action (some start) = remind_at-Keeps action start

    remind_with-Keeps :
        (action : Option ActionParams) → Keeps P (remind_with env token acc event rule action)
    unfolding remind_with
    remind_with-Keeps none = Keeps-pure tt
    remind_with-Keeps (some action) = search (keeps_rules, dereference-Keeps, remind_parsed-Keeps)

    process_rule-Keeps : Keeps P (process_rule env token acc event rule)
    unfolding process_rule unless_logged
    process_rule-Keeps = search (keeps_rules, has_log_for_trigger-Keeps, remind_with-Keeps)

  process_event-Keeps :
      (acc : ConnectedAccount) (rules : List AutomationRule) (event : CalendarEvent)
      → Keeps P (process_event env token acc rules event)
  unfolding process_event
  process_event-Keeps acc rules event = search (keeps_rules, process_rule-Keeps)

  process_fetched-Keeps :
      (acc : ConnectedAccount) (rules : List AutomationRule)
      → Keeps P (process_fetched env token acc rules)
  unfolding process_fetched
  process_fetched-Keeps acc [] = Keeps-pure tt
  process_fetched-Keeps acc (r ∷ rs) = search (keeps_rules, process_event-Keeps)

pub process_events-Keeps :
    {P : Db → Type 0} (env : Env) (acc : ConnectedAccount) (token : Token)
    → ((arg : CreateLogParams) → Keeps P (create_automation_log env arg))
    → Keeps P (process_events env acc token)
unfolding process_events
process_events-Keeps env acc token logs =
    search (keeps_rules, process_fetched-Keeps env logs, get_rules_for_account-Keeps)
