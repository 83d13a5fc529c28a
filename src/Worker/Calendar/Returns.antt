-- ===== src/Worker/Calendar/Returns.antt =====
-- internal/worker/calendar/calendar.go: panics in the processing of events.
use jeffrey_s_agenda_tool.Prelude.{ℕ, ◌≡◌, ◌≢◌, refl, All, Text, Option, none, some, List, [], ◌∷◌}
use jeffrey_s_agenda_tool.Domain.{ConnectedAccount, AutomationRule, Time, ActionParams}
use jeffrey_s_agenda_tool.Database.{Err}
use jeffrey_s_agenda_tool.Google.{Token, EventDateTime, CalendarEvent, ListQuery, answer}
use jeffrey_s_agenda_tool.Action.{Env, Action}
use jeffrey_s_agenda_tool.Action.Returns.{
  Returns, Returns-pure, Returns-if, Returns-then, Returns-ask, Returns-bind-ask,
  Returns-for_each-All, Returns-send, returns_rules,
}
use jeffrey_s_agenda_tool.Worker.Calendar.{
  event_exists, on_created, on_create_error, skip_existing, create_reminder, dereference, remind_at,
  remind_parsed, remind_with, unless_logged, process_rule, process_event, process_fetched,
  process_events,
}
use jeffrey_s_agenda_tool.Store.Returns.{
  create_automation_log-Returns, has_log_for_trigger-Returns, get_rules_for_account-Returns,
}

-- An event with a start and an end, as the Calendar API documents it of the events that it lists.
abbrev pub HasTimes : CalendarEvent → Type 0
HasTimes event = (event.start ≢ none) × (event.finish ≢ none)

abbrev pub GivesTimes : Env → Type 0
GivesTimes env =
    (n : ℕ) (t : Token) (calendar : Text) (q : ListQuery) (events : List CalendarEvent)
    → env.google.list_events n t calendar q ≡ answer events
    → All HasTimes events

dereference-Returns :
    {A : Type 0} (o : Option EventDateTime) (k : EventDateTime → Action A)
    → o ≢ none
    → ((t : EventDateTime) → Returns (k t))
    → Returns (dereference o k)
unfolding dereference
dereference-Returns none k given kk = absurd (given refl)
dereference-Returns (some t) k given kk = kk t

module _ (env : Env) (token : Token) where
  event_exists-Returns :
      (start finish : Time) (title : Text) → Returns (event_exists env token start finish title)
  unfolding event_exists
  event_exists-Returns start finish title = search returns_rules

  module _ (acc : ConnectedAccount) (event : CalendarEvent) (rule : AutomationRule) where
    on_created-Returns :
        (start reminder : Time) (c : CalendarEvent)
        → Returns (on_created env token acc event rule start reminder c)
    unfolding on_created
    on_created-Returns start reminder c = search (returns_rules, create_automation_log-Returns)

    on_create_error-Returns :
        (start : Time) (e : Err) → Returns (on_create_error env token acc event rule start e)
    unfolding on_create_error
    on_create_error-Returns start e = search (returns_rules, create_automation_log-Returns)

    skip_existing-Returns :
        (start reminder : Time) (title : Text)
        → Returns (skip_existing env token acc event rule start reminder title)
    unfolding skip_existing
    skip_existing-Returns start reminder title =
        search (returns_rules, create_automation_log-Returns)

    create_reminder-Returns :
        (start reminder finish : Time) (title : Text)
        → HasTimes event
        → Returns (create_reminder env token acc event rule start reminder finish title)
    unfolding create_reminder
    create_reminder-Returns start reminder finish title (has_start, has_end) =
        dereference-Returns event.start _ has_start λ event_start.
          dereference-Returns event.finish _ has_end λ event_end.
            search (returns_rules, Returns-send, on_created-Returns, on_create_error-Returns)

    remind_at-Returns :
        (action : ActionParams) (start : Time)
        → HasTimes event
        → Returns (remind_at env token acc event rule action start)
    unfolding remind_at
    remind_at-Returns action start times =
        search (returns_rules, event_exists-Returns, skip_existing-Returns, create_reminder-Returns)

    remind_parsed-Returns :
        (action : ActionParams) (start : Option Time)
        → HasTimes event
        → Returns (remind_parsed env token acc event rule action start)
    unfolding remind_parsed
    remind_parsed-Returns action none times = Returns-pure tt
    remind_parsed-Returns action (some start) times = remind_at-Returns action start times

    remind_with-Returns :
        (action : Option ActionParams)
        → HasTimes event
        → Returns (remind_with env token acc event rule action)
    unfolding remind_with
    remind_with-Returns none times = Returns-pure tt
    remind_with-Returns (some action) times = Returns-if _ _ _ (Returns-pure tt) (
        dereference-Returns event.start _ times.0
          (λ event_start. remind_parsed-Returns action _ times))

    process_rule-Returns : HasTimes event → Returns (process_rule env token acc event rule)
    unfolding process_rule unless_logged
    process_rule-Returns times =
        search (returns_rules, has_log_for_trigger-Returns, remind_with-Returns)

  process_event-Returns :
      (acc : ConnectedAccount) (rules : List AutomationRule) (event : CalendarEvent)
      → HasTimes event
      → Returns (process_event env token acc rules event)
  unfolding process_event
  process_event-Returns acc rules event times = search (returns_rules, process_rule-Returns)

  process_fetched-Returns :
      (acc : ConnectedAccount) (rules : List AutomationRule)
      → GivesTimes env
      → Returns (process_fetched env token acc rules)
  unfolding process_fetched
  process_fetched-Returns acc [] gives = Returns-pure tt
  process_fetched-Returns acc (r ∷ rs) gives = Returns-then _ _ (Returns-ask _) (
      Returns-bind-ask _ _ λ n events given.
        Returns-for_each-All HasTimes events _ (gives n token _ _ events given)
          (process_event-Returns acc (r ∷ rs)))

pub process_events-Returns :
    (env : Env) (acc : ConnectedAccount) (token : Token)
    → GivesTimes env
    → Returns (process_events env acc token)
unfolding process_events
process_events-Returns env acc token gives =
    search (returns_rules, process_fetched-Returns, get_rules_for_account-Returns)
