-- ===== src/Worker/Calendar/Once.antt =====
-- internal/worker/calendar/calendar.go: how often a rule acts on an event.
use jeffrey_s_agenda_tool.Prelude.{
  ℕ, Text, text_eq, text_eq_refl, Bool, true, false, ◌&&◌, Option, none, some, List, [], ◌∷◌, ◌≡◌,
  refl, any, any-append, find_of_any, arith, if◌then◌else◌,
}
use jeffrey_s_agenda_tool.Json.{Json}
use jeffrey_s_agenda_tool.Domain.{
  Uuid, Time, ConnectedAccount, AutomationRule, AutomationLog, AutomationLogStatus,
}
use jeffrey_s_agenda_tool.Database.{Result, ok, account_has, rule_has}
use jeffrey_s_agenda_tool.Google.{Token, EventDateTime, CalendarEvent}
use jeffrey_s_agenda_tool.Action.{
  Env, World, Action, pure, settle, run_statement, continue, attempt, query, step, logged,
}
use jeffrey_s_agenda_tool.Store.Sql.{scan, select_row}
use jeffrey_s_agenda_tool.Store.Log.{
  new_log, insert_log, add_log, create_automation_log, is_log_for_trigger, json_field, field_text,
  text_of, has_log_for_trigger,
}
use jeffrey_s_agenda_tool.Worker.Calendar.{
  new_event, trigger_details, action_details, log_params, on_created, unless_logged, process_rule,
  process_event, fires, remind_with,
}
use jeffrey_s_agenda_tool.Worker.Calendar.Trigger.{unmarshal_trigger}
use jeffrey_s_agenda_tool.Worker.Calendar.Reminder.{unmarshal_action}
use jeffrey_s_agenda_tool.Worker.Calendar.Requests.{new_event-IsReminder}

-- The action succeeds, and leaves the tables and the requests as they are.
abbrev pub Untouched : Result (Unit {0}) × World → World → Type 0
Untouched r w = (r.0 ≡ ok tt) × (r.1.db ≡ w.db) × (r.1.requests ≡ w.requests)

-- A successful log makes the query find it.
has_log-found :
    (env : Env) (rule : Uuid) (event : Text) (w : World)
    → env.db_error w.tick ≡ none
    → any (is_log_for_trigger env rule event) w.db.automation_logs ≡ true
    → has_log_for_trigger env rule event w ≡ (ok true, step w)
unfolding has_log_for_trigger attempt query run_statement select_row scan settle continue pure
has_log-found env rule event w works logged =
    let (l, found) = find_of_any (is_log_for_trigger env rule event) w.db.automation_logs logged in
    rw (works, found) refl

module _ (env : Env) (token : Token) (acc : ConnectedAccount) (event : CalendarEvent)
    (rule : AutomationRule) where
  unless_logged-found :
      (remind : Action (Unit {0})) (w : World)
      → has_log_for_trigger env rule.id event.id w ≡ (ok true, step w)
      → Untouched (unless_logged env token acc event rule remind w) w
  unfolding unless_logged attempt continue pure
  unless_logged-found remind w found = rw found (refl, refl, refl)

  process_rule-branch :
      (b : Bool) (m : Action (Unit {0})) (w : World)
      → Untouched (m w) w
      → Untouched ((if b then m else pure tt) w) w
  unfolding pure
  process_rule-branch true m w h = h
  process_rule-branch false m w h = (refl, refl, refl)

  -- If the table holds a log of a success for this rule and this event, and the server answers the
  -- query for it, then processing the event by the rule succeeds, creates no reminder, sends nothing
  -- and leaves the tables as they are.
  pub process_rule-once :
      (w : World)
      → env.db_error w.tick ≡ none
      → any (is_log_for_trigger env rule.id event.id) w.db.automation_logs ≡ true
      → Untouched (process_rule env token acc event rule w) w
  unfolding process_rule
  process_rule-once w works logged =
      process_rule-branch
        (rule.is_active
          && fires env token acc event rule (unmarshal_trigger rule.trigger_conditions))
        (unless_logged env token acc event rule
          (remind_with env token acc event rule (unmarshal_action rule.action_params)))
        w (unless_logged-found _ w (has_log-found env rule.id event.id w works logged))

  created_log-matches :
      (now : Time) (id : _) (start : Time) (details : Option Json)
      → is_log_for_trigger env rule.id event.id (
          new_log now id
            (log_params env token acc event rule AutomationLogStatus.success start details []))
        ≡ true
  unfolding is_log_for_trigger json_field field_text text_of log_params trigger_details text_eq
  created_log-matches now id start details = ground (arith, text_eq_refl event.id)

  on_created-adds :
      (w : World) (start reminder : Time) (created : CalendarEvent)
      → any (account_has acc.id) w.db.connected_accounts ≡ true
      → any (rule_has rule.id) w.db.automation_rules ≡ true
      → env.db_error w.tick ≡ none
      → (l : AutomationLog) × ((on_created env token acc event rule start reminder created w).1
          ≡ record (step w) { db = add_log l w.db })
        × (is_log_for_trigger env rule.id event.id l ≡ true)
  unfolding on_created logged create_automation_log query insert_log attempt continue run_statement
      settle pure log_params
  on_created-adds w start reminder created has_account has_rule works =
      let details = action_details env token created.id created.summary reminder in
      let l =
        new_log (env.now w.tick) w.db.next_log_id (
          log_params env token acc event rule AutomationLogStatus.success start (some details)
            []) in
      (
        l,
        rw (works, has_account, has_rule) refl,
        created_log-matches (env.now w.tick) w.db.next_log_id start (some details),
      )

  -- After a reminder was created, if its account and its rule are still in the tables and the server
  -- answers, the log that is written makes a second processing of the event by the rule succeed and
  -- do nothing.
  pub on_created-process_rule :
      (w : World) (start reminder : Time) (created : CalendarEvent)
      → any (account_has acc.id) w.db.connected_accounts ≡ true
      → any (rule_has rule.id) w.db.automation_rules ≡ true
      → ((n : ℕ) → env.db_error n ≡ none)
      → let w' = (on_created env token acc event rule start reminder created w).1 in
        Untouched (process_rule env token acc event rule w') w'
  on_created-process_rule w start reminder created has_account has_rule works =
      let (l, added, matches) =
        on_created-adds w start reminder created has_account has_rule (works w.tick) in
      rw added (
        process_rule-once (record (step w) { db = add_log l w.db }) (works _)
          (ground (
            arith,
            any-append (is_log_for_trigger env rule.id event.id) w.db.automation_logs (l ∷ []),
          )))

  -- An event whose description is that of a reminder is passed over, whatever the rules are:
  -- nothing is read, written or sent.
  pub process_event-reminder :
      (reminder : CalendarEvent) (event_start event_end : EventDateTime)
      (rules : List AutomationRule) (start finish : Time) (title : Text) (w : World)
      → reminder.description
        ≡ (new_event env token event event_start event_end rule start finish title).description
      → process_event env token acc rules reminder w ≡ (ok tt, w)
  unfolding process_event pure
  process_event-reminder reminder event_start event_end rules start finish title w e =
      rw (e, new_event-IsReminder env token event event_start event_end rule start finish title)
        refl
