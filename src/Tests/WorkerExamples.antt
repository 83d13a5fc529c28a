-- ===== src/Tests/WorkerExamples.antt =====
-- The theorems on internal/worker at the small installation.
use jeffrey_s_agenda_tool.Worker.Gmail.Payload.{get_header_value}
use jeffrey_s_agenda_tool.Worker.Gmail.Match.{check_rule_match}
use jeffrey_s_agenda_tool.Worker.Gmail.Match.Spec.{
  HeaderHolds, check_rule_match-sender_match, check_rule_match-subject_match,
}
use jeffrey_s_agenda_tool.Tests.Mail.{
  from_header, boss_part, boss_mail, sender_rule, subject_rule, sender_decoded, subject_decoded,
}
use jeffrey_s_agenda_tool.Prelude.{
  Text, text, pos, negsuc, true, ◌&&◌, some, List, [], ◌∷◌, ◌++◌, ◌≡◌, refl, ◌↔◌, All, ltb_ℤ, ◌+ℤ◌,
  ◌*ℤ◌, arith,
}
use jeffrey_s_agenda_tool.Domain.{Time}
use jeffrey_s_agenda_tool.Database.{ok}
use jeffrey_s_agenda_tool.Google.{Request}
use jeffrey_s_agenda_tool.Action.Returns.{IsReturn}
use jeffrey_s_agenda_tool.Worker.Returns.{check_accounts-IsReturn}
use jeffrey_s_agenda_tool.Store.Gmail.{get_gmail_sync_state}
use jeffrey_s_agenda_tool.Store.Account.Rows.{HasRow}
use jeffrey_s_agenda_tool.Worker.Checked.{IsCheckedFrom, check_accounts-IsCheckedFrom}
use jeffrey_s_agenda_tool.Worker.{check_accounts}
use jeffrey_s_agenda_tool.Worker.Requests.{check_accounts-reminders}
use jeffrey_s_agenda_tool.Worker.Calendar.{new_event, on_created, process_rule, process_event}
use jeffrey_s_agenda_tool.Worker.Calendar.Trigger.{summary_matches, location_matches}
use jeffrey_s_agenda_tool.Worker.Calendar.Trigger.Spec.{SummaryFires, PlaceFires, trigger_iff}
use jeffrey_s_agenda_tool.Worker.Calendar.Reminder.{
  minute, minutes, or_default, reminder_time, end_time,
}
use jeffrey_s_agenda_tool.Worker.Calendar.Reminder.Bounds.{reminder_exact, minutes_overflow}
use jeffrey_s_agenda_tool.Worker.Calendar.Requests.{IsReminder}
use jeffrey_s_agenda_tool.Worker.Calendar.Once.{
  Untouched, process_rule-once, on_created-process_rule, process_event-reminder,
}
use jeffrey_s_agenda_tool.Worker.Gmail.{
  apply_rule, store_history_id, messages_to_process, incremental_sync,
}
use jeffrey_s_agenda_tool.Worker.Gmail.Unlogged.{apply_rule-unlogged}
use jeffrey_s_agenda_tool.Worker.Gmail.Cursor.{store_history_id-resumes}
use jeffrey_s_agenda_tool.Tests.Data.{
  event, event_time, token, env, account, rule, gmail_rule, mail, db, world, conditions, action,
  logged_world,
}
use jeffrey_s_agenda_tool.Tests.Facts.{logs_trigger, stored, gives_times}

check_accounts-reminders_example :
    (new : List Request) × ((check_accounts env world).1.requests ≡ new ++ []) × All IsReminder new
check_accounts-reminders_example = check_accounts-reminders env world

on_created-process_rule_example :
    Untouched
      (process_rule env token account event rule
        (on_created env token account event rule (pos 0) (pos 0) event world).1)
      (on_created env token account event rule (pos 0) (pos 0) event world).1
on_created-process_rule_example =
    on_created-process_rule env token account event rule world (pos 0) (pos 0) event refl refl
      (λ n. refl)

process_event-reminder_example :
    process_event env token account
      (rule ∷ [])
      (new_event env token event event_time event_time rule (pos 0) (pos 0) (text "Vertrek"))
      world
    ≡ (ok tt, world)
process_event-reminder_example =
    process_event-reminder env token account event rule
      (new_event env token event event_time event_time rule (pos 0) (pos 0) (text "Vertrek"))
      event_time event_time (rule ∷ []) (pos 0) (pos 0) (text "Vertrek") world refl

apply_rule-unlogged_example : (apply_rule env token account mail gmail_rule world).1.db ≡ db
apply_rule-unlogged_example = apply_rule-unlogged env token account mail gmail_rule world refl

store_history_id-resumes_example :
    (state : Text × Time) × ((get_gmail_sync_state env 2
        (store_history_id env token account 42 world).1).0
      ≡ ok state)
    × (messages_to_process env token account (some state)
        ≡ incremental_sync env token account (some 42))
store_history_id-resumes_example =
    store_history_id-resumes env token account 41 world (omega arith) (λ n. refl) refl

trigger_iff_example :
    ((summary_matches conditions (text "Dienst A")
        && location_matches (λ t. t) conditions (text "Utrecht"))
      ≡ true)
    ↔ (SummaryFires conditions (text "Dienst A")
        × PlaceFires (λ t. t) (text "Utrecht" ∷ []) (text "Utrecht"))
trigger_iff_example = trigger_iff (λ t. t) conditions (text "Dienst A") (text "Utrecht")

reminder_exact_example :
    (reminder_time (pos 0) action ≡ pos 0 +ℤ or_default (negsuc 29) (negsuc 59) *ℤ minute)
    × (end_time (reminder_time (pos 0) action) action
        ≡ pos 0
          +ℤ or_default (negsuc 29) (negsuc 59) *ℤ minute
          +ℤ or_default (pos 0) (pos 5) *ℤ minute)
reminder_exact_example = reminder_exact (pos 0) action (omega arith) (omega arith)

minutes_overflow_example : ltb_ℤ (minutes (pos 200_000_000)) (pos 0) ≡ true
minutes_overflow_example = minutes_overflow 200_000_000 (omega arith) (omega arith)

process_rule-once_example :
    Untouched (process_rule env token account event rule logged_world) logged_world
process_rule-once_example =
    process_rule-once env token account event rule logged_world refl logs_trigger

check_accounts-IsReturn_example : IsReturn (check_accounts env world).0
check_accounts-IsReturn_example = check_accounts-IsReturn env world gives_times

check_rule_match-sender_match_example :
    (check_rule_match (λ t. t) boss_mail sender_rule ≡ ok true)
    ↔ HeaderHolds (λ t. t) (get_header_value (from_header ∷ []) (text "From")) (text "boss")
check_rule_match-sender_match_example =
    check_rule_match-sender_match (λ t. t) boss_mail sender_rule boss_part (text "boss") refl refl
      sender_decoded

check_rule_match-subject_match_example :
    (check_rule_match (λ t. t) boss_mail subject_rule ≡ ok true)
    ↔ HeaderHolds (λ t. t) (get_header_value (from_header ∷ []) (text "Subject")) (text "boss")
check_rule_match-subject_match_example =
    check_rule_match-subject_match (λ t. t) boss_mail subject_rule boss_part (text "boss") refl refl
      subject_decoded

check_accounts-IsCheckedFrom_example :
    HasRow 2 (IsCheckedFrom 0 env) (check_accounts env world).1.db
check_accounts-IsCheckedFrom_example =
    check_accounts-IsCheckedFrom env 2 token world account gives_times (λ n. refl) (λ n. refl) refl
      refl stored
