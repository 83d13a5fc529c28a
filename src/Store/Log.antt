-- ===== src/Store/Log.antt =====
-- internal/store/log/log.go
pub mod Recent
use jeffrey_s_agenda_tool.Prelude.{
  ℕ, suc, Text, text, text_eq, Bool, true, false, ◌&&◌, ◌==◌, ltb_ℤ, Option, none, some, List, [],
  ◌∷◌, ◌++◌, any, find, keep, take, if◌then◌else◌,
}
use jeffrey_s_agenda_tool.Json.{Json, Fields}
use jeffrey_s_agenda_tool.Domain.{Uuid, Time, AutomationLogStatus, AutomationLog, is_success}
use jeffrey_s_agenda_tool.Database.{
  Err, no_rows, ok, err, foreign_key_violation, Db, Statement, account_has, rule_has,
}
use jeffrey_s_agenda_tool.Database.Order.{order_by}
use jeffrey_s_agenda_tool.Action.{Env, Action, pure, fail, attempt, query}
use jeffrey_s_agenda_tool.Store.Sql.{select_row, select_rows}

pub record CreateLogParams : Type 0 where
  pub connected_account_id : Uuid
  pub rule_id : Option Uuid
  pub status : AutomationLogStatus
  pub trigger_details : Option Json
  pub action_details : Option Json
  pub error_message : Text

abbrev pub new_log : Time → ℕ → CreateLogParams → AutomationLog
new_log now id arg = record {
  id = id;
  connected_account_id = arg.connected_account_id;
  rule_id = arg.rule_id;
  timestamp = now;
  status = arg.status;
  trigger_details = arg.trigger_details;
  action_details = arg.action_details;
  error_message = arg.error_message;
}

-- REFERENCES automation_rules(id), of a column that may be NULL.
abbrev pub refers_to_rule : Option Uuid → Db → Bool
refers_to_rule none db = true
refers_to_rule (some k) db = any (rule_has k) db.automation_rules

abbrev pub add_log : AutomationLog → Db → Db
add_log l db = record db {
  automation_logs = db.automation_logs ++ l ∷ [];
  next_log_id = suc db.next_log_id;
}

unfoldable pub insert_log : CreateLogParams → Statement (Unit {0})
insert_log arg now id db =
    if any (account_has arg.connected_account_id) db.connected_accounts
      && refers_to_rule arg.rule_id db
    then ok (tt, add_log (new_log now db.next_log_id arg) db)
    else err foreign_key_violation

abbrev pub later_log : AutomationLog → AutomationLog → Bool
later_log l m = ltb_ℤ m.timestamp l.timestamp

module _ (env : Env) where
  -- j ->> key
  unfoldable pub text_of : Json → Option Text
  text_of (Json.str s) = some s
  text_of Json.null = none
  text_of other = some (env.json_text other)

  unfoldable pub field_text : Text → Fields → Option Text
  field_text key Fields.end = none
  field_text key (Fields.field name j rest) =
      if text_eq name key then text_of j else field_text key rest

  unfoldable pub json_field : Text → Json → Option Text
  unfolding field_text text_of
  json_field key (Json.obj fs) = field_text key fs
  json_field key other = none

  abbrev pub is_text : Text → Option Text → Bool
  is_text t none = false
  is_text t (some s) = text_eq s t

  abbrev pub details_name : Text → Option Json → Bool
  details_name event none = false
  details_name event (some j) = is_text event (json_field (text "google_event_id") j)

  abbrev pub is_rule : Uuid → Option Uuid → Bool
  is_rule k none = false
  is_rule k (some r) = r == k

  -- WHERE rule_id = $1 AND status = 'success' AND trigger_details->>'google_event_id' = $2
  unfoldable pub is_log_for_trigger : Uuid → Text → AutomationLog → Bool
  unfolding json_field
  is_log_for_trigger rule event l =
      is_rule rule l.rule_id && is_success l.status && details_name event l.trigger_details

  unfoldable pub create_automation_log : CreateLogParams → Action (Unit {0})
  create_automation_log arg = query env (insert_log arg)

  -- `if errors.Is(err, pgx.ErrNoRows) { return false, nil }`
  unfoldable pub found_nothing : Err → Action Bool
  found_nothing no_rows = pure false
  found_nothing other = fail other

  unfoldable pub has_log_for_trigger : Uuid → Text → Action Bool
  has_log_for_trigger rule event =
      attempt
        (query env (select_row (λ db. find (is_log_for_trigger rule event) db.automation_logs)))
        found_nothing (λ _. pure true)

  unfoldable pub get_logs_for_account : Uuid → ℕ → Action (List AutomationLog)
  get_logs_for_account account limit = query env (
      select_rows λ db.
        take limit
          (order_by later_log (keep (λ l. l.connected_account_id == account) db.automation_logs)))
