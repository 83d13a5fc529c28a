-- ===== src/Worker/Gmail/Unlogged.antt =====
-- internal/worker/gmail/helpers.go: the logs of the Gmail rules, in the table of the calendar rules.
use jeffrey_s_agenda_tool.Prelude.{Text, Bool, true, false, ◌&&◌, ◌≡◌, refl, any, if◌then◌else◌}
use jeffrey_s_agenda_tool.Domain.{ConnectedAccount, GmailAutomationRule}
use jeffrey_s_agenda_tool.Database.{Err, Result, ok, err, foreign_key_violation, Db, rule_has}
use jeffrey_s_agenda_tool.Google.{Token, Message}
use jeffrey_s_agenda_tool.Action.{Env, World}
use jeffrey_s_agenda_tool.Action.Keeps.{Keeps, Safe, keeps_rules}
use jeffrey_s_agenda_tool.Store.Log.{
  CreateLogParams, refers_to_rule, insert_log, create_automation_log,
}
use jeffrey_s_agenda_tool.Worker.Gmail.{
  success_params, failure_params, log_gmail_automation_success, log_gmail_automation_failure,
  apply_rule,
}
use jeffrey_s_agenda_tool.Worker.Gmail.Actions.{execute_rule_action}
use jeffrey_s_agenda_tool.Worker.Gmail.Effects.{execute-Keeps}

refused :
    (has_account has_rule : Bool) (new db : Db) (x : Unit {0} × Db)
    → has_rule ≡ false
    → ◌≡◌ {A = Result (Unit {0} × Db)}
        (if has_account && has_rule then ok (tt, new) else err foreign_key_violation)
        (ok x)
    → x.1 ≡ db
refused true true new db x h e = cc
refused true false new db x h e = cc
refused false has_rule new db x h e = cc

module _ (db : Db) (arg : CreateLogParams) (no_rule : refers_to_rule arg.rule_id db ≡ false) where
  insert_log-Safe : Safe (λ d. d ≡ db) (insert_log arg)
  unfolding insert_log
  insert_log-Safe = record {
    at = λ now id d a db' same e.
        refused _ (refers_to_rule arg.rule_id d) _ db (a, db') (rw same no_rule) e;
  }

  create_automation_log-refused : (env : Env) → Keeps (λ d. d ≡ db) (create_automation_log env arg)
  unfolding create_automation_log
  create_automation_log-refused env = search (keeps_rules, insert_log-Safe)

module _ (env : Env) (token : Token) (acc : ConnectedAccount) (db : Db) (rule : GmailAutomationRule)
    (no_rule : any (rule_has rule.id) db.automation_rules ≡ false) where
  log_success-refused :
      (m : Message) (t : Text)
      → Keeps (λ d. d ≡ db) (log_gmail_automation_success env token acc rule.id m t)
  unfolding log_gmail_automation_success success_params
  log_success-refused m t = search (
    keeps_rules,
    create_automation_log-refused db (success_params acc.id rule.id m t) no_rule env,
  )

  log_failure-refused :
      (m : Message) (e : Err)
      → Keeps (λ d. d ≡ db) (log_gmail_automation_failure env token acc rule.id m e)
  unfolding log_gmail_automation_failure failure_params
  log_failure-refused m e = search (
    keeps_rules,
    create_automation_log-refused db (failure_params acc.id rule.id m (env.error_text e)) no_rule
        env,
  )

  apply_rule-refused : (m : Message) → Keeps (λ d. d ≡ db) (apply_rule env token acc m rule)
  unfolding apply_rule execute_rule_action
  apply_rule-refused m =
      search (keeps_rules, execute-Keeps, log_success-refused, log_failure-refused)

-- Unless the table of the calendar rules holds a rule with the id of the Gmail rule, applying the
-- Gmail rule to a message leaves every table as it is: neither its success nor its failure is logged.
pub apply_rule-unlogged :
    (env : Env) (token : Token) (acc : ConnectedAccount) (m : Message) (rule : GmailAutomationRule)
    (w : World)
    → any (rule_has rule.id) w.db.automation_rules ≡ false
    → (apply_rule env token acc m rule w).1.db ≡ w.db
apply_rule-unlogged env token acc m rule w no_rule =
    (apply_rule-refused env token acc w.db rule no_rule m).at w refl
