-- ===== src/Store/Rule/Toggle.antt =====
-- internal/store/rule/rule.go: ToggleRuleStatus.
use jeffrey_s_agenda_tool.Prelude.{
  ℕ, suc, Bool, true, not, none, some, List, [], ◌∷◌, ◌≡◌, refl, ◌∙◌, any-update, any, find,
  find_of_any, update_where, arith, Bool-cases, inl, inr,
}
use jeffrey_s_agenda_tool.Domain.{Uuid, Time, AutomationRule}
use jeffrey_s_agenda_tool.Database.{ok, rule_has}
use jeffrey_s_agenda_tool.Action.{
  Env, World, step, settle, run_statement, query, attempt, continue, ◌>>◌, ◌>>=◌,
}
use jeffrey_s_agenda_tool.Store.Sql.{scan}
use jeffrey_s_agenda_tool.Store.Rule.{toggle, update_rule_row, toggle_rule_status}

-- The change of updated_at alone.
abbrev pub touch : Time → AutomationRule → AutomationRule
touch now r = record r { updated_at = now }

not-not : (b : Bool) → not (not b) ≡ b
not-not b = ground arith

toggled_twice :
    (k : Uuid) (t u : Time) (rules : List AutomationRule)
    → update_where (rule_has k) (toggle u) (update_where (rule_has k) (toggle t) rules)
      ≡ update_where (rule_has k) (touch u) rules
toggled_twice k t u [] = refl
toggled_twice k t u (r ∷ rules) = elim (Bool-cases (rule_has k r)) [
  | inl e ↦ rw (e, e, not-not r.is_active, toggled_twice k t u rules) refl
  | inr e ↦ rw (e, e, toggled_twice k t u rules) refl
]

module _ (k : Uuid) (change : Time → AutomationRule → AutomationRule) (now : Time)
    (same : (r : AutomationRule) → rule_has k (change now r) ≡ rule_has k r) where
  found_after :
      (rules : List AutomationRule)
      → any (rule_has k) rules ≡ true
      → (r : AutomationRule) × (find (rule_has k) (update_where (rule_has k) (change now) rules)
          ≡ some r)
  found_after rules h =
      find_of_any (rule_has k) (update_where (rule_has k) (change now) rules)
        (any-update (rule_has k) (rule_has k) (change now) same rules ∙ h)

-- If the rule exists and the server answers, toggling it twice succeeds and restores the row but for
-- updated_at; no other row and no other table changes.
pub toggle_rule_status-twice :
    (env : Env) (k : Uuid) (w : World)
    → ((n : ℕ) → env.db_error n ≡ none)
    → any (rule_has k) w.db.automation_rules ≡ true
    → (r : AutomationRule) × ((toggle_rule_status env k >> toggle_rule_status env k) w ≡ (
      ok r,
      record (step (step w)) {
        db = record w.db {
          automation_rules =
              update_where (rule_has k) (touch (env.now (suc w.tick))) w.db.automation_rules;
        };
      },
    ))
unfolding toggle_rule_status query update_rule_row scan run_statement settle ◌>>◌ ◌>>=◌ attempt
    continue
toggle_rule_status-twice env k w works exists =
    let t = env.now w.tick in
    let u = env.now (suc w.tick) in
    let (r, first) = found_after k toggle t (λ r. refl) w.db.automation_rules exists in
    let (s, second) = found_after k touch u (λ r. refl) w.db.automation_rules exists in
    (
      s,
      rw
          (
            works w.tick,
            first,
            works (suc w.tick),
            toggled_twice k t u w.db.automation_rules,
            second,
          )
          refl,
    )
