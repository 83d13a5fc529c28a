-- ===== src/Api/Rule/Created.antt =====
-- internal/api/rule/rule.go: a rule that HandleCreateRule makes, as HandleGetRules shows it.
use mathlib.Core.List.{Perm, perm_append_singleton}
use mathlib.Core.List.Perm
use jeffrey_s_agenda_tool.Prelude.{
  ℕ, suc, Text, Bool, true, false, ◌==◌, ==_refl, Option, none, some, List, [], ◌∷◌, ◌++◌, any,
  any_of_find, find, keep, ◌≡◌, refl, ap, ◌∙◌, inl, inr, Bool-cases, arith,
}
use jeffrey_s_agenda_tool.Json.{Json}
use jeffrey_s_agenda_tool.Domain.{Uuid, ConnectedAccount, AutomationRule}
use jeffrey_s_agenda_tool.Database.{ok, account_has, rule_has}
use jeffrey_s_agenda_tool.Database.Order.{IsOrdered, order_by, order_by-IsOrdered, order_by-Perm}
use jeffrey_s_agenda_tool.Action.{
  Env, World, step, Action, pure, continue, attempt, ◌>>=◌, query, run_statement, settle,
}
use jeffrey_s_agenda_tool.Store.Sql.{scan, select_row, select_rows}
use jeffrey_s_agenda_tool.Store.Account.{scan_account, get_connected_account_by_id}
use jeffrey_s_agenda_tool.Store.Rule.{
  new_rule, later_rule, insert_row, insert_fields, insert_rule, create_automation_rule,
  get_rules_for_account,
}
use jeffrey_s_agenda_tool.Api.{
  RuleBody, HttpRequest, Payload, Response, require, with_user, write_json,
}
use jeffrey_s_agenda_tool.Api.Rule.{
  create_params, with_account, handle_create_rule, handle_get_rules,
}

-- A row that is added is one of those that are kept, if it fits.
keep-append :
    {A : Type 0} (q : A → Bool) (xs : List A) (x : A)
    → q x ≡ true
    → keep q (xs ++ x ∷ []) ≡ keep q xs ++ x ∷ []
keep-append q [] x fits = rw fits refl
keep-append q (y ∷ xs) x fits = elim (Bool-cases (q y)) [
  | inl e ↦ ground (arith, keep-append q xs x)
  | inr e ↦ ground (arith, keep-append q xs x)
]

module _ (env : Env) (parse_uuid : Text → Option Uuid) (req : HttpRequest) (user k : Uuid)
    (works : (n : ℕ) → env.db_error n ≡ none) (parsed : parse_uuid req.account_id ≡ some k) where
  -- The owner of an account passes the checks of the handlers.
  with_account-owner :
      (cont : Uuid → Action Response) (w : World) (a : ConnectedAccount)
      → find (account_has k) w.db.connected_accounts ≡ some a
      → a.user_id ≡ user
      → with_account env parse_uuid (some user) req cont w ≡ cont k (step w)
  unfolding with_account require with_user get_connected_account_by_id query select_row scan
      run_statement settle attempt continue ◌>>=◌ pure scan_account
  with_account-owner cont w a found own = rw (parsed, works w.tick, found, own, ==_refl user) refl

  create_automation_rule-inserts :
      (body : RuleBody) (trigger action : Json) (w : World)
      → body.trigger_conditions ≡ some trigger
      → body.action_params ≡ some action
      → any (rule_has (env.gen_random_uuid w.tick)) w.db.automation_rules ≡ false
      → any (account_has k) w.db.connected_accounts ≡ true
      → create_automation_rule env (create_params k body) w ≡ (
          let rule =
            new_rule (env.now w.tick) (env.gen_random_uuid w.tick) k body.name trigger action in
          (
            ok rule,
            record (step w) {
              db = record w.db { automation_rules = w.db.automation_rules ++ rule ∷ [] };
            },
          ))
  unfolding create_automation_rule create_params query run_statement settle insert_rule
      insert_fields insert_row
  create_automation_rule-inserts body trigger action w t c fresh exists =
      rw (works w.tick, t, c, fresh, exists) refl

  get_rules_for_account-rows :
      (w : World)
      → get_rules_for_account env k w ≡ (
        ok (order_by later_rule (keep (λ r. r.connected_account_id == k) w.db.automation_rules)),
        step w,
      )
  unfolding get_rules_for_account query run_statement settle select_rows
  get_rules_for_account-rows w = rw (works w.tick) refl

  handle_create_rule-answers :
      (w : World) (a : ConnectedAccount) (body : RuleBody) (trigger action : Json)
      → find (account_has k) w.db.connected_accounts ≡ some a
      → a.user_id ≡ user
      → req.body ≡ some body
      → body.trigger_conditions ≡ some trigger
      → body.action_params ≡ some action
      → any (rule_has (env.gen_random_uuid (suc w.tick))) w.db.automation_rules ≡ false
      → handle_create_rule env parse_uuid (some user) req w ≡ (
          let rule =
            new_rule
              (env.now (suc w.tick))
              (env.gen_random_uuid (suc w.tick))
              k
              body.name
              trigger
              action in
          (
            ok (record { status = 201; payload = Payload.rule rule }),
            record (step (step w)) {
              db = record w.db { automation_rules = w.db.automation_rules ++ rule ∷ [] };
            },
          ))
  unfolding handle_create_rule require write_json attempt continue pure
  handle_create_rule-answers w a body trigger action found own given t c fresh =
      with_account-owner _ w a found own
      ∙ rw
          (
            given,
            create_automation_rule-inserts body trigger action (step w) t c fresh
                (any_of_find (account_has k) w.db.connected_accounts a found),
          )
          refl

  handle_get_rules-answers :
      (w : World) (a : ConnectedAccount)
      → find (account_has k) w.db.connected_accounts ≡ some a
      → a.user_id ≡ user
      → (handle_get_rules env parse_uuid (some user) req w).0
        ≡ ok (record {
          status = 200;
          payload =
              Payload.rules (
                order_by later_rule
                  (keep (λ r. r.connected_account_id == k) w.db.automation_rules));
        })
  unfolding handle_get_rules write_json attempt continue pure
  handle_get_rules-answers w a found own =
      ap (λ v. v.0) (with_account-owner _ w a found own)
      ∙ rw (get_rules_for_account-rows (step w)) refl

-- If the database serves every statement, the account that the request names is the user's, the body
-- has both JSON parts, and the key that is drawn for the rule is new, then HandleCreateRule answers
-- 201 with an active rule made of the body, and HandleGetRules, asked next for the same account,
-- answers 200 with this rule and the rules that the account had before, the latest first, and no others.
pub handle_get_rules-create :
    (env : Env) (parse_uuid : Text → Option Uuid) (req : HttpRequest) (user k : Uuid) (w : World)
    (a : ConnectedAccount) (body : RuleBody) (trigger action : Json)
    → ((n : ℕ) → env.db_error n ≡ none)
    → parse_uuid req.account_id ≡ some k
    → find (account_has k) w.db.connected_accounts ≡ some a
    → a.user_id ≡ user
    → req.body ≡ some body
    → body.trigger_conditions ≡ some trigger
    → body.action_params ≡ some action
    → any (rule_has (env.gen_random_uuid (suc w.tick))) w.db.automation_rules ≡ false
    → (rule : AutomationRule) × (rules : List AutomationRule) × (rule
        ≡ new_rule
            (env.now (suc w.tick))
            (env.gen_random_uuid (suc w.tick))
            k
            body.name
            trigger
            action)
      × ((handle_create_rule env parse_uuid (some user) req w).0
          ≡ ok (record { status = 201; payload = Payload.rule rule }))
      × ((handle_get_rules env parse_uuid
            (some user)
            req
            (handle_create_rule env parse_uuid (some user) req w).1).0
          ≡ ok (record { status = 200; payload = Payload.rules rules }))
      × IsOrdered later_rule rules
      × Perm rules (rule ∷ keep (λ r. r.connected_account_id == k) w.db.automation_rules)
handle_get_rules-create env parse_uuid req user k w a body trigger action works parsed found own
      given t c fresh =
    let rule =
      new_rule (env.now (suc w.tick)) (env.gen_random_uuid (suc w.tick)) k body.name trigger
        action in
    let mine = λ (r : AutomationRule). r.connected_account_id == k in
    let table = w.db.automation_rules ++ rule ∷ [] in
    let later = record (step (step w)) { db = record w.db { automation_rules = table } } in
    let created =
      handle_create_rule-answers env parse_uuid req user k works parsed w a body trigger action
        found own given t c fresh in
    (
      rule,
      order_by later_rule (keep mine table),
      refl,
      ap (λ v. v.0) created,
      ap (λ v. (handle_get_rules env parse_uuid (some user) req v.1).0) created
          ∙ handle_get_rules-answers env parse_uuid req user k works parsed later a found own,
      order_by-IsOrdered later_rule (λ r s h. ground arith) (λ r s t h e. ground arith)
          (keep mine table),
      Perm.trans (order_by-Perm later_rule (keep mine table)) (
          rw (keep-append mine w.db.automation_rules rule (==_refl k))
            (perm_append_singleton rule (keep mine w.db.automation_rules))),
    )
