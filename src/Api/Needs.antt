-- ===== src/Api/Needs.antt =====
-- internal/api: reasoning about handlers, which write a response on every branch.
pub mod Google
use jeffrey_s_agenda_tool.Prelude.{
  ℕ, Text, Bool, true, false, Option, none, some, ◌≡◌, refl, sym, ◌∙◌, ap, ◌⊎◌, inl, inr, find,
  if◌then◌else◌, not, ◌==◌, arith,
}
use jeffrey_s_agenda_tool.Domain.{Uuid, ConnectedAccount, AutomationRule}
use jeffrey_s_agenda_tool.Database.{Err, Result, ok, err, panic, Db, account_has, rule_has}
use jeffrey_s_agenda_tool.Google.{Reply, Request}
use jeffrey_s_agenda_tool.Action.{
  Env, World, Action, pure, fail, crash, settle, run_statement, continue, attempt, query, step,
  ◌>>=◌, ◌>>◌, ask, send, clock,
}
use jeffrey_s_agenda_tool.Action.Keeps.{
  Keeps, Keeps-pure, Keeps-fail, Keeps-ask, Keeps-send, Keeps-clock,
}
use jeffrey_s_agenda_tool.Store.Sql.{scan, select_row, or_missing}
use jeffrey_s_agenda_tool.Store.Rule.{get_rule_by_id}
use jeffrey_s_agenda_tool.Store.Account.{scan_account, get_connected_account_by_id}
use jeffrey_s_agenda_tool.Api.{Payload, Response, write_json, write_json_error, require, report}

-- From the database db the action changes nothing, or Q holds.
pub record Needs {A : Type 0} (db : Db) (Q : Type 0) (m : Action A) : Type 0 where
  pub at : (w : World) → w.db ≡ db → ((m w).1.db ≡ db) ⊎ Q

module _ {db : Db} {Q : Type 0} where
  pub Needs-reads : {A : Type 0} (m : Action A) → Keeps (λ d. d ≡ db) m → Needs db Q m
  Needs-reads m k = record { at = λ w e. inl (k.at w e) }

  pub Needs-holds : {A : Type 0} (m : Action A) → Q → Needs db Q m
  Needs-holds m q = record { at = λ w e. inr q }

  pub Needs-write_json_error : (n : ℕ) (t : Text) → Needs db Q (write_json_error n t)
  unfolding write_json_error write_json pure
  Needs-write_json_error n t = record { at = λ w e. inl e }

  pub Needs-require :
      {A B : Type 0} (o : Option A) (m : Action B) (k : A → Action B)
      → Needs db Q m
      → ((a : A) → o ≡ some a → Needs db Q (k a))
      → Needs db Q (require o m k)
  unfolding require
  Needs-require none m k nm nk = nm
  Needs-require (some a) m k nm nk = nk a refl

  pub Needs-if :
      {B : Type 0} (b : Bool) (m n : Action B)
      → Needs db Q m
      → (b ≡ false → Needs db Q n)
      → Needs db Q (if b then m else n)
  Needs-if true m n nm nn = nm
  Needs-if false m n nm nn = nn refl

  -- A SELECT by key, whose row goes through f.
  row-Needs :
      {A B C : Type 0} (o : Option A) (missing : Err) (f : A → B) (h : Err → Action C)
      (k : B → Action C) (failure : Option Text) (w : World)
      → w.db ≡ db
      → ((e : Err) → Needs db Q (h e))
      → ((a : A) → o ≡ some a → Needs db Q (k (f a)))
      → ((attempt
            (attempt
              (attempt (run_statement failure (scan o w.db)) (or_missing missing) pure)
              fail
              (λ a. pure (f a)))
            h
            k
            w).1.db
          ≡ db)
        ⊎ Q
  unfolding attempt run_statement settle scan continue or_missing pure fail
  row-Needs o missing f h k (some t) w e nh nk = (nh _).at (step w) e
  row-Needs none missing f h k none w e nh nk = (nh _).at (step w) e
  row-Needs (some a) missing f h k none w e nh nk = (nk a refl).at (step w) e

  pub Needs-account :
      {C : Type 0} (env : Env) (k : Uuid) (h : Err → Action C) (f : ConnectedAccount → Action C)
      → ((e : Err) → Needs db Q (h e))
      → ((a : ConnectedAccount)
          → find (account_has k) db.connected_accounts ≡ some a
          → Needs db Q (f (scan_account a)))
      → Needs db Q (attempt (get_connected_account_by_id env k) h f)
  unfolding get_connected_account_by_id query select_row ◌>>=◌
  Needs-account env k h f nh nf = record {
    at = λ w e.
        row-Needs _ _ scan_account h f (env.db_error w.tick) w e nh
          (λ a found. nf a (ap (λ d. find (account_has k) d.connected_accounts) (sym e) ∙ found));
  }

  rule-Needs :
      (o : Option AutomationRule) (missing : Err) (h : Err → Action Response)
      (k : AutomationRule → Action Response) (failure : Option Text) (w : World)
      → w.db ≡ db
      → ((e : Err) → Needs db Q (h e))
      → ((r : AutomationRule) → o ≡ some r → Needs db Q (k r))
      → ((attempt
            (attempt (run_statement failure (scan o w.db)) (or_missing missing) pure)
            h
            k
            w).1.db
          ≡ db)
        ⊎ Q
  unfolding attempt run_statement settle scan continue or_missing pure fail
  rule-Needs o missing h k (some t) w e nh nk = (nh _).at (step w) e
  rule-Needs none missing h k none w e nh nk = (nh _).at (step w) e
  rule-Needs (some r) missing h k none w e nh nk = (nk r refl).at (step w) e

  pub Needs-rule :
      (env : Env) (k : Uuid) (h : Err → Action Response) (f : AutomationRule → Action Response)
      → ((e : Err) → Needs db Q (h e))
      → ((r : AutomationRule) → find (rule_has k) db.automation_rules ≡ some r → Needs db Q (f r))
      → Needs db Q (attempt (get_rule_by_id env k) h f)
  unfolding get_rule_by_id query select_row attempt
  Needs-rule env k h f nh nf = record {
    at = λ w e.
        rule-Needs _ _ h f (env.db_error w.tick) w e nh
          (λ r found. nf r (ap (λ d. find (rule_has k) d.automation_rules) (sym e) ∙ found));
  }

module _ {db : Db} {Q : Type 0} where
  continue-Needs :
      {A B : Type 0} (r : Result A) (h : Err → Action B) (k : A → Action B) (w : World)
      → w.db ≡ db
      → ((e : Err) → Needs db Q (h e))
      → ((a : A) → Needs db Q (k a))
      → ((continue r h k w).1.db ≡ db) ⊎ Q
  unfolding continue crash
  continue-Needs (ok a) h k w e nh nk = (nk a).at w e
  continue-Needs (err x) h k w e nh nk = (nh x).at w e
  continue-Needs panic h k w e nh nk = inl e

  pub Needs-attempt :
      {A B : Type 0} (m : Action A) (h : Err → Action B) (k : A → Action B)
      → Needs db Q m
      → ((e : Err) → Needs db Q (h e))
      → ((a : A) → Needs db Q (k a))
      → Needs db Q (attempt m h k)
  unfolding attempt
  Needs-attempt m h k nm nh nk = record {
    at = λ w e. elim (nm.at w e) [
      | inl same ↦ continue-Needs (m w).0 h k (m w).1 same nh nk
      | inr q ↦ inr q
    ];
  }

  pub Needs-bind :
      {A B : Type 0} (m : Action A) (k : A → Action B)
      → Needs db Q m
      → ((a : A) → Needs db Q (k a))
      → Needs db Q (m >>= k)
  unfolding ◌>>=◌
  Needs-bind m k nm nk = Needs-attempt m fail k nm (λ e. Needs-reads _ (Keeps-fail e)) nk

  pub Needs-then :
      {A B : Type 0} (m : Action A) (k : Action B)
      → Needs db Q m
      → Needs db Q k
      → Needs db Q (m >> k)
  unfolding ◌>>◌
  Needs-then m k nm nk = Needs-bind m (λ _. k) nm (λ _. nk)

  pub Needs-pure : {A : Type 0} (a : A) → Needs db Q (pure a)
  Needs-pure a = Needs-reads _ (Keeps-pure a)

  pub Needs-ask : {A : Type 0} (reply : ℕ → Reply A) → Needs db Q (ask reply)
  Needs-ask reply = Needs-reads _ (Keeps-ask reply)

  pub Needs-send : {A : Type 0} (q : Request) (reply : ℕ → Reply A) → Needs db Q (send q reply)
  Needs-send q reply = Needs-reads _ (Keeps-send q reply)

  pub Needs-clock : (env : Env) → Needs db Q (clock env)
  Needs-clock env = Needs-reads _ (Keeps-clock env)

  pub Needs-write_json : (n : ℕ) (p : Payload) → Needs db Q (write_json n p)
  unfolding write_json
  Needs-write_json n p = Needs-pure _

  pub Needs-report :
      (env : Env) (n : ℕ) (prefix : Text) (e : Err) → Needs db Q (report env n prefix e)
  unfolding report
  Needs-report env n prefix e = Needs-write_json_error _ _

pub ruleset needs_rules = (
  Needs-write_json_error, Needs-attempt, Needs-bind, Needs-then, Needs-pure, Needs-ask, Needs-send,
  Needs-clock, Needs-write_json, Needs-report,
)

pub weaken :
    {A : Type 0} {db : Db} {P Q : Type 0} {m : Action A} → Needs db P m → (P → Q) → Needs db Q m
weaken {db} {Q} {m} n f = record {
  at = λ w e. elim (n.at w e) [ inl same ↦ inl same | inr p ↦ inr (f p) ];
}

-- The test of the owner that the handlers make.
pub owner_of :
    (a : ConnectedAccount) (user : Uuid)
    → not ((scan_account a).user_id == user) ≡ false
    → a.user_id ≡ user
unfolding scan_account
owner_of a user h = ground arith
