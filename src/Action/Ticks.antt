-- ===== src/Action/Ticks.antt =====
-- The number of steps taken only grows: one rule for each way to build an action.
use jeffrey_s_agenda_tool.Prelude.{
  ℕ, Text, Bool, true, false, Option, none, some, List, [], ◌∷◌, ◌≤◌, if◌then◌else◌, arith,
}
use jeffrey_s_agenda_tool.Database.{Err, Result, ok, err, panic, Db, Statement}
use jeffrey_s_agenda_tool.Google.{Reply, answer, failed, Request}
use jeffrey_s_agenda_tool.Action.{
  Env, World, Action, pure, fail, crash, lift, settle, run_statement, receive, continue, attempt,
  ◌>>=◌, ◌>>◌, logged, for_each, clock, query, ask, send,
}

pub record Ticks {A : Type 0} (m : Action A) : Type 0 where
  pub at : (w : World) → w.tick ≤ (m w).1.tick

module _ {A : Type 0} where
  pub Ticks-pure : (a : A) → Ticks (pure a)
  unfolding pure
  Ticks-pure a = record { at = λ w. omega arith }

  pub Ticks-fail : (e : Err) → Ticks (fail {A = A} e)
  unfolding fail
  Ticks-fail e = record { at = λ w. omega arith }

  pub Ticks-lift : (r : Result A) → Ticks (lift r)
  unfolding lift
  Ticks-lift r = record { at = λ w. omega arith }

  pub Ticks-crash : Ticks (crash {A = A})
  unfolding crash
  Ticks-crash = record { at = λ w. omega arith }

  receive-Ticks : (r : Reply A) → Ticks (receive r)
  unfolding receive
  receive-Ticks (answer a) = record { at = λ w. omega arith }
  receive-Ticks (failed t) = record { at = λ w. omega arith }

  run_statement-Ticks :
      (failure : Option Text) (r : Result (A × Db)) → Ticks (run_statement failure r)
  unfolding run_statement settle
  run_statement-Ticks (some t) r = record { at = λ w. omega arith }
  run_statement-Ticks none (ok (a, db)) = record { at = λ w. omega arith }
  run_statement-Ticks none (err e) = record { at = λ w. omega arith }
  run_statement-Ticks none panic = record { at = λ w. omega arith }

  pub Ticks-ask : (reply : ℕ → Reply A) → Ticks (ask reply)
  unfolding ask
  Ticks-ask reply = record { at = λ w. (receive-Ticks (reply w.tick)).at w }

  pub Ticks-send : (q : Request) (reply : ℕ → Reply A) → Ticks (send q reply)
  unfolding send
  Ticks-send q reply = record {
    at = λ w. (receive-Ticks (reply w.tick)).at (record w { requests = q ∷ w.requests });
  }

  pub Ticks-query : (env : Env) (s : Statement A) → Ticks (query env s)
  unfolding query
  Ticks-query env s = record { at = λ w. (run_statement-Ticks (env.db_error w.tick) _).at w }

  pub Ticks-if : (b : Bool) (m n : Action A) → Ticks m → Ticks n → Ticks (if b then m else n)
  Ticks-if true m n tm tn = tm
  Ticks-if false m n tm tn = tn

pub Ticks-clock : (env : Env) → Ticks (clock env)
unfolding clock
Ticks-clock env = record { at = λ w. omega arith }

module _ {A B : Type 0} where
  continue-Ticks :
      (r : Result A) (handler : Err → Action B) (k : A → Action B)
      → ((e : Err) → Ticks (handler e))
      → ((a : A) → Ticks (k a))
      → Ticks (continue r handler k)
  unfolding continue
  continue-Ticks (ok a) handler k th tk = tk a
  continue-Ticks (err e) handler k th tk = th e
  continue-Ticks panic handler k th tk = Ticks-crash

  pub Ticks-attempt :
      (m : Action A) (handler : Err → Action B) (k : A → Action B)
      → Ticks m
      → ((e : Err) → Ticks (handler e))
      → ((a : A) → Ticks (k a))
      → Ticks (attempt m handler k)
  unfolding attempt
  Ticks-attempt m handler k tm th tk = record {
    at = λ w.
        let before = tm.at w in
        let after = (continue-Ticks (m w).0 handler k th tk).at (m w).1 in omega arith;
  }

  pub Ticks-bind :
      (m : Action A) (k : A → Action B) → Ticks m → ((a : A) → Ticks (k a)) → Ticks (m >>= k)
  unfolding ◌>>=◌
  Ticks-bind m k tm tk = Ticks-attempt m fail k tm Ticks-fail tk

  pub Ticks-then : (m : Action A) (k : Action B) → Ticks m → Ticks k → Ticks (m >> k)
  unfolding ◌>>◌
  Ticks-then m k tm tk = Ticks-bind m (λ _. k) tm (λ _. tk)

pub Ticks-logged : (m : Action (Unit {0})) → Ticks m → Ticks (logged m)
unfolding logged
Ticks-logged m tm = Ticks-attempt m _ _ tm (λ _. Ticks-pure tt) Ticks-pure

pub Ticks-for_each :
    {A : Type 0} (xs : List A) (body : A → Action (Unit {0}))
    → ((x : A) → Ticks (body x))
    → Ticks (for_each xs body)
unfolding for_each
Ticks-for_each [] body tb = Ticks-pure tt
Ticks-for_each (x ∷ xs) body tb =
    Ticks-then (body x) (for_each xs body) (tb x) (Ticks-for_each xs body tb)

pub ruleset ticks_rules = (
  Ticks-pure, Ticks-fail, Ticks-lift, Ticks-ask, Ticks-send, Ticks-query, Ticks-if, Ticks-clock,
  Ticks-attempt, Ticks-bind, Ticks-then, Ticks-logged, Ticks-for_each,
)
