-- ===== src/Action/Returns.antt =====
-- Actions that return a value or an error, and never panic: one rule for each way to build an action.
use jeffrey_s_agenda_tool.Prelude.{
  ℕ, Text, Bool, true, false, Option, none, some, All, ◌≡◌, refl, List, [], ◌∷◌, if◌then◌else◌,
}
use jeffrey_s_agenda_tool.Domain.{Uuid, Time}
use jeffrey_s_agenda_tool.Database.{Err, Result, ok, err, panic, Db, Statement}
use jeffrey_s_agenda_tool.Google.{Reply, answer, failed, Request}
use jeffrey_s_agenda_tool.Action.{
  Env, World, step, Action, pure, fail, settle, run_statement, receive, continue, attempt, ◌>>=◌,
  ◌>>◌, logged, for_each, clock, query, ask, send, lift,
}

abbrev pub IsReturn : {A : Type 0} → Result A → Type 0
IsReturn (ok a) = Unit
IsReturn (err e) = Unit
IsReturn panic = ⊥

pub record Returns {A : Type 0} (m : Action A) : Type 0 where
  pub at : (w : World) → IsReturn (m w).0

-- A statement that ends with rows or an error.
pub record IsTotal {A : Type 0} (s : Statement A) : Type 0 where
  pub at : (now : Time) (id : Uuid) (db : Db) → IsReturn (s now id db)

module _ {A : Type 0} where
  pub Returns-pure : (a : A) → Returns (pure a)
  unfolding pure
  Returns-pure a = record { at = λ w. tt }

  pub Returns-fail : (e : Err) → Returns (fail {A = A} e)
  unfolding fail
  Returns-fail e = record { at = λ w. tt }

  pub Returns-lift : (r : Result A) → IsReturn r → Returns (lift r)
  unfolding lift
  Returns-lift r h = record { at = λ w. h }

  settle-IsReturn : (r : Result (A × Db)) (w : World) → IsReturn r → IsReturn (settle r w).0
  unfolding settle
  settle-IsReturn (ok (a, db)) w h = tt
  settle-IsReturn (err e) w h = tt
  settle-IsReturn panic w h = h

  run_statement-IsReturn :
      (failure : Option Text) (r : Result (A × Db)) (w : World)
      → IsReturn r
      → IsReturn (run_statement failure r w).0
  unfolding run_statement
  run_statement-IsReturn (some t) r w h = tt
  run_statement-IsReturn none r w h = settle-IsReturn r w h

  receive-IsReturn : (r : Reply A) (w : World) → IsReturn (receive r w).0
  unfolding receive
  receive-IsReturn (answer a) w = tt
  receive-IsReturn (failed t) w = tt

  pub Returns-query : (env : Env) (s : Statement A) → IsTotal s → Returns (query env s)
  unfolding query
  Returns-query env s total = record {
    at = λ w.
        run_statement-IsReturn (env.db_error w.tick) _ w
          (total.at (env.now w.tick) (env.gen_random_uuid w.tick) w.db);
  }

  pub Returns-ask : (reply : ℕ → Reply A) → Returns (ask reply)
  unfolding ask
  Returns-ask reply = record { at = λ w. receive-IsReturn (reply w.tick) w }

  pub Returns-send : (q : Request) (reply : ℕ → Reply A) → Returns (send q reply)
  unfolding send
  Returns-send q reply = record {
    at = λ w. receive-IsReturn (reply w.tick) (record w { requests = q ∷ w.requests });
  }

  pub Returns-if :
      (b : Bool) (m n : Action A) → Returns m → Returns n → Returns (if b then m else n)
  Returns-if true m n rm rn = rm
  Returns-if false m n rm rn = rn

pub Returns-clock : (env : Env) → Returns (clock env)
unfolding clock
Returns-clock env = record { at = λ w. tt }

module _ {A B : Type 0} where
  continue-Returns :
      (r : Result A) (handler : Err → Action B) (k : A → Action B)
      → IsReturn r
      → ((e : Err) → Returns (handler e))
      → ((a : A) → Returns (k a))
      → Returns (continue r handler k)
  unfolding continue
  continue-Returns (ok a) handler k h rh rk = rk a
  continue-Returns (err e) handler k h rh rk = rh e
  continue-Returns panic handler k h rh rk = elim h [ ]

  pub Returns-attempt :
      (m : Action A) (handler : Err → Action B) (k : A → Action B)
      → Returns m
      → ((e : Err) → Returns (handler e))
      → ((a : A) → Returns (k a))
      → Returns (attempt m handler k)
  unfolding attempt
  Returns-attempt m handler k rm rh rk = record {
    at = λ w. (continue-Returns (m w).0 handler k (rm.at w) rh rk).at (m w).1;
  }

  pub Returns-bind :
      (m : Action A) (k : A → Action B) → Returns m → ((a : A) → Returns (k a)) → Returns (m >>= k)
  unfolding ◌>>=◌
  Returns-bind m k rm rk = Returns-attempt m fail k rm Returns-fail rk

  pub Returns-then : (m : Action A) (k : Action B) → Returns m → Returns k → Returns (m >> k)
  unfolding ◌>>◌
  Returns-then m k rm rk = Returns-bind m (λ _. k) rm (λ _. rk)

pub Returns-logged : (m : Action (Unit {0})) → Returns m → Returns (logged m)
unfolding logged
Returns-logged m rm = Returns-attempt m _ _ rm (λ _. Returns-pure tt) Returns-pure

pub Returns-for_each :
    {A : Type 0} (xs : List A) (body : A → Action (Unit {0}))
    → ((x : A) → Returns (body x))
    → Returns (for_each xs body)
unfolding for_each
Returns-for_each [] body rb = Returns-pure tt
Returns-for_each (x ∷ xs) body rb =
    Returns-then (body x) (for_each xs body) (rb x) (Returns-for_each xs body rb)

-- What follows an answer may use that it was given.
module _ {A B : Type 0} where
  received :
      (r : Reply A) (k : A → Action B) (w : World)
      → ((a : A) → r ≡ answer a → Returns (k a))
      → IsReturn (continue (receive r w).0 fail k (receive r w).1).0
  unfolding receive continue fail
  received (answer a) k w rk = (rk a refl).at (step w)
  received (failed t) k w rk = tt

  pub Returns-bind-ask :
      (reply : ℕ → Reply A) (k : A → Action B)
      → ((n : ℕ) (a : A) → reply n ≡ answer a → Returns (k a))
      → Returns (ask reply >>= k)
  unfolding ◌>>=◌ attempt ask
  Returns-bind-ask reply k rk = record { at = λ w. received (reply w.tick) k w (rk w.tick) }

pub Returns-for_each-All :
    {A : Type 0} (P : A → Type 0) (xs : List A) (body : A → Action (Unit {0}))
    → All P xs
    → ((x : A) → P x → Returns (body x))
    → Returns (for_each xs body)
unfolding for_each
Returns-for_each-All P [] body all rb = Returns-pure tt
Returns-for_each-All P (x ∷ xs) body all rb =
    Returns-then (body x) (for_each xs body) (rb x all.0) (Returns-for_each-All P xs body all.1 rb)

pub ruleset returns_rules = (
  Returns-pure, Returns-fail, Returns-ask, Returns-send, Returns-query, Returns-if, Returns-clock,
  Returns-attempt, Returns-bind, Returns-then, Returns-logged, Returns-for_each,
)
