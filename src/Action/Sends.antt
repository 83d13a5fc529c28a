-- ===== src/Action/Sends.antt =====
-- Which requests an action sends: one rule for each way to build an action.
use mathlib.Core.List.{append_assoc}
use jeffrey_s_agenda_tool.Prelude.{
  ℕ, Text, Bool, true, false, Option, none, some, List, [], ◌∷◌, ◌++◌, ◌≡◌, refl, sym, ◌∙◌, ap, All,
  All-append, if◌then◌else◌,
}
use jeffrey_s_agenda_tool.Database.{Err, Result, ok, err, panic, Db, Statement}
use jeffrey_s_agenda_tool.Google.{Reply, answer, failed, Request}
use jeffrey_s_agenda_tool.Action.{
  Env, World, Action, pure, fail, crash, lift, settle, run_statement, receive, continue, attempt,
  ◌>>=◌, ◌>>◌, logged, for_each, clock, query, ask, send,
}

-- The requests that were sent before stay, and every new one is allowed.
abbrev pub Grows : (Request → Type 0) → World → World → Type 0
Grows Allowed w w' = (new : List Request) × (w'.requests ≡ new ++ w.requests) × All Allowed new

pub record Sends {A : Type 0} (Allowed : Request → Type 0) (m : Action A) : Type 0 where
  pub at : (w : World) → Grows Allowed w (m w).1

module _ {Allowed : Request → Type 0} where
  Grows-trans : (u v w : World) → Grows Allowed u v → Grows Allowed v w → Grows Allowed u w
  Grows-trans u v w (xs, e, h) (ys, f, k) = (
    ys ++ xs,
    f ∙ (ap (λ r. ys ++ r) e ∙ sym (append_assoc ys xs u.requests)),
    All-append Allowed ys xs k h,
  )

module _ {A : Type 0} {Allowed : Request → Type 0} where
  pub Sends-pure : (a : A) → Sends Allowed (pure a)
  unfolding pure
  Sends-pure a = record { at = λ w. ([], refl, tt) }

  pub Sends-fail : (e : Err) → Sends Allowed (fail {A = A} e)
  unfolding fail
  Sends-fail e = record { at = λ w. ([], refl, tt) }

  pub Sends-crash : Sends Allowed (crash {A = A})
  unfolding crash
  Sends-crash = record { at = λ w. ([], refl, tt) }

  pub Sends-lift : (r : Result A) → Sends Allowed (lift r)
  unfolding lift
  Sends-lift r = record { at = λ w. ([], refl, tt) }

settle-requests :
    {A : Type 0} (r : Result (A × Db)) (w : World) → (settle r w).1.requests ≡ w.requests
unfolding settle
settle-requests (ok (a, db)) w = refl
settle-requests (err e) w = refl
settle-requests panic w = refl

run_statement-requests :
    {A : Type 0} (failure : Option Text) (r : Result (A × Db)) (w : World)
    → (run_statement failure r w).1.requests ≡ w.requests
unfolding run_statement
run_statement-requests (some t) r w = refl
run_statement-requests none r w = settle-requests r w

receive-requests : {A : Type 0} (r : Reply A) (w : World) → (receive r w).1.requests ≡ w.requests
unfolding receive
receive-requests (answer a) w = refl
receive-requests (failed t) w = refl

module _ {A : Type 0} {Allowed : Request → Type 0} where
  pub Sends-query : (env : Env) (s : Statement A) → Sends Allowed (query env s)
  unfolding query
  Sends-query env s = record {
    at = λ w. (
      [],
      run_statement-requests (env.db_error w.tick)
          (s (env.now w.tick) (env.gen_random_uuid w.tick) w.db) w,
      tt,
    );
  }

  pub Sends-ask : (reply : ℕ → Reply A) → Sends Allowed (ask reply)
  unfolding ask
  Sends-ask reply = record { at = λ w. ([], receive-requests (reply w.tick) w, tt) }

  pub Sends-send : (q : Request) (reply : ℕ → Reply A) → Allowed q → Sends Allowed (send q reply)
  unfolding send
  Sends-send q reply allowed = record {
    at = λ w. (
      q ∷ [],
      receive-requests (reply w.tick) (record w { requests = q ∷ w.requests }),
      (allowed, tt),
    );
  }

  pub Sends-if :
      (b : Bool) (m n : Action A)
      → Sends Allowed m
      → Sends Allowed n
      → Sends Allowed (if b then m else n)
  Sends-if true m n sm sn = sm
  Sends-if false m n sm sn = sn

pub Sends-clock : {Allowed : Request → Type 0} (env : Env) → Sends Allowed (clock env)
unfolding clock
Sends-clock env = record { at = λ w. ([], refl, tt) }

module _ {A B : Type 0} {Allowed : Request → Type 0} where
  continue-Sends :
      (r : Result A) (handler : Err → Action B) (k : A → Action B)
      → ((e : Err) → Sends Allowed (handler e))
      → ((a : A) → Sends Allowed (k a))
      → Sends Allowed (continue r handler k)
  unfolding continue
  continue-Sends (ok a) handler k sh sk = sk a
  continue-Sends (err e) handler k sh sk = sh e
  continue-Sends panic handler k sh sk = Sends-crash

  pub Sends-attempt :
      (m : Action A) (handler : Err → Action B) (k : A → Action B)
      → Sends Allowed m
      → ((e : Err) → Sends Allowed (handler e))
      → ((a : A) → Sends Allowed (k a))
      → Sends Allowed (attempt m handler k)
  unfolding attempt
  Sends-attempt m handler k sm sh sk = record {
    at = λ w.
        let (r, w') = m w in
        Grows-trans w w' (continue r handler k w').1 (sm.at w)
          ((continue-Sends r handler k sh sk).at w');
  }

  pub Sends-bind :
      (m : Action A) (k : A → Action B)
      → Sends Allowed m
      → ((a : A) → Sends Allowed (k a))
      → Sends Allowed (m >>= k)
  unfolding ◌>>=◌
  Sends-bind m k sm sk = Sends-attempt m fail k sm Sends-fail sk

  pub Sends-then :
      (m : Action A) (k : Action B) → Sends Allowed m → Sends Allowed k → Sends Allowed (m >> k)
  unfolding ◌>>◌
  Sends-then m k sm sk = Sends-bind m (λ _. k) sm (λ _. sk)

module _ {Allowed : Request → Type 0} where
  pub Sends-logged : (m : Action (Unit {0})) → Sends Allowed m → Sends Allowed (logged m)
  unfolding logged
  Sends-logged m sm = Sends-attempt m _ _ sm (λ _. Sends-pure tt) Sends-pure

  pub Sends-for_each :
      {A : Type 0} (xs : List A) (body : A → Action (Unit {0}))
      → ((x : A) → Sends Allowed (body x))
      → Sends Allowed (for_each xs body)
  unfolding for_each
  Sends-for_each [] body sb = Sends-pure tt
  Sends-for_each (x ∷ xs) body sb =
      Sends-then (body x) (for_each xs body) (sb x) (Sends-for_each xs body sb)

pub ruleset sends_rules = (
  Sends-pure, Sends-fail, Sends-crash, Sends-lift, Sends-ask, Sends-query, Sends-if, Sends-clock,
  Sends-attempt, Sends-bind, Sends-then, Sends-logged, Sends-for_each,
)
