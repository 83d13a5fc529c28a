-- ===== src/Action/Keeps.antt =====
-- Invariants of actions, with one rule for each way to build an action.
use mathlib.Core.Path.{subst}
use jeffrey_s_agenda_tool.Prelude.{
  ℕ, Text, Bool, true, false, Option, none, some, List, [], ◌∷◌, ◌≡◌, refl, sym, if◌then◌else◌,
}
use jeffrey_s_agenda_tool.Database.{Err, Result, ok, err, panic, Db, Statement}
use jeffrey_s_agenda_tool.Google.{Reply, answer, failed, Request}
use jeffrey_s_agenda_tool.Action.{
  Env, World, Action, pure, fail, crash, lift, settle, run_statement, receive, continue, attempt,
  ◌>>=◌, ◌>>◌, logged, for_each, clock, query, ask, send,
}

-- However the action ends, it keeps P of the database.
pub record Keeps {A : Type 0} (P : Db → Type 0) (m : Action A) : Type 0 where
  pub at : (w : World) → P w.db → P (m w).1.db

-- A statement that succeeds keeps P.
pub record Safe {A : Type 0} (P : Db → Type 0) (s : Statement A) : Type 0 where
  pub at :
      (now : _) (id : _) (db : Db) (a : A) (db' : Db) → P db → s now id db ≡ ok (a, db') → P db'

receive-db : {A : Type 0} (r : Reply A) (w : World) → (receive r w).1.db ≡ w.db
unfolding receive
receive-db (answer a) w = refl
receive-db (failed t) w = refl

module _ {A : Type 0} {P : Db → Type 0} where
  pub Keeps-pure : (a : A) → Keeps P (pure a)
  unfolding pure
  Keeps-pure a = record { at = λ w h. h }

  pub Keeps-fail : (e : Err) → Keeps P (fail {A = A} e)
  unfolding fail
  Keeps-fail e = record { at = λ w h. h }

  pub Keeps-crash : Keeps P (crash {A = A})
  unfolding crash
  Keeps-crash = record { at = λ w h. h }

  pub Keeps-ask : (reply : ℕ → Reply A) → Keeps P (ask reply)
  unfolding ask
  Keeps-ask reply = record { at = λ w h. subst P (sym (receive-db (reply w.tick) w)) h }

  pub Keeps-send : (q : Request) (reply : ℕ → Reply A) → Keeps P (send q reply)
  unfolding send
  Keeps-send q reply = record {
    at =
        λ w h. subst P (sym (receive-db (reply w.tick) (record w { requests = q ∷ w.requests }))) h;
  }

  pub Keeps-lift : (r : Result A) → Keeps P (lift r)
  unfolding lift
  Keeps-lift r = record { at = λ w h. h }

  settle_keeps :
      (r : Result (A × Db)) (w : World)
      → ((a : A) (db : Db) → r ≡ ok (a, db) → P db)
      → P w.db
      → P (settle r w).1.db
  unfolding settle
  settle_keeps (ok (a, db)) w safe h = safe a db refl
  settle_keeps (err e) w safe h = h
  settle_keeps panic w safe h = h

  run_statement_keeps :
      (failure : Option Text) (r : Result (A × Db)) (w : World)
      → ((a : A) (db : Db) → r ≡ ok (a, db) → P db)
      → P w.db
      → P (run_statement failure r w).1.db
  unfolding run_statement
  run_statement_keeps (some t) r w safe h = h
  run_statement_keeps none r w safe h = settle_keeps r w safe h

  pub Keeps-query : (env : Env) (s : Statement A) → Safe P s → Keeps P (query env s)
  unfolding query
  Keeps-query env s safe = record {
    at = λ w h.
        run_statement_keeps (env.db_error w.tick)
          (s (env.now w.tick) (env.gen_random_uuid w.tick) w.db) w
          (λ a db e. safe.at (env.now w.tick) (env.gen_random_uuid w.tick) w.db a db h e) h;
  }

  pub Keeps-if : (b : Bool) (m n : Action A) → Keeps P m → Keeps P n → Keeps P (if b then m else n)
  Keeps-if true m n km kn = km
  Keeps-if false m n km kn = kn

pub Keeps-clock : {P : Db → Type 0} (env : Env) → Keeps P (clock env)
unfolding clock
Keeps-clock env = record { at = λ w h. h }

module _ {A B : Type 0} {P : Db → Type 0} where
  continue-Keeps :
      (r : Result A) (handler : Err → Action B) (k : A → Action B)
      → ((e : Err) → Keeps P (handler e))
      → ((a : A) → Keeps P (k a))
      → Keeps P (continue r handler k)
  unfolding continue
  continue-Keeps (ok a) handler k kh kk = kk a
  continue-Keeps (err e) handler k kh kk = kh e
  continue-Keeps panic handler k kh kk = Keeps-crash

  pub Keeps-attempt :
      (m : Action A) (handler : Err → Action B) (k : A → Action B)
      → Keeps P m
      → ((e : Err) → Keeps P (handler e))
      → ((a : A) → Keeps P (k a))
      → Keeps P (attempt m handler k)
  unfolding attempt
  Keeps-attempt m handler k km kh kk = record {
    at = λ w h. let (r, w') = m w in (continue-Keeps r handler k kh kk).at w' (km.at w h);
  }

  pub Keeps-bind :
      (m : Action A) (k : A → Action B) → Keeps P m → ((a : A) → Keeps P (k a)) → Keeps P (m >>= k)
  unfolding ◌>>=◌
  Keeps-bind m k km kk = Keeps-attempt m fail k km Keeps-fail kk

  pub Keeps-then : (m : Action A) (k : Action B) → Keeps P m → Keeps P k → Keeps P (m >> k)
  unfolding ◌>>◌
  Keeps-then m k km kk = Keeps-bind m (λ _. k) km (λ _. kk)

module _ {P : Db → Type 0} where
  pub Keeps-logged : (m : Action (Unit {0})) → Keeps P m → Keeps P (logged m)
  unfolding logged
  Keeps-logged m km = Keeps-attempt m _ _ km (λ _. Keeps-pure tt) Keeps-pure

  pub Keeps-for_each :
      {A : Type 0} (xs : List A) (body : A → Action (Unit {0}))
      → ((x : A) → Keeps P (body x))
      → Keeps P (for_each xs body)
  unfolding for_each
  Keeps-for_each [] body kb = Keeps-pure tt
  Keeps-for_each (x ∷ xs) body kb =
      Keeps-then (body x) (for_each xs body) (kb x) (Keeps-for_each xs body kb)

pub ruleset keeps_rules = (
  Keeps-pure, Keeps-fail, Keeps-crash, Keeps-lift, Keeps-ask, Keeps-send, Keeps-query, Keeps-if,
  Keeps-clock, Keeps-attempt, Keeps-bind, Keeps-then, Keeps-logged, Keeps-for_each,
)
