-- ===== src/Action/Ensures.antt =====
-- What holds of the value of an action, if it ends with one.
use jeffrey_s_agenda_tool.Prelude.{ℕ, Text, Option, none, some, ◌≡◌, refl}
use jeffrey_s_agenda_tool.Domain.{Uuid, Time}
use jeffrey_s_agenda_tool.Database.{Err, Result, ok, err, panic, Db, Statement}
use jeffrey_s_agenda_tool.Google.{Reply, answer, failed}
use jeffrey_s_agenda_tool.Action.{
  Env, World, Action, pure, fail, crash, settle, run_statement, receive, continue, attempt, ◌>>=◌,
  ask, query,
}
use jeffrey_s_agenda_tool.Action.Keeps.{Keeps, Keeps-fail, Keeps-crash}

abbrev pub Satisfies : {A : Type 0} → (A → Type 0) → Result A → Type 0
Satisfies P (ok a) = P a
Satisfies P (err e) = Unit
Satisfies P panic = Unit

pub record Ensures {A : Type 0} (P : A → Type 0) (m : Action A) : Type 0 where
  pub at : (w : World) → Satisfies P (m w).0

module _ {A : Type 0} (P : A → Type 0) where
  pub Ensures-pure : (a : A) → P a → Ensures P (pure a)
  unfolding pure
  Ensures-pure a h = record { at = λ w. h }

  pub Ensures-fail : (e : Err) → Ensures P (fail e)
  unfolding fail
  Ensures-fail e = record { at = λ w. tt }

  pub Ensures-crash : Ensures P crash
  unfolding crash
  Ensures-crash = record { at = λ w. tt }

module _ {A : Type 0} where
  of_any : (r : Result A) → Satisfies (λ _. Unit {0}) r
  of_any (ok a) = tt
  of_any (err e) = tt
  of_any panic = tt

  pub Ensures-any : (m : Action A) → Ensures (λ _. Unit {0}) m
  Ensures-any m = record { at = λ w. of_any (m w).0 }

module _ {A B : Type 0} {P : B → Type 0} (Q : A → Type 0) where
  continued :
      (r : Result A) (h : Err → Action B) (k : A → Action B) (w : World)
      → Satisfies Q r
      → ((e : Err) → Ensures P (h e))
      → ((a : A) → Q a → Ensures P (k a))
      → Satisfies P (continue r h k w).0
  unfolding continue crash
  continued (ok a) h k w q eh ek = (ek a q).at w
  continued (err e) h k w q eh ek = (eh e).at w
  continued panic h k w q eh ek = tt

  pub Ensures-attempt :
      (m : Action A) (h : Err → Action B) (k : A → Action B)
      → Ensures Q m
      → ((e : Err) → Ensures P (h e))
      → ((a : A) → Q a → Ensures P (k a))
      → Ensures P (attempt m h k)
  unfolding attempt
  Ensures-attempt m h k em eh ek = record { at = λ w. continued _ h k _ (em.at w) eh ek }

  pub Ensures-bind :
      (m : Action A) (k : A → Action B)
      → Ensures Q m
      → ((a : A) → Q a → Ensures P (k a))
      → Ensures P (m >>= k)
  unfolding ◌>>=◌
  Ensures-bind m k em ek = Ensures-attempt m fail k em (Ensures-fail P) ek

module _ {A : Type 0} (P : A → Type 0) where
  received :
      (r : Reply A) (w : World) → ((a : A) → r ≡ answer a → P a) → Satisfies P (receive r w).0
  unfolding receive
  received (answer a) w h = h a refl
  received (failed t) w h = tt

  -- What every answer has.
  pub Ensures-ask :
      (reply : ℕ → Reply A) → ((n : ℕ) (a : A) → reply n ≡ answer a → P a) → Ensures P (ask reply)
  unfolding ask
  Ensures-ask reply h = record { at = λ w. received (reply w.tick) w (h w.tick) }

module _ {A : Type 0} (P : A → Type 0) where
  settled :
      (r : Result (A × Db)) (w : World)
      → ((a : A) (db : Db) → r ≡ ok (a, db) → P a)
      → Satisfies P (settle r w).0
  unfolding settle
  settled (ok (a, db)) w h = h a db refl
  settled (err e) w h = tt
  settled panic w h = tt

  stated :
      (failure : Option Text) (r : Result (A × Db)) (w : World)
      → ((a : A) (db : Db) → r ≡ ok (a, db) → P a)
      → Satisfies P (run_statement failure r w).0
  unfolding run_statement
  stated (some t) r w h = tt
  stated none r w h = settled r w h

  -- What the statement returns whenever it succeeds.
  pub Ensures-query :
      (env : Env) (s : Statement A)
      → ((now : Time) (id : Uuid) (db db' : Db) (a : A) → s now id db ≡ ok (a, db') → P a)
      → Ensures P (query env s)
  unfolding query
  Ensures-query env s h = record {
    at = λ w. stated (env.db_error w.tick) _ w (λ a db' e. h _ _ w.db db' a e);
  }

-- What follows may use what the first action ensures.
module _ {A B : Type 0} {P : Db → Type 0} (Q : A → Type 0) where
  continue-Keeps :
      (r : Result A) (h : Err → Action B) (k : A → Action B)
      → Satisfies Q r
      → ((e : Err) → Keeps P (h e))
      → ((a : A) → Q a → Keeps P (k a))
      → Keeps P (continue r h k)
  unfolding continue
  continue-Keeps (ok a) h k q kh kk = kk a q
  continue-Keeps (err e) h k q kh kk = kh e
  continue-Keeps panic h k q kh kk = Keeps-crash

  pub Keeps-bind-Ensures :
      (m : Action A) (k : A → Action B)
      → Keeps P m
      → Ensures Q m
      → ((a : A) → Q a → Keeps P (k a))
      → Keeps P (m >>= k)
  unfolding ◌>>=◌ attempt
  Keeps-bind-Ensures m k km em kk = record {
    at = λ w h. (continue-Keeps (m w).0 fail k (em.at w) Keeps-fail kk).at (m w).1 (km.at w h);
  }
