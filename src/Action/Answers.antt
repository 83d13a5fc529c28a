-- ===== src/Action/Answers.antt =====
-- Actions that end with a value: whatever fails on the way is handled.
use jeffrey_s_agenda_tool.Prelude.{Bool, true, false, ◌≡◌, refl, ap, ◌∙◌, if◌then◌else◌}
use jeffrey_s_agenda_tool.Database.{Err, Result, ok, err, panic}
use jeffrey_s_agenda_tool.Action.{
  Env, World, Action, pure, fail, continue, crash, attempt, ◌>>=◌, ◌>>◌, logged, clock,
}
use jeffrey_s_agenda_tool.Action.Returns.{IsReturn, Returns, returns_rules}

abbrev pub IsAnswer : {A : Type 0} → Result A → Type 0
IsAnswer (ok a) = Unit
IsAnswer (err e) = ⊥
IsAnswer panic = ⊥

pub record Answers {A : Type 0} (m : Action A) : Type 0 where
  pub at : (w : World) → IsAnswer (m w).0

pub Answers-pure : {A : Type 0} (a : A) → Answers (pure a)
unfolding pure
Answers-pure a = record { at = λ w. tt }

pub Answers-clock : (env : Env) → Answers (clock env)
unfolding clock
Answers-clock env = record { at = λ w. tt }

module _ {A B : Type 0} where
  handled :
      (r : Result A) (h : Err → Action B) (k : A → Action B) (w : World)
      → IsReturn r
      → ((e : Err) → Answers (h e))
      → ((a : A) → Answers (k a))
      → IsAnswer (continue r h k w).0
  unfolding continue
  handled (ok a) h k w r ah ak = (ak a).at w
  handled (err e) h k w r ah ak = (ah e).at w
  handled panic h k w r ah ak = elim r [ ]

  answered :
      (r : Result A) (h : Err → Action B) (k : A → Action B) (w : World)
      → IsAnswer r
      → ((a : A) → Answers (k a))
      → IsAnswer (continue r h k w).0
  unfolding continue
  answered (ok a) h k w r ak = (ak a).at w
  answered (err e) h k w r ak = elim r [ ]
  answered panic h k w r ak = elim r [ ]

  -- An error of the first action is handled.
  pub Answers-attempt :
      (m : Action A) (h : Err → Action B) (k : A → Action B)
      → Returns m
      → ((e : Err) → Answers (h e))
      → ((a : A) → Answers (k a))
      → Answers (attempt m h k)
  unfolding attempt
  Answers-attempt m h k rm ah ak = record { at = λ w. handled _ h k _ (rm.at w) ah ak }

  pub Answers-bind :
      (m : Action A) (k : A → Action B) → Answers m → ((a : A) → Answers (k a)) → Answers (m >>= k)
  unfolding ◌>>=◌ attempt
  Answers-bind m k am ak = record { at = λ w. answered _ fail k _ (am.at w) ak }

pub Answers-if :
    {A : Type 0} (b : Bool) (m n : Action A) → Answers m → Answers n → Answers (if b then m else n)
Answers-if true m n am an = am
Answers-if false m n am an = an

pub Answers-then :
    {A B : Type 0} (m : Action A) (k : Action B) → Answers m → Answers k → Answers (m >> k)
unfolding ◌>>◌
Answers-then m k am ak = Answers-bind m (λ _. k) am (λ _. ak)

-- An error that goes to the process log alone.
pub Answers-logged : (m : Action (Unit {0})) → Returns m → Answers (logged m)
unfolding logged
Answers-logged m rm = Answers-attempt m _ _ rm (λ _. Answers-pure tt) Answers-pure

-- After an answer, what follows goes on from there.
pub then_lem :
    {A B : Type 0} (m : Action A) (k : Action B) (w : World)
    → IsAnswer (m w).0
    → (m >> k) w ≡ k (m w).1
unfolding ◌>>◌ ◌>>=◌ attempt continue
then_lem m k w a = continue_lem (m w).0 k (m w).1 a
  where
    continue_lem :
        {A B : Type 0} (r : Result A) (k : Action B) (w : World)
        → IsAnswer r
        → continue r fail (λ _. k) w ≡ k w
    continue_lem (ok a) k w h = refl
    continue_lem (err e) k w h = elim h [ ]
    continue_lem panic k w h = elim h [ ]

-- After a value, the handler is passed over.
pub attempt-ok :
    {A B : Type 0} (m : Action A) (h : Err → Action B) (k : A → Action B) (w : World) (a : A)
    → (m w).0 ≡ ok a
    → attempt m h k w ≡ k a (m w).1
unfolding attempt continue
attempt-ok m h k w a e = rw e

-- What is logged has done the same.
pub logged_lem : (m : Action (Unit {0})) (w : World) → (logged m w).1 ≡ (m w).1
unfolding logged attempt continue pure crash
logged_lem m w = world_of (m w).0 (m w).1
  where
    world_of : (r : Result (Unit {0})) (w : World) → (continue r (λ _. pure tt) pure w).1 ≡ w
    world_of (ok a) w = refl
    world_of (err e) w = refl
    world_of panic w = refl

-- After an action whose error is logged, what follows goes on from where it ended.
pub logged-then :
    {B : Type 0} (m : Action (Unit {0})) (k : Action B) (w : World)
    → Returns m
    → (logged m >> k) w ≡ k (m w).1
logged-then m k w rm = then_lem (logged m) k w ((Answers-logged m rm).at w) ∙ ap k (logged_lem m w)

pub ruleset answers_rules = (
  returns_rules, Answers-pure, Answers-clock, Answers-attempt, Answers-bind, Answers-if,
  Answers-then, Answers-logged,
)
