-- ===== src/Action/Yields.antt =====
-- Actions that, started in a world where an invariant of the tables holds, give a value that has Q,
-- whatever fails on the way.
use jeffrey_s_agenda_tool.Prelude.{
  Bool, true, false, Option, none, some, ◌≡◌, refl, arith, if◌then◌else◌,
}
use jeffrey_s_agenda_tool.Database.{Err, Result, ok, err, panic, Db}
use jeffrey_s_agenda_tool.Api.{require}
use jeffrey_s_agenda_tool.Action.{World, Action, pure, fail, continue, attempt, ◌>>=◌}
use jeffrey_s_agenda_tool.Action.Keeps.{Keeps}
use jeffrey_s_agenda_tool.Action.Returns.{IsReturn, Returns}

abbrev pub Yielded : {A : Type 0} → (Db → Type 0) → (A → Type 0) → Result A × World → Type 0
Yielded {A} I Q (r, w) = (a : A) × (r ≡ ok a) × Q a × I w.db

pub record Yields {A : Type 0} (I : Db → Type 0) (Q : A → Type 0) (m : Action A) (w : World)
    : Type 0 where
  pub at : I w.db → Yielded I Q (m w)

same : {A : Type 0} (a b : A) → Result.ok a ≡ Result.ok b → a ≡ b
same a b e = ground arith

module _ {I : Db → Type 0} where
  pub Yields-pure : {A : Type 0} (Q : A → Type 0) (a : A) (w : World) → Q a → Yields I Q (pure a) w
  unfolding pure
  Yields-pure Q a w q = record { at = λ i. (a, refl, q, i) }

  pub Yields-if :
      {A : Type 0} (Q : A → Type 0) (b : Bool) (m n : Action A) (w : World)
      → (b ≡ true → Yields I Q m w)
      → (b ≡ false → Yields I Q n w)
      → Yields I Q (if b then m else n) w
  Yields-if Q true m n w ym yn = ym refl
  Yields-if Q false m n w ym yn = yn refl

  module _ {A B : Type 0} (Q : B → Type 0) where
    continued :
        (r : Result A) (h : Err → Action B) (k : A → Action B) (w : World)
        → IsReturn r
        → I w.db
        → ((e : Err) → Yields I Q (h e) w)
        → ((a : A) → r ≡ ok a → Yields I Q (k a) w)
        → Yielded I Q (continue r h k w)
    unfolding continue
    continued (ok a) h k w returns i yh yk = (yk a refl).at i
    continued (err e) h k w returns i yh yk = (yh e).at i
    continued panic h k w returns i yh yk = elim returns [ ]

    -- What follows a call runs where the call has ended, and may use its value.
    pub Yields-attempt :
        (m : Action A) (h : Err → Action B) (k : A → Action B) (w : World)
        → Returns m
        → Keeps I m
        → ((e : Err) → Yields I Q (h e) (m w).1)
        → ((a : A) → I w.db → (m w).0 ≡ ok a → Yields I Q (k a) (m w).1)
        → Yields I Q (attempt m h k) w
    unfolding attempt
    Yields-attempt m h k w returns keeps yh yk = record {
      at = λ i.
          continued (m w).0 h k (m w).1 (returns.at w) (keeps.at w i) yh (λ a given. yk a i given);
    }

    bound :
        (P : A → Type 0) (r : Result A) (k : A → Action B) (w : World)
        → ((a : A) → P a → Yields I Q (k a) w)
        → Yielded I P (r, w)
        → Yielded I Q (continue r fail k w)
    unfolding continue
    bound P (ok a) k w yk (b, e, p, i) = (yk a (rw (same a b e) p)).at i
    bound P (err x) k w yk (b, e, p, i) = absurd (ground arith)
    bound P panic k w yk (b, e, p, i) = absurd (ground arith)

    pub Yields-bind :
        (P : A → Type 0) (m : Action A) (k : A → Action B) (w : World)
        → Yields I P m w
        → ((a : A) → P a → Yields I Q (k a) (m w).1)
        → Yields I Q (m >>= k) w
    unfolding ◌>>=◌ attempt
    Yields-bind P m k w ym yk = record { at = λ i. bound P (m w).0 k (m w).1 yk (ym.at i) }

    pub Yields-require :
        (o : Option A) (m : Action B) (k : A → Action B) (w : World)
        → Yields I Q m w
        → ((a : A) → o ≡ some a → Yields I Q (k a) w)
        → Yields I Q (require o m k) w
    unfolding require
    Yields-require none m k w ym yk = ym
    Yields-require (some a) m k w ym yk = yk a refl
