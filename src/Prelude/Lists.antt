-- ===== src/Prelude/Lists.antt =====
-- Lists of rows: Boolean search and selection, in-place updates, and predicates over a list.
use Prim.Native.Nat.{ℕ, zero, suc, ◌+◌, ◌≤◌}
use mathlib.Core.Path.{◌≡◌, refl, ap, subst}
use mathlib.Core.Bool.{Bool, true, false, ◌&&◌, ◌||◌}
use mathlib.Core.Logic.{◌⊎◌, inl, inr}
use mathlib.Core.Option.{Option, none, some}
use mathlib.Core.List.{List, [], ◌∷◌, ◌++◌}
use native.Mathlib.Omega.{arith}
use jeffrey_s_agenda_tool.Prelude.Tests.{if◌then◌else◌, Bool-cases}

module _ {ℓ} {A : Type ℓ} where
  abbrev pub length : List A → ℕ
  length [] = 0
  length (x ∷ xs) = suc (length xs)

  abbrev pub take : ℕ → List A → List A
  take zero xs = []
  take (suc n) [] = []
  take (suc n) (x ∷ xs) = x ∷ take n xs

  abbrev pub drop : ℕ → List A → List A
  drop zero xs = xs
  drop (suc n) [] = []
  drop (suc n) (x ∷ xs) = drop n xs

  abbrev pub any : (A → Bool) → List A → Bool
  any p [] = false
  any p (x ∷ xs) = p x || any p xs

  abbrev pub all : (A → Bool) → List A → Bool
  all p [] = true
  all p (x ∷ xs) = p x && all p xs

  -- The rows that a condition selects.
  abbrev pub keep : (A → Bool) → List A → List A
  keep p [] = []
  keep p (x ∷ xs) = if p x then x ∷ keep p xs else keep p xs

  abbrev pub find : (A → Bool) → List A → Option A
  find p [] = none
  find p (x ∷ xs) = if p x then some x else find p xs

  -- The rows that a condition selects are changed, in place.
  abbrev pub update_where : (A → Bool) → (A → A) → List A → List A
  update_where p f [] = []
  update_where p f (x ∷ xs) = (if p x then f x else x) ∷ update_where p f xs

  pub length-take : (n : ℕ) (xs : List A) → length (take n xs) ≤ n
  length-take zero xs = omega arith
  length-take (suc n) [] = omega arith
  length-take (suc n) (x ∷ xs) = omega (arith, length-take n xs)

  pub take-append_length : (xs ys : List A) → take (length xs) (xs ++ ys) ≡ xs
  take-append_length [] ys = refl
  take-append_length (x ∷ xs) ys = ap (λ zs. x ∷ zs) (take-append_length xs ys)

  pub drop-append_length : (xs ys : List A) → drop (length xs) (xs ++ ys) ≡ ys
  drop-append_length [] ys = refl
  drop-append_length (x ∷ xs) ys = drop-append_length xs ys

  pub length-append : (xs ys : List A) → length (xs ++ ys) ≡ length xs + length ys
  length-append [] ys = omega arith
  length-append (x ∷ xs) ys = omega (arith, length-append xs ys)

  pub any-append : (p : A → Bool) (xs ys : List A) → any p (xs ++ ys) ≡ (any p xs || any p ys)
  any-append p [] ys = refl
  any-append p (x ∷ xs) ys = ground (arith, any-append p xs ys)

  -- A row that is found fits the condition.
  pub find-holds : (p : A → Bool) (xs : List A) (x : A) → find p xs ≡ some x → p x ≡ true
  find-holds p [] x h = cc
  find-holds p (y ∷ xs) x h = ground (arith, find-holds p xs x)

  pub any_of_find : (p : A → Bool) (xs : List A) (x : A) → find p xs ≡ some x → any p xs ≡ true
  any_of_find p [] x h = cc
  any_of_find p (y ∷ xs) x h = ground (arith, any_of_find p xs x)

  pub any_of_find-none : (p : A → Bool) (xs : List A) → find p xs ≡ none → any p xs ≡ false
  any_of_find-none p [] h = refl
  any_of_find-none p (y ∷ xs) h = ground (arith, any_of_find-none p xs)

  pub find_of_any : (p : A → Bool) (xs : List A) → any p xs ≡ true → (x : A) × (find p xs ≡ some x)
  find_of_any p [] h = cc
  find_of_any p (y ∷ xs) h = elim (Bool-cases (p y)) [
    | inl e ↦ (y, rw e)
    | inr e ↦ rw e (find_of_any p xs (rw e at h))
  ]

module _ {ℓ κ} {A : Type ℓ} (P : A → Type κ) where
  abbrev pub All : List A → Type κ
  All [] = Unit
  All (x ∷ xs) = P x × All xs

  pub All-append : (xs ys : List A) → All xs → All ys → All (xs ++ ys)
  All-append [] ys hx hy = hy
  All-append (x ∷ xs) ys hx hy = (hx.0, All-append xs ys hx.1 hy)

  pub All-take : (n : ℕ) (xs : List A) → All xs → All (take n xs)
  All-take zero xs h = tt
  All-take (suc n) [] h = tt
  All-take (suc n) (x ∷ xs) h = (h.0, All-take n xs h.1)

  pub All-find : (p : A → Bool) (xs : List A) (x : A) → All xs → find p xs ≡ some x → P x
  All-find p [] x h e = cc
  All-find p (y ∷ xs) x h e = elim (Bool-cases (p y)) [
    | inl t ↦ let q : y ≡ x = ground arith in subst P q h.0
    | inr f ↦ All-find p xs x h.1 (rw f at e)
  ]

module _ {ℓ κ} {A : Type ℓ} {P Q : A → Type κ} where
  pub All-mono : ((x : A) → P x → Q x) → (xs : List A) → All P xs → All Q xs
  All-mono f [] h = tt
  All-mono f (x ∷ xs) h = (f x h.0, All-mono f xs h.1)

module _ {ℓ} {A : Type ℓ} (P : A → Type 0) where
  -- P holds of some element, with the place where it stands.
  abbrev pub Any : List A → Type 0
  Any [] = ⊥
  Any (x ∷ xs) = P x ⊎ Any xs

  pub Any-of_any :
      (p : A → Bool) → ((x : A) → p x ≡ true → P x) → (xs : List A) → any p xs ≡ true → Any xs
  Any-of_any p sound [] h = cc
  Any-of_any p sound (x ∷ xs) h = elim (Bool-cases (p x)) [
    | inl e ↦ inl (sound x e)
    | inr e ↦ inr (Any-of_any p sound xs (rw e at h))
  ]

  pub any_of_Any :
      (p : A → Bool) → ((x : A) → P x → p x ≡ true) → (xs : List A) → Any xs → any p xs ≡ true
  any_of_Any p complete [] h = absurd h
  any_of_Any p complete (x ∷ xs) (inl h) = rw (complete x h)
  any_of_Any p complete (x ∷ xs) (inr h) = ground (arith, any_of_Any p complete xs h)
