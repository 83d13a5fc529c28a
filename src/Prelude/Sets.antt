-- ===== src/Prelude/Sets.antt =====
-- Keyed tables: no two rows share a key, and what selecting, updating and inserting rows keep.
use Prim.Native.Nat.{ℕ, suc}
use mathlib.Core.Path.{◌≡◌, refl, ◌∙◌, fun_ext}
use mathlib.Core.Bool.{Bool, true, false, ◌&&◌, not}
use mathlib.Core.Logic.{inl, inr}
use mathlib.Core.Option.{some}
use mathlib.Core.List.{List, [], ◌∷◌, ◌++◌, map}
use native.Mathlib.Omega.{arith}
use jeffrey_s_agenda_tool.Prelude.Tests.{Bool-cases}
use jeffrey_s_agenda_tool.Prelude.Lists.{any, find, length, keep, update_where, All, any-append}

module _ {ℓ} {A : Type ℓ} where
  pub any-keep-false : (p q : A → Bool) (xs : List A) → any q xs ≡ false → any q (keep p xs) ≡ false
  any-keep-false p q [] h = refl
  any-keep-false p q (x ∷ xs) h = ground (arith, any-keep-false p q xs)

  -- A row outlives a deletion that does not select it.
  pub any-keep_rest :
      (p q : A → Bool) (xs : List A)
      → any q xs ≡ true
      → any (λ x. p x && q x) xs ≡ false
      → any q (keep (λ x. not (p x)) xs) ≡ true
  any-keep_rest p q [] h k = cc
  any-keep_rest p q (x ∷ xs) h k = ground (arith, any-keep_rest p q xs)

  pub any-update :
      (p q : A → Bool) (f : A → A)
      → ((x : A) → q (f x) ≡ q x)
      → (xs : List A) → any q (update_where p f xs) ≡ any q xs
  any-update p q f same [] = refl
  any-update p q f same (x ∷ xs) = ground (arith, same x, any-update p q f same xs)

module _ {ℓ κ} {A : Type ℓ} (P : A → Type κ) where
  pub All-keep : (p : A → Bool) (xs : List A) → All P xs → All P (keep p xs)
  All-keep p [] h = tt
  All-keep p (x ∷ xs) h = elim (Bool-cases (p x)) [
    | inl e ↦ rw e (h.0, All-keep p xs h.1)
    | inr e ↦ rw e (All-keep p xs h.1)
  ]

module _ {ℓ κ} {A : Type ℓ} {P : A → Type κ} where
  -- The rows that are kept are those that the condition selects.
  pub All-keep_mono :
      {Q : A → Type κ} (p : A → Bool)
      → ((x : A) → P x → p x ≡ true → Q x)
      → (xs : List A) → All P xs
      → All Q (keep p xs)
  All-keep_mono p f [] h = tt
  All-keep_mono p f (x ∷ xs) h = elim (Bool-cases (p x)) [
    | inl e ↦ rw e (f x h.0 e, All-keep_mono p f xs h.1)
    | inr e ↦ rw e (All-keep_mono p f xs h.1)
  ]

  pub All-update :
      (p : A → Bool) (f : A → A)
      → ((x : A) → P x → P (f x))
      → (xs : List A) → All P xs
      → All P (update_where p f xs)
  All-update p f g [] h = tt
  All-update p f g (x ∷ xs) h = elim (Bool-cases (p x)) [
    | inl e ↦ rw e (g x h.0, All-update p f g xs h.1)
    | inr e ↦ rw e (h.0, All-update p f g xs h.1)
  ]

module _ {ℓ} {A : Type ℓ} (same : A → A → Bool) where
  -- No row has the key of a later one.
  abbrev pub Distinct : List A → Type 0
  Distinct [] = Unit
  Distinct (x ∷ xs) = (any (same x) xs ≡ false) × Distinct xs

  pub Distinct-keep : (p : A → Bool) (xs : List A) → Distinct xs → Distinct (keep p xs)
  Distinct-keep p [] h = tt
  Distinct-keep p (x ∷ xs) h = elim (Bool-cases (p x)) [
    | inl e ↦ rw e (any-keep-false p (same x) xs h.0, Distinct-keep p xs h.1)
    | inr e ↦ rw e (Distinct-keep p xs h.1)
  ]

  -- An update that leaves the key alone.
  pub Distinct-update :
      (p : A → Bool) (f : A → A)
      → ((x y : A) → same (f x) y ≡ same x y)
      → ((x y : A) → same x (f y) ≡ same x y)
      → (xs : List A) → Distinct xs
      → Distinct (update_where p f xs)
  Distinct-update p f left right [] h = tt
  Distinct-update p f left right (x ∷ xs) h = elim (Bool-cases (p x)) [
    | inl e ↦ rw e (
      any-update p (same (f x)) f (right (f x)) xs ∙ rw (fun_ext (left x)) h.0,
      Distinct-update p f left right xs h.1,
    )
    | inr e ↦
        rw e (any-update p (same x) f (right x) xs ∙ h.0, Distinct-update p f left right xs h.1)
  ]

  -- A map that leaves the key alone.
  pub Distinct-map :
      (f : A → A)
      → ((x y : A) → same (f x) (f y) ≡ same x y)
      → (xs : List A) → Distinct xs
      → Distinct (map f xs)
  Distinct-map f kept [] h = tt
  Distinct-map f kept (x ∷ xs) h = (any-mapped x xs ∙ h.0, Distinct-map f kept xs h.1)
    where
      any-mapped : (x : A) (ys : List A) → any (same (f x)) (map f ys) ≡ any (same x) ys
      any-mapped x [] = refl
      any-mapped x (y ∷ ys) = rw (kept x y, any-mapped x ys) refl

  -- A row with a new key may stand at the end.
  pub Distinct-append :
      (x : A) (xs : List A) → any (λ y. same y x) xs ≡ false → Distinct xs → Distinct (xs ++ x ∷ [])
  Distinct-append x [] h d = (refl, tt)
  Distinct-append x (y ∷ xs) h d =
      ground (arith, Distinct-append x xs, any-append (same y) xs (x ∷ []))

module _ {ℓ κ} {A B : Type ℓ} {P : A → Type κ} (Q : B → Type κ) where
  pub All-map :
      (f : A → B) → ((x : A) → P x → Q (f x)) → (xs : List A) → All P xs → All Q (map f xs)
  All-map f g [] h = tt
  All-map f g (x ∷ xs) h = (g x h.0, All-map f g xs h.1)

module _ {ℓ} {A : Type ℓ} (p : A → Bool) where
  -- An update that keeps the condition leaves a row to be found.
  pub find-update :
      (f : A → A)
      → ((x : A) → p (f x) ≡ p x)
      → (xs : List A) → any p xs ≡ true
      → (x : A) × (find p (update_where p f xs) ≡ some (f x))
  find-update f same [] h = cc
  find-update f same (x ∷ xs) h = elim (Bool-cases (p x)) [
    | inl e ↦ (x, rw (e, same x, e) refl)
    | inr e ↦ let (y, found) = find-update f same xs (ground arith) in (y, rw (e, e) found)
  ]

  pub length-keep : (xs : List A) → any p xs ≡ true → (n : ℕ) × (length (keep p xs) ≡ suc n)
  length-keep [] h = cc
  length-keep (x ∷ xs) h = elim (Bool-cases (p x)) [
    | inl e ↦ (length (keep p xs), ground arith)
    | inr e ↦ let (n, l) = length-keep xs (ground arith) in (n, rw e l)
  ]
