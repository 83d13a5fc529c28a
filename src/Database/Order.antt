-- ===== src/Database/Order.antt =====
-- ORDER BY: rows in the order of a Boolean comparison, rows that compare equal in table order.
use mathlib.Core.List.{Perm}
use mathlib.Core.List.Perm
use jeffrey_s_agenda_tool.Prelude.{
  Bool, true, false, List, [], ◌∷◌, if◌then◌else◌, ◌≡◌, inl, inr, All, All-mono, Bool-cases,
}

module _ {A : Type 0} (before : A → A → Bool) where
  -- x comes after every row that does not have to follow it
  unfoldable pub insert_row : A → List A → List A
  insert_row x [] = x ∷ []
  insert_row x (y ∷ ys) = if before y x then y ∷ insert_row x ys else x ∷ y ∷ ys

  unfoldable pub order_by : List A → List A
  unfolding insert_row
  order_by [] = []
  order_by (x ∷ xs) = insert_row x (order_by xs)

  -- No row has to come before the one that precedes it.
  abbrev pub IsOrdered : List A → Type 0
  IsOrdered [] = Unit
  IsOrdered (x ∷ xs) = All (λ y. before y x ≡ false) xs × IsOrdered xs

module _ {A : Type 0} (before : A → A → Bool) where
  insert_row-Perm : (x : A) (ys : List A) → Perm (insert_row before x ys) (x ∷ ys)
  unfolding insert_row
  insert_row-Perm x [] = Perm.refl (x ∷ [])
  insert_row-Perm x (y ∷ ys) = elim (Bool-cases (before y x)) [
    | inl e ↦ rw e (Perm.trans (Perm.cons y (insert_row-Perm x ys)) (Perm.swap x y ys))
    | inr e ↦ rw e (Perm.refl (x ∷ y ∷ ys))
  ]

  -- Ordering loses no row and adds none.
  pub order_by-Perm : (xs : List A) → Perm (order_by before xs) xs
  unfolding order_by
  order_by-Perm [] = Perm.refl []
  order_by-Perm (x ∷ xs) =
      Perm.trans (insert_row-Perm x (order_by before xs)) (Perm.cons x (order_by-Perm xs))

  All-insert_row :
      (P : A → Type 0) (x : A) (ys : List A) → P x → All P ys → All P (insert_row before x ys)
  unfolding insert_row
  All-insert_row P x [] p h = (p, tt)
  All-insert_row P x (y ∷ ys) p h = elim (Bool-cases (before y x)) [
    | inl e ↦ rw e (h.0, All-insert_row P x ys p h.1)
    | inr e ↦ rw e (p, h)
  ]

  pub All-order_by : (P : A → Type 0) (xs : List A) → All P xs → All P (order_by before xs)
  unfolding order_by
  All-order_by P [] h = tt
  All-order_by P (x ∷ xs) h = All-insert_row P x (order_by before xs) h.0 (All-order_by P xs h.1)

-- `before` is a strict weak order: it is asymmetric, and what does not come before is transitive.
module _ {A : Type 0} (before : A → A → Bool)
    (asym : (x y : A) → before x y ≡ true → before y x ≡ false)
    (trans : (x y z : A) → before y x ≡ false → before z y ≡ false → before z x ≡ false) where
  insert_row-IsOrdered :
      (x : A) (ys : List A) → IsOrdered before ys → IsOrdered before (insert_row before x ys)
  unfolding insert_row
  insert_row-IsOrdered x [] h = (tt, tt)
  insert_row-IsOrdered x (y ∷ ys) h = elim (Bool-cases (before y x)) [
    | inl e ↦ rw e (All-insert_row before _ x ys (asym y x e) h.0, insert_row-IsOrdered x ys h.1)
    | inr e ↦ rw e ((e, All-mono (λ z q. trans x y z e q) ys h.0), h)
  ]

  pub order_by-IsOrdered : (xs : List A) → IsOrdered before (order_by before xs)
  unfolding order_by
  order_by-IsOrdered [] = tt
  order_by-IsOrdered (x ∷ xs) = insert_row-IsOrdered x (order_by before xs) (order_by-IsOrdered xs)
