-- ===== src/Prelude/Decimals.antt =====
-- Decimal numerals: fmt's %d, strconv.ParseUint of 64 bits and strconv.Atoi.
use Prim.Native.Nat.{ℕ, zero, suc, ◌+◌, ◌-◌, ◌*◌, ◌/◌, ◌%◌, ◌^◌, ◌≤◌, ◌<◌}
use mathlib.Core.Path.{◌≡◌, refl, ◌∙◌, ap}
use mathlib.Core.Bool.{true, false, ◌&&◌}
use mathlib.Core.Logic.{inl, inr}
use mathlib.Core.Option.{Option, none, some}
use mathlib.Core.List.{[], ◌∷◌, ◌++◌}
use native.Mathlib.Omega.{arith}
use native.Mathlib.Nat.{pow-suc}
use jeffrey_s_agenda_tool.Prelude.Tests.{leb, ltb, ◌==◌, if◌then◌else◌, Bool-cases}
use jeffrey_s_agenda_tool.Prelude.Texts.{Text, is_empty}
use jeffrey_s_agenda_tool.Prelude.Integers.{ℤ, pos, negsuc}

-- A digit for each unit of fuel.
print_fuel : ℕ → ℕ → Text
print_fuel zero n = []
print_fuel (suc f) n =
    let front = print_fuel f (n / 10) in
    if ltb n 10 then (b'0' + n) ∷ [] else front ++ (b'0' + n % 10) ∷ []

-- %d of a uint64, which has at most 20 digits.
unfoldable pub print_uint : ℕ → Text
unfolding print_fuel
print_uint n = print_fuel 20 n

unfoldable pub print_int : ℤ → Text
unfolding print_uint
print_int (pos n) = print_uint n
print_int (negsuc n) = b'-' ∷ print_uint (n + 1)

parse_digits : ℕ → Text → Option ℕ
parse_digits acc [] = some acc
parse_digits acc (c ∷ s) =
    let rest = parse_digits (acc * 10 + (c - b'0')) s in
    if leb b'0' c && leb c b'9' then rest else none

in_range : Option ℕ → Option ℕ
in_range none = none
in_range (some n) = if ltb n (2 ^ 64) then some n else none

-- strconv.ParseUint(s, 10, 64)
unfoldable pub parse_uint : Text → Option ℕ
unfolding parse_digits in_range
parse_uint [] = none
parse_uint (c ∷ s) = in_range (parse_digits 0 (c ∷ s))

to_pos : Option ℕ → Option ℤ
to_pos none = none
to_pos (some n) = if ltb n (2 ^ 63) then some (pos n) else none

to_neg : Option ℕ → Option ℤ
to_neg none = none
to_neg (some zero) = some (pos 0)
to_neg (some (suc n)) = if ltb n (2 ^ 63) then some (negsuc n) else none

-- strconv.Atoi, of an int of 64 bits.
unfoldable pub parse_int : Text → Option ℤ
unfolding parse_uint to_pos to_neg
parse_int [] = none
parse_int (c ∷ s) =
    if c == b'-'
    then to_neg (parse_uint s)
    else if c == b'+'
    then to_pos (parse_uint s)
    else to_pos (parse_uint (c ∷ s))

one_digit : (n : ℕ) → n < 10 → parse_digits 0 ((b'0' + n) ∷ []) ≡ some n
unfolding parse_digits
one_digit n h = ground arith

append-ne-nil : (s : Text) (c : ℕ) → is_empty (s ++ c ∷ []) ≡ false
unfolding is_empty
append-ne-nil [] c = refl
append-ne-nil (d ∷ s) c = refl

fuel_left : (f n : ℕ) → n < 10 ^ suc f → 10 ≤ n → 0 < f
fuel_left zero n h le = absurd (omega arith)
fuel_left (suc f) n h le = omega arith

lt→ltb : (a b : ℕ) → a < b → ltb a b ≡ true
lt→ltb a b h = ground arith

ltb→lt : (a b : ℕ) → ltb a b ≡ true → a < b
ltb→lt a b h = ground arith

parse_digits-append :
    (acc n d : ℕ) (s : Text)
    → parse_digits acc s ≡ some n
    → d < 10
    → parse_digits acc (s ++ (b'0' + d) ∷ []) ≡ some (n * 10 + d)
unfolding parse_digits
parse_digits-append acc n d [] h lt = ground arith
parse_digits-append acc n d (c ∷ s) h lt = elim (Bool-cases (leb b'0' c && leb c b'9')) [
  | inl e ↦ rw e (parse_digits-append (acc * 10 + (c - b'0')) n d s (rw e at h) lt)
  | inr e ↦ cc e
]

ltb_of_false : (a b : ℕ) → ltb a b ≡ false → b ≤ a
ltb_of_false a b h = ground arith

parse_digits-print : (f n : ℕ) → n < 10 ^ f → 0 < f → parse_digits 0 (print_fuel f n) ≡ some n
unfolding print_fuel
parse_digits-print zero n h p = absurd (omega arith)
parse_digits-print (suc f) n h p = elim (Bool-cases (ltb n 10)) [
  | inl small ↦ rw small (one_digit n (ltb→lt n 10 small))
  | inr large ↦
      let le : 10 ≤ n = ltb_of_false n 10 large in
      let room : 10 ^ suc f ≡ 10 ^ f * 10 = pow-suc 10 f in
      rw large (
        parse_digits-append 0 (n / 10) (n % 10) (print_fuel f (n / 10))
          (parse_digits-print f (n / 10) (omega (arith, room)) (fuel_left f n h le)) (omega arith)
        ∙ ap some (omega arith))
]

print_fuel-ne-nil : (f n : ℕ) → is_empty (print_fuel (suc f) n) ≡ false
unfolding print_fuel is_empty
print_fuel-ne-nil f n = elim (Bool-cases (ltb n 10)) [
  | inl e ↦ rw e
  | inr e ↦ rw e (append-ne-nil (print_fuel f (n / 10)) (b'0' + n % 10))
]

parse_uint-some :
    (s : Text) (n : ℕ)
    → is_empty s ≡ false
    → parse_digits 0 s ≡ some n
    → n < 2 ^ 64
    → parse_uint s ≡ some n
unfolding parse_uint is_empty
parse_uint-some [] n h e lt = cc
parse_uint-some (c ∷ s) n h e lt = rw e (rw (lt→ltb n (2 ^ 64) lt))

-- A uint64 that is printed is read back.
pub parse_uint-print_uint : (n : ℕ) → n < 2 ^ 64 → parse_uint (print_uint n) ≡ some n
unfolding print_uint
parse_uint-print_uint n h =
    parse_uint-some (print_fuel 20 n) n (print_fuel-ne-nil 19 n)
      (parse_digits-print 20 n (omega arith) (omega arith)) h
