-- ===== src/Prelude/Texts.antt =====
-- Go strings as lists of code points, and the functions of package strings that the program calls.
use Prim.Native.Nat.{ℕ}
use Prim.Native.Char.{code}
use Prim.Native.String.{String}
use mathlib.Core.Path.{◌≡◌, refl, ap}
use mathlib.Core.Logic.{◌↔◌, inl, inr}
use mathlib.Core.Bool.{Bool, true, false, ◌&&◌, ◌||◌}
use mathlib.Core.List.{List, [], ◌∷◌, ◌++◌}
use native.Mathlib.Omega.{arith}
use jeffrey_s_agenda_tool.Prelude.Tests.{leb, ◌==◌, if◌then◌else◌, Bool-cases}

abbrev pub Text : Type 0
Text = List ℕ

-- A string constant of the source.
abbrev pub text : String → Text
text String.[] = []
text (String.◌∷◌ c s) = code c ∷ text s

unfoldable pub text_eq : Text → Text → Bool
text_eq [] [] = true
text_eq [] (b ∷ t) = false
text_eq (a ∷ s) [] = false
text_eq (a ∷ s) (b ∷ t) = a == b && text_eq s t

eq_of_text_eq : (s t : Text) → text_eq s t ≡ true → s ≡ t
unfolding text_eq
eq_of_text_eq [] [] h = refl
eq_of_text_eq [] (b ∷ t) h = cc
eq_of_text_eq (a ∷ s) [] h = cc
eq_of_text_eq (a ∷ s) (b ∷ t) h = ground (arith, eq_of_text_eq s t)

pub text_eq_refl : (s : Text) → text_eq s s ≡ true
unfolding text_eq
text_eq_refl [] = refl
text_eq_refl (a ∷ s) = ground (arith, text_eq_refl s)

pub text_eq_iff : (s t : Text) → (text_eq s t ≡ true) ↔ (s ≡ t)
text_eq_iff s t = (eq_of_text_eq s t, λ e. rw e (text_eq_refl t))

unfoldable pub is_empty : Text → Bool
is_empty [] = true
is_empty (a ∷ s) = false

-- strings.HasPrefix(s, prefix)
unfoldable pub has_prefix : Text → Text → Bool
has_prefix s [] = true
has_prefix [] (b ∷ t) = false
has_prefix (a ∷ s) (b ∷ t) = a == b && has_prefix s t

-- strings.Contains(s, t)
unfoldable pub contains : Text → Text → Bool
unfolding has_prefix
contains [] t = has_prefix [] t
contains (a ∷ s) t = has_prefix (a ∷ s) t || contains s t

-- strings.Split(s, sep) for a separator of one character.
unfoldable pub split_on : ℕ → Text → List Text
split_on c [] = [] ∷ []
split_on c (a ∷ s) = elim (split_on c s) [
  | [] ↦ (a ∷ []) ∷ []
  | w ∷ ws ↦ if a == c then [] ∷ w ∷ ws else (a ∷ w) ∷ ws
]

-- strings.Join(words, sep)
unfoldable pub join : Text → List Text → Text
join sep [] = []
join sep (w ∷ []) = w
join sep (w ∷ v ∷ ws) = w ++ (sep ++ join sep (v ∷ ws))

-- unicode.IsSpace
unfoldable pub is_space : ℕ → Bool
is_space c =
    (leb 9 c && leb c 13)
    || c == 32
    || c == 0x85
    || c == 0xa0
    || c == 0x1680
    || (leb 0x2000 c && leb c 0x200a)
    || c == 0x2028
    || c == 0x2029
    || c == 0x202f
    || c == 0x205f
    || c == 0x3000

unfoldable pub trim_left : Text → Text
trim_left [] = []
trim_left (a ∷ s) = let rest = trim_left s in if is_space a then rest else a ∷ s

unfoldable pub trim_right : Text → Text
trim_right [] = []
trim_right (a ∷ s) = elim (trim_right s) [
  | [] ↦ if is_space a then [] else a ∷ []
  | b ∷ t ↦ a ∷ b ∷ t
]

-- strings.TrimSpace
unfoldable pub trim_space : Text → Text
unfolding trim_left trim_right is_space
trim_space s = trim_right (trim_left s)

-- s begins with t exactly if s is t with something after it.
pub has_prefix_sound : (s t : Text) → has_prefix s t ≡ true → (rest : Text) × (s ≡ t ++ rest)
unfolding has_prefix
has_prefix_sound s [] h = (s, refl)
has_prefix_sound [] (b ∷ t) h = cc
has_prefix_sound (a ∷ s) (b ∷ t) h =
    let (rest, e) = has_prefix_sound s t (ground arith) in (rest, ground arith)

pub has_prefix-append : (t rest : Text) → has_prefix (t ++ rest) t ≡ true
unfolding has_prefix
has_prefix-append [] rest = refl
has_prefix-append (b ∷ t) rest = ground (arith, has_prefix-append t rest)

-- t occurs in s exactly if s is t with something before and after it.
pub contains_sound :
    (s t : Text)
    → contains s t ≡ true
    → (before : Text) × (after : Text) × (s ≡ before ++ (t ++ after))
unfolding contains
contains_sound [] t h = let (rest, e) = has_prefix_sound [] t h in ([], rest, e)
contains_sound (a ∷ s) t h = elim (Bool-cases (has_prefix (a ∷ s) t)) [
  | inl e ↦ let (rest, q) = has_prefix_sound (a ∷ s) t e in ([], rest, q)
  | inr e ↦
      let (before, after, q) = contains_sound s t (rw e at h) in
      (a ∷ before, after, ap (λ r. a ∷ r) q)
]

pub contains-append : (before t after : Text) → contains (before ++ (t ++ after)) t ≡ true
unfolding contains
contains-append [] [] [] = refl
contains-append [] [] (c ∷ after) = refl
contains-append [] (b ∷ t) after = ground (arith, has_prefix-append (b ∷ t) after)
contains-append (a ∷ before) t after = ground (arith, contains-append before t after)
