-- ===== src/Api/Mail/Addresses.antt =====
-- internal/api/common/common.go: ParseEmailAddresses on addresses joined with commas.
use jeffrey_s_agenda_tool.Prelude.{
  ℕ, Text, text, is_empty, split_on, trim_space, trim_left, trim_right, is_space, join, true, false,
  not, ◌==◌, List, [], ◌∷◌, ◌++◌, ◌≡◌, refl, ◌∙◌, ap, any, keep, map, All, arith, Bool-cases, inl,
  inr,
}
use jeffrey_s_agenda_tool.Api.Mail.{parse_email_addresses}

-- Not empty, without a comma, and without space around it.
abbrev pub IsAddress : Text → Type 0
IsAddress t = (is_empty t ≡ false) × (any (λ c. c == b',') t ≡ false) × (trim_space t ≡ t)

split_on-some : (c : ℕ) (s : Text) → (w : Text) × (ws : List Text) × (split_on c s ≡ w ∷ ws)
unfolding split_on
split_on-some c [] = ([], [], refl)
split_on-some c (a ∷ s) =
    let (w, ws, e) = split_on-some c s in
    elim (Bool-cases (a == c)) [
      | inl q ↦ ([], w ∷ ws, rw (e, q) refl)
      | inr q ↦ (a ∷ w, ws, rw (e, q) refl)
    ]

split_on-none : (c : ℕ) (s : Text) → any (λ a. a == c) s ≡ false → split_on c s ≡ s ∷ []
unfolding split_on
split_on-none c [] h = refl
split_on-none c (a ∷ s) h =
    let e : split_on c s ≡ s ∷ [] = split_on-none c s (ground arith) in
    let q : (a == c) ≡ false = ground arith in rw (e, q) refl

split_on-append :
    (c : ℕ) (w s : Text) → any (λ a. a == c) w ≡ false → split_on c (w ++ c ∷ s) ≡ w ∷ split_on c s
unfolding split_on
split_on-append c [] s h =
    let (v, vs, e) = split_on-some c s in let q : (c == c) ≡ true = ground arith in rw (e, q) refl
split_on-append c (a ∷ w) s h =
    let e : split_on c (w ++ c ∷ s) ≡ w ∷ split_on c s = split_on-append c w s (ground arith) in
    let q : (a == c) ≡ false = ground arith in rw (e, q) refl

addresses_of : Text → List Text
addresses_of s = keep (λ email. not (is_empty email)) (map trim_space (split_on b',' s))

addresses_of-space : (s : Text) → addresses_of (b' ' ∷ s) ≡ addresses_of s
unfolding addresses_of split_on trim_space trim_left is_space
addresses_of-space s = let (w, ws, e) = split_on-some b',' s in rw e refl

addresses_of-append : (w s : Text) → IsAddress w → addresses_of (w ++ b',' ∷ s) ≡ w ∷ addresses_of s
unfolding addresses_of
addresses_of-append w s (full, no_comma, trimmed) =
    rw (split_on-append b',' w s no_comma, trimmed, full) refl

addresses_of-join :
    (emails : List Text) → All IsAddress emails → addresses_of (join (text ", ") emails) ≡ emails
unfolding addresses_of join split_on trim_space trim_left trim_right is_empty
addresses_of-join [] h = refl
addresses_of-join (w ∷ []) ((full, no_comma, trimmed), h) =
    rw (split_on-none b',' w no_comma, trimmed, full) refl
addresses_of-join (w ∷ v ∷ ws) (address, h) =
    addresses_of-append w (b' ' ∷ join (text ", ") (v ∷ ws)) address
    ∙ ap (λ rest. w ∷ rest)
        (addresses_of-space (join (text ", ") (v ∷ ws)) ∙ addresses_of-join (v ∷ ws) h)

parse_email_addresses-addresses_of : (s : Text) → parse_email_addresses s ≡ addresses_of s
unfolding parse_email_addresses addresses_of is_empty split_on trim_space trim_left trim_right
parse_email_addresses-addresses_of [] = refl
parse_email_addresses-addresses_of (a ∷ s) = refl

-- Addresses that are written with commas and spaces between them are read back, if each is not
-- empty, has no comma and no space around it.
pub parse_email_addresses-join :
    (emails : List Text)
    → All IsAddress emails
    → parse_email_addresses (join (text ", ") emails) ≡ emails
parse_email_addresses-join emails h =
    parse_email_addresses-addresses_of (join (text ", ") emails) ∙ addresses_of-join emails h
