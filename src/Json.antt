-- ===== src/Json.antt =====
-- JSON values as PostgreSQL's jsonb columns hold them, and encoding/json's decoding of a value into
-- the fields of a struct: keys match up to case, null leaves a field alone, and a value of another
-- type is an error.
use jeffrey_s_agenda_tool.Prelude.{
  ℕ, ◌+◌, ◌^◌, Text, text_eq, ℤ, pos_part, neg_part, Bool, ◌&&◌, Option, none, some, List, [], ◌∷◌,
  leb, ltb, ◌==◌, if◌then◌else◌,
}

mutual
  pub data Json : Type 0 where
    null : Json
    bool : Bool → Json
    num : ℤ → Json
    -- a number with a fraction or an exponent, as it is spelled
    decimal : Text → Json
    str : Text → Json
    arr : Items → Json
    obj : Fields → Json

  pub data Items : Type 0 where
    nil : Items
    cons : Json → Items → Items

  pub data Fields : Type 0 where
    end : Fields
    field : Text → Json → Fields → Fields

-- foldRune on the letters of a key: upper case, the long s and the Kelvin sign fold to ASCII.
fold_rune : ℕ → ℕ
fold_rune c =
    if leb b'A' c && leb c b'Z'
    then c + 32
    else if c == 0x17f
    then b's'
    else if c == 0x212a
    then b'k'
    else c

fold_name : Text → Text
unfolding fold_rune
fold_name [] = []
fold_name (c ∷ s) = fold_rune c ∷ fold_name s

-- Does a key of the object name the field of the struct?
unfoldable pub names_field : Text → Text → Bool
unfolding fold_name text_eq
names_field key name = text_eq (fold_name key) (fold_name name)

-- A value decoded into a field of type string, int or []string that holds `old`.
unfoldable pub decode_string : Json → Text → Option Text
decode_string (str s) old = some s
decode_string null old = some old
decode_string _ old = none

-- The values of Go's int on a 64-bit machine.
unfoldable pub decode_int : Json → ℤ → Option ℤ
decode_int (num n) old =
    if ltb (pos_part n) (2 ^ 63) && leb (neg_part n) (2 ^ 63) then some n else none
decode_int null old = some old
decode_int _ old = none

unfoldable pub decode_items : Items → Option (List Text)
unfolding decode_string
decode_items nil = some []
decode_items (cons j js) = elim (decode_string j []) [
  | none ↦ none
  | some s ↦ elim (decode_items js) [ none ↦ none | some ss ↦ some (s ∷ ss) ]
]

unfoldable pub decode_strings : Json → List Text → Option (List Text)
unfolding decode_items
decode_strings (arr js) old = decode_items js
decode_strings null old = some []
decode_strings _ old = none

module _ {S : Type 0} (set_field : Text → Json → S → Option S) where
  -- The pairs of an object in order, each into the field that it names.
  unfoldable pub decode_fields : Fields → S → Option S
  decode_fields end s = some s
  decode_fields (field key j rest) s = elim (set_field key j s) [
    | none ↦ none
    | some s' ↦ decode_fields rest s'
  ]

  -- json.Unmarshal of an object into a struct that holds `s`.
  unfoldable pub decode_struct : Json → S → Option S
  unfolding decode_fields
  decode_struct (obj fs) s = decode_fields fs s
  decode_struct null s = some s
  decode_struct _ s = none
