-- ===== src/Api/Gmail/Compose/Lines.antt =====
-- The header of a mail as its reader sees it: lines that end with "\r\n", up to an empty one.
use jeffrey_s_agenda_tool.Prelude.{
  Text, is_empty, true, false, not, all, ◌&&◌, ◌==◌, List, [], ◌∷◌, ◌++◌, All, ◌≡◌, refl, ap,
  if◌then◌else◌, arith,
}

-- A line, and what follows its end.
unfoldable pub read_line : Text → Text × Text
read_line [] = ([], [])
read_line (a ∷ []) = (a ∷ [], [])
read_line (a ∷ b ∷ s) =
    let (line, rest) = read_line (b ∷ s) in
    if a == b'\r' && b == b'\n' then ([], s) else (a ∷ line, rest)

-- The header lines and the body of a mail.
pub data Reads : Text → List Text → Text → Type 0 where
  blank : {s body : Text} → read_line s ≡ ([], body) → Reads s [] body
  line :
      {s l rest body : Text} {ls : List Text}
      → read_line s ≡ (l, rest)
      → is_empty l ≡ false
      → Reads rest ls body
      → Reads s (l ∷ ls) body

-- Without the character that begins the end of a line.
abbrev pub IsUnbroken : Text → Type 0
IsUnbroken = All (λ c. (c == b'\r') ≡ false)

pub IsUnbroken-of_all : (t : Text) → all (λ c. not (c == b'\r')) t ≡ true → IsUnbroken t
IsUnbroken-of_all [] h = tt
IsUnbroken-of_all (c ∷ t) h = (ground arith, IsUnbroken-of_all t (ground arith))

-- Every line with its end, and what follows.
abbrev pub put_lines : List Text → Text → Text
put_lines [] rest = rest
put_lines (l ∷ ls) rest = l ++ (b'\r' ∷ b'\n' ∷ put_lines ls rest)

read_line-append :
    (l rest : Text) → IsUnbroken l → read_line (l ++ (b'\r' ∷ b'\n' ∷ rest)) ≡ (l, rest)
unfolding read_line
read_line-append [] rest h = refl
read_line-append (c ∷ []) rest h = rw h.0
read_line-append (c ∷ d ∷ l) rest h = rw (h.0, read_line-append (d ∷ l) rest h.1)

pub put_lines-append :
    (ls ms : List Text) (rest : Text) → put_lines (ls ++ ms) rest ≡ put_lines ls (put_lines ms rest)
put_lines-append [] ms rest = refl
put_lines-append (l ∷ ls) ms rest = ap (λ t. l ++ (b'\r' ∷ b'\n' ∷ t)) (put_lines-append ls ms rest)

abbrev pub IsLine : Text → Type 0
IsLine l = (is_empty l ≡ false) × IsUnbroken l

pub Reads-blank : (body : Text) → Reads (b'\r' ∷ b'\n' ∷ body) [] body
Reads-blank body = blank (read_line-append [] body tt)

-- Lines that are written are read.
pub Reads-put_lines :
    {s body : Text} {hs : List Text} (ls : List Text)
    → All IsLine ls
    → Reads s hs body
    → Reads (put_lines ls s) (ls ++ hs) body
Reads-put_lines [] h r = r
Reads-put_lines (l ∷ ls) h r = line (read_line-append l _ h.0.1) h.0.0 (Reads-put_lines ls h.1 r)
