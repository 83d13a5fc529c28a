-- ===== src/Api/Gmail/Compose/Read.antt =====
-- internal/api/gmail/gmail.go: what the reader of a composed mail finds in it.
use mathlib.Core.List.{append_assoc}
use jeffrey_s_agenda_tool.Prelude.{
  ℕ, Text, text, is_empty, join, inl, inr, Bool-cases, List, [], ◌∷◌, ◌++◌, All, All-append, ◌≡◌,
  refl,
}
use mathlib.Core.Path.{subst}
use jeffrey_s_agenda_tool.Api.{MailBody}
use jeffrey_s_agenda_tool.Api.Gmail.Compose.{recipients_line, content_type, raw_message}
use jeffrey_s_agenda_tool.Api.Gmail.Compose.Lines.{
  Reads, IsUnbroken, IsUnbroken-of_all, IsLine, put_lines, put_lines-append, Reads-blank,
  Reads-put_lines,
}

abbrev pub optional_line : Text → List Text → List Text
optional_line name [] = []
optional_line name (a ∷ rest) = (name ++ join (text ",") (a ∷ rest)) ∷ []

-- The lines for the recipients.
abbrev pub recipient_lines : MailBody → List Text
recipient_lines m =
    (text "To: " ++ join (text ",") m.to)
    ∷ (optional_line (text "Cc: ") m.cc ++ optional_line (text "Bcc: ") m.bcc)

abbrev pub content_line : MailBody → Text
content_line m = text "Content-Type: " ++ (content_type m ++ text "; charset=UTF-8")

-- No address breaks a line.
pub record HasPlainAddresses (m : MailBody) : Type 0 where
  pub to : All IsUnbroken m.to
  pub cc : All IsUnbroken m.cc
  pub bcc : All IsUnbroken m.bcc

join-IsUnbroken : (as' : List Text) → All IsUnbroken as' → IsUnbroken (join (text ",") as')
unfolding join
join-IsUnbroken [] h = tt
join-IsUnbroken (a ∷ []) h = h.0
join-IsUnbroken (a ∷ b ∷ rest) h = All-append _ a _ h.0 (refl, join-IsUnbroken (b ∷ rest) h.1)

optional_line-IsLine :
    (c : ℕ) (name : Text) (as' : List Text)
    → IsUnbroken (c ∷ name)
    → All IsUnbroken as'
    → All IsLine (optional_line (c ∷ name) as')
unfolding is_empty
optional_line-IsLine c name [] hn h = tt
optional_line-IsLine c name (a ∷ rest) hn h =
    ((refl, All-append _ (c ∷ name) _ hn (join-IsUnbroken (a ∷ rest) h)), tt)

recipient_lines-IsLine : (m : MailBody) → HasPlainAddresses m → All IsLine (recipient_lines m)
unfolding is_empty
recipient_lines-IsLine m h = (
  (
    refl,
    All-append _ (text "To: ") _ (IsUnbroken-of_all (text "To: ") refl) (join-IsUnbroken m.to h.to),
  ),
  All-append _ (optional_line (text "Cc: ") m.cc) _
      (optional_line-IsLine b'C' (text "c: ") m.cc (IsUnbroken-of_all (text "Cc: ") refl) h.cc)
      (optional_line-IsLine b'B' (text "cc: ") m.bcc (IsUnbroken-of_all (text "Bcc: ") refl) h.bcc),
)

content_line-IsLine : (m : MailBody) → IsLine (content_line m)
unfolding is_empty content_type
content_line-IsLine m = elim (Bool-cases m.is_html) [
  | inl html ↦
      rw html (refl, IsUnbroken-of_all (text "Content-Type: text/html; charset=UTF-8") refl)
  | inr plain ↦
      rw plain (refl, IsUnbroken-of_all (text "Content-Type: text/plain; charset=UTF-8") refl)
]

recipients_line-lines :
    (name rest : Text) (as' : List Text)
    → recipients_line name as' ++ rest ≡ put_lines (optional_line name as') rest
unfolding recipients_line
recipients_line-lines name rest [] = refl
recipients_line-lines name rest (a ∷ as') = simp append_assoc

-- The message is the lines of its header, an empty one, and the body.
raw_message-lines :
    (m : MailBody)
    → raw_message m
      ≡ put_lines (recipient_lines m) (
          put_lines
            ((text "Subject: " ++ m.subject) ∷ content_line m ∷ [])
            (b'\r' ∷ b'\n' ∷ m.body))
unfolding raw_message
raw_message-lines m = simp (append_assoc, put_lines-append, recipients_line-lines)

Reads-lines :
    (m : MailBody) (lines : List Text)
    → HasPlainAddresses m
    → All IsLine lines
    → Reads
        (put_lines
          (recipient_lines m)
          (put_lines (lines ++ (content_line m ∷ [])) (b'\r' ∷ b'\n' ∷ m.body)))
        (recipient_lines m ++ (lines ++ (content_line m ∷ []) ++ []))
        m.body
Reads-lines m lines plain all =
    Reads-put_lines (recipient_lines m) (recipient_lines-IsLine m plain) (
      Reads-put_lines (lines ++ (content_line m ∷ []))
        (All-append _ lines _ all (content_line-IsLine m, tt)) (Reads-blank m.body))

subject-IsLine : (t : Text) → IsUnbroken t → IsLine (text "Subject: " ++ t)
unfolding is_empty
subject-IsLine t h =
    (refl, All-append _ (text "Subject: ") t (IsUnbroken-of_all (text "Subject: ") refl) h)

-- If no address and not the subject has a carriage return, the reader of a composed mail finds the
-- lines To, Cc and Bcc (these two if there are any), Subject and Content-Type with what was given,
-- no other line, and the body.
pub raw_message-Reads :
    (m : MailBody)
    → HasPlainAddresses m
    → IsUnbroken m.subject
    → Reads
        (raw_message m)
        (recipient_lines m ++ ((text "Subject: " ++ m.subject) ∷ content_line m ∷ []))
        m.body
raw_message-Reads m plain subject = rw (raw_message-lines m) (
    Reads-lines m ((text "Subject: " ++ m.subject) ∷ []) plain
      (subject-IsLine m.subject subject, tt))

broken_subject :
    (before line subject content rest : Text)
    → subject ≡ before ++ (text "\r\n" ++ line)
    → put_lines ((text "Subject: " ++ before) ∷ line ∷ content ∷ []) rest
      ≡ put_lines ((text "Subject: " ++ subject) ∷ content ∷ []) rest
broken_subject before line subject content rest e = rw e (simp append_assoc)

-- A subject with a line end in it adds a line to the header: what follows the line end is read as a
-- line of its own, such as a further recipient.
pub raw_message-injects :
    (m : MailBody) (before line : Text)
    → HasPlainAddresses m
    → m.subject ≡ before ++ (text "\r\n" ++ line)
    → IsUnbroken before
    → IsLine line
    → Reads
        (raw_message m)
        (recipient_lines m ++ ((text "Subject: " ++ before) ∷ line ∷ content_line m ∷ []))
        m.body
raw_message-injects m before line plain subject unbroken is_line =
    let read =
      Reads-lines m ((text "Subject: " ++ before) ∷ line ∷ []) plain
        (subject-IsLine before unbroken, (is_line, tt)) in
    rw (raw_message-lines m) (
      subst
        (λ t.
          Reads (put_lines (recipient_lines m) t)
            (recipient_lines m ++ ((text "Subject: " ++ before) ∷ line ∷ content_line m ∷ []))
            m.body)
        (broken_subject before line m.subject (content_line m) (b'\r' ∷ b'\n' ∷ m.body) subject)
        read)
