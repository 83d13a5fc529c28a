-- ===== src/Api/Gmail/Messages/Status.antt =====
-- internal/api/gmail/gmail.go: the status and the star that HandleGetGmailMessages writes.
use jeffrey_s_agenda_tool.Prelude.{
  ℕ, Text, text, false, Option, none, some, List, [], ◌∷◌, ◌≡◌, refl, All, All-append,
}
use jeffrey_s_agenda_tool.Domain.{Uuid, Time}
use jeffrey_s_agenda_tool.Google.{Token, Message, Part, MessagesQuery, answer}
use jeffrey_s_agenda_tool.Action.{Env, World, Action}
use jeffrey_s_agenda_tool.Action.Ensures.{
  Satisfies, Ensures, Ensures-pure, Ensures-crash, Ensures-any, Ensures-attempt, Ensures-bind,
  Ensures-ask,
}
use jeffrey_s_agenda_tool.Api.{
  HttpRequest, MessageView, Payload, write_json, write_json_error, require,
}
use jeffrey_s_agenda_tool.Api.Gmail.{with_mailbox, with_gmail, handle_get_gmail_messages}
use jeffrey_s_agenda_tool.Api.Gmail.Messages.{
  view_of, holds_label, transform, transform_entry, transform_messages,
}

abbrev pub IsRead : MessageView → Type 0
IsRead v = (v.status ≡ text "read") × (v.is_starred ≡ false)

-- Every message that is written is read and has no star.
abbrev pub AreRead : Payload → Type 0
AreRead (Payload.mails vs) = All IsRead vs
AreRead _ = Unit

-- As the Gmail API documents it, the entries of a list have an id and a thread, and no labels.
abbrev pub ListsBare : Env → Type 0
ListsBare env =
    (n : ℕ) (t : Token) (q : MessagesQuery) (ms : List Message)
    → env.google.list_messages n t q ≡ answer ms
    → All (λ m. m.label_ids ≡ []) ms

module _ (env : Env) where
  view_of-IsRead :
      (entry m : Message) (p : Part) (synced created updated : Time)
      → entry.label_ids ≡ []
      → IsRead (view_of env entry m p synced created updated)
  unfolding view_of holds_label
  view_of-IsRead entry m p synced created updated bare = (rw bare refl, rw bare refl)

  transform-IsRead :
      (entry m : Message) (p : Option Part)
      → entry.label_ids ≡ []
      → Ensures (All IsRead) (transform env entry m p)
  unfolding transform
  transform-IsRead entry m none bare = Ensures-crash _
  transform-IsRead entry m (some p) bare = Ensures-bind _ _ _ (Ensures-any _) λ synced a.
      Ensures-bind _ _ _ (Ensures-any _) λ created b.
        Ensures-bind _ _ _ (Ensures-any _)
          λ updated c. Ensures-pure _ _ (view_of-IsRead entry m p synced created updated bare, tt)

  transform_entry-IsRead :
      (token : Token) (entry : Message)
      → entry.label_ids ≡ []
      → Ensures (All IsRead) (transform_entry env token entry)
  unfolding transform_entry
  transform_entry-IsRead token entry bare =
      Ensures-attempt _ _ _ _ (Ensures-any _)
        (λ e.
          Ensures-attempt _ _ _ _ (Ensures-any _) (λ e'. Ensures-pure _ [] tt)
            (λ m h. transform-IsRead entry m m.payload bare))
        (λ m h. transform-IsRead entry m m.payload bare)

  transform_messages-IsRead :
      (token : Token) (entries : List Message)
      → All (λ m. m.label_ids ≡ []) entries
      → Ensures (All IsRead) (transform_messages env token entries)
  unfolding transform_messages
  transform_messages-IsRead token [] bare = Ensures-pure _ [] tt
  transform_messages-IsRead token (entry ∷ entries) bare =
      Ensures-bind _ _ _ (transform_entry-IsRead token entry bare.0) λ views own.
        Ensures-bind _ _ _ (transform_messages-IsRead token entries bare.1)
          λ later rest. Ensures-pure _ _ (All-append IsRead views later own rest)

  Ensures-write_json_error :
      (n : ℕ) (t : Text) → Ensures (λ r. AreRead r.payload) (write_json_error n t)
  unfolding write_json_error write_json
  Ensures-write_json_error n t = Ensures-pure _ _ tt

Ensures-require :
    {A B : Type 0} {P : B → Type 0} (o : Option A) (m : Action B) (k : A → Action B)
    → Ensures P m
    → ((a : A) → Ensures P (k a))
    → Ensures P (require o m k)
unfolding require
Ensures-require none m k em ek = em
Ensures-require (some a) m k em ek = ek a

messages-AreRead :
    (env : Env) (parse_uuid : Text → Option Uuid) (req : HttpRequest)
    → ListsBare env
    → Ensures (λ r. AreRead r.payload) (handle_get_gmail_messages env parse_uuid req)
unfolding handle_get_gmail_messages with_mailbox with_gmail write_json
messages-AreRead env parse_uuid req bare =
    Ensures-require (parse_uuid req.account_id) _ _ (Ensures-write_json_error env _ _) λ k.
      Ensures-attempt _ _ _ _ (Ensures-any _) (λ e. Ensures-write_json_error env _ _)
        λ token h.
          Ensures-attempt _ _ _ _
            (Ensures-ask (All (λ m. m.label_ids ≡ [])) _ (λ n a given. bare n token _ a given))
            (λ e. Ensures-write_json_error env _ _)
            λ entries b.
              Ensures-bind _ _ _ (transform_messages-IsRead env token entries b)
                λ views r. Ensures-pure _ _ r

-- If the entries of a list of messages come without labels, as the Gmail API documents it, then
-- every message that the handler writes has the status "read" and no star, whatever the labels of the
-- message are.
pub handle_get_gmail_messages-AreRead :
    (env : Env) (parse_uuid : Text → Option Uuid) (req : HttpRequest) (w : World)
    → ListsBare env
    → Satisfies (λ r. AreRead r.payload) (handle_get_gmail_messages env parse_uuid req w).0
handle_get_gmail_messages-AreRead env parse_uuid req w bare =
    (messages-AreRead env parse_uuid req bare).at w
