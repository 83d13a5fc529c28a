-- ===== src/Api/Gmail/Messages.antt =====
-- internal/api/gmail/gmail.go: HandleGetGmailMessages, from the list of the messages to what is
-- written for each of them.
pub mod Views
pub mod Status
use jeffrey_s_agenda_tool.Prelude.{
  ℕ, ◌*◌, ◌-◌, Text, text, text_eq, is_empty, parse_int, ℤ, pos, negsuc, Bool, false, not, ◌&&◌,
  ◌||◌, ltb, leb, Option, none, some, List, [], ◌∷◌, ◌++◌, any, if◌then◌else◌,
}
use jeffrey_s_agenda_tool.Domain.{Time}
use jeffrey_s_agenda_tool.Google.{
  Token, Header, Body, Part, part, Parts, no_parts, more_parts, Message, MessagesQuery, full,
  metadata,
}
use jeffrey_s_agenda_tool.Action.{Env, Action, pure, crash, attempt, ask, clock, ◌>>=◌}
use jeffrey_s_agenda_tool.Api.{MessageView}
use jeffrey_s_agenda_tool.Api.Mail.{parse_email_addresses, extract_message_body}

-- The number of messages to list, from 1 to 500, and 50 where it is not given or out of range.
unfoldable pub bounded : Option ℤ → ℕ
bounded (some (pos n)) = if ltb 0 n && leb n 500 then n else 50
bounded other = 50

unfoldable pub max_results_of : Text → ℕ
unfolding is_empty parse_int bounded
max_results_of t = if is_empty t then 50 else bounded (parse_int t)

-- The variables that the loop over the headers sets.
pub record MailHeaders : Type 0 where
  pub subject : Text
  pub sender : Text
  pub to : Text
  pub cc : Text
  pub bcc : Text
  pub received_at : Time

-- The zero time.Time, the first of January of the year 1.
abbrev pub zero_time : Time
zero_time = negsuc (62_135_596_800_000_000_000 - 1)

abbrev pub no_headers : MailHeaders
no_headers = record {
  subject = [];
  sender = [];
  to = [];
  cc = [];
  bcc = [];
  received_at = zero_time;
}

abbrev pub set_received : Option Time → MailHeaders → MailHeaders
set_received none h = h
set_received (some t) h = record h { received_at = t }

module _ (env : Env) where
  -- The switch on the name of a header. The two layouts tried for a date are the same text.
  unfoldable pub read_header : Header → MailHeaders → MailHeaders
  unfolding text_eq
  read_header header h =
      if text_eq header.name (text "Subject")
      then record h { subject = header.value }
      else if text_eq header.name (text "From")
      then record h { sender = header.value }
      else if text_eq header.name (text "To")
      then record h { to = header.value }
      else if text_eq header.name (text "Cc")
      then record h { cc = header.value }
      else if text_eq header.name (text "Bcc")
      then record h { bcc = header.value }
      else if text_eq header.name (text "Date")
      then set_received (env.parse_mail_time header.value) h
      else h

  unfoldable pub read_headers : List Header → MailHeaders → MailHeaders
  unfolding read_header
  read_headers [] h = h
  read_headers (header ∷ rest) h = read_headers rest (read_header header h)

  -- Is one of the parts an attachment?
  unfoldable pub has_filename : Parts → Bool
  unfolding is_empty
  has_filename no_parts = false
  has_filename (more_parts (part filename mime headers body parts) rest) =
      not (is_empty filename) || has_filename rest

  unfoldable pub holds_label : Text → List Text → Bool
  unfolding text_eq
  holds_label label labels = any (λ l. text_eq l label) labels

  unfoldable pub body_of : Option Body → Part → Text
  unfolding extract_message_body
  body_of none p = []
  body_of (some b) p = extract_message_body env.decode_base64 (some p)

  -- Recipients are parsed where there are any.
  unfoldable pub parse_recipients : Text → List Text
  unfolding is_empty parse_email_addresses
  parse_recipients t = if is_empty t then [] else parse_email_addresses t

  abbrev pub head_of : Part → List Header
  head_of (part filename mime headers body parts) = headers

  abbrev pub parts_of : Part → Parts
  parts_of (part filename mime headers body parts) = parts

  abbrev pub own_body : Part → Option Body
  own_body (part filename mime headers body parts) = body

  -- The labels, and so the status and the star, are those of the entry of the list.
  unfoldable pub view_of : Message → Message → Part → Time → Time → Time → MessageView
  unfolding read_headers has_filename holds_label body_of parse_recipients is_empty
  view_of entry m p synced created updated =
      let h = read_headers (head_of p) no_headers in
      record {
        id = entry.id;
        thread_id = entry.thread_id;
        subject = h.subject;
        sender = h.sender;
        recipients = parse_recipients h.to;
        cc_recipients = parse_recipients h.cc;
        bcc_recipients = parse_recipients h.bcc;
        snippet = if is_empty m.snippet then entry.snippet else m.snippet;
        body = body_of (own_body p) p;
        status = if holds_label (text "UNREAD") entry.label_ids then text "unread" else text "read";
        is_starred = holds_label (text "STARRED") entry.label_ids;
        has_attachments = has_filename (parts_of p);
        attachment_count = 0;
        size_estimate = m.size_estimate;
        received_at = env.format_time h.received_at;
        labels = entry.label_ids;
        last_synced = env.format_time synced;
        created_at = env.format_time created;
        updated_at = env.format_time updated;
      }

  -- A message without a payload is a nil dereference.
  unfoldable pub transform : Message → Message → Option Part → Action (List MessageView)
  unfolding view_of
  transform entry m none = crash
  transform entry m (some p) = do
    synced ← clock env
    created ← clock env
    updated ← clock env
    pure (view_of entry m p synced created updated ∷ [])

  module _ (token : Token) where
    -- The whole message, or what the token's scope allows to see of it; none on two errors.
    unfoldable pub transform_entry : Message → Action (List MessageView)
    unfolding transform
    transform_entry entry =
        attempt (ask λ n. env.google.get_message n token full entry.id)
          (λ _.
            attempt (ask λ n. env.google.get_message n token metadata entry.id) (λ _. pure [])
              (λ m. transform entry m m.payload))
          (λ m. transform entry m m.payload)

    unfoldable pub transform_messages : List Message → Action (List MessageView)
    transform_messages [] = pure []
    transform_messages (entry ∷ entries) = do
      views ← transform_entry entry
      later ← transform_messages entries
      pure (views ++ later)
