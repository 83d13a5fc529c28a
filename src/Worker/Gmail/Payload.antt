-- ===== src/Worker/Gmail/Payload.antt =====
-- internal/worker/gmail/helpers.go: what is read from a message, and the row that is stored for it.
use mathlib.Core.Option
use jeffrey_s_agenda_tool.Prelude.{
  ℕ, ◌+◌, ◌*◌, ◌/◌, Text, text, text_eq, split_on, trim_space, is_empty, pos, Bool, false, ◌&&◌,
  ◌||◌, ltb, Option, none, some, List, [], any, find, map, if◌then◌else◌,
}
use jeffrey_s_agenda_tool.Domain.{ConnectedAccount, GmailMessageStatus}
use jeffrey_s_agenda_tool.Google.{Header, Body, Part, part, Parts, no_parts, more_parts, Message}
use jeffrey_s_agenda_tool.Action.{Env, Action, crash}
use jeffrey_s_agenda_tool.Store.Gmail.Messages.{StoreGmailMessageParams, store_gmail_message}

abbrev pub part_filename : Part → Text
part_filename (part filename mime headers body parts) = filename

abbrev pub part_headers : Part → List Header
part_headers (part filename mime headers body parts) = headers

abbrev pub part_body : Part → Option Body
part_body (part filename mime headers body parts) = body

abbrev pub part_parts : Part → Parts
part_parts (part filename mime headers body parts) = parts

abbrev pub parts_length : Parts → ℕ
parts_length no_parts = 0
parts_length (more_parts p ps) = parts_length ps + 1

-- The value of the first header of that name.
unfoldable pub get_header_value : List Header → Text → Option Text
unfolding text_eq
get_header_value headers name =
    Option.map (λ (h : Header). h.value) (find (λ h. text_eq h.name name) headers)

unfoldable pub split_recipients : Option Text → List Text
unfolding split_on trim_space
split_recipients none = []
split_recipients (some value) = map trim_space (split_on b',' value)

unfoldable pub extract_recipients : List Header → Text → List Text
unfolding get_header_value split_recipients
extract_recipients headers name = split_recipients (get_header_value headers name)

unfoldable pub has_label : List Text → Text → Bool
unfolding text_eq
has_label labels label = any (λ l. text_eq l label) labels

unfoldable mutual
  unfolding is_empty

  pub count_part : Part → ℕ
  count_part (part filename mime headers body parts) =
      (if is_empty filename then 0 else 1) + count_parts parts

  pub count_parts : Parts → ℕ
  count_parts no_parts = 0
  count_parts (more_parts p ps) = count_part p + count_parts ps

-- countAttachments, of a payload that may be nil.
unfoldable pub count_attachments : Option Part → ℕ
unfolding count_part
count_attachments none = 0
count_attachments (some p) = count_part p

abbrev body_has_size : Option Body → Bool
body_has_size none = false
body_has_size (some b) = ltb 0 b.size

unfoldable pub has_attachments : Part → Bool
has_attachments p =
    ltb 1 (parts_length (part_parts p))
    || (body_has_size (part_body p) && ltb 0 (parts_length (part_parts p)))

unfoldable pub message_params : ConnectedAccount → Message → Part → StoreGmailMessageParams
unfolding extract_recipients has_label has_attachments count_part
message_params acc m p = record {
  connected_account_id = acc.id;
  gmail_message_id = m.id;
  gmail_thread_id = m.thread_id;
  subject = get_header_value (part_headers p) (text "Subject");
  sender = get_header_value (part_headers p) (text "From");
  recipients = extract_recipients (part_headers p) (text "To");
  cc_recipients = extract_recipients (part_headers p) (text "Cc");
  bcc_recipients = extract_recipients (part_headers p) (text "Bcc");
  snippet = some m.snippet;
  status =
      if has_label m.label_ids (text "UNREAD")
      then GmailMessageStatus.unread
      else GmailMessageStatus.read;
  is_starred = has_label m.label_ids (text "STARRED");
  has_attachments = has_attachments p;
  attachment_count = count_part p;
  size_estimate = some m.size_estimate;
  received_at = pos (m.internal_date / 1000 * 1_000_000_000);
  labels = m.label_ids;
}

unfoldable pub store_payload : Env → ConnectedAccount → Message → Option Part → Action (Unit {0})
store_payload env acc m none = crash
store_payload env acc m (some p) = store_gmail_message env (message_params acc m p)

-- The headers of a nil payload are read before the test for nil.
unfoldable pub store_message_in_db : Env → ConnectedAccount → Message → Action (Unit {0})
unfolding store_payload
store_message_in_db env acc m = store_payload env acc m m.payload
