-- ===== src/Api/Mail.antt =====
-- internal/api/common/common.go: the texts of a mail.
pub mod Addresses
use jeffrey_s_agenda_tool.Prelude.{
  ℕ, Text, text, text_eq, is_empty, split_on, trim_space, Bool, not, ◌&&◌, Option, none, some, List,
  [], ◌∷◌, keep, map, if◌then◌else◌,
}
use jeffrey_s_agenda_tool.Google.{Header, Body, Part, part, Parts, no_parts, more_parts}

unfoldable pub parse_email_addresses : Text → List Text
unfolding is_empty split_on trim_space
parse_email_addresses s =
    if is_empty s
    then []
    else keep (λ email. not (is_empty email)) (map trim_space (split_on b',' s))

-- base64.URLEncoding.DecodeString
module _ (decode_base64 : Text → Option Text) where
  -- The content of a body that is there, not empty, and can be decoded.
  unfoldable pub body_text : Option Body → Option Text
  unfolding is_empty
  body_text none = none
  body_text (some b) = if is_empty b.content then none else decode_base64 b.content

  -- The text of a part of one of the two types.
  unfoldable pub leaf_text : Text → Option Body → Option Text
  unfolding body_text text_eq
  leaf_text mime body =
      if text_eq mime (text "text/plain")
      then body_text body
      else if text_eq mime (text "text/html")
      then body_text body
      else none

  abbrev pub or_else : Option Text → Text → Text
  or_else none rest = rest
  or_else (some t) rest = t

  unfoldable mutual
    unfolding is_empty body_text leaf_text

    pub extract_part : Part → Text
    extract_part (part filename mime headers body parts) =
        or_else (body_text body) (extract_parts parts)

    -- The loop over the parts: attachments are passed over, and an empty text of a nested part.
    pub extract_parts : Parts → Text
    extract_parts no_parts = []
    extract_parts (more_parts (part filename mime headers body parts) rest) =
        let nested = extract_part (part filename mime headers body parts) in
        let later = extract_parts rest in
        if not (is_empty filename)
        then later
        else or_else (leaf_text mime body) (if is_empty nested then later else nested)

  -- ExtractMessageBody, of a payload that may be nil.
  unfoldable pub extract_message_body : Option Part → Text
  unfolding extract_part
  extract_message_body none = []
  extract_message_body (some p) = extract_part p
