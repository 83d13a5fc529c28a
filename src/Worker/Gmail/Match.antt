-- ===== src/Worker/Gmail/Match.antt =====
-- internal/worker/gmail/processing.go: does a message match the trigger of a rule?
pub mod Spec
use jeffrey_s_agenda_tool.Prelude.{
  Text, text, contains, Bool, true, false, Option, none, some, List, [], if◌then◌else◌,
}
use jeffrey_s_agenda_tool.Json.{Json, names_field, decode_string, decode_struct}
use jeffrey_s_agenda_tool.Domain.{
  GmailAutomationRule, GmailRuleTriggerType, new_message, sender_match, subject_match, label_added,
  starred,
}
use jeffrey_s_agenda_tool.Database.{Result, ok, err, panic, invalid_json}
use jeffrey_s_agenda_tool.Google.{Part, Message}
use jeffrey_s_agenda_tool.Worker.Gmail.Payload.{part_headers, get_header_value, has_label}

-- json.Unmarshal into a struct of one string field.
unfoldable pub unmarshal_text : Text → Json → Option Text
unfolding decode_struct names_field decode_string
unmarshal_text name j =
    decode_struct (λ key v s. if names_field key name then decode_string v s else some s) j []

module _ (lower : Text → Text) where
  unfoldable pub value_matches : Option Text → Text → Bool
  unfolding contains
  value_matches none pattern = false
  value_matches (some value) pattern = contains (lower value) (lower pattern)

  -- A header of the payload; a nil payload is dereferenced.
  unfoldable pub header_matches : Option Part → Text → Option Text → Result Bool
  unfolding value_matches get_header_value
  header_matches payload name none = err invalid_json
  header_matches none name (some pattern) = panic
  header_matches (some p) name (some pattern) =
      ok (value_matches (get_header_value (part_headers p) name) pattern)

  unfoldable pub label_matches : List Text → Option Text → Result Bool
  unfolding has_label
  label_matches labels none = err invalid_json
  label_matches labels (some name) = ok (has_label labels name)

  unfoldable pub trigger_matches : GmailRuleTriggerType → Json → Message → Result Bool
  unfolding header_matches label_matches unmarshal_text
  trigger_matches new_message conditions m = ok true
  trigger_matches sender_match conditions m =
      header_matches m.payload (text "From") (unmarshal_text (text "sender_pattern") conditions)
  trigger_matches subject_match conditions m =
      header_matches m.payload (text "Subject") (unmarshal_text (text "subject_pattern") conditions)
  trigger_matches label_added conditions m =
      label_matches m.label_ids (unmarshal_text (text "label_name") conditions)
  trigger_matches starred conditions m = ok (has_label m.label_ids (text "STARRED"))
  trigger_matches (GmailRuleTriggerType.other t) conditions m = ok false

  unfoldable pub check_rule_match : Message → GmailAutomationRule → Result Bool
  unfolding trigger_matches
  check_rule_match m rule = trigger_matches rule.trigger_type rule.trigger_conditions m
