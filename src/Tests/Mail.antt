-- ===== src/Tests/Mail.antt =====
-- A mail and two rules for the tests.
use jeffrey_s_agenda_tool.Prelude.{text, some, none, [], ◌∷◌, ◌≡◌, refl, text_eq}
use jeffrey_s_agenda_tool.Json.{
  Json, Fields, decode_struct, decode_fields, decode_string, names_field,
}
use jeffrey_s_agenda_tool.Domain.{GmailAutomationRule, GmailRuleTriggerType}
use jeffrey_s_agenda_tool.Google.{Header, Part, part, no_parts, Message}
use jeffrey_s_agenda_tool.Worker.Gmail.Match.{unmarshal_text}
use jeffrey_s_agenda_tool.Tests.Data.{mail, gmail_rule}

abbrev pub from_header : Header
from_header = record { name = text "From"; value = text "the boss" }

abbrev pub boss_part : Part
boss_part = part [] (text "text/plain") (from_header ∷ []) none no_parts

abbrev pub boss_mail : Message
boss_mail = record mail { payload = some boss_part }

abbrev pub sender_rule : GmailAutomationRule
sender_rule = record gmail_rule {
  trigger_type = GmailRuleTriggerType.sender_match;
  trigger_conditions =
      Json.obj (Fields.field (text "sender_pattern") (Json.str (text "boss")) Fields.end);
}

abbrev pub subject_rule : GmailAutomationRule
subject_rule = record gmail_rule {
  trigger_type = GmailRuleTriggerType.subject_match;
  trigger_conditions =
      Json.obj (Fields.field (text "subject_pattern") (Json.str (text "boss")) Fields.end);
}

pub sender_decoded :
    unmarshal_text (text "sender_pattern") sender_rule.trigger_conditions ≡ some (text "boss")
unfolding unmarshal_text decode_struct decode_fields decode_string names_field text_eq
sender_decoded = refl

pub subject_decoded :
    unmarshal_text (text "subject_pattern") subject_rule.trigger_conditions ≡ some (text "boss")
unfolding unmarshal_text decode_struct decode_fields decode_string names_field text_eq
subject_decoded = refl
