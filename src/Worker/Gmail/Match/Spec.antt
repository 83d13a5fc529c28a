-- ===== src/Worker/Gmail/Match/Spec.antt =====
-- internal/worker/gmail/processing.go: which messages the patterns of a rule select.
use jeffrey_s_agenda_tool.Prelude.{
  Text, text, contains_sound, Bool, true, Option, none, some, ◌≡◌, ◌↔◌, refl, ap, arith,
}
use jeffrey_s_agenda_tool.Domain.{GmailAutomationRule, sender_match, subject_match}
use jeffrey_s_agenda_tool.Database.{Result, ok}
use jeffrey_s_agenda_tool.Google.{Part, Message}
use jeffrey_s_agenda_tool.Worker.Calendar.Trigger.Spec.{Occurs, contains_of_Occurs}
use jeffrey_s_agenda_tool.Worker.Gmail.Payload.{part_headers, get_header_value}
use jeffrey_s_agenda_tool.Worker.Gmail.Match.{
  unmarshal_text, value_matches, header_matches, trigger_matches, check_rule_match,
}

-- The header is there, and its value holds the pattern, up to case.
abbrev pub HeaderHolds : (Text → Text) → Option Text → Text → Type 0
HeaderHolds lower found pattern =
    (value : Text) × (found ≡ some value) × Occurs (lower pattern) (lower value)

some_inj : {s t : Text} → ◌≡◌ {A = Option Text} (some s) (some t) → s ≡ t
some_inj e = cc

ok_inj : (a b : Bool) → ◌≡◌ {A = Result Bool} (ok a) (ok b) → a ≡ b
ok_inj a b e = ground arith

value_matches-HeaderHolds :
    (lower : Text → Text) (found : Option Text) (pattern : Text)
    → (value_matches lower found pattern ≡ true) ↔ HeaderHolds lower found pattern
unfolding value_matches
value_matches-HeaderHolds lower none pattern = (λ h. cc, λ (value, e, o). cc)
value_matches-HeaderHolds lower (some v) pattern = (
  λ h. (v, refl, contains_sound (lower v) (lower pattern) h),
  λ (value, e, o). contains_of_Occurs (lower pattern) (lower v) (rw (some_inj e) o),
)

ok-HeaderHolds :
    (lower : Text → Text) (found : Option Text) (pattern : Text)
    → (◌≡◌ {A = Result Bool} (ok (value_matches lower found pattern)) (ok true))
      ↔ HeaderHolds lower found pattern
ok-HeaderHolds lower found pattern =
    let (there, back) = value_matches-HeaderHolds lower found pattern in
    (λ h. there (ok_inj _ _ h), λ h. ap ok (back h))

-- A rule on the sender, whose conditions decode to a pattern, selects a message with a payload exactly
-- if its first From header holds the pattern, up to case.
pub check_rule_match-sender_match :
    (lower : Text → Text) (m : Message) (rule : GmailAutomationRule) (p : Part) (pattern : Text)
    → m.payload ≡ some p
    → rule.trigger_type ≡ sender_match
    → unmarshal_text (text "sender_pattern") rule.trigger_conditions ≡ some pattern
    → (check_rule_match lower m rule ≡ ok true)
      ↔ HeaderHolds lower (get_header_value (part_headers p) (text "From")) pattern
unfolding check_rule_match trigger_matches header_matches
check_rule_match-sender_match lower m rule p pattern payload kind decoded =
    rw (kind, payload, decoded)
      (ok-HeaderHolds lower (get_header_value (part_headers p) (text "From")) pattern)

-- A rule on the subject, whose conditions decode to a pattern, selects a message with a payload exactly
-- if its first Subject header holds the pattern, up to case.
pub check_rule_match-subject_match :
    (lower : Text → Text) (m : Message) (rule : GmailAutomationRule) (p : Part) (pattern : Text)
    → m.payload ≡ some p
    → rule.trigger_type ≡ subject_match
    → unmarshal_text (text "subject_pattern") rule.trigger_conditions ≡ some pattern
    → (check_rule_match lower m rule ≡ ok true)
      ↔ HeaderHolds lower (get_header_value (part_headers p) (text "Subject")) pattern
unfolding check_rule_match trigger_matches header_matches
check_rule_match-subject_match lower m rule p pattern payload kind decoded =
    rw (kind, payload, decoded)
      (ok-HeaderHolds lower (get_header_value (part_headers p) (text "Subject")) pattern)
