-- ===== src/Worker/Calendar/Trigger.antt =====
-- internal/worker/calendar/calendar.go: the conditions under which a rule fires for an event.
pub mod Spec
use jeffrey_s_agenda_tool.Prelude.{
  Text, text, text_eq, contains, is_empty, Bool, true, false, not, ◌&&◌, Option, none, some, List,
  [], ◌∷◌, any, if◌then◌else◌,
}
use mathlib.Core.Option
use jeffrey_s_agenda_tool.Json.{Json, names_field, decode_string, decode_strings, decode_struct}
use jeffrey_s_agenda_tool.Domain.{TriggerConditions}

abbrev pub no_conditions : TriggerConditions
no_conditions = record { summary_equals = []; summary_contains = []; location_contains = [] }

-- The field that a key names; other keys are ignored.
unfoldable pub set_trigger_field : Text → Json → TriggerConditions → Option TriggerConditions
unfolding names_field decode_string decode_strings
set_trigger_field key j t =
    if names_field key (text "summary_equals")
    then Option.map (λ s. record t { summary_equals = s }) (decode_string j t.summary_equals)
    else if names_field key (text "summary_contains")
    then Option.map (λ s. record t { summary_contains = s }) (decode_strings j t.summary_contains)
    else if names_field key (text "location_contains")
    then Option.map (λ s. record t { location_contains = s }) (decode_strings j t.location_contains)
    else some t

unfoldable pub unmarshal_trigger : Json → Option TriggerConditions
unfolding set_trigger_field decode_struct
unmarshal_trigger j = decode_struct set_trigger_field j no_conditions

unfoldable pub summary_matches : TriggerConditions → Text → Bool
unfolding is_empty text_eq contains
summary_matches trigger summary =
    if not (is_empty trigger.summary_equals) && text_eq summary trigger.summary_equals
    then true
    else any (λ c. contains summary c) trigger.summary_contains

-- Without a condition on the place every place matches.
unfoldable pub place_matches : (Text → Text) → List Text → Text → Bool
unfolding contains
place_matches lower [] location = true
place_matches lower (l ∷ ls) location = any (λ p. contains (lower location) (lower p)) (l ∷ ls)

unfoldable pub location_matches : (Text → Text) → TriggerConditions → Text → Bool
unfolding place_matches
location_matches lower trigger location = place_matches lower trigger.location_contains location
