-- ===== src/Worker/Calendar/Reminder.antt =====
-- internal/worker/calendar/calendar.go: when a reminder starts and ends.
pub mod Bounds
use mathlib.Core.Option
use jeffrey_s_agenda_tool.Prelude.{
  ℕ, ◌-◌, Text, text, ℤ, pos, negsuc, ◌+ℤ◌, ◌*ℤ◌, eqb_ℤ, wrap_int64, Option, some, [],
  if◌then◌else◌,
}
use jeffrey_s_agenda_tool.Json.{Json, names_field, decode_string, decode_int, decode_struct}
use jeffrey_s_agenda_tool.Domain.{Time, ActionParams}

abbrev pub no_params : ActionParams
no_params = record { offset_minutes = pos 0; new_event_title = []; duration_min = pos 0 }

unfoldable pub set_action_field : Text → Json → ActionParams → Option ActionParams
unfolding names_field decode_string decode_int
set_action_field key j p =
    if names_field key (text "offset_minutes")
    then Option.map (λ n. record p { offset_minutes = n }) (decode_int j p.offset_minutes)
    else if names_field key (text "new_event_title")
    then Option.map (λ s. record p { new_event_title = s }) (decode_string j p.new_event_title)
    else if names_field key (text "duration_min")
    then Option.map (λ n. record p { duration_min = n }) (decode_int j p.duration_min)
    else some p

unfoldable pub unmarshal_action : Json → Option ActionParams
unfolding set_action_field decode_struct
unmarshal_action j = decode_struct set_action_field j no_params

-- time.Minute, in nanoseconds
abbrev pub minute : ℕ
minute = 60_000_000_000

-- time.Duration(n) * time.Minute, in an int64
unfoldable pub minutes : ℤ → ℤ
unfolding ◌*ℤ◌ wrap_int64
minutes n = wrap_int64 (n *ℤ minute)

-- A value that is absent, or 0, is replaced.
unfoldable pub or_default : ℤ → ℤ → ℤ
or_default n default = if eqb_ℤ n (pos 0) then default else n

unfoldable pub reminder_time : Time → ActionParams → Time
unfolding minutes or_default ◌+ℤ◌
reminder_time start action = start +ℤ minutes (or_default action.offset_minutes (negsuc 59))

unfoldable pub end_time : Time → ActionParams → Time
unfolding minutes or_default ◌+ℤ◌
end_time reminder action = reminder +ℤ minutes (or_default action.duration_min (pos 5))

unfoldable pub minute_before : Time → Time
unfolding ◌+ℤ◌
minute_before t = t +ℤ negsuc (minute - 1)

unfoldable pub minute_after : Time → Time
unfolding ◌+ℤ◌
minute_after t = t +ℤ pos minute
