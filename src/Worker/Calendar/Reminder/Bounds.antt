-- ===== src/Worker/Calendar/Reminder/Bounds.antt =====
-- Where the arithmetic on minutes is exact, and where the int64 wraps around.
use jeffrey_s_agenda_tool.Prelude.{
  ℕ, ◌*◌, ◌+◌, ◌≤◌, ◌<◌, ◌≡◌, refl, ℤ, pos, negsuc, pos_part, neg_part, ◌+ℤ◌, ◌*ℤ◌, ltb_ℤ,
  wrap_int64, wrap_int64_in_range, true, arith,
}
use jeffrey_s_agenda_tool.Domain.{Time, ActionParams}
use jeffrey_s_agenda_tool.Worker.Calendar.Reminder.{
  minute, minutes, or_default, reminder_time, end_time,
}

-- The product with a minute fits an int64 up to this number, which is 292 years, either way.
abbrev pub max_minutes : ℕ
max_minutes = 153_722_867

abbrev pub size : ℤ → ℕ
size n = pos_part n + neg_part n

*ℤ_parts :
    (a : ℤ) (k : ℕ) → (pos_part (a *ℤ k) ≡ pos_part a * k) × (neg_part (a *ℤ k) ≡ neg_part a * k)
unfolding ◌*ℤ◌
*ℤ_parts (pos n) k = grind arith
*ℤ_parts (negsuc n) k = grind arith

minutes_exact : (n : ℤ) → size n ≤ max_minutes → minutes n ≡ n *ℤ minute
unfolding minutes
minutes_exact n h =
    let (p, q) = *ℤ_parts n minute in
    wrap_int64_in_range (n *ℤ minute) (omega (arith, p, q)) (omega (arith, p, q))

-- With an offset and a duration of at most 153,722,867 minutes either way, the reminder starts the
-- offset after the event's start, where 0 stands for 60 minutes before it, and ends the duration
-- later, where 0 stands for 5 minutes.
pub reminder_exact :
    (start : Time) (action : ActionParams)
    → size action.offset_minutes ≤ max_minutes
    → size action.duration_min ≤ max_minutes
    → (reminder_time start action ≡ start +ℤ or_default action.offset_minutes (negsuc 59) *ℤ minute)
      × (end_time (reminder_time start action) action
          ≡ start
            +ℤ or_default action.offset_minutes (negsuc 59) *ℤ minute
            +ℤ or_default action.duration_min (pos 5) *ℤ minute)
unfolding reminder_time end_time or_default
reminder_exact start action h k =
    let offset : minutes (or_default action.offset_minutes (negsuc 59))
        ≡ or_default action.offset_minutes (negsuc 59) *ℤ minute =
      minutes_exact (or_default action.offset_minutes (negsuc 59)) (ground arith) in
    let duration : minutes (or_default action.duration_min (pos 5))
        ≡ or_default action.duration_min (pos 5) *ℤ minute =
      minutes_exact (or_default action.duration_min (pos 5)) (ground arith) in
    (rw offset refl, rw (offset, duration) refl)

-- A positive number of minutes above 153,722,867, and up to twice that, becomes a negative duration.
pub minutes_overflow :
    (n : ℕ) → max_minutes < n → n ≤ 2 * max_minutes → ltb_ℤ (minutes (pos n)) (pos 0) ≡ true
unfolding minutes ◌*ℤ◌ wrap_int64
minutes_overflow n h k = ground arith
