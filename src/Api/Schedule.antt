-- ===== src/Api/Schedule.antt =====
-- When a zone is armed: api/src/vms/analytics/schedule.py over the rows of ROISchedule in
-- api/src/vms/analytics/models.py. A time of day is a count of microseconds since midnight, in the
-- fixed time zone to which the source converts the clock; the conversion is a library's.
pub mod Windows
mod Tests
use next_sec.Prelude.{
  ℕ, ◌*◌, Bool, true, false, not, ◌&&◌, ◌||◌, Option, none, some, List, [], ◌∷◌, ltb, leb, ◌==◌,
  if◌then◌else◌,
}

abbrev pub day : ℕ
day = 24 * 60 * 60 * 1_000_000

-- Monday is 0.
pub record RoiSchedule : Type 0 where
  pub day_of_week : Option ℕ
  pub start_time : ℕ
  pub end_time : ℕ
  pub is_active : Bool

unfoldable pub time_in_window : ℕ → ℕ → ℕ → Bool
time_in_window now_time start end =
    if leb start end
    then leb start now_time && ltb now_time end
    else leb start now_time || ltb now_time end

-- `schedule.day_of_week is not None and schedule.day_of_week != current_dow`
abbrev pub is_other_day : Option ℕ → ℕ → Bool
is_other_day none dow = false
is_other_day (some d) dow = not (d == dow)

-- The loop, with its two `continue`s and its `return`.
unfoldable pub any_covers : List RoiSchedule → ℕ → ℕ → Bool
unfolding time_in_window
any_covers [] time dow = false
any_covers (s ∷ ss) time dow =
    let rest = any_covers ss time dow in
    if not s.is_active
    then rest
    else if is_other_day s.day_of_week dow
    then rest
    else if time_in_window time s.start_time s.end_time
    then true
    else rest

unfoldable pub is_armed_now : List RoiSchedule → ℕ → ℕ → Bool
unfolding any_covers
is_armed_now [] time dow = true
is_armed_now (s ∷ ss) time dow = any_covers (s ∷ ss) time dow
