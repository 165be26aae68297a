-- ===== src/Api/Schedule/Tests.antt =====
-- Schedules of api/src/vms/analytics/schedule.py at concrete times, as its own tests have them.
use next_sec.Prelude.{
  ℕ, ◌+◌, ◌-◌, ◌*◌, ◌%◌, ◌≡◌, refl, true, false, Option, none, some, [], ◌∷◌, arith, ltb,
}
use next_sec.Api.Schedule.{day, RoiSchedule, time_in_window, is_armed_now}
use next_sec.Api.Schedule.Windows.{time_in_window-circle}

abbrev clock : ℕ → ℕ → ℕ
clock hours minutes = (hours * 60 + minutes) * 60_000_000

abbrev shift : Option ℕ → ℕ → ℕ → RoiSchedule
shift day_of_week start end = record {
  day_of_week = day_of_week;
  start_time = start;
  end_time = end;
  is_active = true;
}

abbrev night : RoiSchedule
night = shift none (clock 20 30) (clock 6 0)

armed_at_night :
    (is_armed_now (night ∷ []) (clock 21 0) 6 ≡ true)
    × (is_armed_now (night ∷ []) (clock 5 0) 0 ≡ true)
    × (is_armed_now (night ∷ []) (clock 10 0) 0 ≡ false)
unfolding is_armed_now time_in_window
armed_at_night = (refl, refl, refl)

time_in_window-circle_example :
    time_in_window (clock 5 0) (clock 20 30) (clock 6 0)
    ≡ ltb ((clock 5 0 + day - clock 20 30) % day) ((clock 6 0 + day - clock 20 30) % day)
time_in_window-circle_example =
    time_in_window-circle (clock 5 0) (clock 20 30) (clock 6 0) (omega arith) (omega arith)
      (omega arith)

-- A schedule for Monday's night, at five o'clock on Tuesday and at five o'clock on Monday.
night_cut_off :
    (is_armed_now (shift (some 0) (clock 20 30) (clock 6 0) ∷ []) (clock 5 0) 1 ≡ false)
    × (is_armed_now (shift (some 0) (clock 20 30) (clock 6 0) ∷ []) (clock 5 0) 0 ≡ true)
unfolding is_armed_now
night_cut_off = (refl, refl)
