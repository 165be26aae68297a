-- ===== src/Api/Schedule/Windows.antt =====
-- What the windows of api/src/vms/analytics/schedule.py cover.
use next_sec.Prelude.{
  ℕ, ◌+◌, ◌-◌, ◌%◌, ◌<◌, ◌≡◌, ◌≢◌, refl, not, ◌||◌, inl, inr, List, [], ◌∷◌, ◌++◌, arith, ltb, leb,
  leb→le, if◌then◌else◌, Bool-cases,
}
use next_sec.Api.Schedule.{day, RoiSchedule, time_in_window, any_covers, is_armed_now}

-- The time since `start`, on the circle of the day.
since_wraps :
    (x start : ℕ)
    → x < day
    → start < day
    → (x + day - start) % day ≡ (if leb start x then x - start else x + day - start)
since_wraps x start h k = elim (Bool-cases (leb start x)) [
  | inl e ↦ rw e (let le = leb→le start x e in omega arith)
  | inr e ↦ rw e (let lt : x < start = ground arith in omega arith)
]

-- The window is the set of the times that come after its start, on the circle of the day, by less
-- than its length: for windows within a day and for windows across midnight alike.
pub time_in_window-circle :
    (time start end : ℕ)
    → time < day
    → start < day
    → end < day
    → time_in_window time start end ≡ ltb ((time + day - start) % day) ((end + day - start) % day)
unfolding time_in_window
time_in_window-circle time start end h k l =
    ground (arith, since_wraps time start h k, since_wraps end start l k)

-- A window and the window with its ends swapped share no time, and together they are the day.
pub time_in_window-swap :
    (time start end : ℕ)
    → start ≢ end
    → time_in_window time end start ≡ not (time_in_window time start end)
unfolding time_in_window
time_in_window-swap time start end h = ground arith

any_covers-append :
    (ss ts : List RoiSchedule) (time dow : ℕ)
    → any_covers (ss ++ ts) time dow ≡ (any_covers ss time dow || any_covers ts time dow)
unfolding any_covers
any_covers-append [] ts time dow = refl
any_covers-append (s ∷ ss) ts time dow = ground (arith, any_covers-append ss ts time dow)

-- A zone is armed by the union of its schedules, in whatever groups and order they are listed: where
-- both groups are not empty, the whole list arms it exactly when one of the groups does.
pub is_armed_now-append :
    (s t : RoiSchedule) (ss ts : List RoiSchedule) (time dow : ℕ)
    → is_armed_now ((s ∷ ss) ++ (t ∷ ts)) time dow
      ≡ (is_armed_now (s ∷ ss) time dow || is_armed_now (t ∷ ts) time dow)
unfolding is_armed_now
is_armed_now-append s t ss ts time dow = any_covers-append (s ∷ ss) (t ∷ ts) time dow
