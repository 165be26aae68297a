-- ===== src/Analytics/DetectionCache/Stats.antt =====
-- The counters and the expiry of analytics/src/analytics/core/detection_cache.py.
use next_sec.Prelude.{
  ℕ, ◌+◌, ◌≤◌, ◌<◌, ◌≡◌, refl, max, Bool, true, false, not, Option, none, some, List, [], ◌∷◌,
  arith, if◌then◌else◌, length, select, length-select-le, All, ◌∙◌,
}
use next_sec.Prelude.Dict.{Dict, lookup, insert, erase, IsDict}
use next_sec.Analytics.DetectionCache.{
  CameraState, DetectionCache, new_cache, should_process, decide_frame, get_state, put_state,
  reset_state, get_hit_rate, sum_seen, sum_processed, is_expired, clear_expired,
}
use next_sec.Analytics.DetectionCache.History.{Frame, run_frames}

-- What holds of the state of a camera: it counts no more frames as processed than as seen, a state
-- that remembers detections has no empty frames counted, and the count of empty frames stays below
-- the limit (or is 1, if the limit is).
pub record StateIsSound (max_empty : ℕ) (s : CameraState) : Type 0 where
  pub processed_seen : s.total_frames_processed ≤ s.total_frames_seen
  pub busy_not_empty : 0 < s.last_detections_count → s.empty_frame_count ≡ 0
  pub empty_bounded : s.empty_frame_count < max max_empty 2

abbrev pub IsSound : ℕ → Dict CameraState → Type 0
IsSound m d = All (λ e. StateIsSound m e.1) d

lookup-IsSound :
    (m cam : ℕ) (s : CameraState) (d : Dict CameraState)
    → IsSound m d
    → lookup cam d ≡ some s
    → StateIsSound m s
lookup-IsSound m cam s [] h e = absurd (ground arith)
lookup-IsSound m cam s ((k, x) ∷ d) h e = ground (arith, h.0, lookup-IsSound m cam s d h.1)

insert-IsSound :
    (m cam : ℕ) (s : CameraState) (d : Dict CameraState)
    → IsSound m d
    → StateIsSound m s
    → IsSound m (insert cam s d)
insert-IsSound m cam s [] h k = (k, tt)
insert-IsSound m cam s ((j, x) ∷ d) h k = ground (arith, h.0, k, insert-IsSound m cam s d h.1 k)

erase-insert-IsSound :
    (m cam : ℕ) (s : CameraState) (d : Dict CameraState)
    → IsSound m d
    → IsSound m (erase cam (insert cam s d))
erase-insert-IsSound m cam s [] h = ground arith
erase-insert-IsSound m cam s ((j, x) ∷ d) h =
    ground (arith, h.0, h.1, erase-insert-IsSound m cam s d h.1)

state_or_new-IsSound :
    (m cam : ℕ) (c : DetectionCache) → IsSound m c.cache → StateIsSound m (get_state cam c)
state_or_new-IsSound m cam c h = go (lookup cam c.cache) refl
  where
    go : (o : Option CameraState) → lookup cam c.cache ≡ o → StateIsSound m (get_state cam c)
    go none e = rw e (omega arith)
    go (some s) e = rw e (lookup-IsSound m cam s c.cache h e)

-- A state that is kept is sound again.
decide_frame-IsSound :
    (m n now : ℕ) (s : CameraState)
    → StateIsSound m s
    → let (s', reset, _) = decide_frame m n now s in reset ≡ false → StateIsSound m s'
unfolding decide_frame
decide_frame-IsSound m n now s h = ground arith

store_or_reset-IsSound :
    (m cam : ℕ) (s : CameraState) (reset : Bool) (c : DetectionCache)
    → IsSound m c.cache
    → (reset ≡ false → StateIsSound m s)
    → IsSound m (if reset then reset_state cam (put_state cam s c) else put_state cam s c).cache
store_or_reset-IsSound m cam s true c h k = erase-insert-IsSound m cam s c.cache h
store_or_reset-IsSound m cam s false c h k = insert-IsSound m cam s c.cache h (k refl)

should_process-limit :
    {D : Type 0} (cam now : ℕ) (ds : List D) (c : DetectionCache)
    → (should_process cam ds now c).0.max_empty_frames ≡ c.max_empty_frames
unfolding should_process
should_process-limit cam now ds c = ground arith

should_process-IsSound :
    {D : Type 0} (m cam now : ℕ) (ds : List D) (c : DetectionCache)
    → c.max_empty_frames ≡ m
    → IsSound m c.cache
    → IsSound m (should_process cam ds now c).0.cache
unfolding should_process
should_process-IsSound m cam now ds c e h = store_or_reset-IsSound m cam _ _ c h (
    rw e
      (decide_frame-IsSound m (length ds) now (get_state cam c) (state_or_new-IsSound m cam c h)))

IsSound-run_frames :
    {D : Type 0} (m : ℕ) (fs : List (Frame D)) (c : DetectionCache)
    → c.max_empty_frames ≡ m
    → IsSound m c.cache
    → IsSound m (run_frames c fs).cache
IsSound-run_frames m [] c e h = h
IsSound-run_frames m ((cam, ds, now) ∷ fs) c e h =
    IsSound-run_frames m fs (should_process cam ds now c).0 (should_process-limit cam now ds c ∙ e)
      (should_process-IsSound m cam now ds c e h)

-- From an empty cache, after any frames of any cameras, every state that is kept is sound: no camera
-- collects more empty frames than the limit allows before it is reset.
pub run_frames-IsSound :
    {D : Type 0} (max_empty ttl : ℕ) (fs : List (Frame D))
    → IsSound max_empty (run_frames (new_cache max_empty ttl) fs).cache
unfolding new_cache
run_frames-IsSound max_empty ttl fs =
    IsSound-run_frames max_empty fs (new_cache max_empty ttl) refl tt

sums_le : (m : ℕ) (d : Dict CameraState) → IsSound m d → sum_processed d ≤ sum_seen d
sums_le m [] h = omega arith
sums_le m ((k, s) ∷ d) h = omega (arith, h.0.processed_seen, sums_le m d h.1)

-- After any frames the reported counts add up: processed and skipped make up the frames seen.
pub get_hit_rate-total :
    {D : Type 0} (max_empty ttl : ℕ) (fs : List (Frame D))
    → let rate = get_hit_rate (run_frames (new_cache max_empty ttl) fs) in
      rate.total_frames_processed + rate.total_frames_skipped ≡ rate.total_frames_seen
unfolding get_hit_rate
get_hit_rate-total max_empty ttl fs =
    omega (arith, sums_le max_empty _ (run_frames-IsSound max_empty ttl fs))

abbrev pub keep_unexpired : ℕ → ℕ → Option CameraState → Option CameraState
keep_unexpired now ttl none = none
keep_unexpired now ttl (some s) = if is_expired now ttl s then none else some s

absent-select :
    (now ttl cam : ℕ) (d : Dict CameraState)
    → lookup cam d ≡ none
    → lookup cam (select (λ e. not (is_expired now ttl e.1)) d) ≡ none
absent-select now ttl cam [] h = refl
absent-select now ttl cam ((k, s) ∷ d) h = ground (arith, absent-select now ttl cam d)

lookup-select :
    (now ttl cam : ℕ) (d : Dict CameraState)
    → IsDict d
    → lookup cam (select (λ e. not (is_expired now ttl e.1)) d)
      ≡ keep_unexpired now ttl (lookup cam d)
lookup-select now ttl cam [] h = refl
lookup-select now ttl cam ((k, s) ∷ d) h =
    ground (arith, h.0, absent-select now ttl cam d, lookup-select now ttl cam d h.1)

-- `clear_expired` forgets exactly the cameras whose last processed frame is more than the TTL ago,
-- leaves every other state as it was, and returns how many it removed.
pub lookup-clear_expired :
    (now cam : ℕ) (c : DetectionCache)
    → IsDict c.cache
    → let (c', removed) = clear_expired now c in
      (lookup cam c'.cache ≡ keep_unexpired now c.ttl (lookup cam c.cache))
      × (length c'.cache + removed ≡ length c.cache)
unfolding clear_expired
lookup-clear_expired now cam c h = (
  lookup-select now c.ttl cam c.cache h,
  omega (arith, length-select-le (λ e. not (is_expired now c.ttl e.1)) c.cache),
)
