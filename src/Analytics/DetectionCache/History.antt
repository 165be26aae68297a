-- ===== src/Analytics/DetectionCache/History.antt =====
-- The answers of `should_process` (analytics/src/analytics/core/detection_cache.py) against the
-- frames seen so far.
use next_sec.Prelude.{
  ℕ, ◌≡◌, refl, Bool, true, false, ◌||◌, Option, none, some, List, [], ◌∷◌, arith, ltb,
  if◌then◌else◌, length, ◌==◌,
}
use next_sec.Prelude.Dict.{
  lookup, insert, IsDict, lookup-insert, lookup-erase, insert-IsDict, erase-IsDict,
}
use next_sec.Analytics.DetectionCache.{
  CameraState, DetectionCache, new_cache, should_process, decide_frame, get_state, put_state,
  reset_state,
}

-- A call of `should_process`: the camera, the frame's detections and the time.
abbrev pub Frame : Type 0 → Type 0
Frame D = ℕ × List D × ℕ

module _ {D : Type 0} where
  abbrev pub run_frames : DetectionCache → List (Frame D) → DetectionCache
  run_frames c [] = c
  run_frames c ((cam, ds, now) ∷ fs) = run_frames (should_process cam ds now c).0 fs

  -- How many detections the last frame of the camera had; `before` if there is none.
  abbrev pub last_count : ℕ → ℕ → List (Frame D) → ℕ
  last_count cam before [] = before
  last_count cam before ((c, ds, _) ∷ fs) =
      last_count cam (if cam == c then length ds else before) fs

abbrev pub count_of : Option CameraState → ℕ
count_of none = 0
count_of (some s) = s.last_detections_count

-- What the cache remembers of a camera.
abbrev pub remembered : ℕ → DetectionCache → ℕ
remembered cam c = count_of (lookup cam c.cache)

-- Where the state is dropped the frame was empty; the state that is stored remembers the frame.
decide_frame_remembers :
    (max_empty n now : ℕ) (s : CameraState)
    → let (s', reset, _) = decide_frame max_empty n now s in
      (s'.last_detections_count ≡ n) × (reset ≡ true → n ≡ 0)
unfolding decide_frame
decide_frame_remembers max_empty n now s = (ground arith, λ h. ground arith)

store_or_reset-IsDict :
    (cam : ℕ) (s : CameraState) (reset : Bool) (c : DetectionCache)
    → IsDict c.cache
    → IsDict (if reset then reset_state cam (put_state cam s c) else put_state cam s c).cache
store_or_reset-IsDict cam s true c h =
    erase-IsDict cam (insert cam s c.cache) (insert-IsDict cam s c.cache h)
store_or_reset-IsDict cam s false c h = insert-IsDict cam s c.cache h

store_or_reset-remembered :
    (cam other n : ℕ) (s : CameraState) (reset : Bool) (c : DetectionCache)
    → IsDict c.cache
    → s.last_detections_count ≡ n
    → (reset ≡ true → n ≡ 0)
    → remembered other (if reset then reset_state cam (put_state cam s c) else put_state cam s c)
      ≡ (if other == cam then n else remembered other c)
store_or_reset-remembered cam other n s true c h e z = ground (
  arith,
  z refl,
  lookup-erase other cam (insert cam s c.cache) (insert-IsDict cam s c.cache h),
  lookup-insert other cam s c.cache,
)
store_or_reset-remembered cam other n s false c h e z =
    ground (arith, lookup-insert other cam s c.cache)

pub should_process-IsDict :
    {D : Type 0} (cam now : ℕ) (ds : List D) (c : DetectionCache)
    → IsDict c.cache
    → IsDict (should_process cam ds now c).0.cache
unfolding should_process
should_process-IsDict cam now ds c h = store_or_reset-IsDict cam _ _ c h

pub should_process-remembered :
    {D : Type 0} (other cam now : ℕ) (ds : List D) (c : DetectionCache)
    → IsDict c.cache
    → remembered other (should_process cam ds now c).0
      ≡ (if other == cam then length ds else remembered other c)
unfolding should_process
should_process-remembered other cam now ds c h =
    let facts = decide_frame_remembers c.max_empty_frames (length ds) now (get_state cam c) in
    store_or_reset-remembered cam other (length ds) _ _ c h facts.0 facts.1

pub should_process-answer :
    {D : Type 0} (cam now : ℕ) (ds : List D) (c : DetectionCache)
    → (should_process cam ds now c).1 ≡ (ltb 0 (length ds) || ltb 0 (remembered cam c))
unfolding should_process decide_frame
should_process-answer cam now ds c = ground arith

module _ {D : Type 0} where
  pub run_frames-remembered :
      (cam : ℕ) (c : DetectionCache) (fs : List (Frame D))
      → IsDict c.cache
      → remembered cam (run_frames c fs) ≡ last_count cam (remembered cam c) fs
  run_frames-remembered cam c [] h = refl
  run_frames-remembered cam c ((k, ds, now) ∷ fs) h =
      rw (← should_process-remembered cam k now ds c h) (
        run_frames-remembered cam (should_process k ds now c).0 fs
          (should_process-IsDict k now ds c h))

  -- Whatever frames of whatever cameras came before, from an empty cache: a frame is processed
  -- exactly when it has detections or when the last frame of the same camera had some. So no frame
  -- with detections is ever skipped, the first empty frame after one is processed, and the resets
  -- after many empty frames never change an answer.
  pub should_process-history :
      (max_empty ttl cam now : ℕ) (fs : List (Frame D)) (ds : List D)
      → (should_process cam ds now (run_frames (new_cache max_empty ttl) fs)).1
        ≡ (ltb 0 (length ds) || ltb 0 (last_count cam 0 fs))
  unfolding new_cache
  should_process-history max_empty ttl cam now fs ds =
      rw
        (
          should_process-answer cam now ds (run_frames (new_cache max_empty ttl) fs),
          run_frames-remembered cam (new_cache max_empty ttl) fs tt,
        )
        refl
