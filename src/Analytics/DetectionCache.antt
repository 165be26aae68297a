-- ===== src/Analytics/DetectionCache.antt =====
-- The cache of analytics/src/analytics/core/detection_cache.py, which decides whether a frame goes to
-- the plugins. A camera id is only compared, so it is a number; a time is a count of clock ticks, and
-- each call of `time.monotonic()` is an argument. Of a detection nothing is read but the number of
-- them in a frame.
pub mod History
pub mod Stats
mod Tests
use next_sec.Prelude.{
  ℕ, suc, ◌+◌, ◌-◌, Bool, true, false, not, Option, none, some, List, [], ◌∷◌, ltb, leb,
  if◌then◌else◌, length, select,
}
use next_sec.Prelude.Dict.{Dict, lookup, insert, erase}

pub record CameraState : Type 0 where
  pub last_detections_count : ℕ
  pub last_processed_at : ℕ
  pub empty_frame_count : ℕ
  pub total_frames_seen : ℕ
  pub total_frames_processed : ℕ

pub record DetectionCache : Type 0 where
  pub cache : Dict CameraState
  pub max_empty_frames : ℕ
  pub ttl : ℕ

-- `CameraState()`
abbrev pub new_state : CameraState
new_state = record {
  last_detections_count = 0;
  last_processed_at = 0;
  empty_frame_count = 0;
  total_frames_seen = 0;
  total_frames_processed = 0;
}

unfoldable pub new_cache : ℕ → ℕ → DetectionCache
new_cache max_empty_frames ttl = record {
  cache = [];
  max_empty_frames = max_empty_frames;
  ttl = ttl;
}

abbrev state_or_new : Option CameraState → CameraState
state_or_new none = new_state
state_or_new (some s) = s

-- `_get_state` also stores a new state; every path of its caller stores the state again or drops it.
abbrev pub get_state : ℕ → DetectionCache → CameraState
get_state camera_id c = state_or_new (lookup camera_id c.cache)

abbrev pub put_state : ℕ → CameraState → DetectionCache → DetectionCache
put_state camera_id s c = record c { cache = insert camera_id s c.cache }

abbrev pub reset_state : ℕ → DetectionCache → DetectionCache
reset_state camera_id c = record c { cache = erase camera_id c.cache }

-- The rules on the state of one camera: the new state, whether it is reset, and the answer.
unfoldable pub decide_frame : ℕ → ℕ → ℕ → CameraState → CameraState × Bool × Bool
decide_frame max_empty_frames detections now s =
    let seen = record s { total_frames_seen = s.total_frames_seen + 1 } in
    if ltb 0 detections
    then (
      record seen {
        empty_frame_count = 0;
        last_detections_count = detections;
        last_processed_at = now;
        total_frames_processed = s.total_frames_processed + 1;
      },
      false,
      true,
    )
    else if ltb 0 s.last_detections_count
    then (
      record seen {
        empty_frame_count = 1;
        last_detections_count = 0;
        last_processed_at = now;
        total_frames_processed = s.total_frames_processed + 1;
      },
      false,
      true,
    )
    else (
      record seen { empty_frame_count = s.empty_frame_count + 1 },
      leb max_empty_frames (s.empty_frame_count + 1),
      false,
    )

unfoldable pub should_process :
    {D : Type 0} → ℕ → List D → ℕ → DetectionCache → DetectionCache × Bool
should_process camera_id detections now c =
    let (s, reset, answer) =
      decide_frame c.max_empty_frames (length detections) now (get_state camera_id c) in
    let stored = put_state camera_id s c in
    (if reset then reset_state camera_id stored else stored, answer)

pub record HitRate : Type 0 where
  pub total_frames_seen : ℕ
  pub total_frames_processed : ℕ
  pub total_frames_skipped : ℕ
  pub active_cameras : ℕ

abbrev pub sum_seen : Dict CameraState → ℕ
sum_seen [] = 0
sum_seen ((_, s) ∷ d) = s.total_frames_seen + sum_seen d

abbrev pub sum_processed : Dict CameraState → ℕ
sum_processed [] = 0
sum_processed ((_, s) ∷ d) = s.total_frames_processed + sum_processed d

-- The counts of `get_hit_rate`; the rounded percentage is left out.
unfoldable pub get_hit_rate : DetectionCache → HitRate
get_hit_rate c = record {
  total_frames_seen = sum_seen c.cache;
  total_frames_processed = sum_processed c.cache;
  total_frames_skipped = sum_seen c.cache - sum_processed c.cache;
  active_cameras = length c.cache;
}

-- `now - last_processed_at > ttl`, with both sides moved so that nothing is subtracted.
abbrev pub is_expired : ℕ → ℕ → CameraState → Bool
is_expired now ttl s = ltb (s.last_processed_at + ttl) now

unfoldable pub clear_expired : ℕ → DetectionCache → DetectionCache × ℕ
clear_expired now c =
    let kept = select (λ e. not (is_expired now c.ttl e.1)) c.cache in
    (record c { cache = kept }, length c.cache - length kept)

unfoldable pub reset_all : DetectionCache → DetectionCache
reset_all c = record c { cache = [] }
