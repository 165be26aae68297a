-- ===== src/Analytics/DetectionCache/Tests.antt =====
-- Runs of the cache of analytics/src/analytics/core/detection_cache.py.
use next_sec.Prelude.{ℕ, ◌≡◌, refl, true, List, [], ◌∷◌}
use next_sec.Analytics.DetectionCache.{
  DetectionCache, CameraState, new_cache, should_process, decide_frame,
}
use next_sec.Analytics.DetectionCache.History.{Frame, run_frames}

-- Camera 1 sees two objects, then nothing; camera 2 sees nothing.
abbrev frames : List (Frame ℕ)
frames = (1, 8 ∷ 9 ∷ [], 10) ∷ (2, [], 11) ∷ (1, [], 12) ∷ (2, [], 13) ∷ (1, 8 ∷ [], 14) ∷ []

transition_is_processed :
    (should_process {D = ℕ} 1 [] 20 (run_frames (new_cache 3 60) frames)).1 ≡ true
unfolding should_process new_cache decide_frame
transition_is_processed = refl

abbrev state_at : ℕ → CameraState
state_at at = record {
  last_detections_count = 1;
  last_processed_at = at;
  empty_frame_count = 0;
  total_frames_seen = 5;
  total_frames_processed = 2;
}

abbrev two_cameras : DetectionCache
two_cameras = record {
  cache = (1, state_at 5) ∷ (2, state_at 50) ∷ [];
  max_empty_frames = 3;
  ttl = 60;
}
