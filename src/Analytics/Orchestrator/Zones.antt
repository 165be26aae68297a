-- ===== src/Analytics/Orchestrator/Zones.antt =====
-- Which zones the plugins are given in `_process_camera`
-- (analytics/src/analytics/core/orchestrator.py).
use next_sec.Prelude.{ℕ, ◌<◌, ◌≡◌, refl, ap, Bool, Option, none, some, List, ◌∷◌, lt→ltb}
use next_sec.Analytics.DetectionCache.{DetectionCache}
use next_sec.Analytics.Orchestrator.{ApiRoi, CameraTask, initial_zones, refresh_zones}
use next_sec.Analytics.Orchestrator.Frames.{
  PluginSplit, Tick, continued, refreshed, with_zones, run_camera,
}

same_zones :
    (now : ℕ) (rois : Option (List ApiRoi)) (a b : CameraTask)
    → 60 < now
    → refreshed now rois (initial_zones a) ≡ refreshed now rois (initial_zones b)
unfolding refresh_zones
same_zones now none a b h = rw (lt→ltb 60 now h) refl
same_zones now (some rois) a b h = rw (lt→ltb 60 now h) refl

module _ {F D R : Type 0} (class_of : D → ℕ) (plugin_classes : ℕ → List ℕ) (camera_id : ℕ)
    (has_engine : Bool) (p : PluginSplit) where
  -- Where the clock reads more than sixty when the loop starts, as it does a minute after the machine was
  -- started, the zones that the task was given never matter: two tasks that differ in them do the
  -- same for ever.
  pub run_camera-ignores_zones :
      (c : DetectionCache) (t : Tick F D R) (ts : List (Tick F D R)) (a b : CameraTask)
      → 60 < t.now
      → run_camera class_of plugin_classes camera_id has_engine p
          (t ∷ ts)
          (record { zones = initial_zones a; cache = c })
        ≡ run_camera class_of plugin_classes camera_id has_engine p
            (t ∷ ts)
            (record { zones = initial_zones b; cache = c })
  unfolding run_camera
  run_camera-ignores_zones c t ts a b h =
      ap
        (λ z.
          continued (run_camera class_of plugin_classes camera_id has_engine p ts)
            (with_zones class_of plugin_classes camera_id has_engine p t c z))
        (same_zones t.now t.rois a b h)
