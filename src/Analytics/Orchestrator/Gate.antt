-- ===== src/Analytics/Orchestrator/Gate.antt =====
-- The loop of a camera in analytics/src/analytics/core/orchestrator.py against the frames that it has seen:
-- when the shared plugins are asked.
use next_sec.Prelude.{
  ℕ, ◌≡◌, refl, ◌∙◌, ap, Bool, true, false, not, ◌&&◌, ◌||◌, Option, none, some, List, [], ◌∷◌,
  ◌++◌, arith, ltb, if◌then◌else◌, length, All, ◌==◌, Bool-cases, Option-cases, inl, inr,
}
use next_sec.Prelude.Dict.{IsDict}
use next_sec.Analytics.DetectionCache.{DetectionCache, new_cache, should_process}
use next_sec.Analytics.DetectionCache.History.{
  Frame, run_frames, last_count, remembered, run_frames-remembered, should_process-IsDict,
  should_process-answer, should_process-remembered,
}
use next_sec.Analytics.Orchestrator.{RoiConfig, ZoneRefresh}
use next_sec.Analytics.Orchestrator.Frames.{
  PluginSplit, Effect, Tick, CameraLoop, is_empty, await_detections, refreshed, continued,
  with_zones, shared_effects, standalone_effects, after_detections, shared_part, with_standalone,
  on_frame, run_camera,
}

-- No call of the cache by another task is for this camera.
abbrev pub Foreign : {D : Type 0} → ℕ → List (Frame D) → Type 0
Foreign camera_id = All (λ f. (camera_id == f.0) ≡ false)

module _ {D : Type 0} where
  run_frames-IsDict :
      (c : DetectionCache) (fs : List (Frame D)) → IsDict c.cache → IsDict (run_frames c fs).cache
  run_frames-IsDict c [] h = h
  run_frames-IsDict c ((cam, ds, now) ∷ fs) h =
      run_frames-IsDict (should_process cam ds now c).0 fs (should_process-IsDict cam now ds c h)

  last_count-Foreign :
      (cam before : ℕ) (fs : List (Frame D)) → Foreign cam fs → last_count cam before fs ≡ before
  last_count-Foreign cam before [] h = refl
  last_count-Foreign cam before ((c, ds, now) ∷ fs) h =
      rw (h.0) (last_count-Foreign cam before fs h.1)

  remembered-Foreign :
      (cam : ℕ) (c : DetectionCache) (fs : List (Frame D))
      → IsDict c.cache
      → Foreign cam fs
      → remembered cam (run_frames c fs) ≡ remembered cam c
  remembered-Foreign cam c fs h f =
      run_frames-remembered cam c fs h ∙ last_count-Foreign cam (remembered cam c) fs f

module _ {F D R : Type 0} (class_of : D → ℕ) (plugin_classes : ℕ → List ℕ) (camera_id : ℕ)
    (has_engine : Bool) (p : PluginSplit) where
  -- The specification has no cache: it keeps the number of detections of the last frame.
  abbrev pub spec_shared : Tick F D R → F → List RoiConfig → ℕ → Option (ℕ × List (Effect R))
  spec_shared t frame zones last =
      if has_engine && not (is_empty p.shared_plugins)
      then elim (await_detections t.detections) [
        | none ↦ none
        | some ds ↦ some (
          length ds,
          if ltb 0 (length ds) || ltb 0 last
              then shared_effects class_of plugin_classes camera_id t frame zones p.shared_plugins
                  ds
              else [],
        )
      ]
      else some (last, [])

  abbrev pub spec_standalone :
      Tick F D R
      → F
      → ZoneRefresh
      → Option (ℕ × List (Effect R))
      → Option ((ZoneRefresh × ℕ) × List (Effect R))
  spec_standalone t frame z none = none
  spec_standalone t frame z (some (last, effects)) = some (
    (z, last),
    effects
        ++ standalone_effects class_of plugin_classes camera_id t frame z.current_zones
            p.standalone_plugins,
  )

  abbrev pub spec_frame :
      Tick F D R → ZoneRefresh → ℕ → Option F → Option ((ZoneRefresh × ℕ) × List (Effect R))
  spec_frame t z last none = some ((z, last), [])
  spec_frame t z last (some frame) =
      spec_standalone t frame z (spec_shared t frame z.current_zones last)

  abbrev pub spec_round :
      Tick F D R → ℕ → Option ZoneRefresh → Option ((ZoneRefresh × ℕ) × List (Effect R))
  spec_round t last none = none
  spec_round t last (some z) = spec_frame t z last t.frame

  abbrev pub spec_camera : List (Tick F D R) → ZoneRefresh × ℕ → List (Effect R) × Bool
  spec_camera [] s = ([], true)
  spec_camera (t ∷ ts) s =
      continued (spec_camera ts) (spec_round t s.1 (refreshed t.now t.rois s.0))

-- The two loops agree: the cache remembers the number that the specification keeps.
abbrev Agree : ℕ → DetectionCache → ℕ → Type 0
Agree camera_id c last = IsDict c.cache × (remembered camera_id c ≡ last)

abbrev SharedAgree :
    {R : Type 0}
    → ℕ
    → Option (DetectionCache × List (Effect R))
    → Option (ℕ × List (Effect R))
    → Type 0
SharedAgree camera_id none none = Unit
SharedAgree camera_id (some (c, es)) (some (last, es')) = Agree camera_id c last × (es ≡ es')
SharedAgree camera_id _ _ = ⊥

abbrev FrameAgree :
    {R : Type 0}
    → ℕ
    → Option (CameraLoop × List (Effect R))
    → Option ((ZoneRefresh × ℕ) × List (Effect R))
    → Type 0
FrameAgree camera_id none none = Unit
FrameAgree camera_id (some (s, es)) (some ((z, last), es')) =
    Agree camera_id s.cache last × (s.zones ≡ z) × (es ≡ es')
FrameAgree camera_id _ _ = ⊥

module _ {R : Type 0} (camera_id : ℕ) where
  rest_agrees :
      (rest : CameraLoop → List (Effect R) × Bool) (spec : ZoneRefresh × ℕ → List (Effect R) × Bool)
      (a : Option (CameraLoop × List (Effect R))) (b : Option ((ZoneRefresh × ℕ) × List (Effect R)))
      → FrameAgree camera_id a b
      → ((s : CameraLoop) (last : ℕ) → Agree camera_id s.cache last → rest s ≡ spec (s.zones, last))
      → continued rest a ≡ continued spec b
  rest_agrees rest spec none none h ih = refl
  rest_agrees rest spec none (some _) h ih = elim h [ ]
  rest_agrees rest spec (some _) none h ih = elim h [ ]
  rest_agrees rest spec (some (s, es)) (some ((z, last), es')) h ih =
      let later : rest s ≡ spec (z, last) = ih s last h.0 ∙ ap (λ z'. spec (z', last)) h.1 in
      cc (later, h.2)

module _ {F D R : Type 0} (class_of : D → ℕ) (plugin_classes : ℕ → List ℕ) (camera_id : ℕ)
    (has_engine : Bool) (p : PluginSplit) where
  after_detections-Agree :
      (t : Tick F D R) (frame : F) (zones : List RoiConfig) (c : DetectionCache) (last : ℕ)
      (ds : List D)
      → Agree camera_id c last
      → let (c', es) =
          after_detections class_of plugin_classes camera_id t frame zones p.shared_plugins c ds in
        Agree camera_id c' (length ds)
        × (es ≡ (
            if ltb 0 (length ds) || ltb 0 last
            then shared_effects class_of plugin_classes camera_id t frame zones p.shared_plugins ds
            else []))
  after_detections-Agree t frame zones c last ds (h, e) = (
    (
      should_process-IsDict camera_id t.cache_now ds c h,
      should_process-remembered camera_id camera_id t.cache_now ds c h ∙ ground arith,
    ),
    rw (should_process-answer camera_id t.cache_now ds c, e) refl,
  )

  shared_part-SharedAgree :
      (t : Tick F D R) (frame : F) (zones : List RoiConfig) (c : DetectionCache) (last : ℕ)
      → Agree camera_id c last
      → SharedAgree camera_id
          (shared_part class_of plugin_classes camera_id has_engine t frame zones p.shared_plugins
            c)
          (spec_shared class_of plugin_classes camera_id has_engine p t frame zones last)
  shared_part-SharedAgree t frame zones c last h =
      elim (Bool-cases (has_engine && not (is_empty p.shared_plugins))) [
        | inr off ↦ rw off (h, refl)
        | inl on ↦ rw on (elim (Option-cases (await_detections t.detections)) [
          | inl raised ↦ rw raised tt
          | inr (ds, e) ↦ rw e (after_detections-Agree t frame zones c last ds h)
        ])
      ]

  with_standalone-FrameAgree :
      (t : Tick F D R) (frame : F) (z : ZoneRefresh)
      (shared : Option (DetectionCache × List (Effect R))) (spec : Option (ℕ × List (Effect R)))
      → SharedAgree camera_id shared spec
      → FrameAgree camera_id
          (with_standalone class_of plugin_classes camera_id t frame z p.standalone_plugins shared)
          (spec_standalone class_of plugin_classes camera_id has_engine p t frame z spec)
  with_standalone-FrameAgree t frame z none none h = tt
  with_standalone-FrameAgree t frame z none (some _) h = elim h [ ]
  with_standalone-FrameAgree t frame z (some _) none h = elim h [ ]
  with_standalone-FrameAgree t frame z (some (c, es)) (some (last, es')) h = (
    h.0,
    refl,
    ap
        (λ l.
          l
          ++ standalone_effects class_of plugin_classes camera_id t frame z.current_zones
              p.standalone_plugins)
        h.1,
  )

  on_frame-FrameAgree :
      (t : Tick F D R) (z : ZoneRefresh) (c : DetectionCache) (last : ℕ) (frame : Option F)
      → Agree camera_id c last
      → FrameAgree camera_id
          (on_frame class_of plugin_classes camera_id has_engine p t z c frame)
          (spec_frame class_of plugin_classes camera_id has_engine p t z last frame)
  on_frame-FrameAgree t z c last none h = (h, refl, refl)
  on_frame-FrameAgree t z c last (some frame) h =
      with_standalone-FrameAgree t frame z _ _
        (shared_part-SharedAgree t frame z.current_zones c last h)

  with_zones-FrameAgree :
      (t : Tick F D R) (c : DetectionCache) (last : ℕ) (z : Option ZoneRefresh)
      → Agree camera_id c last
      → Foreign camera_id t.others
      → FrameAgree camera_id
          (with_zones class_of plugin_classes camera_id has_engine p t c z)
          (spec_round class_of plugin_classes camera_id has_engine p t last z)
  with_zones-FrameAgree t c last none h f = tt
  with_zones-FrameAgree t c last (some z) h f =
      on_frame-FrameAgree t z (run_frames c t.others) last t.frame
        (run_frames-IsDict c t.others h.0, remembered-Foreign camera_id c t.others h.0 f ∙ h.1)

  run_agrees :
      (ts : List (Tick F D R)) (s : CameraLoop) (last : ℕ)
      → Agree camera_id s.cache last
      → All (λ t. Foreign camera_id t.others) ts
      → run_camera class_of plugin_classes camera_id has_engine p ts s
        ≡ spec_camera class_of plugin_classes camera_id has_engine p ts (s.zones, last)
  unfolding run_camera
  run_agrees [] s last h f = refl
  run_agrees (t ∷ ts) s last h f =
      rest_agrees camera_id (run_camera class_of plugin_classes camera_id has_engine p ts)
        (spec_camera class_of plugin_classes camera_id has_engine p ts) _ _
        (with_zones-FrameAgree t s.cache last (refreshed t.now t.rois s.zones) h f.0)
        (λ s' last' a. run_agrees ts s' last' a f.1)

  -- A camera's loop over the shared cache does what a loop without a cache does that keeps the number of
  -- detections of the camera's last frame: the shared plugins are asked exactly where the
  -- frame has detections or the last one had some, whatever the tasks of other cameras do with the
  -- cache between the rounds and whichever of its entries it drops. The cache is empty at first.
  pub run_camera-spec :
      (max_empty ttl : ℕ) (z : ZoneRefresh) (ts : List (Tick F D R))
      → All (λ t. Foreign camera_id t.others) ts
      → run_camera class_of plugin_classes camera_id has_engine p ts
          (record { zones = z; cache = new_cache max_empty ttl })
        ≡ spec_camera class_of plugin_classes camera_id has_engine p ts (z, 0)
  unfolding new_cache
  run_camera-spec max_empty ttl z ts f =
      run_agrees ts (record { zones = z; cache = new_cache max_empty ttl }) 0 (tt, refl) f
