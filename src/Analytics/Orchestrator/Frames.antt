-- ===== src/Analytics/Orchestrator/Frames.antt =====
-- What `_process_camera` of analytics/src/analytics/core/orchestrator.py does with the frames of one camera:
-- the filter of the plugins, the loop, its zones, and the detection cache of
-- analytics/src/analytics/core/detection_cache.py. The plugins keep a state of their own, so that
-- what each answers is an argument of each round.
use next_sec.Prelude.{
  ℕ, ◌+◌, Bool, true, false, not, ◌&&◌, ◌||◌, Option, none, some, List, [], ◌∷◌, ◌++◌,
  if◌then◌else◌, select, elem, ltb,
}
use next_sec.Prelude.Dict.{Dict, contains}
use next_sec.Analytics.DetectionCache.{DetectionCache, should_process}
use next_sec.Analytics.DetectionCache.History.{Frame, run_frames}
use next_sec.Analytics.Orchestrator.{RoiConfig, ApiRoi, ZoneRefresh, refresh_zones}
use next_sec.Analytics.Orchestrator.Batches.{FutureState}

abbrev pub is_empty {ℓ} : {A : Type ℓ} → List A → Bool
is_empty [] = true
is_empty (_ ∷ _) = false

-- The plugins by their names: those with a shared engine, and those with a model of their own.
pub record PluginSplit : Type 0 where
  pub shared_plugins : List ℕ
  pub standalone_plugins : List ℕ

-- `is_plugin_active`: an empty answer of the API makes all plugins active.
abbrev pub is_plugin_active : List ℕ → ℕ → Bool
is_plugin_active active name = is_empty active || elem name active

unfoldable pub split_plugins : Dict ℕ → List ℕ → List ℕ → PluginSplit
split_plugins uses_shared active plugins = record {
  shared_plugins =
      select (is_plugin_active active) (select (λ name. contains name uses_shared) plugins);
  standalone_plugins =
      select (is_plugin_active active) (select (λ name. not (contains name uses_shared)) plugins);
}

-- What leaves the process: a snapshot that is saved, or a result that is sent with a snapshot's path.
pub data Effect (R : Type 0) : Type 0 where
  saved : Effect R
  sent : R → Option ℕ → Effect R

-- The snapshot of a pass over the plugins (`none` while it is not saved; saving may fail and give no
-- path), and what the pass has done so far.
pub record Pass (R : Type 0) : Type 0 where
  pub snap : Option (Option ℕ)
  pub effects : List (Effect R)

-- The answers of the outside world in one round of the loop. `shared` and `standalone` are what the
-- plugins give, or `none` where they raise; `send` is whether `_send_result` returns; the two paths
-- are what `_save_snapshot` gives. `detections` is what became of the frame's future, and is pending
-- when the camera stops to wait for it. `others` are the calls of the cache by the tasks of other
-- cameras since the last round. `rois` is `none` where the request raises.
pub record Tick (F D R : Type 0) : Type 0 where
  pub now : ℕ
  pub rois : Option (List ApiRoi)
  pub frame : Option F
  pub detections : FutureState (List D)
  pub others : List (Frame D)
  pub cache_now : ℕ
  pub shared : ℕ → List D → F → List RoiConfig → Option (List R)
  pub standalone : ℕ → F → List RoiConfig → Option (List R)
  pub send : R → Bool
  pub shared_snap : Option ℕ
  pub standalone_snap : Option ℕ

module _ {R : Type 0} where
  abbrev pub empty_pass : Pass R
  empty_pass = record { snap = none; effects = [] }

  -- The results of a plugin, up to the first that `_send_result` raises at.
  abbrev pub send_results : (R → Bool) → Option ℕ → List R → List (Effect R)
  send_results send path [] = []
  send_results send path (r ∷ rs) =
      let rest = send_results send path rs in if send r then Effect.sent r path ∷ rest else []

  -- The body of the loop over the plugins, after the plugin has answered.
  abbrev pub use_results : (R → Bool) → Option ℕ → List R → Pass R → Pass R
  use_results send path [] pass = pass
  use_results send path (r ∷ rs) pass = elim pass.snap [
    | none ↦ record {
      snap = some path;
      effects = pass.effects ++ Effect.saved ∷ send_results send path (r ∷ rs);
    }
    | some old ↦ record {
      snap = some old;
      effects = pass.effects ++ send_results send old (r ∷ rs);
    }
  ]

  abbrev pub visit_plugin : (R → Bool) → Option ℕ → Option (List R) → Pass R → Pass R
  visit_plugin send path none pass = pass
  visit_plugin send path (some rs) pass = use_results send path rs pass

  unfoldable pub visit_plugins :
      (R → Bool) → Option ℕ → (ℕ → Option (List R)) → List ℕ → Pass R → Pass R
  visit_plugins send path answer [] pass = pass
  visit_plugins send path answer (name ∷ names) pass =
      visit_plugins send path answer names (visit_plugin send path (answer name) pass)

-- How waiting for the future ends: the detections, none after the timeout, or an exception.
abbrev pub await_detections : {D : Type 0} → FutureState (List D) → Option (List D)
await_detections (FutureState.result ds) = some ds
await_detections FutureState.pending = some []
await_detections FutureState.exception = none
await_detections FutureState.cancelled = none

-- The state of the loop between two rounds.
pub record CameraLoop : Type 0 where
  pub zones : ZoneRefresh
  pub cache : DetectionCache

-- `filter_by_class(shared_detections, PLUGIN_CLASSES.get(plugin.name, set()))`
abbrev pub filter_by_class : {D : Type 0} → (D → ℕ) → List D → List ℕ → List D
filter_by_class class_of ds classes = select (λ d. elem (class_of d) classes) ds

-- `list_rois` is only called where the zones are due.
abbrev pub refreshed : ℕ → Option (List ApiRoi) → ZoneRefresh → Option ZoneRefresh
refreshed now (some rois) z = some (refresh_zones now rois z)
refreshed now none z = if ltb (z.last_zone_refresh + 60) now then none else some z

-- What a round did before what the rest of the rounds do, if it did not end the coroutine.
abbrev pub continued :
    {S R : Type 0}
    → (S → List (Effect R) × Bool)
    → Option (S × List (Effect R))
    → List (Effect R) × Bool
continued rest none = ([], false)
continued rest (some (s, effects)) = let (later, running) = rest s in (effects ++ later, running)

module _ {F D R : Type 0} (class_of : D → ℕ) (plugin_classes : ℕ → List ℕ) (camera_id : ℕ) where
  unfoldable pub shared_effects :
      Tick F D R → F → List RoiConfig → List ℕ → List D → List (Effect R)
  unfolding visit_plugins
  shared_effects t frame zones names ds =
      (visit_plugins t.send t.shared_snap
        (λ name. t.shared name (filter_by_class class_of ds (plugin_classes name)) frame zones)
        names empty_pass).effects

  unfoldable pub standalone_effects : Tick F D R → F → List RoiConfig → List ℕ → List (Effect R)
  unfolding visit_plugins
  standalone_effects t frame zones names =
      (visit_plugins t.send t.standalone_snap (λ name. t.standalone name frame zones) names
        empty_pass).effects

  -- The shared part of a round, after the detections have come.
  abbrev pub after_detections :
      Tick F D R
      → F
      → List RoiConfig
      → List ℕ
      → DetectionCache
      → List D
      → DetectionCache × List (Effect R)
  after_detections t frame zones names cache ds =
      let (cache', answer) = should_process camera_id ds t.cache_now cache in
      (cache', if answer then shared_effects t frame zones names ds else [])

  -- `shared_plugins and self._shared_engines`; `none` where the exception leaves the loop.
  abbrev pub shared_part :
      Bool
      → Tick F D R
      → F
      → List RoiConfig
      → List ℕ
      → DetectionCache
      → Option (DetectionCache × List (Effect R))
  shared_part has_engine t frame zones names cache =
      if has_engine && not (is_empty names)
      then elim (await_detections t.detections) [
        | none ↦ none
        | some ds ↦ some (after_detections t frame zones names cache ds)
      ]
      else some (cache, [])

  abbrev pub with_standalone :
      Tick F D R
      → F
      → ZoneRefresh
      → List ℕ
      → Option (DetectionCache × List (Effect R))
      → Option (CameraLoop × List (Effect R))
  with_standalone t frame z names none = none
  with_standalone t frame z names (some (cache, effects)) = some (
    record { zones = z; cache = cache },
    effects ++ standalone_effects t frame z.current_zones names,
  )

  abbrev pub on_frame :
      Bool
      → PluginSplit
      → Tick F D R
      → ZoneRefresh
      → DetectionCache
      → Option F
      → Option (CameraLoop × List (Effect R))
  on_frame has_engine p t z cache none = some (record { zones = z; cache = cache }, [])
  on_frame has_engine p t z cache (some frame) =
      with_standalone t frame z p.standalone_plugins
        (shared_part has_engine t frame z.current_zones p.shared_plugins cache)

  abbrev pub with_zones :
      Bool
      → PluginSplit
      → Tick F D R
      → DetectionCache
      → Option ZoneRefresh
      → Option (CameraLoop × List (Effect R))
  with_zones has_engine p t cache none = none
  with_zones has_engine p t cache (some z) =
      on_frame has_engine p t z (run_frames cache t.others) t.frame

  -- A round of the loop; `none` where an exception ends the coroutine.
  unfoldable pub camera_round :
      Bool → PluginSplit → Tick F D R → CameraLoop → Option (CameraLoop × List (Effect R))
  unfolding shared_effects standalone_effects
  camera_round has_engine p t s = with_zones has_engine p t s.cache (refreshed t.now t.rois s.zones)

  -- The rounds until the coroutine ends: what was done, and whether it still runs.
  unfoldable pub run_camera :
      Bool → PluginSplit → List (Tick F D R) → CameraLoop → List (Effect R) × Bool
  unfolding camera_round
  run_camera has_engine p [] s = ([], true)
  run_camera has_engine p (t ∷ ts) s =
      continued (run_camera has_engine p ts) (camera_round has_engine p t s)

  -- `_process_camera`: a stream that cannot be opened, or no active plugin, ends it at once.
  unfoldable pub process_camera :
      Bool
      → Bool
      → Dict ℕ
      → List ℕ
      → List ℕ
      → List (Tick F D R)
      → CameraLoop
      → List (Effect R) × Bool
  unfolding split_plugins run_camera
  process_camera opened has_engine uses_shared active plugins ts s =
      let p = split_plugins uses_shared active plugins in
      if not opened || is_empty p.shared_plugins && is_empty p.standalone_plugins
      then ([], false)
      else run_camera has_engine p ts s
