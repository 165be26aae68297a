-- ===== src/Analytics/Orchestrator/Tests.antt =====
-- Runs of the orchestrator of analytics/src/analytics/core/orchestrator.py, and its theorems at them.
use next_sec.Prelude.{
  ℕ, ◌+◌, ◌≡◌, refl, Bool, true, false, not, ◌&&◌, Option, none, some, List, [], ◌∷◌, map, arith,
  ◌==◌, if◌then◌else◌, elem, length,
}
use next_sec.Prelude.Dict.{Dict, lookup}
use next_sec.Analytics.DetectionCache.{new_cache, should_process, decide_frame}
use next_sec.Analytics.Orchestrator.{
  ApiRoi, ApiCamera, StreamUrl, CameraTask, Orchestrator, online_ids, discover, initial_zones,
  refresh_zones,
}
use next_sec.Analytics.Orchestrator.Batches.{FutureState, Item, run_batch, run_loop}
use next_sec.Analytics.Orchestrator.Frames.{PluginSplit, Effect, Tick, visit_plugins, run_camera}
use next_sec.Analytics.Orchestrator.Discovery.{content, first_of, task_of}
use next_sec.Analytics.Orchestrator.NewTasks.{first_readable}
use next_sec.Analytics.Orchestrator.Tracked.{Round, run_rounds, discover-tracks, run_rounds-ended}
use next_sec.Analytics.Orchestrator.Delivery.{settled, is_pending, futures_of}
use next_sec.Analytics.Orchestrator.Groups.{own, run_batch-own}
use next_sec.Analytics.Orchestrator.Rounds.{run_loop-drains}
use next_sec.Analytics.Orchestrator.Snapshots.{any_finds, all_delivered, visit_plugins-once}
use next_sec.Analytics.Orchestrator.Gate.{spec_camera, run_camera-spec}
use next_sec.Analytics.Orchestrator.Zones.{run_camera-ignores_zones}

abbrev camera : ℕ → Bool → Option ℕ → ApiCamera
camera id is_online path = record {
  id = id;
  tenant_id = 7;
  is_online = is_online;
  mediamtx_path = path;
  rtsp_url = none;
}

abbrev zone : ℕ → Bool → ApiRoi
zone camera_id is_armed_now = record {
  camera_id = camera_id;
  is_armed_now = is_armed_now;
  id = 10 + camera_id;
  name = 0;
  plugin_id = 1;
  polygon_points = [];
  config = 0;
}

abbrev ended_task : CameraTask
ended_task = record {
  number = 0;
  tenant_id = 7;
  rtsp_url = StreamUrl.mediamtx 31;
  zones = [];
  is_done = true;
}

-- Camera 1 has a task that has ended.
abbrev running : Orchestrator
running = record {
  camera_tasks = (1, ended_task) ∷ [];
  mediamtx_paths = [];
  running = true;
  made = 1;
  cancelled = [];
}

abbrev no_token : ℕ → Option ℕ
no_token _ = none

abbrev two_online : List ApiCamera
two_online = camera 1 true (some 31) ∷ camera 2 true (some 32) ∷ camera 3 false (some 33) ∷ []

abbrev zones : List ApiRoi
zones = zone 2 true ∷ zone 2 false ∷ zone 1 true ∷ []

discover-tracks_example :
    content (task_of 2 (discover no_token [] (some two_online) zones running)) ≡ (
      if elem 2 (online_ids two_online)
      then first_of (content (task_of 2 running)) (first_readable no_token [] zones 2 two_online)
      else none)
discover-tracks_example = discover-tracks no_token [] two_online zones 2 running (refl, tt)

second_started :
    content (task_of 2 (discover no_token [] (some two_online) zones running))
    ≡ some (
      7,
      StreamUrl.mediamtx 32,
      record { id = 12; name = 0; ia_type = 1; polygon_points = []; config = 0 } ∷ [],
    )
unfolding discover
second_started = refl

abbrev rounds : List Round
rounds =
    record { token = no_token; local = []; listing = some two_online; rois = zones }
    ∷ record { token = no_token; local = []; listing = none; rois = [] }
    ∷ record { token = no_token; local = []; listing = some two_online; rois = zones }
    ∷ []

run_rounds-ended_example : lookup 1 (run_rounds rounds running).camera_tasks ≡ some ended_task
run_rounds-ended_example =
    run_rounds-ended rounds 1 ended_task running (refl, tt) (refl, (tt, (refl, tt))) refl

-- Two engines, of which the second sees another number in each frame.
abbrev detect : ℕ → ℕ → ℕ
detect engine frame = engine + frame

abbrev predict : ℕ → List ℕ → Option (List ℕ)
predict engine frames = some (map (detect engine) frames)

abbrev item : ℕ → ℕ → ℕ → Item ℕ
item engine frame future = record { engine = engine; frame = frame; future = future }

abbrev batch : List (Item ℕ)
batch = item 100 1 51 ∷ item 200 2 52 ∷ item 100 3 53 ∷ []

abbrev waiting : Dict (FutureState ℕ)
waiting = (51, FutureState.pending) ∷ (52, FutureState.cancelled) ∷ (53, FutureState.pending) ∷ []

run_batch-own_example :
    lookup 53 (run_batch predict batch waiting)
    ≡ settled (lookup 53 (own detect batch)) (lookup 53 waiting)
run_batch-own_example =
    run_batch-own detect predict (λ engine frames. refl) batch waiting 53 (refl, (refl, (refl, tt)))

third_result : lookup 53 (run_batch predict batch waiting) ≡ some (FutureState.result 103)
unfolding run_batch
third_result = refl

-- The engine 200 raises.
abbrev raising : ℕ → List ℕ → Option (List ℕ)
raising engine frames = if engine == 200 then none else some frames

raising_one_each :
    (engine : ℕ) (frames rs : List ℕ) → raising engine frames ≡ some rs → length rs ≡ length frames
raising_one_each engine frames rs h = ground (arith)

run_loop-drains_example :
    ((run_loop raising (0 ∷ 0 ∷ 5 ∷ []) batch waiting).0 ≡ [])
    × (is_pending (lookup 51 (run_loop raising (0 ∷ 0 ∷ 5 ∷ []) batch waiting).1)
        ≡ (is_pending (lookup 51 waiting) && not (elem 51 (futures_of batch))))
run_loop-drains_example =
    run_loop-drains raising raising_one_each (0 ∷ 0 ∷ 5 ∷ []) batch waiting 51 (omega arith)

-- Plugin 1 finds nothing, plugin 2 raises, and plugin 3 has two results.
abbrev plugin_results : ℕ → Option (List ℕ)
plugin_results name = if name == 3 then some (8 ∷ 9 ∷ []) else if name == 2 then none else some []

visit_plugins-once_example :
    (visit_plugins
      (λ r. not (r == 9))
      (some 77)
      plugin_results
      (1 ∷ 2 ∷ 3 ∷ [])
      (record { snap = none; effects = [] })).effects
    ≡ (if any_finds plugin_results (1 ∷ 2 ∷ 3 ∷ [])
        then Effect.saved
          ∷ map
              (λ r. Effect.sent r (some 77))
              (all_delivered (λ r. not (r == 9)) plugin_results (1 ∷ 2 ∷ 3 ∷ []))
        else [])
visit_plugins-once_example =
    visit_plugins-once (λ r. not (r == 9)) (some 77) plugin_results (1 ∷ 2 ∷ 3 ∷ [])

-- A round in which the frame has the given detections, and another camera's frame comes between.
abbrev tick : ℕ → FutureState (List ℕ) → Tick ℕ ℕ ℕ
tick now detections = record {
  now = now;
  rois = some (zone 1 true ∷ []);
  frame = some 5;
  detections = detections;
  others = (2, 0 ∷ [], now) ∷ [];
  cache_now = now;
  shared = λ name ds frame zones. some (length ds ∷ []);
  standalone = λ name frame zones. some [];
  send = λ r. true;
  shared_snap = some 77;
  standalone_snap = none;
}

abbrev plugins : PluginSplit
plugins = record { shared_plugins = 4 ∷ []; standalone_plugins = [] }

abbrev ticks : List (Tick ℕ ℕ ℕ)
ticks =
    tick 100 (FutureState.result (0 ∷ []))
    ∷ tick 101 (FutureState.result [])
    ∷ tick 102 (FutureState.result [])
    ∷ tick 103 FutureState.exception
    ∷ tick 104 (FutureState.result (0 ∷ []))
    ∷ []

abbrev all_classes : ℕ → List ℕ
all_classes name = 0 ∷ []

run_camera-spec_example :
    run_camera
      (λ d. d)
      all_classes
      1
      true
      plugins
      ticks
      (record { zones = initial_zones ended_task; cache = new_cache 30 60 })
    ≡ spec_camera (λ d. d) all_classes 1 true plugins ticks (initial_zones ended_task, 0)
run_camera-spec_example =
    run_camera-spec (λ d. d) all_classes 1 true plugins 30 60 (initial_zones ended_task) ticks
      ((refl, tt), ((refl, tt), ((refl, tt), ((refl, tt), ((refl, tt), tt)))))

-- The first two frames are processed, the third is not, and the exception ends the task.
camera_stops :
    run_camera
      (λ d. d)
      all_classes
      1
      true
      plugins
      ticks
      (record { zones = initial_zones ended_task; cache = new_cache 30 60 })
    ≡ (Effect.saved ∷ Effect.sent 1 (some 77) ∷ Effect.saved ∷ Effect.sent 0 (some 77) ∷ [], false)
unfolding run_camera new_cache should_process decide_frame refresh_zones
camera_stops = refl

run_camera-ignores_zones_example :
    run_camera
      (λ d. d)
      all_classes
      1
      true
      plugins
      ticks
      (record { zones = initial_zones ended_task; cache = new_cache 30 60 })
    ≡ run_camera
        (λ d. d)
        all_classes
        1
        true
        plugins
        ticks
        (record {
          zones = initial_zones (record ended_task {
            zones = record { id = 1; name = 0; ia_type = 1; polygon_points = []; config = 0 } ∷ [];
          });
          cache = new_cache 30 60;
        })
run_camera-ignores_zones_example =
    run_camera-ignores_zones (λ d. d) all_classes 1 true plugins (new_cache 30 60)
      (tick 100 (FutureState.result (0 ∷ [])))
      (tick 101 (FutureState.result [])
        ∷ tick 102 (FutureState.result [])
        ∷ tick 103 FutureState.exception
        ∷ tick 104 (FutureState.result (0 ∷ []))
        ∷ [])
      ended_task
      (record ended_task {
        zones = record { id = 1; name = 0; ia_type = 1; polygon_points = []; config = 0 } ∷ [];
      })
      (omega arith)
