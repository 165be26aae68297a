-- ===== src/Analytics/Orchestrator/Tracked.antt =====
-- Which cameras are processed after rounds of `_camera_discovery_loop`
-- (analytics/src/analytics/core/orchestrator.py).
use next_sec.Prelude.{
  ℕ, ◌≡◌, refl, ◌∙◌, ap, true, false, Option, none, some, List, [], ◌∷◌, map, arith, ◌==◌,
  if◌then◌else◌, elem, All,
}
use next_sec.Prelude.Dict.{Dict, lookup, IsDict, lookup-erase, erase-IsDict}
use next_sec.Analytics.Orchestrator.{
  RoiConfig, ApiRoi, ApiCamera, CameraTask, Orchestrator, fetch_zones_config, start_cameras,
  online_ids, cancel_task, drop_gone, discover,
}
use next_sec.Analytics.Orchestrator.Discovery.{
  content, first_of, task_of, IsTasks, all_started, all_keep, start_cameras-IsTasks,
}
use next_sec.Analytics.Orchestrator.NewTasks.{first_readable, first_stream-readable}

cancel_task_lem :
    (j k : ℕ) (o : Orchestrator)
    → IsTasks o
    → IsTasks (cancel_task j (lookup j o.camera_tasks) o)
      × (task_of k (cancel_task j (lookup j o.camera_tasks) o)
          ≡ (if k == j then none else task_of k o))
cancel_task_lem j k o h =
    ground (arith, lookup-erase k j o.camera_tasks h, erase-IsDict j o.camera_tasks h)

abbrev keep_or_cancel : List ℕ → ℕ → Orchestrator → Orchestrator
keep_or_cancel online j o = if elem j online then o else cancel_task j (lookup j o.camera_tasks) o

keep_or_cancel_lem :
    (online : List ℕ) (j k : ℕ) (o : Orchestrator)
    → IsTasks o
    → IsTasks (keep_or_cancel online j o)
      × (task_of k (keep_or_cancel online j o)
          ≡ (if elem j online then task_of k o else if k == j then none else task_of k o))
keep_or_cancel_lem online j k o h = ground (arith, cancel_task_lem j k o h)

drop_gone-IsTasks :
    (online ids : List ℕ) (o : Orchestrator) → IsTasks o → IsTasks (drop_gone online ids o)
unfolding drop_gone
drop_gone-IsTasks online [] o h = h
drop_gone-IsTasks online (j ∷ ids) o h =
    drop_gone-IsTasks online ids (keep_or_cancel online j o) (keep_or_cancel_lem online j j o h).0

drop_gone_lem :
    (online ids : List ℕ) (k : ℕ) (o : Orchestrator)
    → IsTasks o
    → task_of k (drop_gone online ids o)
      ≡ (if elem k online then task_of k o else if elem k ids then none else task_of k o)
unfolding drop_gone
drop_gone_lem online [] k o h = ground arith
drop_gone_lem online (j ∷ ids) k o h =
    let step = keep_or_cancel_lem online j k o h in
    drop_gone_lem online ids k (keep_or_cancel online j o) step.0 ∙ ground (arith, step.1)

lookup-not_key :
    (k : ℕ) (d : Dict CameraTask) → elem k (map (λ e. e.0) d) ≡ false → lookup k d ≡ none
lookup-not_key k [] h = refl
lookup-not_key k ((j, t) ∷ d) h = ground (arith, lookup-not_key k d)

-- All tasks are looked at, so that exactly those of the cameras that are online stay.
drop_all :
    (online : List ℕ) (k : ℕ) (o : Orchestrator)
    → IsTasks o
    → task_of k (drop_gone online (map (λ e. e.0) o.camera_tasks) o)
      ≡ (if elem k online then task_of k o else none)
drop_all online k o h =
    drop_gone_lem online (map (λ e. e.0) o.camera_tasks) k o h
    ∙ ground (arith, lookup-not_key k o.camera_tasks)

module _ (token : ℕ → Option ℕ) (local : Dict (List RoiConfig)) where
  -- A round of discovery that gets a listing leaves exactly the cameras that are listed online and have a
  -- task from before or an entry that can be read. A task from before keeps its arguments. A new one has
  -- the tenant of the first such entry, its URL (the path in MediaMTX, else the camera's own, else that
  -- of a token) and its zones: the armed ones that the API lists for the camera or, where the API lists
  -- none for any camera, those of the local file. All other tasks are gone. The keys of the tasks are
  -- distinct before.
  pub discover-tracks :
      (cams : List ApiCamera) (rois : List ApiRoi) (k : ℕ) (o : Orchestrator)
      → IsDict o.camera_tasks
      → content (task_of k (discover token local (some cams) rois o)) ≡ (
          if elem k (online_ids cams)
          then first_of (content (task_of k o)) (first_readable token local rois k cams)
          else none)
  unfolding discover
  discover-tracks cams rois k o h =
      let config = fetch_zones_config local rois in
      let o' = start_cameras token config cams o in
      ap content (drop_all (online_ids cams) k o' (start_cameras-IsTasks token config cams o h))
      ∙ ground (arith, all_started token config k cams o)
      ∙ ap (λ s. if elem k (online_ids cams) then first_of (content (task_of k o)) s else none)
          (first_stream-readable token local rois k cams)

  discover-IsTasks :
      (listing : Option (List ApiCamera)) (rois : List ApiRoi) (o : Orchestrator)
      → IsTasks o
      → IsTasks (discover token local listing rois o)
  unfolding discover
  discover-IsTasks none rois o h = h
  discover-IsTasks (some cams) rois o h =
      let config = fetch_zones_config local rois in
      let o' = start_cameras token config cams o in
      drop_gone-IsTasks (online_ids cams) (map (λ e. e.0) o'.camera_tasks) o'
        (start_cameras-IsTasks token config cams o h)

-- What the API answers in one round.
pub record Round : Type 0 where
  pub token : ℕ → Option ℕ
  pub local : Dict (List RoiConfig)
  pub listing : Option (List ApiCamera)
  pub rois : List ApiRoi

abbrev pub ListsOnline : ℕ → Option (List ApiCamera) → Type 0
ListsOnline k none = Unit
ListsOnline k (some cams) = elem k (online_ids cams) ≡ true

abbrev pub run_rounds : List Round → Orchestrator → Orchestrator
run_rounds [] o = o
run_rounds (r ∷ rs) o = run_rounds rs (discover r.token r.local r.listing r.rois o)

round_keeps :
    (token : ℕ → Option ℕ) (local : Dict (List RoiConfig)) (listing : Option (List ApiCamera))
    (rois : List ApiRoi) (k : ℕ) (t : CameraTask) (o : Orchestrator)
    → IsTasks o
    → ListsOnline k listing
    → task_of k o ≡ some t
    → task_of k (discover token local listing rois o) ≡ some t
unfolding discover
round_keeps token local none rois k t o h on e = e
round_keeps token local (some cams) rois k t o h on e =
    let config = fetch_zones_config local rois in
    let o' = start_cameras token config cams o in
    drop_all (online_ids cams) k o' (start_cameras-IsTasks token config cams o h)
    ∙ ground (arith, all_keep token config k t cams o e)

-- A camera keeps its task, one that has ended too, as long as every listing that is got shows it
-- online: however many rounds pass, no new task is made for it.
pub run_rounds-ended :
    (rs : List Round) (k : ℕ) (t : CameraTask) (o : Orchestrator)
    → IsDict o.camera_tasks
    → All (λ r. ListsOnline k r.listing) rs
    → lookup k o.camera_tasks ≡ some t
    → lookup k (run_rounds rs o).camera_tasks ≡ some t
run_rounds-ended [] k t o h on e = e
run_rounds-ended (r ∷ rs) k t o h on e =
    run_rounds-ended rs k t (discover r.token r.local r.listing r.rois o)
      (discover-IsTasks r.token r.local r.listing r.rois o h) on.1
      (round_keeps r.token r.local r.listing r.rois k t o h on.0 e)
