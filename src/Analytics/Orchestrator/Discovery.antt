-- ===== src/Analytics/Orchestrator/Discovery.antt =====
-- Which cameras `_maybe_start_camera_task` starts
-- (analytics/src/analytics/core/orchestrator.py), for a whole listing.
use next_sec.Prelude.{
  ℕ, ◌≡◌, refl, sym, ◌∙◌, ap, false, ◌&&◌, Option, none, some, List, [], ◌∷◌, arith, ◌==◌,
  if◌then◌else◌,
}
use next_sec.Prelude.Dict.{Dict, lookup, IsDict, lookup-insert, insert-IsDict}
use next_sec.Analytics.Orchestrator.{
  RoiConfig, ApiCamera, StreamUrl, CameraTask, Orchestrator, zones_of, stream_url, remember_path,
  make_task, maybe_start_camera_task, start_cameras,
}

-- What a task was made with.
abbrev pub Content : Type 0
Content = ℕ × StreamUrl × List RoiConfig

abbrev pub content : Option CameraTask → Option Content
content none = none
content (some t) = some (t.tenant_id, t.rtsp_url, t.zones)

abbrev pub first_of {ℓ} : {A : Type ℓ} → Option A → Option A → Option A
first_of none b = b
first_of (some a) b = some a

-- The state of a camera's task.
abbrev pub task_of : ℕ → Orchestrator → Option CameraTask
task_of k o = lookup k o.camera_tasks

abbrev pub IsTasks : Orchestrator → Type 0
IsTasks o = IsDict o.camera_tasks

abbrev pub with_url : ℕ → List RoiConfig → Option StreamUrl → Option Content
with_url tenant_id zones none = none
with_url tenant_id zones (some url) = some (tenant_id, url, zones)

module _ (token : ℕ → Option ℕ) (config : Dict (List RoiConfig)) where
  -- The specification: the first listed entry of the camera that is online and can be read.
  abbrev pub first_stream : ℕ → List ApiCamera → Option Content
  first_stream k [] = none
  first_stream k (cam ∷ cams) =
      let rest = first_stream k cams in
      if k == cam.id && cam.is_online
      then first_of
          (with_url cam.tenant_id (zones_of (lookup cam.id config))
            (stream_url cam.mediamtx_path cam.rtsp_url (token cam.id)))
          rest
      else rest

  path_kept :
      (cam : ApiCamera) (p : Option ℕ) (o : Orchestrator)
      → (remember_path cam p o).camera_tasks ≡ o.camera_tasks
  path_kept cam none o = refl
  path_kept cam (some p) o = refl

  first_of-none : (a : Option Content) → first_of a none ≡ a
  first_of-none none = refl
  first_of-none (some a) = refl

  made_task :
      (k : ℕ) (cam : ApiCamera) (url : Option StreamUrl) (zones : List RoiConfig) (o : Orchestrator)
      → lookup cam.id o.camera_tasks ≡ none
      → content (task_of k (make_task cam url zones o))
        ≡ first_of
            (content (task_of k o))
            (if k == cam.id then with_url cam.tenant_id zones url else none)
  made_task k cam none zones o h = ground (arith, first_of-none (content (task_of k o)))
  made_task k cam (some url) zones o h = ground (
    arith,
    first_of-none (content (task_of k o)),
    lookup-insert k cam.id
        (record {
          number = o.made;
          tenant_id = cam.tenant_id;
          rtsp_url = url;
          zones = zones;
          is_done = false;
        })
        o.camera_tasks,
  )

  -- One call adds at most what the specification gives for the one camera.
  one_started :
      (k : ℕ) (cam : ApiCamera) (o : Orchestrator)
      → content (task_of k (maybe_start_camera_task token config cam o))
        ≡ first_of (content (task_of k o)) (first_stream k (cam ∷ []))
  unfolding maybe_start_camera_task
  one_started k cam o =
      let o' = remember_path cam cam.mediamtx_path o in
      let url = stream_url cam.mediamtx_path cam.rtsp_url (token cam.id) in
      let zones = zones_of (lookup cam.id config) in
      ground (
        arith,
        path_kept cam cam.mediamtx_path o,
        first_of-none (content (task_of k o)),
        first_of-none (with_url cam.tenant_id zones url),
        made_task k cam url zones o',
      )

  first_of_assoc : (a b c : Option Content) → first_of (first_of a b) c ≡ first_of a (first_of b c)
  first_of_assoc none b c = refl
  first_of_assoc (some a) b c = refl

  first_stream-cons :
      (k : ℕ) (cam : ApiCamera) (cams : List ApiCamera)
      → first_stream k (cam ∷ cams) ≡ first_of (first_stream k (cam ∷ [])) (first_stream k cams)
  first_stream-cons k cam cams =
      let url = stream_url cam.mediamtx_path cam.rtsp_url (token cam.id) in
      let c = with_url cam.tenant_id (zones_of (lookup cam.id config)) url in
      ground (arith, first_of-none c)

  pub all_started :
      (k : ℕ) (cams : List ApiCamera) (o : Orchestrator)
      → content (task_of k (start_cameras token config cams o))
        ≡ first_of (content (task_of k o)) (first_stream k cams)
  unfolding start_cameras
  all_started k [] o = sym (first_of-none (content (task_of k o)))
  all_started k (cam ∷ cams) o =
      all_started k cams (maybe_start_camera_task token config cam o)
      ∙ ap (λ c. first_of c (first_stream k cams)) (one_started k cam o)
      ∙ first_of_assoc (content (task_of k o)) (first_stream k (cam ∷ [])) (first_stream k cams)
      ∙ ap (first_of (content (task_of k o))) (sym (first_stream-cons k cam cams))

  -- A camera that has a task keeps that very task.
  made_keeps :
      (k : ℕ) (t : CameraTask) (cam : ApiCamera) (url : Option StreamUrl) (zones : List RoiConfig)
      (o : Orchestrator)
      → lookup cam.id o.camera_tasks ≡ none
      → task_of k o ≡ some t
      → task_of k (make_task cam url zones o) ≡ some t
  made_keeps k t cam none zones o h e = e
  made_keeps k t cam (some url) zones o h e = ground (
    arith,
    lookup-insert k cam.id
        (record {
          number = o.made;
          tenant_id = cam.tenant_id;
          rtsp_url = url;
          zones = zones;
          is_done = false;
        })
        o.camera_tasks,
  )

  one_keeps :
      (k : ℕ) (t : CameraTask) (cam : ApiCamera) (o : Orchestrator)
      → task_of k o ≡ some t
      → task_of k (maybe_start_camera_task token config cam o) ≡ some t
  unfolding maybe_start_camera_task
  one_keeps k t cam o e =
      let o' = remember_path cam cam.mediamtx_path o in
      let url = stream_url cam.mediamtx_path cam.rtsp_url (token cam.id) in
      ground (
        arith,
        path_kept cam cam.mediamtx_path o,
        made_keeps k t cam url (zones_of (lookup cam.id config)) o',
      )

  pub all_keep :
      (k : ℕ) (t : CameraTask) (cams : List ApiCamera) (o : Orchestrator)
      → task_of k o ≡ some t
      → task_of k (start_cameras token config cams o) ≡ some t
  unfolding start_cameras
  all_keep k t [] o e = e
  all_keep k t (cam ∷ cams) o e =
      all_keep k t cams (maybe_start_camera_task token config cam o) (one_keeps k t cam o e)

  made-IsTasks :
      (cam : ApiCamera) (url : Option StreamUrl) (zones : List RoiConfig) (o : Orchestrator)
      → IsTasks o
      → IsTasks (make_task cam url zones o)
  made-IsTasks cam none zones o h = h
  made-IsTasks cam (some url) zones o h = insert-IsDict cam.id _ o.camera_tasks h

  one-IsTasks :
      (cam : ApiCamera) (o : Orchestrator)
      → IsTasks o
      → IsTasks (maybe_start_camera_task token config cam o)
  unfolding maybe_start_camera_task
  one-IsTasks cam o h =
      let o' = remember_path cam cam.mediamtx_path o in
      let url = stream_url cam.mediamtx_path cam.rtsp_url (token cam.id) in
      let h' : IsTasks o' = rw (path_kept cam cam.mediamtx_path o) h in
      ground (arith, made-IsTasks cam url (zones_of (lookup cam.id config)) o' h')

  pub start_cameras-IsTasks :
      (cams : List ApiCamera) (o : Orchestrator)
      → IsTasks o
      → IsTasks (start_cameras token config cams o)
  unfolding start_cameras
  start_cameras-IsTasks [] o h = h
  start_cameras-IsTasks (cam ∷ cams) o h =
      start_cameras-IsTasks cams (maybe_start_camera_task token config cam o) (one-IsTasks cam o h)
