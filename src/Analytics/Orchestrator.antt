-- ===== src/Analytics/Orchestrator.antt =====
-- Class Orchestrator of analytics/src/analytics/core/orchestrator.py: the cameras that are processed, and
-- the zones that they are given. Batches is its inference loop, Frames what a camera does with a frame.
-- A camera, a path or a URL is only compared, so it is a number. What the API, the zones.yaml file and
-- the clock give are arguments. The loading of plugins and models is left out.
pub mod Batches
pub mod Frames
mod Discovery
mod NewTasks
mod Tracked
mod Zones
mod Delivery
mod Groups
mod Snapshots
mod Gate
mod Rounds
mod Tests
use next_sec.Prelude.{
  ℕ, zero, suc, ◌+◌, Bool, true, false, not, Option, none, some, List, [], ◌∷◌, ◌++◌, map, ltb,
  if◌then◌else◌, select, elem, is_some,
}
use next_sec.Prelude.Dict.{Dict, lookup, insert, erase, contains}

-- `ROIConfig`
pub record RoiConfig : Type 0 where
  pub id : ℕ
  pub name : ℕ
  pub ia_type : ℕ
  pub polygon_points : List (ℕ × ℕ)
  pub config : ℕ

-- A zone as the API lists it. `is_armed_now` is true where the key is absent.
pub record ApiRoi : Type 0 where
  pub camera_id : ℕ
  pub is_armed_now : Bool
  pub id : ℕ
  pub name : ℕ
  pub plugin_id : ℕ
  pub polygon_points : List (ℕ × ℕ)
  pub config : ℕ

-- A camera as the API lists it. A text that is absent or empty is `none`.
pub record ApiCamera : Type 0 where
  pub id : ℕ
  pub tenant_id : ℕ
  pub is_online : Bool
  pub mediamtx_path : Option ℕ
  pub rtsp_url : Option ℕ

pub data StreamUrl : Type 0 where
  mediamtx : ℕ → StreamUrl
  native : ℕ → StreamUrl
  by_token : ℕ → StreamUrl

-- An asyncio task of `_process_camera`, with the arguments it was made with. `number` tells it from
-- the others; `is_done` is set when the coroutine ends.
pub record CameraTask : Type 0 where
  pub number : ℕ
  pub tenant_id : ℕ
  pub rtsp_url : StreamUrl
  pub zones : List RoiConfig
  pub is_done : Bool

-- `_camera_tasks`, `_mediamtx_paths` and `_running`; `made` counts the tasks that were created, and
-- `cancelled` lists the numbers of those on which `cancel` was called.
pub record Orchestrator : Type 0 where
  pub camera_tasks : Dict CameraTask
  pub mediamtx_paths : Dict ℕ
  pub running : Bool
  pub made : ℕ
  pub cancelled : List ℕ

abbrev pub roi_config : ApiRoi → RoiConfig
roi_config roi = record {
  id = roi.id;
  name = roi.name;
  ia_type = roi.plugin_id;
  polygon_points = roi.polygon_points;
  config = roi.config;
}

-- `zones_config.get(cam_id, [])`
abbrev pub zones_of : Option (List RoiConfig) → List RoiConfig
zones_of none = []
zones_of (some zones) = zones

-- `zones_config.setdefault(cam_id, []).append(zone)`
abbrev pub add_zone : ℕ → RoiConfig → Dict (List RoiConfig) → Dict (List RoiConfig)
add_zone cam_id zone config = insert cam_id (zones_of (lookup cam_id config) ++ zone ∷ []) config

abbrev pub group_rois : List ApiRoi → Dict (List RoiConfig) → Dict (List RoiConfig)
group_rois [] config = config
group_rois (roi ∷ rois) config =
    group_rois rois
      (if roi.is_armed_now then add_zone roi.camera_id (roi_config roi) config else config)

-- `_fetch_zones_config`, with the zones of the local file.
unfoldable pub fetch_zones_config : Dict (List RoiConfig) → List ApiRoi → Dict (List RoiConfig)
fetch_zones_config local [] = local
fetch_zones_config local (roi ∷ rois) = group_rois (roi ∷ rois) []

abbrev pub token_url : Option ℕ → Option StreamUrl
token_url none = none
token_url (some url) = some (StreamUrl.by_token url)

abbrev pub native_or_token : Option ℕ → Option ℕ → Option StreamUrl
native_or_token none token = token_url token
native_or_token (some url) token = some (StreamUrl.native url)

-- The URL to read from: the path in MediaMTX, else the camera's own URL, else that of a token.
abbrev pub stream_url : Option ℕ → Option ℕ → Option ℕ → Option StreamUrl
stream_url none url token = native_or_token url token
stream_url (some path) url token = some (StreamUrl.mediamtx path)

abbrev pub remember_path : ApiCamera → Option ℕ → Orchestrator → Orchestrator
remember_path cam none o = o
remember_path cam (some path) o = record o { mediamtx_paths = insert cam.id path o.mediamtx_paths }

abbrev pub make_task : ApiCamera → Option StreamUrl → List RoiConfig → Orchestrator → Orchestrator
make_task cam none zones o = o
make_task cam (some url) zones o = record o {
  made = o.made + 1;
  camera_tasks =
      insert cam.id
        (record {
          number = o.made;
          tenant_id = cam.tenant_id;
          rtsp_url = url;
          zones = zones;
          is_done = false;
        })
        o.camera_tasks;
}

-- `_maybe_start_camera_task`; `token` is what the API gives when it is asked for a camera's token.
unfoldable pub maybe_start_camera_task :
    (ℕ → Option ℕ) → Dict (List RoiConfig) → ApiCamera → Orchestrator → Orchestrator
maybe_start_camera_task token config cam o =
    let o' = remember_path cam cam.mediamtx_path o in
    if contains cam.id o.camera_tasks
    then o'
    else if not cam.is_online
    then o'
    else make_task cam (stream_url cam.mediamtx_path cam.rtsp_url (token cam.id))
        (zones_of (lookup cam.id config)) o'

unfoldable pub start_cameras :
    (ℕ → Option ℕ) → Dict (List RoiConfig) → List ApiCamera → Orchestrator → Orchestrator
unfolding maybe_start_camera_task
start_cameras token config [] o = o
start_cameras token config (cam ∷ cams) o =
    start_cameras token config cams (maybe_start_camera_task token config cam o)

abbrev pub online_ids : List ApiCamera → List ℕ
online_ids cams = map (λ cam. cam.id) (select (λ cam. cam.is_online) cams)

-- `pop` and `cancel`
abbrev pub cancel_task : ℕ → Option CameraTask → Orchestrator → Orchestrator
cancel_task cam_id none o = o
cancel_task cam_id (some task) o = record o {
  camera_tasks = erase cam_id o.camera_tasks;
  cancelled = o.cancelled ++ task.number ∷ [];
}

unfoldable pub drop_gone : List ℕ → List ℕ → Orchestrator → Orchestrator
drop_gone online [] o = o
drop_gone online (cam_id ∷ ids) o =
    drop_gone online ids
      (if elem cam_id online then o else cancel_task cam_id (lookup cam_id o.camera_tasks) o)

-- One round of `_camera_discovery_loop`: the listing is `none` where it raises. The zones and the tokens
-- are taken to come: an exception of those would end the loop.
unfoldable pub discover :
    (ℕ → Option ℕ)
    → Dict (List RoiConfig)
    → Option (List ApiCamera)
    → List ApiRoi
    → Orchestrator
    → Orchestrator
unfolding start_cameras drop_gone fetch_zones_config
discover token local none rois o = o
discover token local (some cams) rois o =
    let o' = start_cameras token (fetch_zones_config local rois) cams o in
    drop_gone (online_ids cams) (map (λ e. e.0) o'.camera_tasks) o'

-- The attempts of `start`: the listings are asked for one after the other until one is not empty.
unfoldable pub first_listing : ℕ → (ℕ → List ApiCamera) → ℕ → List ApiCamera
first_listing zero listing attempt = []
first_listing (suc left) listing attempt = elim (listing attempt) [
  | [] ↦ first_listing left listing (attempt + 1)
  | cam ∷ cams ↦ cam ∷ cams
]

-- `start`, up to the creation of the two loops.
unfoldable pub start_orchestrator :
    (ℕ → Option ℕ)
    → Dict (List RoiConfig)
    → (ℕ → List ApiCamera)
    → List ApiRoi
    → Orchestrator
    → Orchestrator
unfolding first_listing start_cameras fetch_zones_config
start_orchestrator token local listing rois o =
    start_cameras token (fetch_zones_config local rois) (first_listing 10 listing 1)
      (record o { running = true })

-- `stop`, for the tasks of the cameras.
unfoldable pub stop : Orchestrator → Orchestrator
stop o = record o {
  running = false;
  camera_tasks = [];
  cancelled = o.cancelled ++ map (λ e. e.1.number) o.camera_tasks;
}

-- The zones of a running camera, and when they were last asked for.
pub record ZoneRefresh : Type 0 where
  pub current_zones : List RoiConfig
  pub last_zone_refresh : ℕ

-- In seconds.
abbrev pub zone_refresh_interval : ℕ
zone_refresh_interval = 60

-- `_last_zone_refresh` starts at 0, whatever the clock reads.
abbrev pub initial_zones : CameraTask → ZoneRefresh
initial_zones task = record { current_zones = task.zones; last_zone_refresh = 0 }

-- The refresh at the head of the loop; `rois` is what the API lists for the camera.
unfoldable pub refresh_zones : ℕ → List ApiRoi → ZoneRefresh → ZoneRefresh
refresh_zones now rois z =
    if ltb (z.last_zone_refresh + zone_refresh_interval) now
    then record {
      current_zones = map roi_config (select (λ roi. roi.is_armed_now) rois);
      last_zone_refresh = now;
    }
    else z
