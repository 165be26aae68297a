-- ===== src/Analytics/VmsClient.antt =====
-- The client of the VMS API in analytics/src/analytics/core/vms_client.py: class VMSClient, with the
-- queue of analytics/src/analytics/core/outbox.py that it keeps: its state, its listings and their
-- caches. The sending of events is in Send. What the network, the disk and Redis answer are
-- arguments. A JSON document that is only passed on has a type of its own, J.
mod Send
mod Caches
mod Ingest
mod Resend
mod Tests
use next_sec.Prelude.{
  ℕ, ◌+◌, ◌<◌, min, max, Bool, true, false, ◌&&◌, Option, none, some, List, [], ◌∷◌, ◌++◌, leb,
  ◌==◌, if◌then◌else◌,
}
use next_sec.Prelude.Int.{ℤ, pos, negsuc}
use next_sec.Prelude.Dict.{Dict, lookup, insert}
use next_sec.Analytics.Outbox.{EventOutbox, enqueue, defer_all}
use next_sec.Analytics.Outbox.Retry.{SendOutcome}

abbrev pub max_retry_after_seconds : ℕ
max_retry_after_seconds = 900

abbrev pub default_retry_after_seconds : ℕ
default_retry_after_seconds = 30

-- `int(float(raw))`: a number, a ValueError, or the OverflowError of an infinite float.
pub data ParsedSeconds : Type 0 where
  parsed : ℤ → ParsedSeconds
  value_error : ParsedSeconds
  overflow_error : ParsedSeconds

-- `max(1, min(seconds, 900))` over Python's signed integers.
abbrev pub clamp_seconds : ℤ → ℕ
clamp_seconds (pos n) = max 1 (min n max_retry_after_seconds)
clamp_seconds (negsuc _) = 1

-- `none` where an exception leaves the function.
unfoldable pub retry_after_seconds : ParsedSeconds → Option ℕ
retry_after_seconds (ParsedSeconds.parsed s) = some (clamp_seconds s)
retry_after_seconds ParsedSeconds.value_error =
    some (clamp_seconds (pos default_retry_after_seconds))
retry_after_seconds ParsedSeconds.overflow_error = none

-- How a request ends, `raise_for_status` and `json` included: the document, an HTTPStatusError with
-- its status code and its header, another HTTPError (network, timeout), or any other exception.
pub data Answer {ℓ} (A : Type ℓ) : Type ℓ where
  ok : A → Answer A
  status_error : ℕ → ParsedSeconds → Answer A
  network_error : Answer A
  exception : Answer A

-- The body of an event. Absent keys are `none`, and `edge_generates_clip` is written only if true.
pub record Body (J : Type 0) : Type 0 where
  pub camera_id : ℕ
  pub event_type : ℕ
  pub payload : J
  pub confidence : Option ℕ
  pub occurred_at : Option ℕ
  pub snapshot_path : Option ℕ
  pub edge_generates_clip : Bool

pub record ClipContext : Type 0 where
  pub mediamtx_path : Option ℕ
  pub occurred_at : Option ℕ

-- `queued_payload`
pub record QueuedPayload (J : Type 0) : Type 0 where
  pub body : Body J
  pub local_snapshot_path : Option ℕ
  pub clip_context : ClipContext

-- The POST: plain JSON, or multipart with the snapshot's file.
pub data EventRequest (J : Type 0) : Type 0 where
  json : Body J → EventRequest J
  multipart : Body J → ℕ → EventRequest J

-- A job `task_render_and_upload_edge_clip`: the event's id, the snapshot and the context.
pub record ClipJob : Type 0 where
  pub event_id : ℕ
  pub local_snapshot_path : ℕ
  pub clip_seconds : ℕ
  pub context : ClipContext

-- `has_client` is `self._client is not None`, `has_pool` is `self._arq_pool is not None`; `clip_jobs`
-- is what the local Redis has taken, in order. A cache of ROIs has one entry per camera, and one for
-- the call without a camera.
pub record VmsClient (J : Type 0) : Type 0 where
  pub has_client : Bool
  pub has_pool : Bool
  pub edge_deployment : Bool
  pub edge_clip_seconds : ℕ
  pub cameras_cache : List J
  pub rois_cache : Dict (List J)
  pub watchlist_cache : List J
  pub outbox : EventOutbox (QueuedPayload J)
  pub clip_jobs : List ClipJob

-- The key of the dict: `None` or an identifier.
abbrev pub roi_key : Option ℕ → ℕ
roi_key none = 0
roi_key (some camera_id) = camera_id + 1

module _ {J : Type 0} where
  -- Both `self._client` and the ARQ pool are set up; a pool only on the edge.
  unfoldable pub start : VmsClient J → VmsClient J
  start c = record c {
    has_client = true;
    has_pool = if c.edge_deployment then true else c.has_pool;
  }

  unfoldable pub close : VmsClient J → VmsClient J
  close c = record c { has_client = false; has_pool = false }

  -- A listing ends in its document, in an HTTPError, or in an exception that the caller sees: `none`.
  unfoldable pub list_cameras : Answer (List J) → VmsClient J → VmsClient J × Option (List J)
  list_cameras answer c =
      if c.has_client
      then elim answer [
        | Answer.ok found ↦ (record c { cameras_cache = found }, some found)
        | Answer.exception ↦ (c, none)
        | _ ↦ (c, some c.cameras_cache)
      ]
      else (c, some c.cameras_cache)

  unfoldable pub list_watchlist : Answer (List J) → VmsClient J → VmsClient J × Option (List J)
  list_watchlist answer c =
      if c.has_client
      then elim answer [
        | Answer.ok found ↦ (record c { watchlist_cache = found }, some found)
        | Answer.exception ↦ (c, none)
        | _ ↦ (c, some c.watchlist_cache)
      ]
      else (c, some c.watchlist_cache)

  abbrev pub or_empty : Option (List J) → List J
  or_empty none = []
  or_empty (some found) = found

  -- `self._rois_cache.get(camera_id, [])`
  abbrev pub cached_rois : Option ℕ → VmsClient J → List J
  cached_rois camera_id c = or_empty (lookup (roi_key camera_id) c.rois_cache)

  unfoldable pub list_rois :
      Option ℕ → Answer (List J) → VmsClient J → VmsClient J × Option (List J)
  list_rois camera_id answer c =
      if c.has_client
      then elim answer [
        | Answer.ok found ↦
            (record c { rois_cache = insert (roi_key camera_id) found c.rois_cache }, some found)
        | Answer.exception ↦ (c, none)
        | _ ↦ (c, some (cached_rois camera_id c))
      ]
      else (c, some (cached_rois camera_id c))

  -- The JSON of `active-plugins`; a 404 and every other HTTPError give the empty list.
  unfoldable pub get_active_plugins_for_camera :
      Answer (Option (List ℕ)) → VmsClient J → Option (List ℕ)
  get_active_plugins_for_camera answer c =
      if c.has_client
      then elim answer [
        | Answer.ok found ↦ elim found [ some names ↦ some names | none ↦ some [] ]
        | Answer.exception ↦ none
        | _ ↦ some []
      ]
      else some []
