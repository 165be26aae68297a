-- ===== src/Api/EventClips.antt =====
-- The clips of events: EventClipService of api/src/vms/event_clips/service.py over the rows of
-- api/src/vms/event_clips/repository.py, the upload of an edge (api/src/vms/edge/router.py) with
-- StorageQuota of api/src/vms/edge/service.py. Retention has the nightly task, EdgeTask the sender.
-- Ids, paths and texts are numbers that are only compared. What the disk, ffmpeg and the storage
-- answer are arguments; times are counts of seconds.
mod Rows
mod Uploads
mod Quota
mod Retention
pub mod EdgeTask
mod Once
mod Tests
use next_sec.Prelude.{
  ℕ, ◌+◌, ◌*◌, ◌≤◌, max, Bool, true, false, not, ◌&&◌, Option, none, some, List, [], ◌∷◌, ◌++◌, map,
  ltb, leb, ◌==◌, if◌then◌else◌, select,
}
use next_sec.Prelude.Dict.{Dict, lookup, insert}

pub data ClipStatus : Type 0 where
  pending staged uploaded failed : ClipStatus

pub data ClipError : Type 0 where
  no_snapshot snapshot_missing mp4_missing raised : ClipError

-- `f"{tenant_id}/{clip.id}.mp4"`
pub record StorageKey : Type 0 where
  pub tenant_id : ℕ
  pub clip_id : ℕ

pub record EventClip : Type 0 where
  pub id : ℕ
  pub vms_event_id : ℕ
  pub tenant_id : Option ℕ
  pub size_bytes : ℕ
  pub storage_ref : Option StorageKey
  pub storage_url : Option ℕ
  pub status : ClipStatus
  pub error_message : Option ClipError
  pub created_at : ℕ

-- What one call of the service meets: the new row's id and time; whether the file that it is to
-- read is there; whether ffmpeg renders; and the size and URL of the upload, `none` where reading
-- the size or uploading raises.
pub record Attempt : Type 0 where
  pub new_id : ℕ
  pub now : ℕ
  pub is_file : Bool
  pub renders : Bool
  pub upload : Option (ℕ × ℕ)

abbrev pub get_by_event : ℕ → List EventClip → Option EventClip
get_by_event event_id [] = none
get_by_event event_id (c ∷ cs) =
    if c.vms_event_id == event_id then some c else get_by_event event_id cs

abbrev pub get_by_id : ℕ → List EventClip → Option EventClip
get_by_id id [] = none
get_by_id id (c ∷ cs) = if c.id == id then some c else get_by_id id cs

abbrev pub put_clip : EventClip → List EventClip → List EventClip
put_clip new [] = []
put_clip new (c ∷ cs) = if c.id == new.id then new ∷ cs else c ∷ put_clip new cs

-- `update_status`, which raises where no row has the id. `change` sets the status and the fields.
abbrev pub update_row :
    (EventClip → EventClip)
    → List EventClip
    → Option EventClip
    → Option (List EventClip × EventClip)
update_row change clips none = none
update_row change clips (some c) = some (put_clip (change c) clips, change c)

unfoldable pub update_status :
    ℕ → (EventClip → EventClip) → List EventClip → Option (List EventClip × EventClip)
update_status id change clips = update_row change clips (get_by_id id clips)

abbrev pub new_clip : ℕ → ℕ → Option ℕ → ℕ → EventClip
new_clip id event_id tenant_id now = record {
  id = id;
  vms_event_id = event_id;
  tenant_id = tenant_id;
  size_bytes = 0;
  storage_ref = none;
  storage_url = none;
  status = ClipStatus.pending;
  error_message = none;
  created_at = now;
}

abbrev pub to_staged : EventClip → EventClip
to_staged c = record c { status = ClipStatus.staged }

abbrev pub to_failed : ClipError → EventClip → EventClip
to_failed e c = record c { status = ClipStatus.failed; error_message = some e }

abbrev pub to_uploaded : ℕ → ℕ → ℕ → EventClip → EventClip
to_uploaded tenant_id size url c = record c {
  status = ClipStatus.uploaded;
  storage_ref = some (record { tenant_id = tenant_id; clip_id = c.id });
  storage_url = some url;
  size_bytes = size;
  tenant_id = some tenant_id;
}

-- The change that ends `_upload_and_finalize`.
abbrev pub finalize : ℕ → Option (ℕ × ℕ) → EventClip → EventClip
finalize tenant_id none c = to_failed ClipError.raised c
finalize tenant_id (some (size, url)) c = to_uploaded tenant_id size url c

-- The rows and the clip after a call; `none` where an exception leaves it.
abbrev pub Served : Type 0
Served = Option (List EventClip × EventClip)

abbrev pub and_update : (EventClip → EventClip) → Served → Served
and_update change none = none
and_update change (some (clips, c)) = update_status c.id change clips

unfoldable pub upload_and_finalize : Attempt → ℕ → Served → Served
unfolding update_status
upload_and_finalize a tenant_id = and_update (finalize tenant_id a.upload)

-- A file that was received is removed in each case.
abbrev pub receive_new : Attempt → ℕ → ℕ → List EventClip → Served
receive_new a event_id tenant_id clips =
    let created = new_clip a.new_id event_id (some tenant_id) a.now in
    let staged = update_status created.id to_staged (clips ++ created ∷ []) in
    if a.is_file
    then upload_and_finalize a tenant_id staged
    else and_update (to_failed ClipError.mp4_missing) staged

abbrev pub or_existing : List EventClip → Option EventClip → Served → Served
or_existing clips none fresh = fresh
or_existing clips (some c) fresh = some (clips, c)

unfoldable pub receive_pregenerated_clip : Attempt → ℕ → ℕ → List EventClip → Served
unfolding upload_and_finalize update_status
receive_pregenerated_clip a event_id tenant_id clips =
    or_existing clips (get_by_event event_id clips) (receive_new a event_id tenant_id clips)

abbrev pub generate_new : Attempt → ℕ → ℕ → Option ℕ → List EventClip → Served
generate_new a event_id tenant_id none clips =
    let created = new_clip a.new_id event_id none a.now in
    update_status created.id (to_failed ClipError.no_snapshot) (clips ++ created ∷ [])
generate_new a event_id tenant_id (some image_path) clips =
    let created = new_clip a.new_id event_id none a.now in
    let stored = clips ++ created ∷ [] in
    let staged = update_status created.id to_staged stored in
    if not a.is_file
    then update_status created.id (to_failed ClipError.snapshot_missing) stored
    else if not a.renders
    then and_update (to_failed ClipError.raised) staged
    else upload_and_finalize a tenant_id staged

unfoldable pub generate_and_upload : Attempt → ℕ → ℕ → Option ℕ → List EventClip → Served
unfolding upload_and_finalize update_status
generate_and_upload a event_id tenant_id image_path clips =
    or_existing clips (get_by_event event_id clips)
      (generate_new a event_id tenant_id image_path clips)

abbrev pub is_owned_by : ℕ → Option ℕ → Bool
is_owned_by tenant_id none = false
is_owned_by tenant_id (some t) = t == tenant_id

-- `StorageQuota.used_bytes`
unfoldable pub used_bytes : ℕ → List EventClip → ℕ
used_bytes tenant_id [] = 0
used_bytes tenant_id (c ∷ cs) =
    (if is_owned_by tenant_id c.tenant_id then c.size_bytes else 0) + used_bytes tenant_id cs

unfoldable pub has_room_for : ℕ → ℕ → ℕ → List EventClip → Bool
unfolding used_bytes
has_room_for tenant_id quota_mb incoming_bytes clips =
    if quota_mb == 0
    then true
    else leb (used_bytes tenant_id clips + incoming_bytes) (quota_mb * 1024 * 1024)

-- The answers of `upload_event_clip`.
pub data PutAnswer : Type 0 where
  not_found unprocessable too_large : PutAnswer
  server_error : PutAnswer
  ok : EventClip → PutAnswer

abbrev pub answer_served : List EventClip → Served → List EventClip × PutAnswer
answer_served clips none = (clips, PutAnswer.server_error)
answer_served clips (some (clips', c)) = (clips', PutAnswer.ok c)

-- An upload: the tenant of the key, the tenant of the event (`none` without an event), the length of
-- the content, and how the service fares; it writes the content to a file of that size.
pub record ClipUpload : Type 0 where
  pub tenant_id : ℕ
  pub event_id : ℕ
  pub event_tenant : Option ℕ
  pub content_length : ℕ
  pub new_id : ℕ
  pub now : ℕ
  pub url : Option ℕ

abbrev pub with_size : ℕ → Option ℕ → Option (ℕ × ℕ)
with_size size none = none
with_size size (some url) = some (size, url)

abbrev pub attempt_of : ClipUpload → Attempt
attempt_of u = record {
  new_id = u.new_id;
  now = u.now;
  is_file = true;
  renders = false;
  upload = with_size u.content_length u.url;
}

-- `upload_event_clip`, with the quota of the tenant's license.
unfoldable pub upload_event_clip : ℕ → ClipUpload → List EventClip → List EventClip × PutAnswer
unfolding has_room_for receive_pregenerated_clip
upload_event_clip quota_mb u clips =
    if not (is_owned_by u.tenant_id u.event_tenant)
    then (clips, PutAnswer.not_found)
    else if u.content_length == 0
    then (clips, PutAnswer.unprocessable)
    else if not (has_room_for u.tenant_id quota_mb u.content_length clips)
    then (clips, PutAnswer.too_large)
    else answer_served clips (receive_pregenerated_clip (attempt_of u) u.event_id u.tenant_id clips)
