-- ===== src/Api/EventClips/EdgeTask.antt =====
-- The task of the edge that makes and sends the clip of an event: api/src/vms/event_clips/edge_tasks.py,
-- with the endpoint that it sends to. ffmpeg, the disk and the network answer through arguments.
use next_sec.Prelude.{
  ℕ, ◌+◌, ◌-◌, ◌*◌, ◌^◌, min, Bool, ◌&&◌, Option, none, some, List, [], ◌∷◌, ltb, leb, ◌==◌,
  if◌then◌else◌,
}
use next_sec.Prelude.Int.{ℤ, pos, negsuc}
use next_sec.Api.EventClips.{EventClip, ClipUpload, PutAnswer, upload_event_clip}

unfoldable pub backoff_seconds : ℕ → ℕ
backoff_seconds job_try = min (5 * 2 ^ (job_try - 1)) 300

-- The wait before the recording is cut: until the clip's window and three more seconds have passed. A
-- clock that runs behind the event's time waits no longer than that.
unfoldable pub sleep_seconds : ℕ → ℤ → ℕ
sleep_seconds duration (pos elapsed) = duration + 3 - elapsed
sleep_seconds duration (negsuc _) = duration + 3

-- What `cut_clip_from_recording` gives: a file, nothing, or an exception.
pub data Cut : Type 0 where
  clip : ℕ → Cut
  no_recording raises : Cut

abbrev pub freeze_frame : Bool → Option ℕ → Option ℕ
freeze_frame has_snapshot rendered = if has_snapshot then rendered else none

-- `_build_clip`: `can_cut` is whether there are a path and a time, and the time can be read;
-- `rendered` is the file of the freeze frame, or `none` where ffmpeg raises.
unfoldable pub build_clip : Bool → Cut → Bool → Option ℕ → Option ℕ
build_clip can_cut (Cut.clip mp4) has_snapshot rendered =
    if can_cut then some mp4 else freeze_frame has_snapshot rendered
build_clip can_cut Cut.no_recording has_snapshot rendered = freeze_frame has_snapshot rendered
build_clip can_cut Cut.raises has_snapshot rendered = freeze_frame has_snapshot rendered

-- How the PUT ends, and how the task does: it returns, or asks to be run again after a while.
pub data PutResult : Type 0 where
  status : ℕ → PutResult
  network_error : PutResult

pub data TaskEnd : Type 0 where
  sent no_clip gave_up : TaskEnd
  retry : ℕ → TaskEnd

-- `raise_for_status`, and the handlers.
unfoldable pub after_put : ℕ → PutResult → TaskEnd
unfolding backoff_seconds
after_put job_try (PutResult.status code) =
    if leb 200 code && ltb code 300
    then TaskEnd.sent
    else if code == 413
    then TaskEnd.gave_up
    else if leb 400 code && ltb code 500
    then TaskEnd.gave_up
    else TaskEnd.retry (backoff_seconds job_try)
after_put job_try PutResult.network_error = TaskEnd.retry (backoff_seconds job_try)

abbrev pub status_of : PutAnswer → ℕ
status_of PutAnswer.not_found = 404
status_of PutAnswer.unprocessable = 422
status_of PutAnswer.too_large = 413
status_of PutAnswer.server_error = 500
status_of (PutAnswer.ok _) = 200

-- A job: the event, with the quota of the tenant.
pub record EdgeJob : Type 0 where
  pub tenant_id : ℕ
  pub event_id : ℕ
  pub event_tenant : Option ℕ
  pub quota_mb : ℕ

-- A run of the task, which makes the file anew: the file if there is one, its size, whether the request arrives, whether the answer comes
-- back, and what the server meets.
pub record Run : Type 0 where
  pub local_mp4 : Option ℕ
  pub content_length : ℕ
  pub arrives : Bool
  pub answer_lost : Bool
  pub new_id : ℕ
  pub now : ℕ
  pub url : Option ℕ

abbrev pub upload_of : EdgeJob → Run → ClipUpload
upload_of j r = record {
  tenant_id = j.tenant_id;
  event_id = j.event_id;
  event_tenant = j.event_tenant;
  content_length = r.content_length;
  new_id = r.new_id;
  now = r.now;
  url = r.url;
}

abbrev pub answer_of : ℕ → Bool → List EventClip × PutAnswer → List EventClip × TaskEnd
answer_of job_try lost (clips, answer) = (
  clips,
  after_put job_try (if lost then PutResult.network_error else PutResult.status (status_of answer)),
)

-- `task_render_and_upload_edge_clip`, with what it changes on the server.
abbrev pub run_with : ℕ → EdgeJob → Run → List EventClip → Option ℕ → List EventClip × TaskEnd
run_with job_try j r clips none = (clips, TaskEnd.no_clip)
run_with job_try j r clips (some mp4) =
    if r.arrives
    then answer_of job_try r.answer_lost (upload_event_clip j.quota_mb (upload_of j r) clips)
    else (clips, after_put job_try PutResult.network_error)

unfoldable pub render_and_upload : ℕ → EdgeJob → Run → List EventClip → List EventClip × TaskEnd
unfolding upload_event_clip after_put
render_and_upload job_try j r clips = run_with job_try j r clips r.local_mp4

abbrev pub again : (List EventClip → List EventClip) → List EventClip × TaskEnd → List EventClip
again rest (clips, TaskEnd.retry _) = rest clips
again rest (clips, _) = clips

-- The runs of a job, as long as it asks for another one: the rows of the server at the end.
unfoldable pub run_job : ℕ → EdgeJob → List Run → List EventClip → List EventClip
unfolding render_and_upload
run_job job_try j [] clips = clips
run_job job_try j (r ∷ rs) clips =
    again (run_job (job_try + 1) j rs) (render_and_upload job_try j r clips)
