-- ===== src/Api/EventClips/Tests.antt =====
-- Runs of the clips of api/src/vms/event_clips, and its theorems at them.
use next_sec.Prelude.{
  ℕ, ◌*◌, ◌≤◌, ◌≡◌, ◌⊎◌, refl, Bool, true, false, not, ◌&&◌, Option, none, some, List, [], ◌∷◌,
  arith, select,
}
use next_sec.Api.EventClips.{
  ClipError, EventClip, Attempt, new_clip, to_staged, to_failed, to_uploaded,
  receive_pregenerated_clip, generate_and_upload, ClipUpload, used_bytes, upload_event_clip,
}
use next_sec.Api.EventClips.Uploads.{
  ClipCall, OnePerEvent, Settled, run_calls, run_calls-OnePerEvent, receive_again,
  receive-failed_for_ever,
}
use next_sec.Api.EventClips.Quota.{run_uploads, run_uploads-within}
use next_sec.Api.EventClips.Retention.{
  ClipLicense, retention_by_tenant, longest_retention, is_older, is_uploaded, delete_object,
  cleanup_old_clips, cleanup-longest,
}
use next_sec.Api.EventClips.EdgeTask.{EdgeJob, Run, run_job}
use next_sec.Api.EventClips.Once.{AddedBy, run_job-once}

-- A clip of tenant 1, uploaded on day 0.
abbrev old_clip : EventClip
old_clip = to_uploaded 1 500 9 (new_clip 41 51 (some 1) 0)

-- Tenant 1 keeps its clips for seven days, and tenant 2 for ninety.
abbrev licenses : List ClipLicense
licenses =
    record { tenant_id = some 1; is_active = true; clip_retention_days = 7 }
    ∷ record { tenant_id = some 2; is_active = true; clip_retention_days = 90 }
    ∷ []

cleanup-longest_example :
    cleanup_old_clips (λ _. true) (30 * 86400) 30 licenses (old_clip ∷ [])
    ≡ select
        (λ c. not (
          (is_older (30 * 86400) (longest_retention 30 (retention_by_tenant licenses [])) c
            && is_uploaded c.status)
          && delete_object (λ _. true) c.storage_ref))
        (old_clip ∷ [])
cleanup-longest_example = cleanup-longest (λ _. true) (30 * 86400) 30 licenses (old_clip ∷ [])

-- On day 30 the clip is still there, and on day 91 it is not.
kept_too_long :
    cleanup_old_clips (λ _. true) (30 * 86400) 30 licenses (old_clip ∷ []) ≡ old_clip ∷ []
unfolding cleanup_old_clips
kept_too_long = refl

removed_at_last : cleanup_old_clips (λ _. true) (91 * 86400) 30 licenses (old_clip ∷ []) ≡ []
unfolding cleanup_old_clips
removed_at_last = refl

abbrev attempt : ℕ → Option (ℕ × ℕ) → Attempt
attempt new_id upload = record {
  new_id = new_id;
  now = 0;
  is_file = true;
  renders = true;
  upload = upload;
}

abbrev calls : List ClipCall
calls =
    ClipCall.receiving (attempt 1 none) 51 7
    ∷ ClipCall.generating (attempt 2 (some (300, 9))) 52 7 (some 6)
    ∷ ClipCall.receiving (attempt 3 (some (300, 9))) 51 7
    ∷ []

run_calls-OnePerEvent_example : OnePerEvent (run_calls calls []) × Settled (run_calls calls [])
unfolding receive_pregenerated_clip generate_and_upload
run_calls-OnePerEvent_example = run_calls-OnePerEvent calls [] (refl, (refl, (refl, tt))) tt tt

receive-failed_for_ever_example :
    receive_again
      (attempt 2 (some (300, 9)) ∷ attempt 3 (some (300, 9)) ∷ [])
      51
      7
      (receive_pregenerated_clip (attempt 1 none) 51 7 [])
    ≡ some (
      to_failed ClipError.raised (to_staged (new_clip 1 51 (some 7) 0)) ∷ [],
      to_failed ClipError.raised (to_staged (new_clip 1 51 (some 7) 0)),
    )
receive-failed_for_ever_example =
    receive-failed_for_ever (attempt 1 none)
      (attempt 2 (some (300, 9)) ∷ attempt 3 (some (300, 9)) ∷ []) 51 7 [] refl refl refl refl

abbrev upload : ℕ → ℕ → ClipUpload
upload event_id content_length = record {
  tenant_id = 7;
  event_id = event_id;
  event_tenant = some 7;
  content_length = content_length;
  new_id = event_id;
  now = 0;
  url = some 9;
}

-- The second upload would exceed the quota of one megabyte.
abbrev uploads : List ClipUpload
uploads = upload 51 900_000 ∷ upload 52 900_000 ∷ []

run_uploads-within_example : used_bytes 7 (run_uploads (λ _. 1) uploads []) ≤ 1 * 1024 * 1024
unfolding used_bytes upload_event_clip
run_uploads-within_example =
    run_uploads-within (λ _. 1) 7 uploads [] (omega arith) (refl, (refl, tt)) (omega arith)

second_refused : used_bytes 7 (run_uploads (λ _. 1) uploads []) ≡ 900_000
unfolding used_bytes upload_event_clip
second_refused = refl

abbrev job : EdgeJob
job = record { tenant_id = 7; event_id = 51; event_tenant = some 7; quota_mb = 0 }

abbrev run : Bool → Bool → ℕ → Run
run arrives answer_lost new_id = record {
  local_mp4 = some 4;
  content_length = 300;
  arrives = arrives;
  answer_lost = answer_lost;
  new_id = new_id;
  now = 0;
  url = some 9;
}

-- The first request is lost, and so is the answer to the second.
abbrev runs : List Run
runs = run false true 1 ∷ run true true 2 ∷ run true false 3 ∷ []

run_job-once_example : (run_job 1 job runs [] ≡ []) ⊎ AddedBy job runs [] (run_job 1 job runs [])
run_job-once_example = run_job-once job 1 runs [] (refl, (refl, (refl, tt))) refl

second_kept :
    run_job 1 job runs [] ≡ to_uploaded 7 300 9 (to_staged (new_clip 2 51 (some 7) 0)) ∷ []
unfolding run_job
second_kept = refl
