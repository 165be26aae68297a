-- ===== src/Api/EventClips/Rows.antt =====
-- What EventClipService of api/src/vms/event_clips/service.py makes of a new row.
use next_sec.Prelude.{
  ℕ, ◌≡◌, refl, sym, ap, Bool, true, false, not, Option, none, some, List, [], ◌∷◌, ◌++◌, arith,
  ◌==◌, if◌then◌else◌,
}
use next_sec.Api.EventClips.{
  ClipError, EventClip, Attempt, get_by_event, get_by_id, put_clip, update_status, new_clip,
  to_staged, to_failed, finalize, upload_and_finalize, receive_new, or_existing,
  receive_pregenerated_clip, generate_new, generate_and_upload, is_owned_by, has_room_for,
  PutAnswer, ClipUpload, attempt_of, answer_served, upload_event_clip,
}

-- The row that a call with a received file leaves.
abbrev pub received : Attempt → ℕ → ℕ → EventClip
received a event_id tenant_id =
    let staged = to_staged (new_clip a.new_id event_id (some tenant_id) a.now) in
    if a.is_file then finalize tenant_id a.upload staged else to_failed ClipError.mp4_missing staged

get_by_id-append :
    (c : EventClip) (clips : List EventClip)
    → get_by_id c.id clips ≡ none
    → get_by_id c.id (clips ++ c ∷ []) ≡ some c
get_by_id-append c [] h = ground arith
get_by_id-append c (x ∷ xs) h = ground (arith, get_by_id-append c xs)

put_clip-append :
    (new c : EventClip) (clips : List EventClip)
    → c.id ≡ new.id
    → get_by_id new.id clips ≡ none
    → put_clip new (clips ++ c ∷ []) ≡ clips ++ new ∷ []
put_clip-append new c [] e h = ground arith
put_clip-append new c (x ∷ xs) e h = ground (arith, put_clip-append new c xs e)

update_status-append :
    (change : EventClip → EventClip) (c : EventClip) (clips : List EventClip)
    → (change c).id ≡ c.id
    → get_by_id c.id clips ≡ none
    → update_status c.id change (clips ++ c ∷ []) ≡ some (clips ++ change c ∷ [], change c)
unfolding update_status
update_status-append change c clips e h =
    rw (get_by_id-append c clips h) (rw (put_clip-append (change c) c clips (sym e) (rw e h)) refl)

finalize-id :
    (tenant_id : ℕ) (u : Option (ℕ × ℕ)) (c : EventClip) → (finalize tenant_id u c).id ≡ c.id
finalize-id tenant_id none c = refl
finalize-id tenant_id (some (size, url)) c = refl

-- With a new id nothing raises, and the new row is the only one that changes.
pub receive_new_lem :
    (a : Attempt) (event_id tenant_id : ℕ) (clips : List EventClip)
    → get_by_id a.new_id clips ≡ none
    → receive_new a event_id tenant_id clips
      ≡ some (clips ++ received a event_id tenant_id ∷ [], received a event_id tenant_id)
unfolding upload_and_finalize
receive_new_lem a event_id tenant_id clips h =
    let created = new_clip a.new_id event_id (some tenant_id) a.now in
    let staged = to_staged created in
    let failure = to_failed ClipError.mp4_missing in
    ground (
      arith,
      update_status-append to_staged created clips refl h,
      update_status-append (finalize tenant_id a.upload) staged clips
          (finalize-id tenant_id a.upload staged) h,
      update_status-append failure staged clips refl h,
    )

pub receive_lem :
    (a : Attempt) (event_id tenant_id : ℕ) (clips : List EventClip)
    → get_by_id a.new_id clips ≡ none
    → receive_pregenerated_clip a event_id tenant_id clips
      ≡ or_existing clips
          (get_by_event event_id clips)
          (some (clips ++ received a event_id tenant_id ∷ [], received a event_id tenant_id))
unfolding receive_pregenerated_clip
receive_lem a event_id tenant_id clips h =
    ap (or_existing clips (get_by_event event_id clips))
      (receive_new_lem a event_id tenant_id clips h)

-- The row that a call with a snapshot leaves.
abbrev pub generated : Attempt → ℕ → ℕ → Option ℕ → EventClip
generated a event_id tenant_id none =
    to_failed ClipError.no_snapshot (new_clip a.new_id event_id none a.now)
generated a event_id tenant_id (some _) =
    let created = new_clip a.new_id event_id none a.now in
    if not a.is_file
    then to_failed ClipError.snapshot_missing created
    else if not a.renders
    then to_failed ClipError.raised (to_staged created)
    else finalize tenant_id a.upload (to_staged created)

generate_new_lem :
    (a : Attempt) (event_id tenant_id : ℕ) (image_path : Option ℕ) (clips : List EventClip)
    → get_by_id a.new_id clips ≡ none
    → generate_new a event_id tenant_id image_path clips
      ≡ some (
        clips ++ generated a event_id tenant_id image_path ∷ [],
        generated a event_id tenant_id image_path,
      )
generate_new_lem a event_id tenant_id none clips h =
    update_status-append (to_failed ClipError.no_snapshot) (new_clip a.new_id event_id none a.now)
      clips refl h
generate_new_lem a event_id tenant_id (some path) clips h =
    let created = new_clip a.new_id event_id none a.now in
    let staged = to_staged created in
    let missing = to_failed ClipError.snapshot_missing in
    let raised = to_failed ClipError.raised in
    unfold upload_and_finalize in
    ground (
      arith,
      update_status-append missing created clips refl h,
      update_status-append to_staged created clips refl h,
      update_status-append raised staged clips refl h,
      update_status-append (finalize tenant_id a.upload) staged clips
          (finalize-id tenant_id a.upload staged) h,
    )

pub generate_lem :
    (a : Attempt) (event_id tenant_id : ℕ) (image_path : Option ℕ) (clips : List EventClip)
    → get_by_id a.new_id clips ≡ none
    → generate_and_upload a event_id tenant_id image_path clips
      ≡ or_existing clips (get_by_event event_id clips) (
          some (
            clips ++ generated a event_id tenant_id image_path ∷ [],
            generated a event_id tenant_id image_path,
          ))
unfolding generate_and_upload
generate_lem a event_id tenant_id image_path clips h =
    ap (or_existing clips (get_by_event event_id clips))
      (generate_new_lem a event_id tenant_id image_path clips h)

-- Every refusal leaves the rows as they are.
refused_or :
    (P : List EventClip → Type 0) (clips : List EventClip) (owned empty room : Bool)
    (served : List EventClip × PutAnswer)
    → P clips
    → (room ≡ true → P served.0)
    → P
        (if not owned
          then (clips, PutAnswer.not_found)
          else if empty
          then (clips, PutAnswer.unprocessable)
          else if not room
          then (clips, PutAnswer.too_large)
          else served).0
refused_or P clips false empty room served h k = h
refused_or P clips true true room served h k = h
refused_or P clips true false false served h k = h
refused_or P clips true false true served h k = k refl

-- An upload leaves the rows as they are, or as the service does where there is room.
pub upload_cases :
    (P : List EventClip → Type 0) (quota_mb : ℕ) (u : ClipUpload) (clips : List EventClip)
    → P clips
    → (has_room_for u.tenant_id quota_mb u.content_length clips ≡ true
        → P
            (answer_served clips
              (receive_pregenerated_clip (attempt_of u) u.event_id u.tenant_id clips)).0)
    → P (upload_event_clip quota_mb u clips).0
unfolding upload_event_clip
upload_cases P quota_mb u clips h k =
    refused_or P clips (is_owned_by u.tenant_id u.event_tenant) (u.content_length == 0)
      (has_room_for u.tenant_id quota_mb u.content_length clips)
      (answer_served clips (receive_pregenerated_clip (attempt_of u) u.event_id u.tenant_id clips))
      h k
