-- ===== src/Api/EventClips/Uploads.antt =====
-- The clip of an event over many calls of EventClipService (api/src/vms/event_clips/service.py).
use next_sec.Prelude.{
  ℕ, ◌≡◌, refl, ◌∙◌, ap, Bool, true, false, Option, none, some, List, [], ◌∷◌, ◌++◌, arith, ◌==◌,
  Option-cases, inl, inr,
}
use next_sec.Api.EventClips.{
  ClipStatus, ClipError, EventClip, Attempt, get_by_event, get_by_id, new_clip, to_staged,
  to_failed, finalize, Served, or_existing, receive_pregenerated_clip, generate_and_upload,
}
use next_sec.Api.EventClips.Rows.{received, generated, receive_lem, generate_lem}

-- A call of the service for an event: with a received file, or to generate the clip.
pub data ClipCall : Type 0 where
  receiving : Attempt → ℕ → ℕ → ClipCall
  generating : Attempt → ℕ → ℕ → Option ℕ → ClipCall

abbrev pub serve : ClipCall → List EventClip → Served
serve (ClipCall.receiving a event_id tenant_id) clips =
    receive_pregenerated_clip a event_id tenant_id clips
serve (ClipCall.generating a event_id tenant_id image_path) clips =
    generate_and_upload a event_id tenant_id image_path clips

-- The rows after a call; one that raises has committed none that it changed.
abbrev pub rows_after : List EventClip → Served → List EventClip
rows_after clips none = clips
rows_after clips (some (clips', _)) = clips'

abbrev pub new_id_of : ClipCall → ℕ
new_id_of (ClipCall.receiving a _ _) = a.new_id
new_id_of (ClipCall.generating a _ _ _) = a.new_id

-- Every call meets a new id.
abbrev pub NewIds : List ClipCall → List EventClip → Type 0
NewIds [] clips = Unit
NewIds (c ∷ cs) clips =
    (get_by_id (new_id_of c) clips ≡ none) × NewIds cs (rows_after clips (serve c clips))

abbrev pub run_calls : List ClipCall → List EventClip → List EventClip
run_calls [] clips = clips
run_calls (c ∷ cs) clips = run_calls cs (rows_after clips (serve c clips))

-- No event has two clips.
abbrev pub OnePerEvent : List EventClip → Type 0
OnePerEvent [] = Unit
OnePerEvent (c ∷ cs) = (get_by_event c.vms_event_id cs ≡ none) × OnePerEvent cs

abbrev is_final : ClipStatus → Bool
is_final ClipStatus.uploaded = true
is_final ClipStatus.failed = true
is_final _ = false

-- Every clip has come to its end.
abbrev pub Settled : List EventClip → Type 0
Settled [] = Unit
Settled (c ∷ cs) = (is_final c.status ≡ true) × Settled cs

get_by_event-append :
    (event_id : ℕ) (clips : List EventClip) (c : EventClip)
    → get_by_event event_id clips ≡ none
    → (c.vms_event_id == event_id) ≡ false
    → get_by_event event_id (clips ++ c ∷ []) ≡ none
get_by_event-append event_id [] c h e = ground arith
get_by_event-append event_id (x ∷ xs) c h e = ground (arith, get_by_event-append event_id xs c)

OnePerEvent-append :
    (clips : List EventClip) (c : EventClip)
    → OnePerEvent clips
    → get_by_event c.vms_event_id clips ≡ none
    → OnePerEvent (clips ++ c ∷ [])
OnePerEvent-append [] c h e = (refl, tt)
OnePerEvent-append (x ∷ xs) c h e = (
  get_by_event-append x.vms_event_id xs c h.0 (ground arith),
  OnePerEvent-append xs c h.1 (ground arith),
)

Settled-append :
    (clips : List EventClip) (c : EventClip)
    → Settled clips
    → is_final c.status ≡ true
    → Settled (clips ++ c ∷ [])
Settled-append [] c h e = (e, tt)
Settled-append (x ∷ xs) c h e = (h.0, Settled-append xs c h.1 e)

finalize_facts :
    (tenant_id : ℕ) (u : Option (ℕ × ℕ)) (c : EventClip)
    → ((finalize tenant_id u c).vms_event_id ≡ c.vms_event_id)
      × (is_final (finalize tenant_id u c).status ≡ true)
finalize_facts tenant_id none c = (refl, refl)
finalize_facts tenant_id (some (size, url)) c = (refl, refl)

pub received_facts :
    (a : Attempt) (event_id tenant_id : ℕ)
    → ((received a event_id tenant_id).vms_event_id ≡ event_id)
      × (is_final (received a event_id tenant_id).status ≡ true)
received_facts a event_id tenant_id =
    let staged = to_staged (new_clip a.new_id event_id (some tenant_id) a.now) in
    ground (arith, finalize_facts tenant_id a.upload staged)

generated_facts :
    (a : Attempt) (event_id tenant_id : ℕ) (image_path : Option ℕ)
    → ((generated a event_id tenant_id image_path).vms_event_id ≡ event_id)
      × (is_final (generated a event_id tenant_id image_path).status ≡ true)
generated_facts a event_id tenant_id none = (refl, refl)
generated_facts a event_id tenant_id (some path) =
    let staged = to_staged (new_clip a.new_id event_id none a.now) in
    ground (arith, finalize_facts tenant_id a.upload staged)

abbrev Good : List EventClip → Type 0
Good clips = OnePerEvent clips × Settled clips

-- A row that is added for an event without a clip.
added-Good :
    (event_id : ℕ) (clips : List EventClip) (r : EventClip)
    → Good clips
    → (r.vms_event_id ≡ event_id) × (is_final r.status ≡ true)
    → Good (
        rows_after clips
          (or_existing clips (get_by_event event_id clips) (some (clips ++ r ∷ [], r))))
added-Good event_id clips r h f = elim (Option-cases (get_by_event event_id clips)) [
  | inl new ↦ rw new (OnePerEvent-append clips r h.0 (rw f.0 new), Settled-append clips r h.1 f.1)
  | inr (c, old) ↦ rw old h
]

serve-Good :
    (c : ClipCall) (clips : List EventClip)
    → get_by_id (new_id_of c) clips ≡ none
    → Good clips
    → Good (rows_after clips (serve c clips))
serve-Good (ClipCall.receiving a event_id tenant_id) clips n h =
    rw (receive_lem a event_id tenant_id clips n)
      (added-Good event_id clips _ h (received_facts a event_id tenant_id))
serve-Good (ClipCall.generating a event_id tenant_id image_path) clips n h =
    rw (generate_lem a event_id tenant_id image_path clips n)
      (added-Good event_id clips _ h (generated_facts a event_id tenant_id image_path))

-- Whatever calls of both kinds come, in whatever order, an event has at most one clip, and no clip is left
-- pending or staged: each is uploaded or has failed when its call ends. The ids of new rows are new.
pub run_calls-OnePerEvent :
    (cs : List ClipCall) (clips : List EventClip)
    → NewIds cs clips
    → OnePerEvent clips
    → Settled clips
    → OnePerEvent (run_calls cs clips) × Settled (run_calls cs clips)
run_calls-OnePerEvent [] clips n h s = (h, s)
run_calls-OnePerEvent (c ∷ cs) clips n h s =
    let good = serve-Good c clips n.0 (h, s) in
    run_calls-OnePerEvent cs (rows_after clips (serve c clips)) n.1 good.0 good.1

-- What is received for one event, call after call; the last answer.
abbrev pub receive_again : List Attempt → ℕ → ℕ → Served → Served
receive_again [] event_id tenant_id s = s
receive_again (b ∷ bs) event_id tenant_id none = none
receive_again (b ∷ bs) event_id tenant_id (some (clips, _)) =
    receive_again bs event_id tenant_id (receive_pregenerated_clip b event_id tenant_id clips)

pub receive-existing :
    (b : Attempt) (event_id tenant_id : ℕ) (clips : List EventClip) (c : EventClip)
    → get_by_event event_id clips ≡ some c
    → receive_pregenerated_clip b event_id tenant_id clips ≡ some (clips, c)
unfolding receive_pregenerated_clip
receive-existing b event_id tenant_id clips c h = rw h refl

existing_stays :
    (bs : List Attempt) (event_id tenant_id : ℕ) (clips : List EventClip) (c : EventClip)
    → get_by_event event_id clips ≡ some c
    → receive_again bs event_id tenant_id (some (clips, c)) ≡ some (clips, c)
existing_stays [] event_id tenant_id clips c h = refl
existing_stays (b ∷ bs) event_id tenant_id clips c h =
    ap (receive_again bs event_id tenant_id) (receive-existing b event_id tenant_id clips c h)
    ∙ existing_stays bs event_id tenant_id clips c h

pub get_by_event-added :
    (event_id : ℕ) (clips : List EventClip) (c : EventClip)
    → get_by_event event_id clips ≡ none
    → c.vms_event_id ≡ event_id
    → get_by_event event_id (clips ++ c ∷ []) ≡ some c
get_by_event-added event_id [] c h e = ground arith
get_by_event-added event_id (x ∷ xs) c h e = ground (arith, get_by_event-added event_id xs c)

-- Where the storage refuses the first clip that is received for an event, the event never gets one: every
-- later call answers the failed clip, changes no row and stores nothing, whatever the storage
-- would do by then.
pub receive-failed_for_ever :
    (a : Attempt) (bs : List Attempt) (event_id tenant_id : ℕ) (clips : List EventClip)
    → get_by_id a.new_id clips ≡ none
    → get_by_event event_id clips ≡ none
    → a.is_file ≡ true
    → a.upload ≡ none
    → let failed =
        to_failed ClipError.raised
          (to_staged (new_clip a.new_id event_id (some tenant_id) a.now)) in
      receive_again bs event_id tenant_id (receive_pregenerated_clip a event_id tenant_id clips)
      ≡ some (clips ++ failed ∷ [], failed)
receive-failed_for_ever a bs event_id tenant_id clips n e file fails =
    let failed =
      to_failed ClipError.raised (to_staged (new_clip a.new_id event_id (some tenant_id) a.now)) in
    let first : receive_pregenerated_clip a event_id tenant_id clips
        ≡ some (clips ++ failed ∷ [], failed) =
      receive_lem a event_id tenant_id clips n ∙ rw (e, file, fails) refl in
    rw first (
      existing_stays bs event_id tenant_id (clips ++ failed ∷ []) failed
        (get_by_event-added event_id clips failed e refl))
