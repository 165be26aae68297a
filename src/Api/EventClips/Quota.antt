-- ===== src/Api/EventClips/Quota.antt =====
-- The storage that the clips of a tenant take, against StorageQuota of api/src/vms/edge/service.py and the
-- upload of api/src/vms/edge/router.py.
use next_sec.Prelude.{
  ℕ, ◌+◌, ◌*◌, ◌≤◌, ◌≡◌, ◌≢◌, true, Option, none, some, List, [], ◌∷◌, ◌++◌, arith, ◌==◌,
  if◌then◌else◌, Option-cases, inl, inr, Bool-cases, ==_iff,
}
use mathlib.Core.Path.{subst}
use next_sec.Api.EventClips.{
  EventClip, get_by_event, get_by_id, is_owned_by, used_bytes, has_room_for, ClipUpload, attempt_of,
  answer_served, receive_pregenerated_clip, upload_event_clip,
}
use next_sec.Api.EventClips.Rows.{received, receive_lem, upload_cases}

-- The quotas of the tenants, in megabytes.
abbrev pub run_uploads : (ℕ → ℕ) → List ClipUpload → List EventClip → List EventClip
run_uploads quota_mb [] clips = clips
run_uploads quota_mb (u ∷ us) clips =
    run_uploads quota_mb us (upload_event_clip (quota_mb u.tenant_id) u clips).0

-- Every upload meets a new id.
abbrev pub NewUploads : (ℕ → ℕ) → List ClipUpload → List EventClip → Type 0
NewUploads quota_mb [] clips = Unit
NewUploads quota_mb (u ∷ us) clips =
    (get_by_id u.new_id clips ≡ none)
    × NewUploads quota_mb us (upload_event_clip (quota_mb u.tenant_id) u clips).0

abbrev owned_size : ℕ → EventClip → ℕ
owned_size tenant_id c = if is_owned_by tenant_id c.tenant_id then c.size_bytes else 0

used-append :
    (tenant_id : ℕ) (clips : List EventClip) (c : EventClip)
    → used_bytes tenant_id (clips ++ c ∷ []) ≡ used_bytes tenant_id clips + owned_size tenant_id c
unfolding used_bytes
used-append tenant_id [] c = omega arith
used-append tenant_id (x ∷ xs) c = omega (arith, used-append tenant_id xs c)

-- The new row takes at most what was asked for, of the uploader's storage only.
received_size :
    (u : ClipUpload) (tenant_id : ℕ)
    → owned_size tenant_id (received (attempt_of u) u.event_id u.tenant_id)
      ≤ (if u.tenant_id == tenant_id then u.content_length else 0)
received_size u tenant_id = received_by u.url
  where
    received_by :
        (url : Option ℕ)
        → owned_size tenant_id
            (received (attempt_of (record u { url = url })) u.event_id u.tenant_id)
          ≤ (if u.tenant_id == tenant_id then u.content_length else 0)
    received_by none = ground arith
    received_by (some url) = ground arith

received_within :
    (tenant_id limit : ℕ) (u : ClipUpload) (clips : List EventClip)
    → get_by_id u.new_id clips ≡ none
    → used_bytes tenant_id clips + (if u.tenant_id == tenant_id then u.content_length else 0)
      ≤ limit
    → used_bytes tenant_id
        (answer_served clips
          (receive_pregenerated_clip (attempt_of u) u.event_id u.tenant_id clips)).0
      ≤ limit
received_within tenant_id limit u clips n room =
    let r = received (attempt_of u) u.event_id u.tenant_id in
    rw (receive_lem (attempt_of u) u.event_id u.tenant_id clips n)
      (elim (Option-cases (get_by_event u.event_id clips)) [
        | inl new ↦ rw new (omega (arith, used-append tenant_id clips r, received_size u tenant_id))
        | inr (c, old) ↦ rw old (omega arith)
      ])

room_left :
    (quota_mb incoming limit tenant_id : ℕ) (clips : List EventClip)
    → used_bytes tenant_id clips ≤ limit
    → quota_mb ≢ 0
    → quota_mb * 1024 * 1024 ≤ limit
    → has_room_for tenant_id quota_mb incoming clips ≡ true
    → used_bytes tenant_id clips + incoming ≤ limit
unfolding has_room_for
room_left quota_mb incoming limit tenant_id clips h some_quota below room = ground arith

module _ (quota_mb : ℕ → ℕ) (tenant_id : ℕ) where
  abbrev limit : ℕ
  limit = quota_mb tenant_id * 1024 * 1024

  upload_room :
      (u : ClipUpload) (clips : List EventClip)
      → quota_mb tenant_id ≢ 0
      → used_bytes tenant_id clips ≤ limit
      → has_room_for u.tenant_id (quota_mb u.tenant_id) u.content_length clips ≡ true
      → used_bytes tenant_id clips + (if u.tenant_id == tenant_id then u.content_length else 0)
        ≤ limit
  upload_room u clips some_quota h room = elim (Bool-cases (u.tenant_id == tenant_id)) [
    | inl same ↦
        let e = (==_iff u.tenant_id tenant_id).0 same in
        rw same (
          room_left (quota_mb tenant_id) u.content_length limit tenant_id clips h some_quota
            (omega arith)
            (subst (λ t. has_room_for t (quota_mb t) u.content_length clips ≡ true) e room))
    | inr other ↦ rw other (omega arith)
  ]

  upload_within :
      (u : ClipUpload) (clips : List EventClip)
      → quota_mb tenant_id ≢ 0
      → get_by_id u.new_id clips ≡ none
      → used_bytes tenant_id clips ≤ limit
      → used_bytes tenant_id (upload_event_clip (quota_mb u.tenant_id) u clips).0 ≤ limit
  upload_within u clips some_quota n h =
      upload_cases (λ rows. used_bytes tenant_id rows ≤ limit) (quota_mb u.tenant_id) u clips h
        (λ room. received_within tenant_id limit u clips n (upload_room u clips some_quota h room))

  -- Through any row of uploads by any tenants, the clips of a tenant whose license has a quota never take
  -- more than that quota, if they did not before: what is refused, for whatever reason, and what is
  -- received for an event that has a clip takes nothing. The uploads come one after the other, and
  -- the ids of new rows are new.
  pub run_uploads-within :
      (us : List ClipUpload) (clips : List EventClip)
      → quota_mb tenant_id ≢ 0
      → NewUploads quota_mb us clips
      → used_bytes tenant_id clips ≤ quota_mb tenant_id * 1024 * 1024
      → used_bytes tenant_id (run_uploads quota_mb us clips) ≤ quota_mb tenant_id * 1024 * 1024
  run_uploads-within [] clips some_quota n h = h
  run_uploads-within (u ∷ us) clips some_quota n h =
      run_uploads-within us (upload_event_clip (quota_mb u.tenant_id) u clips).0 some_quota n.1
        (upload_within u clips some_quota n.0 h)
