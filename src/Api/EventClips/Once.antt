-- ===== src/Api/EventClips/Once.antt =====
-- A clip that is sent again and again by api/src/vms/event_clips/edge_tasks.py, and what the server keeps.
use next_sec.Prelude.{
  ℕ, ◌+◌, ◌≡◌, refl, ◌∙◌, ap, true, Option, none, some, List, [], ◌∷◌, ◌++◌, inl, inr, ◌⊎◌,
  Bool-cases, All,
}
use next_sec.Api.EventClips.{
  EventClip, get_by_event, get_by_id, or_existing, attempt_of, answer_served, upload_event_clip,
}
use next_sec.Api.EventClips.Rows.{received, receive_lem, upload_cases}
use next_sec.Api.EventClips.Uploads.{receive-existing, get_by_event-added, received_facts}
use next_sec.Api.EventClips.EdgeTask.{
  TaskEnd, EdgeJob, Run, upload_of, run_with, render_and_upload, again, run_job,
}

-- How the rows after may differ from those before: not at all, or by one clip of the event, as the server
-- makes it of one of the runs.
abbrev pub row_of : EdgeJob → Run → EventClip
row_of j r = received (attempt_of (upload_of j r)) j.event_id j.tenant_id

abbrev pub AddedBy : EdgeJob → List Run → List EventClip → List EventClip → Type 0
AddedBy j [] clips after = ⊥
AddedBy j (r ∷ rs) clips after =
    ((r.arrives ≡ true) × (after ≡ clips ++ row_of j r ∷ [])) ⊎ AddedBy j rs clips after

module _ (j : EdgeJob) where
  existing_kept :
      (r : Run) (clips : List EventClip) (c : EventClip)
      → get_by_event j.event_id clips ≡ some c
      → (upload_event_clip j.quota_mb (upload_of j r) clips).0 ≡ clips
  existing_kept r clips c h =
      upload_cases (λ rows. rows ≡ clips) j.quota_mb (upload_of j r) clips refl
        (λ _.
          ap (λ s. (answer_served clips s).0)
            (receive-existing (attempt_of (upload_of j r)) j.event_id j.tenant_id clips c h))

  upload_adds :
      (r : Run) (clips : List EventClip)
      → get_by_id r.new_id clips ≡ none
      → get_by_event j.event_id clips ≡ none
      → ((upload_event_clip j.quota_mb (upload_of j r) clips).0 ≡ clips)
        ⊎ ((upload_event_clip j.quota_mb (upload_of j r) clips).0 ≡ clips ++ row_of j r ∷ [])
  upload_adds r clips n e =
      upload_cases (λ rows. (rows ≡ clips) ⊎ (rows ≡ clips ++ row_of j r ∷ [])) j.quota_mb
        (upload_of j r) clips (inl refl)
        (λ _. inr (
          ap (λ s. (answer_served clips s).0)
            (receive_lem (attempt_of (upload_of j r)) j.event_id j.tenant_id clips n
              ∙ ap (λ old. or_existing clips old (some (clips ++ row_of j r ∷ [], row_of j r))) e)))

  again_cases :
      (rest : List EventClip → List EventClip) (end : List EventClip × TaskEnd)
      → (again rest end ≡ rest end.0) ⊎ (again rest end ≡ end.0)
  again_cases rest (clips, TaskEnd.sent) = inr refl
  again_cases rest (clips, TaskEnd.no_clip) = inr refl
  again_cases rest (clips, TaskEnd.gave_up) = inr refl
  again_cases rest (clips, TaskEnd.retry _) = inl refl

  file_cases :
      (P : List EventClip → Type 0) (job_try : ℕ) (r : Run) (clips : List EventClip)
      (mp4 : Option ℕ)
      → P clips
      → (r.arrives ≡ true → P (upload_event_clip j.quota_mb (upload_of j r) clips).0)
      → P (run_with job_try j r clips mp4).0
  file_cases P job_try r clips none h k = h
  file_cases P job_try r clips (some mp4) h k = elim (Bool-cases r.arrives) [
    | inl arrived ↦ rw arrived (k arrived)
    | inr lost ↦ rw lost h
  ]

  run_cases :
      (P : List EventClip → Type 0) (job_try : ℕ) (r : Run) (clips : List EventClip)
      → P clips
      → (r.arrives ≡ true → P (upload_event_clip j.quota_mb (upload_of j r) clips).0)
      → P (render_and_upload job_try j r clips).0
  unfolding render_and_upload
  run_cases P job_try r clips h k = file_cases P job_try r clips r.local_mp4 h k

  -- Once the event has a clip nothing that the job sends changes a row.
  job_kept :
      (job_try : ℕ) (rs : List Run) (clips : List EventClip) (c : EventClip)
      → get_by_event j.event_id clips ≡ some c
      → run_job job_try j rs clips ≡ clips
  unfolding run_job
  job_kept job_try [] clips c h = refl
  job_kept job_try (r ∷ rs) clips c h =
      let same : (render_and_upload job_try j r clips).0 ≡ clips =
        run_cases (λ rows. rows ≡ clips) job_try r clips refl (λ _. existing_kept r clips c h) in
      elim (again_cases (run_job (job_try + 1) j rs) (render_and_upload job_try j r clips)) [
        | inl more ↦
            more ∙ ap (run_job (job_try + 1) j rs) same ∙ job_kept (job_try + 1) rs clips c h
        | inr stop ↦ stop ∙ same
      ]

  -- However often a job is run for an event without a clip, whatever requests or answers are lost on
  -- the way and whatever the runs make, the server ends with the rows that it had or with one row
  -- more: the clip of the event, as one of the runs whose request arrived sent it. The ids of new
  -- rows are new.
  pub run_job-once :
      (job_try : ℕ) (rs : List Run) (clips : List EventClip)
      → All (λ r. get_by_id r.new_id clips ≡ none) rs
      → get_by_event j.event_id clips ≡ none
      → (run_job job_try j rs clips ≡ clips) ⊎ AddedBy j rs clips (run_job job_try j rs clips)
  unfolding run_job
  run_job-once job_try [] clips n e = inl refl
  run_job-once job_try (r ∷ rs) clips n e =
      let rest = run_job (job_try + 1) j rs in
      let end = render_and_upload job_try j r clips in
      let new = row_of j r in
      let first : (end.0 ≡ clips) ⊎ ((r.arrives ≡ true) × (end.0 ≡ clips ++ new ∷ [])) =
        run_cases (λ rows. (rows ≡ clips) ⊎ ((r.arrives ≡ true) × (rows ≡ clips ++ new ∷ [])))
          job_try r clips (inl refl)
          (λ arrived. elim (upload_adds r clips n.0 e) [
            | inl same ↦ inl same
            | inr added ↦ inr (arrived, added)
          ]) in
      let kept : rest (clips ++ new ∷ []) ≡ clips ++ new ∷ [] =
        job_kept (job_try + 1) rs (clips ++ new ∷ []) new (
          get_by_event-added j.event_id clips new e
            (received_facts (attempt_of (upload_of j r)) j.event_id j.tenant_id).0) in
      elim first [
        | inl same ↦ elim (again_cases rest end) [
          | inl more ↦
              let whole : again rest end ≡ rest clips = more ∙ ap rest same in
              rw whole (elim (run_job-once (job_try + 1) rs clips n.1 e) [
                | inl a ↦ inl a
                | inr b ↦ inr (inr b)
              ])
          | inr stop ↦ inl (stop ∙ same)
        ]
        | inr (arrived, added) ↦ elim (again_cases rest end) [
          | inl more ↦ inr (inl (arrived, more ∙ ap rest added ∙ kept))
          | inr stop ↦ inr (inl (arrived, stop ∙ added))
        ]
      ]
