-- ===== src/Api/Ingest/Idempotent.antt =====
-- What sending a batch of api/src/vms/edge/service.py again does to the database.
use next_sec.Prelude.{
  ℕ, ◌≡◌, refl, ap, sym, ◌∙◌, Bool, true, false, not, ◌||◌, Option, none, some, is_some, List, [],
  ◌∷◌, ◌++◌, map, arith, if◌then◌else◌, All, Bool-cases, Option-cases, inl, inr,
}
use mathlib.Core.Path.{subst}
use next_sec.Api.Ingest.{
  EdgeEventItem, VmsEvent, CameraRow, Db, Status, is_valid_camera, existing, new_event, is_accepted,
  ingest_batch,
}
use next_sec.Api.Ingest.Sequential.{
  spec_status, spec_judge, spec_store, spec_batch, existing-append, ingest_batch-spec,
}

module _ {D : Type 0} where
  -- An item has nothing to add: its event is stored, or its camera is not the tenant's.
  abbrev is_settled : ℕ → List CameraRow → List (VmsEvent D) → EdgeEventItem D → Bool
  is_settled t cams vs e =
      is_some (existing t e.client_event_id vs) || not (is_valid_camera t e.camera_id cams)

  store_keeps :
      (t u c : ℕ) (s : Status) (e : EdgeEventItem D) (vs : List (VmsEvent D))
      → is_some (existing t c vs) ≡ true
      → is_some (existing t c (spec_store t s e u vs)) ≡ true
  store_keeps t u c Status.accepted e vs h =
      ground (arith, existing-append t c vs (new_event t e u ∷ []))
  store_keeps t u c Status.duplicate e vs h = h
  store_keeps t u c Status.rejected e vs h = h

  spec_batch_keeps :
      (t c : ℕ) (cams : List CameraRow) (items : List (EdgeEventItem D × ℕ))
      (vs : List (VmsEvent D))
      → is_some (existing t c vs) ≡ true
      → is_some (existing t c (spec_batch t cams items vs).0) ≡ true
  unfolding spec_batch
  spec_batch_keeps t c cams [] vs h = h
  spec_batch_keeps t c cams ((e, u) ∷ items) vs h =
      spec_batch_keeps t c cams items _ (store_keeps t u c (spec_judge t cams e vs) e vs h)

  store_settles :
      (t u : ℕ) (cams : List CameraRow) (e : EdgeEventItem D) (vs : List (VmsEvent D))
      → is_settled t cams (spec_store t (spec_judge t cams e vs) e u vs) e ≡ true
  store_settles t u cams e vs = elim (Option-cases (existing t e.client_event_id vs)) [
    | inl new ↦ elim (Bool-cases (is_valid_camera t e.camera_id cams)) [
      | inl ok ↦
          rw (new, ok)
            (ground (arith, existing-append t e.client_event_id vs (new_event t e u ∷ []), new))
      | inr bad ↦ rw (new, bad) (rw new refl)
    ]
    | inr (i, old) ↦ rw old (rw old refl)
  ]

  -- After a batch every item in it is settled.
  spec_batch_settles :
      (t : ℕ) (cams : List CameraRow) (items : List (EdgeEventItem D × ℕ)) (vs : List (VmsEvent D))
      → All (λ i. is_settled t cams (spec_batch t cams items vs).0 i.0 ≡ true) items
  unfolding spec_batch
  spec_batch_settles t cams [] vs = tt
  spec_batch_settles t cams ((e, u) ∷ items) vs =
      let vs' = spec_store t (spec_judge t cams e vs) e u vs in
      (
        settled_stays (existing t e.client_event_id vs') (is_valid_camera t e.camera_id cams)
            (existing t e.client_event_id (spec_batch t cams items vs').0)
            (store_settles t u cams e vs) (spec_batch_keeps t e.client_event_id cams items vs'),
        spec_batch_settles t cams items vs',
      )
    where
      settled_stays :
          (o : Option ℕ) (valid : Bool) (o' : Option ℕ)
          → (is_some o || not valid) ≡ true
          → (is_some o ≡ true → is_some o' ≡ true)
          → (is_some o' || not valid) ≡ true
      settled_stays o valid o' h k = ground arith

  settled_batch :
      (t : ℕ) (cams : List CameraRow) (items : List (EdgeEventItem D × ℕ)) (vs : List (VmsEvent D))
      → All (λ i. is_settled t cams vs i.0 ≡ true) items
      → let (vs', ss) = spec_batch t cams items vs in
        (vs' ≡ vs) × All (λ s. is_accepted s ≡ false) ss
  unfolding spec_batch
  settled_batch t cams [] vs h = (refl, tt)
  settled_batch t cams ((e, u) ∷ items) vs h =
      let no_news : is_accepted (spec_judge t cams e vs) ≡ false =
        settled_verdict (existing t e.client_event_id vs) (is_valid_camera t e.camera_id cams)
          h.0 in
      let ih = settled_batch t cams items vs h.1 in
      let stored : spec_store t (spec_judge t cams e vs) e u vs ≡ vs =
        ap (λ b. if b then vs ++ new_event t e u ∷ [] else vs) no_news in
      (
        ap (λ l. (spec_batch t cams items l).0) stored ∙ ih.0,
        (
          no_news,
          subst (λ l. All (λ s. is_accepted s ≡ false) (spec_batch t cams items l).1) (sym stored)
              ih.1,
        ),
      )
    where
      settled_verdict :
          (o : Option ℕ) (valid : Bool)
          → (is_some o || not valid) ≡ true
          → is_accepted (spec_status (is_some o) valid) ≡ false
      settled_verdict none true h = cc
      settled_verdict none false h = refl
      settled_verdict (some a) valid h = refl

  -- The two tries of one batch: the same items, with the ids that each try would give them.
  abbrev pub first_try : List (EdgeEventItem D × ℕ × ℕ) → List (EdgeEventItem D × ℕ)
  first_try = map (λ i. (i.0, i.1))

  abbrev pub second_try : List (EdgeEventItem D × ℕ × ℕ) → List (EdgeEventItem D × ℕ)
  second_try = map (λ i. (i.0, i.2))

  retry_settled :
      (t : ℕ) (cams : List CameraRow) (vs : List (VmsEvent D))
      (items : List (EdgeEventItem D × ℕ × ℕ))
      → All (λ i. is_settled t cams vs i.0 ≡ true) (first_try items)
      → All (λ i. is_settled t cams vs i.0 ≡ true) (second_try items)
  retry_settled t cams vs [] h = tt
  retry_settled t cams vs (i ∷ items) h = (h.0, retry_settled t cams vs items h.1)

  -- Sending a batch again changes nothing in the database, and no item is accepted a second time:
  -- an agent that got no answer may repeat the request.
  pub ingest_batch-idempotent :
      (tenant_id : ℕ) (items : List (EdgeEventItem D × ℕ × ℕ)) (db : Db D)
      → let db' = (ingest_batch tenant_id (first_try items) db).0 in
        let (db'', results) = ingest_batch tenant_id (second_try items) db' in
        (db'' ≡ db') × All (λ s. is_accepted s ≡ false) (map (λ r. r.status) results)
  ingest_batch-idempotent t items db =
      let p = ingest_batch-spec t (first_try items) db in
      subst SecondTry (sym p.0) (
        let q = ingest_batch-spec t (second_try items) (record db { events = stored }) in
        let none_new = settled_batch t db.cameras (second_try items) stored (
          retry_settled t db.cameras stored items
            (spec_batch_settles t db.cameras (first_try items) db.events)) in
        (
          q.0 ∙ ap (λ l. record db { events = l }) none_new.0,
          subst (All (λ s. is_accepted s ≡ false)) (sym q.1) none_new.1,
        ))
    where
      stored : List (VmsEvent D)
      stored = (spec_batch t db.cameras (first_try items) db.events).0

      SecondTry : Db D → Type 0
      SecondTry d =
          ((ingest_batch t (second_try items) d).0 ≡ d)
          × All (λ s. is_accepted s ≡ false)
              (map (λ r. r.status) (ingest_batch t (second_try items) d).1)

  -- No event is lost: after a batch each of its items is stored for the tenant, unless its camera is
  -- not a camera of the tenant.
  pub ingest_batch-stores :
      (tenant_id : ℕ) (events : List (EdgeEventItem D × ℕ)) (db : Db D)
      → let db' = (ingest_batch tenant_id events db).0 in
        All
          (λ i.
            (is_some (existing tenant_id i.0.client_event_id db'.events)
              || not (is_valid_camera tenant_id i.0.camera_id db.cameras))
            ≡ true)
          events
  ingest_batch-stores t events db =
      subst (λ d. All (λ i. is_settled t db.cameras d.events i.0 ≡ true) events)
        (sym (ingest_batch-spec t events db).0) (spec_batch_settles t db.cameras events db.events)
