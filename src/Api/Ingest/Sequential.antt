-- ===== src/Api/Ingest/Sequential.antt =====
-- The batch of api/src/vms/edge/service.py against a plain specification: the items one by one, each
-- stored before the next is judged.
use next_sec.Prelude.{
  ℕ, ◌≡◌, refl, ap, sym, ◌∙◌, Bool, true, false, Option, none, some, is_some, List, [], ◌∷◌, ◌++◌,
  map, arith, if◌then◌else◌, ◌==◌, elem,
}
use mathlib.Core.Path.{ap₂}
use mathlib.Core.List.{append-nil, append_assoc}
use next_sec.Api.Ingest.{
  EdgeEventItem, VmsEvent, CameraRow, Db, Status, is_valid_camera, existing, new_event, judge,
  is_accepted, ingest_items, ingest_batch,
}

-- The verdict of the specification: whether the client's event is stored, whether the camera is the
-- tenant's.
abbrev pub spec_status : Bool → Bool → Status
spec_status true valid = Status.duplicate
spec_status false true = Status.accepted
spec_status false false = Status.rejected

abbrev pub first : {A : Type 0} → Option A → Option A → Option A
first (some a) o = some a
first none o = o

module _ {D : Type 0} where
  abbrev pub spec_judge : ℕ → List CameraRow → EdgeEventItem D → List (VmsEvent D) → Status
  spec_judge tenant_id cams event stored =
      spec_status (is_some (existing tenant_id event.client_event_id stored))
        (is_valid_camera tenant_id event.camera_id cams)

  abbrev pub spec_store : ℕ → Status → EdgeEventItem D → ℕ → List (VmsEvent D) → List (VmsEvent D)
  spec_store tenant_id s event event_id stored =
      if is_accepted s then stored ++ new_event tenant_id event event_id ∷ [] else stored

  unfoldable pub spec_batch :
      ℕ
      → List CameraRow
      → List (EdgeEventItem D × ℕ)
      → List (VmsEvent D)
      → List (VmsEvent D) × List Status
  spec_batch tenant_id cams [] stored = (stored, [])
  spec_batch tenant_id cams ((event, event_id) ∷ rest) stored =
      let s = spec_judge tenant_id cams event stored in
      let (stored', ss) =
        spec_batch tenant_id cams rest (spec_store tenant_id s event event_id stored) in
      (stored', s ∷ ss)

  pub existing-append :
      (t c : ℕ) (xs ys : List (VmsEvent D))
      → existing t c (xs ++ ys) ≡ first (existing t c xs) (existing t c ys)
  existing-append t c [] ys = refl
  existing-append t c (x ∷ xs) ys = ground (arith, existing-append t c xs ys)

  pub existing-new :
      (t c u : ℕ) (e : EdgeEventItem D)
      → existing t c (new_event t e u ∷ []) ≡ (if e.client_event_id == c then some u else none)
  existing-new t c u e = ground arith

  judge_status :
      (old : Option ℕ) (seen valid : Bool) (acc : Option ℕ) (e : EdgeEventItem D) (u : ℕ)
      → seen ≡ is_some acc
      → (judge old seen valid e u).status ≡ spec_status (is_some (first old acc)) valid
  judge_status (some o) seen valid acc e u h = refl
  judge_status none true valid none e u h = cc
  judge_status none true valid (some a) e u h = refl
  judge_status none false true none e u h = refl
  judge_status none false false none e u h = refl
  judge_status none false valid (some a) e u h = cc

  -- The ids seen in the batch are those of the rows accepted so far.
  SeenIs : ℕ → List ℕ → List (VmsEvent D) → Type 0
  SeenIs t seen acc = (c : ℕ) → elem c seen ≡ is_some (existing t c acc)

  SeenIs-accept :
      (t u : ℕ) (ok : Bool) (seen : List ℕ) (acc : List (VmsEvent D)) (e : EdgeEventItem D)
      → SeenIs t seen acc
      → SeenIs t
          (if ok then e.client_event_id ∷ seen else seen)
          (acc ++ (if ok then new_event t e u ∷ [] else []))
  unfolding SeenIs
  SeenIs-accept t u true seen acc e h c =
      ground (arith, existing-append t c acc (new_event t e u ∷ []), existing-new t c u e, h c)
  SeenIs-accept t u false seen acc e h c = rw (append-nil acc) (h c)

  store_step :
      (t u : ℕ) (s : Status) (e : EdgeEventItem D) (xs acc : List (VmsEvent D))
      → spec_store t s e u (xs ++ acc)
        ≡ xs ++ (acc ++ (if is_accepted s then new_event t e u ∷ [] else []))
  store_step t u Status.accepted e xs acc = append_assoc xs acc (new_event t e u ∷ [])
  store_step t u Status.duplicate e xs acc = ap (λ l. xs ++ l) (sym (append-nil acc))
  store_step t u Status.rejected e xs acc = ap (λ l. xs ++ l) (sym (append-nil acc))

  rows_step :
      (t u : ℕ) (s : Status) (e : EdgeEventItem D) (xs acc rows : List (VmsEvent D))
      → (xs ++ acc) ++ (if is_accepted s then new_event t e u ∷ rows else rows)
        ≡ (xs ++ (acc ++ (if is_accepted s then new_event t e u ∷ [] else []))) ++ rows
  rows_step t u Status.accepted e xs acc rows = simp append_assoc
  rows_step t u Status.duplicate e xs acc rows = simp (append_assoc, append-nil)
  rows_step t u Status.rejected e xs acc rows = simp (append_assoc, append-nil)

  ingest_items-spec :
      (t : ℕ) (db : Db D) (seen : List ℕ) (acc : List (VmsEvent D))
      (items : List (EdgeEventItem D × ℕ))
      → SeenIs t seen acc
      → let (rows, results) = ingest_items t db seen items in
        let spec = spec_batch t db.cameras items (db.events ++ acc) in
        ((db.events ++ acc) ++ rows ≡ spec.0) × (map (λ r. r.status) results ≡ spec.1)
  unfolding ingest_items spec_batch
  ingest_items-spec t db seen acc [] h = (append-nil (db.events ++ acc), refl)
  ingest_items-spec t db seen acc ((e, u) ∷ rest) h =
      let s =
        (judge (existing t e.client_event_id db.events) (elem e.client_event_id seen)
          (is_valid_camera t e.camera_id db.cameras) e u).status in
      let s' = spec_judge t db.cameras e (db.events ++ acc) in
      let same : s ≡ s' =
        judge_status (existing t e.client_event_id db.events) (elem e.client_event_id seen)
          (is_valid_camera t e.camera_id db.cameras) (existing t e.client_event_id acc) e u
          (unfold SeenIs in h e.client_event_id)
        ∙ ap (λ o. spec_status (is_some o) (is_valid_camera t e.camera_id db.cameras))
            (sym (existing-append t e.client_event_id db.events acc)) in
      let acc' = acc ++ (if is_accepted s then new_event t e u ∷ [] else []) in
      let ih =
        ingest_items-spec t db (if is_accepted s then e.client_event_id ∷ seen else seen) acc' rest
          (SeenIs-accept t u (is_accepted s) seen acc e h) in
      let stored : db.events ++ acc' ≡ spec_store t s' e u (db.events ++ acc) =
        sym (store_step t u s e db.events acc)
        ∙ ap (λ x. spec_store t x e u (db.events ++ acc)) same in
      (
        rows_step t u s e db.events acc _
            ∙ ih.0
            ∙ ap (λ l. (spec_batch t db.cameras rest l).0) stored,
        ap₂ (λ x xs. x ∷ xs) same (ih.1 ∙ ap (λ l. (spec_batch t db.cameras rest l).1) stored),
      )

  -- `ingest_batch` decides the whole batch from one query and inserts it at the end; it stores the
  -- same rows, in the same order, and gives the same verdicts as judging the items one by one, each
  -- against all that is stored by then.
  pub ingest_batch-spec :
      (tenant_id : ℕ) (events : List (EdgeEventItem D × ℕ)) (db : Db D)
      → let (db', results) = ingest_batch tenant_id events db in
        let spec = spec_batch tenant_id db.cameras events db.events in
        (db' ≡ record db { events = spec.0 }) × (map (λ r. r.status) results ≡ spec.1)
  unfolding ingest_batch
  ingest_batch-spec t events db =
      let plain =
        rw (append-nil db.events) at
          (ingest_items-spec t db [] [] events (unfold SeenIs in λ c. refl)) in
      (ap (λ l. record db { events = l }) plain.0, plain.1)
