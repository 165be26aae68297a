-- ===== src/Api/Ingest/Isolated.antt =====
-- Which rows a batch of api/src/vms/edge/service.py adds to the database.
use next_sec.Prelude.{
  ℕ, ◌≡◌, refl, ap, sym, ◌∙◌, Bool, true, false, Option, none, some, is_some, List, [], ◌∷◌, ◌++◌,
  if◌then◌else◌, All, Bool-cases, inl, inr,
}
use mathlib.Core.List.{append-nil, append_assoc}
use next_sec.Api.Ingest.{
  EdgeEventItem, VmsEvent, CameraRow, Db, is_valid_camera, existing, new_event, is_accepted,
  ingest_batch,
}
use next_sec.Api.Ingest.Sequential.{spec_status, spec_judge, spec_batch, ingest_batch-spec}

module _ {D : Type 0} where
  spec_batch_adds :
      (t : ℕ) (cams : List CameraRow) (items : List (EdgeEventItem D × ℕ)) (vs : List (VmsEvent D))
      → (rows : List (VmsEvent D)) × ((spec_batch t cams items vs).0 ≡ vs ++ rows)
        × All (λ v. (v.tenant_id ≡ t) × (is_valid_camera t v.camera_id cams ≡ true)) rows
  unfolding spec_batch
  spec_batch_adds t cams [] vs = ([], sym (append-nil vs), tt)
  spec_batch_adds t cams ((e, u) ∷ items) vs =
      elim (Bool-cases (is_accepted (spec_judge t cams e vs))) [
        | inl ok ↦
            let (rows, p, own) = spec_batch_adds t cams items (vs ++ new_event t e u ∷ []) in
            (
              new_event t e u ∷ rows,
              ap (λ b. (spec_batch t cams items (if b then vs ++ new_event t e u ∷ [] else vs)).0)
                    ok
                  ∙ p
                  ∙ append_assoc vs (new_event t e u ∷ []) rows,
              ((refl, accepted_valid (existing t e.client_event_id vs) _ ok), own),
            )
        | inr other ↦
            let (rows, p, own) = spec_batch_adds t cams items vs in
            (
              rows,
              ap (λ b. (spec_batch t cams items (if b then vs ++ new_event t e u ∷ [] else vs)).0)
                    other
                  ∙ p,
              own,
            )
      ]
    where
      accepted_valid :
          (o : Option ℕ) (valid : Bool)
          → is_accepted (spec_status (is_some o) valid) ≡ true
          → valid ≡ true
      accepted_valid none true h = refl
      accepted_valid none false h = cc
      accepted_valid (some a) valid h = cc

  -- A batch only adds rows, behind those that are stored, and every row it adds is the tenant's, of a
  -- camera of the tenant: no tenant can write events of another.
  pub ingest_batch-isolated :
      (tenant_id : ℕ) (events : List (EdgeEventItem D × ℕ)) (db : Db D)
      → (rows : List (VmsEvent D)) × ((ingest_batch tenant_id events db).0
          ≡ record db { events = db.events ++ rows })
        × All
            (λ v.
              (v.tenant_id ≡ tenant_id) × (is_valid_camera tenant_id v.camera_id db.cameras ≡ true))
            rows
  ingest_batch-isolated t events db =
      let (rows, p, own) = spec_batch_adds t db.cameras events db.events in
      (rows, (ingest_batch-spec t events db).0 ∙ ap (λ l. record db { events = l }) p, own)
