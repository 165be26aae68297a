-- ===== src/Api/Ingest/Unique.antt =====
-- The unique index on tenant and client event id under the batches of api/src/vms/edge/service.py.
use next_sec.Prelude.{
  ℕ, ◌≡◌, refl, Bool, true, false, ◌&&◌, Option, none, some, List, [], ◌∷◌, ◌++◌, arith,
  if◌then◌else◌, ◌==◌, Bool-cases, Option-cases, inl, inr,
}
use next_sec.Api.Ingest.{
  EdgeEventItem, VmsEvent, CameraRow, Db, is_valid_camera, is_client, existing, new_event,
  ingest_batch,
}
use next_sec.Api.Ingest.Sequential.{
  spec_judge, spec_store, spec_batch, existing-append, ingest_batch-spec,
}

module _ {D : Type 0} where
  abbrev pub ClientAbsent : ℕ → Option ℕ → List (VmsEvent D) → Type 0
  ClientAbsent t none vs = Unit
  ClientAbsent t (some c) vs = existing t c vs ≡ none

  -- No two rows of one tenant have the same client event id.
  abbrev pub IsUnique : List (VmsEvent D) → Type 0
  IsUnique [] = Unit
  IsUnique (v ∷ vs) = ClientAbsent v.tenant_id v.client_event_id vs × IsUnique vs

  existing-single :
      (t c : ℕ) (v : VmsEvent D)
      → existing t c (v ∷ [])
        ≡ (if v.tenant_id == t && is_client v.client_event_id c then some v.id else none)
  existing-single t c v = refl

  ClientAbsent-append :
      (t' t u : ℕ) (o : Option ℕ) (e : EdgeEventItem D) (vs : List (VmsEvent D))
      → ClientAbsent t' o vs
      → (t' == t && is_client o e.client_event_id) ≡ false
      → ClientAbsent t' o (vs ++ new_event t e u ∷ [])
  ClientAbsent-append t' t u none e vs h ne = tt
  ClientAbsent-append t' t u (some k) e vs h ne =
      ground (arith, existing-append t' k vs (new_event t e u ∷ []))

  IsUnique-append :
      (t u : ℕ) (e : EdgeEventItem D) (vs : List (VmsEvent D))
      → existing t e.client_event_id vs ≡ none
      → IsUnique vs
      → IsUnique (vs ++ new_event t e u ∷ [])
  IsUnique-append t u e [] h k = (refl, tt)
  IsUnique-append t u e (v ∷ vs) h k =
      let (other, rest) =
        apart (v.tenant_id == t && is_client v.client_event_id e.client_event_id)
          (existing t e.client_event_id vs) h in
      (
        ClientAbsent-append v.tenant_id t u v.client_event_id e vs k.0 other,
        IsUnique-append t u e vs rest k.1,
      )
    where
      apart :
          (b : Bool) (o : Option ℕ) → (if b then some v.id else o) ≡ none → (b ≡ false) × (o ≡ none)
      apart true o p = absurd (ground arith)
      apart false o p = (refl, p)

  spec_store-IsUnique :
      (t u : ℕ) (cams : List CameraRow) (e : EdgeEventItem D) (vs : List (VmsEvent D))
      → IsUnique vs
      → IsUnique (spec_store t (spec_judge t cams e vs) e u vs)
  spec_store-IsUnique t u cams e vs k = elim (Option-cases (existing t e.client_event_id vs)) [
    | inl new ↦ elim (Bool-cases (is_valid_camera t e.camera_id cams)) [
      | inl ok ↦ rw (new, ok) (IsUnique-append t u e vs new k)
      | inr bad ↦ rw (new, bad) k
    ]
    | inr (i, old) ↦ rw old k
  ]

  spec_batch-IsUnique :
      (t : ℕ) (cams : List CameraRow) (items : List (EdgeEventItem D × ℕ)) (vs : List (VmsEvent D))
      → IsUnique vs
      → IsUnique (spec_batch t cams items vs).0
  unfolding spec_batch
  spec_batch-IsUnique t cams [] vs k = k
  spec_batch-IsUnique t cams ((e, u) ∷ items) vs k =
      spec_batch-IsUnique t cams items _ (spec_store-IsUnique t u cams e vs k)

  -- The unique index on tenant and client event id is never violated, also where a batch repeats an
  -- id: if the stored rows satisfy it, so do the rows after any batch.
  pub ingest_batch-IsUnique :
      (tenant_id : ℕ) (events : List (EdgeEventItem D × ℕ)) (db : Db D)
      → IsUnique db.events
      → IsUnique (ingest_batch tenant_id events db).0.events
  ingest_batch-IsUnique t events db k =
      rw (ingest_batch-spec t events db).0 (spec_batch-IsUnique t db.cameras events db.events k)
