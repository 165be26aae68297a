-- ===== src/Api/Ingest/Tests.antt =====
-- Batches of api/src/vms/edge/service.py at a concrete database.
use next_sec.Prelude.{ℕ, ◌*◌, ◌≡◌, refl, false, none, some, List, [], ◌∷◌, map, All}
use next_sec.Api.Ingest.{EdgeEventItem, Db, Status, is_accepted, ingest_items, ingest_batch}
use next_sec.Api.Ingest.Sequential.{spec_batch, ingest_batch-spec}
use next_sec.Api.Ingest.Unique.{IsUnique}
use next_sec.Api.Ingest.Idempotent.{first_try, second_try, ingest_batch-idempotent}

abbrev item : ℕ → ℕ → EdgeEventItem ℕ
item client cam = record { client_event_id = client; camera_id = cam; details = client * 100 }

-- Tenant 1 has the cameras 10 and 11, tenant 2 the camera 20; both have an event 5.
abbrev base : Db ℕ
base = record {
  cameras =
      record { id = 10; tenant_id = 1 }
      ∷ record { id = 20; tenant_id = 2 }
      ∷ record { id = 11; tenant_id = 1 }
      ∷ [];
  events =
      record { id = 90; tenant_id = 2; camera_id = 20; client_event_id = some 5; details = 0 }
      ∷ record { id = 91; tenant_id = 1; camera_id = 10; client_event_id = some 5; details = 0 }
      ∷ record { id = 92; tenant_id = 1; camera_id = 10; client_event_id = none; details = 0 }
      ∷ [];
}

-- One event that is stored, a new one, the new one again, one of a camera of the other tenant.
abbrev batch : List (EdgeEventItem ℕ × ℕ)
batch = (item 5 10, 100) ∷ (item 6 11, 101) ∷ (item 6 11, 102) ∷ (item 7 20, 103) ∷ []

abbrev twice : List (EdgeEventItem ℕ × ℕ × ℕ)
twice = (item 5 10, 100, 200) ∷ (item 6 11, 101, 201) ∷ (item 7 20, 103, 203) ∷ []

ingest_batch_verdicts :
    map (λ r. r.status) (ingest_batch 1 batch base).1
    ≡ Status.duplicate ∷ Status.accepted ∷ Status.duplicate ∷ Status.rejected ∷ []
unfolding ingest_batch ingest_items
ingest_batch_verdicts = refl

ingest_batch-spec_example :
    let (db', results) = ingest_batch 1 batch base in
    let spec = spec_batch 1 base.cameras batch base.events in
    (db' ≡ record base { events = spec.0 }) × (map (λ r. r.status) results ≡ spec.1)
ingest_batch-spec_example = ingest_batch-spec 1 batch base

base-IsUnique : IsUnique base.events
base-IsUnique = (refl, (refl, (tt, tt)))

ingest_batch-idempotent_example :
    let db' = (ingest_batch 1 (first_try twice) base).0 in
    let (db'', results) = ingest_batch 1 (second_try twice) db' in
    (db'' ≡ db') × All (λ s. is_accepted s ≡ false) (map (λ r. r.status) results)
ingest_batch-idempotent_example = ingest_batch-idempotent 1 twice base
