-- ===== src/Api/Ingest.antt =====
-- The batch ingest of api/src/vms/edge/service.py: EdgeIngestService.ingest_batch. Ids are numbers,
-- which are only compared. What the code copies from an item to a row (event type, plate, confidence,
-- payload, time) is a parameter type. The id that `uuid.uuid4()` would give an item stands beside it
-- in the batch. The unique index on tenant and client event id makes the row that a query by both
-- finds the only one.
pub mod Sequential
pub mod Unique
pub mod Idempotent
pub mod Isolated
mod Tests
use next_sec.Prelude.{
  ℕ, Bool, true, false, not, ◌&&◌, ◌||◌, Option, none, some, List, [], ◌∷◌, ◌++◌, if◌then◌else◌,
  ◌==◌, elem,
}
use Prim.Native.String.{String}

pub record EdgeEventItem (D : Type 0) : Type 0 where
  pub client_event_id : ℕ
  pub camera_id : ℕ
  pub details : D

pub record VmsEvent (D : Type 0) : Type 0 where
  pub id : ℕ
  pub tenant_id : ℕ
  pub camera_id : ℕ
  pub client_event_id : Option ℕ
  pub details : D

pub record CameraRow : Type 0 where
  pub id : ℕ
  pub tenant_id : ℕ

pub record Db (D : Type 0) : Type 0 where
  pub cameras : List CameraRow
  pub events : List (VmsEvent D)

pub data Status : Type 0 where
  accepted duplicate rejected : Status

pub record EdgeBatchItemResult : Type 0 where
  pub client_event_id : ℕ
  pub status : Status
  pub event_id : Option ℕ
  pub reason : Option String

-- `camera_id in valid_cameras`: the first query keeps the cameras of the tenant.
abbrev pub is_valid_camera : ℕ → ℕ → List CameraRow → Bool
is_valid_camera tenant_id camera_id [] = false
is_valid_camera tenant_id camera_id (c ∷ cs) =
    (c.tenant_id == tenant_id && c.id == camera_id) || is_valid_camera tenant_id camera_id cs

abbrev pub is_client : Option ℕ → ℕ → Bool
is_client none client_id = false
is_client (some c) client_id = c == client_id

module _ {D : Type 0} where
  -- `existing.get(client_event_id)`: the second query keeps the events of the tenant.
  abbrev pub existing : ℕ → ℕ → List (VmsEvent D) → Option ℕ
  existing tenant_id client_id [] = none
  existing tenant_id client_id (v ∷ vs) =
      if v.tenant_id == tenant_id && is_client v.client_event_id client_id
      then some v.id
      else existing tenant_id client_id vs

  abbrev pub new_event : ℕ → EdgeEventItem D → ℕ → VmsEvent D
  new_event tenant_id event event_id = record {
    id = event_id;
    tenant_id = tenant_id;
    camera_id = event.camera_id;
    client_event_id = some event.client_event_id;
    details = event.details;
  }

  -- The verdict on one item: what was stored before the batch, what was accepted in it, the camera.
  abbrev pub judge : Option ℕ → Bool → Bool → EdgeEventItem D → ℕ → EdgeBatchItemResult
  judge (some old) seen valid event event_id = record {
    client_event_id = event.client_event_id;
    status = Status.duplicate;
    event_id = some old;
    reason = none;
  }
  judge none true valid event event_id = record {
    client_event_id = event.client_event_id;
    status = Status.duplicate;
    event_id = none;
    reason = some "Repetido dentro do próprio lote";
  }
  judge none false false event event_id = record {
    client_event_id = event.client_event_id;
    status = Status.rejected;
    event_id = none;
    reason = some "Câmera não encontrada neste cliente";
  }
  judge none false true event event_id = record {
    client_event_id = event.client_event_id;
    status = Status.accepted;
    event_id = some event_id;
    reason = none;
  }

abbrev pub is_accepted : Status → Bool
is_accepted Status.accepted = true
is_accepted Status.duplicate = false
is_accepted Status.rejected = false

module _ {D : Type 0} where
  -- The loop over the batch: the rows to insert and the results.
  unfoldable pub ingest_items :
      ℕ → Db D → List ℕ → List (EdgeEventItem D × ℕ) → List (VmsEvent D) × List EdgeBatchItemResult
  ingest_items tenant_id db seen_in_batch [] = ([], [])
  ingest_items tenant_id db seen_in_batch ((event, event_id) ∷ rest) =
      let r =
        judge (existing tenant_id event.client_event_id db.events)
          (elem event.client_event_id seen_in_batch)
          (is_valid_camera tenant_id event.camera_id db.cameras) event event_id in
      let ok = is_accepted r.status in
      let (rows, results) =
        ingest_items tenant_id db
          (if ok then event.client_event_id ∷ seen_in_batch else seen_in_batch) rest in
      (if ok then new_event tenant_id event event_id ∷ rows else rows, r ∷ results)

  unfoldable pub ingest_batch :
      ℕ → List (EdgeEventItem D × ℕ) → Db D → Db D × List EdgeBatchItemResult
  ingest_batch tenant_id events db =
      let (to_insert, results) = ingest_items tenant_id db [] events in
      (record db { events = db.events ++ to_insert }, results)
