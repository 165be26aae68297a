-- ===== src/Api/Alpr.antt =====
-- The intake of number plates: EventService.ingest_alpr of api/src/vms/events/service.py.
-- Redis is a third party: KeyStore is the command SET with NX and EX on its keys, with the laws that
-- its documentation gives. A time of its clock is a count of milliseconds.
pub mod Windows
mod Tests
use next_sec.Prelude.{
  ℕ, ◌+◌, ◌*◌, ◌≤◌, ◌≡◌, Bool, true, false, not, ◌&&◌, ◌||◌, Option, none, some, List, [], ◌∷◌,
  ◌++◌, ltb, ◌==◌, if◌then◌else◌,
}

abbrev pub ttl_ms : ℕ → ℕ
ttl_ms seconds = seconds * 1000

-- `alpr:dedup:exact:{camera}:{plate}:{minute}` and `alpr:dedup:{camera}:{plate}`
pub data Key : Type 0 where
  exact : ℕ → ℕ → ℕ → Key
  window : ℕ → ℕ → Key

abbrev pub same_redis_key : Key → Key → Bool
same_redis_key (Key.exact c p m) (Key.exact d q n) = c == d && (p == q && m == n)
same_redis_key (Key.window c p) (Key.window d q) = c == d && p == q
same_redis_key (Key.exact _ _ _) (Key.window _ _) = false
same_redis_key (Key.window _ _) (Key.exact _ _ _) = false

-- `holds s k t`: the key is set and has not expired at time t, if no further command comes.
pub record KeyStore : Type 1 where
  pub Store : Type 0
  pub empty : Store
  pub holds : Store → Key → ℕ → Bool
  -- SET key 1 NX EX ttl, at a time: the new store, and whether the key was set.
  pub set_nx : Key → ℕ → ℕ → Store → Store × Bool
  pub holds_empty : (k : Key) (t : ℕ) → holds empty k t ≡ false
  pub set_nx_answer :
      (k : Key) (ttl now : ℕ) (s : Store) → (set_nx k ttl now s).1 ≡ not (holds s k now)
  pub holds_set_nx :
      (k j : Key) (ttl now t : ℕ) (s : Store)
      → now ≤ t
      → holds (set_nx k ttl now s).0 j t
        ≡ (holds s j t || (same_redis_key k j && (not (holds s k now) && ltb t (now + ttl_ms ttl))))

-- A confidence is a count of thousandths; `minute` is the timestamp cut to its minute.
pub record AlprDetection : Type 0 where
  pub tenant_id : ℕ
  pub camera_id : ℕ
  pub plate : ℕ
  pub confidence : ℕ
  pub timestamp : ℕ
  pub minute : ℕ
  pub bbox : Option ℕ

pub record Settings : Type 0 where
  pub min_confidence : ℕ
  pub exact_ttl : ℕ
  pub dedup_ttl : ℕ

-- `alpr_exact_dedup_ttl_seconds` is no field of the settings, so that `getattr` gives the default 0.
abbrev pub default_settings : Settings
default_settings = record { min_confidence = 800; exact_ttl = 0; dedup_ttl = 60 }

pub record AlprEvent : Type 0 where
  pub tenant_id : ℕ
  pub camera_id : ℕ
  pub plate : ℕ
  pub confidence : ℕ
  pub occurred_at : ℕ
  pub bbox : Option ℕ
  pub image_path : Option ℕ

-- A call: the detection, the times of the two commands, the path of the stored image, and whether
-- the repository saves the event or raises.
pub record Arrival : Type 0 where
  pub detection : AlprDetection
  pub exact_at : ℕ
  pub window_at : ℕ
  pub image_path : Option ℕ
  pub saves : Bool

pub data Intake : Type 0 where
  ignored : Intake
  saved : AlprEvent → Intake
  raised : Intake

unfoldable pub event_of : Arrival → AlprEvent
event_of a = record {
  tenant_id = a.detection.tenant_id;
  camera_id = a.detection.camera_id;
  plate = a.detection.plate;
  confidence = a.detection.confidence;
  occurred_at = a.detection.timestamp;
  bbox = a.detection.bbox;
  image_path = a.image_path;
}

abbrev pub exact_key : AlprDetection → Key
exact_key d = Key.exact d.camera_id d.plate d.minute

abbrev pub dedup_key : AlprDetection → Key
dedup_key d = Key.window d.camera_id d.plate

-- The end of the method, after both keys are set. The event that is saved is also published.
abbrev pub save : Arrival → Intake
save a = if a.saves then Intake.saved (event_of a) else Intake.raised

module _ (r : KeyStore) where
  open r use {Store, set_nx}

  abbrev pub after_window : Arrival → Store × Bool → Store × Intake
  after_window a (s, is_new) = (s, if is_new then save a else Intake.ignored)

  abbrev pub try_window : Settings → Arrival → Store → Store × Intake
  try_window c a s = after_window a (set_nx (dedup_key a.detection) c.dedup_ttl a.window_at s)

  abbrev pub after_exact : Settings → Arrival → Store × Bool → Store × Intake
  after_exact c a (s, is_new) = if is_new then try_window c a s else (s, Intake.ignored)

  unfoldable pub ingest_alpr : Settings → Arrival → Store → Store × Intake
  ingest_alpr c a s =
      if ltb a.detection.confidence c.min_confidence
      then (s, Intake.ignored)
      else if ltb 0 c.exact_ttl
      then after_exact c a (set_nx (exact_key a.detection) c.exact_ttl a.exact_at s)
      else try_window c a s

  -- A series of calls, with their answers in order.
  unfoldable pub ingest_all : Settings → List Arrival → Store → List Intake
  ingest_all c [] s = []
  ingest_all c (a ∷ rest) s = let out = ingest_alpr c a s in out.1 ∷ ingest_all c rest out.0
