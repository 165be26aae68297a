-- ===== src/Api/Alpr/Tests.antt =====
-- Number plates at a gate: the intake of api/src/vms/events/service.py over a list of keys.
use next_sec.Prelude.{
  ℕ, ◌+◌, ◌≤◌, ◌≡◌, refl, Bool, true, false, not, ◌&&◌, ◌||◌, none, List, [], ◌∷◌, arith, ltb,
  if◌then◌else◌,
}
use next_sec.Api.Alpr.{
  ttl_ms, Key, same_redis_key, KeyStore, default_settings, Arrival, Intake, event_of, ingest_alpr,
  ingest_all, ingest_alpr,
}
use next_sec.Api.Alpr.Windows.{intake_of, ingest_all-intake_of}

-- The keys that were set, each with the time at which it expires.
abbrev Entries : Type 0
Entries = List (Key × ℕ)

abbrev entry_holds : Entries → Key → ℕ → Bool
entry_holds [] k t = false
entry_holds ((j, until) ∷ es) k t = (same_redis_key j k && ltb t until) || entry_holds es k t

abbrev set_entry : Key → ℕ → ℕ → Entries → Entries × Bool
set_entry k ttl now es =
    if entry_holds es k now then (es, false) else ((k, now + ttl_ms ttl) ∷ es, true)

set_entry_answer :
    (k : Key) (ttl now : ℕ) (es : Entries) → (set_entry k ttl now es).1 ≡ not (entry_holds es k now)
set_entry_answer k ttl now es = ground arith

entry_holds-set_entry :
    (k j : Key) (ttl now t : ℕ) (es : Entries)
    → now ≤ t
    → entry_holds (set_entry k ttl now es).0 j t ≡ (
        entry_holds es j t
        || (same_redis_key k j && (not (entry_holds es k now) && ltb t (now + ttl_ms ttl))))
entry_holds-set_entry k j ttl now t es le = ground arith

abbrev key_list : KeyStore
key_list = record {
  Store = Entries;
  empty = [];
  holds = entry_holds;
  set_nx = set_entry;
  holds_empty = λ k t. refl;
  set_nx_answer = set_entry_answer;
  holds_set_nx = entry_holds-set_entry;
}

abbrev sighting : ℕ → ℕ → ℕ → Bool → Arrival
sighting plate confidence at saves = record {
  detection = record {
    tenant_id = 1;
    camera_id = 4;
    plate = plate;
    confidence = confidence;
    timestamp = at;
    minute = 0;
    bbox = none;
  };
  exact_at = at;
  window_at = at;
  image_path = none;
  saves = saves;
}

abbrev in_minute : ℕ → Arrival → Arrival
in_minute m a = record a { detection = record (a.detection) { minute = m } }

abbrev gate : List Arrival
gate =
    sighting 77 900 1000 true
    ∷ sighting 77 950 20_000 true
    ∷ sighting 88 500 30_000 true
    ∷ sighting 77 900 61_000 true
    ∷ []

at_the_gate :
    ingest_all key_list default_settings gate []
    ≡ Intake.saved (event_of (sighting 77 900 1000 true))
      ∷ Intake.ignored
      ∷ Intake.ignored
      ∷ Intake.saved (event_of (sighting 77 900 61_000 true))
      ∷ []
unfolding ingest_all ingest_alpr
at_the_gate = refl

-- With the exact key switched on, a sighting that the window rejects sets the key of its minute: the
-- next one of that minute is ignored although no event of the minute was saved.
minute_is_shadowed :
    ingest_all key_list
      (record { min_confidence = 800; exact_ttl = 86_400; dedup_ttl = 60 })
      (sighting 77 900 1000 true
        ∷ in_minute 1 (sighting 77 900 58_000 true)
        ∷ in_minute 1 (sighting 77 900 62_000 true)
        ∷ [])
      []
    ≡ Intake.saved (event_of (sighting 77 900 1000 true)) ∷ Intake.ignored ∷ Intake.ignored ∷ []
unfolding ingest_all ingest_alpr event_of
minute_is_shadowed = refl

ingest_all-intake_of_example :
    ingest_all key_list default_settings gate [] ≡ intake_of default_settings gate []
ingest_all-intake_of_example =
    ingest_all-intake_of key_list default_settings gate refl (omega arith)

-- The repository raises for the first sighting, and the second is taken for a duplicate.
raised_then_ignored :
    ingest_all key_list default_settings
      (sighting 77 900 1000 false ∷ sighting 77 950 20_000 true ∷ [])
      []
    ≡ Intake.raised ∷ Intake.ignored ∷ []
unfolding ingest_all ingest_alpr
raised_then_ignored = refl
