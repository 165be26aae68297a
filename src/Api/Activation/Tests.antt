-- ===== src/Api/Activation/Tests.antt =====
-- Activations of api/src/vms/edge/service.py at a concrete database.
use next_sec.Prelude.{ℕ, ◌+◌, ◌≡◌, ◌≢◌, refl, true, false, none, some, [], ◌∷◌, arith}
use next_sec.Api.Errors.{done}
use next_sec.Api.EdgeDb.{LicenseKey, Tenant, EdgeDb, ApiKey, ApiKeyOwnerType, Fresh, of_slug}
use next_sec.Api.Activation.{
  Request, Activation, activate, assert_usable, finish, create_agent, unbind,
}
use next_sec.Api.Activation.Keys.{active_keys, other_keys, agent_key, activate-active_keys}
use next_sec.Api.Activation.Locks.{ActivateCall, answer_to, run_activations, run_activations-locks}
use next_sec.Api.Activation.Reactivation.{activate-again}
use next_sec.Api.Activation.Release.{unbind-releases}

abbrev license : LicenseKey
license = record {
  id = 1;
  license_key = 500;
  tenant_id = some 7;
  status = "active";
  expires_at = some 1000;
  activated_at = none;
  hardware_fingerprint = none;
  activated_hostname = none;
  agent_id = none;
  agent_version = none;
  last_seen_at = none;
  events_per_minute = 120;
  clip_seconds = 15;
  clip_max_height = 480;
  clip_retention_days = 30;
  storage_quota_mb = 5120;
}

abbrev tenant : Tenant
tenant = record {
  id = 7;
  slug = 70;
  is_active = true;
  deleted_at = none;
  onboarding_complete = false;
  license_key_id = none;
}

abbrev other_key : ApiKey
other_key = record {
  id = 30;
  tenant_id = 7;
  owner_type = ApiKeyOwnerType.analytics;
  owner_id = 40;
  key_hash = 3;
  is_active = true;
}

abbrev base : EdgeDb
base = record {
  licenses = license ∷ [];
  tenants = tenant ∷ [];
  agents = [];
  api_keys = other_key ∷ [];
  audit = [];
}

abbrev request : ℕ → Request
request fingerprint = record {
  license_key_value = 500;
  hardware_fingerprint = fingerprint;
  hostname = 0;
  agent_version = 2;
}

abbrev fresh : ℕ → Fresh
fresh n = record { agent_id = n; api_key_id = n + 1; plain_key = n + 2; hash_key = λ k. k + 1 }

-- The first activation, by the machine with this fingerprint.
abbrev after : ℕ → EdgeDb × Activation
after fingerprint =
    finish 10 (request fingerprint) (fresh 100) license tenant
      (create_agent 7 (of_slug 70) (fresh 100) base) 100

activated :
    (fingerprint : ℕ)
    → activate 10 10 (request fingerprint) (fresh 100) base ≡ done (after fingerprint)
unfolding activate assert_usable
activated fingerprint = refl

activate-active_keys_example :
    let (db', r) = after 88 in
    (active_keys r.agent_id r.tenant.id db'.api_keys
      ≡ agent_key r.tenant.id r.agent_id 101 (r.api_key + 1) ∷ [])
    × (other_keys r.agent_id r.tenant.id db'.api_keys
        ≡ other_keys r.agent_id r.tenant.id base.api_keys)
activate-active_keys_example =
    activate-active_keys 10 10 (request 88) (fresh 100) base (after 88).0 (after 88).1 (refl, tt)
      (activated 88)

-- With an empty fingerprint another machine gets through: the license is not locked.
empty_fingerprint_unlocked :
    (x : EdgeDb × Activation) × (activate 20 20 (request 99) (fresh 200) (after 0).0 ≡ done x)
unfolding activate assert_usable
empty_fingerprint_unlocked = (_, refl)

abbrev call : ℕ → ℕ → ℕ → ActivateCall
call at fingerprint new = record {
  expiry_now = at;
  now = at;
  req = request fingerprint;
  fresh = fresh new;
}

-- Another machine tries, then the first one again, then the other one once more.
run_activations-locks_example :
    answer_to (call 20 99 400) (run_activations (call 15 99 200 ∷ call 18 88 300 ∷ []) (after 88).0)
    ≢ done (after 99)
run_activations-locks_example =
    run_activations-locks (call 10 88 100) (call 20 99 400) (call 15 99 200 ∷ call 18 88 300 ∷ [])
      base (after 88).0 (after 88).1 (after 99) (refl, tt) (omega arith) (activated 88) refl
      (omega arith)

activate-again_example :
    (db'' : EdgeDb) × (r' : Activation) × (activate 20 20 (request 88) (fresh 200) (after 88).0
      ≡ done (db'', r'))
    × (r'.agent_id ≡ 100)
    × (db''.agents ≡ (after 88).0.agents)
activate-again_example =
    activate-again 10 10 20 20 (request 88) (request 88) (fresh 100) (fresh 200) base (after 88).0
      (after 88).1 license (omega arith) refl refl (activated 88) refl refl

unbind-releases_example :
    (released : EdgeDb) × (db'' : EdgeDb) × (r' : Activation) × (unbind 1 5 (after 88).0
      ≡ done released)
    × (active_keys 100 7 released.api_keys ≡ [])
    × (activate 20 20 (request 99) (fresh 200) released ≡ done (db'', r'))
    × (r'.agent_id ≡ 200)
unbind-releases_example =
    unbind-releases 10 10 5 20 20 (request 88) (request 99) (fresh 100) (fresh 200) base
      (after 88).0 (after 88).1 license refl refl (activated 88) refl
