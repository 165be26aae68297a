-- ===== src/Api/EdgeDb.antt =====
-- The rows that the activation of an edge reads and writes, with their queries and their small writes:
-- api/src/vms/billing/models.py, api/src/vms/iam (the API keys) and api/src/vms/cameras (the agents).
-- An id is a number that is only compared. A text is only compared and tested for emptiness, so it is a
-- number too, and 0 is the empty text. A time is a number.
use next_sec.Prelude.{
  ℕ, Bool, true, false, ◌&&◌, Option, none, some, List, [], ◌∷◌, ◌++◌, map, if◌then◌else◌, ◌==◌,
}
use Prim.Native.String.{String}

pub record LicenseKey : Type 0 where
  pub id : ℕ
  pub license_key : ℕ
  pub tenant_id : Option ℕ
  pub status : String
  pub expires_at : Option ℕ
  pub activated_at : Option ℕ
  pub hardware_fingerprint : Option ℕ
  pub activated_hostname : Option ℕ
  pub agent_id : Option ℕ
  pub agent_version : Option ℕ
  pub last_seen_at : Option ℕ
  pub events_per_minute : ℕ
  pub clip_seconds : ℕ
  pub clip_max_height : ℕ
  pub clip_retention_days : ℕ
  pub storage_quota_mb : ℕ

pub record Tenant : Type 0 where
  pub id : ℕ
  pub slug : ℕ
  pub is_active : Bool
  pub deleted_at : Option ℕ
  pub onboarding_complete : Bool
  pub license_key_id : Option ℕ

-- `hostname or f"{tenant.slug}-edge"`
pub data AgentName : Type 0 where
  of_host : ℕ → AgentName
  of_slug : ℕ → AgentName

pub record AgentRow : Type 0 where
  pub id : ℕ
  pub tenant_id : ℕ
  pub name : AgentName

pub data ApiKeyOwnerType : Type 0 where
  agent analytics webhook : ApiKeyOwnerType

pub record ApiKey : Type 0 where
  pub id : ℕ
  pub tenant_id : ℕ
  pub owner_type : ApiKeyOwnerType
  pub owner_id : ℕ
  pub key_hash : ℕ
  pub is_active : Bool

pub data AuditAction : Type 0 where
  edge_activated edge_reactivated edge_unbound : AuditAction

pub record AuditLog : Type 0 where
  pub tenant_id : Option ℕ
  pub user_id : Option ℕ
  pub action : AuditAction
  pub resource_id : ℕ

pub record EdgeDb : Type 0 where
  pub licenses : List LicenseKey
  pub tenants : List Tenant
  pub agents : List AgentRow
  pub api_keys : List ApiKey
  pub audit : List AuditLog

abbrev pub find_license : ℕ → List LicenseKey → Option LicenseKey
find_license value [] = none
find_license value (l ∷ ls) = if l.license_key == value then some l else find_license value ls

abbrev pub get_license : ℕ → List LicenseKey → Option LicenseKey
get_license id [] = none
get_license id (l ∷ ls) = if l.id == id then some l else get_license id ls

abbrev pub get_tenant : ℕ → List Tenant → Option Tenant
get_tenant id [] = none
get_tenant id (t ∷ ts) = if t.id == id then some t else get_tenant id ts

-- `AgentRepository.get_by_id`
abbrev pub get_agent : ℕ → ℕ → List AgentRow → Option AgentRow
get_agent id tenant_id [] = none
get_agent id tenant_id (a ∷ rest) =
    if a.id == id && a.tenant_id == tenant_id then some a else get_agent id tenant_id rest

abbrev pub is_agent_type : ApiKeyOwnerType → Bool
is_agent_type agent = true
is_agent_type analytics = false
is_agent_type webhook = false

-- The row belongs to this agent of this tenant.
abbrev pub is_agent_key : ℕ → ℕ → ApiKey → Bool
is_agent_key owner_id tenant_id k =
    is_agent_type k.owner_type && (k.owner_id == owner_id && k.tenant_id == tenant_id)

-- `revoke_api_keys_for_owner` for an agent.
abbrev pub revoke_by_owner : ℕ → ℕ → List ApiKey → List ApiKey
revoke_by_owner owner_id tenant_id =
    map (λ k. if is_agent_key owner_id tenant_id k then record k { is_active = false } else k)

-- What one call generates, and the hash that it makes of a key, which a library computes.
pub record Fresh : Type 0 where
  pub agent_id : ℕ
  pub api_key_id : ℕ
  pub plain_key : ℕ
  pub hash_key : ℕ → ℕ

abbrev pub new_api_key : ℕ → ApiKeyOwnerType → ℕ → Fresh → ApiKey
new_api_key tenant_id owner_type owner_id fresh = record {
  id = fresh.api_key_id;
  tenant_id = tenant_id;
  owner_type = owner_type;
  owner_id = owner_id;
  key_hash = fresh.hash_key fresh.plain_key;
  is_active = true;
}

abbrev pub issue_api_key : ℕ → ApiKeyOwnerType → ℕ → Fresh → EdgeDb → EdgeDb
issue_api_key tenant_id owner_type owner_id fresh db = record db {
  api_keys = db.api_keys ++ new_api_key tenant_id owner_type owner_id fresh ∷ [];
}

abbrev pub create_agent : ℕ → AgentName → Fresh → EdgeDb → EdgeDb
create_agent tenant_id name fresh db =
    issue_api_key tenant_id ApiKeyOwnerType.agent fresh.agent_id fresh (record db {
      agents = db.agents ++ record { id = fresh.agent_id; tenant_id = tenant_id; name = name } ∷ [];
    })
