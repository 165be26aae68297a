-- ===== src/Api/Activation.antt =====
-- The activation of an edge by its license: EdgeActivationService of api/src/vms/edge/service.py, with
-- what it calls of api/src/vms/cameras/service.py (the agents) and of api/src/vms/iam (the API keys).
-- The rows are those of Api/EdgeDb. The ids and the key that the call generates are an argument. All
-- errors are raised before the first write, so an error is a value without a database. A message that
-- quotes a value of a row is written without it; the log and the payload of the audit row are left out.
mod Inversion
mod Tables
pub mod Keys
pub mod Binding
mod LicenseIds
pub mod Locks
pub mod Reactivation
pub mod Release
mod Tests
use next_sec.Prelude.{
  ℕ, Bool, true, false, not, ◌&&◌, Option, none, some, List, [], ◌∷◌, ◌++◌, map, ltb, is_some,
  if◌then◌else◌, ◌==◌,
}
use Prim.Native.String.{String}
use text.Mathlib.Text.{◌==◌ as str_eq}
use next_sec.Api.Errors.{Error, Result, failed, done, and_then}
use next_sec.Api.EdgeDb.{
  LicenseKey, Tenant, AgentName, of_host, of_slug, AgentRow, ApiKeyOwnerType, ApiKey, AuditAction,
  AuditLog, EdgeDb, find_license, get_license, get_tenant, get_agent, is_agent_key, revoke_by_owner,
  Fresh, new_api_key, issue_api_key, create_agent,
}

pub record EdgePolicy : Type 0 where
  pub events_per_minute : ℕ
  pub batch_max_events : ℕ
  pub clip_seconds : ℕ
  pub clip_max_height : ℕ
  pub clip_retention_days : ℕ
  pub storage_quota_mb : ℕ

abbrev pub policy_from_license : LicenseKey → EdgePolicy
policy_from_license l = record {
  events_per_minute = l.events_per_minute;
  batch_max_events = 100;
  clip_seconds = l.clip_seconds;
  clip_max_height = l.clip_max_height;
  clip_retention_days = l.clip_retention_days;
  storage_quota_mb = l.storage_quota_mb;
}

abbrev pub license_expired : ℕ → Option ℕ → Bool
license_expired now none = false
license_expired now (some expires_at) = ltb expires_at now

unfoldable pub assert_usable : ℕ → LicenseKey → Result Unit
assert_usable now l =
    if not (str_eq l.status "active")
    then failed (Error.business_rule "Licença com status — não pode ser ativada.")
    else if license_expired now l.expires_at
    then failed (Error.business_rule "Licença expirada.")
    else if not (is_some l.tenant_id)
    then failed
        (Error.business_rule "Licença ainda não vinculada a um cliente. Fale com o suporte.")
    else done tt

abbrev pub usable_tenant : Option Tenant → Result Tenant
usable_tenant none =
    failed (Error.not_found "Cliente desta licença não existe mais. Fale com o suporte.")
usable_tenant (some t) =
    if is_some t.deleted_at
    then failed (Error.not_found "Cliente desta licença não existe mais. Fale com o suporte.")
    else if not t.is_active
    then failed (Error.business_rule "Conta suspensa. Fale com o suporte.")
    else done t

-- `db.get(TenantModel, license_key.tenant_id)`
abbrev pub tenant_row : Option ℕ → List Tenant → Option Tenant
tenant_row none ts = none
tenant_row (some id) ts = get_tenant id ts

abbrev pub load_active_tenant : LicenseKey → EdgeDb → Result Tenant
load_active_tenant l db = usable_tenant (tenant_row l.tenant_id db.tenants)

-- `bool(bound)`: there is a fingerprint, and it is not empty.
abbrev pub is_bound : Option ℕ → Bool
is_bound none = false
is_bound (some f) = not (f == 0)

abbrev pub is_bound_elsewhere : Option ℕ → ℕ → Bool
is_bound_elsewhere none fingerprint = false
is_bound_elsewhere (some f) fingerprint = not (f == 0) && not (f == fingerprint)

abbrev pub agent_name : ℕ → Tenant → AgentName
agent_name hostname t = if hostname == 0 then of_slug t.slug else of_host hostname

-- The agent that is reused, if there is one.
abbrev pub reused_agent : Bool → Option ℕ → Option ℕ
reused_agent false agent_id = none
reused_agent true agent_id = agent_id

abbrev pub reissue : ℕ → ℕ → Fresh → EdgeDb → EdgeDb
reissue agent_id tenant_id fresh db =
    issue_api_key tenant_id ApiKeyOwnerType.agent agent_id fresh
      (record db { api_keys = revoke_by_owner agent_id tenant_id db.api_keys })

-- The new rows and the agent's id.
abbrev pub credentials_for : Option ℕ → Tenant → ℕ → Fresh → EdgeDb → Result (EdgeDb × ℕ)
credentials_for none t hostname fresh db =
    done (create_agent t.id (agent_name hostname t) fresh db, fresh.agent_id)
credentials_for (some agent_id) t hostname fresh db =
    if is_some (get_agent agent_id t.id db.agents)
    then done (reissue agent_id t.id fresh db, agent_id)
    else failed (Error.not_found "Agent")

abbrev pub issue_agent_credentials :
    LicenseKey → Tenant → ℕ → Bool → Fresh → EdgeDb → Result (EdgeDb × ℕ)
issue_agent_credentials l t hostname reactivating fresh db =
    credentials_for (reused_agent reactivating l.agent_id) t hostname fresh db

pub record Request : Type 0 where
  pub license_key_value : ℕ
  pub hardware_fingerprint : ℕ
  pub hostname : ℕ
  pub agent_version : ℕ

-- `new or old`, for a text
abbrev pub or_else : ℕ → Option ℕ → Option ℕ
or_else new old = if new == 0 then old else some new

abbrev pub first_time : ℕ → Option ℕ → Option ℕ
first_time now none = some now
first_time now (some at) = some at

abbrev pub bound_license : ℕ → Request → ℕ → LicenseKey → LicenseKey
bound_license now req agent_id l = record l {
  hardware_fingerprint = some req.hardware_fingerprint;
  activated_hostname = or_else req.hostname l.activated_hostname;
  agent_id = some agent_id;
  agent_version = or_else req.agent_version l.agent_version;
  last_seen_at = some now;
  activated_at = first_time now l.activated_at;
}

abbrev pub onboarded : LicenseKey → Tenant → Tenant
onboarded l t = record t {
  onboarding_complete = true;
  license_key_id =
      if is_some l.tenant_id && not (is_some t.license_key_id) then some l.id else t.license_key_id;
}

abbrev pub save_license : LicenseKey → List LicenseKey → List LicenseKey
save_license l = map (λ x. if x.id == l.id then l else x)

abbrev pub save_tenant : Tenant → List Tenant → List Tenant
save_tenant t = map (λ x. if x.id == t.id then t else x)

pub record Activation : Type 0 where
  pub agent_id : ℕ
  pub api_key : ℕ
  pub tenant : Tenant
  pub policy : EdgePolicy

-- The writes after the credentials, up to the commit, and the answer.
abbrev pub finish : ℕ → Request → Fresh → LicenseKey → Tenant → EdgeDb → ℕ → EdgeDb × Activation
finish now req fresh l t db agent_id =
    let l' = bound_license now req agent_id l in
    let t' = onboarded l t in
    (
      record db {
        licenses = save_license l' db.licenses;
        tenants = save_tenant t' db.tenants;
        audit =
            db.audit
            ++ record {
              tenant_id = some t.id;
              user_id = none;
              action =
                  if is_bound l.hardware_fingerprint
                  then AuditAction.edge_reactivated
                  else AuditAction.edge_activated;
              resource_id = l.id;
            }
              ∷ [];
      },
      record {
        agent_id = agent_id;
        api_key = fresh.plain_key;
        tenant = t';
        policy = policy_from_license l';
      },
    )

abbrev pub found : {A : Type 0} → String → Option A → Result A
found message none = failed (Error.not_found message)
found message (some a) = done a

abbrev pub refuse_elsewhere : Option ℕ → ℕ → Result Unit
refuse_elsewhere bound fingerprint =
    if is_bound_elsewhere bound fingerprint
    then failed (
        Error.conflict
          "Esta licença já está ativada em outra máquina. Peça ao suporte para desvinculá-la antes de instalar aqui.")
    else done tt

abbrev pub issue_and_finish :
    ℕ → Request → Fresh → LicenseKey → Tenant → EdgeDb → Result (EdgeDb × Activation)
issue_and_finish now req fresh l t db =
    and_then (issue_agent_credentials l t req.hostname (is_bound l.hardware_fingerprint) fresh db)
      (λ c. done (finish now req fresh l t c.0 c.1))

-- The clock is read for the expiry, and again for the writes.
unfoldable pub activate : ℕ → ℕ → Request → Fresh → EdgeDb → Result (EdgeDb × Activation)
activate expiry_now now req fresh db =
    and_then
      (found "Licença não encontrada. Confira a chave digitada."
        (find_license req.license_key_value db.licenses))
      (λ l. and_then (assert_usable expiry_now l) (λ _. and_then (load_active_tenant l db) (λ t.
        and_then (refuse_elsewhere l.hardware_fingerprint req.hardware_fingerprint)
          (λ _. issue_and_finish now req fresh l t db))))

abbrev pub revoked_for : Option ℕ → Option ℕ → List ApiKey → List ApiKey
revoked_for (some agent_id) (some tenant_id) keys = revoke_by_owner agent_id tenant_id keys
revoked_for (some agent_id) none keys = keys
revoked_for none tenant_id keys = keys

-- What `unbind` writes for the license it found.
abbrev pub release : ℕ → LicenseKey → EdgeDb → EdgeDb
release actor_user_id l db = record db {
  licenses =
      save_license
        (record l { hardware_fingerprint = none; activated_hostname = none; agent_id = none })
        db.licenses;
  api_keys = revoked_for l.agent_id l.tenant_id db.api_keys;
  audit =
      db.audit
      ++ record {
        tenant_id = l.tenant_id;
        user_id = some actor_user_id;
        action = AuditAction.edge_unbound;
        resource_id = l.id;
      }
        ∷ [];
}

unfoldable pub unbind : ℕ → ℕ → EdgeDb → Result EdgeDb
unbind license_key_id actor_user_id db =
    and_then (found "Licença não encontrada" (get_license license_key_id db.licenses))
      (λ l. done (release actor_user_id l db))
