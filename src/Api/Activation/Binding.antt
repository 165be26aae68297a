-- ===== src/Api/Activation/Binding.antt =====
-- The bond of a license to a machine (api/src/vms/edge/service.py): what an activation leaves.
use next_sec.Prelude.{ℕ, ◌≡◌, refl, sym, ap, true, false, Option, none, some, List, arith, is_some}
use mathlib.Core.Path.{subst}
use text.Mathlib.Text.{◌==◌ as str_eq}
use next_sec.Api.Errors.{done}
use next_sec.Api.EdgeDb.{
  LicenseKey, Tenant, EdgeDb, find_license, get_license, get_tenant, get_agent, Fresh,
}
use next_sec.Api.Activation.{
  Request, Activation, tenant_row, save_tenant, activate, bound_license, onboarded, is_bound,
  reused_agent,
}
use next_sec.Api.Activation.Inversion.{activate-Passed}
use next_sec.Api.Activation.Tables.{
  find-save_license, find_license-key, get-save_license, get-save_tenant, load-tenant,
  assert_usable-done, credentials-Kept,
}

-- What an activation leaves: the license it bound, the tenant, and the agent's row.
pub record Bound (value fingerprint : ℕ) (l : LicenseKey) (db' : EdgeDb) (r : Activation)
    : Type 0 where
  pub l' : LicenseKey
  pub found_again : find_license value db'.licenses ≡ some l'
  pub by_id : get_license l.id db'.licenses ≡ some l'
  pub fingerprint_kept : l'.hardware_fingerprint ≡ some fingerprint
  pub agent_kept : l'.agent_id ≡ some r.agent_id
  pub expiry_kept : l'.expires_at ≡ l.expires_at
  pub tenant_kept : l'.tenant_id ≡ some r.tenant.id
  pub active : str_eq l'.status "active" ≡ true
  pub tenant_here : get_tenant r.tenant.id db'.tenants ≡ some r.tenant
  pub not_deleted : is_some r.tenant.deleted_at ≡ false
  pub tenant_active : r.tenant.is_active ≡ true
  pub agent_here : is_some (get_agent r.agent_id r.tenant.id db'.agents) ≡ true

pub activate-Bound :
    (expiry_now now : ℕ) (req : Request) (fresh : Fresh) (db db' : EdgeDb) (r : Activation)
    → activate expiry_now now req fresh db ≡ done (db', r)
    → (l : LicenseKey) × (find_license req.license_key_value db.licenses ≡ some l)
      × Bound req.license_key_value req.hardware_fingerprint l db' r
activate-Bound expiry_now now req fresh db db' r p =
    let s = activate-Passed expiry_now now req fresh db db' r p in
    let kept =
      credentials-Kept (reused_agent (is_bound s.l.hardware_fingerprint) s.l.agent_id) s.t
        req.hostname fresh db s.issued s.agent_id s.credentials in
    let (row, alive, on) = load-tenant s.t (tenant_row s.l.tenant_id db.tenants) s.tenant_found in
    let (status, sold) = assert_usable-done expiry_now s.l s.usable in
    let key = find_license-key req.license_key_value s.l db.licenses s.license_found in
    let l' = bound_license now req s.agent_id s.l in
    let t' = onboarded s.l s.t in
    let (tenant_is, saved) = tenant_saved s.l.tenant_id s.t t' db.tenants row refl in
    (
      s.l,
      s.license_found,
      subst (λ x. Bound req.license_key_value req.hardware_fingerprint s.l x.0 x.1) s.finished
          (record {
            l' = l';
            found_again = rw kept.licenses_kept (
                find-save_license req.license_key_value s.l l' db.licenses s.license_found refl
                  key);
            by_id =
                rw kept.licenses_kept
                  (get-save_license req.license_key_value s.l l' db.licenses s.license_found refl);
            fingerprint_kept = refl;
            agent_kept = refl;
            expiry_kept = refl;
            tenant_kept = tenant_is;
            active = status;
            tenant_here = rw kept.tenants_kept saved;
            not_deleted = alive;
            tenant_active = on;
            agent_here = kept.agent_here;
          }),
    )
  where
    tenant_saved :
        (o : Option ℕ) (t t' : Tenant) (ts : List Tenant)
        → tenant_row o ts ≡ some t
        → t'.id ≡ t.id
        → (o ≡ some t.id) × (get_tenant t.id (save_tenant t' ts) ≡ some t')
    tenant_saved none t t' ts h i = absurd (ground arith)
    tenant_saved (some id) t t' ts h i =
        let (is_id, saved) = get-save_tenant id t t' ts h i in (ap some (sym is_id), rw is_id saved)
