-- ===== src/Api/Activation/Release.antt =====
-- The release of a license from its machine (api/src/vms/edge/service.py): EdgeActivationService.unbind.
use next_sec.Prelude.{ℕ, ◌≡◌, refl, sym, ap, ◌∙◌, false, none, some, [], is_some}
use next_sec.Api.Errors.{done}
use next_sec.Api.EdgeDb.{LicenseKey, EdgeDb, find_license, get_license, Fresh}
use next_sec.Api.Activation.{
  Request, Activation, license_expired, usable_tenant, tenant_row, load_active_tenant, activate,
  unbind, release, revoked_for,
}
use next_sec.Api.Activation.Tables.{
  some_inj, assert_usable-intro, find-save_license, find_license-key,
}
use next_sec.Api.Activation.Binding.{activate-Bound}
use next_sec.Api.Activation.Keys.{active_keys, active_keys-revoke}
use next_sec.Api.Activation.Reactivation.{activate-intro, usable_tenant-intro}

-- After a license was activated it can be released: no key of the agent is active any more, so the
-- old installation is cut off, and while the license has not expired any machine may activate it next,
-- with an agent of its own.
pub unbind-releases :
    (expiry_now now actor expiry_now' now' : ℕ) (req req' : Request) (fresh fresh' : Fresh)
    (db db' : EdgeDb) (r : Activation) (l : LicenseKey)
    → find_license req.license_key_value db.licenses ≡ some l
    → license_expired expiry_now' l.expires_at ≡ false
    → activate expiry_now now req fresh db ≡ done (db', r)
    → req'.license_key_value ≡ req.license_key_value
    → (released : EdgeDb) × (db'' : EdgeDb) × (r' : Activation) × (unbind l.id actor db'
        ≡ done released)
      × (active_keys r.agent_id r.tenant.id released.api_keys ≡ [])
      × (activate expiry_now' now' req' fresh' released ≡ done (db'', r'))
      × (r'.agent_id ≡ fresh'.agent_id)
unfolding unbind
unbind-releases en n actor en' n' req req' fresh fresh' db db' r l found_l valid p same =
    let (l0, found_0, b) = activate-Bound en n req fresh db db' r p in
    let same_l : l0 ≡ l = some_inj l0 l (sym found_0 ∙ found_l) in
    let u = record b.l' {
      hardware_fingerprint = none;
      activated_hostname = none;
      agent_id = none;
    } in
    let freed =
      find-save_license req.license_key_value b.l' u db'.licenses b.found_again refl
        (find_license-key req.license_key_value b.l' db'.licenses b.found_again) in
    let usable =
      assert_usable-intro en' u b.active (ap is_some b.tenant_kept)
        (ap (license_expired en') (b.expiry_kept ∙ ap (λ x. x.expires_at) same_l) ∙ valid) in
    let tenant : load_active_tenant u db' ≡ done r.tenant =
      ap (λ o. usable_tenant (tenant_row o db'.tenants)) b.tenant_kept
      ∙ ap usable_tenant b.tenant_here
      ∙ usable_tenant-intro r.tenant b.not_deleted b.tenant_active in
    let cut_off : active_keys r.agent_id r.tenant.id
          (revoked_for b.l'.agent_id b.l'.tenant_id db'.api_keys)
        ≡ [] =
      rw (b.agent_kept, b.tenant_kept) (active_keys-revoke r.agent_id r.tenant.id db'.api_keys) in
    let by_id : get_license l.id db'.licenses ≡ some b.l' =
      ap (λ x. get_license x.id db'.licenses) (sym same_l) ∙ b.by_id in
    (
      release actor b.l' db',
      _,
      _,
      rw by_id refl,
      cut_off,
      activate-intro en' n' req' fresh' (release actor b.l' db') u r.tenant _ (rw same freed) usable
          tenant refl refl,
      refl,
    )
