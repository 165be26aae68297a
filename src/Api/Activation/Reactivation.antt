-- ===== src/Api/Activation/Reactivation.antt =====
-- Activating a license again, on the same machine or after its release (api/src/vms/edge/service.py).
use next_sec.Prelude.{ℕ, ◌≡◌, ◌≢◌, refl, sym, ap, ◌∙◌, true, false, some, arith, is_some, ==_refl}
use next_sec.Api.Errors.{done}
use next_sec.Api.EdgeDb.{LicenseKey, Tenant, EdgeDb, find_license, Fresh}
use next_sec.Api.Activation.{
  Request, Activation, assert_usable, license_expired, usable_tenant, tenant_row,
  load_active_tenant, activate, finish, is_bound_elsewhere, is_bound, reissue,
  issue_agent_credentials,
}
use next_sec.Api.Activation.Tables.{some_inj, assert_usable-intro}
use next_sec.Api.Activation.Binding.{Bound, activate-Bound}

pub activate-intro :
    (expiry_now now : ℕ) (req : Request) (fresh : Fresh) (db : EdgeDb) (l : LicenseKey) (t : Tenant)
    (c : EdgeDb × ℕ)
    → find_license req.license_key_value db.licenses ≡ some l
    → assert_usable expiry_now l ≡ done tt
    → load_active_tenant l db ≡ done t
    → is_bound_elsewhere l.hardware_fingerprint req.hardware_fingerprint ≡ false
    → issue_agent_credentials l t req.hostname (is_bound l.hardware_fingerprint) fresh db ≡ done c
    → activate expiry_now now req fresh db ≡ done (finish now req fresh l t c.0 c.1)
unfolding activate
activate-intro expiry_now now req fresh db l t c e0 e1 e2 e3 e4 =
    rw e0 (rw e1 (rw e2 (rw e3 (rw e4 refl))))

pub usable_tenant-intro :
    (t : Tenant)
    → is_some t.deleted_at ≡ false
    → t.is_active ≡ true
    → usable_tenant (some t) ≡ done t
usable_tenant-intro t alive on = simp (alive, on)

-- A license that an activation left passes the tests again, unless it has expired.
Bound-usable :
    (now value fingerprint : ℕ) (l : LicenseKey) (db' : EdgeDb) (r : Activation)
    (b : Bound value fingerprint l db' r)
    → license_expired now l.expires_at ≡ false
    → (assert_usable now b.l' ≡ done tt) × (load_active_tenant b.l' db' ≡ done r.tenant)
Bound-usable now value fingerprint l db' r b valid = (
  assert_usable-intro now b.l' b.active (ap is_some b.tenant_kept)
      (ap (license_expired now) b.expiry_kept ∙ valid),
  ap (λ o. usable_tenant (tenant_row o db'.tenants)) b.tenant_kept
      ∙ ap usable_tenant b.tenant_here
      ∙ usable_tenant-intro r.tenant b.not_deleted b.tenant_active,
)

here_again : (f : ℕ) → is_bound_elsewhere (some f) f ≡ false
here_again f = ground (arith, ==_refl f)

-- Right after an activation with a fingerprint that is not the empty text, the same machine may activate
-- again, as long as the license has not expired: it gets the agent it had, and no second agent is
-- created.
pub activate-again :
    (expiry_now now expiry_now' now' : ℕ) (req req' : Request) (fresh fresh' : Fresh)
    (db db' : EdgeDb) (r : Activation) (l : LicenseKey)
    → req.hardware_fingerprint ≢ 0
    → find_license req.license_key_value db.licenses ≡ some l
    → license_expired expiry_now' l.expires_at ≡ false
    → activate expiry_now now req fresh db ≡ done (db', r)
    → req'.license_key_value ≡ req.license_key_value
    → req'.hardware_fingerprint ≡ req.hardware_fingerprint
    → (db'' : EdgeDb) × (r' : Activation) × (activate expiry_now' now' req' fresh' db'
        ≡ done (db'', r'))
      × (r'.agent_id ≡ r.agent_id)
      × (db''.agents ≡ db'.agents)
activate-again en n en' n' req req' fresh fresh' db db' r l set found_l valid p same machine =
    let (l0, found_0, b) = activate-Bound en n req fresh db db' r p in
    let (usable, tenant) =
      Bound-usable en' req.license_key_value req.hardware_fingerprint l0 db' r b
        (rw (some_inj l0 l (sym found_0 ∙ found_l)) valid) in
    let again =
      activate-intro en' n' req' fresh' db' b.l' r.tenant
        (reissue r.agent_id r.tenant.id fresh' db', r.agent_id) (rw same b.found_again) usable
        tenant (rw (b.fingerprint_kept, machine) (here_again req.hardware_fingerprint))
        (rw (b.fingerprint_kept, set_fingerprint, b.agent_kept) (rw b.agent_here refl)) in
    (_, _, again, refl, refl)
  where
    set_fingerprint : is_bound (some req.hardware_fingerprint) ≡ true
    set_fingerprint = ground arith
