-- ===== src/Api/Activation/Inversion.antt =====
-- What an activation that succeeds has passed (api/src/vms/edge/service.py).
use next_sec.Prelude.{
  ℕ, ◌≡◌, refl, ap, Bool, true, false, Option, none, some, arith, ◌≢◌, inl, inr, Bool-cases,
}
use Prim.Native.String.{String}
use next_sec.Api.Errors.{Error, Result, failed, done, and_then}
use next_sec.Api.EdgeDb.{LicenseKey, Tenant, EdgeDb, find_license, Fresh}
use next_sec.Api.Activation.{
  Request, Activation, found, assert_usable, load_active_tenant, refuse_elsewhere,
  issue_agent_credentials, issue_and_finish, is_bound, is_bound_elsewhere, finish, activate,
}

abbrev pub is_done : {A : Type 0} → Result A → Bool
is_done (failed _) = false
is_done (done _) = true

module _ {A : Type 0} where
  value_or : A → Result A → A
  value_or a (failed _) = a
  value_or a (done b) = b

  pub done_inj : (a b : A) → done a ≡ done b → a ≡ b
  unfolding value_or
  done_inj a b p = ap (value_or a) p

  pub failed_not_done : (e : Error) (a : A) → failed e ≢ done a
  failed_not_done e a p = let q : false ≡ true = ap is_done p in absurd (ground arith)

module _ {A B : Type 0} where
  pub and_then-done :
      (x : Result A) (f : A → Result B) (b : B)
      → and_then x f ≡ done b
      → (a : A) × (x ≡ done a) × (f a ≡ done b)
  and_then-done (failed e) f b p = absurd (failed_not_done e b p)
  and_then-done (done a) f b p = (a, refl, p)

pub found-done :
    {A : Type 0} (message : String) (o : Option A) (a : A) → found message o ≡ done a → o ≡ some a
found-done message none a p = absurd (failed_not_done _ a p)
found-done message (some b) a p = ap some (done_inj b a p)

pub refuse-done :
    (bound : Option ℕ) (f : ℕ)
    → refuse_elsewhere bound f ≡ done tt
    → is_bound_elsewhere bound f ≡ false
refuse-done bound f p = elim (Bool-cases (is_bound_elsewhere bound f)) [
  | inl elsewhere ↦ absurd (failed_not_done _ tt (rw elsewhere at p))
  | inr here ↦ here
]

-- The license and the tenant that an activation found, and the credentials it issued.
pub record Passed (expiry_now now : ℕ) (req : Request) (fresh : Fresh) (db db' : EdgeDb)
    (r : Activation) : Type 0 where
  pub l : LicenseKey
  pub t : Tenant
  pub issued : EdgeDb
  pub agent_id : ℕ
  pub license_found : find_license req.license_key_value db.licenses ≡ some l
  pub usable : assert_usable expiry_now l ≡ done tt
  pub tenant_found : load_active_tenant l db ≡ done t
  pub not_elsewhere : is_bound_elsewhere l.hardware_fingerprint req.hardware_fingerprint ≡ false
  pub credentials :
      issue_agent_credentials l t req.hostname (is_bound l.hardware_fingerprint) fresh db
      ≡ done (issued, agent_id)
  pub finished : finish now req fresh l t issued agent_id ≡ (db', r)

pub activate-Passed :
    (expiry_now now : ℕ) (req : Request) (fresh : Fresh) (db db' : EdgeDb) (r : Activation)
    → activate expiry_now now req fresh db ≡ done (db', r)
    → Passed expiry_now now req fresh db db' r
unfolding activate
activate-Passed expiry_now now req fresh db db' r p =
    let (l, p0, p1) = and_then-done _ _ _ p in
    let (_, p2, p3) = and_then-done _ _ _ p1 in
    let (t, p4, p5) = and_then-done _ _ _ p3 in
    let (_, p6, p7) =
      and_then-done (refuse_elsewhere l.hardware_fingerprint req.hardware_fingerprint)
        (λ _. issue_and_finish now req fresh l t db) (db', r) p5 in
    let (c, p8, p9) =
      and_then-done
        (issue_agent_credentials l t req.hostname (is_bound l.hardware_fingerprint) fresh db)
        (λ c. done (finish now req fresh l t c.0 c.1)) (db', r) p7 in
    record {
      l = l;
      t = t;
      issued = c.0;
      agent_id = c.1;
      license_found = found-done _ _ l p0;
      usable = p2;
      tenant_found = p4;
      not_elsewhere = refuse-done l.hardware_fingerprint req.hardware_fingerprint p6;
      credentials = p8;
      finished = done_inj _ _ p9;
    }
