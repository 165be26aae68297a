-- ===== src/Api/Activation/Tables.antt =====
-- What an activation leaves in the tables of licenses, tenants and agents (api/src/vms/edge/service.py).
use next_sec.Prelude.{
  ℕ, ◌≡◌, refl, ap, true, false, ◌&&◌, Option, none, some, List, [], ◌∷◌, ◌++◌, arith, inl, inr,
  Bool-cases, is_some, ◌==◌, ==_refl, ==_iff,
}
use mathlib.Core.Path.{subst}
use text.Mathlib.Text.{◌==◌ as str_eq}
use next_sec.Api.Errors.{done}
use next_sec.Api.EdgeDb.{
  LicenseKey, Tenant, EdgeDb, AgentRow, find_license, get_license, get_tenant, get_agent, Fresh,
}
use next_sec.Api.Activation.{
  assert_usable, license_expired, usable_tenant, credentials_for, save_license, save_tenant,
}
use next_sec.Api.Activation.Inversion.{done_inj, failed_not_done}

pub some_inj : {A : Type 0} (a b : A) → some a ≡ some b → a ≡ b
some_inj a b p = ap (λ o. elim o [ none ↦ a | some x ↦ x ]) p

pub find-save_license :
    (v : ℕ) (l l' : LicenseKey) (ls : List LicenseKey)
    → find_license v ls ≡ some l
    → l'.id ≡ l.id
    → (l'.license_key == v) ≡ true
    → find_license v (save_license l' ls) ≡ some l'
find-save_license v l l' [] h i k = absurd (ground arith)
find-save_license v l l' (x ∷ ls) h i k = elim (Bool-cases (x.license_key == v)) [
  | inl here ↦
      let same : x ≡ l = some_inj x l (rw here at h) in
      let own : (x.id == l'.id) ≡ true = rw (i, same) (==_refl l.id) in rw own (rw k refl)
  | inr away ↦ elim (Bool-cases (x.id == l'.id)) [
    | inl own ↦ rw own (rw k refl)
    | inr other ↦ rw other (rw away (find-save_license v l l' ls (rw away at h) i k))
  ]
]

pub find_license-key :
    (v : ℕ) (l : LicenseKey) (ls : List LicenseKey)
    → find_license v ls ≡ some l
    → (l.license_key == v) ≡ true
find_license-key v l [] h = absurd (ground arith)
find_license-key v l (x ∷ ls) h = elim (Bool-cases (x.license_key == v)) [
  | inl here ↦ rw (← some_inj x l (rw here at h)) here
  | inr away ↦ find_license-key v l ls (rw away at h)
]

pub get-save_license :
    (v : ℕ) (l l' : LicenseKey) (ls : List LicenseKey)
    → find_license v ls ≡ some l
    → l'.id ≡ l.id
    → get_license l.id (save_license l' ls) ≡ some l'
get-save_license v l l' [] h i = absurd (ground arith)
get-save_license v l l' (x ∷ ls) h i = elim (Bool-cases (x.id == l'.id)) [
  | inl own ↦ rw own (rw (i, ==_refl l.id) refl)
  | inr other ↦ elim (Bool-cases (x.license_key == v)) [
    | inl here ↦
        let same : x ≡ l = some_inj x l (rw here at h) in
        let own : (x.id == l'.id) ≡ true = rw (i, same) (==_refl l.id) in
        absurd (ground (arith, own, other))
    | inr away ↦
        let apart : (x.id == l.id) ≡ false = rw i at other in
        rw other (rw apart (get-save_license v l l' ls (rw away at h) i))
  ]
]

pub get-save_tenant :
    (id : ℕ) (t t' : Tenant) (ts : List Tenant)
    → get_tenant id ts ≡ some t
    → t'.id ≡ t.id
    → (t.id ≡ id) × (get_tenant id (save_tenant t' ts) ≡ some t')
get-save_tenant id t t' [] h i = absurd (ground arith)
get-save_tenant id t t' (x ∷ ts) h i = elim (Bool-cases (x.id == id)) [
  | inl here ↦
      let same : x ≡ t = some_inj x t (rw here at h) in
      let own : (x.id == t'.id) ≡ true = rw (i, same) (==_refl t.id) in
      let id_of : (t.id == id) ≡ true = rw (← same) here in
      let is_id : t.id ≡ id = (==_iff t.id id).0 id_of in (is_id, rw own (rw (i, id_of) refl))
  | inr away ↦
      let (is_id, kept) = get-save_tenant id t t' ts (rw away at h) i in
      (
        is_id,
        elim (Bool-cases (x.id == t'.id)) [
          | inl own ↦ absurd (same_id own away is_id)
          | inr other ↦ rw other (rw away kept)
        ],
      )
]
  where
    same_id : (x.id == t'.id) ≡ true → (x.id == id) ≡ false → t.id ≡ id → ⊥
    same_id own away is_id = ground (arith, i)

-- A tenant that may activate, with its row.
pub load-tenant :
    (t : Tenant) (o : Option Tenant)
    → usable_tenant o ≡ done t
    → (o ≡ some t) × (is_some t.deleted_at ≡ false) × (t.is_active ≡ true)
load-tenant t none h = absurd (failed_not_done _ t h)
load-tenant t (some x) h = elim (Bool-cases (is_some x.deleted_at)) [
  | inl gone ↦ absurd (failed_not_done _ t (rw gone at h))
  | inr here ↦ elim (Bool-cases x.is_active) [
    | inl on ↦
        let same : x ≡ t = done_inj x t (simp (here, on) at h) in
        (ap some same, rw (← same) here, rw (← same) on)
    | inr off ↦ absurd (failed_not_done _ t (rw (here, off) at h))
  ]
]

pub assert_usable-done :
    (now : ℕ) (l : LicenseKey)
    → assert_usable now l ≡ done tt
    → (str_eq l.status "active" ≡ true) × (is_some l.tenant_id ≡ true)
unfolding assert_usable
assert_usable-done now l h = elim (Bool-cases (str_eq l.status "active")) [
  | inr other ↦ absurd (failed_not_done _ tt (rw other at h))
  | inl active ↦ elim (Bool-cases (license_expired now l.expires_at)) [
    | inl late ↦ absurd (failed_not_done _ tt (rw (active, late) at h))
    | inr valid ↦ elim (Bool-cases (is_some l.tenant_id)) [
      | inl sold ↦ (active, sold)
      | inr unsold ↦ absurd (failed_not_done _ tt (rw (active, valid, unsold) at h))
    ]
  ]
]

pub assert_usable-intro :
    (now : ℕ) (l : LicenseKey)
    → str_eq l.status "active" ≡ true
    → is_some l.tenant_id ≡ true
    → license_expired now l.expires_at ≡ false
    → assert_usable now l ≡ done tt
unfolding assert_usable
assert_usable-intro now l active sold valid = rw (active, valid, sold) refl

-- Issuing credentials writes no license and no tenant, and its agent has a row.
pub record Kept (db issued : EdgeDb) (tenant_id agent_id : ℕ) : Type 0 where
  pub licenses_kept : issued.licenses ≡ db.licenses
  pub tenants_kept : issued.tenants ≡ db.tenants
  pub agent_here : is_some (get_agent agent_id tenant_id issued.agents) ≡ true

get_agent-append :
    (a t : ℕ) (row : AgentRow) (rows : List AgentRow)
    → (row.id == a) ≡ true
    → (row.tenant_id == t) ≡ true
    → is_some (get_agent a t (rows ++ row ∷ [])) ≡ true
get_agent-append a t row [] h k = rw (h, k) refl
get_agent-append a t row (x ∷ rows) h k = elim (Bool-cases (x.id == a && x.tenant_id == t)) [
  | inl here ↦ rw here refl
  | inr away ↦ rw away (get_agent-append a t row rows h k)
]

pub credentials-Kept :
    (o : Option ℕ) (t : Tenant) (hostname : ℕ) (fresh : Fresh) (db issued : EdgeDb) (a : ℕ)
    → credentials_for o t hostname fresh db ≡ done (issued, a)
    → Kept db issued t.id a
credentials-Kept none t hostname fresh db issued a p =
    subst (λ x. Kept db x.0 t.id x.1) (done_inj _ _ p)
      (record {
        licenses_kept = refl;
        tenants_kept = refl;
        agent_here =
            get_agent-append fresh.agent_id t.id _ db.agents (==_refl fresh.agent_id)
              (==_refl t.id);
      })
credentials-Kept (some old) t hostname fresh db issued a p =
    elim (Bool-cases (is_some (get_agent old t.id db.agents))) [
      | inr gone ↦ absurd (failed_not_done _ _ (rw gone at p))
      | inl here ↦
          subst (λ x. Kept db x.0 t.id x.1) (done_inj _ _ (rw here at p))
            (record { licenses_kept = refl; tenants_kept = refl; agent_here = here })
    ]
