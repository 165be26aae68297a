-- ===== src/Api/Activation/Keys.antt =====
-- The API keys of an agent under the activation and the release of its license
-- (api/src/vms/edge/service.py).
use next_sec.Prelude.{
  ℕ, ◌≡◌, refl, ap, ◌∙◌, true, false, not, Option, none, some, List, [], ◌∷◌, arith, All, select,
  select-append, inl, inr, Bool-cases, Option-cases, if◌then◌else◌, ◌==◌,
}
use mathlib.Core.Path.{subst}
use mathlib.Core.List.{append-nil}
use next_sec.Api.Errors.{done}
use next_sec.Api.EdgeDb.{
  Tenant, EdgeDb, ApiKey, ApiKeyOwnerType, get_agent, is_agent_key, revoke_by_owner, Fresh,
  new_api_key,
}
use next_sec.Api.Activation.{Request, Activation, reused_agent, credentials_for, is_bound, activate}
use next_sec.Api.Activation.Inversion.{activate-Passed, done_inj, failed_not_done}

-- The keys with which an agent may sign in.
abbrev pub active_keys : ℕ → ℕ → List ApiKey → List ApiKey
active_keys agent_id tenant_id =
    select (λ k. if k.is_active then is_agent_key agent_id tenant_id k else false)

-- The keys of all others.
abbrev pub other_keys : ℕ → ℕ → List ApiKey → List ApiKey
other_keys agent_id tenant_id = select (λ k. not (is_agent_key agent_id tenant_id k))

-- An id that no key's owner has, as a new UUID is.
abbrev pub IsUnowned : ℕ → List ApiKey → Type 0
IsUnowned agent_id = All (λ k. (k.owner_id == agent_id) ≡ false)

pub active_keys-revoke :
    (a t : ℕ) (ks : List ApiKey) → active_keys a t (revoke_by_owner a t ks) ≡ []
active_keys-revoke a t [] = refl
active_keys-revoke a t (k ∷ ks) = elim (Bool-cases (is_agent_key a t k)) [
  | inl own ↦ rw own (active_keys-revoke a t ks)
  | inr other ↦ elim (Bool-cases k.is_active) [
    | inl on ↦ rw (other, on) (rw other (active_keys-revoke a t ks))
    | inr off ↦ rw (other, off) (active_keys-revoke a t ks)
  ]
]

unowned_key : (a t : ℕ) (k : ApiKey) → (k.owner_id == a) ≡ false → is_agent_key a t k ≡ false
unowned_key a t k h = ground arith

active_keys-unowned : (a t : ℕ) (ks : List ApiKey) → IsUnowned a ks → active_keys a t ks ≡ []
active_keys-unowned a t [] h = refl
active_keys-unowned a t (k ∷ ks) h = elim (Bool-cases k.is_active) [
  | inl on ↦ rw (on, unowned_key a t k h.0) (active_keys-unowned a t ks h.1)
  | inr off ↦ rw off (active_keys-unowned a t ks h.1)
]

other_keys-revoke :
    (a t : ℕ) (ks : List ApiKey) → other_keys a t (revoke_by_owner a t ks) ≡ other_keys a t ks
other_keys-revoke a t [] = refl
other_keys-revoke a t (k ∷ ks) = elim (Bool-cases (is_agent_key a t k)) [
  | inl own ↦ rw own (rw own (other_keys-revoke a t ks))
  | inr other ↦ rw other (rw other (ap (λ l. k ∷ l) (other_keys-revoke a t ks)))
]

key_of :
    (a t : ℕ) (fresh : Fresh)
    → is_agent_key a t (new_api_key t ApiKeyOwnerType.agent a fresh) ≡ true
key_of a t fresh = ground arith

-- The agent has one active key, the new one, and the keys of all others are as before.
IssuedTo : List ApiKey → ℕ → Fresh → EdgeDb × ℕ → Type 0
IssuedTo before t fresh (issued, a) =
    (active_keys a t issued.api_keys ≡ new_api_key t ApiKeyOwnerType.agent a fresh ∷ [])
    × (other_keys a t issued.api_keys ≡ other_keys a t before)

-- The keys after the credentials of an agent were issued.
credentials-keys :
    (o : Option ℕ) (t : Tenant) (hostname : ℕ) (fresh : Fresh) (db issued : EdgeDb) (a : ℕ)
    → IsUnowned fresh.agent_id db.api_keys
    → credentials_for o t hostname fresh db ≡ done (issued, a)
    → IssuedTo db.api_keys t.id fresh (issued, a)
unfolding IssuedTo
credentials-keys none t hostname fresh db issued a h p =
    subst (IssuedTo db.api_keys t.id fresh) (done_inj _ _ p) (
      select-append _ db.api_keys _
          ∙ rw
              (
                active_keys-unowned fresh.agent_id t.id db.api_keys h,
                key_of fresh.agent_id t.id fresh,
              )
              refl,
      select-append _ db.api_keys _ ∙ rw (key_of fresh.agent_id t.id fresh) (append-nil _),
    )
credentials-keys (some old) t hostname fresh db issued a h p =
    elim (Option-cases (get_agent old t.id db.agents)) [
      | inl gone ↦ absurd (failed_not_done _ _ (rw gone at p))
      | inr (row, here) ↦ subst (IssuedTo db.api_keys t.id fresh) (done_inj _ _ (rw here at p)) (
        select-append _ (revoke_by_owner old t.id db.api_keys) _
            ∙ rw (active_keys-revoke old t.id db.api_keys, key_of old t.id fresh) refl,
        select-append _ (revoke_by_owner old t.id db.api_keys) _
            ∙ rw (key_of old t.id fresh) (append-nil _ ∙ other_keys-revoke old t.id db.api_keys),
      )
    ]

-- An active key of an agent, as it stands in the table.
abbrev pub agent_key : ℕ → ℕ → ℕ → ℕ → ApiKey
agent_key tenant_id agent_id id key_hash = record {
  id = id;
  tenant_id = tenant_id;
  owner_type = ApiKeyOwnerType.agent;
  owner_id = agent_id;
  key_hash = key_hash;
  is_active = true;
}

-- An activation that succeeds leaves the agent with exactly one key that is active, whether the agent
-- is new or is reused: the one with the hash of the key that the answer gives. The keys of an earlier
-- installation are revoked. The keys of all other owners and tenants are as before. The generated
-- agent id is new.
pub activate-active_keys :
    (expiry_now now : ℕ) (req : Request) (fresh : Fresh) (db db' : EdgeDb) (r : Activation)
    → IsUnowned fresh.agent_id db.api_keys
    → activate expiry_now now req fresh db ≡ done (db', r)
    → (active_keys r.agent_id r.tenant.id db'.api_keys
        ≡ agent_key r.tenant.id r.agent_id fresh.api_key_id (fresh.hash_key r.api_key) ∷ [])
      × (other_keys r.agent_id r.tenant.id db'.api_keys
          ≡ other_keys r.agent_id r.tenant.id db.api_keys)
activate-active_keys expiry_now now req fresh db db' r h p =
    let s = activate-Passed expiry_now now req fresh db db' r p in
    subst
      (λ x.
        (active_keys x.1.agent_id x.1.tenant.id x.0.api_keys
          ≡ agent_key x.1.tenant.id x.1.agent_id fresh.api_key_id (fresh.hash_key x.1.api_key) ∷ [])
        × (other_keys x.1.agent_id x.1.tenant.id x.0.api_keys
            ≡ other_keys x.1.agent_id x.1.tenant.id db.api_keys))
      s.finished
      (unfold IssuedTo in
        credentials-keys (reused_agent (is_bound s.l.hardware_fingerprint) s.l.agent_id) s.t
          req.hostname fresh db s.issued s.agent_id h s.credentials)
