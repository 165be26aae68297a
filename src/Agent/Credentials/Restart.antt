-- ===== src/Agent/Credentials/Restart.antt =====
-- A start of the agent after another (edge_agent/src/agent/main.py, _resolve_credentials).
use next_sec.Prelude.{
  ℕ, ◌≡◌, refl, ◌∙◌, ap, Bool, true, false, not, ◌&&◌, none, some, ◌∷◌, ◌==◌, Bool-cases, inl, inr,
  arith,
}
use next_sec.Agent.Credentials.{
  AgentCredentials, AgentError, Loaded, File, load, exists, Write, ActivateReply, Machine,
  AgentSettings, or_identity, after_load, ensure_with, activate, store_new, resolve_credentials,
}

loaded-exists :
    (file : File) (c : AgentCredentials) → load file ≡ Loaded.ok (some c) → exists file ≡ true
loaded-exists File.absent c h = ground arith
loaded-exists File.denied c h = ground arith
loaded-exists File.unreadable c h = ground arith
loaded-exists (File.holds j) c h = refl

-- A file that loads is a start without a request, whatever the server and the disk would answer.
pub resolve-loaded :
    (s : AgentSettings) (reply : ActivateReply) (w : Write) (m : Machine) (c : AgentCredentials)
    → load m.file ≡ Loaded.ok (some c)
    → resolve_credentials s reply w m ≡ (m, Loaded.ok (some c))
unfolding resolve_credentials
resolve-loaded s reply w m c h =
    rw (h, loaded-exists m.file c h)
      (ap
        (λ l. (
          (ensure_with reply w s.license_key m l).0,
          or_identity s (ensure_with reply w s.license_key m l).1,
        ))
        h)

-- The credentials that an answer of the machine names are those that its file loads.
abbrev Kept : Machine × Loaded → Type 0
Kept (m, r) = (c : AgentCredentials) → r ≡ Loaded.ok (some c) → load m.file ≡ Loaded.ok (some c)

store_new-Kept :
    (s : AgentSettings) (w : Write) (m : Machine) (r : Loaded)
    → Kept ((store_new w m r).0, or_identity s (store_new w m r).1)
store_new-Kept s w m (Loaded.ok none) c h = ground arith
store_new-Kept s Write.written m (Loaded.ok (some d)) c h = h
store_new-Kept s (Write.broken left) m (Loaded.ok (some d)) c h = ground arith
store_new-Kept s w m (Loaded.raised (AgentError.activation msg b)) c h = ground arith
store_new-Kept s w m (Loaded.raised e) c h = ground arith

ensure_with-Kept :
    (s : AgentSettings) (reply : ActivateReply) (w : Write) (k : ℕ) (m : Machine) (r : Loaded)
    → load m.file ≡ r
    → Kept ((ensure_with reply w k m r).0, or_identity s (ensure_with reply w k m r).1)
ensure_with-Kept s reply w k m (Loaded.ok (some d)) g = λ c h. g ∙ h
ensure_with-Kept s reply w k m (Loaded.raised (AgentError.activation msg b)) g = λ c h. ground arith
ensure_with-Kept s reply w k m (Loaded.raised e) g = λ c h. ground arith
ensure_with-Kept s reply w k m (Loaded.ok none) g = elim (Bool-cases (k == 0)) [
  | inl no_key ↦ rw no_key (λ c h. ground arith)
  | inr key ↦
      rw key (store_new-Kept s w (record { file = m.file; posted = k ∷ m.posted }) (activate reply))
]

resolve-Kept :
    (s : AgentSettings) (reply : ActivateReply) (w : Write) (m : Machine) (r : Loaded)
    → load m.file ≡ r
    → Kept (after_load s reply w m r)
resolve-Kept s reply w m (Loaded.raised e) g = λ c h. ground arith
resolve-Kept s reply w m (Loaded.ok o) g =
    elim (Bool-cases (not (exists m.file) && s.license_key == 0)) [
      | inl neither ↦ rw neither (λ c h. ground arith)
      | inr some_way ↦ rw some_way (ensure_with-Kept s reply w s.license_key m (load m.file) refl)
    ]

-- What a start that ends with credentials leaves in agent.json are these credentials.
pub resolve-saves :
    (s : AgentSettings) (reply : ActivateReply) (w : Write) (m : Machine) (c : AgentCredentials)
    → (resolve_credentials s reply w m).1 ≡ Loaded.ok (some c)
    → load (resolve_credentials s reply w m).0.file ≡ Loaded.ok (some c)
unfolding resolve_credentials
resolve-saves s reply w m c h = resolve-Kept s reply w m (load m.file) refl c h

abbrev is_activation : Loaded → Bool
is_activation (Loaded.raised (AgentError.activation _ _)) = true
is_activation _ = false
