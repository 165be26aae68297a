-- ===== src/Agent/Credentials/Saved.antt =====
-- agent.json and the credentials in memory while EdgeAgent runs (edge_agent/src/agent/main.py), and a
-- start after the run.
use next_sec.Prelude.{
  ◌≡◌, refl, sym, ◌∙◌, ap, not, Option, none, some, List, [], ◌∷◌, Bool-cases, inl, inr, All,
}
use next_sec.Agent.Credentials.{
  policy_from_dict, policy_or_empty, AgentCredentials, Loaded, File, load, Write, ActivateReply,
  Machine, AgentSettings, resolve_credentials,
}
use next_sec.Agent.Credentials.Restart.{resolve-loaded, resolve-saves}
use next_sec.Agent.Credentials.Beats.{
  Exit, EdgeReply, BeatResult, EdgeAgent, AgentTurn, send_edge_heartbeat, policy_eq, with_policy,
  use_result, send_heartbeat, post_heartbeat, after_heartbeat, run_turn, unless_ended, run_turns,
}

-- The agent holds credentials, and the file loads as them.
abbrev pub IsSaved : EdgeAgent → Type 0
IsSaved a = (c : AgentCredentials) × (a.credentials ≡ some c) × (load a.file ≡ Loaded.ok (some c))

-- Every write of the turn ends well.
abbrev pub CanWrite : AgentTurn → Type 0
CanWrite (AgentTurn.poll _) = Unit
CanWrite (AgentTurn.beat _ _ w) = w ≡ Write.written

use_result-IsSaved :
    (c : AgentCredentials) (file : File) (r : BeatResult)
    → load file ≡ Loaded.ok (some c)
    → IsSaved (use_result Write.written c file r).0
use_result-IsSaved c file (BeatResult.raises e) h = (c, refl, h)
use_result-IsSaved c file BeatResult.nothing h = (c, refl, h)
use_result-IsSaved c file (BeatResult.brings d) h =
    let p = policy_from_dict (policy_or_empty d) in
    elim (Bool-cases (not (policy_eq p c.policy))) [
      | inl changed ↦ rw (changed, h) (with_policy p c, refl, refl)
      | inr same ↦ rw same (c, refl, h)
    ]

after_heartbeat-IsSaved :
    (e : Option Exit) (reply : EdgeReply) (a : EdgeAgent)
    → IsSaved a
    → IsSaved (after_heartbeat e reply Write.written a).0
after_heartbeat-IsSaved (some e) reply a h = h
after_heartbeat-IsSaved none reply a (c, g, h) =
    rw g (use_result-IsSaved c a.file (send_edge_heartbeat reply) h)

run_turn-IsSaved :
    (t : AgentTurn) (a : EdgeAgent) → CanWrite t → IsSaved a → IsSaved (run_turn t a).0
run_turn-IsSaved (AgentTurn.poll status) a w h = h
run_turn-IsSaved (AgentTurn.beat status reply w) a good h =
    rw good (after_heartbeat-IsSaved (send_heartbeat (post_heartbeat status)) reply a h)

unless_ended-IsSaved :
    (rest : EdgeAgent → EdgeAgent × Option Exit) (end : EdgeAgent × Option Exit)
    → ((a : EdgeAgent) → IsSaved a → IsSaved (rest a).0)
    → IsSaved end.0
    → IsSaved (unless_ended rest end).0
unless_ended-IsSaved rest (a, none) k h = k a h
unless_ended-IsSaved rest (a, some e) k h = h

run_turns-IsSaved :
    (ts : List AgentTurn) (a : EdgeAgent) → All CanWrite ts → IsSaved a → IsSaved (run_turns ts a).0
unfolding run_turns
run_turns-IsSaved [] a w h = h
run_turns-IsSaved (t ∷ ts) a w h =
    unless_ended-IsSaved (run_turns ts) (run_turn t a) (λ b. run_turns-IsSaved ts b w.1)
      (run_turn-IsSaved t a w.0 h)

-- A machine after a run that began with these credentials.
abbrev pub machine_after : List AgentTurn → AgentCredentials → Machine → Machine
machine_after ts c m = record {
  file = (run_turns ts (record { credentials = some c; file = m.file })).0.file;
  posted = m.posted;
}

-- Let a start end with credentials, and the agent then run through any heartbeats and polls, each
-- write of which ends well, to whatever end. The next start, with any settings, any server and any
-- disk, goes on with the credentials and the policy that the agent had in memory at last; it sends
-- no license and leaves the file as it is.
pub run_turns-restart :
    (s next_s : AgentSettings) (reply next_reply : ActivateReply) (w next_w : Write) (m : Machine)
    (c : AgentCredentials) (ts : List AgentTurn)
    → (resolve_credentials s reply w m).1 ≡ Loaded.ok (some c)
    → All CanWrite ts
    → resolve_credentials next_s next_reply next_w
        (machine_after ts c (resolve_credentials s reply w m).0)
      ≡ (
        machine_after ts c (resolve_credentials s reply w m).0,
        Loaded.ok
            (run_turns ts (record {
              credentials = some c;
              file = (resolve_credentials s reply w m).0.file;
            })).0.credentials,
      )
run_turns-restart s next_s reply next_reply w next_w m c ts h good =
    let started = (resolve_credentials s reply w m).0 in
    let after = machine_after ts c started in
    let saved =
      run_turns-IsSaved ts (record { credentials = some c; file = started.file }) good
        (c, refl, resolve-saves s reply w m c h) in
    resolve-loaded next_s next_reply next_w after saved.0 saved.2
    ∙ ap (λ o. (after, Loaded.ok o)) (sym saved.1)
