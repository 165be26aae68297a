-- ===== src/Agent/Credentials/Revoked.antt =====
-- A credential that the server refuses while EdgeAgent runs (edge_agent/src/agent/main.py).
use next_sec.Prelude.{
  ℕ, ◌≡◌, refl, sym, ◌∙◌, ap, Option, none, some, List, [], ◌∷◌, ◌++◌, Bool-cases, inl, inr, leb,
  ltb, ◌&&◌, if◌then◌else◌, is_some,
}
use next_sec.Agent.Credentials.{AgentCredentials, File, Write}
use next_sec.Agent.Credentials.Beats.{
  Exit, BeatBody, EdgeReply, EdgeAgent, AgentTurn, run_turn, unless_ended, run_turns, get_config,
  sync_config, send_heartbeat, post_heartbeat, beat_policy, raise_for_status,
}

sync_config-none : (e : Option Exit) → sync_config e ≡ none
sync_config-none none = refl
sync_config-none (some e) = refl

raise_for_status-caught : (status : ℕ) → send_heartbeat (raise_for_status status) ≡ none
raise_for_status-caught status = elim (Bool-cases (leb 200 status && ltb status 300)) [
  | inl good ↦ rw good refl
  | inr bad ↦ rw bad refl
]

-- An HTTP error of the plain heartbeat, a 401 among them, does not leave the loop.
post_heartbeat-caught : (status : Option ℕ) → send_heartbeat (post_heartbeat status) ≡ none
post_heartbeat-caught none = refl
post_heartbeat-caught (some status) = raise_for_status-caught status

refused_beat :
    (body : BeatBody) (w : Write) (o : Option AgentCredentials) (file : File)
    → beat_policy (EdgeReply.answered 401 body) w o file
      ≡ (record { credentials = o; file = file }, if is_some o then some Exit.revoked else none)
refused_beat body w none file = refl
refused_beat body w (some c) file = refl

refused_turn :
    (status : Option ℕ) (body : BeatBody) (w : Write) (a : EdgeAgent)
    → run_turn (AgentTurn.beat status (EdgeReply.answered 401 body) w) a
      ≡ (a, if is_some a.credentials then some Exit.revoked else none)
refused_turn status body w a =
    rw (post_heartbeat-caught status) (refused_beat body w a.credentials a.file)

unless_ended_cons :
    (f g h : EdgeAgent → EdgeAgent × Option Exit) (end : EdgeAgent × Option Exit)
    → ((a : EdgeAgent) → h a ≡ unless_ended g (f a))
    → unless_ended h end ≡ unless_ended g (unless_ended f end)
unless_ended_cons f g h (a, none) same = same a
unless_ended_cons f g h (a, some e) same = refl

run_turns-append :
    (ts us : List AgentTurn) (a : EdgeAgent)
    → run_turns (ts ++ us) a ≡ unless_ended (run_turns us) (run_turns ts a)
unfolding run_turns
run_turns-append [] us a = refl
run_turns-append (t ∷ ts) us a =
    unless_ended_cons (run_turns ts) (run_turns us) (run_turns (ts ++ us)) (run_turn t a)
      (run_turns-append ts us)

-- The next heartbeat of a license that the server refuses ends the run of an agent with credentials,
-- which keeps them and its file: after any turns that it came through, whatever the plain heartbeat
-- met, and before whatever turns were to follow.
pub run_turns-refused :
    (ts rest : List AgentTurn) (status : Option ℕ) (body : BeatBody) (w : Write) (a b : EdgeAgent)
    (c : AgentCredentials)
    → run_turns ts a ≡ (b, none)
    → b.credentials ≡ some c
    → run_turns (ts ++ AgentTurn.beat status (EdgeReply.answered 401 body) w ∷ rest) a
      ≡ (b, some Exit.revoked)
unfolding run_turns
run_turns-refused ts rest status body w a b c h g =
    let refused = AgentTurn.beat status (EdgeReply.answered 401 body) w in
    let stops : run_turn refused b ≡ (b, some Exit.revoked) =
      refused_turn status body w b
      ∙ ap (λ o. (b, if is_some o then some Exit.revoked else none)) g in
    run_turns-append ts (refused ∷ rest) a
    ∙ ap (unless_ended (run_turns (refused ∷ rest))) h
    ∙ ap (unless_ended (run_turns rest)) stops

identity_turn : (t : AgentTurn) (a : EdgeAgent) → a.credentials ≡ none → run_turn t a ≡ (a, none)
identity_turn (AgentTurn.poll status) a h = ap (λ e. (a, e)) (sync_config-none (get_config status))
identity_turn (AgentTurn.beat status reply w) a h = rw (post_heartbeat-caught status) (
    ap (λ o. beat_policy reply w o a.file) h
    ∙ ap (λ o. (record { credentials = o; file = a.file }, none)) (sym h))

-- An agent that runs with the identity of the environment goes on for ever: no answer of the server
-- to its polls and heartbeats, 401 to every one of them included, ends its run.
pub run_turns-identity :
    (ts : List AgentTurn) (a : EdgeAgent) → a.credentials ≡ none → run_turns ts a ≡ (a, none)
unfolding run_turns
run_turns-identity [] a h = refl
run_turns-identity (t ∷ ts) a h =
    ap (unless_ended (run_turns ts)) (identity_turn t a h) ∙ run_turns-identity ts a h
