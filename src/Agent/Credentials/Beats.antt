-- ===== src/Agent/Credentials/Beats.antt =====
-- The loops of EdgeAgent (edge_agent/src/agent/main.py) as a sequence of turns, with the requests of
-- CloudClient (edge_agent/src/agent/cloud_client.py) that they wait for and the policy that a
-- heartbeat brings. The streams that _sync_config reconciles are in Agent/StreamManager.
-- An exception of the heartbeats other than a refusal ends them and not the polls, which go on
-- without a change of anything here.
use next_sec.Prelude.{
  ℕ, Bool, not, ◌&&◌, Option, none, some, List, [], ◌∷◌, leb, ltb, ◌==◌, if◌then◌else◌,
}
use next_sec.Agent.Credentials.{
  EdgePolicy, PolicyData, policy_from_dict, policy_or_empty, AgentCredentials, AgentError, Loaded,
  File, load, Write, save, save_error,
}

-- What leaves a loop: a CredentialsRevokedError, an HTTPError, or another exception.
pub data Exit : Type 0 where
  revoked : Exit
  http : Exit
  failed : AgentError → Exit

-- The result of `POST /edge/heartbeat`: no JSON, an empty object, or an object with or without a policy.
pub data BeatBody : Type 0 where
  invalid : BeatBody
  empty : BeatBody
  result : Option PolicyData → BeatBody

pub data EdgeReply : Type 0 where
  http_error : EdgeReply
  answered : ℕ → BeatBody → EdgeReply

pub data BeatResult : Type 0 where
  raises : Exit → BeatResult
  nothing : BeatResult
  brings : Option PolicyData → BeatResult

abbrev beat_json : BeatBody → BeatResult
beat_json BeatBody.invalid = BeatResult.raises (Exit.failed AgentError.json_error)
beat_json BeatBody.empty = BeatResult.nothing
beat_json (BeatBody.result p) = BeatResult.brings p

abbrev pub send_edge_heartbeat : EdgeReply → BeatResult
send_edge_heartbeat EdgeReply.http_error = BeatResult.nothing
send_edge_heartbeat (EdgeReply.answered status body) =
    if status == 401
    then BeatResult.raises Exit.revoked
    else if leb 400 status
    then BeatResult.nothing
    else beat_json body

abbrev pub with_policy : EdgePolicy → AgentCredentials → AgentCredentials
with_policy p c = record {
  agent_id = c.agent_id;
  api_key = c.api_key;
  tenant_id = c.tenant_id;
  tenant_name = c.tenant_name;
  api_base_url = c.api_base_url;
  rtmp_url = c.rtmp_url;
  policy = p;
}

abbrev pub update_loaded : Write → EdgePolicy → File → Loaded → File × Option AgentError
update_loaded w p file (Loaded.raised e) = (file, some e)
update_loaded w p file (Loaded.ok none) = (file, none)
update_loaded w p file (Loaded.ok (some current)) = (save w (with_policy p current), save_error w)

abbrev pub update_policy : Write → EdgePolicy → File → File × Option AgentError
update_policy w p file = update_loaded w p file (load file)

abbrev pub policy_eq : EdgePolicy → EdgePolicy → Bool
policy_eq p q =
    (p.events_per_minute == q.events_per_minute)
    && (p.batch_max_events == q.batch_max_events)
    && (p.clip_seconds == q.clip_seconds)
    && (p.clip_max_height == q.clip_max_height)
    && (p.clip_retention_days == q.clip_retention_days)
    && (p.storage_quota_mb == q.storage_quota_mb)
    && (p.heartbeat_seconds == q.heartbeat_seconds)
    && (p.config_poll_seconds == q.config_poll_seconds)

-- The credentials in memory and the file on the disk.
pub record EdgeAgent : Type 0 where
  pub credentials : Option AgentCredentials
  pub file : File

abbrev failed_with : Option AgentError → Option Exit
failed_with none = none
failed_with (some e) = some (Exit.failed e)

abbrev pub store_policy :
    AgentCredentials → EdgePolicy → File × Option AgentError → EdgeAgent × Option Exit
store_policy c p (file, e) =
    (record { credentials = some (with_policy p c); file = file }, failed_with e)

abbrev pub use_result : Write → AgentCredentials → File → BeatResult → EdgeAgent × Option Exit
use_result w c file (BeatResult.raises e) = (record { credentials = some c; file = file }, some e)
use_result w c file BeatResult.nothing = (record { credentials = some c; file = file }, none)
use_result w c file (BeatResult.brings d) =
    let p = policy_from_dict (policy_or_empty d) in
    if not (policy_eq p c.policy)
    then store_policy c p (update_policy w p file)
    else (record { credentials = some c; file = file }, none)

abbrev pub sync_policy : EdgeReply → Write → AgentCredentials → File → EdgeAgent × Option Exit
sync_policy reply w c file = use_result w c file (send_edge_heartbeat reply)

-- The status of a request of CloudClient, `none` where it raises an HTTPError.
abbrev pub raise_for_status : ℕ → Option Exit
raise_for_status status = if leb 200 status && ltb status 300 then none else some Exit.http

abbrev pub get_config : Option ℕ → Option Exit
get_config none = some Exit.http
get_config (some status) = if status == 401 then some Exit.revoked else raise_for_status status

-- `except Exception`: a CredentialsRevokedError is one.
abbrev pub sync_config : Option Exit → Option Exit
sync_config none = none
sync_config (some e) = none

abbrev pub post_heartbeat : Option ℕ → Option Exit
post_heartbeat none = some Exit.http
post_heartbeat (some status) = raise_for_status status

-- `except httpx.HTTPError`
abbrev pub send_heartbeat : Option Exit → Option Exit
send_heartbeat (some Exit.http) = none
send_heartbeat e = e

-- A turn of _poll_loop, with the status that it meets, or one of _heartbeat_loop.
pub data AgentTurn : Type 0 where
  poll : Option ℕ → AgentTurn
  beat : Option ℕ → EdgeReply → Write → AgentTurn

abbrev pub beat_policy :
    EdgeReply → Write → Option AgentCredentials → File → EdgeAgent × Option Exit
beat_policy reply w none file = (record { credentials = none; file = file }, none)
beat_policy reply w (some c) file = sync_policy reply w c file

abbrev pub after_heartbeat : Option Exit → EdgeReply → Write → EdgeAgent → EdgeAgent × Option Exit
after_heartbeat none reply w a = beat_policy reply w a.credentials a.file
after_heartbeat (some e) reply w a = (a, some e)

abbrev pub run_turn : AgentTurn → EdgeAgent → EdgeAgent × Option Exit
run_turn (AgentTurn.poll status) a = (a, sync_config (get_config status))
run_turn (AgentTurn.beat status reply w) a =
    after_heartbeat (send_heartbeat (post_heartbeat status)) reply w a

abbrev pub unless_ended :
    (EdgeAgent → EdgeAgent × Option Exit) → EdgeAgent × Option Exit → EdgeAgent × Option Exit
unless_ended rest (a, none) = rest a
unless_ended rest (a, some e) = (a, some e)

unfoldable pub run_turns : List AgentTurn → EdgeAgent → EdgeAgent × Option Exit
run_turns [] a = (a, none)
run_turns (t ∷ ts) a = unless_ended (run_turns ts) (run_turn t a)
