-- ===== src/Agent/Credentials/Tests.antt =====
-- Starts and runs of the agent of edge_agent/src/agent/main.py.
use next_sec.Prelude.{◌≡◌, refl, none, some, List, [], ◌∷◌, ◌++◌}
use next_sec.Agent.Credentials.{
  PolicyData, policy_from_dict, policy_or_empty, AgentCredentials, CredentialsData, AgentError,
  Json, Loaded, File, Write, ActivateReply, Machine, AgentSettings, resolve_credentials, to_dict,
}
use next_sec.Agent.Credentials.Beats.{Exit, BeatBody, EdgeReply, EdgeAgent, AgentTurn, run_turns}
use next_sec.Agent.Credentials.Saved.{machine_after, run_turns-restart}
use next_sec.Agent.Credentials.Revoked.{run_turns-refused, run_turns-identity}

-- The answer of the server names neither a policy nor a tenant.
abbrev answer : CredentialsData
answer = record {
  agent_id = some 7;
  api_key = some 8;
  tenant_id = some 9;
  tenant_name = none;
  api_base_url = some 10;
  rtmp_url = none;
  policy = none;
}

abbrev credentials : AgentCredentials
credentials = record {
  agent_id = 7;
  api_key = 8;
  tenant_id = 9;
  tenant_name = 0;
  api_base_url = 10;
  rtmp_url = 0;
  policy = policy_from_dict (policy_or_empty none);
}

abbrev accepting : ActivateReply
accepting = ActivateReply.answered 200 (Json.object answer) 0

abbrev with_license : AgentSettings
with_license = record { license_key = 5; agent_id = 0; agent_api_key = 0 }

abbrev with_identity : AgentSettings
with_identity = record { license_key = 5; agent_id = 1; agent_api_key = 2 }

abbrev fresh : Machine
fresh = record { file = File.absent; posted = [] }

-- The first start sends the license and saves what it got.
first_start : resolve_credentials with_license accepting Write.written fresh ≡ (
  record { file = File.holds (Json.object (to_dict credentials)); posted = 5 ∷ [] },
  Loaded.ok (some credentials),
)
unfolding resolve_credentials
first_start = refl

-- A heartbeat with clips of thirty seconds.
abbrev longer_clips : PolicyData
longer_clips = record {
  events_per_minute = none;
  batch_max_events = none;
  clip_seconds = some 30;
  clip_max_height = none;
  clip_retention_days = none;
  storage_quota_mb = none;
  heartbeat_seconds = none;
  config_poll_seconds = none;
}

abbrev turns : List AgentTurn
turns =
    AgentTurn.poll (some 401)
    ∷ AgentTurn.beat (some 200) (EdgeReply.answered 200 (BeatBody.result (some longer_clips)))
        Write.written
    ∷ []

started_machine :
    (resolve_credentials with_license accepting Write.written fresh).1
    ≡ Loaded.ok (some credentials)
unfolding resolve_credentials
started_machine = refl

run_turns-restart_example :
    resolve_credentials with_identity ActivateReply.http_error (Write.broken File.absent) (
      machine_after turns credentials
        (resolve_credentials with_license accepting Write.written fresh).0)
    ≡ (
      machine_after turns credentials
          (resolve_credentials with_license accepting Write.written fresh).0,
      Loaded.ok
          (run_turns turns (record {
            credentials = some credentials;
            file = (resolve_credentials with_license accepting Write.written fresh).0.file;
          })).0.credentials,
    )
run_turns-restart_example =
    run_turns-restart with_license with_identity accepting ActivateReply.http_error Write.written
      (Write.broken File.absent) fresh credentials turns started_machine (tt, (refl, tt))

-- An answer without credentials, and a file that is no object, end the start all the same.
not_an_object :
    (resolve_credentials with_identity accepting Write.written
      (record { file = File.holds Json.no_object; posted = [] })).1
    ≡ Loaded.raised AgentError.type_error
unfolding resolve_credentials
not_an_object = refl

abbrev running : EdgeAgent
running = record {
  credentials = some credentials;
  file = File.holds (Json.object (to_dict credentials));
}

abbrev poll_refused : List AgentTurn
poll_refused = AgentTurn.poll (some 401) ∷ []

still_running : run_turns poll_refused running ≡ (running, none)
unfolding run_turns
still_running = refl

run_turns-refused_example :
    run_turns
      (poll_refused
        ++ AgentTurn.beat (some 401) (EdgeReply.answered 401 BeatBody.invalid) Write.written
          ∷ poll_refused)
      running
    ≡ (running, some Exit.revoked)
run_turns-refused_example =
    run_turns-refused poll_refused poll_refused (some 401) BeatBody.invalid Write.written running
      running credentials still_running refl

abbrev by_identity : EdgeAgent
by_identity = record { credentials = none; file = File.absent }

run_turns-identity_example :
    run_turns
      (poll_refused
        ++ AgentTurn.beat (some 401) (EdgeReply.answered 401 BeatBody.invalid) Write.written ∷ [])
      by_identity
    ≡ (by_identity, none)
run_turns-identity_example =
    run_turns-identity
      (poll_refused
        ++ AgentTurn.beat (some 401) (EdgeReply.answered 401 BeatBody.invalid) Write.written ∷ [])
      by_identity refl
