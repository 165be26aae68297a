-- ===== src/Agent/Credentials.antt =====
-- The credentials of an edge agent: CredentialStore, activate and ensure_activated of
-- edge_agent/src/agent/activation.py, and _resolve_credentials of edge_agent/src/agent/main.py.
-- Texts are numbers that are only compared, 0 for the empty one. What json.loads makes of a text is a
-- Json: an object has the keys that the code reads. The child Beats has the loops of EdgeAgent.
pub mod Beats
mod Restart
mod Saved
mod Revoked
mod Tests
use next_sec.Prelude.{
  ℕ, Bool, true, false, not, ◌&&◌, Option, none, some, List, [], ◌∷◌, ◌++◌, leb, ◌==◌,
  if◌then◌else◌,
}

pub record EdgePolicy : Type 0 where
  pub events_per_minute : ℕ
  pub batch_max_events : ℕ
  pub clip_seconds : ℕ
  pub clip_max_height : ℕ
  pub clip_retention_days : ℕ
  pub storage_quota_mb : ℕ
  pub heartbeat_seconds : ℕ
  pub config_poll_seconds : ℕ

-- A policy as an object of JSON, each key of which may be missing.
pub record PolicyData : Type 0 where
  pub events_per_minute : Option ℕ
  pub batch_max_events : Option ℕ
  pub clip_seconds : Option ℕ
  pub clip_max_height : Option ℕ
  pub clip_retention_days : Option ℕ
  pub storage_quota_mb : Option ℕ
  pub heartbeat_seconds : Option ℕ
  pub config_poll_seconds : Option ℕ

abbrev pub get_or : ℕ → Option ℕ → ℕ
get_or default none = default
get_or default (some v) = v

abbrev pub policy_from_dict : PolicyData → EdgePolicy
policy_from_dict d = record {
  events_per_minute = get_or 120 d.events_per_minute;
  batch_max_events = get_or 100 d.batch_max_events;
  clip_seconds = get_or 15 d.clip_seconds;
  clip_max_height = get_or 480 d.clip_max_height;
  clip_retention_days = get_or 30 d.clip_retention_days;
  storage_quota_mb = get_or 5120 d.storage_quota_mb;
  heartbeat_seconds = get_or 60 d.heartbeat_seconds;
  config_poll_seconds = get_or 300 d.config_poll_seconds;
}

-- `policy.__dict__`
abbrev pub policy_dict : EdgePolicy → PolicyData
policy_dict p = record {
  events_per_minute = some p.events_per_minute;
  batch_max_events = some p.batch_max_events;
  clip_seconds = some p.clip_seconds;
  clip_max_height = some p.clip_max_height;
  clip_retention_days = some p.clip_retention_days;
  storage_quota_mb = some p.storage_quota_mb;
  heartbeat_seconds = some p.heartbeat_seconds;
  config_poll_seconds = some p.config_poll_seconds;
}

abbrev no_policy : PolicyData
no_policy = record {
  events_per_minute = none;
  batch_max_events = none;
  clip_seconds = none;
  clip_max_height = none;
  clip_retention_days = none;
  storage_quota_mb = none;
  heartbeat_seconds = none;
  config_poll_seconds = none;
}

-- `data.get("policy") or {}`
abbrev pub policy_or_empty : Option PolicyData → PolicyData
policy_or_empty none = no_policy
policy_or_empty (some d) = d

pub record AgentCredentials : Type 0 where
  pub agent_id : ℕ
  pub api_key : ℕ
  pub tenant_id : ℕ
  pub tenant_name : ℕ
  pub api_base_url : ℕ
  pub rtmp_url : ℕ
  pub policy : EdgePolicy

pub record CredentialsData : Type 0 where
  pub agent_id : Option ℕ
  pub api_key : Option ℕ
  pub tenant_id : Option ℕ
  pub tenant_name : Option ℕ
  pub api_base_url : Option ℕ
  pub rtmp_url : Option ℕ
  pub policy : Option PolicyData

abbrev pub to_dict : AgentCredentials → CredentialsData
to_dict c = record {
  agent_id = some c.agent_id;
  api_key = some c.api_key;
  tenant_id = some c.tenant_id;
  tenant_name = some c.tenant_name;
  api_base_url = some c.api_base_url;
  rtmp_url = some c.rtmp_url;
  policy = some (policy_dict c.policy);
}

-- The four keys that are read with `data[...]`: none is a KeyError.
abbrev required :
    Option ℕ
    → Option ℕ
    → Option ℕ
    → Option ℕ
    → (ℕ → ℕ → ℕ → ℕ → AgentCredentials)
    → Option AgentCredentials
required (some a) (some k) (some t) (some u) build = some (build a k t u)
required _ _ _ _ build = none

abbrev pub from_dict : CredentialsData → Option AgentCredentials
from_dict d = required d.agent_id d.api_key d.tenant_id d.api_base_url (λ a k t u. record {
  agent_id = a;
  api_key = k;
  tenant_id = t;
  tenant_name = get_or 0 d.tenant_name;
  api_base_url = u;
  rtmp_url = get_or 0 d.rtmp_url;
  policy = policy_from_dict (policy_or_empty d.policy);
})

-- What json.loads answers: a ValueError, a value that is no object, or an object.
pub data Json : Type 0 where
  value_error : Json
  no_object : Json
  object : CredentialsData → Json

-- The message of an ActivationError, by the branch that writes it.
pub data ActivationMessage : Type 0 where
  no_connection not_found in_use bad_format too_many unavailable not_activated : ActivationMessage
  detail : ℕ → ActivationMessage
  could_not : ℕ → ActivationMessage

pub data AgentError : Type 0 where
  activation : ActivationMessage → Bool → AgentError
  permission_error os_error json_error type_error key_error attribute_error : AgentError

pub data Loaded : Type 0 where
  ok : Option AgentCredentials → Loaded
  raised : AgentError → Loaded

-- What agent.json is: not there, not to be read, or a text.
pub data File : Type 0 where
  absent : File
  denied : File
  unreadable : File
  holds : Json → File

abbrev pub exists : File → Bool
exists File.absent = false
exists _ = true

abbrev pub load : File → Loaded
load File.absent = Loaded.ok none
load File.denied = Loaded.raised AgentError.permission_error
load File.unreadable = Loaded.ok none
load (File.holds Json.value_error) = Loaded.ok none
load (File.holds Json.no_object) = Loaded.raised AgentError.type_error
load (File.holds (Json.object d)) = Loaded.ok (from_dict d)

-- A write ends well, or raises and leaves this behind.
pub data Write : Type 0 where
  written : Write
  broken : File → Write

abbrev pub save : Write → AgentCredentials → File
save Write.written c = File.holds (Json.object (to_dict c))
save (Write.broken left) c = left

abbrev pub save_error : Write → Option AgentError
save_error Write.written = none
save_error (Write.broken _) = some AgentError.os_error

-- The answer to `POST /edge/activate`; detail is its "message" or "detail", or 0.
pub data ActivateReply : Type 0 where
  http_error : ActivateReply
  answered : ℕ → Json → ℕ → ActivateReply

abbrev message_with : ℕ → ℕ → ActivationMessage
message_with status d =
    if status == 404
    then ActivationMessage.not_found
    else if status == 409
    then ActivationMessage.in_use
    else if status == 422
    then ActivationMessage.bad_format
    else if status == 429
    then ActivationMessage.too_many
    else if leb 500 status
    then ActivationMessage.unavailable
    else if d == 0
    then ActivationMessage.could_not status
    else ActivationMessage.detail d

-- The call of `get` on a value that is no object is an AttributeError.
abbrev pub refused : ℕ → Json → ℕ → AgentError
refused status Json.no_object d = AgentError.attribute_error
refused status Json.value_error d = AgentError.activation (message_with status 0) (leb 500 status)
refused status (Json.object _) d = AgentError.activation (message_with status d) (leb 500 status)

-- A KeyError, a ValueError or a TypeError of the body goes on to the caller.
abbrev or_key_error : Option AgentCredentials → Loaded
or_key_error none = Loaded.raised AgentError.key_error
or_key_error (some c) = Loaded.ok (some c)

abbrev accepted : Json → Loaded
accepted Json.value_error = Loaded.raised AgentError.json_error
accepted Json.no_object = Loaded.raised AgentError.type_error
accepted (Json.object d) = or_key_error (from_dict d)

abbrev pub activate : ActivateReply → Loaded
activate ActivateReply.http_error =
    Loaded.raised (AgentError.activation ActivationMessage.no_connection true)
activate (ActivateReply.answered status body d) =
    if status == 200 then accepted body else Loaded.raised (refused status body d)

-- agent.json and the license keys that were sent, the latest first.
pub record Machine : Type 0 where
  pub file : File
  pub posted : List ℕ

abbrev ended : AgentCredentials → Option AgentError → Loaded
ended c none = Loaded.ok (some c)
ended c (some e) = Loaded.raised e

abbrev pub store_new : Write → Machine → Loaded → Machine × Loaded
store_new w m (Loaded.ok (some c)) =
    (record { file = save w c; posted = m.posted }, ended c (save_error w))
store_new w m r = (m, r)

abbrev pub ensure_with : ActivateReply → Write → ℕ → Machine → Loaded → Machine × Loaded
ensure_with reply w license_key m (Loaded.ok none) =
    if license_key == 0
    then (m, Loaded.raised (AgentError.activation ActivationMessage.not_activated false))
    else store_new w (record { file = m.file; posted = license_key ∷ m.posted }) (activate reply)
ensure_with reply w license_key m r = (m, r)

abbrev pub ensure_activated : ActivateReply → Write → ℕ → Machine → Machine × Loaded
ensure_activated reply w license_key m = ensure_with reply w license_key m (load m.file)

pub record AgentSettings : Type 0 where
  pub license_key : ℕ
  pub agent_id : ℕ
  pub agent_api_key : ℕ

abbrev pub has_identity : AgentSettings → Bool
has_identity s = not (s.agent_id == 0) && not (s.agent_api_key == 0)

-- `except ActivationError`: the identity of the environment, if there is one.
abbrev pub or_identity : AgentSettings → Loaded → Loaded
or_identity s (Loaded.raised (AgentError.activation msg retryable)) =
    if has_identity s then Loaded.ok none else Loaded.raised (AgentError.activation msg retryable)
or_identity s r = r

abbrev pub after_load : AgentSettings → ActivateReply → Write → Machine → Loaded → Machine × Loaded
after_load s reply w m (Loaded.raised e) = (m, Loaded.raised e)
after_load s reply w m (Loaded.ok _) =
    if not (exists m.file) && s.license_key == 0
    then (m, Loaded.ok none)
    else let end = ensure_activated reply w s.license_key m in (end.0, or_identity s end.1)

-- `ok none` is the start without credentials, with what the environment says.
unfoldable pub resolve_credentials :
    AgentSettings → ActivateReply → Write → Machine → Machine × Loaded
resolve_credentials s reply w m = after_load s reply w m (load m.file)
