-- ===== src/Api/Camera.antt =====
-- The camera of api/src/vms/cameras/domain.py: class Camera, its factories, its transitions and the
-- events they record (AggregateRoot of api/src/vms/shared/kernel.py). An id is a number that is only
-- compared; a coordinate is a number of ten-millionths of a degree; a time is a number. The fields that
-- no method reads or writes are left out.
pub mod Invariant
pub mod Events
mod Tests
use next_sec.Prelude.{
  ℕ, ◌*◌, Bool, true, false, not, ◌&&◌, ◌||◌, Option, none, some, List, [], ◌∷◌, ◌++◌, is_some,
  if◌then◌else◌,
}
use next_sec.Prelude.Int.{ℤ, pos, negsuc, leb_ℤ}
use next_sec.Api.Errors.{Error, Result, failed, done}
use Prim.Native.String.{String}

pub data StreamProtocol : Type 0 where
  rtsp_pull rtmp_push onvif : StreamProtocol

-- The domain events, with the ids of the camera and of the tenant.
pub data DomainEvent : Type 0 where
  camera_activated : ℕ → ℕ → DomainEvent
  camera_deactivated : ℕ → ℕ → DomainEvent
  analytics_enabled : ℕ → ℕ → DomainEvent
  analytics_disabled : ℕ → ℕ → DomainEvent

pub record Camera : Type 0 where
  pub id : ℕ
  pub tenant_id : ℕ
  pub name : String
  pub stream_protocol : StreamProtocol
  pub rtsp_url : Option String
  pub rtmp_stream_key : Option String
  pub onvif_url : Option String
  pub onvif_username : Option String
  pub onvif_password : Option String
  pub address : Option String
  pub latitude : Option ℤ
  pub longitude : Option ℤ
  pub ia_enabled : Bool
  pub agent_id : Option ℕ
  pub retention_days : ℕ
  pub stream_quality : String
  pub is_active : Bool
  pub is_online : Bool
  pub last_seen_at : Option ℕ
  pub domain_events : List DomainEvent

-- The generated id and stream key are arguments.
abbrev pub create_rtmp_push : ℕ → String → ℕ → String → ℕ → String → Camera
create_rtmp_push id stream_key tenant_id name retention_days stream_quality = record {
  id = id;
  tenant_id = tenant_id;
  name = name;
  stream_protocol = rtmp_push;
  rtsp_url = none;
  rtmp_stream_key = some stream_key;
  onvif_url = none;
  onvif_username = none;
  onvif_password = none;
  address = none;
  latitude = none;
  longitude = none;
  ia_enabled = false;
  agent_id = none;
  retention_days = retention_days;
  stream_quality = stream_quality;
  is_active = true;
  is_online = false;
  last_seen_at = none;
  domain_events = [];
}

abbrev pub create_rtsp_pull : ℕ → ℕ → ℕ → String → String → ℕ → String → Camera
create_rtsp_pull id tenant_id agent_id name rtsp_url retention_days stream_quality = record {
  id = id;
  tenant_id = tenant_id;
  name = name;
  stream_protocol = rtsp_pull;
  rtsp_url = some rtsp_url;
  rtmp_stream_key = none;
  onvif_url = none;
  onvif_username = none;
  onvif_password = none;
  address = none;
  latitude = none;
  longitude = none;
  ia_enabled = false;
  agent_id = some agent_id;
  retention_days = retention_days;
  stream_quality = stream_quality;
  is_active = true;
  is_online = false;
  last_seen_at = none;
  domain_events = [];
}

abbrev pub record_event : DomainEvent → Camera → Camera
record_event e c = record c { domain_events = c.domain_events ++ e ∷ [] }

unfoldable pub pull_events : Camera → Camera × List DomainEvent
pull_events c = (record c { domain_events = [] }, c.domain_events)

unfoldable pub activate_camera : Camera → Camera
activate_camera c =
    if c.is_active
    then c
    else record_event (camera_activated c.id c.tenant_id) (record c { is_active = true })

unfoldable pub deactivate : Camera → Camera
deactivate c =
    if not c.is_active
    then c
    else record_event (camera_deactivated c.id c.tenant_id)
        (record c { is_active = false; is_online = false; ia_enabled = false })

unfoldable pub go_online : ℕ → Camera → Result Camera
go_online now c =
    if not c.is_active
    then failed (Error.business_rule "Câmera inativa não pode ficar online")
    else done (
        record_event (camera_activated c.id c.tenant_id)
          (record c { is_online = true; last_seen_at = some now }))

unfoldable pub go_offline : Camera → Camera
go_offline c =
    if not c.is_online
    then c
    else record_event (camera_deactivated c.id c.tenant_id) (record c { is_online = false })

unfoldable pub enable_analytics : Camera → Result Camera
enable_analytics c =
    if not c.is_active
    then failed (Error.business_rule "Câmera inativa não pode ter analytics")
    else if c.ia_enabled
    then done c
    else done (record_event (analytics_enabled c.id c.tenant_id) (record c { ia_enabled = true }))

unfoldable pub disable_analytics : Camera → Camera
disable_analytics c =
    if not c.ia_enabled
    then c
    else record_event (analytics_disabled c.id c.tenant_id) (record c { ia_enabled = false })

-- `is_edge_managed`
abbrev pub is_edge_managed : Camera → Bool
is_edge_managed c = is_some c.agent_id

abbrev pub is_agent_based : StreamProtocol → Bool
is_agent_based rtsp_pull = true
is_agent_based rtmp_push = false
is_agent_based onvif = true

-- `-limit <= x <= limit`, for a number of degrees; a missing coordinate passes.
abbrev pub degrees : ℕ → ℕ
degrees n = n * 10_000_000

abbrev pub is_within : ℕ → Option ℤ → Bool
is_within limit none = true
is_within limit (some (pos n)) = leb_ℤ (pos n) (pos (degrees limit))
is_within limit (some (negsuc n)) = leb_ℤ (pos (ℕ.suc n)) (pos (degrees limit))

abbrev pub or_kept : {A : Type 0} → Option A → Option A → Option A
or_kept none old = old
or_kept (some new) old = some new

unfoldable pub update_location : Option ℤ → Option ℤ → Option String → Camera → Result Camera
update_location latitude longitude address c =
    if not (is_within 90 latitude)
    then failed (Error.business_rule "Latitude inválida")
    else if not (is_within 180 longitude)
    then failed (Error.business_rule "Longitude inválida")
    else done (record c {
      latitude = latitude;
      longitude = longitude;
      address = or_kept address c.address;
    })

unfoldable pub update_rtsp_credentials :
    Option String → Option String → Option String → Option String → Camera → Camera
update_rtsp_credentials rtsp_url onvif_url onvif_username onvif_password c = record c {
  rtsp_url = rtsp_url;
  onvif_url = or_kept onvif_url c.onvif_url;
  onvif_username = or_kept onvif_username c.onvif_username;
  onvif_password = or_kept onvif_password c.onvif_password;
}
