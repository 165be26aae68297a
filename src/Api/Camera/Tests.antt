-- ===== src/Api/Camera/Tests.antt =====
-- Cameras of api/src/vms/cameras/domain.py.
use next_sec.Prelude.{◌≡◌, refl, true, none, some, List, [], ◌∷◌}
use next_sec.Prelude.Int.{pos, negsuc}
use next_sec.Api.Camera.{
  Camera, DomainEvent, activate_camera, deactivate, go_online, enable_analytics, update_location,
}
use next_sec.Api.Camera.Invariant.{
  Command, run_commands, IsConsistent, Origin, create, run_commands-IsConsistent,
}

abbrev gate : Origin
gate = Origin.pulled 1 7 3 "Portaria Norte" "rtsp://192.168.1.100:554/stream" 7 "high"

-- The latitude of the second call is below -90 degrees.
abbrev calls : List Command
calls =
    Command.goes_online 10
    ∷ Command.enables
    ∷ Command.locates (some (negsuc 900_000_000)) none none
    ∷ Command.deactivates
    ∷ Command.goes_online 20
    ∷ Command.activates
    ∷ Command.locates (some (negsuc 225_000_000)) (some (pos 1_800_000_000)) none
    ∷ []

abbrev online_gate : Camera
online_gate = record (create gate) { is_online = true }

run_commands_run :
    (run_commands calls (create gate)).domain_events
    ≡ DomainEvent.camera_activated 1 7
      ∷ DomainEvent.analytics_enabled 1 7
      ∷ DomainEvent.camera_deactivated 1 7
      ∷ DomainEvent.camera_activated 1 7
      ∷ []
unfolding go_online enable_analytics update_location deactivate activate_camera
run_commands_run = refl

run_commands-IsConsistent_example : IsConsistent (run_commands calls (create gate))
run_commands-IsConsistent_example = run_commands-IsConsistent gate calls
