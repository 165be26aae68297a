-- ===== src/Api/Camera/Invariant.antt =====
-- The invariants that the docstring of Camera in api/src/vms/cameras/domain.py lists, over the life of
-- a camera.
use next_sec.Prelude.{
  ℕ, ◌≡◌, refl, Bool, true, false, not, ◌&&◌, ◌||◌, Option, some, List, [], ◌∷◌, arith, is_some,
  if◌then◌else◌,
}
use next_sec.Prelude.Int.{ℤ}
use next_sec.Api.Errors.{Result, failed, done}
use Prim.Native.String.{String}
use next_sec.Api.Camera.{
  Camera, DomainEvent, create_rtmp_push, create_rtsp_pull, activate_camera, deactivate, go_online,
  go_offline, enable_analytics, disable_analytics, update_location, update_rtsp_credentials,
  pull_events, is_agent_based, is_within,
}

-- What may be called on a camera.
pub data Command : Type 0 where
  activates deactivates goes_offline enables disables pulls : Command
  goes_online : ℕ → Command
  locates : Option ℤ → Option ℤ → Option String → Command
  sets_credentials : Option String → Option String → Option String → Option String → Command

-- A call that raises changes nothing.
abbrev pub kept_or : Camera → Result Camera → Camera
kept_or c (failed _) = c
kept_or c (done c') = c'

abbrev pub run_command : Command → Camera → Camera
run_command activates c = activate_camera c
run_command deactivates c = deactivate c
run_command goes_offline c = go_offline c
run_command enables c = kept_or c (enable_analytics c)
run_command disables c = disable_analytics c
run_command pulls c = (pull_events c).0
run_command (goes_online now) c = kept_or c (go_online now c)
run_command (locates latitude longitude address) c =
    kept_or c (update_location latitude longitude address c)
run_command (sets_credentials rtsp_url onvif_url username password) c =
    update_rtsp_credentials rtsp_url onvif_url username password c

abbrev pub run_commands : List Command → Camera → Camera
run_commands [] c = c
run_commands (x ∷ xs) c = run_commands xs (run_command x c)

-- An inactive camera is offline and has no analytics; a camera that pushes has a stream key and no
-- agent, any other has an agent; the coordinates are on the globe.
pub record IsConsistent (c : Camera) : Type 0 where
  pub inactive_idle : (c.is_active || (not c.is_online && not c.ia_enabled)) ≡ true
  pub push_alone :
      (is_agent_based c.stream_protocol || (is_some c.rtmp_stream_key && not (is_some c.agent_id)))
      ≡ true
  pub pull_agent : (not (is_agent_based c.stream_protocol) || is_some c.agent_id) ≡ true
  pub latitude_within : is_within 90 c.latitude ≡ true
  pub longitude_within : is_within 180 c.longitude ≡ true

-- Only the three flags changed, and they are as they should be.
with_flags :
    (c : Camera) (active online ia : Bool) (seen : Option ℕ) (events : List DomainEvent)
    → IsConsistent c
    → (active || (not online && not ia)) ≡ true
    → IsConsistent (record c {
      is_active = active;
      is_online = online;
      ia_enabled = ia;
      last_seen_at = seen;
      domain_events = events;
    })
with_flags c active online ia seen events h k = record {
  inactive_idle = k;
  push_alone = h.push_alone;
  pull_agent = h.pull_agent;
  latitude_within = h.latitude_within;
  longitude_within = h.longitude_within;
}

is_true : (b : Bool) → not b ≡ false → b ≡ true
is_true true h = refl
is_true false h = absurd (ground arith)

by_test :
    (b : Bool) (x y : Camera)
    → (b ≡ true → IsConsistent x)
    → (b ≡ false → IsConsistent y)
    → IsConsistent (if b then x else y)
by_test true x y h k = h refl
by_test false x y h k = k refl

by_test_kept :
    (b : Bool) (c : Camera) (x y : Result Camera)
    → (b ≡ true → IsConsistent (kept_or c x))
    → (b ≡ false → IsConsistent (kept_or c y))
    → IsConsistent (kept_or c (if b then x else y))
by_test_kept true c x y h k = h refl
by_test_kept false c x y h k = k refl

run_command-IsConsistent :
    (x : Command) (c : Camera) → IsConsistent c → IsConsistent (run_command x c)
unfolding activate_camera deactivate go_offline enable_analytics disable_analytics pull_events
    go_online update_location update_rtsp_credentials
run_command-IsConsistent activates c h =
    by_test c.is_active _ _ (λ _. h)
      (λ _. with_flags c true c.is_online c.ia_enabled c.last_seen_at _ h refl)
run_command-IsConsistent deactivates c h =
    by_test (not c.is_active) _ _ (λ _. h)
      (λ _. with_flags c false false false c.last_seen_at _ h refl)
run_command-IsConsistent goes_offline c h =
    by_test (not c.is_online) _ _ (λ _. h)
      (λ _.
        with_flags c c.is_active false c.ia_enabled c.last_seen_at _ h
          (ground (arith, h.inactive_idle)))
run_command-IsConsistent enables c h =
    by_test_kept (not c.is_active) c _ _ (λ _. h)
      (λ on.
        by_test_kept c.ia_enabled c _ _ (λ _. h)
          (λ _. with_flags c c.is_active c.is_online true c.last_seen_at _ h (ground (arith, on))))
run_command-IsConsistent disables c h =
    by_test (not c.ia_enabled) _ _ (λ _. h)
      (λ _.
        with_flags c c.is_active c.is_online false c.last_seen_at _ h
          (ground (arith, h.inactive_idle)))
run_command-IsConsistent pulls c h =
    with_flags c c.is_active c.is_online c.ia_enabled c.last_seen_at [] h h.inactive_idle
run_command-IsConsistent (goes_online now) c h =
    by_test_kept (not c.is_active) c _ _ (λ _. h)
      (λ on. with_flags c c.is_active true c.ia_enabled (some now) _ h (ground (arith, on)))
run_command-IsConsistent (locates latitude longitude address) c h =
    by_test_kept (not (is_within 90 latitude)) c _ _ (λ _. h)
      (λ lat.
        by_test_kept (not (is_within 180 longitude)) c _ _ (λ _. h)
          (λ long. record {
            inactive_idle = h.inactive_idle;
            push_alone = h.push_alone;
            pull_agent = h.pull_agent;
            latitude_within = is_true (is_within 90 latitude) lat;
            longitude_within = is_true (is_within 180 longitude) long;
          }))
run_command-IsConsistent (sets_credentials rtsp_url onvif_url username password) c h = record {
  inactive_idle = h.inactive_idle;
  push_alone = h.push_alone;
  pull_agent = h.pull_agent;
  latitude_within = h.latitude_within;
  longitude_within = h.longitude_within;
}

-- How a camera is made.
pub data Origin : Type 0 where
  pushed : ℕ → String → ℕ → String → ℕ → String → Origin
  pulled : ℕ → ℕ → ℕ → String → String → ℕ → String → Origin

abbrev pub create : Origin → Camera
create (pushed id stream_key tenant_id name retention_days stream_quality) =
    create_rtmp_push id stream_key tenant_id name retention_days stream_quality
create (pulled id tenant_id agent_id name rtsp_url retention_days stream_quality) =
    create_rtsp_pull id tenant_id agent_id name rtsp_url retention_days stream_quality

create-IsConsistent : (o : Origin) → IsConsistent (create o)
create-IsConsistent (pushed id key tenant_id name days quality) = record {
  inactive_idle = refl;
  push_alone = refl;
  pull_agent = refl;
  latitude_within = refl;
  longitude_within = refl;
}
create-IsConsistent (pulled id tenant_id agent_id name url days quality) = record {
  inactive_idle = refl;
  push_alone = refl;
  pull_agent = refl;
  latitude_within = refl;
  longitude_within = refl;
}

IsConsistent-run_commands :
    (xs : List Command) (c : Camera) → IsConsistent c → IsConsistent (run_commands xs c)
IsConsistent-run_commands [] c h = h
IsConsistent-run_commands (x ∷ xs) c h =
    IsConsistent-run_commands xs (run_command x c) (run_command-IsConsistent x c h)

-- From either factory and after any calls, also those that raise, a camera is consistent: while it is
-- inactive it is offline and has no analytics, a camera that pushes has a stream key and no agent and
-- any other has an agent, and its coordinates are on the globe.
pub run_commands-IsConsistent :
    (o : Origin) (xs : List Command) → IsConsistent (run_commands xs (create o))
run_commands-IsConsistent o xs = IsConsistent-run_commands xs (create o) (create-IsConsistent o)
