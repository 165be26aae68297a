-- ===== src/Api/Camera/Events.antt =====
-- The events that the transitions of Camera (api/src/vms/cameras/domain.py) record.
use next_sec.Prelude.{
  ◌≡◌, refl, sym, ap, ◌∙◌, ◌||◌, Bool, true, false, not, arith, inl, inr, Bool-cases, if◌then◌else◌,
}
use next_sec.Api.Errors.{Error, failed, done}
use next_sec.Api.Camera.{
  Camera, record_event, analytics_enabled, analytics_disabled, camera_activated, camera_deactivated,
  activate_camera, deactivate, go_offline, enable_analytics, disable_analytics,
}
use next_sec.Api.Camera.Invariant.{
  Command, kept_or, run_command, activates, deactivates, goes_offline, enables, disables, pulls,
  goes_online, locates, sets_credentials,
}

-- The transitions that the source calls idempotent.
abbrev pub is_transition : Command → Bool
is_transition activates = true
is_transition deactivates = true
is_transition goes_offline = true
is_transition enables = true
is_transition disables = true
is_transition pulls = false
is_transition (goes_online _) = false
is_transition (locates _ _ _) = false
is_transition (sets_credentials _ _ _ _) = false

-- A call that does nothing where a test holds, and makes it hold where it does not.
guarded_twice :
    (test : Camera → Bool) (change : Camera → Camera)
    → ((c : Camera) → test (change c) ≡ true)
    → (c : Camera) → let f : Camera → Camera = λ x. if test x then x else change x in f (f c) ≡ f c
guarded_twice test change after c = elim (Bool-cases (test c)) [
  | inl e ↦ rw e (rw e refl)
  | inr e ↦ rw e (rw (after c) refl)
]

with_analytics : Camera → Camera
with_analytics c =
    record_event (analytics_enabled c.id c.tenant_id) (record c { ia_enabled = true })

-- Both refusals of `enable_analytics` leave the camera alone.
enabled : Camera → Camera
enabled c = if not c.is_active || c.ia_enabled then c else with_analytics c

enables_as : (c : Camera) → run_command enables c ≡ enabled c
unfolding enable_analytics enabled with_analytics
enables_as c = by_tests (not c.is_active) c.ia_enabled _ _
  where
    by_tests :
        (b b' : Bool) (e : Error) (x : Camera)
        → kept_or c (if b then failed e else if b' then done c else done x)
          ≡ (if b || b' then c else x)
    by_tests true b' e x = refl
    by_tests false true e x = refl
    by_tests false false e x = refl

enabled_twice : (c : Camera) → enabled (enabled c) ≡ enabled c
unfolding enabled with_analytics
enabled_twice c =
    guarded_twice (λ c. not c.is_active || c.ia_enabled) with_analytics
      (λ c. or_true (not c.is_active)) c
  where
    or_true : (b : Bool) → (b || true) ≡ true
    or_true b = ground arith

-- Calling a transition a second time, with nothing in between, changes nothing and records no event,
-- whether the first call did something or not. Going online is not among them: it records an event
-- each time.
pub run_command-twice :
    (x : Command) (c : Camera)
    → is_transition x ≡ true
    → run_command x (run_command x c) ≡ run_command x c
unfolding activate_camera deactivate go_offline enable_analytics disable_analytics
run_command-twice activates c h =
    guarded_twice (λ c. c.is_active)
      (λ c. record_event (camera_activated c.id c.tenant_id) (record c { is_active = true }))
      (λ c. refl) c
run_command-twice deactivates c h =
    guarded_twice (λ c. not c.is_active)
      (λ c.
        record_event (camera_deactivated c.id c.tenant_id)
          (record c { is_active = false; is_online = false; ia_enabled = false }))
      (λ c. refl) c
run_command-twice goes_offline c h =
    guarded_twice (λ c. not c.is_online)
      (λ c. record_event (camera_deactivated c.id c.tenant_id) (record c { is_online = false }))
      (λ c. refl) c
run_command-twice enables c h =
    enables_as (run_command enables c)
    ∙ ap enabled (enables_as c)
    ∙ enabled_twice c
    ∙ sym (enables_as c)
run_command-twice disables c h =
    guarded_twice (λ c. not c.ia_enabled)
      (λ c. record_event (analytics_disabled c.id c.tenant_id) (record c { ia_enabled = false }))
      (λ c. refl) c
run_command-twice pulls c h = absurd (ground arith)
run_command-twice (goes_online _) c h = absurd (ground arith)
run_command-twice (locates _ _ _) c h = absurd (ground arith)
run_command-twice (sets_credentials _ _ _ _) c h = absurd (ground arith)

-- The events do not tell a camera that was deactivated from one that lost its connection: from an
-- active camera that is online both record the same, and leave it in different states.
pub deactivate-go_offline :
    (c : Camera)
    → c.is_active ≡ true
    → c.is_online ≡ true
    → ((deactivate c).domain_events ≡ (go_offline c).domain_events)
      × ((deactivate c).is_active ≡ false)
      × ((go_offline c).is_active ≡ true)
unfolding deactivate go_offline
deactivate-go_offline c on online = (rw (on, online) refl, rw on refl, rw online on)
