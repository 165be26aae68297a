-- ===== src/Agent/StreamManager/Recovery.antt =====
-- Launches that fail, in edge_agent/src/agent/stream_manager.py: what the later checks and
-- reconciliations make of them.
use next_sec.Prelude.{
  ℕ, ◌+◌, ◌≤◌, ◌≡◌, refl, ap, ◌∙◌, Bool, true, false, none, some, List, [], ◌∷◌, arith, ◌&&◌, not,
  is_some, if◌then◌else◌, inl, inr, Bool-cases, Option-cases, ltb,
}
use next_sec.Prelude.Dict.{lookup, IsDict}
use Prim.Native.String.{String}
use text.Mathlib.Text.{◌==◌ as str_eq}
use next_sec.Agent.StreamManager.{
  Process, StreamProcess, StreamManager, Spawn, is_running, launch, check_stream,
  restart_dead_streams, Desired, reconcile,
}
use next_sec.Agent.StreamManager.Reconcile.{reconciled, lookup-reconcile, reconcile-IsDict}
use next_sec.Agent.StreamManager.Entries.{restart_dead_streams-IsDict}
use next_sec.Agent.StreamManager.Restart.{is_alive, lookup-restart_dead_streams}

-- What the agent does to its streams: a periodic health check, or a reconciliation with the
-- configuration it was given.
pub data Cycle : Type 0 where
  health_check : ℕ → (ℕ → Spawn) → Cycle
  sync : Desired → (ℕ → Spawn) → Cycle

abbrev pub run_cycle : Cycle → StreamManager → StreamManager
run_cycle (health_check now os) m = restart_dead_streams now os m
run_cycle (sync desired os) m = reconcile desired os m

abbrev pub run_cycles : List Cycle → StreamManager → StreamManager
run_cycles [] m = m
run_cycles (c ∷ cs) m = run_cycles cs (run_cycle c m)

-- Every configuration lists the camera.
abbrev pub Wants : ℕ → List Cycle → Type 0
Wants k [] = Unit
Wants k (health_check now os ∷ cs) = Wants k cs
Wants k (sync desired os ∷ cs) =
    IsDict desired × ((want : String × String) × (lookup k desired ≡ some want)) × Wants k cs

same_branches : {A : Type 0} (b : Bool) (x : A) → (if b then x else x) ≡ x
same_branches true x = refl
same_branches false x = refl

no_process-check :
    (now : ℕ) (path : String) (os : Spawn) (sp : StreamProcess)
    → sp.process ≡ none
    → check_stream now path os sp ≡ sp
unfolding check_stream
no_process-check now path os sp e = rw e refl

-- A camera whose first launch failed has an entry without a process. While the configuration keeps
-- listing it, no number of health checks and reconciliations launches it again, though ffmpeg could
-- be started in every one of them: the entry stays as it is.
pub never_launched-stays :
    (k : ℕ) (cs : List Cycle) (m : StreamManager) (sp : StreamProcess)
    → IsDict m.streams
    → lookup k m.streams ≡ some sp
    → sp.process ≡ none
    → Wants k cs
    → lookup k (run_cycles cs m).streams ≡ some sp
never_launched-stays k [] m sp d e idle w = e
never_launched-stays k (health_check now os ∷ cs) m sp d e idle w =
    never_launched-stays k cs (restart_dead_streams now os m) sp
      (restart_dead_streams-IsDict now os m d)
      (lookup-restart_dead_streams k now os m sp e
        ∙ ap (λ x. some (if is_alive sp then sp else x))
            (no_process-check now m.ffmpeg_path (os k) sp idle)
        ∙ ap some (same_branches (is_alive sp) sp))
      idle w
never_launched-stays k (sync desired os ∷ cs) m sp d e idle w =
    never_launched-stays k cs (reconcile desired os m) sp (reconcile-IsDict desired os m w.0 d)
      (lookup-reconcile k desired os m w.0 d
        ∙ ap (λ o. reconciled m k (os k) o (lookup k m.streams)) w.1.1
        ∙ ap (reconciled m k (os k) (some w.1.0)) e)
      idle w.2

-- A launch that fails leaves an entry that does not run as it was.
launch_fails :
    (path : String) (os : Spawn) (sp : StreamProcess)
    → sp.running ≡ false
    → os.pid ≡ none
    → launch path os sp ≡ sp
unfolding launch
launch_fails path os sp dead bad =
    rw (bad, dead) (same_branches (str_eq path "ffmpeg" && not os.ffmpeg_on_path) _)

launch_counts_nothing :
    (path : String) (os : Spawn) (sp : StreamProcess)
    → (launch path os sp).restart_count ≡ sp.restart_count
unfolding launch
launch_counts_nothing path os sp =
    elim (Bool-cases (str_eq path "ffmpeg" && not os.ffmpeg_on_path)) [
      | inl e ↦ rw e refl
      | inr e ↦ rw e (elim (Option-cases os.pid) [ inl n ↦ rw n refl | inr (pid, y) ↦ rw y refl ])
    ]

check_launches :
    (now : ℕ) (path : String) (os : Spawn) (sp : StreamProcess) {p : Process}
    → sp.running ≡ false
    → sp.process ≡ some p
    → sp.next_retry_at ≤ now
    → check_stream now path os sp
      ≡ launch path os (record sp { restart_count = sp.restart_count + 1 })
unfolding check_stream
check_launches now path os sp dead proc late = rw (proc, dead, late_enough) refl
  where
    late_enough : ltb now sp.next_retry_at ≡ false
    late_enough = ground arith

-- A relaunch that fails counts a restart and schedules nothing: the entry stays dead with the retry
-- time it had, so the very next check launches again, without any delay.
pub failed_relaunch-no_backoff :
    (now later : ℕ) (path : String) (os next : Spawn) (sp : StreamProcess) {p : Process}
    → sp.running ≡ false
    → sp.process ≡ some p
    → sp.next_retry_at ≤ now
    → now ≤ later
    → os.pid ≡ none
    → let sp' = check_stream now path os sp in
      (is_running sp' ≡ false)
      × (sp'.next_retry_at ≡ sp.next_retry_at)
      × (sp'.restart_count ≡ sp.restart_count + 1)
      × ((check_stream later path next sp').restart_count ≡ sp.restart_count + 2)
failed_relaunch-no_backoff now later path os next sp dead proc late after bad =
    let counted = record sp { restart_count = sp.restart_count + 1 } in
    let failed =
      check_launches now path os sp dead proc late ∙ launch_fails path os counted dead bad in
    (
      ap (λ x. is_running x) failed ∙ ap (λ b. b && is_some sp.process) dead,
      ap (λ x. x.next_retry_at) failed,
      ap (λ x. x.restart_count) failed,
      ap (λ x. (check_stream later path next x).restart_count) failed
          ∙ ap (λ x. x.restart_count)
              (check_launches later path next counted dead proc (omega arith))
          ∙ launch_counts_nothing path next _
          ∙ omega arith,
    )
