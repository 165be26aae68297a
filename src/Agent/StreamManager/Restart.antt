-- ===== src/Agent/StreamManager/Restart.antt =====
-- The backoff of edge_agent/src/agent/stream_manager.py, and what one check of
-- `restart_dead_streams` does to a stream.
use next_sec.Prelude.{
  ℕ, suc, ◌+◌, ◌-◌, ◌*◌, ◌^◌, min, ◌≤◌, ◌<◌, ◌≡◌, refl, ap, ◌∙◌, Bool, true, false, Option, none,
  some, List, [], ◌∷◌, ◌++◌, map, arith, length, length-drop, All, ltb, ◌&&◌, not, is_some,
  if◌then◌else◌, Bool-cases, Option-cases, inl, inr,
}
use next_sec.Prelude.Int.{ℤ}
use next_sec.Prelude.Dict.{Dict, lookup}
use Prim.Native.String.{String}
use text.Mathlib.Text.{◌==◌ as str_eq}
use native.Mathlib.Nat.{pow-suc}
use next_sec.Agent.StreamManager.{
  Process, StreamProcess, StreamManager, Spawn, seconds, is_running, started, launch, restart_delay,
  check_stream, restart_dead_streams, drain_line, stderr_tail_bytes,
}

pow_double : (k : ℕ) → 2 ^ suc k ≡ 2 * 2 ^ k
pow_double k = omega (arith, pow-suc 2 k)

one-le-pow : (k : ℕ) → 1 ≤ 2 ^ k
one-le-pow ℕ.zero = omega arith
one-le-pow (suc k) = omega (arith, pow_double k, one-le-pow k)

pow-ge_64 : (k : ℕ) → 64 ≤ 2 ^ suc (suc (suc (suc (suc (suc k)))))
pow-ge_64 k = omega (
  arith,
  one-le-pow k,
  pow_double k,
  pow_double (suc k),
  pow_double (suc (suc k)),
  pow_double (suc (suc (suc k))),
  pow_double (suc (suc (suc (suc k)))),
  pow_double (suc (suc (suc (suc (suc k))))),
)

-- Capping the exponent at 6 changes no delay: the delay is five seconds doubled once for each
-- restart, at most 300 seconds, and it lies between 5 and 300 seconds.
pub restart_delay-uncapped :
    (n : ℕ)
    → (restart_delay n ≡ min (5 * 2 ^ n) 300) × (5 ≤ restart_delay n) × (restart_delay n ≤ 300)
unfolding restart_delay
restart_delay-uncapped ℕ.zero = (refl, omega arith, omega arith)
restart_delay-uncapped (suc ℕ.zero) = (refl, omega arith, omega arith)
restart_delay-uncapped (suc (suc ℕ.zero)) = (refl, omega arith, omega arith)
restart_delay-uncapped (suc (suc (suc ℕ.zero))) = (refl, omega arith, omega arith)
restart_delay-uncapped (suc (suc (suc (suc ℕ.zero)))) = (refl, omega arith, omega arith)
restart_delay-uncapped (suc (suc (suc (suc (suc ℕ.zero))))) = (refl, omega arith, omega arith)
restart_delay-uncapped (suc (suc (suc (suc (suc (suc n)))))) =
    let six : min (suc (suc (suc (suc (suc (suc n)))))) 6 ≡ 6 = omega arith in
    rw six (omega (arith, pow-ge_64 n), omega arith, omega arith)

-- Checks of one stream, one after the other, each at a time and with an answer of the system.
abbrev pub checks : String → List (ℕ × Spawn) → StreamProcess → StreamProcess
checks path [] sp = sp
checks path ((now, os) ∷ cs) sp = checks path cs (check_stream now path os sp)

check_waits :
    (now : ℕ) (path : String) (os : Spawn) (sp : StreamProcess)
    → sp.running ≡ false
    → now < sp.next_retry_at
    → check_stream now path os sp ≡ sp
unfolding check_stream
check_waits now path os sp dead early = go sp.process refl
  where
    go : (p : Option Process) → sp.process ≡ p → check_stream now path os sp ≡ sp
    go none e = rw e refl
    go (some p) e = rw (e, dead) (ground arith)

checks_wait :
    (path : String) (cs : List (ℕ × Spawn)) (sp : StreamProcess)
    → sp.running ≡ false
    → All (λ c. c.0 < sp.next_retry_at) cs
    → checks path cs sp ≡ sp
checks_wait path [] sp dead early = refl
checks_wait path ((now, os) ∷ cs) sp dead early =
    ap (checks path cs) (check_waits now path os sp dead early.0)
    ∙ checks_wait path cs sp dead early.1

and_false : (b : Bool) → (b && false) ≡ false
and_false true = refl
and_false false = refl

-- What the check makes of a stream whose process has ended.
abbrev pub marked_dead : ℕ → StreamProcess → StreamProcess
marked_dead now sp = record sp {
  running = false;
  next_retry_at = now + seconds (restart_delay sp.restart_count);
}

check_dies :
    (now : ℕ) (path : String) (os : Spawn) (sp : StreamProcess) {p : Process} {code : ℤ}
    → sp.running ≡ true
    → sp.process ≡ some p
    → p.returncode ≡ some code
    → check_stream now path os sp ≡ marked_dead now sp
unfolding check_stream
check_dies now path os sp run proc ended = rw (proc, run, ended) refl

check_relaunches :
    (now pid : ℕ) (path : String) (os : Spawn) (sp : StreamProcess) {p : Process}
    → sp.running ≡ false
    → sp.process ≡ some p
    → sp.next_retry_at ≤ now
    → os ≡ record { ffmpeg_on_path = true; pid = some pid }
    → check_stream now path os sp ≡ started pid (record sp { restart_count = sp.restart_count + 1 })
unfolding check_stream launch
check_relaunches now pid path os sp dead proc late good =
    rw (proc, dead, good, late_enough, and_false (str_eq path "ffmpeg")) refl
  where
    late_enough : ltb now sp.next_retry_at ≡ false
    late_enough = ground arith

-- A stream whose ffmpeg has died recovers, after any number of restarts: the check that finds it dead
-- schedules a retry after the delay, at most 300 seconds later, and launches nothing; the checks before
-- that time change nothing; and the first check from that time on, if ffmpeg can be started at it, has
-- the stream running again, with the one restart counted.
pub stream_recovers :
    (now t pid : ℕ) (path : String) (os good : Spawn) (early : List (ℕ × Spawn))
    (sp : StreamProcess) {p : Process} {code : ℤ}
    → sp.running ≡ true
    → sp.process ≡ some p
    → p.returncode ≡ some code
    → All (λ c. c.0 < now + seconds (restart_delay sp.restart_count)) early
    → now + seconds (restart_delay sp.restart_count) ≤ t
    → good ≡ record { ffmpeg_on_path = true; pid = some pid }
    → let found_dead = check_stream now path os sp in
      let waiting = checks path early found_dead in
      let sp' = check_stream t path good waiting in
      (found_dead.next_retry_at ≡ now + seconds (restart_delay sp.restart_count))
      × (found_dead.next_retry_at ≤ now + seconds 300)
      × (is_running found_dead ≡ false)
      × (waiting ≡ found_dead)
      × (is_running sp' ≡ true)
      × (sp'.process ≡ some (record { pid = pid; returncode = none }))
      × (sp'.restart_count ≡ sp.restart_count + 1)
stream_recovers now t pid path os good early sp run proc ended soon late ok =
    let dead = check_dies now path os sp run proc ended in
    let still : checks path early (check_stream now path os sp) ≡ check_stream now path os sp =
      rw dead (checks_wait path early (marked_dead now sp) refl soon) in
    let relaunched =
      ap (check_stream t path good) (still ∙ dead)
      ∙ check_relaunches t pid path good (marked_dead now sp) refl proc late ok in
    (
      ap (λ x. x.next_retry_at) dead,
      rw dead (omega (arith, restart_delay-uncapped sp.restart_count)),
      ap (λ x. is_running x) dead,
      still,
      ap (λ x. is_running x) relaunched,
      ap (λ x. x.process) relaunched,
      ap (λ x. x.restart_count) relaunched,
    )

lookup-map :
    {V : Type 0} (f : ℕ → V → V) (k : ℕ) (v : V) (d : Dict V)
    → lookup k d ≡ some v
    → lookup k (map (λ e. (e.0, f e.0 e.1)) d) ≡ some (f k v)
lookup-map f k v [] e = ground arith
lookup-map f k v ((j, w) ∷ d) e = ground (arith, lookup-map f k v d)

abbrev has_no_code : Option Process → Bool
has_no_code none = false
has_no_code (some p) = not (is_some p.returncode)

-- The stream is marked as running and its process has no return code.
abbrev pub is_alive : StreamProcess → Bool
is_alive sp = sp.running && has_no_code sp.process

alive_check :
    (now : ℕ) (path : String) (os : Spawn) (sp : StreamProcess)
    → check_stream now path os sp ≡ (if is_alive sp then sp else check_stream now path os sp)
unfolding check_stream
alive_check now path os sp = elim (Bool-cases sp.running) [
  | inl run ↦ elim (Option-cases sp.process) [
    | inl idle ↦ rw (run, idle) refl
    | inr (p, proc) ↦ elim (Option-cases p.returncode) [
      | inl alive ↦ rw (run, proc) (rw alive refl)
      | inr (c, dead) ↦ rw (run, proc) (rw dead refl)
    ]
  ]
  | inr halted ↦ rw halted refl
]

-- A health check of all streams checks each stream on its own: what becomes of a camera depends on
-- its entry alone, and a stream whose process still runs is left as it is.
pub lookup-restart_dead_streams :
    (k now : ℕ) (os : ℕ → Spawn) (m : StreamManager) (sp : StreamProcess)
    → lookup k m.streams ≡ some sp
    → lookup k (restart_dead_streams now os m).streams
      ≡ some (if is_alive sp then sp else check_stream now m.ffmpeg_path (os k) sp)
unfolding restart_dead_streams
lookup-restart_dead_streams k now os m sp e =
    lookup-map (λ j x. check_stream now m.ffmpeg_path (os j) x) k sp m.streams e
    ∙ ap some (alive_check now m.ffmpeg_path (os k) sp)

-- However long ffmpeg runs, the tail of its error output that is kept never passes 4096 bytes.
pub drain_line-length :
    (line : List ℕ) (sp : StreamProcess)
    → length (drain_line line sp).stderr_tail ≤ stderr_tail_bytes
unfolding drain_line
drain_line-length line sp =
    omega (arith, length-drop (length (sp.stderr_tail ++ line) - 4096) (sp.stderr_tail ++ line))
