-- ===== src/Agent/StreamManager/Tests.antt =====
-- Runs of the manager of edge_agent/src/agent/stream_manager.py.
use next_sec.Prelude.{
  ℕ, ◌+◌, ◌≤◌, ◌≡◌, refl, Bool, true, false, Option, none, some, List, [], ◌∷◌, arith,
}
use next_sec.Prelude.Int.{pos}
use next_sec.Prelude.Dict.{lookup, keys}
use next_sec.Agent.StreamManager.{
  Process, StreamProcess, StreamManager, Spawn, seconds, is_running, launch, build_rtmp_url,
  new_manager, start_stream, stop_stream, Desired, reconcile, restart_delay, check_stream,
}
use next_sec.Agent.StreamManager.Entries.{fresh_entry}
use next_sec.Agent.StreamManager.Reconcile.{lookup-reconcile}
use next_sec.Agent.StreamManager.Restart.{checks, stream_recovers}
use next_sec.Agent.StreamManager.Recovery.{Cycle, run_cycles, never_launched-stays}

abbrev good : ℕ → Spawn
good pid = record { ffmpeg_on_path = true; pid = some pid }

abbrev bad : Spawn
bad = record { ffmpeg_on_path = true; pid = none }

abbrev all_good : ℕ → Spawn
all_good k = good (k + 100)

-- A stream of camera 1 with this process and state.
abbrev stream : Option Process → Bool → ℕ → ℕ → StreamProcess
stream p running count at = record {
  camera_id = 1;
  rtsp_url = "rtsp://10.0.0.1/a";
  rtmp_url = "rtmp://vps/t/1";
  process = p;
  restart_count = count;
  next_retry_at = at;
  stderr_tail = [];
  running = running;
}

abbrev exited : Process
exited = record { pid = 7; returncode = some (pos 1) }

abbrev alive : Process
alive = record { pid = 8; returncode = none }

abbrev manager : StreamManager
manager = record {
  rtmp_base = "rtmp://vps";
  ffmpeg_path = "ffmpeg";
  streams = (1, stream (some alive) true 0 0) ∷ (2, stream none false 0 0) ∷ [];
}

abbrev desired : Desired
desired = (3, ("rtsp://10.0.0.3/a", "t/3")) ∷ (1, ("rtsp://10.0.0.9/new", "t/1")) ∷ []

reconcile_run : keys (reconcile desired all_good manager).streams ≡ 1 ∷ 3 ∷ []
unfolding reconcile start_stream stop_stream build_rtmp_url launch
reconcile_run = refl

build_rtmp_url_run :
    build_rtmp_url (new_manager "rtmp://mediamtx:1935//" (some "")) "tenant-1/cam-2"
    ≡ "rtmp://mediamtx:1935/tenant-1/cam-2"
unfolding build_rtmp_url new_manager
build_rtmp_url_run = refl

lookup-reconcile_example :
    lookup 3 (reconcile desired all_good manager).streams
    ≡ some (fresh_entry manager 3 (good 103) ("rtsp://10.0.0.3/a", "t/3"))
lookup-reconcile_example =
    lookup-reconcile 3 desired all_good manager (refl, (refl, tt)) (refl, (refl, tt))

stream_recovers_example :
    let sp = stream (some exited) true 40 0 in
    let found_dead = check_stream (seconds 10) "ffmpeg" bad sp in
    let waiting = checks "ffmpeg" ((seconds 20, bad) ∷ []) found_dead in
    let sp' = check_stream (seconds 310) "ffmpeg" (good 9) waiting in
    (found_dead.next_retry_at ≡ seconds 10 + seconds (restart_delay 40))
    × (found_dead.next_retry_at ≤ seconds 10 + seconds 300)
    × (is_running found_dead ≡ false)
    × (waiting ≡ found_dead)
    × (is_running sp' ≡ true)
    × (sp'.process ≡ some (record { pid = 9; returncode = none }))
    × (sp'.restart_count ≡ 41)
unfolding restart_delay
stream_recovers_example =
    stream_recovers (seconds 10) (seconds 310) 9 "ffmpeg" bad (good 9) ((seconds 20, bad) ∷ [])
      (stream (some exited) true 40 0) {p = exited} {code = pos 1} refl refl refl (omega arith)
      (omega arith) refl

abbrev with_stream : StreamProcess → StreamManager
with_stream sp = record manager { streams = (2, stream none false 0 0) ∷ (1, sp) ∷ [] }

abbrev cycles : List Cycle
cycles =
    Cycle.health_check (seconds 10) all_good
    ∷ Cycle.sync ((2, ("rtsp://10.0.0.2/a", "t/2")) ∷ []) all_good
    ∷ Cycle.health_check (seconds 20) all_good
    ∷ []

never_launched-stays_example :
    lookup 2 (run_cycles cycles manager).streams ≡ some (stream none false 0 0)
never_launched-stays_example =
    never_launched-stays 2 cycles manager (stream none false 0 0) (refl, (refl, tt)) refl refl
      ((refl, tt), (("rtsp://10.0.0.2/a", "t/2"), refl), tt)
