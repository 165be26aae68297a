-- ===== src/Agent/StreamManager.antt =====
-- The manager of ffmpeg processes of edge_agent/src/agent/stream_manager.py: one entry for each
-- camera, its start, stop, reconciliation and restart with backoff. A camera id and a process id are
-- numbers, which are only compared; a time is a count of microseconds of `time.monotonic()`.
-- What the operating system answers is an argument: whether ffmpeg is on the PATH, and whether the
-- process could be created. A process that has ended is one with a return code.
mod Entries
pub mod Reconcile
pub mod Restart
pub mod Recovery
mod Tests
use next_sec.Prelude.{
  ℕ, suc, ◌+◌, ◌-◌, ◌*◌, ◌^◌, min, Bool, true, false, not, ◌&&◌, Option, none, some, List, [], ◌∷◌,
  ◌++◌, map, ltb, if◌then◌else◌, is_some, length, drop, select,
}
use next_sec.Prelude.Int.{ℤ}
use next_sec.Prelude.Dict.{Dict, lookup, contains, insert, erase, keys}
use Prim.Native.String.{String}
use text.Mathlib.Text.{◌==◌ as str_eq}

abbrev pub seconds : ℕ → ℕ
seconds n = n * 1_000_000

abbrev pub initial_restart_delay_seconds : ℕ
initial_restart_delay_seconds = 5

abbrev pub max_restart_delay_seconds : ℕ
max_restart_delay_seconds = 300

abbrev pub stderr_tail_bytes : ℕ
stderr_tail_bytes = 4096

-- What the manager reads of `asyncio.subprocess.Process`; `returncode` is none while it runs.
pub record Process : Type 0 where
  pub pid : ℕ
  pub returncode : Option ℤ

pub record StreamProcess : Type 0 where
  pub camera_id : ℕ
  pub rtsp_url : String
  pub rtmp_url : String
  pub process : Option Process
  pub restart_count : ℕ
  pub next_retry_at : ℕ
  pub stderr_tail : List ℕ
  pub running : Bool

pub record StreamManager : Type 0 where
  pub rtmp_base : String
  pub ffmpeg_path : String
  pub streams : Dict StreamProcess

-- `s.rstrip("/")`
abbrev pub rstrip_slash : String → String
rstrip_slash String.[] = String.[]
rstrip_slash (String.◌∷◌ c s) =
    let rest = rstrip_slash s in
    if str_eq rest "" && str_eq (String.◌∷◌ c String.[]) "/" then "" else String.◌∷◌ c rest

-- `path or "ffmpeg"`
abbrev pub ffmpeg_or_default : Option String → String
ffmpeg_or_default none = "ffmpeg"
ffmpeg_or_default (some path) = if str_eq path "" then "ffmpeg" else path

unfoldable pub new_manager : String → Option String → StreamManager
new_manager mediamtx_rtmp_base ffmpeg_path = record {
  rtmp_base = rstrip_slash mediamtx_rtmp_base;
  ffmpeg_path = ffmpeg_or_default ffmpeg_path;
  streams = [];
}

abbrev pub is_running : StreamProcess → Bool
is_running sp = sp.running && is_some sp.process

abbrev pub active_streams : StreamManager → List ℕ
active_streams m = map (λ e. e.0) (select (λ e. is_running e.1) m.streams)

-- The answer of the system to one launch: `shutil.which`, and the pid or an OSError.
pub record Spawn : Type 0 where
  pub ffmpeg_on_path : Bool
  pub pid : Option ℕ

abbrev pub started : ℕ → StreamProcess → StreamProcess
started pid sp = record sp {
  process = some (record { pid = pid; returncode = none });
  running = true;
  stderr_tail = [];
}

abbrev pub spawn_result : Option ℕ → StreamProcess → StreamProcess
spawn_result none sp = record sp { running = false }
spawn_result (some pid) sp = started pid sp

unfoldable pub launch : String → Spawn → StreamProcess → StreamProcess
launch ffmpeg_path os sp =
    if str_eq ffmpeg_path "ffmpeg" && not os.ffmpeg_on_path then sp else spawn_result os.pid sp

-- The entry that `start_stream` creates.
abbrev pub new_stream : ℕ → String → String → StreamProcess
new_stream camera_id rtsp_url rtmp_url = record {
  camera_id = camera_id;
  rtsp_url = rtsp_url;
  rtmp_url = rtmp_url;
  process = none;
  restart_count = 0;
  next_retry_at = 0;
  stderr_tail = [];
  running = false;
}

-- `String` has its own constructors and no `++` of lists.
abbrev pub append : String → String → String
append String.[] t = t
append (String.◌∷◌ c s) t = String.◌∷◌ c (append s t)

unfoldable pub build_rtmp_url : StreamManager → String → String
build_rtmp_url m mediamtx_path = append m.rtmp_base (append "/" mediamtx_path)

abbrev pub is_running_at : Option StreamProcess → Bool
is_running_at none = false
is_running_at (some sp) = is_running sp

unfoldable pub start_stream : ℕ → String → String → Spawn → StreamManager → StreamManager
start_stream camera_id rtsp_url mediamtx_path os m =
    if is_running_at (lookup camera_id m.streams) then m else record m {
      streams =
          insert camera_id
            (launch m.ffmpeg_path os
              (new_stream camera_id rtsp_url (build_rtmp_url m mediamtx_path)))
            m.streams;
    }

-- `_terminate` on the entry; that it signals the process is left to the system.
abbrev pub terminate : StreamProcess → StreamProcess
terminate sp = record sp { running = false }

abbrev pub terminated : Option StreamProcess → Option StreamProcess
terminated none = none
terminated (some sp) = some (terminate sp)

-- The entry is popped and ended; it is returned beside the new manager.
unfoldable pub stop_stream : ℕ → StreamManager → StreamManager × Option StreamProcess
stop_stream camera_id m =
    (record m { streams = erase camera_id m.streams }, terminated (lookup camera_id m.streams))

abbrev pub stop_each : List ℕ → StreamManager → StreamManager
stop_each [] m = m
stop_each (k ∷ ks) m = stop_each ks (stop_stream k m).0

unfoldable pub stop_all : StreamManager → StreamManager
stop_all m = stop_each (keys m.streams) m

-- The cameras that the configuration asks for: the RTSP URL and the path in MediaMTX.
abbrev pub Desired : Type 0
Desired = Dict (String × String)

abbrev pub start_each : Desired → (ℕ → Spawn) → StreamManager → StreamManager
start_each [] os m = m
start_each ((k, (rtsp_url, path)) ∷ ds) os m =
    start_each ds os (start_stream k rtsp_url path (os k) m)

-- Python leaves the order of the two set differences open; here both follow the dicts. Each launch
-- has an answer of its own, by camera.
unfoldable pub reconcile : Desired → (ℕ → Spawn) → StreamManager → StreamManager
reconcile desired os m =
    let gone = select (λ k. not (contains k desired)) (keys m.streams) in
    let added = select (λ d. not (contains d.0 m.streams)) desired in
    start_each added os (stop_each gone m)

-- The delay before the next attempt.
unfoldable pub restart_delay : ℕ → ℕ
restart_delay restart_count =
    min (initial_restart_delay_seconds * 2 ^ min restart_count 6) max_restart_delay_seconds

-- A process that was marked dead in an earlier cycle.
abbrev pub retry_dead : ℕ → String → Spawn → StreamProcess → StreamProcess
retry_dead now ffmpeg_path os sp =
    if ltb now sp.next_retry_at
    then sp
    else launch ffmpeg_path os (record sp { restart_count = sp.restart_count + 1 })

-- The body of the loop of `restart_dead_streams`, on the entry's process.
abbrev pub check_process : Option Process → ℕ → String → Spawn → StreamProcess → StreamProcess
check_process none now ffmpeg_path os sp = sp
check_process (some p) now ffmpeg_path os sp =
    if sp.running
    then (if is_some p.returncode
        then record sp {
          running = false;
          next_retry_at = now + seconds (restart_delay sp.restart_count);
        }
        else sp)
    else retry_dead now ffmpeg_path os sp

unfoldable pub check_stream : ℕ → String → Spawn → StreamProcess → StreamProcess
check_stream now ffmpeg_path os sp = check_process sp.process now ffmpeg_path os sp

unfoldable pub restart_dead_streams : ℕ → (ℕ → Spawn) → StreamManager → StreamManager
restart_dead_streams now os m = record m {
  streams = map (λ e. (e.0, check_stream now m.ffmpeg_path (os e.0) e.1)) m.streams;
}

-- One line of `_drain_stderr`: the tail keeps its last bytes.
unfoldable pub drain_line : List ℕ → StreamProcess → StreamProcess
drain_line line sp =
    let all = sp.stderr_tail ++ line in
    record sp { stderr_tail = drop (length all - stderr_tail_bytes) all }
