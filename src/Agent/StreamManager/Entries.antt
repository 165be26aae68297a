-- ===== src/Agent/StreamManager/Entries.antt =====
-- How the steps of `reconcile` in edge_agent/src/agent/stream_manager.py change the entries.
use next_sec.Prelude.{
  ℕ, ◌≡◌, refl, ap, sym, ◌∙◌, Bool, true, false, ◌&&◌, Option, none, some, List, [], ◌∷◌, map,
  arith, if◌then◌else◌, ◌==◌, select, elem, Bool-cases, ◌⊎◌, inl, inr,
}
use next_sec.Prelude.Dict.{
  Dict, lookup, contains, insert, keys, IsDict, lookup-insert, lookup-erase, insert-IsDict,
  erase-IsDict,
}
use Prim.Native.String.{String}
use next_sec.Agent.StreamManager.{
  StreamProcess, StreamManager, Spawn, launch, new_stream, build_rtmp_url, start_stream,
  stop_stream, stop_each, Desired, start_each, check_stream, restart_dead_streams,
}

stop_stream-IsDict :
    (k : ℕ) (m : StreamManager) → IsDict m.streams → IsDict (stop_stream k m).0.streams
unfolding stop_stream
stop_stream-IsDict k m h = erase-IsDict k m.streams h

lookup-stop_stream :
    (j k : ℕ) (m : StreamManager)
    → IsDict m.streams
    → lookup j (stop_stream k m).0.streams ≡ (if j == k then none else lookup j m.streams)
unfolding stop_stream
lookup-stop_stream j k m h = lookup-erase j k m.streams h

pub lookup-stop_each :
    (j : ℕ) (ks : List ℕ) (m : StreamManager)
    → IsDict m.streams
    → lookup j (stop_each ks m).streams ≡ (if elem j ks then none else lookup j m.streams)
lookup-stop_each j [] m h = refl
lookup-stop_each j (k ∷ ks) m h = ground (
  arith,
  lookup-stop_stream j k m h,
  lookup-stop_each j ks (stop_stream k m).0 (stop_stream-IsDict k m h),
)

-- The manager that `stop_each` leaves is the same but for its entries.
pub stop_each_settings :
    (ks : List ℕ) (m : StreamManager)
    → stop_each ks m ≡ record m { streams = (stop_each ks m).streams }
unfolding stop_stream
stop_each_settings [] m = refl
stop_each_settings (k ∷ ks) m = stop_each_settings ks (stop_stream k m).0

pub elem-keys : {V : Type 0} (k : ℕ) (d : Dict V) → elem k (keys d) ≡ contains k d
elem-keys k [] = refl
elem-keys k ((j, v) ∷ d) = ground (arith, elem-keys k d)

pub elem-select : (p : ℕ → Bool) (k : ℕ) (xs : List ℕ) → elem k (select p xs) ≡ (elem k xs && p k)
elem-select p k [] = refl
elem-select p k (x ∷ xs) = elim (Bool-cases (k == x)) [
  | inl e ↦ ground (arith, elem-select p k xs, ap p (same e))
  | inr e ↦ ground (arith, elem-select p k xs)
]
  where
    same : (k == x) ≡ true → k ≡ x
    same e = ground arith

-- The entry of a camera that is started anew.
abbrev pub fresh_entry : StreamManager → ℕ → Spawn → String × String → StreamProcess
fresh_entry m k os (rtsp_url, path) =
    launch m.ffmpeg_path os (new_stream k rtsp_url (build_rtmp_url m path))

start_stream_new :
    (k : ℕ) (want : String × String) (os : Spawn) (m : StreamManager)
    → lookup k m.streams ≡ none
    → start_stream k want.0 want.1 os m
      ≡ record m { streams = insert k (fresh_entry m k os want) m.streams }
unfolding start_stream
start_stream_new k want os m h = rw h refl

-- Where an entry of the list is wanted it is started, and every other entry is left alone.
abbrev pub started_or :
    StreamManager
    → ℕ
    → Spawn
    → Option (String × String)
    → Option StreamProcess
    → Option StreamProcess
started_or m k os none old = old
started_or m k os (some want) old = some (fresh_entry m k os want)

-- No camera of the list has an entry yet.
abbrev pub AllNew : Desired → Dict StreamProcess → Type 0
AllNew [] d = Unit
AllNew ((k, _) ∷ ds) d = (lookup k d ≡ none) × AllNew ds d

AllNew-insert :
    (k : ℕ) (sp : StreamProcess) (ds : Desired) (d : Dict StreamProcess)
    → lookup k ds ≡ none
    → AllNew ds d
    → AllNew ds (insert k sp d)
AllNew-insert k sp [] d e h = tt
AllNew-insert k sp ((j, w) ∷ ds) d e h =
    (ground (arith, h.0, lookup-insert j k sp d), AllNew-insert k sp ds d (ground arith) h.1)

fresh_entry_settings :
    (m : StreamManager) (d : Dict StreamProcess) (k : ℕ) (os : Spawn) (want : String × String)
    → fresh_entry (record m { streams = d }) k os want ≡ fresh_entry m k os want
unfolding build_rtmp_url
fresh_entry_settings m d k os want = refl

pub started_or_settings :
    (m : StreamManager) (d : Dict StreamProcess) (k : ℕ) (os : Spawn)
    (want : Option (String × String)) (old : Option StreamProcess)
    → started_or (record m { streams = d }) k os want old ≡ started_or m k os want old
started_or_settings m d k os none old = refl
started_or_settings m d k os (some want) old = ap some (fresh_entry_settings m d k os want)

pub lookup-start_each :
    (j : ℕ) (ds : Desired) (os : ℕ → Spawn) (m : StreamManager)
    → IsDict ds
    → AllNew ds m.streams
    → lookup j (start_each ds os m).streams
      ≡ started_or m j (os j) (lookup j ds) (lookup j m.streams)
lookup-start_each j [] os m h new = refl
lookup-start_each j ((k, want) ∷ ds) os m h new =
    let entry = fresh_entry m k (os k) want in
    let d = insert k entry m.streams in
    let rest =
      lookup-start_each j ds os (record m { streams = d }) h.1
        (AllNew-insert k entry ds m.streams h.0 new.1) in
    ap (λ m'. lookup j (start_each ds os m').streams) (start_stream_new k want (os k) m new.0)
    ∙ rest
    ∙ started_or_settings m d j (os j) (lookup j ds) (lookup j d)
    ∙ last_start (Bool-cases (j == k))
  where
    entry' : StreamProcess
    entry' = fresh_entry m k (os k) want

    same : (j == k) ≡ true → j ≡ k
    same e = ground arith

    last_start :
        ((j == k) ≡ true) ⊎ ((j == k) ≡ false)
        → started_or m j (os j) (lookup j ds) (lookup j (insert k entry' m.streams))
          ≡ started_or m j (os j) (lookup j ((k, want) ∷ ds)) (lookup j m.streams)
    last_start (inl e) =
        rw (lookup-insert j k entry' m.streams, e, ap (λ x. lookup x ds) (same e) ∙ h.0)
          (ap (λ x. some (fresh_entry m x (os x) want)) (sym (same e)))
    last_start (inr e) = rw (lookup-insert j k entry' m.streams, e) refl

start_stream-IsDict :
    (k : ℕ) (rtsp_url path : String) (os : Spawn) (m : StreamManager)
    → IsDict m.streams
    → IsDict (start_stream k rtsp_url path os m).streams
unfolding start_stream
start_stream-IsDict k rtsp_url path os m h = ground (
  arith,
  insert-IsDict k (launch m.ffmpeg_path os (new_stream k rtsp_url (build_rtmp_url m path)))
      m.streams h,
)

pub start_each-IsDict :
    (ds : Desired) (os : ℕ → Spawn) (m : StreamManager)
    → IsDict m.streams
    → IsDict (start_each ds os m).streams
start_each-IsDict [] os m h = h
start_each-IsDict ((k, want) ∷ ds) os m h =
    start_each-IsDict ds os (start_stream k want.0 want.1 (os k) m)
      (start_stream-IsDict k want.0 want.1 (os k) m h)

pub stop_each-IsDict :
    (ks : List ℕ) (m : StreamManager) → IsDict m.streams → IsDict (stop_each ks m).streams
stop_each-IsDict [] m h = h
stop_each-IsDict (k ∷ ks) m h = stop_each-IsDict ks (stop_stream k m).0 (stop_stream-IsDict k m h)

absent-map :
    {V : Type 0} (f : ℕ → V → V) (k : ℕ) (d : Dict V)
    → lookup k d ≡ none
    → lookup k (map (λ e. (e.0, f e.0 e.1)) d) ≡ none
absent-map f k [] h = refl
absent-map f k ((j, v) ∷ d) h = ground (arith, absent-map f k d)

IsDict-map :
    {V : Type 0} (f : ℕ → V → V) (d : Dict V) → IsDict d → IsDict (map (λ e. (e.0, f e.0 e.1)) d)
IsDict-map f [] h = h
IsDict-map f ((k, v) ∷ d) h = (absent-map f k d h.0, IsDict-map f d h.1)

pub restart_dead_streams-IsDict :
    (now : ℕ) (os : ℕ → Spawn) (m : StreamManager)
    → IsDict m.streams
    → IsDict (restart_dead_streams now os m).streams
unfolding restart_dead_streams
restart_dead_streams-IsDict now os m h =
    IsDict-map (λ j x. check_stream now m.ffmpeg_path (os j) x) m.streams h
