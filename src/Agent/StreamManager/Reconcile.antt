-- ===== src/Agent/StreamManager/Reconcile.antt =====
-- What `reconcile` and `stop_all` of edge_agent/src/agent/stream_manager.py make of the entries.
use next_sec.Prelude.{
  ℕ, ◌≡◌, refl, ap, ◌∙◌, true, not, ◌&&◌, Option, none, some, List, [], ◌∷◌, arith, if◌then◌else◌,
  ◌==◌, is_some, select, Bool-cases, inl, inr,
}
use next_sec.Prelude.Dict.{Dict, lookup, contains, keys, IsDict}
use Prim.Native.String.{String}
use next_sec.Agent.StreamManager.{
  StreamProcess, StreamManager, Spawn, stop_each, stop_all, Desired, start_each, reconcile,
}
use next_sec.Agent.StreamManager.Entries.{
  lookup-stop_each, stop_each_settings, elem-keys, elem-select, fresh_entry, started_or,
  started_or_settings, AllNew, lookup-start_each, start_each-IsDict, stop_each-IsDict,
}

-- After `stop_all` no entry is left.
pub lookup-stop_all :
    (k : ℕ) (m : StreamManager) → IsDict m.streams → lookup k (stop_all m).streams ≡ none
unfolding stop_all
lookup-stop_all k m h =
    ground (arith, lookup-stop_each k (keys m.streams) m h, elem-keys k m.streams)

-- What reconciliation makes of one camera: an entry that is not wanted goes, an entry that is wanted
-- stays as it is, and a camera that is wanted and has no entry is started.
abbrev pub reconciled :
    StreamManager
    → ℕ
    → Spawn
    → Option (String × String)
    → Option StreamProcess
    → Option StreamProcess
reconciled m k os none old = none
reconciled m k os (some want) (some sp) = some sp
reconciled m k os (some want) none = some (fresh_entry m k os want)

lookup-added :
    (k : ℕ) (ds : Desired) (d : Dict StreamProcess)
    → lookup k (select (λ e. not (contains e.0 d)) ds)
      ≡ (if contains k d then none else lookup k ds)
lookup-added k [] d = ground arith
lookup-added k ((j, w) ∷ ds) d = elim (Bool-cases (k == j)) [
  | inl e ↦ ground (arith, lookup-added k ds d, ap (λ x. contains x d) (same e))
  | inr e ↦ ground (arith, lookup-added k ds d)
]
  where
    same : (k == j) ≡ true → k ≡ j
    same e = ground arith

added-IsDict :
    (ds : Desired) (d : Dict StreamProcess)
    → IsDict ds
    → IsDict (select (λ e. not (contains e.0 d)) ds)
added-IsDict [] d h = h
added-IsDict ((j, w) ∷ ds) d h = ground (arith, h.0, added-IsDict ds d h.1, lookup-added j ds d)

added-AllNew :
    (ds : Desired) (d d' : Dict StreamProcess)
    → ((k : ℕ) → lookup k d ≡ none → lookup k d' ≡ none)
    → AllNew (select (λ e. not (contains e.0 d)) ds) d'
added-AllNew [] d d' sub = tt
added-AllNew ((j, w) ∷ ds) d d' sub = ground (arith, sub j, added-AllNew ds d d' sub)

-- After `reconcile` each camera is as `reconciled` says: exactly the desired cameras have an entry,
-- and those that had one keep it unchanged.
pub lookup-reconcile :
    (k : ℕ) (desired : Desired) (os : ℕ → Spawn) (m : StreamManager)
    → IsDict desired
    → IsDict m.streams
    → lookup k (reconcile desired os m).streams
      ≡ reconciled m k (os k) (lookup k desired) (lookup k m.streams)
unfolding reconcile
lookup-reconcile k desired os m hd hm =
    started_all
    ∙ ap (λ x. started_or x k (os k) (lookup k added) (lookup k (stop_each gone m).streams))
        (stop_each_settings gone m)
    ∙ started_or_settings m (stop_each gone m).streams k (os k) (lookup k added)
        (lookup k (stop_each gone m).streams)
    ∙ ap (λ o. started_or m k (os k) o (lookup k (stop_each gone m).streams))
        (lookup-added k desired m.streams)
    ∙ ap (started_or m k (os k) (if contains k m.streams then none else lookup k desired)) (left k)
    ∙ by_cases (lookup k desired) (lookup k m.streams)
  where
    gone : List ℕ
    gone = select (λ j. not (contains j desired)) (keys m.streams)

    added : Desired
    added = select (λ d. not (contains d.0 m.streams)) desired

    left :
        (j : ℕ)
        → lookup j (stop_each gone m).streams
          ≡ (if contains j m.streams && not (contains j desired) then none else lookup j m.streams)
    left j =
        lookup-stop_each j gone m hm
        ∙ ap (λ b. if b then none else lookup j m.streams)
            (elem-select (λ i. not (contains i desired)) j (keys m.streams)
              ∙ ap (λ b. b && not (contains j desired)) (elem-keys j m.streams))

    started_all :
        lookup k (start_each added os (stop_each gone m)).streams
        ≡ started_or
            (stop_each gone m)
            k
            (os k)
            (lookup k added)
            (lookup k (stop_each gone m).streams)
    started_all =
        lookup-start_each k added os (stop_each gone m) (added-IsDict desired m.streams hd)
          (added-AllNew desired m.streams (stop_each gone m).streams (λ j e. rw (left j, e) refl))

    by_cases :
        (want : Option (String × String)) (old : Option StreamProcess)
        → started_or m k
            (os k)
            (if is_some old then none else want)
            (if is_some old && not (is_some want) then none else old)
          ≡ reconciled m k (os k) want old
    by_cases none none = refl
    by_cases none (some sp) = refl
    by_cases (some w) none = refl
    by_cases (some w) (some sp) = refl

pub reconcile-IsDict :
    (desired : Desired) (os : ℕ → Spawn) (m : StreamManager)
    → IsDict desired
    → IsDict m.streams
    → IsDict (reconcile desired os m).streams
unfolding reconcile
reconcile-IsDict desired os m hd h =
    let gone = select (λ k. not (contains k desired)) (keys m.streams) in
    let added = select (λ d. not (contains d.0 m.streams)) desired in
    start_each-IsDict added os (stop_each gone m) (stop_each-IsDict gone m h)
