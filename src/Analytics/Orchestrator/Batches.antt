-- ===== src/Analytics/Orchestrator/Batches.antt =====
-- The inference loop `_batch_inference_loop` of analytics/src/analytics/core/orchestrator.py. The model of
-- an engine is third-party code, an argument: what `predict_batch` gives for the frames of a batch, or
-- `none` where it raises. A future is a number, and the dict of futures holds what became of each.
use next_sec.Prelude.{
  ℕ, zero, suc, ◌-◌, Option, none, some, List, [], ◌∷◌, ◌++◌, map, ◌==◌, if◌then◌else◌,
}
use next_sec.Prelude.Dict.{Dict, lookup, insert}

-- `cancelled` is what `wait_for` leaves when the camera has waited too long.
pub data FutureState {ℓ} (R : Type ℓ) : Type ℓ where
  pending : FutureState R
  result : R → FutureState R
  exception : FutureState R
  cancelled : FutureState R

-- An entry of `_frame_queue`.
pub record Item (F : Type 0) : Type 0 where
  pub engine : ℕ
  pub frame : F
  pub future : ℕ

abbrev pub max_batch : ℕ
max_batch = 8

module _ {F : Type 0} where
  abbrev pub cons_item : Item F → List (Item F) × List (Item F) → List (Item F) × List (Item F)
  cons_item item (batch, queue) = (item ∷ batch, queue)

  -- The inner loop: `room` is what the batch can still take, and `window` how many calls of `get` are
  -- answered before the deadline.
  unfoldable pub collect_more : ℕ → ℕ → List (Item F) → List (Item F) × List (Item F)
  collect_more zero window queue = ([], queue)
  collect_more (suc room) zero queue = ([], queue)
  collect_more (suc room) (suc window) [] = ([], [])
  collect_more (suc room) (suc window) (item ∷ queue) =
      cons_item item (collect_more room window queue)

  -- The batch of a round, and the queue that is left. On an empty queue the loop waits.
  unfoldable pub collect : ℕ → List (Item F) → List (Item F) × List (Item F)
  unfolding collect_more
  collect window [] = ([], [])
  collect window (item ∷ queue) = cons_item item (collect_more (max_batch - 1) window queue)

  -- `by_engine[name].append(item)`
  unfoldable pub add_item : Item F → Dict (List (Item F)) → Dict (List (Item F))
  add_item item [] = (item.engine, item ∷ []) ∷ []
  add_item item ((engine, items) ∷ groups) =
      if item.engine == engine
      then (engine, items ++ item ∷ []) ∷ groups
      else (engine, items) ∷ add_item item groups

  unfoldable pub group_items : List (Item F) → Dict (List (Item F)) → Dict (List (Item F))
  unfolding add_item
  group_items [] groups = groups
  group_items (item ∷ items) groups = group_items items (add_item item groups)

module _ {R : Type 0} where
  -- `if not future.done(): …`
  abbrev pub set_pending :
      ℕ → FutureState R → Option (FutureState R) → Dict (FutureState R) → Dict (FutureState R)
  set_pending future s (some FutureState.pending) futures = insert future s futures
  set_pending future s _ futures = futures

  abbrev pub settle_future : ℕ → FutureState R → Dict (FutureState R) → Dict (FutureState R)
  settle_future future s futures = set_pending future s (lookup future futures) futures
  -- `zip(futures, all_detections)`

module _ {F R : Type 0} where
  unfoldable pub set_results : List (Item F) → List R → Dict (FutureState R) → Dict (FutureState R)
  set_results [] rs futures = futures
  set_results (item ∷ items) [] futures = futures
  set_results (item ∷ items) (r ∷ rs) futures =
      set_results items rs (settle_future item.future (FutureState.result r) futures)

  unfoldable pub set_exceptions : List (Item F) → Dict (FutureState R) → Dict (FutureState R)
  set_exceptions [] futures = futures
  set_exceptions (item ∷ items) futures =
      set_exceptions items (settle_future item.future FutureState.exception futures)

  unfoldable pub answer_group :
      Option (List R) → List (Item F) → Dict (FutureState R) → Dict (FutureState R)
  unfolding set_results set_exceptions
  answer_group none items futures = set_exceptions items futures
  answer_group (some rs) items futures = set_results items rs futures

  module _ (predict_batch : ℕ → List F → Option (List R)) where
    unfoldable pub run_groups : Dict (List (Item F)) → Dict (FutureState R) → Dict (FutureState R)
    unfolding answer_group
    run_groups [] futures = futures
    run_groups ((engine, items) ∷ groups) futures =
        run_groups groups
          (answer_group (predict_batch engine (map (λ item. item.frame) items)) items futures)

    unfoldable pub run_batch : List (Item F) → Dict (FutureState R) → Dict (FutureState R)
    unfolding group_items run_groups
    run_batch batch futures = run_groups (group_items batch []) futures

    -- Rounds of the loop, each with the number of calls that its window answers, and no new frames.
    unfoldable pub run_loop :
        List ℕ → List (Item F) → Dict (FutureState R) → List (Item F) × Dict (FutureState R)
    unfolding collect run_batch
    run_loop [] queue futures = (queue, futures)
    run_loop (window ∷ windows) queue futures =
        let (batch, rest) = collect window queue in run_loop windows rest (run_batch batch futures)

  unfoldable pub set_empty : R → List (Item F) → Dict (FutureState R) → Dict (FutureState R)
  set_empty empty [] futures = futures
  set_empty empty (item ∷ items) futures =
      set_empty empty items (settle_future item.future (FutureState.result empty) futures)

module _ {F : Type 0} where
  -- `get_nowait` until the queue is empty.
  unfoldable pub drain : List (Item F) → List (Item F) → List (Item F)
  drain batch [] = batch
  drain batch (item ∷ queue) = drain (batch ++ item ∷ []) queue

module _ {F R : Type 0} where
  -- The handler of the cancellation: the batch and all that is queued get an empty list.
  unfoldable pub cancel_loop :
      R → List (Item F) → List (Item F) → Dict (FutureState R) → Dict (FutureState R)
  unfolding set_empty drain
  cancel_loop empty batch queue futures = set_empty empty (drain batch queue) futures
