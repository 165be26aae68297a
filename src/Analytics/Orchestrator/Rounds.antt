-- ===== src/Analytics/Orchestrator/Rounds.antt =====
-- Rounds of `_batch_inference_loop` (analytics/src/analytics/core/orchestrator.py): the queue empties, and
-- no camera is left waiting.
use next_sec.Prelude.{
  ℕ, zero, suc, ◌-◌, ◌≤◌, ◌≡◌, refl, sym, ◌∙◌, ap, not, ◌&&◌, ◌||◌, Option, none, some, List, [],
  ◌∷◌, ◌++◌, map, arith, elem, length, length-append, Option-cases, inl, inr,
}
use mathlib.Core.List.{append-nil, append_assoc}
use next_sec.Prelude.Dict.{Dict, lookup}
use next_sec.Analytics.Orchestrator.Batches.{
  FutureState, Item, max_batch, collect_more, collect, group_items, run_batch, run_loop,
  settle_future, set_empty, drain, cancel_loop,
}
use next_sec.Analytics.Orchestrator.Delivery.{
  futures_of, flatten, is_pending, answers, group_answers, group_answers-Final, groups_answered,
  settled_pending, lookup-settle_future,
}
use next_sec.Analytics.Orchestrator.Groups.{elem-append, elem-group_items}

module _ {F : Type 0} where
  collect_more_lem :
      (room window : ℕ) (queue : List (Item F))
      → ((collect_more room window queue).0 ++ (collect_more room window queue).1 ≡ queue)
        × (length (collect_more room window queue).0 ≤ room)
  unfolding collect_more
  collect_more_lem zero window queue = (refl, omega arith)
  collect_more_lem (suc room) zero queue = (refl, omega arith)
  collect_more_lem (suc room) (suc window) [] = (refl, omega arith)
  collect_more_lem (suc room) (suc window) (item ∷ queue) =
      let ih = collect_more_lem room window queue in (ap (◌∷◌ item) ih.0, omega (arith, ih.1))

  -- A batch is the head of the queue, in order, and has at most eight frames; of a queue with
  -- frames it takes at least one.
  collect_lem :
      (window : ℕ) (queue : List (Item F))
      → ((collect window queue).0 ++ (collect window queue).1 ≡ queue)
        × (length (collect window queue).0 ≤ max_batch)
        × (length (collect window queue).1 ≤ length queue - 1)
  unfolding collect
  collect_lem window [] = (refl, omega arith, omega arith)
  collect_lem window (item ∷ queue) =
      let (split, most) = collect_more_lem (max_batch - 1) window queue in
      let (batch, rest) = collect_more (max_batch - 1) window queue in
      (
        ap (◌∷◌ item) split,
        omega (arith, most),
        omega (arith, ap length split, length-append batch rest),
      )

module _ {F : Type 0} where
  length-frames : (items : List (Item F)) → length (map (λ item. item.frame) items) ≡ length items
  length-frames [] = refl
  length-frames (item ∷ items) = omega (arith, length-frames items)

  keys-exceptions :
      (R : Type 0) (items : List (Item F))
      → map (λ e. e.0) (answers {R = R} none items) ≡ futures_of items
  keys-exceptions R [] = refl
  keys-exceptions R (item ∷ items) = ap (◌∷◌ item.future) (keys-exceptions R items)

module _ {R : Type 0} where
  keys-append :
      (k : ℕ) (a b : Dict (FutureState R))
      → elem k (map (λ e. e.0) (a ++ b)) ≡ (elem k (map (λ e. e.0) a) || elem k (map (λ e. e.0) b))
  keys-append k [] b = refl
  keys-append k ((j, s) ∷ a) b = ground (arith, keys-append k a b)

module _ {F R : Type 0} where
  keys-results :
      (rs : List R) (items : List (Item F))
      → length rs ≡ length items
      → map (λ e. e.0) (answers (some rs) items) ≡ futures_of items
  keys-results rs [] h = refl
  keys-results [] (item ∷ items) h = absurd (omega arith)
  keys-results (r ∷ rs) (item ∷ items) h =
      ap (◌∷◌ item.future) (keys-results rs items (omega arith))

module _ {F R : Type 0} (predict_batch : ℕ → List F → Option (List R))
    (one_each : (engine : ℕ) (frames : List F) (rs : List R)
      → predict_batch engine frames ≡ some rs
      → length rs ≡ length frames) where
  keys-answers :
      (engine : ℕ) (items : List (Item F))
      → map (λ e. e.0) (answers (predict_batch engine (map (λ item. item.frame) items)) items)
        ≡ futures_of items
  keys-answers engine items =
      let frames = map (λ item. item.frame) items in
      elim (Option-cases (predict_batch engine frames)) [
        | inl raised ↦ rw raised (keys-exceptions R items)
        | inr (rs, e) ↦
            rw e (keys-results rs items (one_each engine frames rs e ∙ length-frames items))
      ]

  keys-group_answers :
      (k : ℕ) (groups : Dict (List (Item F)))
      → elem k (map (λ e. e.0) (group_answers predict_batch groups))
        ≡ elem k (futures_of (flatten groups))
  keys-group_answers k [] = refl
  keys-group_answers k ((engine, items) ∷ groups) =
      let rs = predict_batch engine (map (λ item. item.frame) items) in
      keys-append k (answers rs items) (group_answers predict_batch groups)
      ∙ ground (
        arith,
        keys-answers engine items,
        keys-group_answers k groups,
        elem-append k items (flatten groups),
      )

  run_batch-pending :
      (batch : List (Item F)) (futures : Dict (FutureState R)) (k : ℕ)
      → is_pending (lookup k (run_batch predict_batch batch futures))
        ≡ (is_pending (lookup k futures) && not (elem k (futures_of batch)))
  unfolding run_batch
  run_batch-pending batch futures k =
      let groups = group_items batch [] in
      ap is_pending (groups_answered predict_batch k groups futures)
      ∙ settled_pending k (group_answers predict_batch groups) (lookup k futures)
          (group_answers-Final predict_batch groups)
      ∙ ground (arith, keys-group_answers k groups, elem-group_items k batch [])

  -- Where an engine gives one answer for each frame or raises, as many rounds as there are queued
  -- frames empty the queue, however short their windows are. After them no future of the queue is pending,
  -- whatever the engines raised, and of the others none has changed from or to pending.
  pub run_loop-drains :
      (windows : List ℕ) (queue : List (Item F)) (futures : Dict (FutureState R)) (k : ℕ)
      → length queue ≤ length windows
      → ((run_loop predict_batch windows queue futures).0 ≡ [])
        × (is_pending (lookup k (run_loop predict_batch windows queue futures).1)
            ≡ (is_pending (lookup k futures) && not (elem k (futures_of queue))))
  unfolding run_loop
  run_loop-drains [] [] futures k h = (refl, ground arith)
  run_loop-drains [] (item ∷ queue) futures k h = absurd (omega arith)
  run_loop-drains (window ∷ windows) queue futures k h =
      let (batch, rest) = collect window queue in
      let (split, most, less) = collect_lem window queue in
      let (empty, pending) =
        run_loop-drains windows rest (run_batch predict_batch batch futures) k
          (omega (arith, less)) in
      (
        empty,
        pending
            ∙ ground (
              arith,
              run_batch-pending batch futures k,
              elem-append k batch rest,
              ap (λ q. elem k (futures_of q)) split,
            ),
      )

module _ {F : Type 0} where
  drain_lem : (batch queue : List (Item F)) → drain batch queue ≡ batch ++ queue
  unfolding drain
  drain_lem batch [] = sym (append-nil batch)
  drain_lem batch (item ∷ queue) =
      drain_lem (batch ++ item ∷ []) queue ∙ append_assoc batch (item ∷ []) queue

module _ {F R : Type 0} where
  set_empty-pending :
      (empty : R) (items : List (Item F)) (futures : Dict (FutureState R)) (k : ℕ)
      → is_pending (lookup k (set_empty empty items futures))
        ≡ (is_pending (lookup k futures) && not (elem k (futures_of items)))
  unfolding set_empty
  set_empty-pending empty [] futures k = ground arith
  set_empty-pending empty (item ∷ items) futures k =
      let answer = FutureState.result empty in
      set_empty-pending empty items (settle_future item.future answer futures) k
      ∙ ground (arith, lookup-settle_future k item.future answer futures)

  -- When the loop is cancelled no camera is left waiting: of the frames that were taken and of those
  -- that are queued every pending future is set, and no other future is changed from pending.
  pub cancel_loop-pending :
      (empty : R) (batch queue : List (Item F)) (futures : Dict (FutureState R)) (k : ℕ)
      → is_pending (lookup k (cancel_loop empty batch queue futures)) ≡ (
          is_pending (lookup k futures)
          && not (elem k (futures_of batch) || elem k (futures_of queue)))
  unfolding cancel_loop
  cancel_loop-pending empty batch queue futures k =
      set_empty-pending empty (drain batch queue) futures k
      ∙ ground (
        arith,
        ap (λ q. elem k (futures_of q)) (drain_lem batch queue),
        elem-append k batch queue,
      )
