-- ===== src/Analytics/Orchestrator/Delivery.antt =====
-- What becomes of the futures of a batch in `_batch_inference_loop`
-- (analytics/src/analytics/core/orchestrator.py).
use next_sec.Prelude.{
  ℕ, ◌≡◌, refl, sym, ◌∙◌, ap, Bool, true, false, not, ◌&&◌, Option, none, some, List, [], ◌∷◌, ◌++◌,
  map, arith, ◌==◌, if◌then◌else◌, elem, All, All-append,
}
use next_sec.Prelude.Dict.{Dict, lookup, lookup-insert}
use next_sec.Analytics.Orchestrator.Batches.{
  FutureState, Item, settle_future, answer_group, run_groups,
}

abbrev pub futures_of : {F : Type 0} → List (Item F) → List ℕ
futures_of = map (λ item. item.future)

-- No future is queued twice.
abbrev pub Distinct : {F : Type 0} → List (Item F) → Type 0
Distinct [] = Unit
Distinct (item ∷ items) = (elem item.future (futures_of items) ≡ false) × Distinct items

-- The items of the groups, one group after the other.
abbrev pub flatten : {F : Type 0} → Dict (List (Item F)) → List (Item F)
flatten [] = []
flatten ((_, items) ∷ groups) = items ++ flatten groups

-- What an answer does to a future: only one that is pending takes it.
abbrev pub settled {ℓ} :
    {R : Type ℓ} → Option (FutureState R) → Option (FutureState R) → Option (FutureState R)
settled (some answer) (some FutureState.pending) = some answer
settled answer state = state

abbrev pub is_pending : {R : Type 0} → Option (FutureState R) → Bool
is_pending (some FutureState.pending) = true
is_pending _ = false

-- No answer is `pending`.
abbrev pub Final : {R : Type 0} → Dict (FutureState R) → Type 0
Final = All (λ e. is_pending (some e.1) ≡ false)

module _ {R : Type 0} where
  pub lookup-settle_future :
      (k future : ℕ) (s : FutureState R) (futures : Dict (FutureState R))
      → lookup k (settle_future future s futures)
        ≡ settled (if k == future then some s else none) (lookup k futures)
  lookup-settle_future k future s futures = ground (arith, lookup-insert k future s futures)

  lookup-append :
      (k : ℕ) (a b : Dict (FutureState R)) (state : Option (FutureState R))
      → Final a
      → settled (lookup k (a ++ b)) state ≡ settled (lookup k b) (settled (lookup k a) state)
  lookup-append k [] b state h = refl
  lookup-append k ((j, s) ∷ a) b state h = ground (arith, lookup-append k a b state h.1)

  pub settled_pending :
      (k : ℕ) (a : Dict (FutureState R)) (state : Option (FutureState R))
      → Final a
      → is_pending (settled (lookup k a) state)
        ≡ (is_pending state && not (elem k (map (λ e. e.0) a)))
  settled_pending k [] state h = ground arith
  settled_pending k ((j, s) ∷ a) state h = ground (arith, settled_pending k a state h.1)

module _ {F R : Type 0} where
  -- The answers of a batch as a dict: the detections of each frame, or the exception.
  abbrev pub answers : Option (List R) → List (Item F) → Dict (FutureState R)
  answers rs [] = []
  answers none (item ∷ items) = (item.future, FutureState.exception) ∷ answers none items
  answers (some []) (item ∷ items) = []
  answers (some (r ∷ rs)) (item ∷ items) =
      (item.future, FutureState.result r) ∷ answers (some rs) items

  answers-Final : (rs : Option (List R)) (items : List (Item F)) → Final (answers rs items)
  answers-Final rs [] = tt
  answers-Final none (item ∷ items) = (refl, answers-Final none items)
  answers-Final (some []) (item ∷ items) = tt
  answers-Final (some (r ∷ rs)) (item ∷ items) = (refl, answers-Final (some rs) items)

  answered :
      (k : ℕ) (rs : Option (List R)) (items : List (Item F)) (futures : Dict (FutureState R))
      → lookup k (answer_group rs items futures)
        ≡ settled (lookup k (answers rs items)) (lookup k futures)
  unfolding answer_group
  answered k none [] futures = refl
  answered k (some rs) [] futures = refl
  answered k none (item ∷ items) futures =
      answered k none items (settle_future item.future FutureState.exception futures)
      ∙ ground (arith, lookup-settle_future k item.future FutureState.exception futures)
  answered k (some []) (item ∷ items) futures = refl
  answered k (some (r ∷ rs)) (item ∷ items) futures =
      answered k (some rs) items (settle_future item.future (FutureState.result r) futures)
      ∙ ground (arith, lookup-settle_future k item.future (FutureState.result r) futures)

  module _ (predict_batch : ℕ → List F → Option (List R)) where
    abbrev pub group_answers : Dict (List (Item F)) → Dict (FutureState R)
    group_answers [] = []
    group_answers ((engine, items) ∷ groups) =
        answers (predict_batch engine (map (λ item. item.frame) items)) items
        ++ group_answers groups

    pub group_answers-Final : (groups : Dict (List (Item F))) → Final (group_answers groups)
    group_answers-Final [] = tt
    group_answers-Final ((engine, items) ∷ groups) =
        let rs = predict_batch engine (map (λ item. item.frame) items) in
        All-append (λ e. is_pending (some e.1) ≡ false) (answers rs items) (group_answers groups)
          (answers-Final rs items) (group_answers-Final groups)

    pub groups_answered :
        (k : ℕ) (groups : Dict (List (Item F))) (futures : Dict (FutureState R))
        → lookup k (run_groups predict_batch groups futures)
          ≡ settled (lookup k (group_answers groups)) (lookup k futures)
    unfolding run_groups
    groups_answered k [] futures = refl
    groups_answered k ((engine, items) ∷ groups) futures =
        let rs = predict_batch engine (map (λ item. item.frame) items) in
        groups_answered k groups (answer_group rs items futures)
        ∙ ap (settled (lookup k (group_answers groups))) (answered k rs items futures)
        ∙ sym (
            lookup-append k (answers rs items) (group_answers groups) (lookup k futures)
              (answers-Final rs items))
