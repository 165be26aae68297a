-- ===== src/Analytics/Orchestrator/Groups.antt =====
-- The groups by engine that `_batch_inference_loop` makes of a batch
-- (analytics/src/analytics/core/orchestrator.py), and whose detections a future gets.
use next_sec.Prelude.{
  ℕ, ◌≡◌, refl, sym, ◌∙◌, ap, false, ◌&&◌, ◌||◌, Option, none, some, List, [], ◌∷◌, ◌++◌, map,
  arith, ◌==◌, if◌then◌else◌, elem, All, All-append, Bool-cases, inl, inr, ==_iff,
}
use next_sec.Prelude.Dict.{Dict, lookup}
use next_sec.Analytics.Orchestrator.Batches.{FutureState, Item, add_item, group_items, run_batch}
use next_sec.Analytics.Orchestrator.Delivery.{
  futures_of, Distinct, flatten, settled, answers, group_answers, groups_answered,
}

module _ {F : Type 0} where
  pub elem-append :
      (k : ℕ) (xs ys : List (Item F))
      → elem k (futures_of (xs ++ ys)) ≡ (elem k (futures_of xs) || elem k (futures_of ys))
  elem-append k [] ys = refl
  elem-append k (x ∷ xs) ys = ground (arith, elem-append k xs ys)

  elem-add_item :
      (k : ℕ) (x : Item F) (groups : Dict (List (Item F)))
      → elem k (futures_of (flatten (add_item x groups)))
        ≡ (k == x.future || elem k (futures_of (flatten groups)))
  unfolding add_item
  elem-add_item k x [] = ground arith
  elem-add_item k x ((engine, items) ∷ groups) = ground (
    arith,
    elem-append k items (flatten groups),
    elem-append k items (x ∷ []),
    elem-append k (items ++ x ∷ []) (flatten groups),
    elem-append k items (flatten (add_item x groups)),
    elem-add_item k x groups,
  )

  pub elem-group_items :
      (k : ℕ) (batch : List (Item F)) (groups : Dict (List (Item F)))
      → elem k (futures_of (flatten (group_items batch groups)))
        ≡ (elem k (futures_of batch) || elem k (futures_of (flatten groups)))
  unfolding group_items
  elem-group_items k [] groups = ground arith
  elem-group_items k (x ∷ batch) groups =
      elem-group_items k batch (add_item x groups) ∙ ground (arith, elem-add_item k x groups)

  -- A group holds the items of one engine.
  abbrev Grouped : Dict (List (Item F)) → Type 0
  Grouped = All (λ g. All (λ (item : Item F). item.engine ≡ g.0) g.1)

  add_item-Grouped :
      (x : Item F) (groups : Dict (List (Item F))) → Grouped groups → Grouped (add_item x groups)
  unfolding add_item
  add_item-Grouped x [] h = ((refl, tt), tt)
  add_item-Grouped x ((engine, items) ∷ groups) h = elim (Bool-cases (x.engine == engine)) [
    | inl same ↦ rw same (
      All-append (λ (item : Item F). item.engine ≡ engine) items (x ∷ []) h.0
          ((==_iff x.engine engine).0 same, tt),
      h.1,
    )
    | inr other ↦ rw other (h.0, add_item-Grouped x groups h.1)
  ]

  group_items-Grouped :
      (batch : List (Item F)) (groups : Dict (List (Item F)))
      → Grouped groups
      → Grouped (group_items batch groups)
  unfolding group_items
  group_items-Grouped [] groups h = h
  group_items-Grouped (x ∷ batch) groups h =
      group_items-Grouped batch (add_item x groups) (add_item-Grouped x groups h)

module _ {F R : Type 0} (detect : ℕ → F → R) where
  -- The specification: the detections of the item's own frame, by its own engine.
  abbrev pub own : List (Item F) → Dict (FutureState R)
  own = map (λ item. (item.future, FutureState.result (detect item.engine item.frame)))

  own-append :
      (k : ℕ) (xs ys : List (Item F))
      → lookup k (own (xs ++ ys))
        ≡ (if elem k (futures_of xs) then lookup k (own xs) else lookup k (own ys))
  own-append k [] ys = refl
  own-append k (x ∷ xs) ys = ground (arith, own-append k xs ys)

  own-absent :
      (k : ℕ) (xs : List (Item F)) → elem k (futures_of xs) ≡ false → lookup k (own xs) ≡ none
  own-absent k [] h = refl
  own-absent k (x ∷ xs) h = ground (arith, own-absent k xs)

  own-add_item :
      (k : ℕ) (x : Item F) (groups : Dict (List (Item F)))
      → (k == x.future && elem k (futures_of (flatten groups))) ≡ false
      → lookup k (own (flatten (add_item x groups)))
        ≡ (if k == x.future then lookup k (own (x ∷ [])) else lookup k (own (flatten groups)))
  unfolding add_item
  own-add_item k x [] h = ground arith
  own-add_item k x ((engine, items) ∷ groups) h = ground (
    arith,
    elem-append k items (flatten groups),
    elem-append k items (x ∷ []),
    own-append k items (flatten groups),
    own-append k items (x ∷ []),
    own-append k (items ++ x ∷ []) (flatten groups),
    own-append k items (flatten (add_item x groups)),
    own-absent k items,
    own-add_item k x groups,
  )

  own-group_items :
      (k : ℕ) (batch : List (Item F)) (groups : Dict (List (Item F)))
      → Distinct batch
      → (elem k (futures_of batch) && elem k (futures_of (flatten groups))) ≡ false
      → lookup k (own (flatten (group_items batch groups))) ≡ (
          if elem k (futures_of batch)
          then lookup k (own batch)
          else lookup k (own (flatten groups)))
  unfolding group_items
  own-group_items k [] groups d h = refl
  own-group_items k (x ∷ batch) groups d h =
      own-group_items k batch (add_item x groups) d.1 (ground (arith, elem-add_item k x groups))
      ∙ ground (arith, own-add_item k x groups)

  answers-own :
      (engine : ℕ) (items : List (Item F))
      → All (λ (item : Item F). item.engine ≡ engine) items
      → answers (some (map (detect engine) (map (λ item. item.frame) items))) items ≡ own items
  answers-own engine [] h = refl
  answers-own engine (item ∷ items) h = ground (arith, answers-own engine items h.1, h.0)

  own-append_all : (xs ys : List (Item F)) → own (xs ++ ys) ≡ own xs ++ own ys
  own-append_all [] ys = refl
  own-append_all (x ∷ xs) ys = ground (arith, own-append_all xs ys)

  module _ (predict_batch : ℕ → List F → Option (List R))
      (in_order : (engine : ℕ) (frames : List F)
        → predict_batch engine frames ≡ some (map (detect engine) frames)) where
    group_answers-own :
        (groups : Dict (List (Item F)))
        → Grouped groups
        → group_answers predict_batch groups ≡ own (flatten groups)
    group_answers-own [] h = refl
    group_answers-own ((engine, items) ∷ groups) h =
        rw
          (
            in_order engine (map (λ item. item.frame) items),
            answers-own engine items h.0,
            group_answers-own groups h.1,
          )
          (sym (own-append_all items (flatten groups)))

    -- Where an engine gives the detections of its frames in their order, and no future is queued twice,
    -- each future of a batch that is still pending gets the detections of its own frame by its
    -- own engine, however the batch mixes the engines. A future that is done, or that is not of
    -- the batch, stays as it is.
    pub run_batch-own :
        (batch : List (Item F)) (futures : Dict (FutureState R)) (k : ℕ)
        → Distinct batch
        → lookup k (run_batch predict_batch batch futures)
          ≡ settled (lookup k (own batch)) (lookup k futures)
    unfolding run_batch
    run_batch-own batch futures k d =
        groups_answered predict_batch k (group_items batch []) futures
        ∙ ap (λ a. settled (lookup k a) (lookup k futures))
            (group_answers-own (group_items batch []) (group_items-Grouped batch [] tt))
        ∙ ap (λ a. settled a (lookup k futures))
            (own-group_items k batch [] d (ground arith) ∙ ground (arith, own-absent k batch))
