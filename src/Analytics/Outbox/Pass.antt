-- ===== src/Analytics/Outbox/Pass.antt =====
-- What one pass of `run_retry_loop` (analytics/src/analytics/core/outbox.py) does to the queue when
-- no other task calls it meanwhile.
use next_sec.Prelude.{
  ℕ, suc, ◌+◌, ◌<◌, ◌≡◌, ◌≢◌, refl, Bool, true, false, not, ◌||◌, none, some, inl, inr, List, [],
  ◌∷◌, map, arith, length, select, All, ◌==◌, Bool-cases, Option-cases, if◌then◌else◌, ◌∙◌,
}
use next_sec.Prelude.Int.{ℤ}
use next_sec.Analytics.Outbox.{
  Row, EventOutbox, list_due, is_due, remove, reschedule, set_next_attempt, set_row, defer_all,
  count_pending,
}
use next_sec.Analytics.Outbox.Retry.{
  SendOutcome, SendResult, as_outcome, Reply, Turn, retry_pass, settle, wait_of,
}
use next_sec.Analytics.Outbox.Order.{
  Between, IsOrdered, Between-select, remove-IsOrdered, reschedule-IsOrdered,
}

-- No other task touches the queue in this turn.
abbrev pub quiet : {P : Type 0} → ℕ → SendResult → Turn P
quiet now x = record { during = []; reply = Reply.returned x; now = now }

module _ {P : Type 0} where
  abbrev pub has_id : ℕ → List (Row P) → Bool
  has_id k [] = false
  has_id k (r ∷ rs) = r.id == k || has_id k rs

  -- How many items of the pass are delivered: the pass ends at the first request to wait.
  abbrev pub delivered_count : List (Row P) → List (ℕ × SendResult) → ℕ
  delivered_count [] xs = 0
  delivered_count (r ∷ due) [] = 0
  delivered_count (r ∷ due) ((_, x) ∷ xs) =
      if (as_outcome x).delivered
      then suc (delivered_count due xs)
      else elim (wait_of (as_outcome x).retry_after_seconds) [
        | some _ ↦ 0
        | none ↦ delivered_count due xs
      ]

  abbrev pub quiet_turns : List (ℕ × SendResult) → List (Turn P)
  quiet_turns = map (λ t. quiet t.0 t.1)

  pub below_absent :
      (k lo hi : ℕ) (rs : List (Row P)) → k < lo → Between lo hi rs → has_id k rs ≡ false
  below_absent k lo hi [] e h = refl
  below_absent k lo hi (r ∷ rs) e h =
      ground (arith, below_absent k (suc r.id) hi rs (omega arith) h.1)

  drop_absent :
      (k : ℕ) (rs : List (Row P)) → has_id k rs ≡ false → select (λ r. not (r.id == k)) rs ≡ rs
  drop_absent k [] h = refl
  drop_absent k (r ∷ rs) h = ground (arith, drop_absent k rs)

  length_drop_id :
      (k lo hi : ℕ) (rs : List (Row P))
      → Between lo hi rs
      → has_id k rs ≡ true
      → length (select (λ r. not (r.id == k)) rs) + 1 ≡ length rs
  length_drop_id k lo hi [] h e = ground arith
  length_drop_id k lo hi (r ∷ rs) h e = elim (Bool-cases (r.id == k)) [
    | inl same ↦
        ground (arith, drop_absent k rs (below_absent k (suc r.id) hi rs (ground arith) h.1))
    | inr other ↦ ground (arith, length_drop_id k (suc r.id) hi rs h.1)
  ]

  has_id_drop :
      (j k : ℕ) (rs : List (Row P))
      → j ≢ k
      → has_id j (select (λ r. not (r.id == k)) rs) ≡ has_id j rs
  has_id_drop j k [] h = refl
  has_id_drop j k (r ∷ rs) h = ground (arith, has_id_drop j k rs h)

  has_id-set_row :
      (j k a at : ℕ) (rs : List (Row P)) → has_id j (map (set_row k a at) rs) ≡ has_id j rs
  has_id-set_row j k a at [] = refl
  has_id-set_row j k a at (r ∷ rs) = ground (arith, has_id-set_row j k a at rs)

  length-map : (f : Row P → Row P) (rs : List (Row P)) → length (map f rs) ≡ length rs
  length-map f [] = refl
  length-map f (r ∷ rs) = omega (arith, length-map f rs)

  -- Every item of the snapshot is still in the queue.
  abbrev AllIn : List (Row P) → List (Row P) → Type 0
  AllIn due rs = All (λ r. has_id r.id rs ≡ true) due

  AllIn-drop :
      (k lo hi : ℕ) (due rs : List (Row P))
      → k < lo
      → Between lo hi due
      → AllIn due rs
      → AllIn due (select (λ r. not (r.id == k)) rs)
  AllIn-drop k lo hi [] rs e b h = tt
  AllIn-drop k lo hi (r ∷ due) rs e b h = (
    has_id_drop r.id k rs (omega arith) ∙ h.0,
    AllIn-drop k (suc r.id) hi due rs (omega arith) b.1 h.1,
  )

  AllIn-set_row :
      (k a at : ℕ) (due rs : List (Row P)) → AllIn due rs → AllIn due (map (set_row k a at) rs)
  AllIn-set_row k a at [] rs h = tt
  AllIn-set_row k a at (r ∷ due) rs h =
      (has_id-set_row r.id k a at rs ∙ h.0, AllIn-set_row k a at due rs h.1)

  AllIn-cons : (r : Row P) (due rs : List (Row P)) → AllIn due rs → AllIn due (r ∷ rs)
  AllIn-cons r [] rs h = tt
  AllIn-cons r (x ∷ due) rs h = (ground arith, AllIn-cons r due rs h.1)

  AllIn-select : (p : Row P → Bool) (rs : List (Row P)) → AllIn (select p rs) rs
  AllIn-select p [] = tt
  AllIn-select p (r ∷ rs) =
      let rest = AllIn-cons r (select p rs) rs (AllIn-select p rs) in
      let here : (r.id == r.id || has_id r.id rs) ≡ true = ground arith in
      elim (Bool-cases (p r)) [ inl e ↦ rw e (here, rest) | inr e ↦ rw e rest ]

  remove_count :
      (k : ℕ) (o : EventOutbox P)
      → IsOrdered o
      → has_id k o.rows ≡ true
      → length (remove k o).rows + 1 ≡ length o.rows
  unfolding remove
  remove_count k o ord h = length_drop_id k 0 o.next_id o.rows ord h

  reschedule_count :
      (now k a : ℕ) (o : EventOutbox P) → length (reschedule now k a o).rows ≡ length o.rows
  unfolding reschedule set_next_attempt
  reschedule_count now k a o = length-map _ o.rows

  defer_count :
      (now : ℕ) (wait : ℤ) (o : EventOutbox P) → length (defer_all now wait o).rows ≡ length o.rows
  unfolding defer_all
  defer_count now wait o = length-map _ o.rows

  -- One item of the pass, with the rest of the pass shut.
  settle_count :
      (r : Row P) (now n lo hi : ℕ) (out : SendOutcome) (rest : EventOutbox P → EventOutbox P)
      (due : List (Row P)) (o : EventOutbox P)
      → ((o' : EventOutbox P)
          → IsOrdered o'
          → AllIn due o'.rows
          → length (rest o').rows + n ≡ length o'.rows)
      → Between lo hi (r ∷ due)
      → IsOrdered o
      → AllIn (r ∷ due) o.rows
      → length (settle r now out rest o).rows
          + (if out.delivered
              then suc n
              else elim (wait_of out.retry_after_seconds) [ some _ ↦ 0 | none ↦ n ])
        ≡ length o.rows
  settle_count r now n lo hi out rest due o ih b ord h = elim (Bool-cases out.delivered) [
    | inl e ↦ rw e (
        omega (
          arith,
          ih (remove r.id o) (remove-IsOrdered r.id o ord)
              (unfold remove in AllIn-drop r.id (suc r.id) hi due o.rows (omega arith) b.1 h.1),
          remove_count r.id o ord h.0,
        ))
    | inr e ↦ elim (Option-cases (wait_of out.retry_after_seconds)) [
      | inl n' ↦
          rw (e, n')
            (omega (
              arith,
              ih (reschedule now r.id r.attempts o) (reschedule-IsOrdered now r.id r.attempts o ord)
                  (unfold reschedule set_next_attempt in AllIn-set_row r.id _ _ due o.rows h.1),
              reschedule_count now r.id r.attempts o,
            ))
      | inr (w, y) ↦ rw (e, y) (omega (arith, defer_count now w o))
    ]
  ]

  pass_count :
      (due : List (Row P)) (xs : List (ℕ × SendResult)) (lo hi : ℕ) (o : EventOutbox P)
      → Between lo hi due
      → IsOrdered o
      → AllIn due o.rows
      → length (retry_pass due (quiet_turns xs) o).rows + delivered_count due xs ≡ length o.rows
  unfolding retry_pass
  pass_count [] xs lo hi o b ord h = omega arith
  pass_count (r ∷ due) [] lo hi o b ord h = omega arith
  pass_count (r ∷ due) ((now, x) ∷ xs) lo hi o b ord h =
      settle_count r now (delivered_count due xs) lo hi (as_outcome x)
        (retry_pass due (quiet_turns xs)) due o
        (λ o' k a. pass_count due xs (suc r.id) hi o' b.1 k a) b ord h

  -- Over a pass that no other task disturbs, whatever the sender answers and wherever the pass is
  -- cut short, exactly the delivered items leave the queue: none is lost and none is kept twice.
  pub count_pending-retry_pass :
      (t : ℕ) (replies : List (ℕ × SendResult)) (o : EventOutbox P)
      → IsOrdered o
      → let due = list_due t none o in
        count_pending (retry_pass due (quiet_turns replies) o) + delivered_count due replies
        ≡ count_pending o
  unfolding count_pending list_due
  count_pending-retry_pass t xs o ord =
      pass_count (select (is_due t) o.rows) xs 0 o.next_id o
        (Between-select (is_due t) 0 o.next_id o.rows ord) ord (AllIn-select (is_due t) o.rows)
