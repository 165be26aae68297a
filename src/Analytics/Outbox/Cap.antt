-- ===== src/Analytics/Outbox/Cap.antt =====
-- The cap of the queue in analytics/src/analytics/core/outbox.py: `enqueue` and `_prune`.
use next_sec.Prelude.{
  ℕ, ◌+◌, ◌-◌, ◌≤◌, ◌≡◌, refl, List, [], ◌∷◌, ◌++◌, arith, length, select, drop, length-append,
  length-drop, length-select-le, select-append, drop-append,
}
use next_sec.Analytics.Outbox.{
  Row, EventOutbox, seconds, enqueue, prune, insert_row, is_fresh, fresh_rows, count_pending,
  drain_dropped_count,
}
use next_sec.Analytics.Outbox.Retry.{Turn, retry_pass}
use next_sec.Analytics.Outbox.Order.{IsOrdered, enqueue-IsOrdered, retry_pass-IsOrdered}

module _ {P : Type 0} where
  -- The row that `enqueue` inserts.
  abbrev pub new_row : ℕ → P → EventOutbox P → Row P
  new_row now payload o = record {
    id = o.next_id;
    payload = payload;
    attempts = 0;
    next_attempt_at = now;
    created_at = now;
  }

  prune_counts :
      (now : ℕ) (o : EventOutbox P)
      → (length (prune now o).rows ≤ o.max_rows)
        × (length (prune now o).rows + (prune now o).dropped ≡ length o.rows + o.dropped)
  unfolding prune
  prune_counts now o =
      let kept = fresh_rows now o in
      let fewer = length-select-le (is_fresh now o.max_age_seconds) o.rows in
      let cut = length-drop (length kept - o.max_rows) kept in
      (omega (arith, fewer, cut), omega (arith, fewer, cut))

  -- After `enqueue` the queue holds at most `max_rows` events, whatever it held before, and no
  -- event is lost silently: each event that was in the queue or is new is either still in it or
  -- has been added to the counter `dropped`.
  pub enqueue-count_pending :
      (now prune_now : ℕ) (payload : P) (o : EventOutbox P)
      → let o' = (enqueue now prune_now payload o).0 in
        (count_pending o' ≤ o.max_rows)
        × (count_pending o' + o'.dropped ≡ count_pending o + 1 + o.dropped)
  unfolding enqueue count_pending
  enqueue-count_pending now prune_now payload o =
      let counts = prune_counts prune_now (insert_row now payload o) in
      (counts.0, omega (arith, counts.1, length-append {0} o.rows (new_row now payload o ∷ [])))

  -- With a cap of at least one row, and a prune that reads its clock within the age limit of the
  -- insertion, the new event is always accepted: it is the last row, under the id that `enqueue`
  -- returns, and the rows before it are the old rows that are not too old, less as many of the
  -- oldest as the cap demands.
  pub enqueue-rows :
      (now prune_now : ℕ) (payload : P) (o : EventOutbox P)
      → 1 ≤ o.max_rows
      → prune_now ≤ now + seconds o.max_age_seconds
      → let (o', row_id) = enqueue now prune_now payload o in
        let kept = fresh_rows prune_now o in
        (o'.rows ≡ drop (length kept + 1 - o.max_rows) kept ++ new_row now payload o ∷ [])
        × (row_id ≡ (new_row now payload o).id)
  unfolding enqueue prune
  enqueue-rows now prune_now payload o cap soon =
      let test = is_fresh prune_now o.max_age_seconds in
      let r = new_row now payload o in
      let fresh : select test (r ∷ []) ≡ r ∷ [] = ground arith in
      let split : select test (o.rows ++ r ∷ []) ≡ fresh_rows prune_now o ++ r ∷ [] =
        rw (select-append test o.rows (r ∷ []), fresh) refl in
      (
        rw (split, length-append (fresh_rows prune_now o) (r ∷ []))
            (drop-append (length (fresh_rows prune_now o) + 1 - o.max_rows) (fresh_rows prune_now o)
              (r ∷ []) (omega arith)),
        refl,
      )

  -- The rows stay in the order of their ids, all below the table's counter, so that the oldest row
  -- is the first one and a new id is new, under `enqueue` and under a whole pass of the retry loop
  -- with any replies and any calls by other tasks in between.
  pub ids_ascend :
      (now prune_now : ℕ) (payload : P) (due : List (Row P)) (turns : List (Turn P))
      (o : EventOutbox P)
      → IsOrdered o
      → IsOrdered (retry_pass due turns (enqueue now prune_now payload o).0)
  ids_ascend now prune_now payload due turns o h =
      retry_pass-IsOrdered due turns _ (enqueue-IsOrdered now prune_now payload o h)

  -- Draining the counter returns the number dropped since the last call, so that the count that is
  -- reported for two events queued one after the other is that of both.
  pub drain_dropped_count-enqueue :
      (n₁ p₁ n₂ p₂ : ℕ) (a b : P) (o : EventOutbox P)
      → let o₁ = (enqueue n₁ p₁ a o).0 in
        let (drained, reported) = drain_dropped_count o₁ in
        let o₂ = (enqueue n₂ p₂ b drained).0 in
        count_pending o₂ + (drain_dropped_count o₂).1 + reported ≡ count_pending o + 2 + o.dropped
  unfolding drain_dropped_count
  drain_dropped_count-enqueue n₁ p₁ n₂ p₂ a b o = omega (
    arith,
    (enqueue-count_pending n₁ p₁ a o).1,
    (enqueue-count_pending n₂ p₂ b (record (enqueue n₁ p₁ a o).0 { dropped = 0 })).1,
    drained,
  )
    where
      drained :
          count_pending (record (enqueue n₁ p₁ a o).0 { dropped = 0 })
          ≡ count_pending (enqueue n₁ p₁ a o).0
      drained = unfold count_pending in refl
