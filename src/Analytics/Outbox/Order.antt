-- ===== src/Analytics/Outbox/Order.antt =====
-- The order of the rows: ids ascend and stay below the AUTOINCREMENT counter.
use next_sec.Prelude.{ℕ, suc, ◌+◌, ◌≤◌, ◌≡◌, Bool, List, [], ◌∷◌, ◌++◌, map, arith, select, drop}
use next_sec.Analytics.Outbox.{
  Row, EventOutbox, insert_row, prune, enqueue, remove, set_row, set_next_attempt, reschedule,
  defer_row, defer_all, drain_dropped_count, is_fresh,
}
use next_sec.Analytics.Outbox.Retry.{
  QueueCall, run_call, run_calls, Turn, Reply, SendOutcome, as_outcome, retry_pass, settle,
  settle_reply, wait_of,
}
use next_sec.Prelude.Int.{ℤ}
use next_sec.Prelude.{refl, Option-cases, Bool-cases, inl, inr}

module _ {P : Type 0} where
  abbrev pub Between : ℕ → ℕ → List (Row P) → Type 0
  Between lo hi [] = lo ≤ hi
  Between lo hi (r ∷ rs) = (lo ≤ r.id) × Between (suc r.id) hi rs

  abbrev pub IsOrdered : EventOutbox P → Type 0
  IsOrdered o = Between 0 o.next_id o.rows

  pub Between-le : (lo hi : ℕ) (rs : List (Row P)) → Between lo hi rs → lo ≤ hi
  Between-le lo hi [] h = h
  Between-le lo hi (r ∷ rs) h = omega (arith, Between-le (suc r.id) hi rs h.1)

  pub Between-weaken :
      (k lo hi : ℕ) (rs : List (Row P)) → k ≤ lo → Between lo hi rs → Between k hi rs
  Between-weaken k lo hi [] e h = omega arith
  Between-weaken k lo hi (r ∷ rs) e h = (omega arith, h.1)

  pub Between-select :
      (p : Row P → Bool) (lo hi : ℕ) (rs : List (Row P))
      → Between lo hi rs
      → Between lo hi (select p rs)
  Between-select p lo hi [] h = h
  Between-select p lo hi (r ∷ rs) h =
      ground (
        arith,
        Between-select p (suc r.id) hi rs h.1,
        Between-weaken lo (suc r.id) hi (select p rs),
      )

  pub Between-drop :
      (n lo hi : ℕ) (rs : List (Row P)) → Between lo hi rs → Between lo hi (drop n rs)
  Between-drop ℕ.zero lo hi rs h = h
  Between-drop (suc n) lo hi [] h = h
  Between-drop (suc n) lo hi (r ∷ rs) h =
      Between-weaken lo (suc r.id) hi (drop n rs) (omega arith)
        (Between-drop n (suc r.id) hi rs h.1)

  pub Between-snoc :
      (lo hi : ℕ) (rs : List (Row P)) (r : Row P)
      → r.id ≡ hi
      → Between lo hi rs
      → Between lo (hi + 1) (rs ++ r ∷ [])
  Between-snoc lo hi [] r e h = (omega arith, omega arith)
  Between-snoc lo hi (x ∷ rs) r e h = (h.0, Between-snoc (suc x.id) hi rs r e h.1)

  Between-set_row :
      (k a at lo hi : ℕ) (rs : List (Row P))
      → Between lo hi rs
      → Between lo hi (map (set_row k a at) rs)
  Between-set_row k a at lo hi [] h = h
  Between-set_row k a at lo hi (r ∷ rs) h =
      ground (arith, Between-set_row k a at (suc r.id) hi rs h.1)

  Between-defer_row :
      (until lo hi : ℕ) (rs : List (Row P))
      → Between lo hi rs
      → Between lo hi (map (defer_row until) rs)
  Between-defer_row until lo hi [] h = h
  Between-defer_row until lo hi (r ∷ rs) h =
      ground (arith, Between-defer_row until (suc r.id) hi rs h.1)

  prune-IsOrdered : (now : ℕ) (o : EventOutbox P) → IsOrdered o → IsOrdered (prune now o)
  unfolding prune
  prune-IsOrdered now o h =
      Between-drop _ 0 o.next_id _
        (Between-select (is_fresh now o.max_age_seconds) 0 o.next_id o.rows h)

  pub enqueue-IsOrdered :
      (now prune_now : ℕ) (payload : P) (o : EventOutbox P)
      → IsOrdered o
      → IsOrdered (enqueue now prune_now payload o).0
  unfolding enqueue
  enqueue-IsOrdered now prune_now payload o h =
      prune-IsOrdered prune_now (insert_row now payload o)
        (Between-snoc 0 o.next_id o.rows _ refl h)

  pub remove-IsOrdered : (k : ℕ) (o : EventOutbox P) → IsOrdered o → IsOrdered (remove k o)
  unfolding remove
  remove-IsOrdered k o h = Between-select _ 0 o.next_id o.rows h

  pub reschedule-IsOrdered :
      (now k a : ℕ) (o : EventOutbox P) → IsOrdered o → IsOrdered (reschedule now k a o)
  unfolding reschedule set_next_attempt
  reschedule-IsOrdered now k a o h = Between-set_row k _ _ 0 o.next_id o.rows h

  pub defer_all-IsOrdered :
      (now : ℕ) (wait : ℤ) (o : EventOutbox P) → IsOrdered o → IsOrdered (defer_all now wait o)
  unfolding defer_all
  defer_all-IsOrdered now wait o h = Between-defer_row _ 0 o.next_id o.rows h

  run_call-IsOrdered :
      (c : QueueCall P) (o : EventOutbox P) → IsOrdered o → IsOrdered (run_call c o)
  unfolding drain_dropped_count
  run_call-IsOrdered (QueueCall.enqueues n k p) o h = enqueue-IsOrdered n k p o h
  run_call-IsOrdered (QueueCall.defers n w) o h = defer_all-IsOrdered n w o h
  run_call-IsOrdered QueueCall.drains o h = h

  pub run_calls-IsOrdered :
      (cs : List (QueueCall P)) (o : EventOutbox P) → IsOrdered o → IsOrdered (run_calls cs o)
  run_calls-IsOrdered [] o h = h
  run_calls-IsOrdered (c ∷ cs) o h =
      run_calls-IsOrdered cs (run_call c o) (run_call-IsOrdered c o h)

  settle-IsOrdered :
      (r : Row P) (now : ℕ) (out : SendOutcome) (rest : EventOutbox P → EventOutbox P)
      (o : EventOutbox P)
      → ((o' : EventOutbox P) → IsOrdered o' → IsOrdered (rest o'))
      → IsOrdered o
      → IsOrdered (settle r now out rest o)
  settle-IsOrdered r now out rest o keep h = elim (Bool-cases out.delivered) [
    | inl e ↦ rw e (keep _ (remove-IsOrdered r.id o h))
    | inr e ↦ elim (Option-cases (wait_of out.retry_after_seconds)) [
      | inl none_given ↦ rw (e, none_given) (keep _ (reschedule-IsOrdered now r.id r.attempts o h))
      | inr (w, given) ↦ rw (e, given) (defer_all-IsOrdered now w o h)
    ]
  ]

  pub retry_pass-IsOrdered :
      (due : List (Row P)) (turns : List (Turn P)) (o : EventOutbox P)
      → IsOrdered o
      → IsOrdered (retry_pass due turns o)
  unfolding retry_pass
  retry_pass-IsOrdered [] turns o h = h
  retry_pass-IsOrdered (r ∷ due) [] o h = h
  retry_pass-IsOrdered (r ∷ due) (t ∷ turns) o h =
      step t.reply (run_calls-IsOrdered t.during o h) (retry_pass-IsOrdered due turns)
    where
      step :
          (reply : Reply)
          → IsOrdered (run_calls t.during o)
          → ((o' : EventOutbox P) → IsOrdered o' → IsOrdered (retry_pass due turns o'))
          → IsOrdered (settle_reply r t.now reply (retry_pass due turns) (run_calls t.during o))
      step Reply.raised k keep = k
      step (Reply.returned x) k keep =
          settle-IsOrdered r t.now (as_outcome x) (retry_pass due turns) (run_calls t.during o) keep
            k
