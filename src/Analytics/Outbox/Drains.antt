-- ===== src/Analytics/Outbox/Drains.antt =====
-- A pass of `run_retry_loop` (analytics/src/analytics/core/outbox.py) in which every item is delivered.
use next_sec.Prelude.{
  ℕ, suc, ◌<◌, ◌≡◌, refl, Bool, true, false, not, none, inl, inr, List, [], ◌∷◌, map, arith, select,
  All, ◌==◌, Bool-cases, if◌then◌else◌, ap, sym,
}
use mathlib.Core.Path.{subst}
use next_sec.Analytics.Outbox.{Row, EventOutbox, list_due, is_due, remove}
use next_sec.Analytics.Outbox.Retry.{SendResult, as_outcome, retry_pass}
use next_sec.Analytics.Outbox.Order.{Between, IsOrdered, Between-select}
use next_sec.Analytics.Outbox.Pass.{has_id, quiet_turns, below_absent}

module _ {P : Type 0} where
  -- Two rounds of `select` are one.
  select-select :
      (p q s : Row P → Bool) (rs : List (Row P))
      → All (λ r. (if p r then q r else false) ≡ s r) rs
      → select q (select p rs) ≡ select s rs
  select-select p q s [] h = refl
  select-select p q s (r ∷ rs) h = ground (arith, h.0, select-select p q s rs h.1)

  All-intro : (Q : Row P → Type 0) → ((r : Row P) → Q r) → (rs : List (Row P)) → All Q rs
  All-intro Q h [] = tt
  All-intro Q h (r ∷ rs) = (h r, All-intro Q h rs)

  select-All : (p : Row P → Bool) (rs : List (Row P)) → All (λ r. p r ≡ true) rs → select p rs ≡ rs
  select-All p [] h = refl
  select-All p (r ∷ rs) h = ground (arith, h.0, select-All p rs h.1)

  -- Each item of the pass is delivered.
  abbrev pub all_delivered : ℕ → List (Row P) → List (ℕ × SendResult)
  all_delivered now = map (λ _. (now, SendResult.flag true))

  pass_drains :
      (now : ℕ) (due : List (Row P)) (o : EventOutbox P)
      → (retry_pass due (quiet_turns (all_delivered now due)) o)
        ≡ record o { rows = select (λ r. not (has_id r.id due)) o.rows }
  unfolding retry_pass as_outcome remove
  pass_drains now [] o = rw (select-All (λ r. true) o.rows (All-intro _ (λ r. refl) o.rows))
  pass_drains now (x ∷ due) o =
      rw (pass_drains now due (record o { rows = select (λ r. not (r.id == x.id)) o.rows })) (
        rw (
          select-select (λ r. not (r.id == x.id)) (λ r. not (has_id r.id due))
            (λ r. not (has_id r.id (x ∷ due))) o.rows (All-intro _ (λ r. ground arith) o.rows)))

  select_same :
      (p q : Row P → Bool) (rs : List (Row P)) → All (λ r. p r ≡ q r) rs → select p rs ≡ select q rs
  select_same p q [] h = refl
  select_same p q (r ∷ rs) h = ground (arith, h.0, select_same p q rs h.1)

  -- An item with a smaller id says nothing of the members that come after it.
  skip_head :
      (p : Row P → Bool) (x : Row P) (ds : List (Row P)) (lo hi : ℕ) (rs : List (Row P))
      → x.id < lo
      → Between lo hi rs
      → All (λ r. not (has_id r.id ds) ≡ not (p r)) rs
      → All (λ r. not (has_id r.id (x ∷ ds)) ≡ not (p r)) rs
  skip_head p x ds lo hi [] e b h = tt
  skip_head p x ds lo hi (r ∷ rs) e b h =
      (ground (arith, h.0), skip_head p x ds (suc r.id) hi rs (omega arith) b.1 h.1)

  -- In a list with distinct ids the members that pass a test are told by their ids.
  select_ids :
      (p : Row P → Bool) (lo hi : ℕ) (rs : List (Row P))
      → Between lo hi rs
      → All (λ r. not (has_id r.id (select p rs)) ≡ not (p r)) rs
  select_ids p lo hi [] b = tt
  select_ids p lo hi (r ∷ rs) b =
      let rest = select_ids p (suc r.id) hi rs b.1 in
      let head : has_id r.id (select p rs) ≡ false =
        below_absent r.id (suc r.id) hi (select p rs) (omega arith)
          (Between-select p (suc r.id) hi rs b.1) in
      elim (Bool-cases (p r)) [
        | inl e ↦
            subst OnAll (sym (kept e))
              (ground arith, skip_head p r (select p rs) (suc r.id) hi rs (omega arith) b.1 rest)
        | inr e ↦ subst OnAll (sym (left_out e)) (rw (head, e) refl, rest)
      ]
    where
      OnAll : List (Row P) → Type 0
      OnAll ds = All (λ x. not (has_id x.id ds) ≡ not (p x)) (r ∷ rs)

      kept : p r ≡ true → select p (r ∷ rs) ≡ r ∷ select p rs
      kept e = rw e refl

      left_out : p r ≡ false → select p (r ∷ rs) ≡ select p rs
      left_out e = rw e refl

  -- A pass in which every item is delivered, and which no other task disturbs, drains the queue:
  -- what is left is exactly the rows that were not due, unchanged and in order.
  pub retry_pass-drains :
      (t now : ℕ) (o : EventOutbox P)
      → IsOrdered o
      → let due = list_due t none o in
        retry_pass due (quiet_turns (all_delivered now due)) o
        ≡ record o { rows = select (λ r. not (is_due t r)) o.rows }
  unfolding list_due
  retry_pass-drains t now o ord = rw (pass_drains now (select (is_due t) o.rows) o) (
      ap (λ rs. record o { rows = rs })
        (select_same _ _ o.rows (select_ids (is_due t) 0 o.next_id o.rows ord)))
