-- ===== src/Analytics/Outbox/Backoff.antt =====
-- Delays of the queue in analytics/src/analytics/core/outbox.py: `reschedule` and `defer_all`.
use next_sec.Prelude.{
  ℕ, suc, ◌+◌, ◌*◌, ◌^◌, ◌≤◌, ◌<◌, ◌≡◌, refl, not, none, List, [], ◌∷◌, map, arith, select, ◌==◌,
}
use next_sec.Prelude.Int.{ℤ}
use native.Mathlib.Nat.{pow-suc}
use native.Mathlib.Numerals.{towards_suc}
use next_sec.Analytics.Outbox.{
  Row, EventOutbox, seconds, backoff, reschedule, set_next_attempt, set_row, defer_all, defer_row,
  at_least_one, list_due, is_due,
}

pow_double : (k : ℕ) → 2 ^ suc k ≡ 2 * 2 ^ k
pow_double k = omega (arith, pow-suc 2 k)

one-le-pow : (k : ℕ) → 1 ≤ 2 ^ k
one-le-pow ℕ.zero = omega arith
one-le-pow (suc k) = omega (arith, pow_double k, one-le-pow k)

pow-add_six : (k : ℕ) → 2 ^ (k + 6) ≡ 64 * 2 ^ k
pow-add_six k = simp towards_suc (
    omega (
      arith,
      pow_double k,
      pow_double (suc k),
      pow_double (suc (suc k)),
      pow_double (suc (suc (suc k))),
      pow_double (suc (suc (suc (suc k)))),
      pow_double (suc (suc (suc (suc (suc k))))),
    ))

-- The delays of `reschedule` never shrink, lie between 5 and 300 seconds, and are 5, 10, 20, 40, 80
-- and 160 seconds for the first six attempts and 300 seconds from then on.
pub backoff_bounds :
    (a : ℕ)
    → (backoff a ≤ backoff (suc a))
      × (5 ≤ backoff a)
      × (backoff a ≤ 300)
      × (backoff (a + 6) ≡ 300)
      × (map backoff (0 ∷ 1 ∷ 2 ∷ 3 ∷ 4 ∷ 5 ∷ []) ≡ 5 ∷ 10 ∷ 20 ∷ 40 ∷ 80 ∷ 160 ∷ [])
unfolding backoff
backoff_bounds a = (
  omega (arith, pow_double a),
  omega (arith, one-le-pow a),
  omega arith,
  omega (arith, pow-add_six a, one-le-pow a),
  refl,
)

module _ {P : Type 0} where
  select-set_row :
      (t k a at : ℕ) (rs : List (Row P))
      → t < at
      → select (is_due t) (map (set_row k a at) rs)
        ≡ select (λ r. not (r.id == k)) (select (is_due t) rs)
  select-set_row t k a at [] h = refl
  select-set_row t k a at (r ∷ rs) h = ground (arith, select-set_row t k a at rs h)

  -- After `reschedule` the item waits out its whole delay: until then the items that are due are
  -- those that were due before, without it.
  pub list_due-reschedule :
      (t now row_id attempts : ℕ) (o : EventOutbox P)
      → t < now + seconds (backoff attempts)
      → list_due t none (reschedule now row_id attempts o)
        ≡ select (λ r. not (r.id == row_id)) (list_due t none o)
  unfolding list_due reschedule set_next_attempt
  list_due-reschedule t now row_id attempts o h =
      select-set_row t row_id (attempts + 1) (now + seconds (backoff attempts)) o.rows h

  select-defer_row :
      (t until : ℕ) (rs : List (Row P))
      → t < until
      → select (is_due t) (map (defer_row until) rs) ≡ []
  select-defer_row t until [] h = refl
  select-defer_row t until (r ∷ rs) h = ground (arith, select-defer_row t until rs h)

  -- The attempts of each row, by id.
  abbrev pub attempts_of : List (Row P) → List (ℕ × P × ℕ)
  attempts_of = map (λ r. (r.id, r.payload, r.attempts))

  attempts_of-defer_row :
      (until : ℕ) (rs : List (Row P)) → attempts_of (map (defer_row until) rs) ≡ attempts_of rs
  attempts_of-defer_row until [] = refl
  attempts_of-defer_row until (r ∷ rs) = ground (arith, attempts_of-defer_row until rs)

  -- `defer_all` postpones the whole queue for the seconds asked, and for one second at least:
  -- until then nothing is due. No item is lost, and no item's count of attempts changes.
  pub list_due-defer_all :
      (t now : ℕ) (wait : ℤ) (o : EventOutbox P)
      → t < now + seconds (at_least_one wait)
      → (list_due t none (defer_all now wait o) ≡ [])
        × (attempts_of (defer_all now wait o).rows ≡ attempts_of o.rows)
  unfolding list_due defer_all
  list_due-defer_all t now wait o h =
      (select-defer_row t _ o.rows h, attempts_of-defer_row _ o.rows)
