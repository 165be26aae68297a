-- ===== src/Api/Quota/Rate.antt =====
-- What the quota of api/src/vms/edge/quota.py lets through over time.
use next_sec.Prelude.{
  ℕ, ◌+◌, ◌-◌, ◌*◌, min, ◌≤◌, ◌≡◌, ap, Bool, true, false, Option, none, some, List, [], ◌∷◌, arith,
  leb, if◌then◌else◌,
}
use next_sec.Prelude.Int.{pos}
use next_sec.Api.Quota.{
  Bucket, unit, tokens_units, refilled, debit, run_script, capacity_for, check,
}

-- Over a clock that does not go back, a bucket that holds tokens refills like a number.
pub refilled_pos :
    (capacity rate now n at : ℕ)
    → at ≤ now
    → refilled capacity rate now (some (record { tokens = pos n; updated_at = at }))
      ≡ pos (min (tokens_units capacity) (n + (now - at) * rate))
unfolding refilled
refilled_pos capacity rate now n at h = go (now - at) (omega arith)
  where
    go :
        (d : ℕ)
        → now ≡ at + d
        → refilled capacity rate now (some (record { tokens = pos n; updated_at = at }))
          ≡ pos (min (tokens_units capacity) (n + d * rate))
    go d e = rw e (ground arith)

pub debit_pos :
    (rate cost now n : ℕ)
    → (debit rate cost now (pos n)).0 ≡ record {
      tokens = pos (if leb (tokens_units cost) n then n - tokens_units cost else n);
      updated_at = now;
    }
unfolding debit
debit_pos rate cost now n = ground arith

pub debit_allowed :
    (rate cost now n : ℕ) → (debit rate cost now (pos n)).1.allowed ≡ leb (tokens_units cost) n
unfolding debit
debit_allowed rate cost now n = ground arith

pub refilled-none :
    (capacity rate now : ℕ) → refilled capacity rate now none ≡ pos (tokens_units capacity)
unfolding refilled
refilled-none capacity rate now = ground arith

-- A check when the bucket holds `n` units of tokens at `now`.
abbrev pub after_debit : ℕ → ℕ → ℕ
after_debit cost n = if leb (tokens_units cost) n then n - tokens_units cost else n

pub check_at :
    (rate cost now n : ℕ) (bucket : Option Bucket)
    → 1 ≤ rate
    → refilled (capacity_for rate cost) rate now bucket ≡ pos n
    → ((check true rate cost now bucket).0
        ≡ some (record { tokens = pos (after_debit cost n); updated_at = now }))
      × ((check true rate cost now bucket).1.allowed ≡ leb (tokens_units cost) n)
unfolding check run_script
check_at rate cost now n bucket h e =
    rw e (ap some (debit_pos rate cost now n), ground (arith, debit_allowed rate cost now n))

-- The cost that a row of checks lets through, one after the other.
abbrev pub admitted : ℕ → List (ℕ × ℕ) → Option Bucket → ℕ
admitted rate [] bucket = 0
admitted rate ((now, cost) ∷ calls) bucket =
    let (bucket', decision) = check true rate cost now bucket in
    (if decision.allowed then cost else 0) + admitted rate calls bucket'

-- The calls come in the order of their times, and none costs more than the burst.
abbrev pub InOrder : ℕ → ℕ → List (ℕ × ℕ) → Type 0
InOrder rate at [] = Unit
InOrder rate at ((now, cost) ∷ calls) = (at ≤ now) × (cost ≤ rate * 2) × InOrder rate now calls

abbrev pub last_time : ℕ → List (ℕ × ℕ) → ℕ
last_time at [] = at
last_time at ((now, _) ∷ calls) = last_time now calls

last_time-ge :
    (rate at : ℕ) (calls : List (ℕ × ℕ)) → InOrder rate at calls → at ≤ last_time at calls
last_time-ge rate at [] h = omega arith
last_time-ge rate at ((now, cost) ∷ calls) h = omega (arith, last_time-ge rate now calls h.2)

-- One call against the sum of the rest.
call_sum :
    (rate cost n avail d₁ d₂ rest : ℕ) (ok : Bool)
    → avail ≤ n + d₁ * rate
    → ok ≡ leb (tokens_units cost) avail
    → rest * unit ≤ after_debit cost avail + d₂ * rate
    → ((if ok then cost else 0) + rest) * unit ≤ n + (d₁ + d₂) * rate
call_sum rate cost n avail d₁ d₂ rest true below e ih = ground arith
call_sum rate cost n avail d₁ d₂ rest false below e ih = ground arith

admitted_bound :
    (rate n at : ℕ) (calls : List (ℕ × ℕ))
    → 1 ≤ rate
    → InOrder rate at calls
    → admitted rate calls (some (record { tokens = pos n; updated_at = at })) * unit
      ≤ n + (last_time at calls - at) * rate
admitted_bound rate n at [] h o = omega arith
admitted_bound rate n at ((now, cost) ∷ calls) h o =
    let avail = min (tokens_units (capacity_for rate cost)) (n + (now - at) * rate) in
    let step =
      check_at rate cost now avail (some (record { tokens = pos n; updated_at = at })) h
        (refilled_pos (capacity_for rate cost) rate now n at o.0) in
    let ih = admitted_bound rate (after_debit cost avail) now calls h o.2 in
    let sum =
      call_sum rate cost n avail (now - at) (last_time now calls - now)
        (admitted rate calls
          (check true rate cost now (some (record { tokens = pos n; updated_at = at }))).0)
        _ (omega arith) step.1 (rw step.0 ih) in
    let spans : now - at + (last_time now calls - now) ≡ last_time now calls - at =
      omega (arith, last_time-ge rate now calls o.2, o.0) in
    rw spans at sum

-- As long as Redis answers, since the code lets a call through where it does not: over any row of calls,
-- in the order of a clock that does not go back and each of at most two minutes of quota, a tenant whose bucket is new gets through at most two minutes of quota plus
-- the contracted rate times the time between the first call and the last (in 60000ths of an event,
-- over milliseconds).
pub admitted-le :
    (rate t₀ cost : ℕ) (calls : List (ℕ × ℕ))
    → 1 ≤ rate
    → InOrder rate t₀ ((t₀, cost) ∷ calls)
    → admitted rate ((t₀, cost) ∷ calls) none * unit
      ≤ tokens_units (rate * 2) + (last_time t₀ calls - t₀) * rate
admitted-le rate t₀ cost calls h o =
    let full = tokens_units (capacity_for rate cost) in
    let step = check_at rate cost t₀ full none h (refilled-none (capacity_for rate cost) rate t₀) in
    let ih = admitted_bound rate (after_debit cost full) t₀ calls h o.2 in
    let room : full ≡ tokens_units (rate * 2) = omega (arith, o.1) in
    let sum =
      call_sum rate cost full full 0 (last_time t₀ calls - t₀)
        (admitted rate calls (check true rate cost t₀ none).0) _ (omega arith) step.1
        (rw step.0 ih) in
    omega (arith, sum, room)
