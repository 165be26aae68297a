-- ===== src/Api/Quota/Answers.antt =====
-- The answers of one check of api/src/vms/edge/quota.py.
use next_sec.Prelude.{
  ℕ, ◌+◌, ◌-◌, ◌*◌, ◌%◌, min, max, ◌≤◌, ◌<◌, ◌≡◌, refl, ap, sym, ◌∙◌, true, false, Option, none,
  some, arith, leb,
}
use next_sec.Prelude.Int.{pos, ◌-ℤ◌, leb_ℤ, pos_part}
use native.Mathlib.Nat.{div-add-mod', mod-lt, mul-le-mul_right}
use next_sec.Api.Quota.{
  Bucket, tokens_units, ceil_div, refilled, debit, run_script, capacity_for, expire_seconds, check,
}
use next_sec.Api.Quota.Rate.{refilled_pos, refilled-none, after_debit, check_at}

ceil_div-enough : (n d : ℕ) → 1 ≤ d → n ≤ ceil_div n d * d
ceil_div-enough n d h =
    let below : (n + d - 1) % d < d = mod-lt (n + d - 1) h in
    omega (arith, div-add-mod' (n + d - 1) d, below)

debit_retry :
    (rate cost now n : ℕ)
    → n < tokens_units cost
    → (debit rate cost now (pos n)).1.retry_after ≡ ceil_div (tokens_units cost - n) (1000 * rate)
unfolding debit ◌-ℤ◌
debit_retry rate cost now n h = rw (denied, missing) refl
  where
    denied : leb_ℤ (pos (tokens_units cost)) (pos n) ≡ false
    denied = ground arith

    missing : pos_part (pos (tokens_units cost) -ℤ pos n) ≡ tokens_units cost - n
    missing = ground arith

-- What a check that denies answers.
check_denied :
    (rate cost now n : ℕ) (bucket : Option Bucket)
    → 1 ≤ rate
    → refilled (capacity_for rate cost) rate now bucket ≡ pos n
    → n < tokens_units cost
    → (check true rate cost now bucket).1.retry_after_seconds
      ≡ max (ceil_div (tokens_units cost - n) (1000 * rate)) 1
unfolding check run_script
check_denied rate cost now n bucket h e short =
    rw e (ground (arith, debit_retry rate cost now n short))

-- What comes in while a tenant waits.
wait_gains : (rate d r x : ℕ) → 1000 * r ≤ d → x ≤ r * (1000 * rate) → x ≤ d * rate
wait_gains rate d r x h k =
    let more : (1000 * r) * rate ≤ d * rate = mul-le-mul_right rate h in omega (arith, more)

-- A bucket with some tokens left, in units, and the time it was last written.
abbrev pub holding : ℕ → ℕ → Option Bucket
holding n at = some (record { tokens = pos n; updated_at = at })

-- A check that is denied says how long to wait, at least one second, and its word is good: if the
-- tenant makes no other call, the same call is allowed as soon as that many seconds have passed.
-- The clock does not go back, and the bucket holds what earlier calls under such a clock left.
pub retry_after-enough :
    (rate cost n at now later : ℕ)
    → 1 ≤ rate
    → at ≤ now
    → (check true rate cost now (holding n at)).1.allowed ≡ false
    → now + 1000 * (check true rate cost now (holding n at)).1.retry_after_seconds ≤ later
    → let (bucket', decision) = check true rate cost now (holding n at) in
      (1 ≤ decision.retry_after_seconds) × ((check true rate cost later bucket').1.allowed ≡ true)
retry_after-enough rate cost n at now later h k denied late =
    let avail = min (tokens_units (capacity_for rate cost)) (n + (now - at) * rate) in
    let bucket : Option Bucket = some (record { tokens = pos n; updated_at = at }) in
    let fill = refilled_pos (capacity_for rate cost) rate now n at k in
    let step = check_at rate cost now avail bucket h fill in
    let short : avail < tokens_units cost = ground (arith, step.1) in
    let wait = check_denied rate cost now avail bucket h fill short in
    let r = ceil_div (tokens_units cost - avail) (1000 * rate) in
    let left : after_debit cost avail ≡ avail = ground arith in
    let kept : (check true rate cost now bucket).0
        ≡ some (record { tokens = pos avail; updated_at = now }) =
      step.0 ∙ ap (λ x. some (record { tokens = pos x; updated_at = now })) left in
    let later_fill = refilled_pos (capacity_for rate cost) rate later avail now (omega arith) in
    let avail' = min (tokens_units (capacity_for rate cost)) (avail + (later - now) * rate) in
    let gained =
      wait_gains rate (later - now) r (tokens_units cost - avail) (omega (arith, wait))
        (ceil_div-enough (tokens_units cost - avail) (1000 * rate) (omega arith)) in
    let again : (check true rate cost later
          (some (record { tokens = pos avail; updated_at = now }))).1.allowed
        ≡ leb (tokens_units cost) avail' =
      (check_at rate cost later avail' (some (record { tokens = pos avail; updated_at = now })) h
        later_fill).1 in
    let covered : leb (tokens_units cost) avail' ≡ true = ground (arith, gained) in
    (omega (arith, wait), rw kept (again ∙ covered))

-- Redis drops the key of a tenant that is idle. By then the bucket would be full again, so the
-- script answers the same, and leaves the same bucket, with the key and without it.
pub expiry_invisible :
    (capacity rate cost n at now : ℕ)
    → 1 ≤ rate
    → at + 1000 * expire_seconds capacity rate ≤ now
    → run_script capacity rate cost now (holding n at) ≡ run_script capacity rate cost now none
unfolding run_script expire_seconds
expiry_invisible capacity rate cost n at now h late =
    let full = tokens_units capacity in
    let r = ceil_div full (1000 * rate) in
    let gained =
      wait_gains rate (now - at) r full (omega arith)
        (ceil_div-enough full (1000 * rate) (omega arith)) in
    let again : min full (n + (now - at) * rate) ≡ full = omega (arith, gained) in
    ap (debit rate cost now) (
      refilled_pos capacity rate now n at (omega arith)
      ∙ ap pos again
      ∙ sym (refilled-none capacity rate now))
