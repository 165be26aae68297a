-- ===== src/Api/Quota.antt =====
-- The ingest quota of api/src/vms/edge/quota.py: a token bucket for each tenant in Redis, with the
-- script that reads and debits it. The bucket here is that of one tenant. The script's floats are
-- exact fractions: a time is a count of milliseconds, and tokens are counted in 60000ths, so that
-- one millisecond at one event a minute is one unit.
pub mod Rate
pub mod Answers
mod Tests
use next_sec.Prelude.{
  ℕ, suc, ◌+◌, ◌-◌, ◌*◌, ◌/◌, max, Bool, true, false, Option, none, some, ltb, leb, ◌==◌,
  if◌then◌else◌,
}
use next_sec.Prelude.Int.{ℤ, pos, negsuc, pos_part, neg_part, sub_ℕ, ◌+ℤ◌, ◌-ℤ◌, leb_ℤ}

abbrev pub burst_multiplier : ℕ
burst_multiplier = 2

-- Units to a token.
abbrev pub unit : ℕ
unit = 60_000

abbrev pub tokens_units : ℕ → ℕ
tokens_units n = n * unit

-- The hash in Redis.
pub record Bucket : Type 0 where
  pub tokens : ℤ
  pub updated_at : ℕ

-- `math.floor` and `math.ceil` of a quotient.
abbrev pub floor_div : ℤ → ℕ → ℤ
floor_div (pos n) d = pos (n / d)
floor_div (negsuc n) d = negsuc (n / d)

abbrev pub ceil_div : ℕ → ℕ → ℕ
ceil_div n d = (n + d - 1) / d

abbrev pub min_ℤ : ℤ → ℤ → ℤ
min_ℤ a b = if leb_ℤ a b then a else b

-- The tokens at `now`, before the debit; a key that is missing or has expired is a full bucket.
unfoldable pub refilled : ℕ → ℕ → ℕ → Option Bucket → ℤ
unfolding ◌+ℤ◌
refilled capacity events_per_minute now none =
    min_ℤ (pos (tokens_units capacity)) (pos (tokens_units capacity))
refilled capacity events_per_minute now (some b) =
    min_ℤ (pos (tokens_units capacity))
      (b.tokens +ℤ sub_ℕ (now * events_per_minute) (b.updated_at * events_per_minute))

pub record ScriptReply : Type 0 where
  pub allowed : Bool
  pub remaining : ℤ
  pub retry_after : ℕ

-- The debit of the script, on the tokens at `now`. The wait is a number of seconds.
unfoldable pub debit : ℕ → ℕ → ℕ → ℤ → Bucket × ScriptReply
unfolding ◌-ℤ◌
debit events_per_minute cost now tokens =
    if leb_ℤ (pos (tokens_units cost)) tokens
    then (let left = tokens -ℤ pos (tokens_units cost) in
        (
          record { tokens = left; updated_at = now },
          record { allowed = true; remaining = floor_div left unit; retry_after = 0 },
        ))
    else (
      record { tokens = tokens; updated_at = now },
      record {
        allowed = false;
        remaining = floor_div tokens unit;
        retry_after =
            ceil_div (pos_part (pos (tokens_units cost) -ℤ tokens)) (1000 * events_per_minute);
      },
    )

unfoldable pub run_script : ℕ → ℕ → ℕ → ℕ → Option Bucket → Bucket × ScriptReply
run_script capacity events_per_minute cost now bucket =
    debit events_per_minute cost now (refilled capacity events_per_minute now bucket)

-- The argument of EXPIRE: the seconds after a call at which Redis drops the key.
unfoldable pub expire_seconds : ℕ → ℕ → ℕ
expire_seconds capacity events_per_minute =
    ceil_div (tokens_units capacity) (1000 * events_per_minute) + 60

pub record QuotaDecision : Type 0 where
  pub allowed : Bool
  pub remaining : ℤ
  pub retry_after_seconds : ℕ

abbrev pub fail_open : QuotaDecision
fail_open = record { allowed = true; remaining = negsuc 0; retry_after_seconds = 0 }

abbrev pub decision_of : ScriptReply → QuotaDecision
decision_of r = record {
  allowed = r.allowed;
  remaining = r.remaining;
  retry_after_seconds = max r.retry_after 1;
}

abbrev pub capacity_for : ℕ → ℕ → ℕ
capacity_for events_per_minute cost = max (events_per_minute * burst_multiplier) cost

-- `check`. Redis is reachable or not. At a rate of 0 the script divides by it for the key's expiry:
-- EXPIRE refuses an infinite time, so the script raises, after it has written the bucket.
unfoldable pub check : Bool → ℕ → ℕ → ℕ → Option Bucket → Option Bucket × QuotaDecision
check false events_per_minute cost now bucket = (bucket, fail_open)
check true events_per_minute cost now bucket =
    let (b, reply) =
      run_script (capacity_for events_per_minute cost) events_per_minute cost now bucket in
    (some b, if events_per_minute == 0 then fail_open else decision_of reply)
