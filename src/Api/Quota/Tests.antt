-- ===== src/Api/Quota/Tests.antt =====
-- Runs of the quota of api/src/vms/edge/quota.py.
use next_sec.Prelude.{ℕ, ◌+◌, ◌-◌, ◌*◌, ◌≤◌, ◌≡◌, refl, none, List, [], ◌∷◌, arith}
use next_sec.Api.Quota.{unit, tokens_units, refilled, debit, run_script, check}
use next_sec.Api.Quota.Rate.{admitted, last_time, admitted-le}

-- 120 events a minute: a burst of 240, then one event each half second.
abbrev calls : List (ℕ × ℕ)
calls = (1000, 200) ∷ (1000, 100) ∷ (6000, 50) ∷ (6500, 1) ∷ []

admitted_run : admitted 120 calls none ≡ 251
unfolding check run_script refilled debit
admitted_run = refl

admitted-le_example :
    admitted 120 calls none * unit ≤ tokens_units (120 * 2) + (last_time 1000 calls - 1000) * 120
admitted-le_example =
    admitted-le 120 1000 200 ((1000, 100) ∷ (6000, 50) ∷ (6500, 1) ∷ []) (omega arith) (omega arith)
