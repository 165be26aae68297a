-- ===== src/Analytics/Outbox/Retry.antt =====
-- One pass of `run_retry_loop` in analytics/src/analytics/core/outbox.py, with what other tasks do
-- to the same queue while the pass awaits the sender.
use next_sec.Prelude.{ℕ, Bool, Option, none, some, List, [], ◌∷◌, if◌then◌else◌}
use next_sec.Prelude.Int.{ℤ, pos, negsuc}
use next_sec.Analytics.Outbox.{
  Row, EventOutbox, enqueue, remove, reschedule, defer_all, drain_dropped_count,
}

pub record SendOutcome : Type 0 where
  pub delivered : Bool
  pub retry_after_seconds : Option ℤ

-- What `sender` may return.
pub data SendResult : Type 0 where
  flag : Bool → SendResult
  outcome : SendOutcome → SendResult

unfoldable pub as_outcome : SendResult → SendOutcome
as_outcome (flag b) = record { delivered = b; retry_after_seconds = none }
as_outcome (outcome o) = o

-- The call of `sender`: it raises or returns.
pub data Reply : Type 0 where
  raised : Reply
  returned : SendResult → Reply

-- The truth value of an `int | None`: `None` and 0 are false.
abbrev pub wait_of : Option ℤ → Option ℤ
wait_of none = none
wait_of (some (pos ℕ.zero)) = none
wait_of (some (pos (ℕ.suc n))) = some (pos (ℕ.suc n))
wait_of (some (negsuc n)) = some (negsuc n)

-- The calls that other tasks make: the client queues an event or defers the queue, and the
-- heartbeat drains the counter.
pub data QueueCall (P : Type 0) : Type 0 where
  enqueues : ℕ → ℕ → P → QueueCall P
  defers : ℕ → ℤ → QueueCall P
  drains : QueueCall P

-- What happens while one item is in flight, how its sender ends, and the time at which the outcome
-- is written.
pub record Turn (P : Type 0) : Type 0 where
  pub during : List (QueueCall P)
  pub reply : Reply
  pub now : ℕ

module _ {P : Type 0} where
  abbrev pub run_call : QueueCall P → EventOutbox P → EventOutbox P
  run_call (enqueues now prune_now payload) o = (enqueue now prune_now payload o).0
  run_call (defers now wait) o = defer_all now wait o
  run_call drains o = (drain_dropped_count o).0

  abbrev pub run_calls : List (QueueCall P) → EventOutbox P → EventOutbox P
  run_calls [] o = o
  run_calls (c ∷ cs) o = run_calls cs (run_call c o)

  -- The body of the `for` after the outcome is known; `rest` goes on with the next item.
  abbrev pub settle :
      Row P → ℕ → SendOutcome → (EventOutbox P → EventOutbox P) → EventOutbox P → EventOutbox P
  settle r now out rest o =
      if out.delivered then rest (remove r.id o) else elim (wait_of out.retry_after_seconds) [
        | some wait ↦ defer_all now wait o
        | none ↦ rest (reschedule now r.id r.attempts o)
      ]

  -- A sender that raises ends the pass, and the loop logs it and goes on to its sleep.
  abbrev pub settle_reply :
      Row P → ℕ → Reply → (EventOutbox P → EventOutbox P) → EventOutbox P → EventOutbox P
  settle_reply r now raised rest o = o
  settle_reply r now (returned x) rest o = settle r now (as_outcome x) rest o

  -- Where the turns run out the task was cancelled while it awaited the sender.
  unfoldable pub retry_pass : List (Row P) → List (Turn P) → EventOutbox P → EventOutbox P
  retry_pass [] turns o = o
  retry_pass (r ∷ due) [] o = o
  retry_pass (r ∷ due) (t ∷ turns) o =
      settle_reply r t.now t.reply (retry_pass due turns) (run_calls t.during o)
