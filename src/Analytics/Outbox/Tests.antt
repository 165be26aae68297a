-- ===== src/Analytics/Outbox/Tests.antt =====
-- Runs of the queue of analytics/src/analytics/core/outbox.py, and its theorems at concrete queues.
use next_sec.Prelude.{ℕ, ◌*◌, ◌≡◌, refl, true, false, none, some, List, [], ◌∷◌, map}
use next_sec.Prelude.Int.{pos}
use next_sec.Analytics.Outbox.{
  Row, EventOutbox, seconds, enqueue, prune, list_due, remove, defer_all,
}
use next_sec.Analytics.Outbox.Retry.{SendResult, as_outcome, QueueCall, Reply, Turn, retry_pass}
use next_sec.Analytics.Outbox.Pass.{quiet_turns}

abbrev row : ℕ → ℕ → ℕ → ℕ → Row ℕ
row i a at made = record {
  id = i;
  payload = i * 10;
  attempts = a;
  next_attempt_at = at;
  created_at = made;
}

-- A full queue of three rows, of which the last waits for second 100.
abbrev queue : EventOutbox ℕ
queue = record {
  rows =
      row 4 0 (seconds 10) (seconds 10)
      ∷ row 5 1 (seconds 20) (seconds 10)
      ∷ row 7 2 (seconds 100) (seconds 30)
      ∷ [];
  next_id = 8;
  max_rows = 3;
  max_age_seconds = 3600;
  dropped = 2;
}

abbrev backpressure : SendResult
backpressure =
    SendResult.outcome (record { delivered = false; retry_after_seconds = some (pos 30) })

enqueue-drops_oldest :
    map (λ r. r.id) (enqueue (seconds 40) (seconds 40) 9 queue).0.rows ≡ 5 ∷ 7 ∷ 8 ∷ []
unfolding enqueue prune
enqueue-drops_oldest = refl

pass_with_backpressure :
    let o =
      retry_pass
        (list_due (seconds 50) none queue)
        (quiet_turns ((seconds 51, SendResult.flag true) ∷ (seconds 52, backpressure) ∷ []))
        queue in
    map {B = ℕ × ℕ} (λ r. (r.id, r.next_attempt_at)) o.rows
    ≡ (5, seconds 82) ∷ (7, seconds 100) ∷ []
unfolding retry_pass list_due as_outcome remove defer_all
pass_with_backpressure = refl

abbrev busy_turns : List (Turn ℕ)
busy_turns =
    record {
      during = QueueCall.enqueues (seconds 61) (seconds 61) 11 ∷ QueueCall.drains ∷ [];
      reply = Reply.returned (SendResult.flag false);
      now = seconds 62;
    }
    ∷ record { during = []; reply = Reply.raised; now = seconds 63 }
    ∷ []

abbrev mixed_replies : List (ℕ × SendResult)
mixed_replies = (seconds 51, SendResult.flag true) ∷ (seconds 52, backpressure) ∷ []
