-- ===== src/Analytics/VmsClient/Resend.antt =====
-- The queue of analytics/src/analytics/core/vms_client.py sends again what `ingest_event` could not
-- send, through `run_retry_loop` of analytics/src/analytics/core/outbox.py.
use next_sec.Prelude.{ℕ, ◌+◌, ◌≤◌, ◌<◌, ◌≡◌, refl, true, none, some, List, [], ◌∷◌, arith, ap, ◌∙◌}
use next_sec.Prelude.Int.{pos}
use next_sec.Analytics.Outbox.{Row, EventOutbox, seconds, list_due, defer_all}
use next_sec.Analytics.Outbox.Retry.{SendResult, as_outcome, wait_of, Turn, retry_pass}
use next_sec.Analytics.Outbox.Backoff.{list_due-defer_all}
use next_sec.Analytics.Outbox.Pass.{quiet}
use next_sec.Analytics.VmsClient.{
  ParsedSeconds, retry_after_seconds, Answer, QueuedPayload, VmsClient,
}
use next_sec.Analytics.VmsClient.Send.{
  Sent, World, Disk, EventArgs, Ingested, request_of, send_event, queued_payload, ingest_event,
  post_event_payload, after_send, after_resend, outcome_of, classify,
}
use next_sec.Analytics.VmsClient.Ingest.{clamp_bounds, classify-throttled}

throttled_waits :
    (wait : ℕ)
    → 1 ≤ wait
    → wait_of (outcome_of (Sent.throttled wait)).retry_after_seconds ≡ some (pos wait)
throttled_waits wait h = ground arith

module _ {J : Type 0} where
  resend_same :
      (w : World J) (d : Disk) (q : QueuedPayload J) (c : VmsClient J) (s : Sent)
      → (outcome_of s).delivered ≡ true
      → (after_send w d q c s ≡ (after_resend w q c s, Ingested.yields true))
        × ((outcome_of s).retry_after_seconds ≡ none)
  resend_same w d q c (Sent.accepted event_id) h = (refl, refl)
  resend_same w d q c (Sent.throttled _) h = cc
  resend_same w d q c Sent.retryable h = cc
  resend_same w d q c Sent.rejected h = cc
  resend_same w d q c Sent.failed h = cc

  -- A queued event loses nothing by the detour: where the retry loop's callback delivers what
  -- `ingest_event` put in the queue, then `ingest_event` with the same answers of the world would have
  -- answered True with the same client as result, the job of the clip with its id, snapshot and
  -- context included.
  pub ingest_event-post_event_payload :
      (join : ℕ → ℕ) (w : World J) (d : Disk) (a : EventArgs J) (c : VmsClient J)
      → c.has_client ≡ true
      → (post_event_payload w (queued_payload join c a) c).1.delivered ≡ true
      → ingest_event join w d a c
        ≡ ((post_event_payload w (queued_payload join c a) c).0, Ingested.yields true)
  unfolding ingest_event post_event_payload
  ingest_event-post_event_payload join w d a c started h =
      let q = queued_payload join c a in
      simp started (resend_same w d q c (send_event w q.body q.local_snapshot_path) h).0

  -- One request to wait stops the whole pass: where the server answers 429 to an item that the retry
  -- loop sends, with any header whose value is a number or none, the queue is deferred for the wait
  -- of `_retry_after_seconds`, the items behind are not sent, and nothing is due for a second at least.
  pub retry_pass-throttled :
      (t now wait : ℕ) (header : ParsedSeconds) (w : World J) (c : VmsClient J)
      (r : Row (QueuedPayload J)) (due : List (Row (QueuedPayload J)))
      (turns : List (Turn (QueuedPayload J))) (o : EventOutbox (QueuedPayload J))
      → w.post (request_of w.is_file r.payload.body r.payload.local_snapshot_path)
        ≡ Answer.status_error 429 header
      → retry_after_seconds header ≡ some wait
      → t < now + seconds 1
      → let reply = SendResult.outcome (post_event_payload w r.payload c).1 in
        let o' = retry_pass (r ∷ due) (quiet now reply ∷ turns) o in
        (o' ≡ defer_all now (pos wait) o) × (list_due t none o' ≡ [])
  unfolding retry_pass as_outcome post_event_payload send_event
  retry_pass-throttled t now wait header w c r due turns o answer asked soon =
      let bounds = clamp_bounds header wait asked in
      let sent : send_event w r.payload.body r.payload.local_snapshot_path ≡ Sent.throttled wait =
        ap classify answer ∙ classify-throttled header wait asked in
      let same : retry_pass (r ∷ due)
            (quiet now (SendResult.outcome (post_event_payload w r.payload c).1) ∷ turns) o
          ≡ defer_all now (pos wait) o =
        simp (sent, throttled_waits wait bounds.0) refl in
      (
        same,
        ap (list_due t none) same
            ∙ (list_due-defer_all t now (pos wait) o (ground (arith, bounds))).0,
      )
