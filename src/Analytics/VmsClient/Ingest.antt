-- ===== src/Analytics/VmsClient/Ingest.antt =====
-- What `ingest_event` of analytics/src/analytics/core/vms_client.py does with the event and with the
-- queue, whatever the server, the disk and Redis answer.
use next_sec.Prelude.{
  ℕ, ◌+◌, ◌≤◌, ◌<◌, ◌≡◌, ◌≢◌, refl, Bool, true, false, Option, none, some, inl, inr, ◌⊎◌, List, [],
  ◌∷◌, arith, ◌∙◌, ap,
}
use next_sec.Prelude.Int.{pos, negsuc}
use next_sec.Analytics.Outbox.{Row, seconds, enqueue, defer_all, list_due}
use next_sec.Analytics.Outbox.Backoff.{list_due-defer_all}
use next_sec.Analytics.VmsClient.{
  ParsedSeconds, retry_after_seconds, Answer, QueuedPayload, VmsClient,
}
use next_sec.Analytics.VmsClient.Send.{
  Sent, World, Disk, EventArgs, Ingested, classify, request_of, send_event, queued_payload,
  ingest_event, after_send,
}

module _ {P : Type 0} where
  -- The payload of the newest row.
  abbrev pub newest : List (Row P) → Option P
  newest [] = none
  newest (r ∷ []) = some r.payload
  newest (_ ∷ r ∷ rs) = newest (r ∷ rs)

-- The server has taken the event.
abbrev pub took_event : Sent → Bool
took_event (Sent.accepted _) = true
took_event _ = false

pub clamp_bounds :
    (header : ParsedSeconds) (wait : ℕ)
    → retry_after_seconds header ≡ some wait
    → (1 ≤ wait) × (wait ≤ 900)
unfolding retry_after_seconds
clamp_bounds (ParsedSeconds.parsed (pos n)) wait h = ground arith
clamp_bounds (ParsedSeconds.parsed (negsuc n)) wait h = ground arith
clamp_bounds ParsedSeconds.value_error wait h = ground arith
clamp_bounds ParsedSeconds.overflow_error wait h = ground arith

pub classify-throttled :
    (header : ParsedSeconds) (wait : ℕ)
    → retry_after_seconds header ≡ some wait
    → classify (Answer.status_error 429 header) ≡ Sent.throttled wait
unfolding classify
classify-throttled header wait asked = simp asked refl

module _ {J : Type 0} (join : ℕ → ℕ) (w : World J) (d : Disk) (a : EventArgs J)
    (c : VmsClient J) where
  -- How the attempt of this call ends.
  abbrev pub sent_of : Sent
  sent_of = let q = queued_payload join c a in send_event w q.body q.local_snapshot_path

  after_send-refuses :
      d.enqueue_ok ≡ true
      → d.defer_ok ≡ true
      → (q : QueuedPayload J) (s : Sent) → (after_send w d q c s).1 ≢ Ingested.yields true
      → ((after_send w d q c s).0 ≡ c) × ((s ≡ Sent.rejected) ⊎ (s ≡ Sent.failed))
  after_send-refuses e f q s h =
      elim s
          as (λ s.
            (after_send w d q c s).1 ≢ Ingested.yields true
            → ((after_send w d q c s).0 ≡ c) × ((s ≡ Sent.rejected) ⊎ (s ≡ Sent.failed))) [
              | Sent.accepted _ ↦ λ h. absurd (h refl)
              | Sent.throttled _ ↦ λ h. ground arith
              | Sent.retryable ↦ λ h. ground arith
              | Sent.rejected ↦ λ _. (refl, inl refl)
              | Sent.failed ↦ λ _. (refl, inr refl)
            ]
        h

  -- The other way round: with a client that is started and a disk that takes its writes, every other
  -- answer than True leaves the client and its queue as they were, and means that the server rejected
  -- the event or that the attempt failed by an exception that is no HTTP error.
  pub ingest_event-refuses :
      c.has_client ≡ true
      → d.enqueue_ok ≡ true
      → d.defer_ok ≡ true
      → (ingest_event join w d a c).1 ≢ Ingested.yields true
      → ((ingest_event join w d a c).0 ≡ c) × ((sent_of ≡ Sent.rejected) ⊎ (sent_of ≡ Sent.failed))
  unfolding ingest_event
  ingest_event-refuses started e f =
      simp started (after_send-refuses e f (queued_payload join c a) sent_of)

  -- Backpressure: where the server answers 429, a started client with a working disk waits for the
  -- seconds of the header, 30 if there are none, and for 1 to 900 in any case. The event is queued, and
  -- until the wait is over nothing in the queue is due, the event itself included.
  pub ingest_event-throttled :
      (header : ParsedSeconds) (t wait : ℕ)
      → c.has_client ≡ true
      → d.enqueue_ok ≡ true
      → d.defer_ok ≡ true
      → (let q = queued_payload join c a in
          w.post (request_of w.is_file q.body q.local_snapshot_path)
          ≡ Answer.status_error 429 header)
      → retry_after_seconds header ≡ some wait
      → t < d.defer_now + seconds wait
      → (1 ≤ wait)
        × (wait ≤ 900)
        × ((ingest_event join w d a c).1 ≡ Ingested.yields true)
        × (list_due t none (ingest_event join w d a c).0.outbox ≡ [])
  unfolding send_event
  ingest_event-throttled header t wait started e f answer asked soon =
      let q = queued_payload join c a in
      let bounds = clamp_bounds header wait asked in
      let sent : sent_of ≡ Sent.throttled wait =
        ap classify answer ∙ classify-throttled header wait asked in
      let o = (enqueue d.now d.prune_now q c.outbox).0 in
      let quiet = (list_due-defer_all t d.defer_now (pos wait) o (ground (arith, bounds))).0 in
      let result : ingest_event join w d a c
          ≡ (record c { outbox = defer_all d.defer_now (pos wait) o }, Ingested.yields true) =
        unfold ingest_event in simp (started, sent, e, f) refl in
      (
        bounds.0,
        bounds.1,
        ap (λ x. x.1) result,
        ap (λ x. list_due t none x.0.outbox) result ∙ quiet,
      )
