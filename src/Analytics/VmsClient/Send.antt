-- ===== src/Analytics/VmsClient/Send.antt =====
-- The sending of events by class VMSClient of analytics/src/analytics/core/vms_client.py:
-- `_send_event`, `ingest_event`, `_post_event_payload` and the local task of the clip.
use next_sec.Prelude.{
  ℕ, Bool, true, false, not, ◌&&◌, Option, none, some, [], ◌∷◌, ◌++◌, leb, ◌==◌, if◌then◌else◌,
}
use next_sec.Prelude.Int.{pos}
use next_sec.Analytics.Outbox.{enqueue, defer_all}
use next_sec.Analytics.Outbox.Retry.{SendOutcome}
use next_sec.Analytics.VmsClient.{
  retry_after_seconds, Answer, Body, ClipContext, QueuedPayload, EventRequest, VmsClient,
}

-- How `_send_event` ends: with the truthy id of the response or without one, or by an exception:
-- `_ThrottledError`, `_RetryableError`, HTTPStatusError, or any other.
pub data Sent : Type 0 where
  accepted : Option ℕ → Sent
  throttled : ℕ → Sent
  retryable : Sent
  rejected : Sent
  failed : Sent

-- The handlers of `_send_event`. An exception raised by the header's conversion is none of theirs.
unfoldable pub classify : Answer (Option ℕ) → Sent
classify (Answer.ok event_id) = Sent.accepted event_id
classify (Answer.status_error code header) =
    if code == 429
    then elim (retry_after_seconds header) [ some wait ↦ Sent.throttled wait | none ↦ Sent.failed ]
    else if leb 500 code
    then Sent.retryable
    else Sent.rejected
classify Answer.network_error = Sent.retryable
classify Answer.exception = Sent.failed

-- What the outside world answers during one attempt: whether the snapshot is a file, how the POST
-- ends, and whether Redis takes the job.
pub record World (J : Type 0) : Type 0 where
  pub is_file : ℕ → Bool
  pub post : EventRequest J → Answer (Option ℕ)
  pub job_ok : Bool

-- The disk and the clocks in the handler of a failed attempt: whether the two writes succeed, and
-- the readings of `enqueue`, of its prune and of `defer_all`.
pub record Disk : Type 0 where
  pub enqueue_ok : Bool
  pub defer_ok : Bool
  pub now : ℕ
  pub prune_now : ℕ
  pub defer_now : ℕ

-- The arguments of `ingest_event`. A path is a number, and 0 is the empty text.
pub record EventArgs (J : Type 0) : Type 0 where
  pub camera_id : ℕ
  pub event_type : ℕ
  pub payload : J
  pub confidence : Option ℕ
  pub occurred_at : Option ℕ
  pub snapshot_path : Option ℕ
  pub mediamtx_path : Option ℕ

-- True, false, or an exception that the caller sees.
pub data Ingested : Type 0 where
  yields : Bool → Ingested
  raises : Ingested

-- `str(_SNAPSHOTS_BASE_DIR / snapshot_path)`, a library's function, on the edge and for a path that
-- is not empty.
abbrev pub local_path_of : (ℕ → ℕ) → Bool → Option ℕ → Option ℕ
local_path_of join edge none = none
local_path_of join edge (some path) = if edge && not (path == 0) then some (join path) else none

-- Of the failures, only a request to wait is told apart.
abbrev pub outcome_of : Sent → SendOutcome
outcome_of (Sent.accepted _) = record { delivered = true; retry_after_seconds = none }
outcome_of (Sent.throttled wait) = record {
  delivered = false;
  retry_after_seconds = some (pos wait);
}
outcome_of Sent.retryable = record { delivered = false; retry_after_seconds = none }
outcome_of Sent.rejected = record { delivered = false; retry_after_seconds = none }
outcome_of Sent.failed = record { delivered = false; retry_after_seconds = none }

module _ {J : Type 0} where
  unfoldable pub request_of : (ℕ → Bool) → Body J → Option ℕ → EventRequest J
  request_of is_file body none = EventRequest.json body
  request_of is_file body (some path) =
      if is_file path then EventRequest.multipart body path else EventRequest.json body

  unfoldable pub send_event : World J → Body J → Option ℕ → Sent
  unfolding request_of classify
  send_event w body local_path = classify (w.post (request_of w.is_file body local_path))

  unfoldable pub body_of : Bool → EventArgs J → Body J
  body_of edge a = record {
    camera_id = a.camera_id;
    event_type = a.event_type;
    payload = a.payload;
    confidence = a.confidence;
    occurred_at = a.occurred_at;
    snapshot_path = a.snapshot_path;
    edge_generates_clip = edge;
  }

  unfoldable pub queued_payload : (ℕ → ℕ) → VmsClient J → EventArgs J → QueuedPayload J
  unfolding body_of
  queued_payload join c a = record {
    body = body_of c.edge_deployment a;
    local_snapshot_path = local_path_of join c.edge_deployment a.snapshot_path;
    clip_context = record { mediamtx_path = a.mediamtx_path; occurred_at = a.occurred_at };
  }

  unfoldable pub enqueue_local_clip_task : Bool → ℕ → ℕ → ClipContext → VmsClient J → VmsClient J
  enqueue_local_clip_task job_ok event_id path context c =
      if c.has_pool && job_ok
      then record c {
        clip_jobs =
            c.clip_jobs
            ++ record {
              event_id = event_id;
              local_snapshot_path = path;
              clip_seconds = c.edge_clip_seconds;
              context = context;
            }
              ∷ [];
      }
      else c

  -- After an accepted event, on the edge, with a snapshot and with an id in the response.
  abbrev pub announce_clip : Bool → Option ℕ → Option ℕ → ClipContext → VmsClient J → VmsClient J
  announce_clip job_ok (some event_id) (some path) context c =
      if c.edge_deployment then enqueue_local_clip_task job_ok event_id path context c else c
  announce_clip job_ok _ _ context c = c

  -- The two writes after a `_RetryableError`; the wait is that of a `_ThrottledError`. A write that
  -- raises changes nothing, and both are in one `try`.
  abbrev pub deferred : Disk → Option ℕ → VmsClient J → VmsClient J × Ingested
  deferred d none c = (c, Ingested.yields true)
  deferred d (some wait) c =
      if d.defer_ok
      then (record c { outbox = defer_all d.defer_now (pos wait) c.outbox }, Ingested.yields true)
      else (c, Ingested.yields false)

  abbrev pub queue_event : Disk → QueuedPayload J → Option ℕ → VmsClient J → VmsClient J × Ingested
  queue_event d q wait c =
      if d.enqueue_ok
      then deferred d wait (record c { outbox = (enqueue d.now d.prune_now q c.outbox).0 })
      else (c, Ingested.yields false)

  abbrev pub after_send :
      World J → Disk → QueuedPayload J → VmsClient J → Sent → VmsClient J × Ingested
  after_send w d q c (Sent.accepted event_id) =
      (announce_clip w.job_ok event_id q.local_snapshot_path q.clip_context c, Ingested.yields true)
  after_send w d q c (Sent.throttled wait) = queue_event d q (some wait) c
  after_send w d q c Sent.retryable = queue_event d q none c
  after_send w d q c Sent.rejected = (c, Ingested.yields false)
  after_send w d q c Sent.failed = (c, Ingested.raises)

  unfoldable pub ingest_event :
      (ℕ → ℕ) → World J → Disk → EventArgs J → VmsClient J → VmsClient J × Ingested
  unfolding queued_payload send_event enqueue_local_clip_task
  ingest_event join w d a c =
      let q = queued_payload join c a in
      if c.has_client
      then after_send w d q c (send_event w q.body q.local_snapshot_path)
      else (c, Ingested.yields false)

  abbrev pub after_resend : World J → QueuedPayload J → VmsClient J → Sent → VmsClient J
  after_resend w q c (Sent.accepted event_id) =
      announce_clip w.job_ok event_id q.local_snapshot_path q.clip_context c
  after_resend w q c _ = c

  -- The callback of the retry loop: it never raises.
  unfoldable pub post_event_payload :
      World J → QueuedPayload J → VmsClient J → VmsClient J × SendOutcome
  unfolding send_event enqueue_local_clip_task
  post_event_payload w q c =
      let sent = send_event w q.body q.local_snapshot_path in
      (after_resend w q c sent, outcome_of sent)
