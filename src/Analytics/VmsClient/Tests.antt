-- ===== src/Analytics/VmsClient/Tests.antt =====
-- Runs of the client of analytics/src/analytics/core/vms_client.py, and its theorems at them.
use next_sec.Prelude.{
  ℕ, ◌+◌, ◌≡◌, ◌≢◌, refl, true, Option, none, some, inr, List, [], ◌∷◌, map, arith,
}
use next_sec.Prelude.Int.{pos}
use next_sec.Analytics.Outbox.{Row, EventOutbox, seconds}
use next_sec.Analytics.VmsClient.{
  ParsedSeconds, retry_after_seconds, Answer, QueuedPayload, VmsClient, list_cameras,
  list_watchlist, list_rois, cached_rois,
}
use next_sec.Analytics.VmsClient.Send.{
  World, Disk, EventArgs, Ingested, classify, request_of, queued_payload, ingest_event,
  post_event_payload,
}
use next_sec.Analytics.VmsClient.Caches.{
  Listing, run_listings, last_cameras, last_watchlist, last_rois, listings-last_known,
}

abbrev edge_client : VmsClient ℕ
edge_client = record {
  has_client = true;
  has_pool = true;
  edge_deployment = true;
  edge_clip_seconds = 10;
  cameras_cache = 1 ∷ 2 ∷ [];
  rois_cache = (0, 7 ∷ []) ∷ (4, 8 ∷ 9 ∷ []) ∷ [];
  watchlist_cache = [];
  outbox = record { rows = []; next_id = 1; max_rows = 1000; max_age_seconds = 3600; dropped = 0 };
  clip_jobs = [];
}

abbrev intrusion : EventArgs ℕ
intrusion = record {
  camera_id = 3;
  event_type = 1;
  payload = 99;
  confidence = some 870;
  occurred_at = some 5000;
  snapshot_path = some 12;
  mediamtx_path = some 33;
}

abbrev join : ℕ → ℕ
join path = path + 100

abbrev world : Answer (Option ℕ) → World ℕ
world answer = record { is_file = λ _. true; post = λ _. answer; job_ok = true }

abbrev disk : Disk
disk = record {
  enqueue_ok = true;
  defer_ok = true;
  now = seconds 20;
  prune_now = seconds 20;
  defer_now = seconds 21;
}

accepted_run :
    map
      (λ j. j.event_id)
      (ingest_event join (world (Answer.ok (some 55))) disk intrusion edge_client).0.clip_jobs
    ≡ 55 ∷ []
unfolding ingest_event request_of classify
accepted_run = refl

-- A header that is an infinite float makes `int` raise OverflowError, which no handler takes: the
-- event is neither sent nor queued.
overflow_run :
    ingest_event join
      (world (Answer.status_error 429 ParsedSeconds.overflow_error))
      disk
      intrusion
      edge_client
    ≡ (edge_client, Ingested.raises)
unfolding ingest_event request_of classify retry_after_seconds
overflow_run = refl

abbrev history : List (Listing ℕ)
history =
    Listing.cameras (Answer.ok (5 ∷ []))
    ∷ Listing.rois (some 3) (Answer.ok (6 ∷ []))
    ∷ Listing.cameras Answer.network_error
    ∷ Listing.rois none (Answer.status_error 503 ParsedSeconds.value_error)
    ∷ []

listings-last_known_example :
    let c' = run_listings history edge_client in
    ((list_cameras Answer.network_error c').1
      ≡ some (last_cameras edge_client.cameras_cache history))
    × ((list_watchlist Answer.network_error c').1
        ≡ some (last_watchlist edge_client.watchlist_cache history))
    × ((list_rois (some 3) Answer.network_error c').1
        ≡ some (last_rois (some 3) (cached_rois (some 3) edge_client) history))
listings-last_known_example =
    listings-last_known (some 3) Answer.network_error history edge_client refl (inr refl)

abbrev unprocessable : World ℕ
unprocessable = world (Answer.status_error 422 ParsedSeconds.value_error)

rejected_run : (ingest_event join unprocessable disk intrusion edge_client).1 ≢ Ingested.yields true
unfolding ingest_event request_of classify
rejected_run h = ground arith

abbrev busy : World ℕ
busy = world (Answer.status_error 429 (ParsedSeconds.parsed (pos 7200)))

asked_too_long : retry_after_seconds (ParsedSeconds.parsed (pos 7200)) ≡ some 900
unfolding retry_after_seconds
asked_too_long = refl

delivered_run :
    (post_event_payload
      (world (Answer.ok (some 55)))
      (queued_payload join edge_client intrusion)
      edge_client).1.delivered
    ≡ true
unfolding post_event_payload request_of classify
delivered_run = refl

abbrev backlog_row : ℕ → ℕ → Row (QueuedPayload ℕ)
backlog_row i at = record {
  id = i;
  payload = record {
    body = record {
      camera_id = 3;
      event_type = 1;
      payload = 99;
      confidence = none;
      occurred_at = some 5000;
      snapshot_path = none;
      edge_generates_clip = true;
    };
    local_snapshot_path = none;
    clip_context = record { mediamtx_path = none; occurred_at = some 5000 };
  };
  attempts = 0;
  next_attempt_at = at;
  created_at = at;
}

abbrev backlog : EventOutbox (QueuedPayload ℕ)
backlog = record {
  rows = backlog_row 1 (seconds 30) ∷ backlog_row 2 (seconds 31) ∷ [];
  next_id = 3;
  max_rows = 1000;
  max_age_seconds = 3600;
  dropped = 0;
}
