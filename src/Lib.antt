-- ===== src/Lib.antt =====
-- Next-Sec: a video surveillance system. Edge agents on the customers' machines stream cameras,
-- the analytics service runs detection on the frames and queues what it cannot send, and the central
-- API takes in the events of all tenants. This library models the parts of that path that keep state
-- and decide, and proves what makes them correct.
--
-- Prelude: names of the libraries, Boolean tests, lists and integers over the native numbers, and
--   the Python dict as an association list in insertion order.
-- Analytics/Outbox: analytics/src/analytics/core/outbox.py. EventOutbox is a record of the rows of
--   its SQLite table and of its settings; enqueue, list_due, remove, reschedule, defer_all,
--   count_pending, drain_dropped_count and prune are its methods. Outbox/Retry is one pass of
--   run_retry_loop: each item is a turn in which other tasks may call the queue while the sender is
--   awaited. Order, Cap, Backoff, Pass and Drains hold the proofs.
-- Analytics/DetectionCache: analytics/src/analytics/core/detection_cache.py, which decides the
--   frames that go to the plugins; should_process is a function on the dict of camera states.
-- Agent/StreamManager: edge_agent/src/agent/stream_manager.py, the ffmpeg processes of the agent;
--   start_stream, stop_stream, reconcile and restart_dead_streams are functions on the dict of
--   entries. Whether a process can be created is an argument of each launch.
-- Api/Quota: api/src/vms/edge/quota.py, the token bucket of each tenant; run_script is the Lua
--   script and check is the method around it.
-- Api/Ingest: api/src/vms/edge/service.py, EdgeIngestService.ingest_batch, as a function from the
--   stored rows to the stored rows and the verdicts. Ingest/Sequential has its specification.
-- Api/EdgeDb and Api/Activation: EdgeActivationService of api/src/vms/edge/service.py, activate and
--   unbind, over the rows of licenses, tenants, agents and API keys, with the parts of
--   api/src/vms/iam and api/src/vms/cameras that they call.
-- Api/Camera: class Camera of api/src/vms/cameras/domain.py, its factories, transitions and recorded
--   events. Camera/Invariant runs any row of calls, those that raise included.
-- Api/Errors: the domain errors that both raise.
-- Agent/Optimizer: class ResourceOptimizer of edge_agent/src/agent/optimizer.py, the cache of models
--   and the target rate.
-- Api/Roles: UserRole and User.has_permission of api/src/vms/iam/domain.py.
-- Analytics/VmsClient: class VMSClient of analytics/src/analytics/core/vms_client.py, over the queue of
--   Analytics/Outbox. VmsClient has the state and the listings with their caches, Send the sending of
--   events; Caches, Ingest and Resend hold the proofs.
-- Analytics/Geometry, Analytics/Tracking, Analytics/Intrusion: the plugin of
--   analytics/src/analytics/plugins/intrusion/plugin.py. Geometry is _point_in_polygon, Tracking the
--   first half of _process_detections, and Intrusion the second half.
-- Api/Schedule: api/src/vms/analytics/schedule.py. Api/Pagination: api/src/vms/shared/api/pagination.py.
-- Analytics/Speed: analytics/src/analytics/plugins/speed/plugin.py. Analytics/Face:
--   analytics/src/analytics/plugins/face_recognition/matching.py and plugin.py, which asks for its
--   watchlist through Analytics/VmsClient.
-- Api/Alpr: EventService.ingest_alpr of api/src/vms/events/service.py. Api/EventBus:
--   api/src/vms/infrastructure/messaging/event_bus.py, with DomainEvent of api/src/vms/shared/events.py.
-- Api/Notifications: NotificationService.evaluate_and_dispatch of api/src/vms/notifications/service.py.
-- Analytics/Orchestrator: analytics/src/analytics/core/orchestrator.py. Orchestrator has its state and the
--   discovery of cameras, Batches the inference loop with its futures, Frames the loop of a camera,
--   which calls Analytics/DetectionCache; Discovery, NewTasks, Tracked, Delivery, Groups, Rounds, Snapshots,
--   Gate and Zones hold the proofs.
-- Api/EventClips: api/src/vms/event_clips (service, repository, tasks and edge_tasks), with StorageQuota
--   of api/src/vms/edge/service.py and upload_event_clip of api/src/vms/edge/router.py.
-- Agent/Credentials: edge_agent/src/agent/activation.py with _resolve_credentials of main.py. Beats has the
--   loops of EdgeAgent (main.py) over the requests of cloud_client.py; Restart, Saved and Revoked the
--   proofs.
--
-- How the parts meet: the outbox keeps what the API did not take, and sends it again item by item.
-- Where a quota is spent the API answers 429 with a wait; a SendOutcome carries that wait back to the
-- outbox, which defers the whole queue. The endpoint of a batch asks the quota first, at the cost of the
-- batch's length, and then ingests the batch. What an agent gets no answer for it sends again, which is
-- why the ingest has to be idempotent. The activation gives the agent the key it signs in with and the
-- rate of its quota.
--
-- Bounds: identifiers are numbers that are only compared. Times are counts of microseconds, but of
-- milliseconds in the quota and the intake of plates, and of seconds in the event clips and in the
-- interval of the zones; the rounding of the source's floats is not modelled. Every clock
-- reading is an argument. No definition has fuel: all loops are structural recursion on the list they go through.
--
-- Not modelled: network and file input and output, SQLAlchemy and SQLite beyond the rows they keep,
-- inference, the endpoints of the API, the Go gateway and the front end. What a process, a sender or
-- Redis answers is an argument of the definition that uses it.
pub mod Prelude
pub mod Analytics
pub mod Agent
pub mod Api
