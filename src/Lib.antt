-- ===== src/Lib.antt =====
-- GPUFleet: a control plane (app/) hands tasks to GPU nodes over signed HTTP requests, and an agent on
-- each node (node_agent/) runs them, reports events and results and uploads the logs of the tasks.
--
-- The parts, the files that model them and the code they stand for:
--
--   Prelude     Boolean tests, lists and texts over native numbers. A text is a list of code points;
--               timestamps are texts, and SQLite's order of them is `text_lt`. Identifiers that are
--               only compared whole are strings.
--   Tasks       the table `tasks` (app/db.py; Tasks/Table) and its statuses (app/task_utils.py;
--               Tasks/Status), `transition_task` and `finalize_task_result` with their metrics
--               (app/services/task_state.py; Tasks/Transition, Tasks/Finalize, Tasks/Metrics), the
--               claims of a heartbeat (`claim_next_task_for_node`, `sync_reported_active_task` of
--               app/db.py; Tasks/Claim), and the handlers `task_events` and `task_result`
--               (app/services/node_runtime_service.py; Tasks/Reports). Tasks/History puts the
--               statements together as steps in any order.
--   Auth        `authenticate_node` (app/services/node_runtime_service.py; Auth/Request) on the tables
--               `nodes` and `nonces` (Auth/Nodes), with the keys and signatures of app/security.py
--               (Auth/Keys). Auth/Request/Replay holds the steps that later requests may follow.
--               Auth/Admin has the handlers of app/services/admin_nodes_service.py: `update_node`,
--               `set_node_enabled`, `queue_fingerprint_refresh` and the writes of `reset_node_secret` and
--               `regenerate_node_onboarding`; `create_node` and `delete_node` are in
--               Auth/Admin/Registry, and Auth/Admin/History puts all of them and the nodes' requests
--               together as turns in any order.
--   Logs        the log store of the control plane: `take_text_prefix_by_bytes` (Logs/Bytes),
--               `append_log_chunk` with its rotation (Logs/Archive) and `task_log_chunk` (Logs/Chunk)
--               of app/services/node_runtime_service.py.
--   Agent       the client of node_agent/src/gpufleet_node_agent/api_client.py with its circuit breaker
--               (Agent/Client), the ring buffer of samples of sampler.py beside it (Agent/Sampler),
--               the task in hand of runner/dispatcher.py there (Agent/Dispatcher), and the log pump of
--               node_agent/src/gpufleet_node_agent/runner/log_pump.py (Agent/LogPump), whose every post
--               is a list of attempts that may be lost on the way there or back; its other end is
--               `task_log_chunk`.
--   Audit       the tables `audit_events` and `alert_messages` (app/db.py) and the announced events.
--   Scanner     the jobs of app/background.py: `_mark_lost_tasks` (Scanner), `_expire_reviewing_tasks`
--               (Scanner/Expire), the pruning of stored rows and files (Scanner/Prune),
--               `_refresh_status_gauges` (Scanner/Gauges), and a round of all of them (Scanner/Tick).
--   Review      what app/review.py makes of the model's answer, and the checks of app/task_utils.py
--               (Review); `create_task` (Review/Create) and `cancel_task`, `escalate_review`,
--               `approve_review`, `reject_review` (Review/Decide) of
--               app/services/admin_tasks_service.py. Review/Vetted/History puts these handlers, the
--               nodes' requests and the scanner's events together as turns in any order.
--   Artifacts   `artifact_upload` (app/services/node_runtime_service.py), with the table `artifacts`
--               and the files of the storage.
--   Listing     the cursors of app/services/cursor_pagination.py (Listing, Listing/Cursor) and
--               `list_tasks` of app/services/admin_tasks_service.py with its order (Listing/Order).
--   Webhook     the queue and the delivery of `WebhookEmitter` (app/webhook.py).
--   Scenarios   the theorems at concrete inputs.
--
-- A handler's errors are values, a raise inside a transaction leaves the tables as they were, but
-- not what was announced or counted in a background job, and a table is a list of rows in the order
-- of insertion. The clock, the storage in use and random nonces are arguments. hashlib, hmac,
-- base64, AES-GCM, datetime and the text codecs are the parameters `Crypto` and `Environment`; what
-- is relied on of them is a hypothesis (`RoundTrips`, `HasDigest`).
--
-- Loops have fuel: the binary search the width of its interval, which every round narrows; the keystream
-- the length of its payload, of which a round adds a byte at least; the pump the length of the text, of
-- which a round sends a code point at least; `append_loop` twice the length of its text, since a round
-- writes a code point or rotates a full file.
--
-- Not modelled: the administrators' other handlers and pages (app/routers/admin_*.py), the onboarding
-- package and the views of nodes in app/services/admin_nodes_service.py, the life of the webhook worker,
-- snapshots of node status, how the agent builds a task's command, its processes and its collectors,
-- configuration, logging, the front end and the migrations.
pub mod Prelude
pub mod Tasks
pub mod Auth
pub mod Logs
pub mod Agent
pub mod Audit
pub mod Scanner
pub mod Review
pub mod Artifacts
pub mod Listing
pub mod Webhook
pub mod Scenarios
