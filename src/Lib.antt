-- ===== src/Lib.antt =====
-- The SCORP Master A core: the durable store through which the sessions of Master A, its commits and its
-- actions outside the database go, and the scheduler of its Workers (scorp-agent/master_a_dynamic_v4); and the
-- stores of the browser bridge (scorp-agent/chatgpt-gui-bridge).
--
-- A project has one row of `project_state`, with a version and a master epoch. A master session takes a
-- lease on the project and an epoch; a session that starts later raises the epoch, which fences the
-- earlier ones. Only `commit` changes a project's version, under the epoch and from the version that its
-- caller names. An action outside the database (a submission to a browser, a local execution) is
-- prepared as an intent with an outbox row before it is made, and moves on with the evidence about it.
--
-- Text, Json, Stamp: what the program uses of texts (`strip`), of JSON values and their hash
--   (models.py), and of instants and their ISO texts.
-- Schema: the rows of schema.sql and the database as a record of tables.
-- Tx: `StateStore._transaction`, a body that may raise, with commit and rollback; Tx.Rules are the proof
--   rules for the blocks.
-- Tables: queries and inserts that several operations share.
-- Session: state_store.py, `start_master_session`, `heartbeat_master_session`,
--   `inspect_master_session`, `end_master_session` and `advance_master_epoch`.
-- Commit: contracts.py, `validate_proposal`, and state_store.py, `commit`.
-- Intent: state_store.py, from `prepare_intent` to `finalize_intent`; Intent.Machine is the life cycle
--   of an intent as a state machine, Intent.Requests a sequence of calls as a list of requests.
-- Contract, Daemon: state_store.py, `create_contract`, `acquire_daemon_lease` and
--   `heartbeat_daemon_lease`.
-- Binding: state_store.py, `rebind_browser`.
-- Review: state_store.py, `open_review`, `record_review_finding` and `close_review`.
-- Evidence: state_store.py, `record_evidence_receipt`.
-- Acceptance: acceptance.py, `evaluate` (Acceptance.Evaluate), evidence.py, and state_store.py,
--   `record_release_candidate` (Acceptance.Release).
-- Arbiter: activation_arbiter.py, `decide`.
-- WorkResult: work_result.py, `validate_work_result`.
-- Scheduler: scheduler.py, the graph of tasks (Scheduler.Graph), claims of tasks by Workers
--   (Scheduler.Claim), results and their verification (Scheduler.Results); Scheduler.Exclusive is what
--   the active leases exclude, and Scheduler.Runs a sequence of calls.
-- Bridge: the stores of scorp-agent/chatgpt-gui-bridge, each one JSON file, and the scheduler of turns over
--   them: master_window_lease_v3.py (Bridge.Window, sequences of calls in Bridge.Window.Held), chat_resource_manager_v3.py (Bridge.Chat),
--   worker_conversation_pool_v3.py (Bridge.Pool), turn_scheduler_v3.py (Bridge.Turns).
-- Samples: a concrete database on which the theorems are applied.
--
-- Each operation is the block of its `with` statement as a do block, named `X_block`, run by
-- `transaction`; the Python guards come in the order of the code. Where a call takes the current time or a
-- fresh uuid, the model takes it as an argument. An instant is a number of microseconds; a lease is
-- compared by the text of the instant, as the code does, and `text_lt` computes that comparison. Printing
-- of JSON, with `ensure_ascii` and without, SHA-256, `repr`, `upper` and `lower` are the fields of `Codec`,
-- about which nothing is assumed.
--
-- Fuel: `decimal` prints a number `n` in at most `n + 1` rounds; `visit`, the search of a task graph, has
-- one nested call for each task, and one more, which is shown to be enough; Python's own limit on nested
-- calls, which a chain of about a thousand dependencies meets, is not modelled.
-- `json.loads`, `datetime.fromisoformat`, `int` of a text, `PathPolicy.authorize` and the random names of
-- Workers are arguments, about which nothing is assumed. A column that holds a JSON list of texts is that list here.
-- Integers of Python have no bound; versions, epochs, attempts and durations are natural numbers here, so
-- that a negative argument is not a case of the model, and a duration of 0 stands for all that is not
-- positive. Columns that are only written are left out, as are the schema's migration and the opening of
-- the file. A JSON value has no negative number and no fraction here. Arguments that are not texts where
-- the code expects texts are not modelled.
pub mod Prelude
pub mod Text
pub mod Tx
pub mod Stamp
pub mod Json
pub mod Schema
pub mod Tables
pub mod Session
pub mod Commit
pub mod Intent
pub mod Contract
pub mod Daemon
pub mod Evidence
pub mod Review
pub mod Binding
pub mod Arbiter
pub mod Scheduler
pub mod WorkResult
pub mod Bridge
pub mod Acceptance
pub mod Samples
