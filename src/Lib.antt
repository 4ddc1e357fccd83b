-- ===== src/Lib.antt =====
-- Platform Forge: the durable step runner of src/workflow_engine. A client submits a job, which is a
-- run of a registered workflow; the job and its steps are rows of PostgreSQL. Workers claim one step
-- at a time under a lease with a fencing token, run its handler, renew the lease by heartbeats, and
-- report success or failure; an operator cancels jobs and replays dead letters. Everything that the
-- parts say to each other goes through the tables, and every change of jobs, steps and attempts is one
-- of the operations of claims.py; the handlers write a ledger beside them.
--
-- Which file models which part:
--   Prelude and its children: tables as lists of rows, with SELECT, UPDATE and INSERT (select, find,
--     any, update, insert, first_by, order_by), and the lemmas on them.
--   Models: src/workflow_engine/models.py and schema.sql, the statuses and one row of each table.
--   Metrics: the counters of src/workflow_engine/metrics.py, as a log of `inc`.
--   Registry: src/workflow_engine/registry.py, `Registry` and `full_jitter` (Registry/Jitter); what
--     is proved of them stands in Registry/Laws and Registry/Jitter.
--   Store: a session of the database (statements act on a working copy, commit publishes it, rollback
--     drops it), as a monad of results.
--   Claims: src/workflow_engine/claims.py. Claims/Submit is submit_job, Claims/Claim is CLAIM_SQL and
--     claim_step, Claims/Heartbeat is HEARTBEAT_SQL and heartbeat, Claims/Complete is
--     COMPLETE_SUCCESS_SQL, complete_success and complete_failure, Claims/Cancel is cancel_job and
--     replay_step, Claims/Claimed is ClaimedStep with _finish_attempt, _cancel_owned_step and
--     _record_fence_reject. Each function keeps the name of the source; a long one is cut at its
--     branches, and each WHERE and SET clause has its own name.
--     Claims/Load is load_job and list_jobs, Claims/Returned the three operations that return a
--     load_job with it, Claims/Gauges is gauge_snapshot and refresh_gauges, Claims/Jsonable is
--     jsonable and the dictionary of a job.
--   Effects: what each operation leaves in the tables, branch by branch.
--   Invariant: the invariant of the tables, and the changes of rows that keep it.
--   Durable, History: what no operation loses, and any history of calls as a relation (Reach).
--   Attempts: the table `attempts` as the log of the leases; what the operations write to it, and that
--     they keep it.
--   Lifecycle: the state machines of a job and of a step that ARCHITECTURE.md draws, with the moves that
--     it leaves out, as relations tied to the operations, and the operations of claims.py against them.
--   Worker: src/workflow_engine/worker.py, the heartbeat loop (`beat_loop`), the result of
--     `_run_handler` (`run_result`) and the report of `execute_claimed` (`report`); Worker/Slot is
--     `slot_loop`, with what its turns do in Worker/Drain, Worker/Turns and Worker/Termination;
--     Worker/Context is `_effect_key` and the context of a handler, with its law in History/Keys.
--   Handlers: src/workflow_engine/handlers.py, the writes of the ledger `lab_effects` and the handlers
--     made of them; Handlers/Http is http_post and fail_until, Handlers/Hosts where http_post may
--     send, Handlers/Lab is register_lab_workflows. Config: `allowed_hosts` of
--     src/workflow_engine/config.py.
--   Api: src/workflow_engine/api.py. Api/Jobs has the endpoints on jobs, effects and gauges, Api/Demo
--     those on demo workers, Api/Workflows the list of workflows with `Registry.names`, Api/Body the
--     middleware limit_body; Api/Status has /health, /metrics
--     and the loop of the gauges; Api/Laws and Api/Create are about the status codes, Api/Signals about
--     the demo workers.
--   Views: what load_job, the gauges and jsonable give, against an independent description.
--   Schema: src/workflow_engine/schema.py, `split_sql` on texts as lists of code points, with the methods
--     of str that it calls.
--   Pool: src/workflow_engine/db.py, the one pool of connections, where the constructor of the pool and
--     `apply_schema` may raise. Cli: src/workflow_engine/cli.py, the
--     request that a command sends and how the program ends.
--   Fencing, Lease, Recovery, Stop, Race: the promises of the claim protocol.
--   Examples: runs at concrete data, and each theorem at a point where its conditions hold.
--
-- Choices of the model. A uuid is a number, and so is a timestamp, in microseconds; an interval (the
-- lease, the delay of a retry) is a whole number of microseconds, where the source has a float of
-- seconds or a text. All numbers are unbounded: the bigint of a token and the int of an attempt count
-- do not overflow here. What is not code of the repository is an argument: `uuid4`, `uniform` of the
-- random generator, and the set of rows that other transactions hold locked, which SKIP LOCKED passes
-- over. A handler is an element of any type. `now()` is one reading for each operation, and time
-- passes between operations (`waits`). Each operation runs as if alone, as the row locks of its first
-- UPDATE give, but for `complete_failure`, which reads without a lock: its reads and its writes are
-- two definitions, and Race says what may happen between them. `replay_step` reads without a lock, too,
-- and its UPDATE of the job runs even if its UPDATE of the step matches no row; the model runs it as if
-- alone. JSON has no floats here, and a value has no tuples and only texts for keys; `jsonable` passes
-- others on as they are. `full_jitter` is total here, while a float overflows in the source once the
-- exponent passes 1024. The id of an attempt is taken from a sequence without gaps.
--
-- An endpoint is a function from the session to a response, and an exception that nothing catches,
-- which the framework answers with 500, is a result `err`. The texts of a uuid, of a time and of an
-- int, what `int` reads in a header, the pids of new processes and what the operating system says of
-- them are arguments. Where ORDER BY ranks rows equally they come in table order. An age is in
-- microseconds, and 0 for a row that is due later. In `slot_loop` what may raise, and what
-- `_run_handler` makes of a claim, are given for each turn. `urlparse`, `lower`, `str`, `int` and `float` of
-- a value and the answers of the HTTP client are arguments of the handlers.
--
-- Loops are structural, so nothing runs on fuel: `submit_job` loops over the steps of a workflow, the
-- heartbeat loop over the list of the answers of its beats, which ends when `stop` is set, and
-- `slot_loop` over the list of its turns until `stop` is set.
--
-- Not modelled: of the worker its threads, its clock, the opening of the LISTEN connection and main;
-- of the handlers hang; of the API the start-up and the static page; the histogram and the exposition of
-- the metrics; the parser of the command line, the reading of the settings and the logging.
pub mod Prelude
pub mod Models
pub mod Metrics
pub mod Registry
pub mod Config
pub mod Schema
pub mod Store
pub mod Pool
pub mod Claims
pub mod Examples
pub mod Invariant
pub mod Effects
pub mod Fencing
pub mod Durable
pub mod History
pub mod Attempts
pub mod Lifecycle
pub mod Lease
pub mod Recovery
pub mod Race
pub mod Stop
pub mod Handlers
pub mod Worker
pub mod Views
pub mod Api
pub mod Cli
