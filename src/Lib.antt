-- ===== src/Lib.antt =====
-- CompanyOS: the durable core of the agent runtime. The files named below, such as store.py, are those
-- of companyos_runtime/.
--
-- The runtime keeps everything in one SQLite database. Services (kernel, task scheduler, lease
-- manager and others) change the tables and append an event for each change; the event log is
-- hash-chained, versioned for each aggregate, and guarded by sessions and by command authorities.
--
-- Prelude    tests, lists and keyed tables shared by all parts
-- Types      types.py: enumerations with their stored texts, the fields of the specifications
-- Result     errors.py: the exceptions as values
-- Db         schema.py: the tables as lists of records, with the clock and the identifiers drawn
-- Exec       store.py, `transaction`: computations that may raise, and rules to carry a relation
--            between databases through them
-- StateMachine  state_machine.py: `apply_loop_event`, `require_transition` and their tables
-- Identity   identity.py: sessions and their verification, disabling and enabling principals
-- Store      store.py: Authority and Domain (who may append), Entry and Append (`append_event`),
--            Verify (`verify_event_chain`), and what is proved of the log
-- Text       leases.py: `_required_text` and `_positive_int`, with Python's `str.strip`
-- Leases     leases.py: `acquire`, `renew`, `release`, `require_current_fence`
-- Policy     authority.py and policy.py: Authority (`_validated_task_authority_binding`) and Gates
--            (`_required_decision_gates_satisfied`)
-- Integration  integration.py: Creation (`create`), Changes (`advance`), `require_task_satisfied`
--            (Satisfied), and what is proved of them in Delivery and History
-- Scope      scope.py: `normalize_scope`, `scope_covers`, `validate_task_within_goal`, over the
--            text functions of Text/Paths
-- Freshness  gates.py and observations.py: the observations of a surface
-- Verdicts   gates.py: the tasks and the claims of a run
-- Guards     gates.py: GuardResolver, each guard of a run's event answered from the database
-- Kernel     kernel.py: Runs (`create_run`, `advance_loop`), Tasks (`accept_task_evidence`,
--            `confirm_task_delivery`), Control (`control_task`), and what is proved of them
-- Scheduler  scheduler.py: Queue (which task is next), `claim_next`, `start`,
--            `complete`, Setup (the constructor), Failures (`fail`, `reap_expired`),
--            and what is proved of them: Moves (`_transition`), Claims, Grants, Outcomes
-- Samples    a small database for the examples
--
-- A database is a `World`. A table is a list of rows, the newest event first. An operation maps a
-- World to an error or to a result and a World, so an error leaves the database as it was, as the
-- rollback does. Each reading of the clock and each identifier drawn advances a counter in the
-- World; `Env` gives the answers, SHA-256 and the JSON encoder, of which nothing is assumed but
-- what a theorem names. Instants are microseconds, and the `now` that SQLite reads is a whole
-- number of milliseconds. Python's texts of instants are finer than SQLite's `julianday` tells
-- apart, so where such a text is compared by it (sessions under which events are appended,
-- observations, the start of tasks) the model compares `Env.julianday` of the two. The expiries of
-- leases, approvals and grants and the due instants of retries are written and compared by SQLite,
-- in milliseconds throughout, and are compared as they are. A column that holds JSON is a list, a
-- record or a `Json`; `Types.Documents` gives the dict of a record. Each query that compares with
-- the present reads the clock once. Where a query has no order, a table is read from its first row
-- on, which matters only to which of several equal answers is found. `TextLibrary` gives Python's
-- `unquote`, `lower` and `casefold`, and `NameLibrary` the unicodedata of a principal's name.
-- Loops are over lists of rows. Two run on fuel: `decimal`, which prints a number, on the number
-- and one more, where it needs one for each digit, and the decoding of a scope on the 20 rounds
-- that the source allows.
--
-- Not modelled: SQLite itself, connections and threads, weak references but for a flag that the
-- owner is alive, key derivation, rendering of records, the checks on Python types that a typed
-- argument cannot fail, and the parts of the runtime that this library has no module for: the
-- kernel's `initialize`, `create_goal` and `add_task`, the grants and approvals of policy.py beyond
-- the decision gates, workflow, evidence, evaluation, observations beyond the freshness guard,
-- context, memory, replay, authoring and the command line.
pub mod Prelude
pub mod Types
pub mod Result
pub mod StateMachine
pub mod Db
pub mod Exec
pub mod Identity
pub mod Store
pub mod Text
pub mod Leases
pub mod Scheduler
pub mod Policy
pub mod Integration
pub mod Scope
pub mod Freshness
pub mod Verdicts
pub mod Guards
pub mod Kernel
pub mod Samples
