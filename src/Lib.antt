-- ===== src/Lib.antt =====
-- The verification library of ShadowOps, a control plane that audits database migrations.
--
-- A run is created by the API, moved from stage to stage by workers, and ends in a terminal state.
-- The API writes a run together with an outbox event; the dispatcher hands due events to a broker;
-- a worker that receives an event claims the next step of the run, works, and finalizes or fails
-- the claim, which moves the run by one version and writes the next event; the reconciler reopens
-- events whose delivery got lost and gives up a run whose recovery budget is used up. All of them
-- share three tables of one database and nothing else.
--
-- * Domain models src/shadowops/domain: RunState, the rows of the tables, and the transitions and
--   the cancellation of a run (`AuditRun.transition`, `AuditRun.request_cancel`). The methods change
--   a run in place; here they return the changed run or the error that they raise.
-- * Store models src/shadowops/persistence. A table is a list of rows, a statement is a function of
--   the database that returns a result and the next database or raises (`Tx`), and `with_uow` is the
--   unit of work: what a block did is kept only if it committed and did not raise. Each transaction
--   runs alone: row locks and the interleaving of statements are the database's own. Primary keys,
--   unique constraints, the foreign key of a step and the checks on counts are modelled; the lengths
--   of the columns are not. Store.Results has the results that are stored once for a run.
-- * Execution, RunService and Timeline model src/shadowops/application (run_execution.py, runs.py,
--   run_timeline.py), Dispatcher and Reconciler src/shadowops/worker (outbox.py, reconciler.py), one
--   function for each method. Clock readings, new UUIDs, the broker and the fingerprint of a request
--   are arguments. UUIDs are numbers and times are microseconds.
-- * Plan models the audit plans of src/shadowops/agent (contracts.py, catalog.py, validator.py): the
--   catalog, `PlanValidator.validate` with the texts of its errors, and its two searches.
-- * Planner models `AgentPlanner.plan` of src/shadowops/agent/runtime.py, which gathers
--   observations (Planner.Context), asks a provider for a plan and once for a repair; the gateway of the
--   tools, the provider and the parser of its text are arguments.
-- * Revisions models `_build_graph` of src/shadowops/repository/alembic.py, from the revisions that
--   were parsed to the graph; parsing them is the work of `ast` and `configparser`. Search has what its
--   cycle search and the validator's share.
-- * Worker models `process_run_event` of src/shadowops/worker/tasks.py, the task that runs a stage. Each
--   of its calls is a transaction of its own, before which the other processes have their turn; a
--   stage handler is what the task sees of it, calls of its checkpoint and an end.
-- * Rules models src/shadowops/rules: the rules of engine.py on the syntax trees of Python, as far as
--   they tell the nodes apart, and the report of service.py. The parser, the hash and the search for
--   a literal DROP are arguments.
-- * Stages models the handlers of the dynamic stages in src/shadowops/application/dynamic_audit.py, the
--   requests of src/shadowops/sandbox/contracts.py that they make, and the handlers of discovery.py and
--   static_analysis.py beside it with the tables of their results. What the sandbox manager, the
--   runner, the evidence collector and the snapshot service do is an argument.
-- * Workflow states what the parts do together: Change describes what one transaction may write,
--   Invariant what holds of the tables between transactions, History what holds across sequences of
--   them, and World puts every use case under one step function, with the claims that workers hold.
-- * Prelude has the shared names and the lemmas on tables, and Scenarios the tests.
--
-- Loops are structural recursion on the batch. The two searches of Plan recurse on fuel: the depth
-- of `_has_cycle` is at most the number of steps and one more, since no path meets an id twice, and
-- `_ancestor_capabilities` meets a new capability at most eight times. The walk of Revisions has as its
-- fuel the number of revisions and a little more, Planner the two attempts of its range. All of it is
-- shown to be enough. The nested calls that the interpreter's stack has room for are an argument of the
-- cycle search of Revisions, which nests as deep as a line of revisions is long; elsewhere the stack is
-- no limit.
-- Not modelled: HTTP, Celery, Docker, git, files, logging and settings, which are input and output,
-- and the gateway of the planning agent's tools.

pub mod Prelude
pub mod Domain
pub mod Store
pub mod Search
pub mod Execution
pub mod RunService
pub mod Dispatcher
pub mod Reconciler
pub mod Timeline
pub mod Plan
pub mod Revisions
pub mod Workflow
pub mod Worker
pub mod Planner
pub mod Rules
pub mod Stages
pub mod Scenarios
