-- ===== src/Lib.antt =====
-- Verification of the generic coding agent: an agent loop that calls tools, the tool that applies
-- diffs, and the hosted service's queue of jobs.
--
-- Jobs (gca/jobs, under src). Jobs.Models and Jobs.Lifecycle model src/gca/jobs/models.py and
-- src/gca/jobs/lifecycle.py. Jobs.Store models src/gca/jobs/store.py: Table is the two tables as
-- lists of rows and the statements as functions on them; Validate and Create are `_validate_run_spec`
-- and `create`, Save is `save`, Claim is `claim_next`, `claim` and `_claim_row`, and Lease is the
-- collection, the renewal and the release of leases. An operation takes the database and returns it
-- with a value or an error. A transaction is one step, since SQLite takes one writer at a time; where
-- the code reads outside its transaction, the writes of others in between are a parameter. Jobs.Queue
-- models src/gca/jobs/queue.py. Jobs.Interleaving is the step relation of workers, the interface and
-- operators on one database, with the copies of jobs that they hold and the jobs that issue sessions
-- insert, and Jobs.Exclusion its
-- invariant. Jobs.Store.WellFormed is the invariant of the table, Preserves and its children the
-- operations that keep it.
--
-- Patch models src/gca/tools/patch.py: Text the string functions that it uses, on lists of code
-- points; Parse the normalisation and the parser; Hunks the search for a hunk's place and its
-- application; Apply the planning and the writes. A workspace is a list of files; path resolution,
-- directories, the Python syntax check and the operating system's leave to write are parameters.
--
-- Agent models src/gca/agent.py: the session, one turn of the loop, and the run on fuel, where two
-- turns for each step of the budget and two more are enough. The provider, the tools, the redaction
-- of secrets and the allowlist are fields of an environment. Usage models src/gca/usage.py; costs, and
-- the counts kept for a model, are Python floats, whose type, zero, addition and conversion from an
-- integer are parameters. Fallback models
-- src/gca/providers/fallback.py over abstract providers; its loop recurses on the providers that are
-- left.
--
-- Routing models src/gca/routing.py over configuration values; `str.lower` is a parameter. Complexity models
-- src/gca/complexity.py, where regular expressions and the splitting of texts are parameters.
--
-- ToolPolicy models src/gca/tool_policy.py, with the registry of src/gca/tools/base.py and the phases of
-- src/gca/workflows.py; a set of names is a list, which may repeat one.
--
-- Issues (gca/issue_sessions) models the sessions that the service keeps for GitLab issues. Models has the
-- records of models.py; Tables and Work are store.py, with a unit of work as a function on the tables that
-- returns or raises, and raises leave the tables as they were; Outcomes is outcomes.py; Events and Ingestion
-- are ingestion.py, one module for each of `_start_session`, `_handle_existing` and `ingest`. Identifiers and
-- readings of the clock are drawn from an argument. Remediation is remediation.py, whose first read, outside
-- its transaction, is an argument. Outbox is the OutboxProcessor of outbox.py and the store's
-- list_pending_outbound: GitLab, git and the workspaces are a record of calls on a state, and a pass on one
-- action reads the clock once. Contracts has the rules for what a chain of statements
-- keeps and returns; Consistency.Sequence, Redelivery, Serial, Started, Settled and Events.Queueing are about their behaviour.
--
-- Integers are natural numbers, or the ℤ of Prelude.Int where the code checks a sign: Python's do not
-- overflow. Times are natural numbers of clock ticks. Texts are the native strings, and lists of code
-- points where the code looks inside.
--
-- Not modelled: the codecs of jobs and sessions, the search-and-replace tool, path
-- resolution, the command filter, the orchestrator and the job runner, which are left to extend; and the network, containers, git, the command line and the web service, which are input and
-- output.
pub mod Prelude
pub mod Json
pub mod Result
pub mod Jobs
pub mod Patch
pub mod Usage
pub mod Agent
pub mod Tests
pub mod Fallback
pub mod Complexity
pub mod Routing
pub mod ToolPolicy
pub mod Issues
