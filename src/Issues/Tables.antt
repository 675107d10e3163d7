-- ===== src/Issues/Tables.antt =====
-- gca/issue_sessions/store.py: the tables, and a unit of work as a function on them. A row is the
-- object stored in its column `data`: every statement writes the other columns from that object.
use generic_coding_agent.Prelude.{ℕ, String, Bool, List, []}
use generic_coding_agent.Prelude.Int.{ℤ}
use generic_coding_agent.Jobs.Store.Table.{Row}
use generic_coding_agent.Issues.Models.{
  IssueSession, IssueGeneration, Turn, InboundEvent, ScmLink, OutboundAction, SessionEvent,
}

-- A row of the jobs table with the columns that `_ensure_job_columns` adds.
pub record TurnJob : Type 0 where
  pub row : Row
  pub issue_session_id : String
  pub generation_id : String
  pub turn_id : String
  pub lease_epoch : ℕ
  pub cancel_requested : Bool
  pub project_id : ℤ

pub record Tables : Type 0 where
  pub sessions : List IssueSession
  pub generations : List IssueGeneration
  pub turns : List Turn
  pub inbound : List InboundEvent
  pub links : List ScmLink
  pub outbound : List OutboundAction
  pub events : List SessionEvent
  pub jobs : List TurnJob

-- What a unit of work raises: the store's own errors, `sqlite3.IntegrityError`, and a `TypeError` on
-- a row that is not there.
pub data WorkError : Type 0 where
  not_found : WorkError
  concurrency : WorkError
  duplicate_delivery : WorkError
  integrity : WorkError
  type_error : WorkError

pub data Worked (A : Type 0) : Type 0 where
  ok : A → Tables → Worked A
  err : WorkError → Worked A

abbrev pub Work : Type 0 → Type 0
Work A = Tables → Worked A

infixl 5 ◌>>=◌
unfoldable pub ◌>>=◌ : {A B : Type 0} → Work A → (A → Work B) → Work B
(m >>= f) t = elim (m t) [ ok a t' ↦ f a t' | err e ↦ err e ]

unfoldable pub pure : {A : Type 0} → A → Work A
pure a t = ok a t

unfoldable pub raise : {A : Type 0} → WorkError → Work A
raise e t = err e

-- `unit_of_work`: COMMIT, or ROLLBACK and the exception again.
pub data Outcome (A : Type 0) : Type 0 where
  committed : A → Outcome A
  raised : WorkError → Outcome A

unfoldable pub unit_of_work : {A : Type 0} → Work A → Tables → Outcome A × Tables
unit_of_work m t = elim (m t) [ ok a t' ↦ (committed a, t') | err e ↦ (raised e, t) ]

abbrev pub empty_tables : Tables
empty_tables = record {
  sessions = [];
  generations = [];
  turns = [];
  inbound = [];
  links = [];
  outbound = [];
  events = [];
  jobs = [];
}
