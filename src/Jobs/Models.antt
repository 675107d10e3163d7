-- ===== src/Jobs/Models.antt =====
-- gca/jobs/models.py: the run request, the job and its states. Integers that the code checks for
-- their sign are ℤ. Times are natural numbers of clock ticks; timestamps compare as instants.
use generic_coding_agent.Prelude.{ℕ, String, Bool, true, false, List, Option}
use generic_coding_agent.Prelude.Int.{ℤ}
use generic_coding_agent.Json.{Fields}

pub data JobStatus : Type 0 where
  queued running paused publishing completed failed cancelled : JobStatus

pub record RepositorySpec : Type 0 where
  pub url : String
  pub ref : String
  pub shallow_depth : ℤ

pub record PublicationTarget : Type 0 where
  pub provider : String
  pub base_ref : String
  pub branch_prefix : String
  pub draft : Bool

pub record RunSpec : Type 0 where
  pub task : String
  pub repository : RepositorySpec
  pub workflow : Option String
  pub max_steps : Option ℤ
  pub publication : Option PublicationTarget
  pub labels : List (String × String)

pub record Job : Type 0 where
  pub run_spec : RunSpec
  pub id : String
  pub status : JobStatus
  pub idempotency_key : Option String
  pub attempt : ℕ
  pub max_attempts : ℕ
  pub session_id : Option String
  pub workspace_path : Option String
  pub publication : Fields
  pub result_summary : String
  pub last_error : String
  pub llm_usage : Fields
  pub lease_owner : Option String
  pub lease_expires_at : Option ℕ
  pub not_before : ℕ
  pub version : ℕ
  pub created_at : ℕ
  pub updated_at : ℕ

-- `status in {JobStatus.RUNNING, JobStatus.PUBLISHING}`
abbrev pub is_active : JobStatus → Bool
is_active JobStatus.running = true
is_active JobStatus.publishing = true
is_active _ = false

-- `==` on the members of the enum
abbrev pub status_eq : JobStatus → JobStatus → Bool
status_eq JobStatus.queued JobStatus.queued = true
status_eq JobStatus.running JobStatus.running = true
status_eq JobStatus.paused JobStatus.paused = true
status_eq JobStatus.publishing JobStatus.publishing = true
status_eq JobStatus.completed JobStatus.completed = true
status_eq JobStatus.failed JobStatus.failed = true
status_eq JobStatus.cancelled JobStatus.cancelled = true
status_eq _ _ = false
