-- ===== src/Jobs/Lifecycle.antt =====
-- gca/jobs/lifecycle.py: the transition table, the transition with its side effects, and the retry
-- schedule.
pub mod Transitions
pub mod Retries
use generic_coding_agent.Prelude.{
  ℕ, ◌-◌, String, Bool, true, false, not, ◌||◌, none, List, [], ◌∷◌, if◌then◌else◌, ltb, min,
  get_or,
}
use generic_coding_agent.Prelude.Text.{str_eq}
use generic_coding_agent.Jobs.Models.{Job, JobStatus, status_eq, is_active}
use generic_coding_agent.Result.{Result, ok, err, invalid_transition}

-- `_TRANSITIONS[from]` holds `to`
unfoldable pub allowed : JobStatus → JobStatus → Bool
allowed JobStatus.queued JobStatus.running = true
allowed JobStatus.queued JobStatus.cancelled = true
allowed JobStatus.running JobStatus.queued = true
allowed JobStatus.running JobStatus.paused = true
allowed JobStatus.running JobStatus.publishing = true
allowed JobStatus.running JobStatus.completed = true
allowed JobStatus.running JobStatus.failed = true
allowed JobStatus.running JobStatus.cancelled = true
allowed JobStatus.paused JobStatus.queued = true
allowed JobStatus.paused JobStatus.failed = true
allowed JobStatus.paused JobStatus.cancelled = true
allowed JobStatus.publishing JobStatus.queued = true
allowed JobStatus.publishing JobStatus.completed = true
allowed JobStatus.publishing JobStatus.failed = true
allowed JobStatus.publishing JobStatus.paused = true
allowed JobStatus.failed JobStatus.queued = true
allowed _ _ = false

-- `last_error` after a transition: a message is kept, and a healthy state clears a stale one.
next_error : JobStatus → String → String → String
next_error to error old =
    if not (str_eq error "")
    then error
    else if status_eq to JobStatus.running
        || status_eq to JobStatus.publishing
        || status_eq to JobStatus.completed
    then ""
    else old

-- What a valid transition assigns; the lease is dropped unless the new state is active.
unfoldable pub moved : ℕ → Job → JobStatus → String → Job
unfolding next_error
moved now job to error = record job {
  status = to;
  updated_at = now;
  last_error = next_error to error job.last_error;
  lease_owner = if is_active to then job.lease_owner else none;
  lease_expires_at = if is_active to then job.lease_expires_at else none;
}

-- `now` is the timestamp that `utc_now()` returns.
unfoldable pub transition_job : ℕ → Job → JobStatus → String → Result Job
unfolding moved allowed
transition_job now job to error =
    if status_eq to job.status
    then ok job
    else if not (allowed job.status to)
    then err (invalid_transition job.status to)
    else ok (moved now job to error)

retry_schedule : List ℕ
retry_schedule = 30 ∷ 120 ∷ 600 ∷ []

-- `attempt - 1` stops at 0, which is `max(attempt - 1, 0)`.
unfoldable pub retry_delay_seconds : ℕ → ℕ
unfolding retry_schedule
retry_delay_seconds attempt = get_or retry_schedule (min (attempt - 1) 2) 0

unfoldable pub can_retry : Job → Bool
can_retry job = ltb job.attempt job.max_attempts
