-- ===== src/Jobs/Lifecycle/Transitions.antt =====
-- What a transition does on each branch, and the states that it cannot leave.
use generic_coding_agent.Prelude.{ℕ, ◌≡◌, ◌≢◌, sym, ◌⊎◌, inl, inr, String, true, arith, Bool-cases}
use generic_coding_agent.Result.{ok, err, invalid_transition, ok-injective, ok≢err}
use generic_coding_agent.Jobs.Models.{Job, JobStatus, status_eq, is_active}
use generic_coding_agent.Jobs.Lifecycle.{allowed, moved, transition_job}

pub status_eq-eq : (a b : JobStatus) → status_eq a b ≡ true → a ≡ b
status_eq-eq a b h = ground arith

-- A transition that succeeds stays where it was, or follows the table.
pub transition_job_cases :
    (now : ℕ) (job j : Job) (to : JobStatus) (error : String)
    → transition_job now job to error ≡ ok j
    → ((to ≡ job.status) × (job ≡ j))
      ⊎ ((allowed job.status to ≡ true) × (moved now job to error ≡ j))
unfolding transition_job
transition_job_cases now job j to error h = elim (Bool-cases (status_eq to job.status)) [
  | inl same ↦ inl (status_eq-eq to job.status same, ok-injective (rw same at h))
  | inr other ↦ elim (Bool-cases (allowed job.status to)) [
    | inl may ↦ inr (may, ok-injective (rw (other, may) at h))
    | inr may_not ↦ absurd (ok≢err (sym (rw (other, may_not) at h)))
  ]
]

-- Only a transition to `running` makes an idle job active.
pub allowed_active :
    (from to : JobStatus)
    → allowed from to ≡ true
    → to ≢ JobStatus.running
    → is_active to ≡ true
    → is_active from ≡ true
unfolding allowed
allowed_active from to may calm active = ground arith

-- A completed or cancelled job cannot be moved to another state: the transition raises.
pub terminal_states_final :
    (now : ℕ) (job : Job) (to : JobStatus) (error : String)
    → (job.status ≡ JobStatus.completed) ⊎ (job.status ≡ JobStatus.cancelled)
    → to ≢ job.status
    → transition_job now job to error ≡ err (invalid_transition job.status to)
unfolding transition_job
terminal_states_final now job to error terminal differs = ground (arith, differs)
