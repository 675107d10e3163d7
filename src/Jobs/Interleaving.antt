-- ===== src/Jobs/Interleaving.antt =====
-- Workers, the API and operators at work on one database, in any order. Each holds copies of jobs:
-- what it read, and what it changed and has not saved. A step is one transaction or one assignment.
use generic_coding_agent.Prelude.{
  ℕ, ◌≡◌, ◌≢◌, String, Bool, false, Option, none, List, [], ◌∷◌, ◌++◌, In, any,
}
use generic_coding_agent.Prelude.Int.{ℤ}
use generic_coding_agent.Result.{ok}
use generic_coding_agent.Jobs.Models.{Job, JobStatus, RunSpec, is_active}
use generic_coding_agent.Jobs.Lifecycle.{transition_job}
use generic_coding_agent.Jobs.Store.Table.{Row, Db, record_worker_heartbeat}
use generic_coding_agent.Jobs.Store.Create.{insert_job, new_job}
use generic_coding_agent.Jobs.Store.Save.{save}
use generic_coding_agent.Jobs.Store.Claim.{claim_next, claim}
use generic_coding_agent.Jobs.Store.Lease.{
  requeue_expired, touch_lease, release_lease, reclaimed_job,
}
use generic_coding_agent.Issues.Models.{IssueSession, IssueGeneration, Turn}
use generic_coding_agent.Issues.Work.Jobs.{turn_row, turn_key, is_taken}

pub record System : Type 0 where
  pub db : Db
  pub copies : List Job

-- What a holder of a copy may assign to it besides a transition: the budget and the publication of its
-- specification, the session, the workspace, the publication, the summary, the errors, the usage and the due
-- time. No caller changes the repository.
pub record Edited (h j : Job) : Type 0 where
  pub same_id : j.id ≡ h.id
  pub same_url : j.run_spec.repository.url ≡ h.run_spec.repository.url
  pub same_version : j.version ≡ h.version
  pub same_status : j.status ≡ h.status
  pub same_owner : j.lease_owner ≡ h.lease_owner

pub data Step (s : System) : System → Type 0 where
  insert :
      (stamp : ℕ) (id : String) (spec : RunSpec) (key : Option String) (max_attempts : ℕ)
      → Step s
          (record s { db = (insert_job spec key (new_job stamp id spec key max_attempts) s.db).1 })
  -- `create_turn_job`; a refused INSERT rolls back its unit of work.
  insert_turn :
      (number_text : ℤ → String) (ticks : ℕ) (id : String) (turn : Turn) (session : IssueSession)
      (generation : IssueGeneration) (task : String)
      → any (is_taken id (turn_key turn)) s.db.jobs ≡ false
      → Step s (record s {
        db = record s.db {
          jobs = s.db.jobs ++ turn_row number_text ticks id turn session generation task ∷ [];
        };
      })
  claim_any :
      (stamp now : ℕ) (worker : String) (lease : ℤ)
      → Step s (record s { db = (claim_next stamp now worker lease s.db).1 })
  claim_one :
      (stamp now : ℕ) (job_id worker : String) (lease : ℤ)
      → Step s (record s { db = (claim stamp now job_id worker lease s.db).1 })
  expire : (stamp now : ℕ) → Step s (record s { db = (requeue_expired stamp now s.db).1 })
  touch :
      (stamp now : ℕ) (job_id worker : String) (lease : ℤ)
      → Step s (record s { db = (touch_lease stamp now job_id worker lease s.db).1 })
  release :
      (stamp : ℕ) (job_id worker : String)
      → Step s (record s { db = (release_lease stamp job_id worker s.db).1 })
  beat :
      (now : ℕ) (worker : String) (claimed : Bool)
      → Step s (record s { db = (record_worker_heartbeat now worker claimed s.db).1 })
  -- `load`, `find_by_idempotency`, `list`, and the jobs that the other operations hand back
  read : (r : Row) → In r s.db.jobs → Step s (record s { copies = r.job ∷ s.copies })
  edit : (h j : Job) → In h s.copies → Edited h j → Step s (record s { copies = j ∷ s.copies })
  -- No caller of `transition_job` asks for `running`: only a claim sets that state.
  move :
      (stamp : ℕ) (h j : Job) (to : JobStatus) (error : String)
      → In h s.copies
      → to ≢ JobStatus.running
      → transition_job stamp h to error ≡ ok j
      → Step s (record s { copies = j ∷ s.copies })
  -- `ack` drops the lease of a finished or paused job.
  drop_lease :
      (h : Job)
      → In h s.copies
      → is_active h.status ≡ false
      → Step s (record s {
        copies = record h { lease_owner = none; lease_expires_at = none } ∷ s.copies;
      })
  -- `force_requeue`
  reclaim :
      (stamp : ℕ) (h : Job)
      → In h s.copies
      → Step s (record s { copies = reclaimed_job stamp h ∷ s.copies })
  store : (now : ℕ) (h : Job) → In h s.copies → Step s (record s { db = (save now h s.db).1 })

pub data Reach (s : System) : System → Type 0 where
  here : Reach s s
  next : {t u : System} → Reach s t → Step t u → Reach s u

abbrev pub start : System
start = record { db = record { jobs = []; heartbeats = [] }; copies = [] }
