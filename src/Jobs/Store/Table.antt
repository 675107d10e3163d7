-- ===== src/Jobs/Store/Table.antt =====
-- gca/jobs/store.py: the two tables, and the SQL statements as functions on lists of rows. A
-- statement runs alone, since SQLite takes one writer at a time.
use generic_coding_agent.Prelude.{
  ℕ, String, Bool, false, ◌&&◌, ◌||◌, Option, none, some, List, [], ◌∷◌, map, if◌then◌else◌, length,
  keep_if, ◌==◌,
}
use generic_coding_agent.Prelude.Text.{str_eq, opt_eq, is_blank}
use generic_coding_agent.Jobs.Models.{Job, JobStatus, status_eq}
use generic_coding_agent.Result.{Result, ok, err, Error}

-- `data` is the job that `Job.from_dict` reads back from the column of that name.
pub record Row : Type 0 where
  pub id : String
  pub idempotency_key : Option String
  pub repository_url : String
  pub status : JobStatus
  pub job : Job
  pub version : ℕ
  pub not_before : ℕ
  pub lease_owner : Option String
  pub lease_expires_at : Option ℕ
  pub created_at : ℕ
  pub updated_at : ℕ

pub record Heartbeat : Type 0 where
  pub worker_id : String
  pub last_seen_at : ℕ
  pub last_claimed_at : Option ℕ

pub record Db : Type 0 where
  pub jobs : List Row
  pub heartbeats : List Heartbeat

-- `UPDATE jobs SET change WHERE test`, and the statement's `rowcount`
abbrev pub update_where : (Row → Bool) → (Row → Row) → List Row → List Row
update_where test change = map (λ r. if test r then change r else r)

abbrev pub rowcount : (Row → Bool) → List Row → ℕ
rowcount test rows = length (keep_if test rows)

-- `SELECT ... LIMIT 1`
abbrev pub first {ℓ} : {A : Type ℓ} → List A → Option A
first [] = none
first (x ∷ xs) = some x

-- `WHERE id = ? AND version = ?`
abbrev pub at_version : String → ℕ → Row → Bool
at_version id version r = str_eq r.id id && r.version == version

-- The row that a new job is stored as.
unfoldable pub row_of : Job → Row
row_of job = record {
  id = job.id;
  idempotency_key = job.idempotency_key;
  repository_url = job.run_spec.repository.url;
  status = job.status;
  job = job;
  version = job.version;
  not_before = job.not_before;
  lease_owner = job.lease_owner;
  lease_expires_at = job.lease_expires_at;
  created_at = job.created_at;
  updated_at = job.updated_at;
}

-- The constraints `id TEXT PRIMARY KEY` and `idempotency_key TEXT UNIQUE`; NULLs do not collide.
unfoldable pub collides : Job → Row → Bool
collides job r =
    str_eq r.id job.id
    || elim job.idempotency_key [ none ↦ false | some key ↦ opt_eq r.idempotency_key (some key) ]

unfoldable pub load : String → Db → Result Job
load job_id db = elim (first (keep_if (λ (r : Row). str_eq r.id job_id) db.jobs)) [
  | none ↦ err Error.not_found
  | some r ↦ ok r.job
]

unfoldable pub find_by_idempotency : String → Db → Option Job
find_by_idempotency key db =
    elim (first (keep_if (λ (r : Row). opt_eq r.idempotency_key (some key)) db.jobs)) [
      | none ↦ none
      | some r ↦ some r.job
    ]

unfoldable pub count_queued : Db → ℕ
count_queued db = rowcount (λ r. status_eq r.status JobStatus.queued) db.jobs

-- `INSERT ... ON CONFLICT(worker_id) DO UPDATE`: a beat without a claim keeps the last claim.
beat : String → ℕ → Option ℕ → List Heartbeat → List Heartbeat
beat worker now claimed [] =
    record { worker_id = worker; last_seen_at = now; last_claimed_at = claimed } ∷ []
beat worker now claimed (h ∷ hs) =
    if str_eq h.worker_id worker
    then record h {
      last_seen_at = now;
      last_claimed_at = elim claimed [ none ↦ h.last_claimed_at | some t ↦ some t ];
    }
      ∷ hs
    else h ∷ beat worker now claimed hs

unfoldable pub record_worker_heartbeat : ℕ → String → Bool → Db → Result (Unit {0}) × Db
unfolding beat
record_worker_heartbeat now worker claimed db =
    if is_blank worker then (err (Error.value_error "worker_id must not be empty"), db) else (
      ok tt,
      record db { heartbeats = beat worker now (if claimed then some now else none) db.heartbeats },
    )
