-- ===== src/Jobs/Store/Claim.antt =====
-- gca/jobs/store.py: `claim_next`, `claim` and `_claim_row`, each one transaction.
use generic_coding_agent.Prelude.{
  ℕ, suc, ◌+◌, String, Bool, not, ◌&&◌, Option, none, some, List, [], ◌∷◌, if◌then◌else◌, leb,
  keep_if, any, ◌==◌,
}
use generic_coding_agent.Prelude.Int.{ℤ, pos, pos_part, leb_ℤ}
use generic_coding_agent.Prelude.Text.{str_eq, is_blank}
use generic_coding_agent.Jobs.Models.{Job, JobStatus, is_active, status_eq}
use generic_coding_agent.Jobs.Store.Table.{Row, Db, update_where, rowcount, first, at_version}
use generic_coding_agent.Result.{Result, ok, err, Error}

-- The sub-query: another row of the same repository is active.
unfoldable pub is_busy : List Row → Row → Bool
is_busy rows q =
    any
      (λ (r : Row).
        str_eq r.repository_url q.repository_url && not (str_eq r.id q.id) && is_active r.status)
      rows

-- `queued.status = ? AND queued.not_before <= ? AND NOT EXISTS (...)`
unfoldable pub claimable : ℕ → List Row → Row → Bool
claimable now rows q =
    status_eq q.status JobStatus.queued && leb q.not_before now && not (is_busy rows q)

-- `ORDER BY created_at ASC LIMIT 1`; of rows created at one time the first in the table.
unfoldable pub oldest : List Row → Option Row
oldest [] = none
oldest (r ∷ rs) = elim (oldest rs) [
  | none ↦ some r
  | some s ↦ some (if leb r.created_at s.created_at then r else s)
]

-- What `_claim_row` assigns to the job that it read.
unfoldable pub claimed_job : ℕ → ℕ → String → ℕ → Job → Job
claimed_job stamp now worker lease job = record job {
  status = JobStatus.running;
  attempt = suc job.attempt;
  last_error = "";
  lease_owner = some worker;
  lease_expires_at = some (now + lease);
  updated_at = stamp;
  version = suc job.version;
}

unfoldable pub claimed_row : Job → Row → Row
claimed_row claimed r = record r {
  status = claimed.status;
  job = claimed;
  version = claimed.version;
  lease_owner = claimed.lease_owner;
  lease_expires_at = claimed.lease_expires_at;
  updated_at = claimed.updated_at;
}

-- `WHERE id = ? AND version = ? AND status = ?`
abbrev pub claim_where : Job → Row → Bool
claim_where job r = at_version job.id job.version r && status_eq r.status JobStatus.queued

-- The rollback leaves the tables as the transaction found them.
unfoldable pub claim_row : ℕ → ℕ → String → ℕ → Job → Db → Result (Option Job) × Db
claim_row stamp now worker lease job db =
    let claimed = claimed_job stamp now worker lease job in
    if rowcount (claim_where job) db.jobs == 1
    then (
      ok (some claimed),
      record db { jobs = update_where (claim_where job) (claimed_row claimed) db.jobs },
    )
    else (err Error.concurrency, db)

-- The claim of the selected row, if there is one.
unfoldable pub claim_selected : ℕ → ℕ → String → ℤ → Db → Option Row → Result (Option Job) × Db
claim_selected stamp now worker lease db none = (ok none, db)
claim_selected stamp now worker lease db (some q) =
    claim_row stamp now worker (pos_part lease) q.job db

-- The argument checks of both operations.
unfoldable pub claim_arguments : String → ℤ → Option Error
claim_arguments worker lease =
    if is_blank worker
    then some (Error.value_error "worker_id must not be empty")
    else if leb_ℤ lease (pos 0)
    then some (Error.value_error "lease_seconds must be positive")
    else none

-- `now` is `time.time()` and `stamp` is `utc_now()`.
unfoldable pub claim_next : ℕ → ℕ → String → ℤ → Db → Result (Option Job) × Db
claim_next stamp now worker lease db = elim (claim_arguments worker lease) [
  | some e ↦ (err e, db)
  | none ↦
      claim_selected stamp now worker lease db (oldest (keep_if (claimable now db.jobs) db.jobs))
]

unfoldable pub claim : ℕ → ℕ → String → String → ℤ → Db → Result (Option Job) × Db
claim stamp now job_id worker lease db = elim (claim_arguments worker lease) [
  | some e ↦ (err e, db)
  | none ↦
      claim_selected stamp now worker lease db
        (first (keep_if (λ (r : Row). str_eq r.id job_id && claimable now db.jobs r) db.jobs))
]
