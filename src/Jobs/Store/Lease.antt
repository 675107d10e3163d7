-- ===== src/Jobs/Store/Lease.antt =====
-- gca/jobs/store.py: expiry, renewal and release of leases, and the operator's requeue.
use generic_coding_agent.Prelude.{
  ℕ, suc, ◌+◌, String, Bool, false, not, ◌&&◌, ◌||◌, Option, none, some, List, [], ◌∷◌,
  if◌then◌else◌, leb, ltb, keep_if, ◌==◌,
}
use generic_coding_agent.Prelude.Int.{ℤ, pos, pos_part, leb_ℤ}
use generic_coding_agent.Prelude.Text.{str_eq, opt_eq}
use generic_coding_agent.Jobs.Models.{Job, JobStatus, is_active}
use generic_coding_agent.Jobs.Store.Table.{Row, Db, update_where, rowcount, first, at_version, load}
use generic_coding_agent.Jobs.Store.Save.{save}
use generic_coding_agent.Result.{Result, ok, err, Error}

-- `JobStatus.QUEUED if job.attempt < job.max_attempts else JobStatus.FAILED`
unfoldable pub retry_status : Job → JobStatus
retry_status job = if ltb job.attempt job.max_attempts then JobStatus.queued else JobStatus.failed

-- A job taken from its worker: `on_retry` and `on_final` are the messages for the two outcomes.
unfoldable pub taken_back : ℕ → String → String → Job → Job
unfolding retry_status
taken_back stamp on_retry on_final job = record job {
  status = retry_status job;
  last_error = if ltb job.attempt job.max_attempts then on_retry else on_final;
  lease_owner = none;
  lease_expires_at = none;
  updated_at = stamp;
}

-- The columns of the UPDATE that `requeue_expired` and `release_lease` share.
unfoldable pub returned_row : Job → Row → Row
returned_row job r = record r {
  status = job.status;
  job = record job { version = suc job.version };
  version = suc job.version;
  lease_owner = none;
  lease_expires_at = none;
  updated_at = job.updated_at;
}

-- `status IN (?, ?) AND lease_expires_at IS NOT NULL AND lease_expires_at <= ?`
unfoldable pub is_expired : ℕ → Row → Bool
is_expired now r =
    is_active r.status && elim r.lease_expires_at [ none ↦ false | some t ↦ leb t now ]

-- A retried job keeps its last error when its lease expires.
unfoldable pub expired_job : ℕ → Job → Job
unfolding taken_back
expired_job stamp job =
    taken_back stamp job.last_error "worker lease expired after final attempt" job

-- The loop over the selected rows, with the table and `count` as its state.
unfoldable pub requeue_rows : ℕ → List Row → List Row × ℕ → List Row × ℕ
requeue_rows stamp [] state = state
requeue_rows stamp (s ∷ rest) (rows, count) = requeue_rows stamp rest (
  update_where (at_version s.job.id s.job.version) (returned_row (expired_job stamp s.job)) rows,
  count + rowcount (at_version s.job.id s.job.version) rows,
)

unfoldable pub requeue_expired : ℕ → ℕ → Db → ℕ × Db
requeue_expired stamp now db =
    let (rows, count) = requeue_rows stamp (keep_if (is_expired now) db.jobs) (db.jobs, 0) in
    (count, record db { jobs = rows })

-- `WHERE id = ? AND lease_owner = ? AND status IN (?, ?)`
unfoldable pub holds_lease : String → String → Row → Bool
holds_lease job_id worker r =
    str_eq r.id job_id && opt_eq r.lease_owner (some worker) && is_active r.status

unfoldable pub touched_row : ℕ → ℕ → Job → Row → Row
touched_row stamp until job r = record r {
  job = record job { lease_expires_at = some until; updated_at = stamp };
  lease_expires_at = some until;
  updated_at = stamp;
}

-- The optimistic version stays as it is.
unfoldable pub touch_lease : ℕ → ℕ → String → String → ℤ → Db → Result (Unit {0}) × Db
touch_lease stamp now job_id worker lease db =
    if leb_ℤ lease (pos 0)
    then (err (Error.value_error "lease_seconds must be positive"), db)
    else elim (first (keep_if (holds_lease job_id worker) db.jobs)) [
      | none ↦ (err Error.concurrency, db)
      | some s ↦
          if rowcount (holds_lease job_id worker) db.jobs == 1
          then (
            ok tt,
            record db {
              jobs =
                  update_where (holds_lease job_id worker)
                    (touched_row stamp (now + pos_part lease) s.job) db.jobs;
            },
          )
          else (err Error.concurrency, db)
    ]

renewed : ℕ → Job → Result (Unit {0}) × Db → Result Job × Db
renewed until job (ok _, db) = (ok (record job { lease_expires_at = some until }), db)
renewed until job (err e, db) = (err e, db)

-- The load and the renewal are two transactions, with `race` between them. The clock is read
-- twice: `now` for the row, `later` for the job that is returned.
unfoldable pub renew_lease : ℕ → ℕ → ℕ → String → String → ℤ → (Db → Db) → Db → Result Job × Db
unfolding renewed
renew_lease stamp now later job_id worker lease race db = elim (load job_id db) [
  | err e ↦ (err e, db)
  | ok job ↦
      if not (is_active job.status) || not (opt_eq job.lease_owner (some worker))
      then (err Error.concurrency, db)
      else renewed (later + pos_part lease) job
          (touch_lease stamp now job_id worker lease (race db))
]

unfoldable pub released_job : ℕ → Job → Job
unfolding taken_back
released_job stamp =
    taken_back stamp "worker released lease on shutdown" "worker released lease after final attempt"

unfoldable pub release_lease : ℕ → String → String → Db → Option Job × Db
unfolding released_job
release_lease stamp job_id worker db =
    elim (first (keep_if (λ (r : Row). str_eq r.id job_id) db.jobs)) [
      | none ↦ (none, db)
      | some s ↦
          let job = released_job stamp s.job in
          let test = λ (r : Row).
            at_version s.job.id s.job.version r && opt_eq r.lease_owner (some worker) in
          if not (is_active s.job.status) || not (opt_eq s.job.lease_owner (some worker))
          then (none, db)
          else if rowcount test db.jobs == 1
          then (
            some (record job { version = suc s.job.version }),
            record db { jobs = update_where test (returned_row job) db.jobs },
          )
          else (none, db)
    ]

unfoldable pub reclaimed_job : ℕ → Job → Job
unfolding taken_back
reclaimed_job stamp =
    taken_back stamp "operator requeue cleared worker lease" "operator requeue after final attempt"

-- `race` is what others commit between the load and the save.
unfoldable pub force_requeue : ℕ → String → (Db → Db) → Db → Result Job × Db
unfolding reclaimed_job
force_requeue stamp job_id race db = elim (load job_id db) [
  | err e ↦ (err e, db)
  | ok job ↦
      if not (is_active job.status)
      then (err Error.concurrency, db)
      else save stamp (reclaimed_job stamp job) (race db)
]
