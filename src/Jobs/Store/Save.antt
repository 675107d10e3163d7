-- ===== src/Jobs/Store/Save.antt =====
-- gca/jobs/store.py, `save`: one UPDATE that takes effect only at the version the caller read.
use generic_coding_agent.Prelude.{ℕ, suc, if◌then◌else◌, ◌==◌}
use generic_coding_agent.Jobs.Models.{Job, is_active}
use generic_coding_agent.Jobs.Store.Table.{Row, Db, update_where, rowcount, at_version}
use generic_coding_agent.Result.{Result, ok, err, Error}

-- The job as it is stored and handed back.
unfoldable pub saved_job : ℕ → Job → Job
saved_job now job = record job { updated_at = now; version = suc job.version }

-- The columns that the UPDATE sets. While the job is active the lease columns keep their value,
-- and the lease fields of the stored job are the caller's.
unfoldable pub saved_row : ℕ → Job → Row → Row
unfolding saved_job
saved_row now job r =
    let active = is_active job.status in
    record r {
      status = job.status;
      job = saved_job now job;
      version = suc job.version;
      not_before = job.not_before;
      lease_owner = if active then r.lease_owner else job.lease_owner;
      lease_expires_at = if active then r.lease_expires_at else job.lease_expires_at;
      updated_at = now;
    }

-- The caller's job comes back at its new version; a stale or missing one raises.
unfoldable pub save : ℕ → Job → Db → Result Job × Db
unfolding saved_row
save now job db =
    let test = at_version job.id job.version in
    if rowcount test db.jobs == 1
    then (
      ok (saved_job now job),
      record db { jobs = update_where test (saved_row now job) db.jobs },
    )
    else (err Error.concurrency, record db { jobs = update_where test (saved_row now job) db.jobs })
