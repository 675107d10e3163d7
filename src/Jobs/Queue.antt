-- ===== src/Jobs/Queue.antt =====
-- gca/jobs/queue.py: the queue facade over the store. `stamp` is what `utc_now()` returns, `now` what
-- `time.time()` returns, and `race` what other connections commit between a load and the save.
use generic_coding_agent.Prelude.{
  ℕ, ◌+◌, String, Bool, true, false, not, Option, none, if◌then◌else◌,
}
use generic_coding_agent.Prelude.Int.{ℤ, pos, pos_part, leb_ℤ}
use generic_coding_agent.Result.{Result, ok, err, Error}
use generic_coding_agent.Jobs.Models.{Job, JobStatus, status_eq}
use generic_coding_agent.Jobs.Lifecycle.{transition_job}
use generic_coding_agent.Jobs.Store.Table.{Db, load}
use generic_coding_agent.Jobs.Store.Save.{save}
use generic_coding_agent.Jobs.Store.Claim
use generic_coding_agent.Jobs.Store.Lease.{requeue_expired}

-- The copy that `enqueue` saves.
unfoldable pub queued_copy : ℕ → ℕ → ℤ → Job → Result Job
queued_copy stamp now delay job =
    elim (if not (status_eq job.status JobStatus.queued)
      then transition_job stamp job JobStatus.queued ""
      else ok job) [
        | err e ↦ err e
        | ok moved ↦ ok (record moved { not_before = now + pos_part delay })
      ]

unfoldable pub enqueue : ℕ → ℕ → String → ℤ → (Db → Db) → Db → Result Job × Db
enqueue stamp now job_id delay race db =
    if not (leb_ℤ (pos 0) delay)
    then (err (Error.value_error "delay_seconds must not be negative"), db)
    else elim (load job_id db) [
      | err e ↦ (err e, db)
      | ok job ↦ elim (queued_copy stamp now delay job) [
        | err e ↦ (err e, db)
        | ok copy ↦ save stamp copy (race db)
      ]
    ]

-- The expired leases are returned in a transaction of their own, before the claim.
unfoldable pub claim : ℕ → ℕ → String → ℤ → (Db → Db) → Db → Result (Option Job) × Db
claim stamp now worker lease race db =
    Claim.claim_next stamp now worker lease (race (requeue_expired stamp now db).1)

unfoldable pub claim_job : ℕ → ℕ → String → String → ℤ → (Db → Db) → Db → Result (Option Job) × Db
claim_job stamp now job_id worker lease race db =
    Claim.claim stamp now job_id worker lease (race (requeue_expired stamp now db).1)

-- The states that `ack` refuses.
abbrev pub is_unfinished : JobStatus → Bool
is_unfinished JobStatus.queued = true
is_unfinished JobStatus.running = true
is_unfinished JobStatus.publishing = true
is_unfinished _ = false

unfoldable pub ack : ℕ → Job → Db → Result Job × Db
ack stamp job db =
    if is_unfinished job.status
    then (err (Error.not_acknowledged job.status), db)
    else save stamp (record job { lease_owner = none; lease_expires_at = none }) db

unfoldable pub nack : ℕ → ℕ → Job → Bool → ℤ → String → Db → Result Job × Db
nack stamp now job requeue delay error db =
    elim (transition_job stamp job (if requeue then JobStatus.queued else JobStatus.failed) error) [
      | err e ↦ (err e, db)
      | ok moved ↦ save stamp (record moved { not_before = now + pos_part delay }) db
    ]
