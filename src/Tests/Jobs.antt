-- ===== src/Tests/Jobs.antt =====
-- A database with one job, before and after a worker claims it.
use generic_coding_agent.Prelude.{
  ◌++◌, any, ◌≡◌, refl, sym, subst, ap, ◌∙◌, true, false, none, some, [], ◌∷◌, In, ◌⊎◌, inl, inr,
  ◌<◌, ◌≤◌, arith, if◌then◌else◌, map,
}
use generic_coding_agent.Prelude.Int.{pos}
use generic_coding_agent.Prelude.Text.{is_blank}
use generic_coding_agent.Result.{ok, err, Error}
use generic_coding_agent.Jobs.Models.{JobStatus, RunSpec, Job}
use generic_coding_agent.Jobs.Lifecycle.{transition_job, retry_delay_seconds}
use generic_coding_agent.Jobs.Lifecycle.Transitions.{terminal_states_final}
use generic_coding_agent.Jobs.Lifecycle.Retries.{retry_delay_seconds_bounds}
use generic_coding_agent.Jobs.Store.Table.{Row, Db, row_of, collides}
use generic_coding_agent.Jobs.Store.WellFormed.{
  IsWellFormed, IsCoherent, IsExclusive, HasUniqueKeys,
}
use generic_coding_agent.Jobs.Store.Create.{new_job, insert_job}
use generic_coding_agent.Jobs.Store.Save.{save, saved_job}
use generic_coding_agent.Jobs.Store.Claim.{
  claim_next, claimed_job, claim_arguments, claimable, claim_selected, claim_row, claimed_row,
  oldest, is_busy,
}
use generic_coding_agent.Jobs.Store.Lease.{requeue_expired, touch_lease, is_expired}
use generic_coding_agent.Jobs.Store.Claiming.{Wins, claim_next_cases}
use generic_coding_agent.Jobs.Store.Fencing.{expired_worker_fenced}
use generic_coding_agent.Jobs.Store.Saving.{first_writer_wins, heartbeat_keeps_copies}
use generic_coding_agent.Jobs.Store.Expiry.{returned, requeue_expired_lem}
use generic_coding_agent.Jobs.Interleaving.{
  System, Reach, start, here, next, insert, insert_turn, claim_any,
}
use generic_coding_agent.Issues.Work.Jobs.{turn_row, turn_key, is_taken}
use generic_coding_agent.Tests.Repairs.{generation, queued_turn}
use generic_coding_agent.Issues.Remediation.{remediation_turn}
use generic_coding_agent.Tests.Outbox.{session}
use generic_coding_agent.Jobs.Exclusion.{repository-IsExclusive, rows-IsCoherent}

abbrev spec : RunSpec
spec = record {
  task = "Fix the parser";
  repository = record { url = "https://github.com/o/r.git"; ref = "main"; shallow_depth = pos 1 };
  workflow = none;
  max_steps = none;
  publication = none;
  labels = [];
}

abbrev job : Job
job = new_job 5 "job1" spec (some "key1") 3

-- The job as worker "w" holds it, until the time 70.
abbrev held : Job
held = claimed_job 10 10 "w" 60 job

abbrev queued_db : Db
queued_db = record { jobs = row_of job ∷ []; heartbeats = [] }

abbrev held_db : Db
held_db = record { jobs = row_of held ∷ []; heartbeats = [] }

alone : (r : Row) → IsCoherent r → IsWellFormed (r ∷ [])
alone r c = record {
  distinct = (λ s i. absurd i, tt);
  coherent = λ s i. elim i [ inl e ↦ subst IsCoherent (sym e) c | inr j ↦ absurd j ];
  unique_keys = λ a b key i j. λ e f. elim i [
    | inl p ↦ elim j [ inl q ↦ ap (λ (x : Row). x.id) (p ∙ sym q) | inr k ↦ absurd k ]
    | inr k ↦ absurd k
  ];
  exclusive = λ a b i j. λ e f u. elim i [
    | inl p ↦ elim j [ inl q ↦ ap (λ (x : Row). x.id) (p ∙ sym q) | inr k ↦ absurd k ]
    | inr k ↦ absurd k
  ];
}

row_of-IsCoherent : (j : Job) → IsCoherent (row_of j)
unfolding row_of
row_of-IsCoherent j = record {
  same_id = refl;
  same_url = refl;
  same_status = refl;
  same_version = refl;
  same_owner = refl;
}

queued_db-IsWellFormed : IsWellFormed queued_db.jobs
queued_db-IsWellFormed = alone (row_of job) (row_of-IsCoherent job)

held_db-IsWellFormed : IsWellFormed held_db.jobs
held_db-IsWellFormed = alone (row_of held) (row_of-IsCoherent held)

-- One creation, and a claim of what was created.
abbrev claimed_system : System
claimed_system = record {
  db =
      (claim_next 10 10 "w" (pos 60)
        (insert_job spec (some "key1") (new_job 5 "job1" spec (some "key1") 3) start.db).1).1;
  copies = [];
}

claimed_system-Reach : Reach start claimed_system
claimed_system-Reach =
    next (next here (insert 5 "job1" spec (some "key1") 3)) (claim_any 10 10 "w" (pos 60))

-- Then a turn of an issue session inserts its job.
abbrev turn_system : System
turn_system = record claimed_system {
  db = record claimed_system.db {
    jobs =
        claimed_system.db.jobs
        ++ turn_row (λ n. "9") 12 "job2" queued_turn session generation "Repair" ∷ [];
  };
}

turn_free : any (is_taken "job2" (turn_key queued_turn)) claimed_system.db.jobs ≡ false
unfolding row_of claimed_job claimed_row new_job insert_job claim_next claim_arguments
    claim_selected claim_row oldest claimable is_busy is_blank collides is_taken remediation_turn
turn_free = refl

turn_system-Reach : Reach start turn_system
turn_system-Reach =
    next claimed_system-Reach
      (insert_turn (λ n. "9") 12 "job2" queued_turn session generation "Repair" turn_free)

repository-IsExclusive_example : IsExclusive turn_system.db.jobs × HasUniqueKeys turn_system.db.jobs
repository-IsExclusive_example = repository-IsExclusive turn_system-Reach

rows-IsCoherent_example : IsCoherent (row_of held)
unfolding row_of claimed_job claimed_row new_job insert_job claim_next claim_arguments
    claim_selected claim_row oldest claimable is_busy is_blank collides
rows-IsCoherent_example = rows-IsCoherent claimed_system-Reach (row_of held) (inl refl)

-- The worker's lease ends at 70.
expired_worker_fenced_example :
    (touch_lease 100 100 (row_of held).id "w" (pos 60) (requeue_expired 90 90 held_db).1
      ≡ (err Error.concurrency, (requeue_expired 90 90 held_db).1))
    × (save 100 held (requeue_expired 90 90 held_db).1
        ≡ (err Error.concurrency, (requeue_expired 90 90 held_db).1))
unfolding row_of claimed_job new_job is_expired
expired_worker_fenced_example =
    expired_worker_fenced 90 90 held_db held_db-IsWellFormed (row_of held) (inl refl) refl 100 100
      100 "w" (pos 60) held refl refl refl

first_writer_wins_example :
    save 30 (record held { last_error = "other" }) (save 20 held held_db).1
    ≡ (err Error.concurrency, (save 20 held held_db).1)
unfolding row_of claimed_job new_job save saved_job
first_writer_wins_example =
    first_writer_wins 20 30 held (record held { last_error = "other" }) (saved_job 20 held) held_db
      refl refl refl

heartbeat_keeps_copies_example :
    (save 30 held (touch_lease 20 20 "job1" "w" (pos 60) held_db).1).0 ≡ (save 30 held held_db).0
heartbeat_keeps_copies_example = heartbeat_keeps_copies 20 20 30 "job1" "w" (pos 60) held held_db

requeue_expired_lem_example :
    (requeue_expired 90 90 held_db).1
    ≡ record held_db { jobs = map (λ r. if is_expired 90 r then returned 90 r else r) held_db.jobs }
requeue_expired_lem_example = requeue_expired_lem 90 90 held_db held_db-IsWellFormed

claim_next_cases_example :
    ((claim_next 10 10 "w" (pos 60) queued_db ≡ (ok none, queued_db))
      × ((r : Row) → In r queued_db.jobs → claimable 10 queued_db.jobs r ≡ false))
    ⊎ ((q : Row) × In q queued_db.jobs
        × (claimable 10 queued_db.jobs q ≡ true)
        × ((r : Row)
            → In r queued_db.jobs
            → claimable 10 queued_db.jobs r ≡ true
            → q.created_at ≤ r.created_at)
        × Wins 10 10 "w"
            (pos 60)
            queued_db
            queued_db-IsWellFormed
            q
            (claim_next 10 10 "w" (pos 60) queued_db))
unfolding claim_arguments is_blank
claim_next_cases_example = claim_next_cases 10 10 "w" (pos 60) queued_db queued_db-IsWellFormed refl

terminal_states_final_example :
    transition_job 9 (record job { status = JobStatus.completed }) JobStatus.queued ""
    ≡ err (Error.invalid_transition JobStatus.completed JobStatus.queued)
terminal_states_final_example =
    terminal_states_final 9 (record job { status = JobStatus.completed }) JobStatus.queued ""
      (inl refl) (λ e. ground (arith, e))

retry_delay_seconds_bounds_example :
    (retry_delay_seconds 1 ≤ retry_delay_seconds 4)
    × (30 ≤ retry_delay_seconds 1)
    × (retry_delay_seconds 4 ≤ 600)
    × ((4 < 3) ⊎ (retry_delay_seconds 4 ≡ 600))
retry_delay_seconds_bounds_example = retry_delay_seconds_bounds 1 4 (omega arith)
