-- ===== src/Jobs/Store/Saving.antt =====
-- Optimistic concurrency: of the copies at one version one is saved, a heartbeat spoils no copy, and a
-- worker whose lease was taken away writes nothing more.
use generic_coding_agent.Prelude.{
  ℕ, ◌≡◌, refl, subst, sym, ◌∙◌, ap, inl, inr, String, Bool, true, List, [], ◌∷◌, arith, In, In-map,
  if◌then◌else◌, Bool-cases, Option-cases, keep_if, ◌+◌, ◌==◌,
}
use generic_coding_agent.Prelude.Int.{ℤ, pos, pos_part, leb_ℤ}
use generic_coding_agent.Result.{ok, err, Error}
use generic_coding_agent.Jobs.Models.{Job}
use generic_coding_agent.Jobs.Store.Table.{Row, Db, first, at_version, rowcount, update_where}
use generic_coding_agent.Jobs.Store.Rowcount.{rowcount-zero, update-none}
use generic_coding_agent.Jobs.Store.Updates.{at_version-eq}
use generic_coding_agent.Prelude.Text.{eq_iff}
use generic_coding_agent.Jobs.Store.Save.{saved_job, saved_row, save}
use generic_coding_agent.Jobs.Store.Lease.{touched_row, holds_lease, touch_lease}

-- A copy whose row is not at its version is refused, and nothing is written.
pub save_stale :
    (now : ℕ) (job : Job) (db : Db)
    → ((r : Row) → In r db.jobs → at_version job.id job.version r ≡ true → ⊥)
    → save now job db ≡ (err Error.concurrency, db)
unfolding save
save_stale now job db never =
    let test = at_version job.id job.version in
    let zero_rows : rowcount test db.jobs ≡ 0 = rowcount-zero test db.jobs never in
    let same : update_where test (saved_row now job) db.jobs ≡ db.jobs =
      update-none test (saved_row now job) db.jobs never in
    rw zero_rows (ap (λ (rows : List Row). (err Error.concurrency, record db { jobs = rows })) same)

-- A save that succeeds has written the rows of its id and version, and no other.
save_wrote :
    (now : ℕ) (job saved : Job) (db : Db)
    → (save now job db).0 ≡ ok saved
    → (save now job db).1.jobs
      ≡ update_where (at_version job.id job.version) (saved_row now job) db.jobs
unfolding save
save_wrote now job saved db h =
    elim (Bool-cases (rowcount (at_version job.id job.version) db.jobs == 1)) [
      | inl e ↦ rw e
      | inr e ↦ rw e
    ]

-- After the save no row of that id is at the old version.
old_version_gone :
    (now : ℕ) (job : Job) (q : Row)
    → let r = if at_version job.id job.version q then saved_row now job q else q in
      r.id ≡ job.id → r.version ≡ job.version → ⊥
unfolding saved_row
old_version_gone now job q = elim (Bool-cases (at_version job.id job.version q)) [
  | inl t ↦ rw t (λ id version. omega (arith, version))
  | inr f ↦ rw f (λ id version. ground (arith, eq_iff q.id job.id))
]

-- Of two copies of a job at one version, when one has been saved the other is refused with a
-- concurrency error and writes nothing.
pub first_writer_wins :
    (now later : ℕ) (job other saved : Job) (db : Db)
    → (save now job db).0 ≡ ok saved
    → other.id ≡ job.id
    → other.version ≡ job.version
    → save later other (save now job db).1 ≡ (err Error.concurrency, (save now job db).1)
first_writer_wins now later job other saved db h id version =
    save_stale later other (save now job db).1 λ r i t.
      let after = λ (x : Row). if at_version job.id job.version x then saved_row now job x else x in
      let (q, _, e) = In-map after r db.jobs (subst (In r) (save_wrote now job saved db h) i) in
      let (rid, rversion) = at_version-eq other.id other.version r t in
      old_version_gone now job q (ap (λ (x : Row). x.id) (sym e) ∙ rid ∙ id)
        (ap (λ (x : Row). x.version) (sym e) ∙ rversion ∙ version)

rowcount-update :
    (test : Row → Bool) (where_ : Row → Bool) (change : Row → Row) (rows : List Row)
    → ((r : Row) → test (change r) ≡ test r)
    → rowcount test (update_where where_ change rows) ≡ rowcount test rows
rowcount-update test where_ change [] same = refl
rowcount-update test where_ change (r ∷ rs) same =
    ground (arith, same r, rowcount-update test where_ change rs same)

save_result :
    (now : ℕ) (job : Job) (db : Db)
    → (save now job db).0 ≡ (
        if rowcount (at_version job.id job.version) db.jobs == 1
        then ok (saved_job now job)
        else err Error.concurrency)
unfolding save
save_result now job db = elim (Bool-cases (rowcount (at_version job.id job.version) db.jobs == 1)) [
  | inl e ↦ rw e
  | inr e ↦ rw e
]

touch-rowcount :
    (stamp now : ℕ) (job_id worker : String) (lease : ℤ) (job : Job) (db : Db)
    → rowcount (at_version job.id job.version) (touch_lease stamp now job_id worker lease db).1.jobs
      ≡ rowcount (at_version job.id job.version) db.jobs
unfolding touch_lease touched_row
touch-rowcount stamp now job_id worker lease job db = elim (Bool-cases (leb_ℤ lease (pos 0))) [
  | inl bad ↦ rw (bad, touch_lease)
  | inr good ↦ elim (Option-cases (first (keep_if (holds_lease job_id worker) db.jobs))) [
    | inl lost ↦ rw (good, lost, touch_lease)
    | inr (s, found) ↦ elim (Bool-cases (rowcount (holds_lease job_id worker) db.jobs == 1)) [
      | inl one ↦
          rw (good, found, one, touch_lease)
            (rowcount-update (at_version job.id job.version) (holds_lease job_id worker)
              (touched_row stamp (now + pos_part lease) s.job) db.jobs (λ r. refl))
      | inr more ↦ rw (good, found, more, touch_lease)
    ]
  ]
]

-- A renewal of a lease, of whichever job and by whichever worker, changes nothing in whether a copy
-- can be saved: a worker's own heartbeats do not make its copy stale.
pub heartbeat_keeps_copies :
    (stamp now later : ℕ) (job_id worker : String) (lease : ℤ) (job : Job) (db : Db)
    → (save later job (touch_lease stamp now job_id worker lease db).1).0 ≡ (save later job db).0
heartbeat_keeps_copies stamp now later job_id worker lease job db =
    save_result later job (touch_lease stamp now job_id worker lease db).1
    ∙ ap (λ (n : ℕ). if n == 1 then ok (saved_job later job) else err Error.concurrency)
        (touch-rowcount stamp now job_id worker lease job db)
    ∙ sym (save_result later job db)
