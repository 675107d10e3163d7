-- ===== src/Jobs/Store/Fencing.antt =====
-- When a lease has run out and the job was returned, its former worker can neither renew nor save.
use generic_coding_agent.Prelude.{
  ℕ, suc, ◌≡◌, subst, sym, ◌∙◌, ap, inl, inr, String, true, false, Option, none, some, arith, In,
  In-map, if◌then◌else◌, Bool-cases,
}
use generic_coding_agent.Prelude.Int.{ℤ, pos, leb_ℤ}
use generic_coding_agent.Result.{err, Error}
use generic_coding_agent.Jobs.Models.{Job}
use generic_coding_agent.Jobs.Store.Table.{Row, Db}
use generic_coding_agent.Jobs.Store.WellFormed.{IsWellFormed, Distinct-rows}
use generic_coding_agent.Jobs.Store.Updates.{at_version-eq, holds_lease-eq}
use generic_coding_agent.Jobs.Store.Preserves.Leases.{requeue_expired-Follows, touch_lease_cases}
use generic_coding_agent.Jobs.Store.Expiry.{returned, requeue_expired_lem}
use generic_coding_agent.Jobs.Store.Saving.{save_stale}
use generic_coding_agent.Jobs.Store.Save.{save}
use generic_coding_agent.Jobs.Store.Lease.{
  is_expired, returned_row, expired_job, requeue_expired, touch_lease,
}

module _ (stamp now : ℕ) (db : Db) (w : IsWellFormed db.jobs) (s : Row) (i : In s db.jobs)
    (gone : is_expired now s ≡ true) where
  -- The one row of that id after the expiry.
  returned_to :
      (r : Row) → In r (requeue_expired stamp now db).1.jobs → r.id ≡ s.id → r ≡ returned stamp s
  unfolding returned_row
  returned_to r j same =
      let after = λ (x : Row). if is_expired now x then returned stamp x else x in
      let (q, k, e) =
        In-map after r db.jobs
          (subst (λ (d : Db). In r d.jobs) (requeue_expired_lem stamp now db w) j) in
      let kept : (after q).id ≡ q.id = elim (Bool-cases (is_expired now q)) [
        | inl t ↦ rw t
        | inr f ↦ rw f
      ] in
      let found : q ≡ s =
        Distinct-rows db.jobs q s w.distinct k i
          (sym kept ∙ ap (λ (x : Row). x.id) (sym e) ∙ same) in
      let collected : after s ≡ returned stamp s = rw gone in e ∙ ap after found ∙ collected

  -- What the returned row holds.
  returned_fields :
      (r : Row)
      → In r (requeue_expired stamp now db).1.jobs
      → r.id ≡ s.id
      → (r.lease_owner ≡ none) × (r.version ≡ suc s.version)
  unfolding returned_row expired_job
  returned_fields r j same =
      let e = returned_to r j same in
      (
        ap (λ (x : Row). x.lease_owner) e,
        ap (λ (x : Row). x.version) e ∙ ap suc (w.coherent s i).same_version,
      )

  -- In a jobs table that is well formed, as every sequence of the steps of
  -- Jobs.Interleaving leaves it, a worker whose lease has run out and was collected can neither renew it nor save the copy that it
  -- was working on: both raise a concurrency error and write nothing.
  pub expired_worker_fenced :
      (stamp' now' later : ℕ) (worker : String) (lease : ℤ) (job : Job)
      → leb_ℤ lease (pos 0) ≡ false
      → job.id ≡ s.id
      → job.version ≡ s.version
      → let db' = (requeue_expired stamp now db).1 in
        (touch_lease stamp' now' s.id worker lease db' ≡ (err Error.concurrency, db'))
        × (save later job db' ≡ (err Error.concurrency, db'))
  expired_worker_fenced stamp' now' later worker lease job positive id version = (
    elim (touch_lease_cases stamp' now' s.id worker lease (requeue_expired stamp now db).1
        (requeue_expired-Follows stamp now db w).formed positive) [
          | inl (lost, _) ↦ lost
          | inr (x, k, t, _) ↦
              let (same, owned, _) = holds_lease-eq s.id worker x t in
              absurd (unowned (sym (returned_fields x k same).0 ∙ owned))
        ],
    save_stale later job (requeue_expired stamp now db).1 λ r k t.
        let (rid, rversion) = at_version-eq job.id job.version r t in
        omega (arith, (returned_fields r k (rid ∙ id)).1, rversion, version),
  )
    where
      unowned : ◌≡◌ {A = Option String} none (some worker) → ⊥
      unowned e = cc
