-- ===== src/Jobs/Store/Preserves/Leases.antt =====
-- Expiry, renewal and release of leases keep the invariant: they take activity away, or change only
-- what the version does not guard.
use mathlib.Core.Bool.{false≢true}
use generic_coding_agent.Prelude.{
  ℕ, ◌+◌, ◌≡◌, refl, sym, ◌∙◌, ap, subst, ◌⊎◌, inl, inr, suc, String, Bool, true, false, ◌&&◌, none,
  some, List, [], ◌∷◌, arith, In, In-keep_if, keep_if, Bool-cases, Option-cases, both_true, ◌==◌,
}
use generic_coding_agent.Prelude.Int.{ℤ, pos, pos_part, leb_ℤ}
use generic_coding_agent.Prelude.Text.{str_eq, opt_eq, eq_iff}
use generic_coding_agent.Result.{ok, err, Error}
use generic_coding_agent.Jobs.Models.{Job, is_active}
use generic_coding_agent.Jobs.Store.Table.{Row, Db, update_where, rowcount, first, at_version}
use generic_coding_agent.Jobs.Store.WellFormed.{Moved, IsWellFormed, Distinct-rows}
use generic_coding_agent.Jobs.Store.Handles.{Fits, Knows, own-Fits, known_row, first-In, first-none}
use generic_coding_agent.Jobs.Store.Rowcount.{rowcount-one}
use generic_coding_agent.Jobs.Store.Updates.{
  at_version-eq, at_version_self, holds_lease-eq, returned_row-Moved, retry_status_calm,
  touched_row-Moved,
}
use generic_coding_agent.Jobs.Store.Preserves.{Follows, Follows-refl, Follows-trans, update-Follows}
use generic_coding_agent.Jobs.Store.Lease.{
  taken_back, returned_row, is_expired, expired_job, requeue_rows, requeue_expired, holds_lease,
  touched_row, touch_lease, released_job, release_lease,
}

own-Knows : (rows : List Row) → IsWellFormed rows → (r : Row) → In r rows → Knows r.job rows
own-Knows rows w r i = (r, i, own-Fits r (w.coherent r i))

-- A copy that fits a row still does when it is taken back from its worker.
pub taken_back-Fits :
    (stamp : ℕ) (a b : String) (h : Job) (r : Row) → Fits h r → Fits (taken_back stamp a b h) r
unfolding taken_back
taken_back-Fits stamp a b h r f = record {
  fits_id = f.fits_id;
  fits_url = f.fits_url;
  behind = f.behind;
  current = λ _ active. absurd (false≢true (sym (retry_status_calm h) ∙ active));
}

-- An UPDATE by id and version that stores a job taken back.
module _ (stamp : ℕ) (a b : String) (h : Job) (rows : List Row) (w : IsWellFormed rows)
    (k : Knows h rows) where
  abbrev back : Job
  back = taken_back stamp a b h

  returned-Moved :
      (r : Row) → In r rows → at_version h.id h.version r ≡ true → Moved r (returned_row back r)
  returned-Moved r i t =
      let (id, version) = at_version-eq h.id h.version r t in
      let fits = taken_back-Fits stamp a b h r (known_row h rows r w k i id) in
      unfold taken_back in returned_row-Moved back r fits version refl

  returned_calm :
      (r : Row) → is_active (returned_row back r).status ≡ true → is_active r.status ≡ true
  unfolding returned_row taken_back
  returned_calm r active = absurd (false≢true (sym (retry_status_calm h) ∙ active))

  returned-Follows :
      Follows rows (update_where (at_version h.id h.version) (returned_row back) rows)
  returned-Follows =
      update-Follows (at_version h.id h.version) (returned_row back) rows w returned-Moved
        (λ r i t. returned_calm r)

requeue_rows-Follows :
    (stamp : ℕ) (found rows : List Row) (count : ℕ)
    → IsWellFormed rows
    → ((s : Row) → In s found → Knows s.job rows)
    → Follows rows (requeue_rows stamp found (rows, count)).0
unfolding requeue_rows expired_job
requeue_rows-Follows stamp [] rows count w k = Follows-refl rows w
requeue_rows-Follows stamp (s ∷ rest) rows count w k =
    let one =
      returned-Follows stamp s.job.last_error "worker lease expired after final attempt" s.job rows
        w (k s (inl refl)) in
    Follows-trans one (
      requeue_rows-Follows stamp rest _ (count + rowcount (at_version s.job.id s.job.version) rows)
        one.formed (λ t i. one.remembers t.job (k t (inr i))))

pub requeue_expired-Follows :
    (stamp now : ℕ) (db : Db)
    → IsWellFormed db.jobs
    → Follows db.jobs (requeue_expired stamp now db).1.jobs
unfolding requeue_expired
requeue_expired-Follows stamp now db w =
    requeue_rows-Follows stamp (keep_if (is_expired now) db.jobs) db.jobs 0 w
      (λ s i. own-Knows db.jobs w s (In-keep_if (is_expired now) s db.jobs i).0)

module _ (stamp now : ℕ) (job_id worker : String) (lease : ℤ) (db : Db)
    (w : IsWellFormed db.jobs) where
  touched-Moved :
      (s : Row)
      → In s db.jobs
      → holds_lease job_id worker s ≡ true
      → (r : Row) → In r db.jobs
      → holds_lease job_id worker r ≡ true
      → Moved r (touched_row stamp (now + pos_part lease) s.job r)
  touched-Moved s i t r j u =
      let same : r ≡ s =
        Distinct-rows db.jobs r s w.distinct j i
          ((holds_lease-eq job_id worker r u).0 ∙ sym (holds_lease-eq job_id worker s t).0) in
      rw same (touched_row-Moved stamp (now + pos_part lease) s (w.coherent s i))

  touched-Follows :
      (s : Row)
      → In s db.jobs
      → holds_lease job_id worker s ≡ true
      → Follows db.jobs (
          update_where
            (holds_lease job_id worker)
            (touched_row stamp (now + pos_part lease) s.job)
            db.jobs)
  touched-Follows s i t =
      update-Follows (holds_lease job_id worker) (touched_row stamp (now + pos_part lease) s.job)
        db.jobs w (touched-Moved s i t) (λ r j u _. (holds_lease-eq job_id worker r u).2)

  -- A renewal with a positive length finds no row that the worker holds and raises, or renews the
  -- one that it holds.
  pub touch_lease_cases :
      leb_ℤ lease (pos 0) ≡ false
      → ((touch_lease stamp now job_id worker lease db ≡ (err Error.concurrency, db))
          × ((r : Row) → In r db.jobs → holds_lease job_id worker r ≡ false))
        ⊎ ((s : Row) × In s db.jobs
            × (holds_lease job_id worker s ≡ true)
            × (touch_lease stamp now job_id worker lease db ≡ (
              ok tt,
              record db {
                jobs =
                    update_where
                      (holds_lease job_id worker)
                      (touched_row stamp (now + pos_part lease) s.job)
                      db.jobs;
              },
            )))
  unfolding touch_lease
  touch_lease_cases positive =
      elim (Option-cases (first (keep_if (holds_lease job_id worker) db.jobs))) [
        | inl e ↦ inl (
          rw (positive, e, touch_lease),
          λ r j. first-none (holds_lease job_id worker) db.jobs r e j,
        )
        | inr (s, e) ↦
            let (i, t) = first-In (holds_lease job_id worker) db.jobs s e in
            let one : (rowcount (holds_lease job_id worker) db.jobs == 1) ≡ true =
              rowcount-one (holds_lease job_id worker) job_id db.jobs s w.distinct
                (λ r j u. (holds_lease-eq job_id worker r u).0) i t in
            inr (s, i, t, rw (positive, e, one, touch_lease))
      ]

  pub touch_lease-Follows : Follows db.jobs (touch_lease stamp now job_id worker lease db).1.jobs
  touch_lease-Follows = elim (Bool-cases (leb_ℤ lease (pos 0))) [
    | inl bad ↦
        let refused : (touch_lease stamp now job_id worker lease db).1 ≡ db =
          unfold touch_lease in rw (bad, touch_lease) in
        rw refused (Follows-refl db.jobs w)
    | inr positive ↦ elim (touch_lease_cases positive) [
      | inl (lost, _) ↦ rw lost (Follows-refl db.jobs w)
      | inr (s, i, t, renewed) ↦ rw renewed (touched-Follows s i t)
    ]
  ]

module _ (stamp : ℕ) (job_id worker : String) (db : Db) (w : IsWellFormed db.jobs) where
  -- The WHERE clause of the release of the row `s`.
  abbrev held_version : Row → Row → Bool
  held_version s r = at_version s.job.id s.job.version r && opt_eq r.lease_owner (some worker)

  abbrev released : Row → Job
  released s = released_job stamp s.job

  released-Moved :
      (s : Row)
      → In s db.jobs
      → (r : Row) → In r db.jobs
      → held_version s r ≡ true
      → Moved r (returned_row (released s) r)
  unfolding released_job
  released-Moved s i r j t =
      returned-Moved stamp "worker released lease on shutdown"
        "worker released lease after final attempt" s.job db.jobs w (own-Knows db.jobs w s i) r j
        (both_true (at_version s.job.id s.job.version r) _ t).0

  released-Follows :
      (s : Row)
      → In s db.jobs
      → Follows db.jobs (update_where (held_version s) (returned_row (released s)) db.jobs)
  unfolding released_job
  released-Follows s i =
      update-Follows (held_version s) (returned_row (released s)) db.jobs w (released-Moved s i)
        (λ r j t.
          returned_calm stamp "worker released lease on shutdown"
            "worker released lease after final attempt" s.job db.jobs w (own-Knows db.jobs w s i) r)

  -- Whether the row `s` is the worker's to release.
  abbrev is_held : Row → Bool
  is_held s = is_active s.job.status && opt_eq s.job.lease_owner (some worker)

  abbrev Idle : Type 0
  Idle =
      (release_lease stamp job_id worker db ≡ (none, db))
      × ((r : Row) → In r db.jobs → r.id ≡ job_id → is_held r ≡ false)

  abbrev Returns : Row → Type 0
  Returns s = release_lease stamp job_id worker db ≡ (
    some (record (released s) { version = suc s.job.version }),
    record db { jobs = update_where (held_version s) (returned_row (released s)) db.jobs },
  )

  -- The row that a release finds is the only one of its id.
  found_row :
      (s : Row)
      → first (keep_if (λ (r : Row). str_eq r.id job_id) db.jobs) ≡ some s
      → In s db.jobs
        × (s.id ≡ job_id)
        × ((r : Row) → In r db.jobs → r.id ≡ job_id → is_held r ≡ is_held s)
  found_row s e =
      let (i, t) = first-In (λ (r : Row). str_eq r.id job_id) db.jobs s e in
      let named = (eq_iff s.id job_id).0 t in
      (
        i,
        named,
        λ r j same. ap is_held (Distinct-rows db.jobs r s w.distinct j i (same ∙ sym named)),
      )

  held_case :
      (s : Row)
      → first (keep_if (λ (r : Row). str_eq r.id job_id) db.jobs) ≡ some s
      → is_active s.job.status ≡ true
      → opt_eq s.job.lease_owner (some worker) ≡ true
      → Returns s
  unfolding release_lease
  held_case s e active owned =
      let (i, _, _) = found_row s e in
      let c = w.coherent s i in
      let one : (rowcount (held_version s) db.jobs == 1) ≡ true =
        rowcount-one (held_version s) s.job.id db.jobs s w.distinct
          (λ r j t.
            (at_version-eq s.job.id s.job.version r
              (both_true (at_version s.job.id s.job.version r) _ t).0).0)
          i
          (rw (at_version_self s c)
            (subst (λ o. opt_eq o (some worker) ≡ true) c.same_owner owned)) in
      rw (e, active, owned, one, release_lease)

  -- A release does nothing, or returns the one row of that id to the queue.
  pub release_lease_cases :
      Idle ⊎ ((s : Row) × In s db.jobs × (s.id ≡ job_id) × (is_held s ≡ true) × Returns s)
  unfolding release_lease
  release_lease_cases =
      elim (Option-cases (first (keep_if (λ (r : Row). str_eq r.id job_id) db.jobs))) [
        | inl e ↦ inl (
          rw (e, release_lease),
          λ r j same. absurd (
              false≢true (
                sym (first-none (λ (x : Row). str_eq x.id job_id) db.jobs r e j)
                ∙ (eq_iff r.id job_id).1 same)),
        )
        | inr (s, e) ↦
            let (i, named, all_same) = found_row s e in
            elim (Bool-cases (is_active s.job.status)) [
              | inr idle ↦
                  inl (rw (e, idle, release_lease), λ r j same. all_same r j same ∙ ground arith)
              | inl active ↦ elim (Bool-cases (opt_eq s.job.lease_owner (some worker))) [
                | inr other ↦ inl (
                  rw (e, active, other, release_lease),
                  λ r j same. all_same r j same ∙ ground arith,
                )
                | inl owned ↦ inr (s, i, named, rw (active, owned), held_case s e active owned)
              ]
            ]
      ]

  pub release_lease-Follows : Follows db.jobs (release_lease stamp job_id worker db).1.jobs
  release_lease-Follows = elim release_lease_cases [
    | inl (idle, _) ↦ rw idle (Follows-refl db.jobs w)
    | inr (s, i, _, _, returns) ↦ rw returns (released-Follows s i)
  ]
