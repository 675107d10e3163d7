-- ===== src/Jobs/Store/Expiry.antt =====
-- What `requeue_expired` writes: the loop of single updates returns each expired row, and no other.
use mathlib.Core.Bool.{false≢true}
use generic_coding_agent.Prelude.{
  ℕ, ◌+◌, ◌≡◌, refl, sym, ◌∙◌, ap, inl, inr, true, List, [], ◌∷◌, map, arith, In, In-keep_if,
  keep_if-In, keep_if, if◌then◌else◌, Bool-cases, map-eq, map-id, map-compose,
}
use generic_coding_agent.Jobs.Store.Table.{Row, Db, at_version, rowcount}
use generic_coding_agent.Jobs.Store.WellFormed.{IsWellFormed, Distinct-rows}
use generic_coding_agent.Jobs.Store.Updates.{at_version-eq, at_version_self}
use generic_coding_agent.Jobs.Store.Lease.{
  returned_row, expired_job, is_expired, requeue_rows, requeue_expired,
}

module _ (stamp : ℕ) where
  abbrev pub returned : Row → Row
  returned r = returned_row (expired_job stamp r.job) r

  abbrev one : Row → Row → Row
  one s r =
      if at_version s.job.id s.job.version r then returned_row (expired_job stamp s.job) r else r

  -- One row through all the updates of the loop.
  through : List Row → Row → Row
  through [] r = r
  through (s ∷ rest) r = through rest (one s r)

  requeue_rows-map :
      (found rows : List Row) (count : ℕ)
      → (requeue_rows stamp found (rows, count)).0 ≡ map (through found) rows
  unfolding requeue_rows through
  requeue_rows-map [] rows count = sym (map-id (λ r. r) rows (λ r i. refl))
  requeue_rows-map (s ∷ rest) rows count =
      requeue_rows-map rest (map (one s) rows)
        (count + rowcount (at_version s.job.id s.job.version) rows)
      ∙ map-compose (through rest) (one s) rows

  through_miss :
      (found : List Row) (r : Row)
      → ((s : Row) → In s found → at_version s.job.id s.job.version r ≡ true → ⊥)
      → through found r ≡ r
  unfolding through
  through_miss [] r never = refl
  through_miss (s ∷ rest) r never = elim (Bool-cases (at_version s.job.id s.job.version r)) [
    | inl t ↦ absurd (never s (inl refl) t)
    | inr f ↦ rw f (through_miss rest r (λ x i. never x (inr i)))
  ]

  module _ (rows : List Row) (w : IsWellFormed rows) where
    selects :
        (s r : Row) → In s rows → In r rows → at_version s.job.id s.job.version r ≡ true → s ≡ r
    selects s r i j t =
        Distinct-rows rows s r w.distinct i j
          (sym ((at_version-eq s.job.id s.job.version r t).0 ∙ (w.coherent s i).same_id))

    -- Once returned, a row has a version that no update of the loop looks for.
    returned_done :
        (s r : Row)
        → In s rows
        → In r rows
        → at_version s.job.id s.job.version (returned r) ≡ true
        → ⊥
    unfolding returned_row expired_job
    returned_done s r i j t =
        let (id, version) = at_version-eq s.job.id s.job.version (returned r) t in
        let same : s ≡ r =
          Distinct-rows rows s r w.distinct i j (sym (id ∙ (w.coherent s i).same_id)) in
        let old : s.job.version ≡ r.job.version = ap (λ (x : Row). x.job.version) same in
        omega (arith, old, version)

    through_hit :
        (found : List Row) (r : Row)
        → ((s : Row) → In s found → In s rows)
        → In r found
        → through found r ≡ returned r
    unfolding through
    through_hit [] r sub i = absurd i
    through_hit (s ∷ rest) r sub i = elim (Bool-cases (at_version s.job.id s.job.version r)) [
      | inl t ↦
          let same = selects s r (sub s (inl refl)) (sub r i) t in
          rw t (
            rw same
              (through_miss rest (returned r) (λ x k. returned_done x r (sub x (inr k)) (sub r i))))
      | inr f ↦ elim i [
        | inl e ↦ absurd (
            false≢true (
              sym f
              ∙ ap (λ (x : Row). at_version x.job.id x.job.version r) (sym e)
              ∙ at_version_self r (w.coherent r (sub r (inl e)))))
        | inr k ↦ rw f (through_hit rest r (λ x m. sub x (inr m)) k)
      ]
    ]

-- In a jobs table that is well formed, as every sequence of the steps of
-- Jobs.Interleaving leaves it, exactly the rows whose lease has run out are returned, each once.
pub requeue_expired_lem :
    (stamp now : ℕ) (db : Db)
    → IsWellFormed db.jobs
    → (requeue_expired stamp now db).1
      ≡ record db { jobs = map (λ r. if is_expired now r then returned stamp r else r) db.jobs }
unfolding requeue_expired
requeue_expired_lem stamp now db w =
    ap (λ (rows : List Row). record db { jobs = rows })
      (requeue_rows-map stamp (keep_if (is_expired now) db.jobs) db.jobs 0
        ∙ map-eq (through stamp (keep_if (is_expired now) db.jobs))
            (λ r. if is_expired now r then returned stamp r else r) db.jobs each)
  where
    found_in : (s : Row) → In s (keep_if (is_expired now) db.jobs) → In s db.jobs
    found_in s i = (In-keep_if (is_expired now) s db.jobs i).0

    each :
        (r : Row)
        → In r db.jobs
        → through stamp (keep_if (is_expired now) db.jobs) r
          ≡ (if is_expired now r then returned stamp r else r)
    each r i = elim (Bool-cases (is_expired now r)) [
      | inl e ↦ rw e (
          through_hit stamp db.jobs w (keep_if (is_expired now) db.jobs) r found_in
            (keep_if-In (is_expired now) r db.jobs i e))
      | inr e ↦ rw e (
          through_miss stamp (keep_if (is_expired now) db.jobs) r (λ s k t.
            let same = selects stamp db.jobs w s r (found_in s k) i t in
            false≢true (
              sym e
              ∙ ap (is_expired now) (sym same)
              ∙ (In-keep_if (is_expired now) s db.jobs k).1)))
    ]
