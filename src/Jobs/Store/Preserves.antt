-- ===== src/Jobs/Store/Preserves.antt =====
-- Every operation of the store keeps the invariant of the table, and every copy of a job that fitted
-- the table goes on to fit it. Here the common part, `save` and the insertion.
pub mod Claims
pub mod Leases
use generic_coding_agent.Prelude.{
  ℕ, suc, ◌<◌, map-In, In-append_left, subst, ◌⊎◌, ◌+◌, ◌≡◌, ◌≢◌, refl, sym, ◌∙◌, ap, inl, inr,
  String, Bool, true, false, not, ◌&&◌, Option, none, some, List, [], ◌∷◌, ◌++◌, map, arith, In,
  In-keep_if, keep_if, any, if◌then◌else◌, Bool-cases, Option-cases, both_true, either_false, ◌==◌,
}
use generic_coding_agent.Prelude.Int.{ℤ}
use generic_coding_agent.Prelude.Text.{str_eq, opt_eq, eq_iff}
use generic_coding_agent.Jobs.Models.{Job, JobStatus, is_active, status_eq, RunSpec}
use generic_coding_agent.Jobs.Store.Table.{
  Row, Db, update_where, rowcount, at_version, row_of, collides,
}
use generic_coding_agent.Jobs.Store.WellFormed.{
  IsCoherent, Moved, IsWellFormed, IsExclusive, map-IsWellFormed, map-IsWellFormed_calm,
}
use generic_coding_agent.Jobs.Store.Handles.{
  Fits, Knows, own-Fits, map-Knows, known_row, rowcount-In, update-Moved, update_calm,
}
use generic_coding_agent.Jobs.Store.Updates.{
  at_version-eq, holds_lease-eq, saved_row-Moved, saved_row_calm, returned_row-Moved,
  retry_status_calm, claimed_row-Moved, touched_row-Moved, append-IsWellFormed, row_of-IsCoherent,
  fresh_id, fresh_key,
}
use generic_coding_agent.Jobs.Store.Save.{saved_job, saved_row, save}
use generic_coding_agent.Result.{ok, ok-injective, ok≢err}
use generic_coding_agent.Jobs.Store.Create.{insert_job, new_job}

-- A table follows another if it is well formed and knows all that the other knew.
pub record Follows (rows later : List Row) : Type 0 where
  pub formed : IsWellFormed later
  pub remembers : (h : Job) → Knows h rows → Knows h later

pub Follows-refl : (rows : List Row) → IsWellFormed rows → Follows rows rows
Follows-refl rows w = record { formed = w; remembers = λ h k. k }

pub Follows-trans : {a b c : List Row} → Follows a b → Follows b c → Follows a c
Follows-trans f g = record { formed = g.formed; remembers = λ h k. g.remembers h (f.remembers h k) }

-- An UPDATE under a copy's id and version that activates no row.
module _ (test : Row → Bool) (change : Row → Row) (rows : List Row) (w : IsWellFormed rows) where
  pub update-Follows :
      ((r : Row) → In r rows → test r ≡ true → Moved r (change r))
      → ((r : Row)
          → In r rows
          → test r ≡ true
          → is_active (change r).status ≡ true
          → is_active r.status ≡ true)
      → Follows rows (update_where test change rows)
  update-Follows moved calm =
      let all_moved = update-Moved test change rows moved in
      record {
        formed =
            map-IsWellFormed_calm (λ r. if test r then change r else r) rows all_moved
              (update_calm test change rows calm) w;
        remembers = map-Knows (λ r. if test r then change r else r) rows all_moved;
      }

  -- The job stored in an updated row fits it.
  pub update-Knows :
      (r : Row)
      → In r rows
      → test r ≡ true
      → Moved r (change r)
      → Knows (change r).job (update_where test change rows)
  update-Knows r i t moved = (
    change r,
    subst (λ b. In (if b then change r else r) (update_where test change rows)) t
        (map-In (λ x. if test x then change x else x) r rows i),
    own-Fits (change r) (moved.keeps_coherence (w.coherent r i)),
  )

module _ (now : ℕ) (job : Job) (db : Db) (w : IsWellFormed db.jobs) (k : Knows job db.jobs) where
  saved-Fits :
      (r : Row)
      → In r db.jobs
      → at_version job.id job.version r ≡ true
      → Fits job r × (r.version ≡ job.version)
  saved-Fits r i t =
      let (id, version) = at_version-eq job.id job.version r t in
      (known_row job db.jobs r w k i id, version)

  pub save-Follows : Follows db.jobs (save now job db).1.jobs
  unfolding save
  save-Follows = elim (Bool-cases (rowcount (at_version job.id job.version) db.jobs == 1)) [
    | inl e ↦ rw e updated
    | inr e ↦ rw e updated
  ]
    where
      updated :
          Follows db.jobs (update_where (at_version job.id job.version) (saved_row now job) db.jobs)
      updated =
          update-Follows (at_version job.id job.version) (saved_row now job) db.jobs w
            (λ r i t. let (f, v) = saved-Fits r i t in saved_row-Moved job r f v now)
            (λ r i t. let (f, v) = saved-Fits r i t in saved_row_calm job r f v now)

  -- What `save` hands back fits the table that it leaves.
  pub saved_job-Knows :
      0 < rowcount (at_version job.id job.version) db.jobs
      → Knows
          (saved_job now job)
          (update_where (at_version job.id job.version) (saved_row now job) db.jobs)
  unfolding saved_row
  saved_job-Knows h =
      let (r, i, t) = rowcount-In (at_version job.id job.version) db.jobs h in
      let (fits, version) = saved-Fits r i t in
      update-Knows (at_version job.id job.version) (saved_row now job) db.jobs w r i t
        (saved_row-Moved job r fits version now)

  pub save-Knows :
      (saved : Job) → (save now job db).0 ≡ ok saved → Knows saved (save now job db).1.jobs
  unfolding save
  save-Knows saved h = go (Bool-cases (rowcount (at_version job.id job.version) db.jobs == 1)) h
    where
      go :
          ((rowcount (at_version job.id job.version) db.jobs == 1) ≡ true)
            ⊎ ((rowcount (at_version job.id job.version) db.jobs == 1) ≡ false)
          → (save now job db).0 ≡ ok saved
          → Knows saved (save now job db).1.jobs
      go (inl e) q = rw e (
          subst
            (λ j.
              Knows j (update_where (at_version job.id job.version) (saved_row now job) db.jobs))
            (ok-injective (rw e at q)) (saved_job-Knows (ground arith)))
      go (inr e) q = absurd (ok≢err (sym (rw e at q)))

pub append-Follows :
    (new : Row) (rows : List Row)
    → ((r : Row) → In r rows → r.id ≢ new.id)
    → ((r : Row) (key : String)
        → In r rows
        → r.idempotency_key ≡ some key
        → new.idempotency_key ≡ some key
        → ⊥)
    → is_active new.status ≡ false
    → IsCoherent new
    → IsWellFormed rows
    → Follows rows (rows ++ new ∷ [])
append-Follows new rows id key idle c w = record {
  formed = append-IsWellFormed new rows id key idle c w;
  remembers = λ h k. let (r, i, fits) = k in (r, In-append_left r (new ∷ []) rows i, fits);
}

-- An INSERT, whether it is refused or not.
module _ (spec : RunSpec) (key : Option String) (job : Job) (db : Db)
    (w : IsWellFormed db.jobs) where
  pub insert_job-Follows :
      is_active job.status ≡ false → Follows db.jobs (insert_job spec key job db).1.jobs
  unfolding insert_job
  insert_job-Follows idle = elim (Bool-cases (any (collides job) db.jobs)) [
    | inl taken ↦ rw taken (Follows-refl db.jobs w)
    | inr free ↦ rw free (
        append-Follows (row_of job) db.jobs (fresh_id job db.jobs free) (fresh_key job db.jobs free)
          (unfold row_of in idle) (row_of-IsCoherent job) w)
  ]
