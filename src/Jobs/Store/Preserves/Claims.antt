-- ===== src/Jobs/Store/Preserves/Claims.antt =====
-- A claim keeps the invariant: the one row that becomes active belongs to an idle repository.
use mathlib.Core.Bool.{false≢true}
use generic_coding_agent.Prelude.{
  ℕ, ◌≤◌, ◌≡◌, refl, sym, ◌∙◌, ap, inl, inr, String, true, false, not, ◌&&◌, none, some, List, [],
  ◌∷◌, map, arith, In, In-map, any-false-In, if◌then◌else◌, Bool-cases, Option-cases, both_true,
  ◌==◌,
}
use generic_coding_agent.Prelude.Text.{str_eq, eq_iff}
use generic_coding_agent.Result.{ok}
use generic_coding_agent.Jobs.Models.{Job, JobStatus, is_active}
use generic_coding_agent.Jobs.Store.Table.{Row, Db, rowcount}
use generic_coding_agent.Jobs.Store.WellFormed.{
  Moved, IsWellFormed, IsExclusive, map-IsWellFormed, Distinct-rows,
}
use generic_coding_agent.Jobs.Store.Handles.{Fits, Knows, own-Fits, map-Knows, update-Moved}
use generic_coding_agent.Jobs.Store.Rowcount.{rowcount-one}
use generic_coding_agent.Jobs.Store.Updates.{at_version-eq, claimed_row-Moved}
use generic_coding_agent.Jobs.Store.Preserves.{Follows, Follows-refl, update-Knows}
use generic_coding_agent.Jobs.Store.Claim.{
  is_busy, claimable, oldest, claimed_job, claimed_row, claim_where, claim_row,
}

-- In an idle repository every active row is the row itself.
pub is_busy-false :
    (rows : List Row) (q s : Row)
    → is_busy rows q ≡ false
    → In s rows
    → s.repository_url ≡ q.repository_url
    → is_active s.status ≡ true
    → s.id ≡ q.id
unfolding is_busy
is_busy-false rows q s idle i u a = ground (
  arith,
  any-false-In
      (λ (r : Row).
        str_eq r.repository_url q.repository_url && not (str_eq r.id q.id) && is_active r.status)
      s rows idle i,
  eq_iff s.repository_url q.repository_url,
  eq_iff s.id q.id,
)

pub claimable_parts :
    (now : ℕ) (rows : List Row) (q : Row)
    → claimable now rows q ≡ true
    → (q.status ≡ JobStatus.queued) × (q.not_before ≤ now) × (is_busy rows q ≡ false)
unfolding claimable
claimable_parts now rows q h = ground arith

-- The row with the least `created_at`, of those that are offered.
pub oldest-In : (rs : List Row) (q : Row) → oldest rs ≡ some q → In q rs
unfolding oldest
oldest-In [] q h = cc
oldest-In (r ∷ rs) q h = elim (Option-cases (oldest rs)) [
  | inl e ↦ ground arith
  | inr (s, e) ↦ ground (arith, oldest-In rs s e)
]

pub oldest-none : (rs : List Row) (q : Row) → oldest rs ≡ none → In q rs → ⊥
unfolding oldest
oldest-none [] q h i = i
oldest-none (r ∷ rs) q h i = ground arith

pub oldest-le :
    (rs : List Row) (q s : Row) → oldest rs ≡ some q → In s rs → q.created_at ≤ s.created_at
unfolding oldest
oldest-le [] q s h i = absurd i
oldest-le (r ∷ rs) q s h i = elim (Option-cases (oldest rs)) [
  | inl e ↦ ground (arith, oldest-none rs s e)
  | inr (t, e) ↦ ground (arith, oldest-le rs t s e)
]

module _ (stamp now : ℕ) (worker : String) (lease : ℕ) (db : Db) (q : Row)
    (w : IsWellFormed db.jobs) (i : In q db.jobs) (idle : is_busy db.jobs q ≡ false) where
  abbrev claimed : Job
  claimed = claimed_job stamp now worker lease q.job

  abbrev after : Row → Row
  after r = if claim_where q.job r then claimed_row claimed r else r

  -- The row that the UPDATE selects is the one that the SELECT found.
  selected-Fits :
      (r : Row)
      → In r db.jobs
      → claim_where q.job r ≡ true
      → (r ≡ q) × Fits q.job r × (r.version ≡ q.job.version)
  selected-Fits r j t =
      let c = w.coherent q i in
      let (id, version) = at_version-eq q.job.id q.job.version r (both_true _ _ t).0 in
      let same : r ≡ q = Distinct-rows db.jobs r q w.distinct j i (id ∙ c.same_id) in
      (same, rw same (own-Fits q c), version)

  moves : (r : Row) → In r db.jobs → Moved r (after r)
  moves = update-Moved (claim_where q.job) (claimed_row claimed) db.jobs λ r j t.
      let (_, fits, version) = selected-Fits r j t in
      claimed_row-Moved q.job r fits version stamp now worker lease

  -- A row that the claim leaves alone has the claimed row's id if it is active in that repository.
  left_alone :
      (r s : Row)
      → In r db.jobs
      → In s db.jobs
      → claim_where q.job r ≡ true
      → claim_where q.job s ≡ false
      → is_active (after s).status ≡ true
      → (after r).repository_url ≡ (after s).repository_url
      → (after r).id ≡ (after s).id
  unfolding claimed_row
  left_alone r s j k t f a u =
      let (same, _, _) = selected-Fits r j t in
      let miss : after s ≡ s = rw f in
      (moves r j).keeps_id
      ∙ ap (λ (x : Row). x.id) same
      ∙ sym (
          is_busy-false db.jobs q s idle k
            (sym (ap (λ (x : Row). x.repository_url) miss)
              ∙ sym u
              ∙ (moves r j).keeps_url
              ∙ ap (λ (x : Row). x.repository_url) same)
            (sym (ap (λ (x : Row). is_active x.status) miss) ∙ a))
      ∙ sym (ap (λ (x : Row). x.id) miss)

  images :
      (r s : Row)
      → In r db.jobs
      → In s db.jobs
      → is_active (after r).status ≡ true
      → is_active (after s).status ≡ true
      → (after r).repository_url ≡ (after s).repository_url
      → (after r).id ≡ (after s).id
  images r s j k x y u = elim (Bool-cases (claim_where q.job r)) [
    | inl t ↦ elim (Bool-cases (claim_where q.job s)) [
      | inl t' ↦
          (moves r j).keeps_id
          ∙ ap (λ (x : Row). x.id) ((selected-Fits r j t).0 ∙ sym (selected-Fits s k t').0)
          ∙ sym (moves s k).keeps_id
      | inr f ↦ left_alone r s j k t f y u
    ]
    | inr f ↦ elim (Bool-cases (claim_where q.job s)) [
      | inl t ↦ sym (left_alone s r k j t f x (sym u))
      | inr f' ↦
          let a : after r ≡ r = rw f in
          let b : after s ≡ s = rw f' in
          ap (λ (x : Row). x.id) a
          ∙ w.exclusive r s j k (sym (ap (λ (x : Row). is_active x.status) a) ∙ x)
              (sym (ap (λ (x : Row). is_active x.status) b) ∙ y)
              (sym (ap (λ (x : Row). x.repository_url) a)
                ∙ u
                ∙ ap (λ (x : Row). x.repository_url) b)
          ∙ sym (ap (λ (x : Row). x.id) b)
    ]
  ]

  still-IsExclusive : IsExclusive (map after db.jobs)
  still-IsExclusive a b m n p p' u =
      let (r, j, er) = In-map after a db.jobs m in
      let (s, k, es) = In-map after b db.jobs n in
      ap (λ (x : Row). x.id) er
      ∙ images r s j k (ap (λ (x : Row). is_active x.status) (sym er) ∙ p)
          (ap (λ (x : Row). is_active x.status) (sym es) ∙ p')
          (ap (λ (x : Row). x.repository_url) (sym er) ∙ u ∙ ap (λ (x : Row). x.repository_url) es)
      ∙ ap (λ (x : Row). x.id) (sym es)

  pub claim_row-Follows : Follows db.jobs (claim_row stamp now worker lease q.job db).1.jobs
  unfolding claim_row
  claim_row-Follows = elim (Bool-cases (rowcount (claim_where q.job) db.jobs == 1)) [
    | inl e ↦ rw e (record {
      formed = map-IsWellFormed after db.jobs moves still-IsExclusive w;
      remembers = map-Knows after db.jobs moves;
    })
    | inr e ↦ rw e (Follows-refl db.jobs w)
  ]

  selects_itself : q.status ≡ JobStatus.queued → claim_where q.job q ≡ true
  selects_itself queued =
      let c = w.coherent q i in ground (arith, eq_iff q.id q.job.id, c.same_id, c.same_version)

  -- A queued row that the SELECT found is claimed.
  pub claim_row_wins :
      q.status ≡ JobStatus.queued
      → claim_row stamp now worker lease q.job db
        ≡ (ok (some claimed), record db { jobs = map after db.jobs })
  unfolding claim_row
  claim_row_wins queued =
      let one : (rowcount (claim_where q.job) db.jobs == 1) ≡ true =
        rowcount-one (claim_where q.job) q.job.id db.jobs q w.distinct
          (λ r j t. (selected-Fits r j t).1.fits_id) i (selects_itself queued) in
      rw one

  pub claim_row-Knows :
      q.status ≡ JobStatus.queued → Knows claimed (claim_row stamp now worker lease q.job db).1.jobs
  unfolding claimed_row
  claim_row-Knows queued =
      let c = w.coherent q i in
      rw (claim_row_wins queued) (
        update-Knows (claim_where q.job) (claimed_row claimed) db.jobs w q i (selects_itself queued)
          (claimed_row-Moved q.job q (own-Fits q c) (sym c.same_version) stamp now worker lease))

  -- The UPDATE changes the row that was found and no other.
  pub claim_where-eq :
      q.status ≡ JobStatus.queued
      → (r : Row) → In r db.jobs
      → claim_where q.job r ≡ str_eq r.id q.id
  claim_where-eq queued r j = elim (Bool-cases (str_eq r.id q.id)) [
    | inl e ↦
        let same : r ≡ q = Distinct-rows db.jobs r q w.distinct j i ((eq_iff r.id q.id).0 e) in
        rw (same, selects_itself queued, (eq_iff q.id q.id).1 refl)
    | inr e ↦ elim (Bool-cases (claim_where q.job r)) [
      | inl t ↦
          let same = (selected-Fits r j t).0 in
          absurd (false≢true (sym e ∙ (eq_iff r.id q.id).1 (ap (λ (x : Row). x.id) same)))
      | inr f ↦ rw (f, e)
    ]
  ]
