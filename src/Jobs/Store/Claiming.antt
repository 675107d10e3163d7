-- ===== src/Jobs/Store/Claiming.antt =====
-- What `claim_next` and `claim` return and write, on every branch.
use generic_coding_agent.Prelude.{
  ℕ, ◌≤◌, ◌≡◌, refl, subst, sym, ◌∙◌, ap, ◌⊎◌, inl, inr, String, Bool, true, false, ◌&&◌, Option,
  none, some, List, map, arith, In, In-keep_if, keep_if-In, map-eq, keep_if, if◌then◌else◌,
  Bool-cases, Option-cases, both_true,
}
use generic_coding_agent.Prelude.Int.{ℤ, pos_part}
use generic_coding_agent.Prelude.Text.{str_eq, eq_iff}
use generic_coding_agent.Result.{Result, ok, err, ok_some-injective}
use generic_coding_agent.Jobs.Models.{Job}
use generic_coding_agent.Jobs.Store.Table.{Row, Db, first}
use generic_coding_agent.Jobs.Store.WellFormed.{IsWellFormed}
use generic_coding_agent.Jobs.Store.Handles.{first-In, first-none, Knows}
use generic_coding_agent.Jobs.Store.Preserves.{Follows, Follows-refl}
use generic_coding_agent.Jobs.Store.Preserves.Claims.{
  claimable_parts, oldest-In, oldest-le, oldest-none, claim_row-Follows, claim_row_wins,
  claim_row-Knows, claim_where-eq,
}
use generic_coding_agent.Jobs.Store.Claim.{
  claim_where, claimable, oldest, claimed_job, claimed_row, claim_row, claim_selected,
  claim_arguments, claim_next, claim,
}

-- The tables after a claim of the row `q`: that row is written, and the others are as before.
abbrev pub with_claimed : Row → Job → Db → Db
with_claimed q job db = record db {
  jobs = map (λ r. if str_eq r.id q.id then claimed_row job r else r) db.jobs;
}

module _ (stamp now : ℕ) (worker : String) (lease : ℤ) (db : Db) (w : IsWellFormed db.jobs) where
  abbrev pub Wins : Row → Result (Option Job) × Db → Type 0
  Wins q r =
      let job = claimed_job stamp now worker (pos_part lease) q.job in
      r ≡ (ok (some job), with_claimed q job db)

  selected-Wins :
      (q : Row)
      → In q db.jobs
      → claimable now db.jobs q ≡ true
      → Wins q (claim_selected stamp now worker lease db (some q))
  unfolding claim_selected
  selected-Wins q i c =
      let (queued, _, idle) = claimable_parts now db.jobs q c in
      let job = claimed_job stamp now worker (pos_part lease) q.job in
      claim_row_wins stamp now worker (pos_part lease) db q w i idle queued
      ∙ ap (λ (rows : List Row). (ok (some job), record db { jobs = rows }))
          (map-eq (λ r. if claim_where q.job r then claimed_row job r else r)
            (λ r. if str_eq r.id q.id then claimed_row job r else r) db.jobs
            (λ r j.
              ap (λ b. if b then claimed_row job r else r)
                (claim_where-eq stamp now worker (pos_part lease) db q w i idle queued r j)))

  nothing_due :
      oldest (keep_if (claimable now db.jobs) db.jobs) ≡ none
      → (r : Row) → In r db.jobs
      → claimable now db.jobs r ≡ false
  nothing_due e r j = elim (Bool-cases (claimable now db.jobs r)) [
    | inl c ↦ absurd (oldest-none _ r e (keep_if-In (claimable now db.jobs) r db.jobs j c))
    | inr f ↦ f
  ]

  -- In a jobs table that is well formed, as every sequence of the steps of
  -- Jobs.Interleaving leaves it, with a worker name and a positive lease, either no row is claimable and nothing happens, or the
  -- oldest claimable row is claimed.
  pub claim_next_cases :
      claim_arguments worker lease ≡ none
      → ((claim_next stamp now worker lease db ≡ (ok none, db))
          × ((r : Row) → In r db.jobs → claimable now db.jobs r ≡ false))
        ⊎ ((q : Row) × In q db.jobs
            × (claimable now db.jobs q ≡ true)
            × ((r : Row)
                → In r db.jobs
                → claimable now db.jobs r ≡ true
                → q.created_at ≤ r.created_at)
            × Wins q (claim_next stamp now worker lease db))
  unfolding claim_next
  claim_next_cases valid = elim (Option-cases (oldest (keep_if (claimable now db.jobs) db.jobs))) [
    | inl e ↦ inl (rw (valid, e, claim_next) (unfold claim_selected in refl), nothing_due e)
    | inr (q, e) ↦
        let (i, c) = In-keep_if (claimable now db.jobs) q db.jobs (oldest-In _ q e) in
        inr (
          q,
          i,
          c,
          λ r j d. oldest-le _ q r e (keep_if-In (claimable now db.jobs) r db.jobs j d),
          rw (valid, e, claim_next) (selected-Wins q i c),
        )
  ]

  abbrev offered : String → Row → Bool
  offered job_id r = str_eq r.id job_id && claimable now db.jobs r

  -- The claim of one job: either that job is not claimable and nothing happens, or it is claimed.
  pub claim_cases :
      (job_id : String)
      → claim_arguments worker lease ≡ none
      → ((claim stamp now job_id worker lease db ≡ (ok none, db))
          × ((r : Row) → In r db.jobs → r.id ≡ job_id → claimable now db.jobs r ≡ false))
        ⊎ ((q : Row) × In q db.jobs
            × (q.id ≡ job_id)
            × (claimable now db.jobs q ≡ true)
            × Wins q (claim stamp now job_id worker lease db))
  unfolding claim
  claim_cases job_id valid = elim (Option-cases (first (keep_if (offered job_id) db.jobs))) [
    | inl e ↦ inl (
      rw (valid, e, claim) (unfold claim_selected in refl),
      λ r j same. ground (arith, first-none (offered job_id) db.jobs r e j, eq_iff r.id job_id),
    )
    | inr (q, e) ↦
        let (i, t) = first-In (offered job_id) db.jobs q e in
        let (named, c) = both_true (str_eq q.id job_id) (claimable now db.jobs q) t in
        inr (q, i, (eq_iff q.id job_id).0 named, c, rw (valid, e, claim) (selected-Wins q i c))
  ]

  -- A claim leaves a table that follows the old one and knows the job handed out.
  abbrev pub Tracks : Result (Option Job) × Db → Type 0
  Tracks r = Follows db.jobs r.1.jobs × ((job : Job) → r.0 ≡ ok (some job) → Knows job r.1.jobs)

  selected-Tracks :
      (q : Row)
      → In q db.jobs
      → claimable now db.jobs q ≡ true
      → Tracks (claim_selected stamp now worker lease db (some q))
  unfolding claim_selected
  selected-Tracks q i c =
      let (queued, _, idle) = claimable_parts now db.jobs q c in
      (
        claim_row-Follows stamp now worker (pos_part lease) db q w i idle,
        λ job h.
            let wins = claim_row_wins stamp now worker (pos_part lease) db q w i idle queued in
            subst (λ j. Knows j (claim_row stamp now worker (pos_part lease) q.job db).1.jobs)
              (ok_some-injective (sym (ap (λ (r : Result (Option Job) × Db). r.0) wins) ∙ h))
              (claim_row-Knows stamp now worker (pos_part lease) db q w i idle queued),
      )

  unchanged : (r : Result (Option Job)) → ((job : Job) → r ≡ ok (some job) → ⊥) → Tracks (r, db)
  unchanged r never = (Follows-refl db.jobs w, λ job h. absurd (never job h))

  won :
      (q : Row)
      → In q db.jobs
      → claimable now db.jobs q ≡ true
      → (r : Result (Option Job) × Db) → Wins q r
      → Tracks r
  won q i c r wins = subst Tracks (selected-Wins q i c ∙ sym wins) (selected-Tracks q i c)

  pub claim_next-Tracks : Tracks (claim_next stamp now worker lease db)
  claim_next-Tracks = elim (Option-cases (claim_arguments worker lease)) [
    | inr (e, bad) ↦
        let refused : claim_next stamp now worker lease db ≡ (err e, db) =
          unfold claim_next in rw (bad, claim_next) in
        rw refused (unchanged (err e) (λ job h. cc))
    | inl valid ↦ elim (claim_next_cases valid) [
      | inl (idle, _) ↦ rw idle (unchanged (ok none) (λ job h. cc))
      | inr (q, i, c, _, wins) ↦ won q i c _ wins
    ]
  ]

  pub claim-Tracks : (job_id : String) → Tracks (claim stamp now job_id worker lease db)
  claim-Tracks job_id = elim (Option-cases (claim_arguments worker lease)) [
    | inr (e, bad) ↦
        let refused : claim stamp now job_id worker lease db ≡ (err e, db) =
          unfold claim in rw (bad, claim) in
        rw refused (unchanged (err e) (λ job h. cc))
    | inl valid ↦ elim (claim_cases job_id valid) [
      | inl (idle, _) ↦ rw idle (unchanged (ok none) (λ job h. cc))
      | inr (q, i, _, c, wins) ↦ won q i c _ wins
    ]
  ]
