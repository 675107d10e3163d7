-- ===== src/Jobs/Store/Updates.antt =====
-- Each UPDATE of the store, and the INSERT, moves rows as the invariant wants.
use mathlib.Core.Bool.{false≢true}
use generic_coding_agent.Prelude.{
  ℕ, suc, ◌≡◌, refl, sym, ◌∙◌, ap, inl, inr, String, true, false, ◌≢◌, ◌&&◌, none, some, List, [],
  ◌∷◌, ◌++◌, arith, In, In-append_one, any, any-false-In, Bool-cases, both_true,
}
use generic_coding_agent.Prelude.Text.{str_eq, opt_eq, eq_iff, opt_eq-some}
use generic_coding_agent.Jobs.Models.{Job, is_active}
use generic_coding_agent.Jobs.Store.Table.{Row, at_version, row_of, collides}
use generic_coding_agent.Jobs.Store.WellFormed.{
  IsCoherent, Moved, Distinct, IsWellFormed, IsExclusive, HasUniqueKeys,
}
use generic_coding_agent.Jobs.Store.Handles.{Fits}
use generic_coding_agent.Jobs.Store.Save.{saved_row}
use generic_coding_agent.Jobs.Store.Claim.{claimed_job, claimed_row}
use generic_coding_agent.Jobs.Store.Lease.{retry_status, returned_row, touched_row, holds_lease}

pub at_version-eq :
    (id : String) (version : ℕ) (r : Row)
    → at_version id version r ≡ true
    → (r.id ≡ id) × (r.version ≡ version)
at_version-eq id version r h = ground (arith, eq_iff r.id id)

pub at_version_self : (r : Row) → IsCoherent r → at_version r.job.id r.job.version r ≡ true
at_version_self r c = ground (arith, eq_iff r.id r.job.id, c.same_id, c.same_version)

pub holds_lease-eq :
    (id worker : String) (r : Row)
    → holds_lease id worker r ≡ true
    → (r.id ≡ id) × (r.lease_owner ≡ some worker) × (is_active r.status ≡ true)
unfolding holds_lease
holds_lease-eq id worker r h =
    let (row, active) = both_true (str_eq r.id id && opt_eq r.lease_owner (some worker)) _ h in
    let (at, held) = both_true (str_eq r.id id) _ row in
    ((eq_iff r.id id).0 at, opt_eq-some r.lease_owner worker held, active)

module _ (job : Job) (r : Row) (fits : Fits job r) (same : r.version ≡ job.version) where
  pub saved_row-Moved : (now : ℕ) → Moved r (saved_row now job r)
  unfolding saved_row
  saved_row-Moved now = record {
    keeps_id = refl;
    keeps_url = refl;
    keeps_key = refl;
    keeps_coherence = λ _. record {
      same_id = sym fits.fits_id;
      same_url = fits.fits_url;
      same_status = refl;
      same_version = refl;
      same_owner = elim (Bool-cases (is_active job.status)) [
        | inl e ↦ rw e ((fits.current (sym same) e).1)
        | inr e ↦ rw e
      ];
    };
    advances = inl (ap suc (sym same));
  }

  pub saved_row_calm :
      (now : ℕ) → is_active (saved_row now job r).status ≡ true → is_active r.status ≡ true
  unfolding saved_row
  saved_row_calm now a = (fits.current (sym same) a).0

  pub returned_row-Moved : job.lease_owner ≡ none → Moved r (returned_row job r)
  unfolding returned_row
  returned_row-Moved released = record {
    keeps_id = refl;
    keeps_url = refl;
    keeps_key = refl;
    keeps_coherence = λ _. record {
      same_id = sym fits.fits_id;
      same_url = fits.fits_url;
      same_status = refl;
      same_version = refl;
      same_owner = released;
    };
    advances = inl (ap suc (sym same));
  }

  pub claimed_row-Moved :
      (stamp at : ℕ) (worker : String) (lease : ℕ)
      → Moved r (claimed_row (claimed_job stamp at worker lease job) r)
  unfolding claimed_row claimed_job
  claimed_row-Moved stamp at worker lease = record {
    keeps_id = refl;
    keeps_url = refl;
    keeps_key = refl;
    keeps_coherence = λ _. record {
      same_id = sym fits.fits_id;
      same_url = fits.fits_url;
      same_status = refl;
      same_version = refl;
      same_owner = refl;
    };
    advances = inl (ap suc (sym same));
  }

pub touched_row-Moved :
    (stamp until : ℕ) (r : Row) → IsCoherent r → Moved r (touched_row stamp until r.job r)
unfolding touched_row
touched_row-Moved stamp until r c = record {
  keeps_id = refl;
  keeps_url = refl;
  keeps_key = refl;
  keeps_coherence = λ _. record {
    same_id = c.same_id;
    same_url = c.same_url;
    same_status = c.same_status;
    same_version = c.same_version;
    same_owner = c.same_owner;
  };
  advances = inr (refl, refl, refl);
}

pub retry_status_calm : (job : Job) → is_active (retry_status job) ≡ false
unfolding retry_status
retry_status_calm job = ground arith

-- The inserted row.
module _ (new : Row) (rows : List Row) (fresh_id : (r : Row) → In r rows → r.id ≢ new.id)
    (fresh_key : (r : Row) (key : String)
      → In r rows
      → r.idempotency_key ≡ some key
      → new.idempotency_key ≡ some key
      → ⊥) where
  append-Distinct :
      (rs : List Row) → ((r : Row) → In r rs → In r rows) → Distinct rs → Distinct (rs ++ new ∷ [])
  append-Distinct [] sub d = (λ s h. absurd h, tt)
  append-Distinct (r ∷ rs) sub d = (
    λ s h e. elim (In-append_one s (new) rs h) [
      | inl i ↦ d.0 s i e
      | inr q ↦ fresh_id r (sub r (inl refl)) (sym e ∙ ap (λ (x : Row). x.id) q)
    ],
    append-Distinct rs (λ a i. sub a (inr i)) d.1,
  )

  append-unique_keys : HasUniqueKeys rows → HasUniqueKeys (rows ++ new ∷ [])
  append-unique_keys u a b key i j p q = elim (In-append_one a (new) rows i) [
    | inl ia ↦ elim (In-append_one b (new) rows j) [
      | inl jb ↦ u a b key ia jb p q
      | inr eb ↦ absurd (fresh_key a key ia p (sym (ap (λ (x : Row). x.idempotency_key) eb) ∙ q))
    ]
    | inr ea ↦ elim (In-append_one b (new) rows j) [
      | inl jb ↦ absurd (fresh_key b key jb q (sym (ap (λ (x : Row). x.idempotency_key) ea) ∙ p))
      | inr eb ↦ ap (λ (x : Row). x.id) (ea ∙ sym eb)
    ]
  ]

  append-IsExclusive :
      is_active new.status ≡ false → IsExclusive rows → IsExclusive (rows ++ new ∷ [])
  append-IsExclusive idle x a b i j p q = elim (In-append_one a (new) rows i) [
    | inl ia ↦ elim (In-append_one b (new) rows j) [
      | inl jb ↦ x a b ia jb p q
      | inr eb ↦ absurd (contradicts b eb q)
    ]
    | inr ea ↦ absurd (contradicts a ea p)
  ]
    where
      contradicts : (c : Row) → c ≡ new → is_active c.status ≡ true → ⊥
      contradicts c e t = false≢true (sym idle ∙ sym (ap (λ (x : Row). is_active x.status) e) ∙ t)

  pub append-IsWellFormed :
      is_active new.status ≡ false
      → IsCoherent new
      → IsWellFormed rows
      → IsWellFormed (rows ++ new ∷ [])
  append-IsWellFormed idle c w = record {
    distinct = append-Distinct rows (λ r i. i) w.distinct;
    coherent =
        λ r i. elim (In-append_one r new rows i) [ inl old ↦ w.coherent r old | inr e ↦ rw e c ];
    unique_keys = append-unique_keys w.unique_keys;
    exclusive = append-IsExclusive idle w.exclusive;
  }

pub row_of-IsCoherent : (job : Job) → IsCoherent (row_of job)
unfolding row_of
row_of-IsCoherent job = record {
  same_id = refl;
  same_url = refl;
  same_status = refl;
  same_version = refl;
  same_owner = refl;
}

-- What the constraints leave of a row that is inserted.
module _ (job : Job) (rows : List Row) (free : any (collides job) rows ≡ false) where
  pub fresh_id : (r : Row) → In r rows → r.id ≢ (row_of job).id
  unfolding collides row_of
  fresh_id r i = ground (arith, any-false-In (collides job) r rows free i, eq_iff r.id job.id)

  pub fresh_key :
      (r : Row) (key : String)
      → In r rows
      → r.idempotency_key ≡ some key
      → (row_of job).idempotency_key ≡ some key
      → ⊥
  unfolding collides row_of
  fresh_key r key i p q = ground (arith, any-false-In (collides job) r rows free i, eq_iff key key)
