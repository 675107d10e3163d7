-- ===== src/Jobs/Store/Handles.antt =====
-- What a worker's copy of a job says of the table: the copy may be behind, and as long as its version
-- is the row's, it is active only if the row is, under the row's owner.
use generic_coding_agent.Prelude.{
  keep_if, none, some, [], ◌∷◌, ◌≤◌, ◌<◌, refl, ◌≡◌, sym, ◌∙◌, ap, inl, inr, Bool, true, false,
  List, map, arith, In, map-In, if◌then◌else◌, Bool-cases,
}
use generic_coding_agent.Jobs.Models.{Job, is_active}
use generic_coding_agent.Jobs.Store.Table.{Row, first, rowcount}
use generic_coding_agent.Jobs.Store.WellFormed.{
  IsCoherent, Moved, Moved-refl, IsWellFormed, Distinct-rows,
}

pub record Fits (h : Job) (r : Row) : Type 0 where
  pub fits_id : r.id ≡ h.id
  pub fits_url : h.run_spec.repository.url ≡ r.repository_url
  pub behind : h.version ≤ r.version
  pub current :
      h.version ≡ r.version
      → is_active h.status ≡ true
      → (is_active r.status ≡ true) × (h.lease_owner ≡ r.lease_owner)

abbrev pub Knows : Job → List Row → Type 0
Knows h rows = (r : Row) × In r rows × Fits h r

-- The job that a row holds fits the row.
pub own-Fits : (r : Row) → IsCoherent r → Fits r.job r
own-Fits r c = record {
  fits_id = sym c.same_id;
  fits_url = c.same_url;
  behind = omega (arith, c.same_version);
  current = λ _ a. (sym (ap is_active c.same_status) ∙ a, c.same_owner);
}

-- A copy goes on to fit a row that moves.
Moved-Fits : (h : Job) (r t : Row) → Moved r t → Fits h r → Fits h t
Moved-Fits h r t m f = record {
  fits_id = m.keeps_id ∙ f.fits_id;
  fits_url = f.fits_url ∙ sym m.keeps_url;
  behind = elim m.advances [
    | inl up ↦ omega (arith, f.behind, up)
    | inr (same, _, _) ↦ omega (arith, f.behind, same)
  ];
  current = λ v a. elim m.advances [
    | inl up ↦ absurd (omega (arith, f.behind, up, v))
    | inr (same, status, owner) ↦
        let (still, held) = f.current (v ∙ same) a in
        (ap is_active status ∙ still, held ∙ sym owner)
  ];
}

module _ (f : Row → Row) (rows : List Row) (moved : (r : Row) → In r rows → Moved r (f r)) where
  pub map-Knows : (h : Job) → Knows h rows → Knows h (map f rows)
  map-Knows h (r, i, fits) = (f r, map-In f r rows i, Moved-Fits h r (f r) (moved r i) fits)

-- The row that a copy stands for is the only one with its id.
pub known_row :
    (h : Job) (rows : List Row) (r : Row)
    → IsWellFormed rows
    → Knows h rows
    → In r rows
    → r.id ≡ h.id
    → Fits h r
known_row h rows r w (s, i, fits) j e =
    let same : s ≡ r = Distinct-rows rows s r w.distinct i j (fits.fits_id ∙ sym e) in
    rw (← same) fits

-- An UPDATE moves rows if it moves those that its test selects.
module _ (test : Row → Bool) (change : Row → Row) (rows : List Row) where
  pub update-Moved :
      ((r : Row) → In r rows → test r ≡ true → Moved r (change r))
      → (r : Row) → In r rows
      → Moved r (if test r then change r else r)
  update-Moved m r i = elim (Bool-cases (test r)) [
    | inl e ↦ rw e (m r i e)
    | inr e ↦ rw e (Moved-refl r)
  ]

  pub update_calm :
      ((r : Row)
        → In r rows
        → test r ≡ true
        → is_active (change r).status ≡ true
        → is_active r.status ≡ true)
      → (r : Row) → In r rows
      → is_active (if test r then change r else r).status ≡ true
      → is_active r.status ≡ true
  update_calm m r i a = elim (Bool-cases (test r)) [
    | inl e ↦ m r i e (rw e at a)
    | inr e ↦ rw e at a
  ]

-- What a `SELECT` finds stands in the table and passes its test.
pub first-In :
    (p : Row → Bool) (rows : List Row) (r : Row)
    → first (keep_if p rows) ≡ some r
    → In r rows × (p r ≡ true)
first-In p [] r h = cc
first-In p (x ∷ xs) r h = ground (arith, first-In p xs r)

-- A statement that changes one row has found one.
pub rowcount-In :
    (test : Row → Bool) (rows : List Row)
    → 0 < rowcount test rows
    → (r : Row) × In r rows × (test r ≡ true)
rowcount-In test [] h = absurd (omega arith)
rowcount-In test (x ∷ xs) h = elim (Bool-cases (test x)) [
  | inl e ↦ (x, inl refl, e)
  | inr e ↦ let (r, i, t) = rowcount-In test xs (rw e at h) in (r, inr i, t)
]

-- What finds nothing has nothing to find.
pub first-none :
    (p : Row → Bool) (rows : List Row) (r : Row)
    → first (keep_if p rows) ≡ none
    → In r rows
    → p r ≡ false
first-none p [] r h i = absurd i
first-none p (x ∷ xs) r h i = ground (arith, first-none p xs r)
