-- ===== src/Jobs/Store/Rowcount.antt =====
-- How many rows a statement changes: under a primary key, one at most.
use native.Mathlib.Decide.{dec_lt}
use generic_coding_agent.Prelude.{
  ◌≤◌, ◌<◌, ◌≡◌, refl, sym, ◌∙◌, ap, inl, inr, String, Bool, true, List, [], ◌∷◌, arith, In,
  Bool-cases, map-id, if◌then◌else◌, ◌==◌,
}
use generic_coding_agent.Jobs.Store.Table.{Row, rowcount, update_where}
use generic_coding_agent.Jobs.Store.WellFormed.{Distinct}
use generic_coding_agent.Jobs.Store.Handles.{rowcount-In}

module _ (test : Row → Bool) where
  pub rowcount-pos :
      (q : Row) (rows : List Row) → In q rows → test q ≡ true → 0 < rowcount test rows
  rowcount-pos q [] i t = absurd i
  rowcount-pos q (x ∷ xs) (inl e) t =
      let here : test x ≡ true = ap test (sym e) ∙ t in rw here (omega arith)
  rowcount-pos q (x ∷ xs) (inr i) t = elim (Bool-cases (test x)) [
    | inl e ↦ rw e (omega arith)
    | inr e ↦ rw e (rowcount-pos q xs i t)
  ]

  pub rowcount-zero :
      (rows : List Row) → ((r : Row) → In r rows → test r ≡ true → ⊥) → rowcount test rows ≡ 0
  rowcount-zero rows never = elim (dec_lt 0 (rowcount test rows)) [
    | yes p ↦ let (r, i, t) = rowcount-In test rows p in absurd (never r i t)
    | no q ↦ omega arith
  ]

  pub rowcount-le_one :
      (id : String) (rows : List Row)
      → Distinct rows
      → ((r : Row) → In r rows → test r ≡ true → r.id ≡ id)
      → rowcount test rows ≤ 1
  rowcount-le_one id [] d only = omega arith
  rowcount-le_one id (x ∷ xs) d only = elim (Bool-cases (test x)) [
    | inl e ↦ rw e (
        omega (
          arith,
          rowcount-zero xs (λ r i t. d.0 r i (only r (inr i) t ∙ sym (only x (inl refl) e))),
        ))
    | inr e ↦ rw e (rowcount-le_one id xs d.1 (λ r i t. only r (inr i) t))
  ]

  -- A statement keyed by an id that a selected row has changes exactly that row.
  pub rowcount-one :
      (id : String) (rows : List Row) (q : Row)
      → Distinct rows
      → ((r : Row) → In r rows → test r ≡ true → r.id ≡ id)
      → In q rows
      → test q ≡ true
      → (rowcount test rows == 1) ≡ true
  rowcount-one id rows q d only i t =
      ground (arith, rowcount-pos q rows i t, rowcount-le_one id rows d only)

  -- A statement that selects nothing changes nothing.
  pub update-none :
      (change : Row → Row) (rows : List Row)
      → ((r : Row) → In r rows → test r ≡ true → ⊥)
      → update_where test change rows ≡ rows
  update-none change rows never =
      map-id (λ r. if test r then change r else r) rows
        λ r i. elim (Bool-cases (test r)) [ inl t ↦ absurd (never r i t) | inr f ↦ rw f ]
