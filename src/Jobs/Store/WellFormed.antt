-- ===== src/Jobs/Store/WellFormed.antt =====
-- The invariant of the jobs table, and how a statement that rewrites rows in place keeps it.
use generic_coding_agent.Prelude.{
  suc, ◌≡◌, refl, sym, ◌∙◌, ap, ◌≢◌, ◌⊎◌, inl, inr, String, true, some, List, [], ◌∷◌, map, In,
  In-map,
}
use generic_coding_agent.Jobs.Models.{is_active}
use generic_coding_agent.Jobs.Store.Table.{Row}

-- The columns of a row agree with the job stored beside them. Its idempotency key is left out: the row of a
-- GitLab turn has one, and the job stored in it has none.
pub record IsCoherent (r : Row) : Type 0 where
  pub same_id : r.job.id ≡ r.id
  pub same_url : r.job.run_spec.repository.url ≡ r.repository_url
  pub same_status : r.job.status ≡ r.status
  pub same_version : r.job.version ≡ r.version
  pub same_owner : r.job.lease_owner ≡ r.lease_owner

-- No two rows have one id.
abbrev pub Distinct : List Row → Type 0
Distinct [] = Unit
Distinct (r ∷ rs) = ((s : Row) → In s rs → s.id ≢ r.id) × Distinct rs

-- At most one job of a repository is running or publishing.
abbrev pub IsExclusive : List Row → Type 0
IsExclusive rows =
    (a b : Row)
    → In a rows
    → In b rows
    → is_active a.status ≡ true
    → is_active b.status ≡ true
    → a.repository_url ≡ b.repository_url
    → a.id ≡ b.id

-- At most one job has an idempotency key.
abbrev pub HasUniqueKeys : List Row → Type 0
HasUniqueKeys rows =
    (a b : Row) (key : String)
    → In a rows
    → In b rows
    → a.idempotency_key ≡ some key
    → b.idempotency_key ≡ some key
    → a.id ≡ b.id

pub record IsWellFormed (rows : List Row) : Type 0 where
  pub distinct : Distinct rows
  pub coherent : (r : Row) → In r rows → IsCoherent r
  pub unique_keys : HasUniqueKeys rows
  pub exclusive : IsExclusive rows

-- One row becomes another: it keeps its identity and its coherence, and either its version grows
-- or the fields that the version guards stay as they are.
pub record Moved (r t : Row) : Type 0 where
  pub keeps_id : t.id ≡ r.id
  pub keeps_url : t.repository_url ≡ r.repository_url
  pub keeps_key : t.idempotency_key ≡ r.idempotency_key
  pub keeps_coherence : IsCoherent r → IsCoherent t
  pub advances :
      (t.version ≡ suc r.version)
      ⊎ ((t.version ≡ r.version) × (t.status ≡ r.status) × (t.lease_owner ≡ r.lease_owner))

pub Moved-refl : (r : Row) → Moved r r
Moved-refl r = record {
  keeps_id = refl;
  keeps_url = refl;
  keeps_key = refl;
  keeps_coherence = λ c. c;
  advances = inr (refl, refl, refl);
}

-- The rows of a table with one id are one row.
pub Distinct-rows :
    (rows : List Row) (a b : Row) → Distinct rows → In a rows → In b rows → a.id ≡ b.id → a ≡ b
Distinct-rows [] a b d i j e = absurd i
Distinct-rows (r ∷ rs) a b d (inl p) (inl q) e = p ∙ sym q
Distinct-rows (r ∷ rs) a b d (inl p) (inr j) e = absurd (d.0 b j (sym e ∙ ap (λ (x : Row). x.id) p))
Distinct-rows (r ∷ rs) a b d (inr i) (inl q) e = absurd (d.0 a i (e ∙ ap (λ (x : Row). x.id) q))
Distinct-rows (r ∷ rs) a b d (inr i) (inr j) e = Distinct-rows rs a b d.1 i j e

module _ (f : Row → Row) where
  pub map-Distinct :
      (rows : List Row)
      → ((r : Row) → In r rows → (f r).id ≡ r.id)
      → Distinct rows
      → Distinct (map f rows)
  map-Distinct [] same d = tt
  map-Distinct (r ∷ rs) same d = (
    λ s h e.
        let (a, i, q) = In-map f s rs h in
        d.0 a i (sym (same a (inr i)) ∙ sym (ap (λ (x : Row). x.id) q) ∙ e ∙ same r (inl refl)),
    map-Distinct rs (λ a i. same a (inr i)) d.1,
  )

module _ (f : Row → Row) (rows : List Row) (moved : (r : Row) → In r rows → Moved r (f r)) where
  map-unique_keys : HasUniqueKeys rows → HasUniqueKeys (map f rows)
  map-unique_keys u a b key i j p q =
      let (r, ir, er) = In-map f a rows i in
      let (s, js, es) = In-map f b rows j in
      let mr = moved r ir in
      let ms = moved s js in
      ap (λ (x : Row). x.id) er
      ∙ mr.keeps_id
      ∙ u r s key ir js (sym mr.keeps_key ∙ sym (ap (λ (x : Row). x.idempotency_key) er) ∙ p)
          (sym ms.keeps_key ∙ sym (ap (λ (x : Row). x.idempotency_key) es) ∙ q)
      ∙ sym ms.keeps_id
      ∙ sym (ap (λ (x : Row). x.id) es)

  map-IsCoherent :
      ((r : Row) → In r rows → IsCoherent r) → (r : Row) → In r (map f rows) → IsCoherent r
  map-IsCoherent c t h =
      let (r, i, e) = In-map f t rows h in rw e ((moved r i).keeps_coherence (c r i))

  -- A rewriting that makes no row active keeps the repositories exclusive.
  map-IsExclusive :
      ((r : Row) → In r rows → is_active (f r).status ≡ true → is_active r.status ≡ true)
      → IsExclusive rows
      → IsExclusive (map f rows)
  map-IsExclusive calm x a b i j p q u =
      let (r, ir, er) = In-map f a rows i in
      let (s, js, es) = In-map f b rows j in
      let mr = moved r ir in
      let ms = moved s js in
      ap (λ (y : Row). y.id) er
      ∙ mr.keeps_id
      ∙ x r s ir js (calm r ir (sym (ap (λ (y : Row). is_active y.status) er) ∙ p))
          (calm s js (sym (ap (λ (y : Row). is_active y.status) es) ∙ q))
          (sym mr.keeps_url
            ∙ sym (ap (λ (y : Row). y.repository_url) er)
            ∙ u
            ∙ ap (λ (y : Row). y.repository_url) es
            ∙ ms.keeps_url)
      ∙ sym ms.keeps_id
      ∙ sym (ap (λ (y : Row). y.id) es)

  pub map-IsWellFormed : IsExclusive (map f rows) → IsWellFormed rows → IsWellFormed (map f rows)
  map-IsWellFormed x w = record {
    distinct = map-Distinct f rows (λ r i. (moved r i).keeps_id) w.distinct;
    coherent = map-IsCoherent w.coherent;
    unique_keys = map-unique_keys w.unique_keys;
    exclusive = x;
  }

  pub map-IsWellFormed_calm :
      ((r : Row) → In r rows → is_active (f r).status ≡ true → is_active r.status ≡ true)
      → IsWellFormed rows
      → IsWellFormed (map f rows)
  map-IsWellFormed_calm calm w = map-IsWellFormed (map-IsExclusive calm w.exclusive) w
