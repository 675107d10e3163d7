-- ===== src/Usage/Totals.antt =====
-- The integer totals of a usage record agree with the floats it keeps by model, as long as they stay where
-- the floats are exact.
use generic_coding_agent.Prelude.{
  ◌≡◌, ◌≤◌, ℕ, ◌+◌, refl, subst, sym, ap, ◌∙◌, String, Option, none, some, List, [], ◌∷◌, arith,
  Bool-cases, inl, inr,
}
use generic_coding_agent.Prelude.Text.{str_eq, strip}
use generic_coding_agent.Usage.{
  Floats, LlmUsage, Bucket, LlmUsageTotals, add_to, add_all, amounts, as_floats, plus, empty_bucket,
  or_unknown, merge_usage, merge_totals,
}

-- Up to the bound, 2 ^ 53 for a Python float, integers are floats, and their sums are exact.
pub record IsExact (floats : Floats) (bound : ℕ) : Type 0 where
  pub zero_exact : floats.zero_float ≡ floats.of_int 0
  pub add_exact :
      (a b : ℕ)
      → a + b ≤ bound
      → floats.add_float (floats.of_int a) (floats.of_int b) ≡ floats.of_int (a + b)

-- The three counts of a model, as integers.
pub record Counts : Type 0 where
  pub prompt : ℕ
  pub completion : ℕ
  pub total : ℕ

abbrev pub added : Counts → Counts → Counts
added k x = record {
  prompt = k.prompt + x.prompt;
  completion = k.completion + x.completion;
  total = k.total + x.total;
}

abbrev pub no_counts : Counts
no_counts = record { prompt = 0; completion = 0; total = 0 }

unfoldable pub sum_of : List Counts → Counts
sum_of [] = no_counts
sum_of (k ∷ counts) = added (sum_of counts) k

abbrev pub IsWithin : ℕ → Counts → Type 0
IsWithin bound k = (k.prompt ≤ bound) × (k.completion ≤ bound) × (k.total ≤ bound)

counts_eq :
    (c d : Counts) → c.prompt ≡ d.prompt → c.completion ≡ d.completion → c.total ≡ d.total → c ≡ d
counts_eq c d p q r i = record { prompt = p i; completion = q i; total = r i }

module _ (floats : Floats) where
  -- The floats of a model are the counts.
  abbrev pub Shows : Bucket floats → Counts → Type 0
  Shows b k =
      (b.prompt_tokens ≡ floats.of_int k.prompt)
      × (b.completion_tokens ≡ floats.of_int k.completion)
      × (b.total_tokens ≡ floats.of_int k.total)

  abbrev pub ShowAll : List (String × Bucket floats) → List Counts → Type 0
  ShowAll [] [] = Unit {0}
  ShowAll ((name, b) ∷ buckets) (k ∷ counts) = Shows b k × ShowAll buckets counts
  ShowAll _ _ = ⊥

  -- The counts that the totals show.
  abbrev pub totals_of : LlmUsageTotals floats → Counts
  totals_of totals = record {
    prompt = totals.prompt_tokens;
    completion = totals.completion_tokens;
    total = totals.total_tokens;
  }

  abbrev pub IsBalanced : LlmUsageTotals floats → Type 0
  IsBalanced totals =
      (counts : List Counts) × ShowAll totals.by_model counts × (totals_of totals ≡ sum_of counts)

  module _ (bound : ℕ) (exact : IsExact floats bound) where
    plus-Shows :
        (a b : Bucket floats) (k x : Counts)
        → Shows a k
        → Shows b x
        → IsWithin bound (added k x)
        → Shows (plus floats a b) (added k x)
    plus-Shows a b k x (p, q, r) (p', q', r') (u, v, w) = (
      rw (p, p') (exact.add_exact k.prompt x.prompt u),
      rw (q, q') (exact.add_exact k.completion x.completion v),
      rw (r, r') (exact.add_exact k.total x.total w),
    )

    empty-Shows : Shows (empty_bucket floats) no_counts
    empty-Shows = (exact.zero_exact, exact.zero_exact, exact.zero_exact)

    -- Adding to one model adds to the sum.
    add_to-ShowAll :
        (model : String) (b : Bucket floats) (x : Counts) (buckets : List (String × Bucket floats))
        (counts : List Counts)
        → Shows b x
        → ShowAll buckets counts
        → IsWithin bound (added (sum_of counts) x)
        → (later : List Counts) × ShowAll (add_to floats model b buckets) later
          × (sum_of later ≡ added (sum_of counts) x)
    unfolding sum_of add_to
    add_to-ShowAll model b x [] [] s h w = (
      added no_counts x ∷ [],
      (plus-Shows (empty_bucket floats) b no_counts x empty-Shows s w, tt),
      counts_eq _ _ (omega arith) (omega arith) (omega arith),
    )
    add_to-ShowAll model b x [] (k ∷ counts) s h w = absurd h
    add_to-ShowAll model b x ((name, a) ∷ buckets) [] s h w = absurd h
    add_to-ShowAll model b x ((name, a) ∷ buckets) (k ∷ counts) s (g, h) (u, v, w) =
        elim (Bool-cases (str_eq name model)) [
          | inl e ↦ rw e (
            added k x ∷ counts,
            (plus-Shows a b k x g s (omega arith, omega arith, omega arith), h),
            counts_eq _ _ (omega arith) (omega arith) (omega arith),
          )
          | inr e ↦
              let (later, shown, same) =
                add_to-ShowAll model b x buckets counts s h
                  (omega arith, omega arith, omega arith) in
              rw e (
                k ∷ later,
                (g, shown),
                ap (λ (c : Counts). added c k) same
                    ∙ counts_eq _ _ (omega arith) (omega arith) (omega arith),
              )
        ]

    -- Where floats hold the integers up to a bound and add them exactly, adding one completion's usage to a balanced record gives a balanced record, while its totals stay in the
    -- bound: the floats by model are integers whose sums are the totals.
    pub merge_usage-IsBalanced :
        (totals : LlmUsageTotals floats) (usage : Option (LlmUsage floats))
        → IsBalanced totals
        → IsWithin bound (totals_of (merge_usage floats totals usage))
        → IsBalanced (merge_usage floats totals usage)
    unfolding merge_usage amounts
    merge_usage-IsBalanced totals none h w = h
    merge_usage-IsBalanced totals (some usage) (counts, shown, same) w =
        let x : Counts = record {
          prompt = (amounts floats usage).prompt_tokens;
          completion = (amounts floats usage).completion_tokens;
          total = (amounts floats usage).total_tokens;
        } in
        let all : totals_of (merge_usage floats totals (some usage)) ≡ added (sum_of counts) x =
          ap (λ (c : Counts). added c x) same in
        let (later, after, sum) =
          add_to-ShowAll (or_unknown floats (strip (or_unknown floats usage.model)))
            (as_floats floats (amounts floats usage)) x totals.by_model counts (refl, refl, refl)
            shown (subst (IsWithin bound) all w) in
        (later, after, all ∙ sym sum)

    -- Adding the models of one record to another adds the sums.
    add_all-ShowAll :
        (right : List (String × Bucket floats)) (more : List Counts)
        (into : List (String × Bucket floats)) (counts : List Counts)
        → ShowAll right more
        → ShowAll into counts
        → IsWithin bound (added (sum_of counts) (sum_of more))
        → (later : List Counts) × ShowAll (add_all floats right into) later
          × (sum_of later ≡ added (sum_of counts) (sum_of more))
    unfolding sum_of add_all
    add_all-ShowAll [] [] into counts g h w =
        (counts, h, counts_eq _ _ (omega arith) (omega arith) (omega arith))
    add_all-ShowAll [] (k ∷ more) into counts g h w = absurd g
    add_all-ShowAll ((name, b) ∷ right) [] into counts g h w = absurd g
    add_all-ShowAll ((name, b) ∷ right) (k ∷ more) into counts (s, g) h (u, v, w) =
        let (first, shown, one) =
          add_to-ShowAll name b k into counts s h (omega arith, omega arith, omega arith) in
        let p : (sum_of first).prompt ≡ (sum_of counts).prompt + k.prompt =
          ap (λ (c : Counts). c.prompt) one in
        let q : (sum_of first).completion ≡ (sum_of counts).completion + k.completion =
          ap (λ (c : Counts). c.completion) one in
        let r : (sum_of first).total ≡ (sum_of counts).total + k.total =
          ap (λ (c : Counts). c.total) one in
        let (later, after, all) =
          add_all-ShowAll right more (add_to floats name b into) first g shown
            (omega arith, omega arith, omega arith) in
        (later, after, all ∙ counts_eq _ _ (omega arith) (omega arith) (omega arith))

    -- Where floats hold the integers up to a bound and add them exactly, combining two balanced records gives a balanced record, while its totals stay in the bound.
    pub merge_totals-IsBalanced :
        (left right : LlmUsageTotals floats)
        → IsBalanced left
        → IsBalanced right
        → IsWithin bound (totals_of (merge_totals floats left right))
        → IsBalanced (merge_totals floats left right)
    unfolding merge_totals
    merge_totals-IsBalanced left right (counts, shown, same) (more, shows, sum) w =
        let all : totals_of (merge_totals floats left right) ≡ added (sum_of counts) (sum_of more) =
          λ i. added (same i) (sum i) in
        let (later, after, total) =
          add_all-ShowAll right.by_model more left.by_model counts shows shown
            (subst (IsWithin bound) all w) in
        (later, after, all ∙ sym total)
