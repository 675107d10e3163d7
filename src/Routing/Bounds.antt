-- ===== src/Routing/Bounds.antt =====
-- What a routing policy that was accepted holds.
use generic_coding_agent.Prelude.{
  ◌≡◌, refl, sym, subst, ℕ, ◌≤◌, String, true, false, Option, none, some, List, [], ◌∷◌, arith,
  Bool-cases, inl, inr,
}
use generic_coding_agent.Prelude.Text.{str_eq}
use generic_coding_agent.Json.{Json, Fields}
use generic_coding_agent.Routing.{
  Checked, ok, err, ◌>>=◌, RoutingPolicy, RoutingConfigError, from_mapping, integer, each_value,
  entry, min_strength, choose_workflow, is_one_of, workflows, workflow_of, check_keys,
  check_thresholds, keys, keywords, mapping, get, model_preference_list,
}

>>=-ok {ℓ κ} :
    {A : Type ℓ} {B : Type κ} (m : Checked A) (f : A → Checked B) {b : B}
    → (m >>= f) ≡ ok b
    → (a : A) × (m ≡ ok a) × (f a ≡ ok b)
>>=-ok (ok a) f h = (a, refl, h)
>>=-ok (err e) f h = cc

ok-injective {ℓ} : {A : Type ℓ} {a b : A} → ok a ≡ ok b → a ≡ b
ok-injective h = cc

ok≢err {ℓ} : {A : Type ℓ} {a : A} {e : RoutingConfigError} → ok a ≡ err e → ⊥
ok≢err h = cc

-- Every configured strength is from 1 to 5.
abbrev pub AreStrengths : List (String × ℕ) → Type 0
AreStrengths [] = Unit
AreStrengths ((role, n) ∷ entries) = (1 ≤ n) × (n ≤ 5) × AreStrengths entries

-- The bounds that the rest of the program relies on.
pub record IsValid (policy : RoutingPolicy) : Type 0 where
  pub known : is_one_of workflows policy.workflow ≡ true
  pub strengths : AreStrengths policy.minimum_strength
  pub cycles : policy.max_review_cycles ≤ 10
  pub reserve : policy.review_step_reserve ≤ 50
  pub ordered : policy.feature_threshold ≤ policy.large_threshold
  pub scale : policy.large_threshold ≤ 10

integer-ok : (low high n : ℕ) (v : Json) → integer low high v ≡ ok n → (low ≤ n) × (n ≤ high)
unfolding integer
integer-ok low high n v h = ground arith

each_value-AreStrengths :
    (fields : Fields) (entries : List (String × ℕ))
    → each_value (integer 1 5) fields ≡ ok entries
    → AreStrengths entries
unfolding each_value
each_value-AreStrengths Fields.end entries h = subst AreStrengths (ok-injective h) tt
each_value-AreStrengths (Fields.field k v fields) entries h =
    let (n, checked, rest) = >>=-ok (integer 1 5 v) _ h in
    let (others, found, last) = >>=-ok (each_value (integer 1 5) fields) _ rest in
    let (low, high) = integer-ok 1 5 n v checked in
    subst AreStrengths (ok-injective last) (low, high, each_value-AreStrengths fields others found)

workflow_of-ok :
    (v : Option Json) (name : String) → workflow_of v ≡ ok name → is_one_of workflows name ≡ true
unfolding workflow_of
workflow_of-ok none name h = subst (λ n. is_one_of workflows n ≡ true) (ok-injective h) refl
workflow_of-ok (some (Json.str s)) name h = elim (Bool-cases (is_one_of workflows s)) [
  | inl e ↦ subst (λ n. is_one_of workflows n ≡ true) (ok-injective (rw (e, workflow_of) at h)) e
  | inr e ↦ absurd (ok≢err (sym (rw (e, workflow_of) at h)))
]
workflow_of-ok (some _) name h = cc

check_thresholds-ok :
    (feature large : ℕ) {u : Unit {0}} → check_thresholds feature large ≡ ok u → feature ≤ large
unfolding check_thresholds
check_thresholds-ok feature large h = ground arith

-- Every policy that `from_mapping` accepts is within its bounds, whatever the mapping holds.
pub from_mapping-IsValid :
    (lower : String → String) (raw : Fields) (policy : RoutingPolicy)
    → from_mapping lower raw ≡ ok policy
    → IsValid policy
unfolding from_mapping
from_mapping-IsValid lower raw policy h =
    let (_, _, h₁) = >>=-ok (check_keys _ _ (keys raw)) _ h in
    let (workflow, known, h₂) = >>=-ok (workflow_of (get "workflow" raw)) _ h₁ in
    let (models, _, h₃) = >>=-ok (mapping _) _ h₂ in
    let (preferences, _, h₄) = >>=-ok (each_value model_preference_list models) _ h₃ in
    let (_, _, h₅) = >>=-ok (check_keys _ _ _) _ h₄ in
    let (scores, _, h₆) = >>=-ok (mapping _) _ h₅ in
    let (strengths, scored, h₇) = >>=-ok (each_value (integer 1 5) scores) _ h₆ in
    let (_, _, h₈) = >>=-ok (check_keys _ _ _) _ h₇ in
    let (cycles, cycled, h₉) = >>=-ok (integer 0 10 _) _ h₈ in
    let (reserve, reserved, k₁) = >>=-ok (integer 0 50 _) _ h₉ in
    let (complexity, _, k₂) = >>=-ok (mapping _) _ k₁ in
    let (_, _, k₃) = >>=-ok (check_keys _ _ _) _ k₂ in
    let (feature, _, k₄) = >>=-ok (integer 0 10 _) _ k₃ in
    let (large, scaled, k₅) = >>=-ok (integer 0 10 _) _ k₄ in
    let (_, ordered, k₆) = >>=-ok (check_thresholds feature large) _ k₅ in
    let (_, _, k₇) = >>=-ok (keywords lower _ _) _ k₆ in
    let (_, _, k₈) = >>=-ok (keywords lower _ _) _ k₇ in
    let (_, _, last) = >>=-ok (keywords lower _ _) _ k₈ in
    subst IsValid (ok-injective last) (record {
      known = workflow_of-ok (get "workflow" raw) workflow known;
      strengths = each_value-AreStrengths scores strengths scored;
      cycles = (integer-ok 0 10 cycles _ cycled).1;
      reserve = (integer-ok 0 50 reserve _ reserved).1;
      ordered = check_thresholds-ok feature large ordered;
      scale = (integer-ok 0 10 large _ scaled).1;
    })

entry-AreStrengths :
    (entries : List (String × ℕ)) (role : String)
    → AreStrengths entries
    → (1 ≤ entry role 1 entries) × (entry role 1 entries ≤ 5)
unfolding entry
entry-AreStrengths [] role h = (omega arith, omega arith)
entry-AreStrengths ((r, n) ∷ entries) role (low, high, rest) =
    ground (arith, entry-AreStrengths entries role rest)

-- A valid policy asks each role for a strength from 1 to 5, and the implementation of a large task for
-- at least 3.
min_strength-bounds :
    (policy : RoutingPolicy) (role complexity : String)
    → IsValid policy
    → (1 ≤ min_strength policy role complexity)
      × (min_strength policy role complexity ≤ 5)
      × (3 ≤ min_strength policy "implementation" "large")
unfolding min_strength
min_strength-bounds policy role complexity valid =
    let (low, high) = entry-AreStrengths policy.minimum_strength role valid.strengths in
    (ground arith, ground arith, omega arith)

-- When the classifier recommends a workflow other than "auto", so is the one that is chosen, whatever
-- the command line and the policy say.
pub choose_workflow_decides :
    (policy : RoutingPolicy) (cli_workflow : Option String) (recommended : String)
    → str_eq recommended "auto" ≡ false
    → str_eq (choose_workflow policy cli_workflow recommended) "auto" ≡ false
unfolding choose_workflow
choose_workflow_decides policy none recommended h = ground arith
choose_workflow_decides policy (some name) recommended h = ground arith
