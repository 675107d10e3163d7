-- ===== src/Complexity/Levels.antt =====
-- The level of a task against its keywords.
use generic_coding_agent.Prelude.{
  ℕ, ◌≤◌, leb, String, Bool, true, false, not, List, [], ◌∷◌, ◌++◌, sym, any, ◌≡◌, refl, arith,
  if◌then◌else◌, Bool-cases, inl, inr,
}
use mathlib.Core.Bool.{true≢false}
use generic_coding_agent.Prelude.Int.{ℤ, pos, negsuc, leb_ℤ}
use generic_coding_agent.Routing.{RoutingPolicy}
use generic_coding_agent.Routing.Bounds.{IsValid}
use generic_coding_agent.Complexity.{
  Environment, Scored, normalized_text, matches, is_some, is_strong, raise_to, clamp, level_of,
  workflow_of, assessed, weighed, floored, classify_task,
}

clamp-bound : (s : ℤ) → clamp s ≤ 10
unfolding clamp
clamp-bound (pos n) = omega arith
clamp-bound (negsuc n) = omega arith

-- A threshold of at most ten that the score reaches is reached by the clamped score.
clamp-reaches :
    (threshold : ℕ) (s : ℤ)
    → threshold ≤ 10
    → leb_ℤ (pos threshold) s ≡ true
    → leb threshold (clamp s) ≡ true
unfolding clamp
clamp-reaches threshold (pos n) h r = ground arith
clamp-reaches threshold (negsuc n) h r = ground arith

raised :
    (threshold : ℕ) (signal : String) (s : Scored) (reached : Bool)
    → leb_ℤ (pos threshold) s.score ≡ reached
    → leb_ℤ
        (pos threshold)
        (if not reached
          then record { score = pos threshold; signals = s.signals ++ signal ∷ [] }
          else s).score
      ≡ true
raised threshold signal s true e = e
raised threshold signal s false e = ground arith

raise_to-reaches :
    (threshold : ℕ) (signal : String) (s : Scored)
    → leb_ℤ (pos threshold) (raise_to true threshold signal s).score ≡ true
unfolding raise_to
raise_to-reaches threshold signal s = raised threshold signal s _ refl

-- After the floors the score of a task with a large-change keyword reaches the large threshold.
floored-reaches :
    (policy : RoutingPolicy) (feature large : List String) (s : Scored)
    → is_some large ≡ true
    → leb_ℤ (pos policy.large_threshold) (floored policy feature large s).score ≡ true
unfolding floored raise_to
floored-reaches policy feature [] s h = absurd (true≢false (sym h))
floored-reaches policy feature (x ∷ large) s h = elim (Bool-cases (any is_strong feature)) [
  | inl e ↦ rw e (raise_to-reaches policy.large_threshold "large-change keyword floor" s)
  | inr e ↦ rw e (raise_to-reaches policy.large_threshold "large-change keyword floor" s)
]

-- Under a valid policy a task in which a large-change keyword is found is large, and is given the
-- feature workflow, whatever else its text says.
pub classify_task-large :
    (env : Environment) (task : String) (policy : RoutingPolicy)
    → IsValid policy
    → is_some (matches env (normalized_text env task) policy.large_keywords) ≡ true
    → ((classify_task env task policy).level ≡ "large")
      × ((classify_task env task policy).recommended_workflow ≡ "feature")
unfolding classify_task assessed level_of workflow_of
classify_task-large env task policy valid found =
    let reached = clamp-reaches policy.large_threshold _ valid.scale (
      floored-reaches policy (matches env (normalized_text env task) policy.feature_keywords)
        (matches env (normalized_text env task) policy.large_keywords)
        (weighed env (normalized_text env task)
          (matches env (normalized_text env task) policy.small_keywords)
          (matches env (normalized_text env task) policy.feature_keywords)
          (matches env (normalized_text env task) policy.large_keywords))
        found) in
    (rw reached refl, rw reached refl)

one_threshold :
    (a b : String) (score feature large : ℕ)
    → feature ≤ large
    → (if leb large score then a else if leb feature score then a else b)
      ≡ (if leb feature score then a else b)
one_threshold a b score feature large h = ground arith

-- Under a valid policy the score is at most ten, and the fast workflow is recommended exactly for the
-- scores below the feature threshold.
pub classify_task-workflow :
    (env : Environment) (task : String) (policy : RoutingPolicy)
    → IsValid policy
    → ((classify_task env task policy).score ≤ 10)
      × ((classify_task env task policy).recommended_workflow ≡ (
          if leb policy.feature_threshold (classify_task env task policy).score
          then "feature"
          else "fast"))
unfolding classify_task assessed workflow_of
classify_task-workflow env task policy valid = (
  clamp-bound _,
  one_threshold "feature" "fast" _ policy.feature_threshold policy.large_threshold valid.ordered,
)
