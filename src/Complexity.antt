-- ===== src/Complexity.antt =====
-- gca/complexity.py: the complexity of a task, which chooses its workflow. The regular expressions and
-- the splitting of texts are parameters.
pub mod Levels
use generic_coding_agent.Prelude.{
  ℕ, suc, ◌+◌, ◌-◌, ◌*◌, min, leb, String, Bool, true, false, not, ◌&&◌, ◌||◌, Option, none, some,
  List, [], ◌∷◌, ◌++◌, any, length, keep_if, if◌then◌else◌,
}
use generic_coding_agent.Prelude.Int.{ℤ, pos, negsuc, ◌+ℤ◌, leb_ℤ, sub_ℕ}
use generic_coding_agent.Prelude.Text.{str_eq, strip, ◌<>◌}
use generic_coding_agent.Routing.{RoutingPolicy}

pub record ComplexityAssessment : Type 0 where
  pub score : ℕ
  pub level : String
  pub signals : List String
  pub recommended_workflow : String

-- `str.lower`, `str.split`, `str` of a number; `scm_title` is the first group of `_SCM_ISSUE_TASK_RE`,
-- `occurs` the search for a keyword, `path_count` the number of paths found.
pub record Environment : Type 0 where
  pub lower : String → String
  pub words : String → List String
  pub number_text : ℤ → String
  pub scm_title : String → Option String
  pub occurs : String → String → Bool
  pub path_count : String → ℕ

unfoldable pub task_text_for_classification : Environment → String → String
task_text_for_classification env task = elim (env.scm_title (strip task)) [
  | none ↦ task
  | some group ↦ if str_eq (strip group) "" then task else strip group
]

unfoldable pub join : String → List String → String
join separator [] = ""
join separator (s ∷ rest) =
    let tail = join separator rest in elim rest [ [] ↦ s | r ∷ rs ↦ s <> separator <> tail ]

-- `_matches`
unfoldable pub matches : Environment → String → List String → List String
matches env text keywords = keep_if (env.occurs text) keywords

abbrev pub is_some : List String → Bool
is_some [] = false
is_some (s ∷ rest) = true

-- A score with the signals that led to it.
pub record Scored : Type 0 where
  pub score : ℤ
  pub signals : List String

abbrev pub add_score : Bool → ℤ → String → Scored → Scored
add_score true adjustment signal s = record {
  score = s.score +ℤ adjustment;
  signals = s.signals ++ signal ∷ [];
}
add_score false adjustment signal s = s

unfoldable pub small_adjustment : List String → ℤ
small_adjustment found = sub_ℕ 0 (min 4 (2 * length found))

unfoldable pub feature_adjustment : List String → ℤ
feature_adjustment found = pos (min 5 (3 + 2 * (length found - 1)))

unfoldable pub large_adjustment : List String → ℤ
large_adjustment found = pos (min 9 (3 * length found))

unfoldable pub add_words : ℕ → Scored → Scored
add_words word_count s =
    if leb 60 word_count
    then add_score true (pos 2) "long task description (+2)" s
    else add_score (leb 25 word_count) (pos 1) "detailed task description (+1)" s

-- A floor for the score.
unfoldable pub raise_to : Bool → ℕ → String → Scored → Scored
raise_to applies threshold signal s =
    if applies && not (leb_ℤ (pos threshold) s.score)
    then record { score = pos threshold; signals = s.signals ++ signal ∷ [] }
    else s

-- `max(0, min(10, score))`
unfoldable pub clamp : ℤ → ℕ
clamp (pos n) = min 10 n
clamp (negsuc n) = 0

-- `keyword not in {"add", "build", "create"}`
abbrev pub is_strong : String → Bool
is_strong keyword = not (str_eq keyword "add" || str_eq keyword "build" || str_eq keyword "create")

unfoldable pub level_of : RoutingPolicy → ℕ → String
level_of policy score =
    if leb policy.large_threshold score
    then "large"
    else if leb policy.feature_threshold score
    then "medium"
    else "small"

unfoldable pub workflow_of : RoutingPolicy → ℕ → String
workflow_of policy score =
    if leb policy.large_threshold score
    then "feature"
    else if leb policy.feature_threshold score
    then "feature"
    else "fast"

-- The score before the floors.
unfoldable pub weighed : Environment → String → List String → List String → List String → Scored
weighed env normalized small feature large =
    let start : Scored = record { score = pos 0; signals = [] } in
    let s1 =
      add_score (is_some small) (small_adjustment small)
        ("small keywords (" <> env.number_text (small_adjustment small) <> "): " <> join ", " small)
        start in
    let s2 =
      add_score (is_some feature) (feature_adjustment feature)
        ("feature keywords (+"
          <> env.number_text (feature_adjustment feature)
          <> "): "
          <> join ", " feature)
        s1 in
    let s3 =
      add_score (is_some large) (large_adjustment large)
        ("large-change keywords (+"
          <> env.number_text (large_adjustment large)
          <> "): "
          <> join ", " large)
        s2 in
    let s4 = add_words (length (env.words normalized)) s3 in
    add_score (leb 2 (env.path_count normalized)) (pos 1) "multiple paths mentioned (+1)" s4

unfoldable pub assessed : RoutingPolicy → Scored → ComplexityAssessment
assessed policy s = record {
  score = clamp s.score;
  level = level_of policy (clamp s.score);
  signals = if is_some s.signals then s.signals else "no complexity signals" ∷ [];
  recommended_workflow = workflow_of policy (clamp s.score);
}

abbrev pub normalized_text : Environment → String → String
normalized_text env task = join " " (env.words (env.lower (task_text_for_classification env task)))

unfoldable pub floored : RoutingPolicy → List String → List String → Scored → Scored
floored policy feature large s =
    raise_to (any is_strong feature && not (is_some large)) policy.feature_threshold
      "explicit feature keyword floor"
      (raise_to (is_some large) policy.large_threshold "large-change keyword floor" s)

unfoldable pub classify_task : Environment → String → RoutingPolicy → ComplexityAssessment
classify_task env task policy =
    let normalized = normalized_text env task in
    let small = matches env normalized policy.small_keywords in
    let feature = matches env normalized policy.feature_keywords in
    let large = matches env normalized policy.large_keywords in
    assessed policy (floored policy feature large (weighed env normalized small feature large))
