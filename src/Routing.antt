-- ===== src/Routing.antt =====
-- gca/routing.py: the routing policy, read from the merged configuration. A mapping is a list of
-- fields with texts as keys; `str.lower` is a parameter.
pub mod Bounds
use generic_coding_agent.Prelude.{
  ℕ, max, leb, String, Bool, true, false, not, ◌&&◌, ◌||◌, Option, none, some, List, [], ◌∷◌, map,
  any, all, if◌then◌else◌,
}
use generic_coding_agent.Prelude.Int.{pos}
use generic_coding_agent.Prelude.Text.{str_eq, is_blank}
use generic_coding_agent.Json.{Json, Items, Fields}

pub data RoutingConfigError : Type 0 where
  unknown_keys : RoutingConfigError
  bad_workflow : RoutingConfigError
  not_mapping : RoutingConfigError
  unknown_roles : RoutingConfigError
  not_integer : RoutingConfigError
  out_of_range : RoutingConfigError
  thresholds_crossed : RoutingConfigError
  bad_models : RoutingConfigError
  repeated_model : RoutingConfigError
  bad_keywords : RoutingConfigError

pub data Checked {ℓ} (A : Type ℓ) : Type ℓ where
  ok : A → Checked A
  err : RoutingConfigError → Checked A

infixl 5 ◌>>=◌
abbrev pub ◌>>=◌ {ℓ κ} : {A : Type ℓ} {B : Type κ} → Checked A → (A → Checked B) → Checked B
ok a >>= f = f a
err e >>= f = err e

abbrev pub is_one_of : List String → String → Bool
is_one_of names name = any (str_eq name) names

abbrev pub workflows : List String
workflows = "auto" ∷ "fast" ∷ "feature" ∷ []

abbrev pub model_roles : List String
model_roles = "fast" ∷ "planning" ∷ "implementation" ∷ "review" ∷ []

pub record RoutingPolicy : Type 0 where
  pub workflow : String
  pub model_preferences : List (String × List String)
  pub minimum_strength : List (String × ℕ)
  pub max_review_cycles : ℕ
  pub review_step_reserve : ℕ
  pub feature_threshold : ℕ
  pub large_threshold : ℕ
  pub small_keywords : List String
  pub feature_keywords : List String
  pub large_keywords : List String

abbrev pub keys : Fields → List String
keys Fields.end = []
keys (Fields.field k v fields) = k ∷ keys fields

-- `raw.get(key)`, and `raw.get(key, default)`
unfoldable pub get : String → Fields → Option Json
get key Fields.end = none
get key (Fields.field k v fields) = if str_eq k key then some v else get key fields

abbrev pub get_or_else : String → Json → Fields → Json
get_or_else key default fields = elim (get key fields) [ none ↦ default | some v ↦ v ]

unfoldable pub check_keys : List String → RoutingConfigError → List String → Checked (Unit {0})
check_keys allowed e names = if all (is_one_of allowed) names then ok tt else err e

-- `_integer`; a Boolean is no integer here.
unfoldable pub integer : ℕ → ℕ → Json → Checked ℕ
integer low high (Json.int (pos n)) =
    if leb low n && leb n high then ok n else err RoutingConfigError.out_of_range
integer low high (Json.int _) = err RoutingConfigError.out_of_range
integer low high _ = err RoutingConfigError.not_integer

-- The loop of `_model_preference_list`, with the names seen so far.
unfoldable pub model_names : List String → Items → Checked (List String)
model_names seen Items.nil = ok []
model_names seen (Items.cons (Json.str name) items) =
    let rest = model_names (name ∷ seen) items in
    if is_blank name
    then err RoutingConfigError.bad_models
    else if is_one_of seen name
    then err RoutingConfigError.repeated_model
    else rest >>= λ names. ok (name ∷ names)
model_names seen (Items.cons _ items) = err RoutingConfigError.bad_models

unfoldable pub model_preference_list : Json → Checked (List String)
model_preference_list (Json.str name) =
    if is_blank name then err RoutingConfigError.bad_models else ok (name ∷ [])
model_preference_list (Json.array Items.nil) = err RoutingConfigError.bad_models
model_preference_list (Json.array (Items.cons v items)) = model_names [] (Items.cons v items)
model_preference_list _ = err RoutingConfigError.bad_models

-- The values of a mapping, each checked.
unfoldable pub each_value : {A : Type 0} → (Json → Checked A) → Fields → Checked (List (String × A))
each_value check Fields.end = ok []
each_value check (Fields.field k v fields) =
    let rest = each_value check fields in check v >>= λ a. rest >>= λ others. ok ((k, a) ∷ others)

unfoldable pub mapping : Json → Checked Fields
mapping (Json.object fields) = ok fields
mapping _ = err RoutingConfigError.not_mapping

abbrev pub names_of : {A : Type 0} → List (String × A) → List String
names_of entries = map (λ e. e.0) entries

-- `str(raw.get("workflow", WORKFLOW_AUTO))`: the text of no other value names a workflow.
unfoldable pub workflow_of : Option Json → Checked String
workflow_of none = ok "auto"
workflow_of (some (Json.str name)) =
    if is_one_of workflows name then ok name else err RoutingConfigError.bad_workflow
workflow_of (some _) = err RoutingConfigError.bad_workflow

unfoldable pub check_thresholds : ℕ → ℕ → Checked (Unit {0})
check_thresholds feature large =
    if leb feature large then ok tt else err RoutingConfigError.thresholds_crossed

module _ (lower : String → String) where
  unfoldable pub keyword_items : Items → Checked (List String)
  keyword_items Items.nil = ok []
  keyword_items (Items.cons (Json.str word) items) =
      let rest = keyword_items items in
      if is_blank word
      then err RoutingConfigError.bad_keywords
      else rest >>= λ words. ok (lower word ∷ words)
  keyword_items (Items.cons _ items) = err RoutingConfigError.bad_keywords

  -- `_keywords`
  unfoldable pub keywords : Option Json → List String → Checked (List String)
  keywords none default = ok default
  keywords (some Json.null) default = ok default
  keywords (some (Json.array items)) default = keyword_items items
  keywords (some _) default = err RoutingConfigError.bad_keywords

  abbrev pub default_small_keywords : List String
  default_small_keywords =
      "comment" ∷ "documentation" ∷ "format" ∷ "lint" ∷ "spelling" ∷ "typo" ∷ []

  abbrev pub default_feature_keywords : List String
  default_feature_keywords =
      "add" ∷ "build" ∷ "create" ∷ "enable" ∷ "implement" ∷ "introduce" ∷ "new feature" ∷ "support"
      ∷ []

  abbrev pub default_large_keywords : List String
  default_large_keywords =
      "architecture" ∷ "authentication" ∷ "database" ∷ "end-to-end" ∷ "migrate" ∷ "multi-agent"
      ∷ "multiple providers" ∷ "redesign" ∷ "refactor" ∷ "security" ∷ "workflow" ∷ []

  -- `RoutingPolicy.from_mapping`
  unfoldable pub from_mapping : Fields → Checked RoutingPolicy
  from_mapping raw = do
    checked ←
        check_keys
          ("workflow" ∷ "models" ∷ "minimum_strength" ∷ "max_review_cycles" ∷ "review_step_reserve"
            ∷ "complexity" ∷ [])
          RoutingConfigError.unknown_keys (keys raw)
    workflow ← workflow_of (get "workflow" raw)
    models ← mapping (get_or_else "models" (Json.object Fields.end) raw)
    preferences ← each_value model_preference_list models
    known ← check_keys model_roles RoutingConfigError.unknown_roles (names_of preferences)
    scores ← mapping (get_or_else "minimum_strength" (Json.object Fields.end) raw)
    strengths ← each_value (integer 1 5) scores
    known' ← check_keys model_roles RoutingConfigError.unknown_roles (names_of strengths)
    cycles ← integer 0 10 (get_or_else "max_review_cycles" (Json.int (pos 2)) raw)
    reserve ← integer 0 50 (get_or_else "review_step_reserve" (Json.int (pos 5)) raw)
    complexity ← mapping (get_or_else "complexity" (Json.object Fields.end) raw)
    checked' ←
        check_keys
          ("feature_threshold" ∷ "large_threshold" ∷ "small_keywords" ∷ "feature_keywords"
            ∷ "large_keywords" ∷ [])
          RoutingConfigError.unknown_keys (keys complexity)
    feature ← integer 0 10 (get_or_else "feature_threshold" (Json.int (pos 3)) complexity)
    large ← integer 0 10 (get_or_else "large_threshold" (Json.int (pos 6)) complexity)
    ordered ← check_thresholds feature large
    small_words ← keywords (get "small_keywords" complexity) default_small_keywords
    feature_words ← keywords (get "feature_keywords" complexity) default_feature_keywords
    large_words ← keywords (get "large_keywords" complexity) default_large_keywords
    ok (record {
      workflow = workflow;
      model_preferences = preferences;
      minimum_strength = strengths;
      max_review_cycles = cycles;
      review_step_reserve = reserve;
      feature_threshold = feature;
      large_threshold = large;
      small_keywords = small_words;
      feature_keywords = feature_words;
      large_keywords = large_words;
    })

-- `dict.get` on a policy's entries.
unfoldable pub entry {ℓ} : {A : Type ℓ} → String → A → List (String × A) → A
entry key default [] = default
entry key default ((k, a) ∷ entries) = if str_eq k key then a else entry key default entries

unfoldable pub preferred_models : RoutingPolicy → String → List String
preferred_models policy role = entry role [] policy.model_preferences

unfoldable pub preferred_model : RoutingPolicy → String → Option String
preferred_model policy role = elim (preferred_models policy role) [
  | [] ↦ none
  | name ∷ names ↦ some name
]

unfoldable pub min_strength : RoutingPolicy → String → String → ℕ
min_strength policy role complexity =
    let configured = entry role 1 policy.minimum_strength in
    if str_eq role "implementation" && str_eq complexity "large"
    then max configured 3
    else configured

unfoldable pub choose_workflow : RoutingPolicy → Option String → String → String
choose_workflow policy (some name) recommended = if str_eq name "auto" then recommended else name
choose_workflow policy none recommended =
    if not (str_eq policy.workflow "auto") then policy.workflow else recommended
