-- ===== src/Tests/Policies.antt =====
-- A configuration with a workflow, a strength and a threshold.
use generic_coding_agent.Prelude.{◌≡◌, refl, String, some, false, [], ◌∷◌}
use generic_coding_agent.Prelude.Int.{pos}
use generic_coding_agent.Prelude.Text.{str_eq}
use generic_coding_agent.Json.{Json, Fields}
use generic_coding_agent.Routing.{
  RoutingPolicy, from_mapping, check_keys, workflow_of, get, mapping, each_value, integer,
  check_thresholds, keywords, choose_workflow, default_small_keywords, default_feature_keywords,
  default_large_keywords,
}
use generic_coding_agent.Routing.Bounds.{IsValid, from_mapping-IsValid, choose_workflow_decides}

abbrev same : String → String
same text = text

abbrev configuration : Fields
configuration = Fields.field "workflow" (Json.str "feature") (
    Fields.field "minimum_strength"
      (Json.object (Fields.field "review" (Json.int (pos 4)) Fields.end))
      (Fields.field "complexity"
        (Json.object (Fields.field "large_threshold" (Json.int (pos 7)) Fields.end)) Fields.end))

abbrev policy : RoutingPolicy
policy = record {
  workflow = "feature";
  model_preferences = [];
  minimum_strength = ("review", 4) ∷ [];
  max_review_cycles = 2;
  review_step_reserve = 5;
  feature_threshold = 3;
  large_threshold = 7;
  small_keywords = default_small_keywords same;
  feature_keywords = default_feature_keywords same;
  large_keywords = default_large_keywords same;
}

from_mapping-IsValid_example : IsValid policy
unfolding from_mapping check_keys workflow_of get mapping each_value integer check_thresholds
    keywords
from_mapping-IsValid_example = from_mapping-IsValid same configuration policy refl

choose_workflow_decides_example :
    str_eq (choose_workflow policy (some "auto") "fast") "auto" ≡ false
choose_workflow_decides_example = choose_workflow_decides policy (some "auto") "fast" refl
