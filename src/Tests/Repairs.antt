-- ===== src/Tests/Repairs.antt =====
-- A failed pipeline of an open merge request, and the complexity of a task.
use generic_coding_agent.Prelude.{
  ◌≡◌, refl, ◌≤◌, leb, true, false, none, some, List, [], ◌∷◌, inl, inr, arith, find_first,
  if◌then◌else◌,
}
use generic_coding_agent.Prelude.Int.{pos}
use generic_coding_agent.Prelude.Text.{str_eq}
use generic_coding_agent.Json.{Fields}
use generic_coding_agent.Issues.Models.{IssueGeneration, Turn, GenerationStatus}
use generic_coding_agent.Issues.Tables.{Tables, ok, empty_tables}
use generic_coding_agent.Issues.Work.{get_generation}
use generic_coding_agent.Issues.Remediation.{
  Environment, Draws, FailedJob, maybe_schedule_pipeline_remediation, remediation_turn,
}
use generic_coding_agent.Issues.Remediation.Attempts.{IsCapped, remediate-IsCapped}
use generic_coding_agent.Routing.{RoutingPolicy}
use generic_coding_agent.Routing.Bounds.{IsValid}
use generic_coding_agent.Complexity
use generic_coding_agent.Complexity.{
  classify_task, matches, normalized_text, is_some, join, task_text_for_classification,
}
use generic_coding_agent.Complexity.Levels.{classify_task-large, classify_task-workflow}

abbrev pub generation : IssueGeneration
generation = record {
  issue_session_id = "s1";
  id = "g1";
  status = GenerationStatus.awaiting_merge;
  wait_reason = none;
  target_branch = "main";
  target_base_sha = "";
  policy_fingerprint = "";
  branch_name = "gca/issues/5/x";
  steps_consumed = 4;
  max_steps = pos 100;
  remediation_attempts = 2;
  max_remediation_attempts = 3;
  outstanding_question_id = none;
  summary = "";
  merge_reason = none;
  lease_epoch = 0;
  cancel_requested = false;
  version = 1;
  created_at = 1;
  updated_at = 1;
  metadata = Fields.end;
}

abbrev tables : Tables
tables = record empty_tables { generations = generation ∷ [] }

abbrev environment : Environment
environment = record { lower = λ s. s; number_text = λ i. "9"; trace = λ p j. "FAILED test" }

abbrev draws : Draws
draws = record { note_id = "n1"; turn_id = "t1"; job_id = "j1"; event_id = "e1"; now = 5 }

abbrev failed_jobs : List FailedJob
failed_jobs =
    record {
      name = "unit";
      stage = "test";
      failure_reason = "script_failure";
      id = some (pos 3);
      project_id = some (pos 9);
    }
    ∷ []

tables-IsCapped : IsCapped tables
tables-IsCapped g (inl e) = rw e (omega arith)
tables-IsCapped g (inr i) = absurd i

read_fresh : get_generation "g1" tables ≡ ok generation tables
unfolding get_generation find_first
read_fresh = refl

remediate-IsCapped_example :
    IsCapped
      (maybe_schedule_pipeline_remediation environment draws "s1" "g1" "failed" failed_jobs
        generation tables).1
remediate-IsCapped_example =
    remediate-IsCapped environment draws "s1" "g1" "failed" failed_jobs generation tables read_fresh
      tables-IsCapped

-- A turn that an earlier pass queued.
abbrev pub queued_turn : Turn
queued_turn = remediation_turn draws "s1" "g1" 0 []

abbrev busy_tables : Tables
busy_tables = record tables { turns = queued_turn ∷ [] }

abbrev policy : RoutingPolicy
policy = record {
  workflow = "auto";
  model_preferences = [];
  minimum_strength = [];
  max_review_cycles = 2;
  review_step_reserve = 5;
  feature_threshold = 3;
  large_threshold = 7;
  small_keywords = "typo" ∷ [];
  feature_keywords = "add" ∷ [];
  large_keywords = "migration" ∷ [];
}

policy-IsValid : IsValid policy
policy-IsValid = record {
  known = refl;
  strengths = tt;
  cycles = omega arith;
  reserve = omega arith;
  ordered = omega arith;
  scale = omega arith;
}

-- Every text is one word, and a keyword occurs when it is the text.
abbrev reader : Complexity.Environment
reader = record {
  lower = λ s. s;
  words = λ s. s ∷ [];
  number_text = λ i. "3";
  scm_title = λ s. none;
  occurs = λ text keyword. str_eq text keyword;
  path_count = λ s. 0;
}

keyword_found :
    is_some (matches reader (normalized_text reader "migration") policy.large_keywords) ≡ true
unfolding matches join task_text_for_classification
keyword_found = refl

classify_task-large_example :
    ((classify_task reader "migration" policy).level ≡ "large")
    × ((classify_task reader "migration" policy).recommended_workflow ≡ "feature")
classify_task-large_example =
    classify_task-large reader "migration" policy policy-IsValid keyword_found

classify_task-workflow_example :
    ((classify_task reader "typo" policy).score ≤ 10)
    × ((classify_task reader "typo" policy).recommended_workflow ≡ (
        if leb policy.feature_threshold (classify_task reader "typo" policy).score
        then "feature"
        else "fast"))
classify_task-workflow_example = classify_task-workflow reader "typo" policy policy-IsValid
