-- ===== src/Tests/Runs.antt =====
-- A scripted provider that calls one tool and then finishes, and a run with it.
use generic_coding_agent.Prelude.{
  ◌≡◌, refl, ℕ, zero, suc, ◌+◌, ◌≤◌, max, String, Bool, true, Option, none, some, List, [], ◌∷◌,
  arith, if◌then◌else◌,
}
use generic_coding_agent.Prelude.Int.{pos}
use generic_coding_agent.Prelude.Text.{str_eq}
use generic_coding_agent.Json.{Json, Fields}
use generic_coding_agent.Usage.{
  Floats, LlmUsage, LlmUsageTotals, amounts, no_usage, merge_usage, merge_totals,
}
use generic_coding_agent.Usage.Totals.{
  IsExact, IsBalanced, sum_of, merge_usage-IsBalanced, merge_totals-IsBalanced,
}
use generic_coding_agent.Agent.{
  ToolCall, Message, ToolOutcome, get_item, LlmResponse, Environment, Agent, pending_tool_calls,
  run_tool_calls, run, result_of, status_active, loop, turn, ask, record_response, run_call,
  announce, answered, settle, run_tool, persist, end_with, hosted_outcome, exhaust, interrupt,
}
use generic_coding_agent.Agent.Answers.{run_tool_calls-pending}
use generic_coding_agent.Agent.Termination.{run_terminates}
use generic_coding_agent.Agent.Outcomes.{IsPersisted, run-IsPersisted, run_loses_outcome}

-- Floats as natural numbers, which are exact.
abbrev floats : Floats
floats = record { Float = ℕ; zero_float = 0; add_float = ◌+◌; of_int = λ n. n }

floats-IsExact : IsExact floats 100
floats-IsExact = record { zero_exact = refl; add_exact = λ a b h. refl }

abbrev call : String → String → ToolCall
call id name = record { id = id; name = name; arguments = Json.object Fields.end }

abbrev usage : LlmUsage floats
usage = record {
  prompt_tokens = pos 10;
  completion_tokens = pos 3;
  total_tokens = pos 0;
  cost_usd = some 2;
  model = "";
}

-- The first answer calls the tool "touch", every later one the tool "finish".
abbrev script : List Message → ℕ → Option (LlmResponse floats) × ℕ
script messages zero =
    (some (record { content = ""; tool_calls = call "c1" "touch" ∷ []; usage = some usage }), 1)
script messages (suc n) =
    (some (record { content = ""; tool_calls = call "c2" "finish" ∷ []; usage = none }), 1)

abbrev touch : Json → ℕ → ToolOutcome × ℕ
touch arguments world = (ToolOutcome.result true "touched", world + 1)

abbrev finish : Json → ℕ → ToolOutcome × ℕ
finish arguments world = (ToolOutcome.result true "done", world)

abbrev environment : Environment
environment = record {
  floats = floats;
  P = ℕ;
  W = ℕ;
  complete = script;
  get_state = λ p. [];
  active_name = λ p. none;
  model_id = λ p. "scripted";
  phase = "execute";
  allows = λ name. true;
  tools = λ name.
      if str_eq name "touch"
      then some touch
      else if str_eq name "finish"
      then some finish
      else none;
  redact = λ text. text;
  to_text = λ v. "";
  number_text = λ n. "2";
  has_store = true;
  max_steps = 2;
}

abbrev fresh : Agent environment
fresh = record {
  session = record {
    status = status_active;
    messages =
        record { role = "user"; content = "task"; tool_calls = []; tool_call_id = none } ∷ [];
    step_count = 0;
    final_message = "";
    inflight_tool_call_id = "";
    provider_state = [];
    active_model = "";
    llm_usage = no_usage floats;
  };
  provider = 0;
  world = 0;
  saved = [];
}

run_terminates_example :
    (done : Bool) × (b : Agent environment) × (run environment 6 fresh ≡ some (done, b))
    × (b.session.step_count ≤ max 2 0)
run_terminates_example = run_terminates environment 6 fresh (omega arith)

abbrev finished : Agent environment
finished = elim (run environment 6 fresh) [ none ↦ fresh | some (done, b) ↦ b ]

run_loses_outcome_example : (result_of environment finished).outcome_kind ≡ none
unfolding run loop turn pending_tool_calls ask record_response run_tool_calls run_call announce
    answered settle run_tool persist end_with hosted_outcome exhaust interrupt get_item
run_loses_outcome_example = run_loses_outcome environment 6 fresh finished (λ p. refl) refl refl

run-IsPersisted_example : IsPersisted environment finished
unfolding run loop turn pending_tool_calls ask record_response run_tool_calls run_call announce
    answered settle run_tool persist end_with hosted_outcome exhaust interrupt
run-IsPersisted_example = run-IsPersisted environment 6 fresh finished refl refl

-- The assistant has asked for the tool "touch".
abbrev asked : Agent environment
asked = record fresh {
  session = record fresh.session {
    messages =
        record {
          role = "assistant";
          content = "";
          tool_calls = call "c1" "touch" ∷ [];
          tool_call_id = none;
        }
        ∷ [];
  };
}

abbrev touched : Agent environment
touched = (run_tool_calls environment (pending_tool_calls asked.session.messages) asked).1

run_tool_calls-pending_example :
    (pending_tool_calls touched.session.messages ≡ [])
    × (touched.session.step_count ≡ asked.session.step_count)
unfolding run loop turn pending_tool_calls ask record_response run_tool_calls run_call announce
    answered settle run_tool persist end_with hosted_outcome exhaust interrupt
run_tool_calls-pending_example = run_tool_calls-pending environment asked touched refl

abbrev once : LlmUsageTotals floats
once = merge_usage floats (no_usage floats) (some usage)

merge_usage-IsBalanced_example : IsBalanced floats once
unfolding merge_usage amounts
merge_usage-IsBalanced_example =
    merge_usage-IsBalanced floats 100 floats-IsExact (no_usage floats) (some usage)
      ([], tt, unfold sum_of in refl) (omega arith, omega arith, omega arith)

merge_totals-IsBalanced_example : IsBalanced floats (merge_totals floats once once)
unfolding merge_usage merge_totals amounts
merge_totals-IsBalanced_example =
    merge_totals-IsBalanced floats 100 floats-IsExact once once merge_usage-IsBalanced_example
      merge_usage-IsBalanced_example (omega arith, omega arith, omega arith)
