-- ===== src/Agent.antt =====
-- gca/agent.py: the loop that asks the provider, runs the tools it calls and keeps the session. The
-- provider, the tools, the redaction of secrets and the phase's allowlist are parameters.
pub mod Answers
pub mod Termination
pub mod Outcomes
use generic_coding_agent.Prelude.{
  ℕ, suc, zero, ◌+◌, leb, String, Bool, true, false, not, ◌&&◌, ◌||◌, Option, none, some, List, [],
  ◌∷◌, ◌++◌, any, keep_if, if◌then◌else◌,
}
use generic_coding_agent.Prelude.Text.{str_eq, opt_eq, ◌<>◌}
use generic_coding_agent.Prelude.Int.{pos}
use generic_coding_agent.Json.{Json, Items, Fields}
use generic_coding_agent.Usage.{Floats, LlmUsage, LlmUsageTotals, merge_usage}

-- gca/session.py, the statuses of a session.
abbrev pub status_active : String
status_active = "active"

abbrev pub status_completed : String
status_completed = "completed"

abbrev pub status_failed : String
status_failed = "failed"

abbrev pub status_paused : String
status_paused = "paused"

pub record ToolCall : Type 0 where
  pub id : String
  pub name : String
  pub arguments : Json

pub record Message : Type 0 where
  pub role : String
  pub content : String
  pub tool_calls : List ToolCall
  pub tool_call_id : Option String

-- What a call of a tool does: it returns a result, it raises a `ToolError`, or it raises something
-- else, whose text the loop puts together.
pub data ToolOutcome : Type 0 where
  result : Bool → String → ToolOutcome
  tool_error : String → ToolOutcome
  crashed : String → ToolOutcome

-- The five control tools, gca/tools/control.py.
abbrev pub hosted_control_tool_names : List String
hosted_control_tool_names =
    "finish" ∷ "changes_ready" ∷ "needs_human" ∷ "no_safe_change" ∷ "fail_turn" ∷ []

-- `_hosted_outcome`
unfoldable pub hosted_outcome : String → String
hosted_outcome name =
    if str_eq name "changes_ready"
    then "changes_ready"
    else if str_eq name "needs_human"
    then "needs_human"
    else if str_eq name "no_safe_change"
    then "no_safe_change"
    else if str_eq name "fail_turn"
    then "failed"
    else "changes_ready"

-- The ids that tool messages answer.
abbrev pub answers : String → Message → Bool
answers id m = str_eq m.role "tool" && opt_eq m.tool_call_id (some id)

-- The calls that the assistant's messages make, in order.
abbrev pub requested : List Message → List ToolCall
requested [] = []
requested (m ∷ messages) =
    let rest = requested messages in
    if str_eq m.role "assistant" then m.tool_calls ++ rest else rest

-- `_pending_tool_calls`
unfoldable pub pending_tool_calls : List Message → List ToolCall
pending_tool_calls messages = keep_if (λ c. not (any (answers c.id) messages)) (requested messages)

-- `dict.get` and item assignment of the provider state.
abbrev pub State : Type 0
State = List (String × Json)

unfoldable pub get_item : String → State → Option Json
get_item key [] = none
get_item key ((k, v) ∷ items) = if str_eq k key then some v else get_item key items

unfoldable pub set_item : String → Json → State → State
set_item key v [] = (key, v) ∷ []
set_item key v ((k, w) ∷ items) =
    if str_eq k key then (k, v) ∷ items else (k, w) ∷ set_item key v items

module _ (floats : Floats) where
  pub record LlmResponse : Type 0 where
    pub content : String
    pub tool_calls : List ToolCall
    pub usage : Option (LlmUsage floats)

  -- The part of a session that the loop reads or changes.
  pub record Session : Type 0 where
    pub status : String
    pub messages : List Message
    pub step_count : ℕ
    pub final_message : String
    pub inflight_tool_call_id : String
    pub provider_state : State
    pub active_model : String
    pub llm_usage : LlmUsageTotals floats

pub record AgentResult : Type 0 where
  pub status : String
  pub steps : ℕ
  pub final_message : String
  pub outcome_kind : Option String

-- What stands outside this file. The provider keeps a state `P` of its own, and `none` of
-- `complete` is an exception, which ends the run; the tools act on a world `W`, and `none` of
-- `tools` is an unknown tool; `to_text` is `str`; `has_store` is whether a saver is given.
pub record Environment : Type 1 where
  pub floats : Floats
  pub P : Type 0
  pub W : Type 0
  pub complete : List Message → P → Option (LlmResponse floats) × P
  pub get_state : P → State
  pub active_name : P → Option String
  pub model_id : P → String
  pub phase : String
  pub allows : String → Bool
  pub tools : String → Option (Json → W → ToolOutcome × W)
  pub redact : String → String
  pub to_text : Json → String
  pub number_text : ℕ → String
  pub has_store : Bool
  pub max_steps : ℕ

module _ (env : Environment) where
  open env use {
    floats, P, W, complete, get_state, active_name, model_id, phase, allows, tools, redact, to_text,
    number_text, has_store, max_steps,
  }

  -- The agent with what it changes; `saved` holds what was persisted, the last first.
  pub record Agent : Type 0 where
    pub session : Session floats
    pub provider : P
    pub world : W
    pub saved : List (Session floats)

  -- `_persist`: the provider's state replaces the session's.
  unfoldable pub persist : Agent → Agent
  persist agent =
      let session = record agent.session { provider_state = get_state agent.provider } in
      record agent {
        session = session;
        saved = if has_store then session ∷ agent.saved else agent.saved;
      }

  -- `v or ""` as a text, `none` for the empty one.
  unfoldable pub text_or_none : Option Json → Option String
  text_or_none none = none
  text_or_none (some Json.null) = none
  text_or_none (some (Json.boolean false)) = none
  text_or_none (some (Json.int (pos zero))) = none
  text_or_none (some (Json.float zero)) = none
  text_or_none (some (Json.str s)) = if str_eq s "" then none else some s
  text_or_none (some (Json.array Items.nil)) = none
  text_or_none (some (Json.object Fields.end)) = none
  text_or_none (some v) = let s = to_text v in if str_eq s "" then none else some s

  -- `_result`
  unfoldable pub result_of : Agent → AgentResult
  result_of agent = record {
    status = agent.session.status;
    steps = agent.session.step_count;
    final_message = agent.session.final_message;
    outcome_kind = text_or_none (get_item "outcome_kind" agent.session.provider_state);
  }

  -- `_run_tool`: the output, whether it is ok, and whether it is fatal.
  unfoldable pub run_tool : String → Json → W → (String × Bool × Bool) × W
  run_tool name arguments world =
      if not (allows name)
      then (("error: tool '" <> name <> "' is not allowed in phase " <> phase, false, false), world)
      else elim (tools name) [
        | none ↦ (("error: unknown tool '" <> name <> "'", false, false), world)
        | some tool ↦
            let (outcome, world') = tool arguments world in
            elim outcome [
              | result ok output ↦ ((redact output, ok, false), world')
              | tool_error text ↦ ((redact ("error: " <> text), false, false), world')
              | crashed text ↦
                  ((redact ("error: tool '" <> name <> "' raised " <> text), false, true), world')
            ]
      ]

  -- The assignments before a `return True`: the status, the final message and the outcome, and then
  -- the session is persisted.
  unfoldable pub end_with : String → String → String → Agent → Agent
  unfolding persist
  end_with status message kind agent = persist (record agent {
    session = record agent.session {
      status = status;
      final_message = message;
      provider_state = set_item "outcome_kind" (Json.str kind) agent.session.provider_state;
    };
  })

  abbrev pub hosted_status : String → String
  hosted_status outcome =
      if str_eq outcome "needs_human"
      then status_paused
      else if str_eq outcome "failed"
      then status_failed
      else status_completed

  -- The session that is persisted before a call runs.
  unfoldable pub announce : ToolCall → Agent → Agent
  announce call agent =
      persist (record agent { session = record agent.session { inflight_tool_call_id = call.id } })

  -- The tool message is appended, and no call is in flight any more.
  unfoldable pub answered : ToolCall → String → W → Agent → Agent
  answered call output world agent = record agent {
    session = record agent.session {
      messages =
          agent.session.messages
          ++ record {
            role = "tool";
            content = output;
            tool_calls = [];
            tool_call_id = some call.id;
          }
            ∷ [];
      inflight_tool_call_id = "";
    };
    world = world;
  }

  -- What follows a call in the loop of `_run_tool_calls`: whether to return `True`.
  unfoldable pub settle : ToolCall → String → Bool → Bool → Agent → Bool × Agent
  settle call output ok fatal agent =
      if fatal
      then (true, end_with status_failed output "failed" agent)
      else if str_eq call.name "finish" && ok
      then (true, end_with status_completed output "changes_ready" agent)
      else if any (str_eq call.name) hosted_control_tool_names && ok
      then (
        true,
        end_with (hosted_status (hosted_outcome call.name)) output (hosted_outcome call.name) agent,
      )
      else (false, persist agent)

  -- One call of the loop.
  unfoldable pub run_call : ToolCall → Agent → Bool × Agent
  run_call call agent =
      let before = announce call agent in
      let ((output, ok, fatal), world) = run_tool call.name call.arguments before.world in
      settle call output ok fatal (answered call output world before)

  -- `_run_tool_calls`
  unfoldable pub run_tool_calls : List ToolCall → Agent → Bool × Agent
  run_tool_calls [] agent = (false, agent)
  run_tool_calls (call ∷ calls) agent =
      let (stop, agent') = run_call call agent in
      elim stop [ true ↦ (true, agent') | false ↦ run_tool_calls calls agent' ]

  -- How a turn of the loop ends: by a return, by an exception of the provider, or with another turn.
  pub data Turn : Type 0 where
    returned : Agent → Turn
    raised : Agent → Turn
    again : Agent → Turn

  -- The model that the totals name when the provider names none.
  abbrev pub usage_of : Session floats → P → Option (LlmUsage floats) → Option (LlmUsage floats)
  usage_of session provider none = none
  usage_of session provider (some usage) = some (
      if str_eq usage.model ""
      then record usage {
        model = if str_eq session.active_model "" then model_id provider else session.active_model;
      }
      else usage)

  -- The session takes the response in.
  unfoldable pub record_response : LlmResponse floats → P → Session floats → Session floats
  record_response response provider session =
      let named = record session {
        active_model = elim (active_name provider) [
          | none ↦ session.active_model
          | some name ↦ if str_eq name "" then session.active_model else name
        ];
      } in
      record named {
        llm_usage = merge_usage floats named.llm_usage (usage_of named provider response.usage);
        step_count = suc named.step_count;
        messages =
            named.messages
            ++ record {
              role = "assistant";
              content = redact response.content;
              tool_calls = response.tool_calls;
              tool_call_id = none;
            }
              ∷ [];
      }

  -- The turn that asks the provider.
  unfoldable pub ask : Agent → Turn
  ask agent =
      let (response, provider) = complete agent.session.messages agent.provider in
      elim response [
        | none ↦ raised (record agent { provider = provider })
        | some r ↦
            let session = record_response r provider agent.session in
            let asked = record agent { session = session; provider = provider } in
            elim r.tool_calls [
              | [] ↦ returned (
                  persist (record asked {
                    session = record session {
                      status = status_completed;
                      final_message = redact r.content;
                    };
                  }))
              | _ ∷ _ ↦ again (persist asked)
            ]
      ]

  -- The turn that stops on the step budget.
  unfoldable pub exhaust : Agent → Agent
  exhaust agent =
      end_with status_paused ("Step budget (" <> number_text max_steps <> ") exhausted.")
        "budget_exhausted" agent

  -- The body of `while True`.
  unfoldable pub turn : Agent → Turn
  turn agent = elim (pending_tool_calls agent.session.messages) [
    | [] ↦ if leb max_steps agent.session.step_count then returned (exhaust agent) else ask agent
    | call ∷ calls ↦
        let (stop, agent') = run_tool_calls (call ∷ calls) agent in
        if stop then returned agent' else again agent'
  ]

  -- The loop on fuel; `none` is fuel that ran out. The Boolean is whether the run returned.
  unfoldable pub loop : ℕ → Agent → Option (Bool × Agent)
  loop zero agent = none
  loop (suc fuel) agent = elim (turn agent) [
    | returned agent' ↦ some (true, agent')
    | raised agent' ↦ some (false, agent')
    | again agent' ↦ loop fuel agent'
  ]

  -- A call that was announced and not answered when the last run ended.
  unfoldable pub interrupt : Agent → Agent
  interrupt agent = persist (record agent {
    session = record agent.session {
      status = status_failed;
      final_message =
          "Tool call '" <> agent.session.inflight_tool_call_id
          <> "' was interrupted; its side effects are unknown.";
    };
  })

  -- `run`
  unfoldable pub run : ℕ → Agent → Option (Bool × Agent)
  run fuel agent =
      if str_eq agent.session.status status_completed || str_eq agent.session.status status_failed
      then some (true, agent)
      else if not (str_eq agent.session.inflight_tool_call_id "")
      then some (true, interrupt agent)
      else loop fuel (record agent { session = record agent.session { status = status_active } })
