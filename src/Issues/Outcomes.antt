-- ===== src/Issues/Outcomes.antt =====
-- gca/issue_sessions/outcomes.py: what the result of an agent's turn does to the turn, its generation
-- and session, and the action that it puts into the outbox.
use generic_coding_agent.Prelude.{ℕ, ◌+◌, String, Option, none, some, if◌then◌else◌}
use generic_coding_agent.Prelude.Int.{ℤ, pos}
use generic_coding_agent.Prelude.Text.{str_eq, ◌<>◌}
use generic_coding_agent.Json.{Json, Fields}
use generic_coding_agent.Agent.{AgentResult, status_paused, status_failed}
use generic_coding_agent.Issues.Models.{
  IssueSession, IssueGeneration, Turn, OutboundAction, GenerationStatus, TurnStatus,
  TurnOutcomeKind, WaitReason, OutboundActionStatus, outcome_value,
}
use generic_coding_agent.Issues.Tables.{Work, ◌>>=◌, pure}
use generic_coding_agent.Issues.Work.{
  get_session, get_generation, fetch_turn, insert_outbound_action, save_turn, save_generation,
  save_session, append_event,
}

-- `TurnOutcomeKind(raw)`
unfoldable pub parse_outcome : String → Option TurnOutcomeKind
parse_outcome raw =
    if str_eq raw "changes_ready"
    then some TurnOutcomeKind.changes_ready
    else if str_eq raw "needs_human"
    then some TurnOutcomeKind.needs_human
    else if str_eq raw "no_safe_change"
    then some TurnOutcomeKind.no_safe_change
    else if str_eq raw "failed"
    then some TurnOutcomeKind.failed
    else if str_eq raw "budget_exhausted"
    then some TurnOutcomeKind.budget_exhausted
    else none

-- What the status says when the result carries no outcome that is known.
unfoldable pub outcome_of_status : String → TurnOutcomeKind
outcome_of_status status =
    if str_eq status status_paused
    then TurnOutcomeKind.budget_exhausted
    else if str_eq status status_failed
    then TurnOutcomeKind.failed
    else TurnOutcomeKind.changes_ready

-- `_outcome_kind`; the empty text names no outcome.
unfoldable pub outcome_kind : AgentResult → TurnOutcomeKind
outcome_kind result = elim result.outcome_kind [
  | none ↦ outcome_of_status result.status
  | some raw ↦ elim (parse_outcome raw) [
    | none ↦ outcome_of_status result.status
    | some kind ↦ kind
  ]
]

-- The identifiers and stamps that one application draws, in order.
pub record Draws : Type 0 where
  pub question_id : String
  pub action_id : String
  pub action_at : ℕ
  pub turn_at : ℕ
  pub generation_at : ℕ
  pub session_at : ℕ
  pub event_id : String
  pub event_at : ℕ

-- What a branch of `apply` decides.
pub record Decision : Type 0 where
  pub turn : Turn
  pub generation : IssueGeneration
  pub kind : String
  pub effect_key : String
  pub payload : Fields

-- The fields of a note's payload.
abbrev pub note : String → ℤ → Fields → Fields
note template issue_iid rest =
    Fields.field "template" (Json.str template) (Fields.field "issue_iid" (Json.int issue_iid) rest)

abbrev pub summary_only : String → Fields
summary_only summary = Fields.field "summary" (Json.str summary) Fields.end

-- The branch of a failed turn.
unfoldable pub failed_turn : AgentResult → Turn → IssueGeneration → IssueSession → Decision
failed_turn result turn generation session = record {
  turn = record turn { status = TurnStatus.failed };
  generation = record generation {
    status = GenerationStatus.failed;
    summary = result.final_message;
  };
  kind = "issue_note";
  effect_key = "note:" <> session.id <> ":" <> turn.id <> ":failed";
  payload = note "failed" session.issue_iid (summary_only result.final_message);
}

-- The five branches, on a turn and a generation that have the steps and the outcome recorded.
unfoldable pub decide :
    Draws → TurnOutcomeKind → AgentResult → Turn → IssueGeneration → IssueSession → Decision
decide draws TurnOutcomeKind.needs_human result turn generation session = record {
  turn = record turn { status = TurnStatus.succeeded; question_id = some draws.question_id };
  generation = record generation {
    status = GenerationStatus.waiting_human;
    wait_reason = some WaitReason.clarification;
    outstanding_question_id = some draws.question_id;
    summary = result.final_message;
  };
  kind = "issue_note";
  effect_key = "note:" <> session.id <> ":" <> draws.question_id;
  payload = note "clarification" session.issue_iid (
      Fields.field "question" (Json.str result.final_message)
        (Fields.field "question_id" (Json.str draws.question_id) Fields.end));
}
decide draws TurnOutcomeKind.no_safe_change result turn generation session = record {
  turn = record turn { status = TurnStatus.succeeded };
  generation = record generation {
    status = GenerationStatus.waiting_human;
    wait_reason = some WaitReason.no_safe_change;
    summary = result.final_message;
  };
  kind = "issue_note";
  effect_key = "note:" <> session.id <> ":" <> turn.id <> ":no_change";
  payload = note "no_safe_change" session.issue_iid (summary_only result.final_message);
}
decide draws TurnOutcomeKind.budget_exhausted result turn generation session = record {
  turn = record turn { status = TurnStatus.paused_budget };
  generation = record generation {
    status = GenerationStatus.waiting_human;
    wait_reason = some WaitReason.budget_exhausted;
    summary = result.final_message;
  };
  kind = "issue_note";
  effect_key = "note:" <> session.id <> ":" <> turn.id <> ":budget_exhausted";
  payload = note "budget_exhausted" session.issue_iid (summary_only result.final_message);
}
decide draws TurnOutcomeKind.failed result turn generation session =
    failed_turn result turn generation session
decide draws TurnOutcomeKind.changes_ready result turn generation session =
    if str_eq result.status status_failed
    then failed_turn result turn generation session
    else record {
      turn = record turn { status = TurnStatus.succeeded };
      generation = record generation {
        status = GenerationStatus.publishing;
        summary = result.final_message;
      };
      kind = "publish_changes";
      effect_key = "publish:" <> session.id <> ":" <> generation.id <> ":" <> turn.id;
      payload = Fields.field "summary" (Json.str result.final_message) (
          Fields.field "workspace_path"
            (elim turn.workspace_path [ none ↦ Json.null | some path ↦ Json.str path ])
            (Fields.field "issue_title" (Json.str session.issue_title)
              (Fields.field "issue_iid" (Json.int session.issue_iid) Fields.end)));
    }

-- The payload of the event; `first_2000` is the slice of that length.
unfoldable pub outcome_payload : (String → String) → TurnOutcomeKind → AgentResult → Fields
outcome_payload first_2000 kind result = Fields.field "outcome" (Json.str (outcome_value kind)) (
    Fields.field "status" (Json.str result.status) (
      Fields.field "summary" (Json.str (first_2000 result.final_message))
        (Fields.field "steps" (Json.int (pos result.steps)) Fields.end)))

unfoldable pub action_of : Draws → Decision → IssueSession → OutboundAction
action_of draws decision session = record {
  issue_session_id = session.id;
  generation_id = decision.generation.id;
  kind = decision.kind;
  effect_key = decision.effect_key;
  id = draws.action_id;
  turn_id = some decision.turn.id;
  status = OutboundActionStatus.pending;
  lease_epoch = 0;
  payload = decision.payload;
  result = Fields.end;
  attempts = 0;
  last_error = "";
  created_at = draws.action_at;
  updated_at = draws.action_at;
}

-- The steps and the outcome, recorded before the branches.
abbrev pub with_result : TurnOutcomeKind → AgentResult → Turn → Turn
with_result kind result turn = record turn {
  steps_consumed = result.steps;
  outcome_kind = some kind;
  outcome_summary = result.final_message;
}

abbrev pub with_steps : AgentResult → IssueGeneration → IssueGeneration
with_steps result generation = record generation {
  steps_consumed = generation.steps_consumed + result.steps;
}

-- The writes after the branches.
unfoldable pub persist_outcome :
    (String → String)
    → Draws
    → TurnOutcomeKind
    → AgentResult
    → IssueSession
    → Decision
    → Work (Unit {0})
persist_outcome first_2000 draws kind result session decision = do
  action ← insert_outbound_action (action_of draws decision session)
  turn ← save_turn draws.turn_at decision.turn
  generation ← save_generation draws.generation_at decision.generation
  saved ← save_session draws.session_at (record session { status = generation.status })
  event ←
      append_event draws.event_id draws.event_at session.id "turn_outcome"
        (outcome_payload first_2000 kind result) (some generation.id) (some turn.id)
  pure tt

-- `TurnOutcomeApplicator.apply`, the body of its unit of work.
unfoldable pub apply : (String → String) → Draws → String → AgentResult → Work (Unit {0})
apply first_2000 draws turn_id result = do
  turn ← fetch_turn turn_id
  generation ← get_generation turn.generation_id
  session ← get_session turn.issue_session_id
  persist_outcome first_2000 draws (outcome_kind result) result session (
      decide draws (outcome_kind result) result (with_result (outcome_kind result) result turn)
        (with_steps result generation) session)
