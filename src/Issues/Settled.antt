-- ===== src/Issues/Settled.antt =====
-- What an applied outcome leaves: a table of the statuses against the code's five branches.
pub mod Applied
use generic_coding_agent.Prelude.{
  String, Bool, Option, ◌⊎◌, true, false, some, ◌≡◌, refl, sym, ◌∙◌, subst, In, List, Bool-cases,
  inl, inr,
}
use generic_coding_agent.Prelude.Text.{str_eq, eq_iff, ◌<>◌}
use generic_coding_agent.Agent.{AgentResult, status_failed}
use generic_coding_agent.Issues.Models.{
  IssueSession, IssueGeneration, Turn, OutboundAction, SessionEvent, GenerationStatus, TurnStatus,
  TurnOutcomeKind, WaitReason, OutboundActionStatus,
}
use generic_coding_agent.Issues.Tables.{Tables, ok, pure}
use generic_coding_agent.Issues.Work.{get_session, get_generation, fetch_turn}
use generic_coding_agent.Issues.Outcomes.{
  Draws, Decision, decide, failed_turn, outcome_kind, with_result, with_steps, action_of,
  outcome_payload, persist_outcome, apply,
}
use generic_coding_agent.Issues.Contracts.Statements.{append_event-Keeps}
use generic_coding_agent.Issues.Contracts.Values.{
  Gives, Gives-ok, ok-Gives, read-Gives, Gives-weaken, Gives-chain, HasEffect, save_turn-Gives,
  save_generation-Gives, save_session-Gives, Ensures-Gives, insert_outbound_action-Gives,
}

-- The status of the generation after an outcome; `failed` is that the agent's result failed.
abbrev pub generation_after : TurnOutcomeKind → Bool → GenerationStatus
generation_after TurnOutcomeKind.changes_ready false = GenerationStatus.publishing
generation_after TurnOutcomeKind.changes_ready true = GenerationStatus.failed
generation_after TurnOutcomeKind.failed failed = GenerationStatus.failed
generation_after _ failed = GenerationStatus.waiting_human

-- The status of the turn after it: only a turn out of budget stays open.
abbrev pub turn_after : TurnOutcomeKind → Bool → TurnStatus
turn_after TurnOutcomeKind.budget_exhausted failed = TurnStatus.paused_budget
turn_after TurnOutcomeKind.failed failed = TurnStatus.failed
turn_after TurnOutcomeKind.changes_ready true = TurnStatus.failed
turn_after _ failed = TurnStatus.succeeded

-- What the generation waits for after it; where it does not begin to wait, the reason it had stays.
abbrev pub wait_after : TurnOutcomeKind → Option WaitReason → Option WaitReason
wait_after TurnOutcomeKind.needs_human prior = some WaitReason.clarification
wait_after TurnOutcomeKind.no_safe_change prior = some WaitReason.no_safe_change
wait_after TurnOutcomeKind.budget_exhausted prior = some WaitReason.budget_exhausted
wait_after _ prior = prior

-- The kind of the action after it, by which the outbox chooses what to send.
abbrev pub kind_after : TurnOutcomeKind → Bool → String
kind_after TurnOutcomeKind.changes_ready false = "publish_changes"
kind_after _ failed = "issue_note"

-- The key of the action after it, by the identifiers of the question, session, generation and turn: one
-- for each question, and one for each turn of another outcome.
abbrev pub effect_after : TurnOutcomeKind → Bool → String → String → String → String → String
effect_after TurnOutcomeKind.needs_human failed question session generation turn =
    "note:" <> session <> ":" <> question
effect_after TurnOutcomeKind.no_safe_change failed question session generation turn =
    "note:" <> session <> ":" <> turn <> ":no_change"
effect_after TurnOutcomeKind.budget_exhausted failed question session generation turn =
    "note:" <> session <> ":" <> turn <> ":budget_exhausted"
effect_after TurnOutcomeKind.changes_ready false question session generation turn =
    "publish:" <> session <> ":" <> generation <> ":" <> turn
effect_after _ _ question session generation turn = "note:" <> session <> ":" <> turn <> ":failed"

-- The turn, its generation and session, as the table has them, and the action in the outbox: a new one, or one
-- that was there before under the same key.
pub record HasSettled (id question : String) (kind : TurnOutcomeKind) (failed : Bool)
    (before t : Tables) : Type 0 where
  pub turn : Turn
  pub generation : IssueGeneration
  pub session : IssueSession
  pub action : OutboundAction
  pub turn_stored : In turn t.turns
  pub turn_id : turn.id ≡ id
  pub turn_status : turn.status ≡ turn_after kind failed
  pub turn_outcome : turn.outcome_kind ≡ some kind
  pub generation_stored : In generation t.generations
  pub generation_id : generation.id ≡ turn.generation_id
  pub generation_status : generation.status ≡ generation_after kind failed
  pub prior : IssueGeneration
  pub prior_stored : In prior before.generations
  pub prior_id : prior.id ≡ generation.id
  pub generation_wait : generation.wait_reason ≡ wait_after kind prior.wait_reason
  pub session_stored : In session t.sessions
  pub session_id : session.id ≡ turn.issue_session_id
  pub session_status : session.status ≡ generation.status
  pub action_stored : In action t.outbound
  pub action_key :
      action.effect_key ≡ effect_after kind failed question session.id generation.id turn.id
  pub action_new :
      ((action.kind ≡ kind_after kind failed)
        × (action.status ≡ OutboundActionStatus.pending)
        × (action.turn_id ≡ some turn.id))
      ⊎ In action before.outbound

-- What the branches decide agrees with the table.
pub decide-generation_after :
    (draws : Draws) (kind : TurnOutcomeKind) (result : AgentResult) (turn : Turn)
    (generation : IssueGeneration) (session : IssueSession)
    → (decide draws kind result turn generation session).generation.status
      ≡ generation_after kind (str_eq result.status status_failed)
unfolding decide failed_turn
decide-generation_after draws TurnOutcomeKind.needs_human result turn generation session = refl
decide-generation_after draws TurnOutcomeKind.no_safe_change result turn generation session = refl
decide-generation_after draws TurnOutcomeKind.budget_exhausted result turn generation session = refl
decide-generation_after draws TurnOutcomeKind.failed result turn generation session = refl
decide-generation_after draws TurnOutcomeKind.changes_ready result turn generation session =
    elim (Bool-cases (str_eq result.status status_failed)) [ inl e ↦ rw e refl | inr e ↦ rw e refl ]

pub decide-turn_after :
    (draws : Draws) (kind : TurnOutcomeKind) (result : AgentResult) (turn : Turn)
    (generation : IssueGeneration) (session : IssueSession)
    → (decide draws kind result turn generation session).turn.status
      ≡ turn_after kind (str_eq result.status status_failed)
unfolding decide failed_turn
decide-turn_after draws TurnOutcomeKind.needs_human result turn generation session = refl
decide-turn_after draws TurnOutcomeKind.no_safe_change result turn generation session = refl
decide-turn_after draws TurnOutcomeKind.budget_exhausted result turn generation session = refl
decide-turn_after draws TurnOutcomeKind.failed result turn generation session = refl
decide-turn_after draws TurnOutcomeKind.changes_ready result turn generation session =
    elim (Bool-cases (str_eq result.status status_failed)) [ inl e ↦ rw e refl | inr e ↦ rw e refl ]

pub decide-effect_after :
    (draws : Draws) (kind : TurnOutcomeKind) (result : AgentResult) (turn : Turn)
    (generation : IssueGeneration) (session : IssueSession)
    → (decide draws kind result turn generation session).effect_key
      ≡ effect_after kind
          (str_eq result.status status_failed)
          draws.question_id
          session.id
          generation.id
          turn.id
unfolding decide failed_turn
decide-effect_after draws TurnOutcomeKind.needs_human result turn generation session = refl
decide-effect_after draws TurnOutcomeKind.no_safe_change result turn generation session = refl
decide-effect_after draws TurnOutcomeKind.budget_exhausted result turn generation session = refl
decide-effect_after draws TurnOutcomeKind.failed result turn generation session = refl
decide-effect_after draws TurnOutcomeKind.changes_ready result turn generation session =
    elim (Bool-cases (str_eq result.status status_failed)) [ inl e ↦ rw e refl | inr e ↦ rw e refl ]

pub same_effect :
    (kind : TurnOutcomeKind) (failed : Bool) (question : String) {s s' g g' u u' : String}
    → s ≡ s'
    → g ≡ g'
    → u ≡ u'
    → effect_after kind failed question s g u ≡ effect_after kind failed question s' g' u'
same_effect kind failed question p q r = λ i. effect_after kind failed question (p i) (q i) (r i)

-- The branches keep the identities.
pub decide-same :
    (draws : Draws) (kind : TurnOutcomeKind) (result : AgentResult) (turn : Turn)
    (generation : IssueGeneration) (session : IssueSession)
    → let decision : Decision = decide draws kind result turn generation session in
      (decision.turn.id ≡ turn.id)
      × (decision.turn.outcome_kind ≡ turn.outcome_kind)
      × (decision.turn.generation_id ≡ turn.generation_id)
      × (decision.generation.id ≡ generation.id)
      × (decision.turn.issue_session_id ≡ turn.issue_session_id)
      × (decision.generation.wait_reason ≡ wait_after kind generation.wait_reason)
      × (decision.kind ≡ kind_after kind (str_eq result.status status_failed))
unfolding decide failed_turn
decide-same draws TurnOutcomeKind.needs_human result turn generation session =
    (refl, refl, refl, refl, refl, refl, refl)
decide-same draws TurnOutcomeKind.no_safe_change result turn generation session =
    (refl, refl, refl, refl, refl, refl, refl)
decide-same draws TurnOutcomeKind.budget_exhausted result turn generation session =
    (refl, refl, refl, refl, refl, refl, refl)
decide-same draws TurnOutcomeKind.failed result turn generation session =
    (refl, refl, refl, refl, refl, refl, refl)
decide-same draws TurnOutcomeKind.changes_ready result turn generation session =
    elim (Bool-cases (str_eq result.status status_failed)) [
      | inl e ↦ rw e (refl, refl, refl, refl, refl, refl, refl)
      | inr e ↦ rw e (refl, refl, refl, refl, refl, refl, refl)
    ]
