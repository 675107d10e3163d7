-- ===== src/Issues/Contracts/Chains.antt =====
-- A predicate that every statement keeps is kept by the answers to an event of a session that exists.
use generic_coding_agent.Prelude.{ℕ, String, Option, none, some, List, Option-cases, inl, inr}
use generic_coding_agent.Prelude.Int.{ℤ}
use generic_coding_agent.Json.{Fields}
use generic_coding_agent.Issues.Models.{
  IssueSession, IssueGeneration, Turn, InboundEvent, OutboundAction,
}
use generic_coding_agent.Issues.Tables.{Tables}
use generic_coding_agent.Issues.Work.{
  upsert_session, save_session, insert_generation, save_generation, insert_turn, save_turn,
  create_turn_job, insert_inbound_event, mark_events_consumed, append_event, insert_outbound_action,
}
use generic_coding_agent.Issues.Contracts.{Keeps, Keeps-chain, Contract-if, pure-Keeps, keeps_rules}
use generic_coding_agent.Issues.Contracts.Statements.{query_rules}
use generic_coding_agent.Issues.Events.{NormalizedGitLabEvent, ActorDecision}
use generic_coding_agent.Issues.Ingestion.Records.{Environment, Draws}
use generic_coding_agent.Issues.Ingestion.Start.{retitle}
use generic_coding_agent.Issues.Ingestion.Branches.{
  active_generation, report_status, save_both, cancel, complete_merge, close_request,
}
use generic_coding_agent.Issues.Ingestion.Queue.{
  has_verified_mr, next_generation, restart, queue_turn, queue_unless, maybe_queue,
}
use generic_coding_agent.Issues.Ingestion.Existing.{close_or_queue, respond}
use generic_coding_agent.Issues.Ingestion.Ingest.{resolve_session}

pub record IsKept (P : Tables → Type 0) : Type 0 where
  pub by_upsert_session : (session : IssueSession) → Keeps P (upsert_session session)
  pub by_save_session : (now : ℕ) (session : IssueSession) → Keeps P (save_session now session)
  pub by_insert_generation : (generation : IssueGeneration) → Keeps P (insert_generation generation)
  pub by_save_generation :
      (now : ℕ) (generation : IssueGeneration) → Keeps P (save_generation now generation)
  pub by_insert_turn : (turn : Turn) → Keeps P (insert_turn turn)
  pub by_save_turn : (now : ℕ) (turn : Turn) → Keeps P (save_turn now turn)
  pub by_create_turn_job :
      (number_text : ℤ → String) (ticks : ℕ) (id : String) (turn : Turn) (session : IssueSession)
      (generation : IssueGeneration) (task : String)
      → Keeps P (create_turn_job number_text ticks id turn session generation task)
  pub by_insert_inbound_event : (event : InboundEvent) → Keeps P (insert_inbound_event event)
  pub by_mark_events_consumed :
      (ids : List String) (turn_id : String) → Keeps P (mark_events_consumed ids turn_id)
  pub by_append_event :
      (id : String) (now : ℕ) (session kind : String) (payload : Fields)
      (generation_id turn_id : Option String)
      → Keeps P (append_event id now session kind payload generation_id turn_id)
  pub by_insert_outbound_action :
      (action : OutboundAction) → Keeps P (insert_outbound_action action)

module _ {P : Tables → Type 0} (k : IsKept P) where
  pub upsert_session-Keeps : (session : IssueSession) → Keeps P (upsert_session session)
  upsert_session-Keeps session = k.by_upsert_session session

  pub save_session-Keeps : (now : ℕ) (session : IssueSession) → Keeps P (save_session now session)
  save_session-Keeps now session = k.by_save_session now session

  pub insert_generation-Keeps :
      (generation : IssueGeneration) → Keeps P (insert_generation generation)
  insert_generation-Keeps generation = k.by_insert_generation generation

  pub save_generation-Keeps :
      (now : ℕ) (generation : IssueGeneration) → Keeps P (save_generation now generation)
  save_generation-Keeps now generation = k.by_save_generation now generation

  pub insert_turn-Keeps : (turn : Turn) → Keeps P (insert_turn turn)
  insert_turn-Keeps turn = k.by_insert_turn turn

  pub save_turn-Keeps : (now : ℕ) (turn : Turn) → Keeps P (save_turn now turn)
  save_turn-Keeps now turn = k.by_save_turn now turn

  pub create_turn_job-Keeps :
      (number_text : ℤ → String) (ticks : ℕ) (id : String) (turn : Turn) (session : IssueSession)
      (generation : IssueGeneration) (task : String)
      → Keeps P (create_turn_job number_text ticks id turn session generation task)
  create_turn_job-Keeps number_text ticks id turn session generation task =
      k.by_create_turn_job number_text ticks id turn session generation task

  pub insert_inbound_event-Keeps : (event : InboundEvent) → Keeps P (insert_inbound_event event)
  insert_inbound_event-Keeps event = k.by_insert_inbound_event event

  pub mark_events_consumed-Keeps :
      (ids : List String) (turn_id : String) → Keeps P (mark_events_consumed ids turn_id)
  mark_events_consumed-Keeps ids turn_id = k.by_mark_events_consumed ids turn_id

  pub append_event-Keeps :
      (id : String) (now : ℕ) (session kind : String) (payload : Fields)
      (generation_id turn_id : Option String)
      → Keeps P (append_event id now session kind payload generation_id turn_id)
  append_event-Keeps id now session kind payload generation_id turn_id =
      k.by_append_event id now session kind payload generation_id turn_id

  pub insert_outbound_action-Keeps :
      (action : OutboundAction) → Keeps P (insert_outbound_action action)
  insert_outbound_action-Keeps action = k.by_insert_outbound_action action

pub ruleset kept_rules = (
  keeps_rules, query_rules, upsert_session-Keeps, save_session-Keeps, insert_generation-Keeps,
  save_generation-Keeps, insert_turn-Keeps, save_turn-Keeps, create_turn_job-Keeps,
  insert_inbound_event-Keeps, mark_events_consumed-Keeps, append_event-Keeps,
  insert_outbound_action-Keeps,
)

module _ {P : Tables → Type 0} (k : IsKept P) where
  pub retitle-Keeps :
      (now : ℕ) (title : String) (session : IssueSession) → Keeps P (retitle now title session)
  unfolding retitle
  retitle-Keeps now title session = search kept_rules

  pub active_generation-Keeps : (session : IssueSession) → Keeps P (active_generation session)
  unfolding active_generation
  active_generation-Keeps session = elim (Option-cases session.active_generation_id) [
    | inl e ↦ rw (e, active_generation) (search kept_rules)
    | inr (id, e) ↦ rw (e, active_generation) (search kept_rules)
  ]

  report_status-Keeps :
      (draws : Draws) (session : IssueSession) (generation : Option IssueGeneration)
      (event : NormalizedGitLabEvent) (inbound : InboundEvent)
      → Keeps P (report_status draws session generation event inbound)
  unfolding report_status
  report_status-Keeps draws session generation event inbound = search kept_rules

  save_both-Keeps :
      (draws : Draws) (generation : IssueGeneration) (session : IssueSession)
      (event : NormalizedGitLabEvent) (inbound : InboundEvent)
      → Keeps P (save_both draws generation session event inbound)
  unfolding save_both
  save_both-Keeps draws generation session event inbound = search kept_rules

  cancel-Keeps :
      (draws : Draws) (session : IssueSession) (generation : Option IssueGeneration)
      (event : NormalizedGitLabEvent) (decision : ActorDecision) (inbound : InboundEvent)
      → Keeps P (cancel draws session generation event decision inbound)
  unfolding cancel
  cancel-Keeps draws session none event decision inbound = search kept_rules
  cancel-Keeps draws session (some generation) event decision inbound =
      search (kept_rules, save_both-Keeps)

  complete_merge-Keeps :
      (draws : Draws) (session : IssueSession) (generation : Option IssueGeneration)
      (event : NormalizedGitLabEvent) (inbound : InboundEvent)
      → Keeps P (complete_merge draws session generation event inbound)
  unfolding complete_merge
  complete_merge-Keeps draws session none event inbound = search kept_rules
  complete_merge-Keeps draws session (some generation) event inbound =
      search (kept_rules, save_both-Keeps)

  close_request-Keeps :
      (draws : Draws) (session : IssueSession) (generation : IssueGeneration)
      (event : NormalizedGitLabEvent) (inbound : InboundEvent)
      → Keeps P (close_request draws session generation event inbound)
  unfolding close_request
  close_request-Keeps draws session generation event inbound = search save_both-Keeps

  next_generation-Keeps :
      (env : Environment) (draws : Draws) (session : IssueSession) (generation : IssueGeneration)
      → Keeps P (next_generation env draws session generation)
  unfolding next_generation
  next_generation-Keeps env draws session generation = search kept_rules

  restart-Keeps :
      (env : Environment) (draws : Draws) (event : NormalizedGitLabEvent) (session : IssueSession)
      (generation : IssueGeneration)
      → Keeps P (restart env draws event session generation)
  unfolding restart has_verified_mr
  restart-Keeps env draws event session generation =
      search (kept_rules, next_generation-Keeps) depth 8

  queue_turn-Keeps :
      (env : Environment) (draws : Draws) (event : NormalizedGitLabEvent) (inbound : InboundEvent)
      (session : IssueSession) (generation : IssueGeneration)
      → Keeps P (queue_turn env draws event inbound session generation)
  unfolding queue_turn
  queue_turn-Keeps env draws event inbound session generation = search kept_rules depth 12

  queue_unless-Keeps :
      (env : Environment) (draws : Draws) (session : IssueSession) (generation : IssueGeneration)
      (event : NormalizedGitLabEvent) (decision : ActorDecision) (inbound : InboundEvent)
      (active : Option Turn)
      → Keeps P (queue_unless env draws session generation event decision inbound active)
  unfolding queue_unless
  queue_unless-Keeps env draws session generation event decision inbound (some turn) =
      search kept_rules
  queue_unless-Keeps env draws session generation event decision inbound none =
      search (kept_rules, restart-Keeps, queue_turn-Keeps)

  close_or_queue-Keeps :
      (env : Environment) (draws : Draws) (session : IssueSession)
      (generation : Option IssueGeneration) (event : NormalizedGitLabEvent)
      (decision : ActorDecision) (inbound : InboundEvent)
      → Keeps P (close_or_queue env draws session generation event decision inbound)
  unfolding close_or_queue maybe_queue
  close_or_queue-Keeps env draws session none event decision inbound = search kept_rules
  close_or_queue-Keeps env draws session (some generation) event decision inbound =
      search (kept_rules, close_request-Keeps, queue_unless-Keeps)

  pub respond-Keeps :
      (env : Environment) (draws : Draws) (session : IssueSession)
      (generation : Option IssueGeneration) (event : NormalizedGitLabEvent)
      (decision : ActorDecision) (inbound : InboundEvent)
      → Keeps P (respond env draws session generation event decision inbound)
  unfolding respond
  respond-Keeps env draws session generation event decision inbound =
      search
        (kept_rules, report_status-Keeps, cancel-Keeps, complete_merge-Keeps, close_or_queue-Keeps)
        depth 8

  pub resolve_session-Keeps : (event : NormalizedGitLabEvent) → Keeps P (resolve_session event)
  unfolding resolve_session
  resolve_session-Keeps event = elim (Option-cases event.issue_iid) [
    | inr (issue_iid, e) ↦ rw (e, resolve_session) (search kept_rules)
    | inl e ↦ elim (Option-cases event.mr_iid) [
      | inr (mr_iid, f) ↦ rw (e, f, resolve_session) (search kept_rules)
      | inl f ↦ rw (e, f, resolve_session) (search kept_rules)
    ]
  ]
