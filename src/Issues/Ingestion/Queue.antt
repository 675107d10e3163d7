-- ===== src/Issues/Ingestion/Queue.antt =====
-- The end of `_handle_existing`: the next turn of a session, in a next generation where the last one
-- was stopped.
use generic_coding_agent.Prelude.{
  String, Bool, true, false, not, ◌&&◌, ◌||◌, Option, none, some, [], ◌∷◌, if◌then◌else◌,
}
use generic_coding_agent.Json.{Json, Fields}
use generic_coding_agent.Issues.Models.{
  IssueSession, IssueGeneration, Turn, InboundEvent, GenerationStatus,
}
use generic_coding_agent.Issues.Tables.{Work, ◌>>=◌, pure}
use generic_coding_agent.Issues.Work.{
  save_session, save_generation, insert_generation, insert_turn, create_turn_job, save_turn,
  mark_events_consumed, active_turn, find_link,
}
use generic_coding_agent.Issues.Events.{
  NormalizedGitLabEvent, ActorDecision, commands, is_uncommanded, has_note, waits_for_clarification,
  should_queue_turn,
}
use generic_coding_agent.Issues.Ingestion.Records.{
  Environment, Draws, IngestResult, new_generation, branch_of, new_turn, follow_up_task,
}
use generic_coding_agent.Issues.Ingestion.Branches.{answer}

-- `status in {FAILED, CANCELLED}`
abbrev pub is_stopped : GenerationStatus → Bool
is_stopped GenerationStatus.failed = true
is_stopped GenerationStatus.cancelled = true
is_stopped _ = false

-- `_has_verified_mr`
unfoldable pub has_verified_mr : String → Work Bool
has_verified_mr generation_id = find_link generation_id >>= λ link.
    pure (elim link [ none ↦ false | some l ↦ elim l.mr_iid [ none ↦ false | some n ↦ true ] ])

-- The next generation of the session.
unfoldable pub next_generation :
    Environment → Draws → IssueSession → IssueGeneration → Work (IssueSession × IssueGeneration)
next_generation env draws session generation = do
  next ← insert_generation (
      new_generation env (draws.uuid 3) (draws.clock 3) session.id generation.target_branch
        (branch_of env session.issue_iid (draws.uuid 4)) generation.summary
        (Fields.field "restart_of" (Json.str generation.id) Fields.end))
  saved ←
      save_session (draws.clock 4)
        (record session { active_generation_id = some next.id; status = GenerationStatus.queued })
  pure (saved, next)

-- "/agent run" on a stopped generation without a merge request starts the next one.
unfoldable pub restart :
    Environment
    → Draws
    → NormalizedGitLabEvent
    → IssueSession
    → IssueGeneration
    → Work (IssueSession × IssueGeneration)
restart env draws event session generation =
    if commands "/agent run" event && is_stopped generation.status
    then (has_verified_mr generation.id >>= λ verified.
        if verified
        then pure (session, generation)
        else next_generation env draws session generation)
    else pure (session, generation)

unfoldable pub turn_kind : IssueGeneration → NormalizedGitLabEvent → String
turn_kind generation event =
    if waits_for_clarification generation.wait_reason && is_uncommanded event && has_note event
    then "clarification"
    else if commands "/agent fix" event
    then "remediation"
    else "code"

-- The turn, its job, and the generation and session queued again.
unfoldable pub queue_turn :
    Environment
    → Draws
    → NormalizedGitLabEvent
    → InboundEvent
    → IssueSession
    → IssueGeneration
    → Work IngestResult
queue_turn env draws event inbound session generation = do
  inserted ← insert_turn (
      new_turn env (draws.uuid 5) (draws.clock 5) (turn_kind generation event) session.id generation
        generation.outstanding_question_id
        (Fields.field "inbound_event_id" (Json.str inbound.id) Fields.end))
  created ←
      create_turn_job env.number_text (draws.clock 6) (draws.uuid 6) inserted session generation
        (follow_up_task env session generation event)
  turn ← save_turn (draws.clock 7) created.1
  consumed ← mark_events_consumed (inbound.id ∷ []) turn.id
  saved ←
      save_generation (draws.clock 8)
        (record generation { status = GenerationStatus.queued; wait_reason = none })
  resaved ← save_session (draws.clock 9) (record session { status = GenerationStatus.queued })
  pure (record {
    status = "accepted";
    delivery_id = event.delivery_id;
    issue_session_id = some session.id;
    generation_id = some generation.id;
    turn_id = some turn.id;
    job_id = some created.0.id;
    event_id = some inbound.id;
  })

-- With an open turn the event only waits; else it may queue the next turn.
unfoldable pub queue_unless :
    Environment
    → Draws
    → IssueSession
    → IssueGeneration
    → NormalizedGitLabEvent
    → ActorDecision
    → InboundEvent
    → Option Turn
    → Work IngestResult
queue_unless env draws session generation event decision inbound (some turn) =
    pure (record (answer "accepted" event session (some generation.id) inbound) {
      turn_id = some turn.id;
    })
queue_unless env draws session generation event decision inbound none =
    if not (should_queue_turn generation event decision)
    then pure (
        answer (if decision.authorized || is_uncommanded event then "accepted" else "ignored") event
          session (some generation.id) inbound)
    else restart env draws event session generation >>= λ restarted.
        queue_turn env draws event inbound restarted.0 restarted.1

-- What an event does to a generation that it neither cancels, merges nor closes.
unfoldable pub maybe_queue :
    Environment
    → Draws
    → IssueSession
    → IssueGeneration
    → NormalizedGitLabEvent
    → ActorDecision
    → InboundEvent
    → Work IngestResult
maybe_queue env draws session generation event decision inbound =
    active_turn generation.id >>= queue_unless env draws session generation event decision inbound
