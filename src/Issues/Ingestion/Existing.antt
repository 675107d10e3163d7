-- ===== src/Issues/Ingestion/Existing.antt =====
-- `_handle_existing`: an event of an issue that has a session.
use generic_coding_agent.Prelude.{
  String, Bool, true, false, ◌&&◌, Option, none, some, if◌then◌else◌,
}
use generic_coding_agent.Prelude.Text.{str_eq}
use generic_coding_agent.Json.{Json, Fields}
use generic_coding_agent.Issues.Models.{
  IssueSession, IssueGeneration, InboundEvent, GenerationStatus,
}
use generic_coding_agent.Issues.Tables.{Work, ◌>>=◌, pure}
use generic_coding_agent.Issues.Work.{insert_inbound_event, append_event}
use generic_coding_agent.Issues.Events.{NormalizedGitLabEvent, ActorDecision, commands}
use generic_coding_agent.Issues.Ingestion.Records.{
  Environment, Draws, IngestResult, json_text, inbound_event,
}
use generic_coding_agent.Issues.Ingestion.Branches.{
  generation_id_of, active_generation, answer, report_status, cancel, complete_merge, close_request,
}
use generic_coding_agent.Issues.Ingestion.Queue.{maybe_queue}

abbrev pub is_completed : GenerationStatus → Bool
is_completed GenerationStatus.completed = true
is_completed _ = false

abbrev pub is_merge_request : String → NormalizedGitLabEvent → Bool
is_merge_request action event =
    str_eq event.event_type "Merge Request Hook" && str_eq event.action action

-- The last branches, which need a generation.
unfoldable pub close_or_queue :
    Environment
    → Draws
    → IssueSession
    → Option IssueGeneration
    → NormalizedGitLabEvent
    → ActorDecision
    → InboundEvent
    → Work IngestResult
close_or_queue env draws session none event decision inbound =
    pure (answer "ignored" event session none inbound)
close_or_queue env draws session (some generation) event decision inbound =
    if is_merge_request "close" event
    then close_request draws session generation event inbound
    else maybe_queue env draws session generation event decision inbound

-- The branches after the event is stored.
unfoldable pub respond :
    Environment
    → Draws
    → IssueSession
    → Option IssueGeneration
    → NormalizedGitLabEvent
    → ActorDecision
    → InboundEvent
    → Work IngestResult
respond env draws session generation event decision inbound =
    if is_completed session.status
    then pure (answer "ignored" event session none inbound)
    else if commands "/agent status" event
    then report_status draws session generation event inbound
    else if commands "/agent cancel" event
    then cancel draws session generation event decision inbound
    else if is_merge_request "merge" event
    then complete_merge draws session generation event inbound
    else close_or_queue env draws session generation event decision inbound

unfoldable pub handle_existing :
    Environment → Draws → IssueSession → NormalizedGitLabEvent → ActorDecision → Work IngestResult
handle_existing env draws session event decision = do
  generation ← active_generation session
  inbound ← insert_inbound_event (
      inbound_event env draws event decision.authorized decision.reason (some session.id)
        (generation_id_of generation))
  appended ←
      append_event (draws.uuid 1) (draws.clock 2) session.id "webhook"
        (Fields.field "event_type" (Json.str event.event_type) (
          Fields.field "action" (Json.str event.action) (
            Fields.field "command" (json_text event.command) (
              Fields.field "authorized" (Json.boolean decision.authorized)
                (Fields.field "reason" (Json.str decision.reason) Fields.end)))))
        (generation_id_of generation) none
  respond env draws session generation event decision inbound
