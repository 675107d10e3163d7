-- ===== src/Issues/Ingestion/Ingest.antt =====
-- `_resolve_session` and `ingest`.
use generic_coding_agent.Prelude.{true, false, not, ◌&&◌, Option, none, some, if◌then◌else◌}
use generic_coding_agent.Issues.Models.{IssueSession, InboundEvent}
use generic_coding_agent.Issues.Tables.{
  Tables, Work, WorkError, Outcome, committed, raised, ◌>>=◌, pure, unit_of_work,
}
use generic_coding_agent.Issues.Work.{find_session, find_session_by_mr, find_delivery}
use generic_coding_agent.Issues.Events.{
  NormalizedGitLabEvent, WebhookRegistration, ActorDecision, commands, authorize, is_start_event,
}
use generic_coding_agent.Issues.Ingestion.Records.{
  Environment, Draws, IngestResult, outcome, store_only, text_or,
}
use generic_coding_agent.Issues.Ingestion.Start.{start_session}
use generic_coding_agent.Issues.Ingestion.Existing.{handle_existing}

-- `_resolve_session`: by the issue, or else by the merge request.
unfoldable pub resolve_session : NormalizedGitLabEvent → Work (Option IssueSession)
resolve_session event = elim event.issue_iid [
  | some issue_iid ↦ find_session event.gitlab_instance event.project_id issue_iid
  | none ↦ elim event.mr_iid [
    | some mr_iid ↦ find_session_by_mr event.project_id mr_iid
    | none ↦ pure none
  ]
]

-- An event of an issue that has no session.
unfoldable pub open_session :
    Environment
    → Draws
    → NormalizedGitLabEvent
    → WebhookRegistration
    → ActorDecision
    → Work IngestResult
open_session env draws event registration decision =
    if not (is_start_event event)
    then store_only env draws event decision.authorized
        (text_or decision.reason "no open issue session")
    else if not decision.authorized
        && not (commands "/agent run" event)
        && elim event.actor_id [ none ↦ false | some actor ↦ true ]
    then store_only env draws event false decision.reason
    else start_session env draws event registration decision

unfoldable pub dispatch :
    Environment
    → Draws
    → NormalizedGitLabEvent
    → WebhookRegistration
    → ActorDecision
    → Option IssueSession
    → Work IngestResult
dispatch env draws event registration decision none =
    open_session env draws event registration decision
dispatch env draws event registration decision (some session) =
    handle_existing env draws session event decision

-- After the look for the delivery.
unfoldable pub ingest_unless :
    Environment
    → Draws
    → NormalizedGitLabEvent
    → WebhookRegistration
    → Option InboundEvent
    → Work IngestResult
ingest_unless env draws event registration (some stored) =
    pure (outcome "duplicate" event stored.issue_session_id none (some stored.id))
ingest_unless env draws event registration none =
    if not event.relevant
    then store_only env draws event false event.ignore_reason
    else resolve_session event
      >>= dispatch env draws event registration (authorize env.access_level event registration)

-- The body of the unit of work.
unfoldable pub ingest_event :
    Environment → Draws → NormalizedGitLabEvent → WebhookRegistration → Work IngestResult
ingest_event env draws event registration =
    find_delivery "gitlab" event.delivery_id >>= ingest_unless env draws event registration

-- `except DuplicateDeliveryError`
unfoldable pub duplicate_caught :
    NormalizedGitLabEvent → Outcome IngestResult → Outcome IngestResult
duplicate_caught event (raised WorkError.duplicate_delivery) =
    committed (outcome "duplicate" event none none none)
duplicate_caught event answered = answered

unfoldable pub ingest :
    Environment
    → Draws
    → NormalizedGitLabEvent
    → WebhookRegistration
    → Tables
    → Outcome IngestResult × Tables
ingest env draws event registration t =
    let (answered, t') = unit_of_work (ingest_event env draws event registration) t in
    (duplicate_caught event answered, t')
