-- ===== src/Issues/Ingestion/Start.antt =====
-- `_start_session`: a session with its first generation, turn, job and note. The identifiers are
-- numbered: the event, the session, the generation, the branch, the turn, the job, the session's event,
-- the note.
use generic_coding_agent.Prelude.{
  ℕ, String, true, false, not, ◌&&◌, none, some, [], ◌∷◌, if◌then◌else◌,
}
use generic_coding_agent.Prelude.Int.{ℤ}
use generic_coding_agent.Prelude.Text.{str_eq, ◌<>◌}
use generic_coding_agent.Json.{Json, Fields}
use generic_coding_agent.Issues.Models.{IssueSession, GenerationStatus}
use generic_coding_agent.Issues.Tables.{Work, ◌>>=◌, pure}
use generic_coding_agent.Issues.Work.{
  upsert_session, save_session, insert_generation, insert_turn, create_turn_job, save_turn,
  insert_inbound_event, mark_events_consumed, append_event, insert_outbound_action,
}
use generic_coding_agent.Issues.Events.{
  NormalizedGitLabEvent, WebhookRegistration, ActorDecision, commands,
}
use generic_coding_agent.Issues.Ingestion.Records.{
  Environment, Draws, IngestResult, inbound_event, store_only, new_generation, branch_of, new_turn,
  new_note, issue_task, text_or,
}

unfoldable pub new_session : Draws → NormalizedGitLabEvent → WebhookRegistration → ℤ → IssueSession
new_session draws event registration issue_iid = record {
  gitlab_instance = event.gitlab_instance;
  project_id = event.project_id;
  issue_iid = issue_iid;
  project_path = event.project_path;
  issue_title = event.issue_title;
  repository_url = text_or event.repository_url (
      text_or registration.repository_url
        (registration.gitlab_instance <> "/" <> registration.project_path <> ".git"));
  id = draws.uuid 1;
  status = GenerationStatus.queued;
  active_generation_id = none;
  registration_id = registration.id;
  trigger_label = registration.trigger_label;
  version = 0;
  created_at = draws.clock 2;
  updated_at = draws.clock 2;
  metadata = Fields.end;
}

-- A title that has changed is saved.
unfoldable pub retitle : ℕ → String → IssueSession → Work IssueSession
retitle now title session =
    if not (str_eq session.issue_title title) && not (str_eq title "")
    then save_session now (record session { issue_title = title })
    else pure session

-- The writes of a start, on an event of the issue `issue_iid`.
unfoldable pub start_turn :
    Environment
    → Draws
    → NormalizedGitLabEvent
    → WebhookRegistration
    → ActorDecision
    → ℤ
    → Work IngestResult
start_turn env draws event registration decision issue_iid = do
  upserted ← upsert_session (new_session draws event registration issue_iid)
  titled ← retitle (draws.clock 3) event.issue_title upserted
  generation ← insert_generation (
      new_generation env (draws.uuid 2) (draws.clock 4) titled.id
        (text_or event.target_branch "main") (branch_of env issue_iid (draws.uuid 3)) "" Fields.end)
  session ← save_session (draws.clock 5) (record titled {
    active_generation_id = some generation.id;
    status = GenerationStatus.queued;
  })
  inserted ←
      insert_turn
        (new_turn env (draws.uuid 4) (draws.clock 6) "code" session.id generation none Fields.end)
  created ←
      create_turn_job env.number_text (draws.clock 7) (draws.uuid 5) inserted session generation
        (issue_task event.issue_title event.issue_description)
  turn ← save_turn (draws.clock 8) created.1
  inbound ← insert_inbound_event (
      inbound_event env draws event true (text_or decision.reason "start authorized")
        (some session.id) (some generation.id))
  consumed ← mark_events_consumed (inbound.id ∷ []) turn.id
  appended ←
      append_event (draws.uuid 6) (draws.clock 9) session.id "lifecycle"
        (Fields.field "status" (Json.str "queued") (
          Fields.field "trigger" (Json.str event.event_type)
            (Fields.field "action" (Json.str event.action) Fields.end)))
        (some generation.id) (some turn.id)
  note ← insert_outbound_action (
      new_note (draws.uuid 7) (draws.clock 10) session.id generation.id (some turn.id)
        ("note:" <> session.id <> ":" <> generation.id <> ":ack")
        (Fields.field "template" (Json.str "ack") (
          Fields.field "issue_iid" (Json.int session.issue_iid)
            (Fields.field "status" (Json.str "queued") Fields.end))))
  pure (record {
    status = "accepted";
    delivery_id = event.delivery_id;
    issue_session_id = some session.id;
    generation_id = some generation.id;
    turn_id = some turn.id;
    job_id = some created.0.id;
    event_id = some inbound.id;
  })

unfoldable pub start_session :
    Environment
    → Draws
    → NormalizedGitLabEvent
    → WebhookRegistration
    → ActorDecision
    → Work IngestResult
start_session env draws event registration decision = elim event.issue_iid [
  | none ↦ store_only env draws event false "missing issue iid"
  | some issue_iid ↦
      if commands "/agent run" event && not decision.authorized
      then store_only env draws event false decision.reason
      else start_turn env draws event registration decision issue_iid
]
