-- ===== src/Issues/Ingestion/Branches.antt =====
-- The branches of `_handle_existing` that queue no turn, and `_complete_merge`. The identifiers are
-- numbered: the event, the session's event, the note of a status, the next generation, its branch, the
-- turn, the job.
use generic_coding_agent.Prelude.{String, true, not, ◌&&◌, Option, none, some, if◌then◌else◌}
use generic_coding_agent.Prelude.Text.{str_eq, ◌<>◌}
use generic_coding_agent.Json.{Json, Fields}
use generic_coding_agent.Issues.Models.{
  IssueSession, IssueGeneration, InboundEvent, ScmLink, GenerationStatus, WaitReason, MergeReason,
  generation_status_value, wait_reason_value, merge_reason_value,
}
use generic_coding_agent.Issues.Tables.{Work, ◌>>=◌, pure}
use generic_coding_agent.Issues.Work.{
  get_generation, save_session, save_generation, append_event, insert_outbound_action, find_link,
}
use generic_coding_agent.Issues.Events.{NormalizedGitLabEvent, ActorDecision}
use generic_coding_agent.Issues.Ingestion.Records.{Draws, IngestResult, outcome, json_int, new_note}

abbrev pub generation_id_of : Option IssueGeneration → Option String
generation_id_of none = none
generation_id_of (some generation) = some generation.id

-- The generation of the session's identifier, if that is not empty.
unfoldable pub active_generation : IssueSession → Work (Option IssueGeneration)
active_generation session = elim session.active_generation_id [
  | none ↦ pure none
  | some id ↦
      if str_eq id "" then pure none else get_generation id >>= λ generation. pure (some generation)
]

-- A result on the session and its generation.
abbrev pub answer :
    String → NormalizedGitLabEvent → IssueSession → Option String → InboundEvent → IngestResult
answer status event session generation_id inbound =
    outcome status event (some session.id) generation_id (some inbound.id)

-- "/agent status"
unfoldable pub report_status :
    Draws
    → IssueSession
    → Option IssueGeneration
    → NormalizedGitLabEvent
    → InboundEvent
    → Work IngestResult
report_status draws session generation event inbound = do
  note ← insert_outbound_action (
      new_note (draws.uuid 2) (draws.clock 3) session.id
        (elim generation [ none ↦ session.id | some g ↦ g.id ]) none
        ("note:" <> session.id <> ":status:" <> event.delivery_id)
        (Fields.field "template" (Json.str "status") (
          Fields.field "issue_iid" (Json.int session.issue_iid) (
            Fields.field "status" (Json.str (generation_status_value session.status)) (
              Fields.field "wait_reason"
                (elim generation [
                  | none ↦ Json.null
                  | some g ↦ elim g.wait_reason [
                    | none ↦ Json.null
                    | some w ↦ Json.str (wait_reason_value w)
                  ]
                ])
                Fields.end)))))
  pure (answer "accepted" event session (generation_id_of generation) inbound)

-- The two saves that every change of state ends with.
unfoldable pub save_both :
    Draws
    → IssueGeneration
    → IssueSession
    → NormalizedGitLabEvent
    → InboundEvent
    → Work IngestResult
save_both draws generation session event inbound = do
  saved ← save_generation (draws.clock 4) generation
  resaved ← save_session (draws.clock 5) session
  pure (answer "accepted" event session (some generation.id) inbound)

-- "/agent cancel"
unfoldable pub cancel :
    Draws
    → IssueSession
    → Option IssueGeneration
    → NormalizedGitLabEvent
    → ActorDecision
    → InboundEvent
    → Work IngestResult
cancel draws session none event decision inbound =
    pure (answer "ignored" event session none inbound)
cancel draws session (some generation) event decision inbound =
    if not decision.authorized
    then pure (answer "ignored" event session none inbound)
    else save_both draws
        (record generation { cancel_requested = true; status = GenerationStatus.cancelled })
        (record session { status = GenerationStatus.cancelled }) event inbound

-- The reason of a merge: the head that was expected, or another one.
unfoldable pub reason_of_merge : Option ScmLink → NormalizedGitLabEvent → MergeReason
reason_of_merge none event = MergeReason.managed
reason_of_merge (some link) event =
    if not (str_eq link.expected_head_sha "")
      && not (str_eq event.pipeline_sha "")
      && not (str_eq event.pipeline_sha link.expected_head_sha)
    then MergeReason.external_mutation
    else MergeReason.managed

-- `_complete_merge`
unfoldable pub complete_merge :
    Draws
    → IssueSession
    → Option IssueGeneration
    → NormalizedGitLabEvent
    → InboundEvent
    → Work IngestResult
complete_merge draws session none event inbound = pure (answer "ignored" event session none inbound)
complete_merge draws session (some generation) event inbound = do
  link ← find_link generation.id
  result ←
      save_both draws
        (record generation {
          status = GenerationStatus.completed;
          merge_reason = some (reason_of_merge link event);
          wait_reason = none;
          cancel_requested = true;
        })
        (record session { status = GenerationStatus.completed }) event inbound
  appended ←
      append_event (draws.uuid 2) (draws.clock 6) session.id "merge"
        (Fields.field "merge_reason" (Json.str (merge_reason_value (reason_of_merge link event)))
          (Fields.field "mr_iid" (json_int event.mr_iid) Fields.end))
        (some generation.id) none
  pure result

-- A merge request that is closed.
unfoldable pub close_request :
    Draws
    → IssueSession
    → IssueGeneration
    → NormalizedGitLabEvent
    → InboundEvent
    → Work IngestResult
close_request draws session generation event inbound =
    save_both draws
      (record generation {
        status = GenerationStatus.waiting_human;
        wait_reason = some WaitReason.mr_closed;
      })
      (record session { status = GenerationStatus.waiting_human }) event inbound
