-- ===== src/Issues/Events.antt =====
-- gca/issue_sessions/ingestion.py: the events of GitLab, who may act, and when an event queues a turn.
-- The event is gca/integrations/gitlab_events.py's, as far as the ingestion reads it.
pub mod Queueing
use generic_coding_agent.Prelude.{
  ℕ, String, Bool, true, false, not, ◌&&◌, ◌||◌, Option, none, some, List, [], ◌∷◌, any,
  if◌then◌else◌,
}
use generic_coding_agent.Prelude.Int.{ℤ, eq_ℤ, leb_ℤ}
use generic_coding_agent.Prelude.Text.{str_eq, opt_eq}
use generic_coding_agent.Issues.Models.{IssueGeneration, GenerationStatus, WaitReason}

pub record NormalizedGitLabEvent : Type 0 where
  pub delivery_id : String
  pub event_uuid : String
  pub event_type : String
  pub action : String
  pub object_key : String
  pub gitlab_instance : String
  pub project_id : ℤ
  pub project_path : String
  pub repository_url : String
  pub issue_iid : Option ℤ
  pub issue_title : String
  pub issue_description : String
  pub mr_iid : Option ℤ
  pub note_id : Option ℤ
  pub note_body : String
  pub actor_id : Option ℤ
  pub actor_username : String
  pub command : Option String
  pub label_added : Bool
  pub pipeline_id : Option ℤ
  pub pipeline_status : String
  pub pipeline_sha : String
  pub target_branch : String
  pub relevant : Bool
  pub ignore_reason : String

pub record WebhookRegistration : Type 0 where
  pub id : String
  pub gitlab_instance : String
  pub project_path : String
  pub trigger_label : String
  pub minimum_actor_access_level : ℤ
  pub actor_allowlist : List ℤ
  pub bot_user_id : Option ℤ
  pub repository_url : String

pub record ActorDecision : Type 0 where
  pub authorized : Bool
  pub reason : String
  pub access_level : Option ℤ

abbrev pub commands : String → NormalizedGitLabEvent → Bool
commands command event = opt_eq event.command (some command)

abbrev pub is_uncommanded : NormalizedGitLabEvent → Bool
is_uncommanded event = elim event.command [ none ↦ true | some c ↦ false ]

abbrev pub has_note : NormalizedGitLabEvent → Bool
has_note event = not (str_eq event.note_body "")

-- `_authorize`; `access_level` is the membership lookup.
unfoldable pub authorize :
    (ℤ → ℤ → Option ℤ) → NormalizedGitLabEvent → WebhookRegistration → ActorDecision
authorize access_level event registration = elim event.actor_id [
  | none ↦
      if event.label_added
      then record { authorized = true; reason = "label trigger without actor"; access_level = none }
      else record { authorized = false; reason = "missing actor"; access_level = none }
  | some actor ↦
      if any (eq_ℤ actor) registration.actor_allowlist
      then record { authorized = true; reason = "actor allowlist"; access_level = none }
      else if elim registration.bot_user_id [ none ↦ false | some bot ↦ eq_ℤ actor bot ]
      then record { authorized = false; reason = "bot actor"; access_level = none }
      else elim (access_level event.project_id actor) [
        | some level ↦
            if leb_ℤ registration.minimum_actor_access_level level
            then record { authorized = true; reason = "membership role"; access_level = some level }
            else record { authorized = false; reason = "insufficient access"; access_level = none }
        | none ↦ elim registration.actor_allowlist [
          | first ∷ others ↦ record {
            authorized = false;
            reason = "insufficient access";
            access_level = none;
          }
          | [] ↦
              if is_uncommanded event || commands "/agent status" event
              then record {
                authorized = true;
                reason = "membership unavailable; provisional accept";
                access_level = none;
              }
              else record {
                authorized = false;
                reason = "membership unavailable for privileged command";
                access_level = none;
              }
        ]
      ]
]

abbrev pub awaits_merge : GenerationStatus → Bool
awaits_merge GenerationStatus.awaiting_merge = true
awaits_merge _ = false

abbrev pub waits_for_human : GenerationStatus → Bool
waits_for_human GenerationStatus.waiting_human = true
waits_for_human _ = false

abbrev pub waits_for_clarification : Option WaitReason → Bool
waits_for_clarification (some WaitReason.clarification) = true
waits_for_clarification _ = false

-- The reasons after which a comment may go on.
abbrev pub is_reopenable : Option WaitReason → Bool
is_reopenable (some WaitReason.no_safe_change) = true
is_reopenable (some WaitReason.remediation_exhausted) = true
is_reopenable (some WaitReason.mr_closed) = true
is_reopenable _ = false

-- `_should_queue_turn`
unfoldable pub should_queue_turn : IssueGeneration → NormalizedGitLabEvent → ActorDecision → Bool
should_queue_turn generation event decision =
    if commands "/agent fix" event
    then decision.authorized && awaits_merge generation.status
    else if commands "/agent run" event
    then (if awaits_merge generation.status
        then false
        else if waits_for_clarification generation.wait_reason
        then false
        else decision.authorized)
    else if waits_for_human generation.status
    then (if waits_for_clarification generation.wait_reason
        then decision.authorized && has_note event && is_uncommanded event
        else if is_reopenable generation.wait_reason
        then decision.authorized && (commands "/agent run" event || has_note event)
        else false)
    else if awaits_merge generation.status
    then commands "/agent fix" event && decision.authorized
    else if str_eq event.event_type "Pipeline Hook" && str_eq event.pipeline_status "failed"
    then awaits_merge generation.status
    else false

-- `_is_start_event`
unfoldable pub is_start_event : NormalizedGitLabEvent → Bool
is_start_event event = event.label_added || commands "/agent run" event
