-- ===== src/Issues/Models.antt =====
-- gca/issue_sessions/models.py: sessions, generations, turns and what hangs on them. Identifiers that
-- GitLab gives are ℤ, counters are natural numbers, and times are natural numbers of clock ticks.
use generic_coding_agent.Prelude.{ℕ, String, Bool, true, false, Option}
use generic_coding_agent.Prelude.Int.{ℤ}
use generic_coding_agent.Json.{Fields}

pub data GenerationStatus : Type 0 where
  queued running waiting_human publishing awaiting_merge completed failed cancelled :
      GenerationStatus

pub data TurnStatus : Type 0 where
  queued running paused_budget succeeded failed cancelled : TurnStatus

pub data OutboundActionStatus : Type 0 where
  pending leased reconciling succeeded failed : OutboundActionStatus

pub data WaitReason : Type 0 where
  clarification no_safe_change budget_exhausted remediation_exhausted mr_closed external_change
        ambiguous_side_effect permission_blocker lost_fencing :
      WaitReason

pub data TurnOutcomeKind : Type 0 where
  changes_ready needs_human no_safe_change failed budget_exhausted : TurnOutcomeKind

pub data MergeReason : Type 0 where
  managed external_mutation external_old_generation : MergeReason

-- `.value` of the members.
unfoldable pub generation_status_value : GenerationStatus → String
generation_status_value GenerationStatus.queued = "queued"
generation_status_value GenerationStatus.running = "running"
generation_status_value GenerationStatus.waiting_human = "waiting_human"
generation_status_value GenerationStatus.publishing = "publishing"
generation_status_value GenerationStatus.awaiting_merge = "awaiting_merge"
generation_status_value GenerationStatus.completed = "completed"
generation_status_value GenerationStatus.failed = "failed"
generation_status_value GenerationStatus.cancelled = "cancelled"

unfoldable pub wait_reason_value : WaitReason → String
wait_reason_value WaitReason.clarification = "clarification"
wait_reason_value WaitReason.no_safe_change = "no_safe_change"
wait_reason_value WaitReason.budget_exhausted = "budget_exhausted"
wait_reason_value WaitReason.remediation_exhausted = "remediation_exhausted"
wait_reason_value WaitReason.mr_closed = "mr_closed"
wait_reason_value WaitReason.external_change = "external_change"
wait_reason_value WaitReason.ambiguous_side_effect = "ambiguous_side_effect"
wait_reason_value WaitReason.permission_blocker = "permission_blocker"
wait_reason_value WaitReason.lost_fencing = "lost_fencing"

unfoldable pub outcome_value : TurnOutcomeKind → String
outcome_value TurnOutcomeKind.changes_ready = "changes_ready"
outcome_value TurnOutcomeKind.needs_human = "needs_human"
outcome_value TurnOutcomeKind.no_safe_change = "no_safe_change"
outcome_value TurnOutcomeKind.failed = "failed"
outcome_value TurnOutcomeKind.budget_exhausted = "budget_exhausted"

unfoldable pub merge_reason_value : MergeReason → String
merge_reason_value MergeReason.managed = "managed"
merge_reason_value MergeReason.external_mutation = "external_mutation"
merge_reason_value MergeReason.external_old_generation = "external_old_generation"

-- `status IN ('queued', 'running', 'paused_budget')`
abbrev pub is_open : TurnStatus → Bool
is_open TurnStatus.queued = true
is_open TurnStatus.running = true
is_open TurnStatus.paused_budget = true
is_open _ = false

abbrev pub is_pending : OutboundActionStatus → Bool
is_pending OutboundActionStatus.pending = true
is_pending _ = false

pub record IssueSession : Type 0 where
  pub gitlab_instance : String
  pub project_id : ℤ
  pub issue_iid : ℤ
  pub project_path : String
  pub issue_title : String
  pub repository_url : String
  pub id : String
  pub status : GenerationStatus
  pub active_generation_id : Option String
  pub registration_id : String
  pub trigger_label : String
  pub version : ℕ
  pub created_at : ℕ
  pub updated_at : ℕ
  pub metadata : Fields

pub record IssueGeneration : Type 0 where
  pub issue_session_id : String
  pub id : String
  pub status : GenerationStatus
  pub wait_reason : Option WaitReason
  pub target_branch : String
  pub target_base_sha : String
  pub policy_fingerprint : String
  pub branch_name : String
  pub steps_consumed : ℕ
  pub max_steps : ℤ
  pub remediation_attempts : ℕ
  pub max_remediation_attempts : ℕ
  pub outstanding_question_id : Option String
  pub summary : String
  pub merge_reason : Option MergeReason
  pub lease_epoch : ℕ
  pub cancel_requested : Bool
  pub version : ℕ
  pub created_at : ℕ
  pub updated_at : ℕ
  pub metadata : Fields

pub record Turn : Type 0 where
  pub issue_session_id : String
  pub generation_id : String
  pub kind : String
  pub id : String
  pub status : TurnStatus
  pub job_id : Option String
  pub agent_session_id : Option String
  pub workspace_path : Option String
  pub max_steps : ℤ
  pub steps_consumed : ℕ
  pub lease_epoch : ℕ
  pub outcome_kind : Option TurnOutcomeKind
  pub outcome_summary : String
  pub question_id : Option String
  pub version : ℕ
  pub created_at : ℕ
  pub updated_at : ℕ
  pub metadata : Fields

pub record InboundEvent : Type 0 where
  pub provider : String
  pub gitlab_instance : String
  pub project_id : ℤ
  pub delivery_id : String
  pub event_uuid : String
  pub event_type : String
  pub action : String
  pub object_key : String
  pub id : String
  pub issue_session_id : Option String
  pub generation_id : Option String
  pub consumed_by_turn_id : Option String
  pub actor_id : Option ℤ
  pub actor_username : String
  pub authorized : Bool
  pub authorization_reason : String
  pub payload : Fields
  pub created_at : ℕ

pub record ScmLink : Type 0 where
  pub issue_session_id : String
  pub generation_id : String
  pub source_project_id : ℤ
  pub target_project_id : ℤ
  pub branch_name : String
  pub target_branch : String
  pub ownership_marker : String
  pub id : String
  pub bot_author_id : Option ℤ
  pub mr_iid : Option ℤ
  pub mr_global_id : Option String
  pub mr_url : Option String
  pub expected_head_sha : String
  pub created_at : ℕ
  pub updated_at : ℕ

pub record OutboundAction : Type 0 where
  pub issue_session_id : String
  pub generation_id : String
  pub kind : String
  pub effect_key : String
  pub id : String
  pub turn_id : Option String
  pub status : OutboundActionStatus
  pub lease_epoch : ℕ
  pub payload : Fields
  pub result : Fields
  pub attempts : ℕ
  pub last_error : String
  pub created_at : ℕ
  pub updated_at : ℕ

pub record SessionEvent : Type 0 where
  pub issue_session_id : String
  pub seq : ℕ
  pub kind : String
  pub id : String
  pub generation_id : Option String
  pub turn_id : Option String
  pub payload : Fields
  pub created_at : ℕ
