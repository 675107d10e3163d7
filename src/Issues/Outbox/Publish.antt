-- ===== src/Issues/Outbox/Publish.antt =====
-- `_publish_changes`: the branch is pushed and its merge request opened, and the tables record it. The
-- work with git and GitLab is a parameter of Process, which gives a `Published`.
use generic_coding_agent.Prelude.{ℕ, String, Bool, ◌&&◌, none, some, if◌then◌else◌}
use generic_coding_agent.Prelude.Int.{ℤ}
use generic_coding_agent.Prelude.Text.{str_eq, ◌<>◌}
use generic_coding_agent.Json.{Json, Fields}
use generic_coding_agent.Issues.Models.{
  IssueSession, IssueGeneration, ScmLink, OutboundAction, GenerationStatus, OutboundActionStatus,
}
use generic_coding_agent.Issues.Tables.{Work, ◌>>=◌, pure}
use generic_coding_agent.Issues.Work.{
  get_session, get_generation, save_session, save_generation, upsert_scm_link,
  insert_outbound_action,
}
use generic_coding_agent.Issues.Ingestion.Records.{new_note}

-- The commit, the merge request with its head (or the commit where GitLab gives none), and whether the
-- repository opts into merging.
pub record Published : Type 0 where
  pub commit_sha : String
  pub mr_iid : ℤ
  pub mr_id : String
  pub web_url : String
  pub sha : String
  pub auto_merge : Bool

-- The identifiers of the link, the note and the merge, and one reading of the clock.
pub record Draws : Type 0 where
  pub link_id : String
  pub note_id : String
  pub merge_id : String
  pub now : ℕ

unfoldable pub link_of : Draws → IssueSession → IssueGeneration → String → Published → ScmLink
link_of draws session generation branch published = record {
  issue_session_id = session.id;
  generation_id = generation.id;
  source_project_id = session.project_id;
  target_project_id = session.project_id;
  branch_name = branch;
  target_branch = generation.target_branch;
  ownership_marker = "gca-ownership:" <> generation.id;
  id = draws.link_id;
  bot_author_id = none;
  mr_iid = some published.mr_iid;
  mr_global_id = some published.mr_id;
  mr_url = some published.web_url;
  expected_head_sha = published.sha;
  created_at = draws.now;
  updated_at = draws.now;
}

-- `{**metadata, key: value}`
unfoldable pub with_item : String → Json → Fields → Fields
with_item key value Fields.end = Fields.field key value Fields.end
with_item key value (Fields.field k v fields) =
    let rest = with_item key value fields in
    if str_eq k key then Fields.field k value fields else Fields.field k v rest

unfoldable pub merge_action : Draws → IssueSession → IssueGeneration → ScmLink → ℤ → OutboundAction
merge_action draws session generation link mr_iid = record {
  issue_session_id = session.id;
  generation_id = generation.id;
  kind = "merge_mr";
  effect_key = "merge:" <> session.id <> ":" <> generation.id <> ":" <> link.expected_head_sha;
  id = draws.merge_id;
  turn_id = none;
  status = OutboundActionStatus.pending;
  lease_epoch = 0;
  payload = Fields.field "project_id" (Json.int session.project_id) (
      Fields.field "mr_iid" (Json.int mr_iid)
        (Fields.field "sha" (Json.str link.expected_head_sha) Fields.end));
  result = Fields.end;
  attempts = 0;
  last_error = "";
  created_at = draws.now;
  updated_at = draws.now;
}

-- The merge is asked for with two keys: the operator's list of projects, and the repository.
unfoldable pub maybe_merge :
    Bool → Draws → IssueSession → IssueGeneration → ScmLink → Published → Work (Unit {0})
maybe_merge is_allowed draws session generation link published =
    if is_allowed && published.auto_merge
    then (insert_outbound_action (merge_action draws session generation link published.mr_iid)
        >>= λ action. pure tt)
    else pure tt

unfoldable pub record_publication :
    Bool
    → Draws
    → OutboundAction
    → IssueSession
    → IssueGeneration
    → String
    → Published
    → Work (Unit {0})
record_publication is_allowed draws action session seen branch published = do
  stored ← upsert_scm_link draws.now (link_of draws session seen branch published)
  generation ← get_generation seen.id
  saved ← save_generation draws.now (record generation {
    status = GenerationStatus.awaiting_merge;
    branch_name = branch;
    metadata = with_item "auto_merge" (Json.boolean published.auto_merge) generation.metadata;
  })
  current ← get_session session.id
  resaved ← save_session draws.now (record current { status = GenerationStatus.awaiting_merge })
  note ← insert_outbound_action (
      new_note draws.note_id draws.now session.id generation.id action.turn_id
        ("note:" <> session.id <> ":" <> generation.id <> ":mr")
        (Fields.field "template" (Json.str "mr_opened") (
          Fields.field "issue_iid" (Json.int session.issue_iid) (
            Fields.field "mr_url" (Json.str published.web_url)
              (Fields.field "branch" (Json.str branch) Fields.end)))))
  maybe_merge is_allowed draws session generation (link_of draws session seen branch published)
      published
