-- ===== src/Tests/Outbox.antt =====
-- A publication that the service owes GitLab.
use generic_coding_agent.Prelude.{ℕ, true, false, none, some, [], ◌∷◌, ◌≡◌, refl, any, suc}
use generic_coding_agent.Prelude.Int.{pos}
use generic_coding_agent.Prelude.Text.{str_eq}
use generic_coding_agent.Json.{Json, Fields}
use generic_coding_agent.Issues.Models.{
  IssueSession, OutboundAction, OutboundActionStatus, GenerationStatus,
}
use generic_coding_agent.Issues.Tables.{Tables, empty_tables}
use generic_coding_agent.Issues.Outbox.Notes.{Texts}
use generic_coding_agent.Issues.Outbox.Publish.{Draws}
use generic_coding_agent.Issues.Outbox.Handlers.{Services, done}
use generic_coding_agent.Issues.Outbox.Process.{EventIds, list_pending_outbound, process_one}
use generic_coding_agent.Issues.Outbox.Passed.{has_id, process_one-IsTaken}
use generic_coding_agent.Tests.Repairs.{generation}

abbrev pub session : IssueSession
session = record {
  gitlab_instance = "https://gitlab.example";
  project_id = pos 7;
  issue_iid = pos 5;
  project_path = "group/project";
  issue_title = "Crash on start";
  repository_url = "https://gitlab.example/group/project.git";
  id = "s1";
  status = GenerationStatus.publishing;
  active_generation_id = some "g1";
  registration_id = "r1";
  trigger_label = "agent";
  version = 1;
  created_at = 1;
  updated_at = 1;
  metadata = Fields.end;
}

abbrev texts : Texts
texts = record {
  neutralize = λ s. s;
  shown = λ v. elim v [
    | Json.null ↦ "None"
    | Json.boolean b ↦ "True"
    | Json.int n ↦ "9"
    | Json.float n ↦ "9.0"
    | Json.str s ↦ s
    | Json.array vs ↦ "[]"
    | Json.object fs ↦ "{}"
  ];
  is_true = λ v. true;
}

-- The state of the world counts the calls.
abbrev services : Services
services = record {
  W = ℕ;
  texts = texts;
  to_int = λ v. some (pos 9);
  first_12 = λ s. s;
  number_text = λ n. "5";
  safe_title = λ s. s;
  error_text = λ e. "not found";
  redact = λ s. s;
  has_git_token = true;
  is_allowed = λ n. true;
  is_dir = λ path w. str_eq path "/work";
  create_trusted_commit = λ workspace branch message w. (done "abc", suc w);
  push_with_token = λ workspace branch url w. (done tt, suc w);
  trusted_auto_merge = λ workspace metadata w. true;
  create_issue_note = λ project issue body w. (done Fields.end, suc w);
  get_merge_request = λ project iid w. (done Fields.end, suc w);
  create_merge_request = λ project branch target title description w.
      (done (Fields.field "iid" (Json.int (pos 9)) Fields.end), suc w);
  merge_merge_request = λ project iid sha w. (done Fields.end, suc w);
}

abbrev draws : Draws
draws = record { link_id = "l1"; note_id = "n1"; merge_id = "m1"; now = 5 }

abbrev ids : EventIds
ids = record { succeeded_id = "e1"; failed_id = "e2" }

abbrev action : OutboundAction
action = record {
  issue_session_id = "s1";
  generation_id = "g1";
  kind = "publish_changes";
  effect_key = "publish:g1";
  id = "a1";
  turn_id = none;
  status = OutboundActionStatus.pending;
  lease_epoch = 0;
  payload = Fields.field "workspace_path" (Json.str "/work") Fields.end;
  result = Fields.end;
  attempts = 0;
  last_error = "";
  created_at = 2;
  updated_at = 2;
}

abbrev tables : Tables
tables = record empty_tables {
  sessions = session ∷ [];
  generations = generation ∷ [];
  outbound = action ∷ [];
}

process_one-IsTaken_example :
    any (has_id "a1") (list_pending_outbound 20 (process_one services draws ids action tables 0).1)
    ≡ false
process_one-IsTaken_example = process_one-IsTaken services draws ids action tables 0 20 (refl, refl)
