-- ===== src/Issues/Outbox/Handlers.antt =====
-- `_post_issue_note`, `_publish_changes` and `_merge_mr`, over the calls of GitLab and git.
use generic_coding_agent.Prelude.{String, Bool, Option, none, some, if◌then◌else◌}
use generic_coding_agent.Prelude.Int.{ℤ}
use generic_coding_agent.Prelude.Text.{◌<>◌}
use generic_coding_agent.Json.{Json, Fields}
use generic_coding_agent.Issues.Models.{IssueSession, IssueGeneration, ScmLink, OutboundAction}
use generic_coding_agent.Issues.Tables.{Tables, WorkError, ok, err, committed, raised, unit_of_work}
use generic_coding_agent.Issues.Work.{get_session, get_generation, find_link}
use generic_coding_agent.Issues.Ingestion.Records.{text_or}
use generic_coding_agent.Issues.Outbox.Notes.{Texts, get, text_at, true_at, render_issue_note}
use generic_coding_agent.Issues.Outbox.Publish.{Published, Draws, record_publication}

-- What a call returns, or the text of its exception.
pub data Attempt (A : Type 0) : Type 0 where
  done : A → Attempt A
  failed : String → Attempt A

-- GitLab, git and the workspaces, in a state `W`, and the functions on texts.
pub record Services : Type 1 where
  pub W : Type 0
  pub texts : Texts
  pub to_int : Json → Option ℤ
  pub first_12 : String → String
  pub number_text : ℤ → String
  pub safe_title : String → String
  pub error_text : WorkError → String
  pub redact : String → String
  pub has_git_token : Bool
  pub is_allowed : ℤ → Bool
  pub is_dir : String → W → Bool
  pub create_trusted_commit : String → String → String → W → Attempt String × W
  pub push_with_token : String → String → String → W → Attempt (Unit {0}) × W
  pub trusted_auto_merge : String → Fields → W → Bool
  pub create_issue_note : ℤ → ℤ → String → W → Attempt Fields × W
  pub get_merge_request : ℤ → ℤ → W → Attempt Fields × W
  pub create_merge_request : ℤ → String → String → String → String → W → Attempt Fields × W
  pub merge_merge_request : ℤ → ℤ → String → W → Attempt Fields × W

-- `e1; e2`, where an exception of `e1` leaves `e2` out.
unfoldable pub and_then :
    {W A B : Type 0} → (W → Attempt A × W) → (A → W → Attempt B × W) → W → Attempt B × W
and_then m k w =
    let (attempt, w') = m w in elim attempt [ done a ↦ k a w' | failed e ↦ (failed e, w') ]

-- `int(payload[key])`
unfoldable pub int_at : (Json → Option ℤ) → String → Fields → Attempt ℤ
int_at to_int key fields = elim (get key fields) [
  | none ↦ failed ("'" <> key <> "'")
  | some v ↦ elim (to_int v) [ none ↦ failed "invalid integer" | some n ↦ done n ]
]

module _ (services : Services) where
  -- What a handler gives: its result or an error, the tables, and the world.
  abbrev pub Handled : Type 0
  Handled = Attempt Fields × Tables × services.W

  -- A call that leaves the tables as they are.
  unfoldable pub calling : Tables → Attempt Fields × services.W → Handled
  calling t (attempt, w) = (attempt, t, w)

  -- `int(payload.get("issue_iid") or session.issue_iid)`
  unfoldable pub note_iid : OutboundAction → IssueSession → Attempt ℤ
  note_iid action session = elim (true_at services.texts "issue_iid" action.payload) [
    | none ↦ done session.issue_iid
    | some v ↦ int_at services.to_int "issue_iid" action.payload
  ]

  unfoldable pub post_issue_note : OutboundAction → Tables → services.W → Handled
  post_issue_note action t w = elim (get_session action.issue_session_id t) [
    | err e ↦ (failed (services.error_text e), t, w)
    | ok session t' ↦ elim (note_iid action session) [
      | failed e ↦ (failed e, t, w)
      | done n ↦ calling t (
          services.create_issue_note session.project_id n
            (render_issue_note services.texts action.payload) w)
    ]
  ]

  unfoldable pub merge_mr : OutboundAction → Tables → services.W → Handled
  merge_mr action t w = elim (int_at services.to_int "project_id" action.payload) [
    | failed e ↦ (failed e, t, w)
    | done project_id ↦ elim (int_at services.to_int "mr_iid" action.payload) [
      | failed e ↦ (failed e, t, w)
      | done mr_iid ↦ elim (get "sha" action.payload) [
        | none ↦ (failed "'sha'", t, w)
        | some sha ↦
            calling t (services.merge_merge_request project_id mr_iid (services.texts.shown sha) w)
      ]
    ]
  ]

  unfoldable pub branch_of : IssueSession → IssueGeneration → String
  branch_of session generation = text_or generation.branch_name (
      "gca/issues/"
      <> services.number_text session.issue_iid
      <> "/"
      <> services.first_12 generation.id)

  -- `str(payload.get(key) or fallback)`
  unfoldable pub true_text : String → String → Fields → String
  true_text key fallback payload = elim (true_at services.texts key payload) [
    | none ↦ fallback
    | some v ↦ services.texts.shown v
  ]

  abbrev pub title_of : OutboundAction → IssueSession → String
  title_of action session =
      "gca: " <> services.safe_title (true_text "issue_title" session.issue_title action.payload)

  abbrev pub description_of : OutboundAction → IssueSession → IssueGeneration → String
  description_of action session generation =
      "Automated change produced by generic-coding-agent.\n\nCloses #"
      <> services.number_text session.issue_iid
      <> "\n\n<!-- gca-ownership:"
      <> generation.id
      <> " -->\n\nSummary:\n"
      <> services.texts.neutralize (true_text "summary" "" action.payload)

  unfoldable pub push : String → String → String → services.W → Attempt (Unit {0}) × services.W
  push workspace branch url w =
      if services.has_git_token
      then services.push_with_token workspace branch url w
      else (done tt, w)

  -- The merge request of the link, or a new one.
  unfoldable pub merge_request :
      OutboundAction
      → IssueSession
      → IssueGeneration
      → Option ScmLink
      → services.W
      → Attempt Fields × services.W
  merge_request action session generation link w =
      let created =
        services.create_merge_request session.project_id (branch_of session generation)
          generation.target_branch (title_of action session)
          (description_of action session generation) w in
      elim link [
        | none ↦ created
        | some l ↦ elim l.mr_iid [
          | none ↦ created
          | some iid ↦ services.get_merge_request session.project_id iid w
        ]
      ]

  -- What the link and the metadata keep of the merge request.
  unfoldable pub published_of :
      String → IssueGeneration → String → Fields → services.W → Attempt Published
  published_of workspace generation commit_sha mr w = elim (int_at services.to_int "iid" mr) [
    | failed e ↦ failed e
    | done iid ↦ done (record {
      commit_sha = commit_sha;
      mr_iid = iid;
      mr_id = text_at services.texts "id" "" mr;
      web_url = text_at services.texts "web_url" "" mr;
      sha = true_text "sha" commit_sha mr;
      auto_merge = services.trusted_auto_merge workspace generation.metadata w;
    })
  ]

  unfoldable pub publish :
      OutboundAction
      → String
      → IssueSession
      → IssueGeneration
      → Option ScmLink
      → services.W
      → Attempt Published × services.W
  publish action workspace session generation link =
      and_then
        (services.create_trusted_commit workspace (branch_of session generation)
          (title_of action session))
        (λ commit_sha.
          and_then (push workspace (branch_of session generation) session.repository_url) (λ u.
            and_then (merge_request action session generation link)
              (λ mr w. (published_of workspace generation commit_sha mr w, w))))

  unfoldable pub publication : String → Published → Fields
  publication branch published = Fields.field "branch" (Json.str branch) (
      Fields.field "commit_sha" (Json.str published.commit_sha) (
        Fields.field "mr_iid" (Json.int published.mr_iid)
          (Fields.field "mr_url" (Json.str published.web_url) Fields.end)))

  -- The unit of work that records what was published.
  unfoldable pub record_published :
      Draws
      → OutboundAction
      → IssueSession
      → IssueGeneration
      → Tables
      → Attempt Published × services.W
      → Handled
  record_published draws action session generation t (attempt, w) = elim attempt [
    | failed e ↦ (failed e, t, w)
    | done published ↦
        let (outcome, t') =
          unit_of_work
            (record_publication (services.is_allowed session.project_id) draws action session
              generation (branch_of session generation) published)
            t in
        elim outcome [
          | committed u ↦ (done (publication (branch_of session generation) published), t', w)
          | raised e ↦ (failed (services.error_text e), t', w)
        ]
  ]

  -- `_publish_changes` on the session and the generation it reads.
  unfoldable pub publish_for :
      Draws
      → OutboundAction
      → IssueSession
      → IssueGeneration
      → Option ScmLink
      → Tables
      → services.W
      → Handled
  publish_for draws action session generation link t w =
      let workspace = true_text "workspace_path" "" action.payload in
      if services.is_dir workspace w
      then record_published draws action session generation t
          (publish action workspace session generation link w)
      else (failed "publish workspace is missing", t, w)

  unfoldable pub publish_changes : Draws → OutboundAction → Tables → services.W → Handled
  publish_changes draws action t w = elim (get_session action.issue_session_id t) [
    | err e ↦ (failed (services.error_text e), t, w)
    | ok session t1 ↦ elim (get_generation action.generation_id t) [
      | err e ↦ (failed (services.error_text e), t, w)
      | ok generation t2 ↦ elim (find_link generation.id t) [
        | err e ↦ (failed (services.error_text e), t, w)
        | ok link t3 ↦ publish_for draws action session generation link t w
      ]
    ]
  ]
