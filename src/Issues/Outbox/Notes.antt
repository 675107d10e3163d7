-- ===== src/Issues/Outbox/Notes.antt =====
-- `render_issue_note`, the fixed templates of a note.
use generic_coding_agent.Prelude.{String, Bool, Option, none, some, if◌then◌else◌}
use generic_coding_agent.Prelude.Text.{str_eq, ◌<>◌}
use generic_coding_agent.Json.{Json, Fields}

-- `payload.get(key)`
unfoldable pub get : String → Fields → Option Json
get key Fields.end = none
get key (Fields.field k v fields) =
    let rest = get key fields in if str_eq k key then some v else rest

-- `neutralize_untrusted_markdown`, `str` of a value of JSON, and its truth.
pub record Texts : Type 0 where
  pub neutralize : String → String
  pub shown : Json → String
  pub is_true : Json → Bool

-- `str(payload.get(key, default))`
unfoldable pub text_at : Texts → String → String → Fields → String
text_at texts key fallback payload = elim (get key payload) [
  | none ↦ fallback
  | some v ↦ texts.shown v
]

-- `payload.get(key)` where it is true.
unfoldable pub true_at : Texts → String → Fields → Option Json
true_at texts key payload = elim (get key payload) [
  | none ↦ none
  | some v ↦ if texts.is_true v then some v else none
]

abbrev pub untrusted : Texts → String → String → Fields → String
untrusted texts key fallback payload = texts.neutralize (text_at texts key fallback payload)

unfoldable pub marker : Texts → Fields → String
marker texts payload =
    "<!-- gca-effect:"
    <> (elim (true_at texts "question_id" payload) [
      | some q ↦ texts.shown q
      | none ↦ elim (get "template" payload) [ none ↦ "None" | some t ↦ texts.shown t ]
    ])
    <> " -->"

unfoldable pub render_issue_note : Texts → Fields → String
render_issue_note texts payload =
    let template = text_at texts "template" "status" payload in
    let end_ = "\n\n" <> marker texts payload in
    if str_eq template "clarification"
    then "I need a bit more information before continuing:\n\n"
      <> untrusted texts "question" "" payload
      <> end_
    else if str_eq template "ack"
    then "Queued a coding agent session for this issue." <> end_
    else if str_eq template "status"
    then "Current agent status: `"
      <> untrusted texts "status" "unknown" payload
      <> "`"
      <> (elim (true_at texts "wait_reason" payload) [
        | none ↦ ""
        | some wait ↦ " (waiting: " <> texts.shown wait <> ")"
      ])
      <> "."
      <> end_
    else if str_eq template "no_safe_change"
    then "No safe code change was made.\n\n" <> untrusted texts "summary" "" payload <> end_
    else if str_eq template "budget_exhausted"
    then "The agent paused because its step budget was exhausted before finishing.\n\n"
      <> "Progress so far:\n"
      <> untrusted texts "summary" "" payload
      <> "\n\n"
      <> "Resume with a larger budget via `POST /runs/{id}/resume` "
      <> "(`max_steps` must exceed the prior budget), or comment `/agent fix` "
      <> "to continue."
      <> end_
    else if str_eq template "failed"
    then "The agent turn failed.\n\n" <> untrusted texts "summary" "" payload <> end_
    else if str_eq template "mr_opened"
    then "Opened merge request: "
      <> text_at texts "mr_url" "" payload
      <> "\n\nBranch: `"
      <> untrusted texts "branch" "" payload
      <> "`"
      <> end_
    else if str_eq template "remediation_exhausted"
    then "Automatic conflict/build remediation attempts were exhausted. "
      <> "Please help or comment `/agent fix` after addressing blockers." <> end_
    else untrusted texts "summary" "" payload <> end_
