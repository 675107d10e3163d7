-- ===== src/Issues/Outbox/Process.antt =====
-- `process_one` and `process_pending`, with the store's `list_pending_outbound`.
use generic_coding_agent.Prelude.{
  ℕ, suc, leb, max, min, String, some, List, [], ◌∷◌, keep_if, take, if◌then◌else◌,
}
use generic_coding_agent.Prelude.Text.{str_eq, ◌<>◌}
use generic_coding_agent.Json.{Json, Fields}
use generic_coding_agent.Issues.Models.{OutboundAction, OutboundActionStatus, is_pending}
use generic_coding_agent.Issues.Tables.{
  Tables, Work, Outcome, committed, raised, ◌>>=◌, pure, unit_of_work,
}
use generic_coding_agent.Issues.Work.{save_outbound_action, append_event}
use generic_coding_agent.Issues.Outbox.Publish.{Draws}
use generic_coding_agent.Issues.Outbox.Handlers.{
  done, failed, Services, Handled, post_issue_note, publish_changes, merge_mr,
}

-- `ORDER BY created_at ASC`
unfoldable pub insert_action : OutboundAction → List OutboundAction → List OutboundAction
insert_action a [] = a ∷ []
insert_action a (b ∷ actions) =
    let rest = insert_action a actions in
    if leb a.created_at b.created_at then a ∷ b ∷ actions else b ∷ rest

unfoldable pub oldest_first : List OutboundAction → List OutboundAction
oldest_first [] = []
oldest_first (a ∷ actions) = insert_action a (oldest_first actions)

unfoldable pub list_pending_outbound : ℕ → Tables → List OutboundAction
list_pending_outbound limit t =
    take (max 1 (min limit 100))
      (oldest_first (keep_if (λ (a : OutboundAction). is_pending a.status) t.outbound))

-- The identifiers of the event that ends an action, and of the one after an exception.
pub record EventIds : Type 0 where
  pub succeeded_id : String
  pub failed_id : String

abbrev pub leased : ℕ → OutboundAction → OutboundAction
leased now action = record action {
  status = OutboundActionStatus.leased;
  attempts = suc action.attempts;
  updated_at = now;
}

-- A save of the action and its event, in one unit of work.
unfoldable pub conclude : String → ℕ → OutboundAction → Fields → Work (Unit {0})
conclude id now action payload = do
  saved ← save_outbound_action now action
  event ←
      append_event id now action.issue_session_id "outbound"
        (Fields.field "kind" (Json.str action.kind) payload) (some action.generation_id)
        action.turn_id
  pure tt

abbrev pub succeeded : Fields → OutboundAction → OutboundAction
succeeded result action = record action { status = OutboundActionStatus.succeeded; result = result }

unfoldable pub succeed : String → ℕ → OutboundAction → Fields → Work (Unit {0})
succeed id now action result = conclude id now (succeeded result action) (
    Fields.field "status" (Json.str "succeeded")
      (Fields.field "result" (Json.object result) Fields.end))

unfoldable pub fail : String → ℕ → OutboundAction → String → Work (Unit {0})
fail id now action error =
    conclude id now (record action { status = OutboundActionStatus.failed; last_error = error })
      (Fields.field "status" (Json.str "failed") (Fields.field "error" (Json.str error) Fields.end))

module _ (services : Services) where
  -- The end of a pass: no exception or the one of the last unit of work, the tables, the world.
  abbrev pub Passed : Type 0
  Passed = Outcome (Unit {0}) × Tables × services.W

  unfoldable pub handle : Draws → OutboundAction → Tables → services.W → Handled services
  handle draws action t w =
      if str_eq action.kind "issue_note"
      then post_issue_note services action t w
      else if str_eq action.kind "publish_changes"
      then publish_changes services draws action t w
      else if str_eq action.kind "merge_mr"
      then merge_mr services action t w
      else (failed ("unsupported outbound action kind: " <> action.kind), t, w)

  -- The `except` clause.
  unfoldable pub give_up : EventIds → ℕ → OutboundAction → String → Tables → services.W → Passed
  give_up ids now action error t w =
      let (outcome, t') = unit_of_work (fail ids.failed_id now action (services.redact error)) t in
      (outcome, t', w)

  -- The end of the `try` clause. The action keeps its result when this unit of work raises.
  unfoldable pub finish : EventIds → ℕ → OutboundAction → Handled services → Passed
  finish ids now action (attempt, t, w) = elim attempt [
    | failed error ↦ give_up ids now action error t w
    | done result ↦
        let (outcome, t') = unit_of_work (succeed ids.succeeded_id now action result) t in
        elim outcome [
          | committed u ↦ (committed tt, t', w)
          | raised e ↦ give_up ids now (succeeded result action) (services.error_text e) t' w
        ]
  ]

  unfoldable pub process_one : Draws → EventIds → OutboundAction → Tables → services.W → Passed
  process_one draws ids action t w =
      let now = draws.now in
      let (outcome, t') = unit_of_work (save_outbound_action now (leased now action)) t in
      elim outcome [
        | raised e ↦ (raised e, t', w)
        | committed saved ↦
            finish ids now (leased now action) (handle draws (leased now action) t' w)
      ]

  -- The count of the handled actions, or the exception that ends the pass.
  unfoldable pub process_all :
      (ℕ → Draws)
      → (ℕ → EventIds)
      → ℕ
      → List OutboundAction
      → Tables
      → services.W
      → Outcome ℕ × Tables × services.W
  process_all draws ids handled [] t w = (committed handled, t, w)
  process_all draws ids handled (action ∷ actions) t w =
      let (outcome, t', w') = process_one (draws handled) (ids handled) action t w in
      let rest = process_all draws ids (suc handled) actions t' w' in
      elim outcome [ raised e ↦ (raised e, t', w') | committed u ↦ rest ]

  unfoldable pub process_pending :
      (ℕ → Draws) → (ℕ → EventIds) → ℕ → Tables → services.W → Outcome ℕ × Tables × services.W
  process_pending draws ids limit t w = process_all draws ids 0 (list_pending_outbound limit t) t w
