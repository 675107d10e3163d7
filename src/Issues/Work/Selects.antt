-- ===== src/Issues/Work/Selects.antt =====
-- The queries of a unit of work, which change nothing.
use generic_coding_agent.Prelude.{
  leb, String, Bool, true, false, ◌&&◌, Option, none, some, List, [], ◌∷◌, any, keep_if, find_first,
  if◌then◌else◌,
}
use generic_coding_agent.Prelude.Int.{ℤ, eq_ℤ}
use generic_coding_agent.Prelude.Text.{str_eq}
use generic_coding_agent.Jobs.Models.{is_active}
use generic_coding_agent.Issues.Models.{
  IssueSession, IssueGeneration, Turn, InboundEvent, ScmLink, is_open,
}
use generic_coding_agent.Issues.Tables.{Tables, TurnJob, WorkError, Work, Worked, ok, err}

-- The row, or an exception when there is none.
abbrev pub row_or : {A : Type 0} → WorkError → Option A → Tables → Worked A
row_or e none t = err e
row_or e (some a) t = ok a t

unfoldable pub get_session : String → Work IssueSession
get_session id t =
    row_or WorkError.not_found (find_first (λ (s : IssueSession). str_eq s.id id) t.sessions) t

unfoldable pub get_generation : String → Work IssueGeneration
get_generation id t =
    row_or WorkError.not_found (find_first (λ (g : IssueGeneration). str_eq g.id id) t.generations)
      t

-- The query that reads a turn and its row without a test for `None`.
unfoldable pub fetch_turn : String → Work Turn
fetch_turn id t = row_or WorkError.type_error (find_first (λ (u : Turn). str_eq u.id id) t.turns) t

unfoldable pub find_session : String → ℤ → ℤ → Work (Option IssueSession)
find_session instance project_id issue_iid t =
    ok
      (find_first
        (λ (s : IssueSession).
          str_eq s.gitlab_instance instance
          && eq_ℤ s.project_id project_id
          && eq_ℤ s.issue_iid issue_iid)
        t.sessions)
      t

unfoldable pub find_delivery : String → String → Work (Option InboundEvent)
find_delivery provider delivery_id t =
    ok
      (find_first
        (λ (e : InboundEvent). str_eq e.provider provider && str_eq e.delivery_id delivery_id)
        t.inbound)
      t

unfoldable pub active_turn : String → Work (Option Turn)
active_turn generation_id t =
    ok (find_first (λ (u : Turn). str_eq u.generation_id generation_id && is_open u.status) t.turns)
      t

unfoldable pub find_link : String → Work (Option ScmLink)
find_link generation_id t =
    ok (find_first (λ (l : ScmLink). str_eq l.generation_id generation_id) t.links) t

-- `ORDER BY updated_at DESC LIMIT 1`
unfoldable pub latest_link : List ScmLink → Option ScmLink
latest_link [] = none
latest_link (l ∷ links) = elim (latest_link links) [
  | none ↦ some l
  | some m ↦ some (if leb m.updated_at l.updated_at then l else m)
]

-- The session of the latest link to a merge request, as the inner join finds it.
unfoldable pub find_session_by_mr : ℤ → ℤ → Work (Option IssueSession)
find_session_by_mr project_id mr_iid t =
    ok
      (elim (latest_link (
        keep_if
          (λ (l : ScmLink).
            eq_ℤ l.target_project_id project_id
            && elim l.mr_iid [ none ↦ false | some n ↦ eq_ℤ n mr_iid ]
            && any (λ (s : IssueSession). str_eq s.id l.issue_session_id) t.sessions)
          t.links)) [
            | none ↦ none
            | some l ↦ find_first (λ (s : IssueSession). str_eq s.id l.issue_session_id) t.sessions
          ])
      t

unfoldable pub project_has_active_coding_turn : ℤ → Work Bool
project_has_active_coding_turn project_id t =
    ok (any (λ (j : TurnJob). eq_ℤ j.project_id project_id && is_active j.row.status) t.jobs) t

-- `ORDER BY created_at ASC`; of rows created at one time the first in the table.
unfoldable pub insert_by_time : InboundEvent → List InboundEvent → List InboundEvent
insert_by_time e [] = e ∷ []
insert_by_time e (f ∷ events) =
    let rest = insert_by_time e events in
    if leb e.created_at f.created_at then e ∷ f ∷ events else f ∷ rest

unfoldable pub by_time : List InboundEvent → List InboundEvent
by_time [] = []
by_time (e ∷ events) = insert_by_time e (by_time events)

unfoldable pub unconsumed_inbound_events : String → Work (List InboundEvent)
unconsumed_inbound_events session_id t =
    ok
      (by_time (
        keep_if
          (λ (e : InboundEvent).
            elim e.issue_session_id [ none ↦ false | some s ↦ str_eq s session_id ]
            && elim e.consumed_by_turn_id [ none ↦ true | some u ↦ false ])
          t.inbound))
      t
