-- ===== src/Issues/Contracts/Statements.antt =====
-- Each statement keeps a predicate that does not read the table that the statement writes.
use generic_coding_agent.Prelude.{
  ℕ, String, Option, none, some, List, [], ◌∷◌, if◌then◌else◌, inl, inr, Bool-cases, find_first,
  ◌++◌,
}
use generic_coding_agent.Prelude.Int.{ℤ}
use generic_coding_agent.Prelude.Text.{str_eq}
use generic_coding_agent.Json.{Fields}
use generic_coding_agent.Issues.Models.{
  IssueSession, IssueGeneration, Turn, InboundEvent, OutboundAction, SessionEvent,
}
use generic_coding_agent.Issues.Tables.{Tables, TurnJob, WorkError, ok, err}
use generic_coding_agent.Issues.Work.{
  is_issue, has_session, is_refused, row_or, get_session, get_generation, fetch_turn, find_session,
  find_session_by_mr, find_delivery, active_turn, find_link, upsert_session, save_session,
  insert_generation, save_generation, insert_turn, save_turn, create_turn_job, insert_inbound_event,
  mark_consumed, mark_events_consumed, append_event, insert_outbound_action,
}
use generic_coding_agent.Issues.Contracts.{
  ensures_rules, Keeps, Ensures-option, Ensures-ok, Ensures-err,
}

module _ {P : Tables → Type 0} where
  row_or-Keeps : {A : Type 0} (e : WorkError) (o : Option A) → Keeps P (row_or e o)
  row_or-Keeps e none = record { runs = λ t p. Ensures-err _ P e }
  row_or-Keeps e (some a) = record { runs = λ t p. Ensures-ok P _ t p }

  pub get_session-Keeps : (id : String) → Keeps P (get_session id)
  unfolding get_session
  get_session-Keeps id = record { runs = λ t p. (row_or-Keeps _ _).runs t p }

  pub get_generation-Keeps : (id : String) → Keeps P (get_generation id)
  unfolding get_generation
  get_generation-Keeps id = record { runs = λ t p. (row_or-Keeps _ _).runs t p }

  pub fetch_turn-Keeps : (id : String) → Keeps P (fetch_turn id)
  unfolding fetch_turn
  fetch_turn-Keeps id = record { runs = λ t p. (row_or-Keeps _ _).runs t p }

  pub active_turn-Keeps : (id : String) → Keeps P (active_turn id)
  unfolding active_turn
  active_turn-Keeps id = record { runs = λ t p. Ensures-ok P _ t p }

  pub find_link-Keeps : (id : String) → Keeps P (find_link id)
  unfolding find_link
  find_link-Keeps id = record { runs = λ t p. Ensures-ok P _ t p }

  pub find_delivery-Keeps : (provider id : String) → Keeps P (find_delivery provider id)
  unfolding find_delivery
  find_delivery-Keeps provider id = record { runs = λ t p. Ensures-ok P _ t p }

  pub find_session-Keeps :
      (instance_url : String) (project_id iid : ℤ)
      → Keeps P (find_session instance_url project_id iid)
  unfolding find_session
  find_session-Keeps instance_url project_id iid = record { runs = λ t p. Ensures-ok P _ t p }

  pub find_session_by_mr-Keeps : (project_id iid : ℤ) → Keeps P (find_session_by_mr project_id iid)
  unfolding find_session_by_mr
  find_session_by_mr-Keeps project_id iid = record { runs = λ t p. Ensures-ok P _ t p }

pub ruleset query_rules = (
  get_session-Keeps, get_generation-Keeps, fetch_turn-Keeps, active_turn-Keeps, find_link-Keeps,
  find_delivery-Keeps, find_session-Keeps, find_session_by_mr-Keeps,
)

module _ (P : Tables → Type 0) where
  module _
      (unread : (t : Tables) (xs : List IssueSession) → P t → P (record t { sessions = xs })) where
    pub upsert_session-Keeps : (session : IssueSession) → Keeps P (upsert_session session)
    unfolding upsert_session
    upsert_session-Keeps session = record {
      runs = λ t p.
          Ensures-option P
            (find_first (is_issue session.gitlab_instance session.project_id session.issue_iid)
              t.sessions)
            (if has_session t session.id
              then err WorkError.integrity
              else ok session (record t { sessions = t.sessions ++ session ∷ [] }))
            (λ s. ok s t) (λ e. search (ensures_rules, unread)) (λ s e. Ensures-ok P s t p);
    }

    pub save_session-Keeps : (now : ℕ) (session : IssueSession) → Keeps P (save_session now session)
    unfolding save_session
    save_session-Keeps now session = record { runs = λ t p. search (ensures_rules, unread) }

  module _
      (unread : (t : Tables) (xs : List IssueGeneration)
        → P t
        → P (record t { generations = xs })) where
    pub insert_generation-Keeps :
        (generation : IssueGeneration) → Keeps P (insert_generation generation)
    unfolding insert_generation
    insert_generation-Keeps generation = record { runs = λ t p. search (ensures_rules, unread) }

    pub save_generation-Keeps :
        (now : ℕ) (generation : IssueGeneration) → Keeps P (save_generation now generation)
    unfolding save_generation
    save_generation-Keeps now generation = record { runs = λ t p. search (ensures_rules, unread) }

  module _ (unread : (t : Tables) (xs : List Turn) → P t → P (record t { turns = xs })) where
    pub insert_turn-Keeps : (turn : Turn) → Keeps P (insert_turn turn)
    unfolding insert_turn
    insert_turn-Keeps turn = record { runs = λ t p. search (ensures_rules, unread) }

    pub save_turn-Keeps : (now : ℕ) (turn : Turn) → Keeps P (save_turn now turn)
    unfolding save_turn
    save_turn-Keeps now turn = record { runs = λ t p. search (ensures_rules, unread) }

  module _ (unread : (t : Tables) (xs : List TurnJob) → P t → P (record t { jobs = xs })) where
    pub create_turn_job-Keeps :
        (number_text : ℤ → String) (ticks : ℕ) (id : String) (turn : Turn) (session : IssueSession)
        (generation : IssueGeneration) (task : String)
        → Keeps P (create_turn_job number_text ticks id turn session generation task)
    unfolding create_turn_job
    create_turn_job-Keeps number_text ticks id turn session generation task = record {
      runs = λ t p. search (ensures_rules, unread);
    }

  module _
      (unread : (t : Tables) (xs : List InboundEvent) → P t → P (record t { inbound = xs })) where
    pub insert_inbound_event-Keeps : (event : InboundEvent) → Keeps P (insert_inbound_event event)
    unfolding insert_inbound_event
    insert_inbound_event-Keeps event = record { runs = λ t p. search (ensures_rules, unread) }

  module _
      (unread : (t : Tables) (xs : List OutboundAction)
        → P t
        → P (record t { outbound = xs })) where
    pub insert_outbound_action-Keeps :
        (action : OutboundAction) → Keeps P (insert_outbound_action action)
    unfolding insert_outbound_action
    insert_outbound_action-Keeps action = record {
      runs = λ t p. elim (Bool-cases (is_refused action t)) [
        | inl h ↦
            rw (h, insert_outbound_action)
              (Ensures-option P
                (find_first (λ (a : OutboundAction). str_eq a.effect_key action.effect_key)
                  t.outbound)
                (err WorkError.integrity) (λ a. ok a t) (λ e. Ensures-err _ P _)
                (λ a e. Ensures-ok P a t p))
        | inr h ↦ rw (h, insert_outbound_action) (search (ensures_rules, unread))
      ];
    }

  module _
      (unread : (t : Tables) (xs : List SessionEvent) → P t → P (record t { events = xs })) where
    pub append_event-Keeps :
        (id : String) (now : ℕ) (session kind : String) (payload : Fields)
        (generation_id turn_id : Option String)
        → Keeps P (append_event id now session kind payload generation_id turn_id)
    unfolding append_event
    append_event-Keeps id now session kind payload generation_id turn_id = record {
      runs = λ t p. search (ensures_rules, unread);
    }

-- `mark_events_consumed`, for a predicate that each mark keeps.
pub mark_events_consumed-Keeps :
    (P : Tables → Type 0) (turn_id : String)
    → ((t : Tables) (event_id : String) → P t → P (mark_consumed turn_id event_id t))
    → (ids : List String) → Keeps P (mark_events_consumed ids turn_id)
unfolding mark_events_consumed
mark_events_consumed-Keeps P turn_id marks [] = record { runs = λ t p. Ensures-ok P _ t p }
mark_events_consumed-Keeps P turn_id marks (id ∷ ids) = record {
  runs = λ t p. (mark_events_consumed-Keeps P turn_id marks ids).runs _ (marks t id p);
}
