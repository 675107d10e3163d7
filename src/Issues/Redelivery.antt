-- ===== src/Issues/Redelivery.antt =====
-- A delivery that GitLab repeats: the webhook of one delivery takes effect once.
pub mod Once
use generic_coding_agent.Prelude.{
  String, Bool, true, false, not, ◌&&◌, Option, none, some, List, [], ◌∷◌, ◌++◌, map, ◌≡◌, refl,
  if◌then◌else◌, any, any-In, ◌∙◌, Option-cases, inl, inr, find_first, find_first-In,
  any-find_first, subst, arith,
}
use generic_coding_agent.Prelude.Int.{ℤ}
use generic_coding_agent.Prelude.Text.{str_eq, eq_iff}
use generic_coding_agent.Issues.Models.{IssueSession, InboundEvent}
use generic_coding_agent.Issues.Tables.{Tables, committed, ok, ◌>>=◌, pure}
use generic_coding_agent.Issues.Work.{insert_inbound_event, mark_consumed, find_delivery}
use generic_coding_agent.Issues.Contracts.{
  unit_of_work-ok, Ensures, ok-Ensures, Ensures-ok, Contract, Contract-chain, Contract-if, Keeps,
  ensures_rules, keeps_rules,
}
use generic_coding_agent.Issues.Contracts.Statements.{
  upsert_session-Keeps, save_session-Keeps, insert_generation-Keeps, save_generation-Keeps,
  insert_turn-Keeps, save_turn-Keeps, create_turn_job-Keeps, insert_inbound_event-Keeps,
  mark_events_consumed-Keeps, append_event-Keeps, insert_outbound_action-Keeps,
}
use generic_coding_agent.Issues.Contracts.Chains.{
  IsKept, kept_rules, active_generation-Keeps, respond-Keeps, resolve_session-Keeps, retitle-Keeps,
}
use generic_coding_agent.Issues.Events.{
  NormalizedGitLabEvent, WebhookRegistration, ActorDecision, authorize,
}
use generic_coding_agent.Issues.Ingestion.Records.{
  Environment, Draws, IngestResult, outcome, inbound_event, store_only,
}
use generic_coding_agent.Issues.Ingestion.Start.{start_turn, start_session}
use generic_coding_agent.Issues.Ingestion.Existing.{handle_existing}
use generic_coding_agent.Issues.Ingestion.Ingest.{
  resolve_session, open_session, dispatch, ingest_unless, ingest_event, duplicate_caught, ingest,
}

abbrev pub is_delivery : String → InboundEvent → Bool
is_delivery id e = str_eq e.provider "gitlab" && str_eq e.delivery_id id

-- The delivery is stored.
abbrev pub IsDelivered : String → Tables → Type 0
IsDelivered id t = any (is_delivery id) t.inbound ≡ true

any-append_left :
    {A : Type 0} (p : A → Bool) (ys xs : List A) → any p xs ≡ true → any p (xs ++ ys) ≡ true
any-append_left p ys [] h = ground arith
any-append_left p ys (x ∷ xs) h = let rest = any-append_left p ys xs in ground arith

pub any-append_one :
    {A : Type 0} (p : A → Bool) (y : A) (xs : List A) → p y ≡ true → any p (xs ++ y ∷ []) ≡ true
any-append_one p y [] h = ground arith
any-append_one p y (x ∷ xs) h = let rest = any-append_one p y xs h in ground arith

any-map :
    {A : Type 0} (p : A → Bool) (f : A → A) (xs : List A)
    → ((x : A) → p (f x) ≡ p x)
    → any p (map f xs) ≡ any p xs
any-map p f [] h = refl
any-map p f (x ∷ xs) h = rw (h x, any-map p f xs h)

mark-is_delivery :
    (id : String) (mark : Option String) (b : Bool) (e : InboundEvent)
    → is_delivery id (if b then record e { consumed_by_turn_id = mark } else e) ≡ is_delivery id e
mark-is_delivery id mark true e = refl
mark-is_delivery id mark false e = refl

module _ (id : String) where
  stored_too :
      (event : InboundEvent) (t : Tables)
      → IsDelivered id t
      → IsDelivered id (record t { inbound = t.inbound ++ event ∷ [] })
  stored_too event t d = any-append_left (is_delivery id) (event ∷ []) t.inbound d

  marked_too :
      (turn_id event_id : String) (t : Tables)
      → IsDelivered id t
      → IsDelivered id (mark_consumed turn_id event_id t)
  unfolding mark_consumed
  marked_too turn_id event_id t d =
      any-map (is_delivery id)
        (λ (e : InboundEvent).
          if str_eq e.id event_id then record e { consumed_by_turn_id = some turn_id } else e)
        t.inbound (λ e. mark-is_delivery id (some turn_id) (str_eq e.id event_id) e)
      ∙ d

  insert_inbound_event-IsDelivered :
      (event : InboundEvent) → Keeps (IsDelivered id) (insert_inbound_event event)
  unfolding insert_inbound_event
  insert_inbound_event-IsDelivered event = record {
    runs = λ t d. search (ensures_rules, stored_too);
  }

  pub IsDelivered-IsKept : IsKept (IsDelivered id)
  IsDelivered-IsKept = record {
    by_upsert_session = upsert_session-Keeps _ (λ t xs d. d);
    by_save_session = save_session-Keeps _ (λ t xs d. d);
    by_insert_generation = insert_generation-Keeps _ (λ t xs d. d);
    by_save_generation = save_generation-Keeps _ (λ t xs d. d);
    by_insert_turn = insert_turn-Keeps _ (λ t xs d. d);
    by_save_turn = save_turn-Keeps _ (λ t xs d. d);
    by_create_turn_job = create_turn_job-Keeps _ (λ t xs d. d);
    by_insert_inbound_event = insert_inbound_event-IsDelivered;
    by_mark_events_consumed = λ ids turn_id.
        mark_events_consumed-Keeps _ turn_id (λ t event_id d. marked_too turn_id event_id t d) ids;
    by_append_event = append_event-Keeps _ (λ t xs d. d);
    by_insert_outbound_action = insert_outbound_action-Keeps _ (λ t xs d. d);
  }

-- Nothing is asked of the tables.
abbrev pub Always : Tables → Type 0
Always t = Unit {0}

pub Always-IsKept : IsKept Always
Always-IsKept = record {
  by_upsert_session = upsert_session-Keeps _ (λ t xs d. d);
  by_save_session = save_session-Keeps _ (λ t xs d. d);
  by_insert_generation = insert_generation-Keeps _ (λ t xs d. d);
  by_save_generation = save_generation-Keeps _ (λ t xs d. d);
  by_insert_turn = insert_turn-Keeps _ (λ t xs d. d);
  by_save_turn = save_turn-Keeps _ (λ t xs d. d);
  by_create_turn_job = create_turn_job-Keeps _ (λ t xs d. d);
  by_insert_inbound_event = insert_inbound_event-Keeps _ (λ t xs d. d);
  by_mark_events_consumed =
      λ ids turn_id. mark_events_consumed-Keeps _ turn_id (λ t event_id d. d) ids;
  by_append_event = append_event-Keeps _ (λ t xs d. d);
  by_insert_outbound_action = insert_outbound_action-Keeps _ (λ t xs d. d);
}
