-- ===== src/Issues/Serial.antt =====
-- While a generation's turn is open, no event queues another turn or job for its issue.
use generic_coding_agent.Prelude.{
  ℕ, String, Bool, true, false, not, ◌&&◌, Option, none, some, List, ◌≡◌, refl, Option-cases, inl,
  inr, find_first, any-find_first, find_first-In, any,
}
use generic_coding_agent.Prelude.Text.{str_eq, eq_iff}
use generic_coding_agent.Json.{Fields}
use generic_coding_agent.Issues.Models.{
  IssueSession, IssueGeneration, Turn, InboundEvent, OutboundAction, is_open,
}
use generic_coding_agent.Issues.Tables.{Tables, TurnJob, WorkError, ok, err, ◌>>=◌, pure}
use generic_coding_agent.Issues.Work.{
  get_generation, active_turn, find_delivery, save_session, save_generation, insert_inbound_event,
  append_event, insert_outbound_action,
}
use generic_coding_agent.Issues.Contracts.{
  chain_at, if_at, chain_ok, chain_err, Ensures, Ensures-ok, Ensures-result, Keeps, keeps_rules,
}
use generic_coding_agent.Issues.Contracts.Statements.{
  save_session-Keeps, save_generation-Keeps, insert_inbound_event-Keeps, append_event-Keeps,
  insert_outbound_action-Keeps, query_rules,
}
use generic_coding_agent.Issues.Events.{
  NormalizedGitLabEvent, WebhookRegistration, ActorDecision, authorize,
}
use generic_coding_agent.Issues.Ingestion.Records.{Environment, Draws, store_only}
use generic_coding_agent.Issues.Ingestion.Branches.{
  active_generation, report_status, save_both, cancel, complete_merge, close_request,
}
use generic_coding_agent.Issues.Ingestion.Queue.{queue_unless, maybe_queue}
use generic_coding_agent.Issues.Ingestion.Existing.{close_or_queue, respond, handle_existing}
use generic_coding_agent.Issues.Ingestion.Ingest.{
  resolve_session, dispatch, ingest_unless, ingest_event, ingest,
}

-- The turns and jobs are the given ones.
abbrev pub HasTurns : List Turn → List TurnJob → Tables → Type 0
HasTurns turns jobs t = (t.turns ≡ turns) × (t.jobs ≡ jobs)

-- A turn of the generation is open.
abbrev pub has_open_turn : String → List Turn → Bool
has_open_turn id turns = any (λ (u : Turn). str_eq u.generation_id id && is_open u.status) turns

module _ {turns : List Turn} {jobs : List TurnJob} where
  pub save_session-HasTurns :
      (now : ℕ) (session : IssueSession) → Keeps (HasTurns turns jobs) (save_session now session)
  save_session-HasTurns = save_session-Keeps _ (λ t xs h. h)

  pub save_generation-HasTurns :
      (now : ℕ) (generation : IssueGeneration)
      → Keeps (HasTurns turns jobs) (save_generation now generation)
  save_generation-HasTurns = save_generation-Keeps _ (λ t xs h. h)

  pub insert_inbound_event-HasTurns :
      (event : InboundEvent) → Keeps (HasTurns turns jobs) (insert_inbound_event event)
  insert_inbound_event-HasTurns = insert_inbound_event-Keeps _ (λ t xs h. h)

  pub append_event-HasTurns :
      (id : String) (now : ℕ) (session kind : String) (payload : Fields)
      (generation_id turn_id : Option String)
      → Keeps (HasTurns turns jobs) (append_event id now session kind payload generation_id turn_id)
  append_event-HasTurns = append_event-Keeps _ (λ t xs h. h)

  pub insert_outbound_action-HasTurns :
      (action : OutboundAction) → Keeps (HasTurns turns jobs) (insert_outbound_action action)
  insert_outbound_action-HasTurns = insert_outbound_action-Keeps _ (λ t xs h. h)

pub ruleset serial_rules = (
  keeps_rules, query_rules, save_session-HasTurns, save_generation-HasTurns,
  insert_inbound_event-HasTurns, append_event-HasTurns, insert_outbound_action-HasTurns,
)

module _ {turns : List Turn} {jobs : List TurnJob} where
  save_both-HasTurns :
      (draws : Draws) (generation : IssueGeneration) (session : IssueSession)
      (event : NormalizedGitLabEvent) (inbound : InboundEvent)
      → Keeps (HasTurns turns jobs) (save_both draws generation session event inbound)
  unfolding save_both
  save_both-HasTurns draws generation session event inbound = search serial_rules

module _ {turns : List Turn} {jobs : List TurnJob} (env : Environment) (draws : Draws)
    (session : IssueSession) (g : IssueGeneration) (event : NormalizedGitLabEvent)
    (decision : ActorDecision) (busy : has_open_turn g.id turns ≡ true) where
  -- The turn that is open is found.
  maybe_queue-HasTurns :
      (inbound : InboundEvent)
      → Keeps (HasTurns turns jobs) (maybe_queue env draws session g event decision inbound)
  unfolding maybe_queue active_turn ◌>>=◌ queue_unless pure
  maybe_queue-HasTurns inbound = record {
    runs = λ t h.
        let (u, found) =
          any-find_first (λ (u : Turn). str_eq u.generation_id g.id && is_open u.status) t.turns
            (rw (h.0) busy) in
        rw found (Ensures-ok (HasTurns turns jobs) _ t h);
  }

  respond-HasTurns :
      (inbound : InboundEvent)
      → Keeps (HasTurns turns jobs) (respond env draws session (some g) event decision inbound)
  unfolding respond report_status cancel complete_merge close_or_queue close_request
  respond-HasTurns inbound = search (serial_rules, save_both-HasTurns, maybe_queue-HasTurns) depth 8

module _ {turns : List Turn} {jobs : List TurnJob} where
  store_only-HasTurns :
      (env : Environment) (draws : Draws) (event : NormalizedGitLabEvent) (authorized : Bool)
      (reason : String)
      → Keeps (HasTurns turns jobs) (store_only env draws event authorized reason)
  unfolding store_only
  store_only-HasTurns env draws event authorized reason = search serial_rules

get_generation-found :
    (id : String) (t : Tables) (o : Option IssueGeneration)
    → find_first (λ (g : IssueGeneration). str_eq g.id id) t.generations ≡ o
    → (get_generation id >>= λ generation. pure (some generation)) t
      ≡ elim o [ none ↦ err WorkError.not_found | some g ↦ ok (some g) t ]
unfolding get_generation ◌>>=◌ pure
get_generation-found id t none f = rw (f, get_generation, ◌>>=◌) refl
get_generation-found id t (some g) f = rw (f, get_generation, ◌>>=◌) refl

-- The session's generation, read from the tables.
active_generation-found :
    (session : IssueSession) (id : String) (t : Tables) (o : Option IssueGeneration)
    → session.active_generation_id ≡ some id
    → str_eq id "" ≡ false
    → find_first (λ (g : IssueGeneration). str_eq g.id id) t.generations ≡ o
    → active_generation session t
      ≡ elim o [ none ↦ err WorkError.not_found | some g ↦ ok (some g) t ]
unfolding active_generation
active_generation-found session id t o e n f = rw (e, n) (get_generation-found id t o f)

module _ (env : Environment) (draws : Draws) (session : IssueSession) (id : String) (t : Tables)
    (active : session.active_generation_id ≡ some id) (named : str_eq id "" ≡ false)
    (busy : has_open_turn id t.turns ≡ true) where
  handle_existing-HasTurns :
      (event : NormalizedGitLabEvent) (decision : ActorDecision)
      → Ensures (HasTurns t.turns t.jobs) (handle_existing env draws session event decision t)
  unfolding handle_existing
  handle_existing-HasTurns event decision =
      elim (Option-cases (find_first (λ (g : IssueGeneration). str_eq g.id id) t.generations)) [
        | inl e ↦
            chain_err _ _ _ t WorkError.not_found
              (active_generation-found session id t none active named e)
        | inr (g, e) ↦
            let (i, same) =
              find_first-In (λ (g : IssueGeneration). str_eq g.id id) t.generations g e in
            let busy' : has_open_turn g.id t.turns ≡ true = rw ((eq_iff g.id id).0 same) busy in
            let here : HasTurns t.turns t.jobs t = (refl, refl) in
            chain_ok {P = HasTurns t.turns t.jobs} _ _ t t (some g)
              (active_generation-found session id t (some g) active named e)
              (search (serial_rules, respond-HasTurns)) here
      ]

  ingest_unless-HasTurns :
      (event : NormalizedGitLabEvent) (registration : WebhookRegistration)
      → resolve_session event t ≡ ok (some session) t
      → (existing : Option InboundEvent)
      → Ensures (HasTurns t.turns t.jobs) (ingest_unless env draws event registration existing t)
  unfolding ingest_unless pure dispatch
  ingest_unless-HasTurns event registration resolved (some stored) =
      Ensures-ok (HasTurns t.turns t.jobs) _ t (refl, refl)
  ingest_unless-HasTurns event registration resolved none =
      if_at (HasTurns t.turns t.jobs) (not event.relevant)
        (store_only env draws event false event.ignore_reason)
        (resolve_session event
          >>= dispatch env draws event registration (authorize env.access_level event registration))
        t ((store_only-HasTurns env draws event false event.ignore_reason).runs t (refl, refl))
        (chain_at (HasTurns t.turns t.jobs) (resolve_session event)
          (dispatch env draws event registration (authorize env.access_level event registration)) t
          t (some session) resolved
          (handle_existing-HasTurns event (authorize env.access_level event registration)))

  ingest_event-HasTurns :
      (event : NormalizedGitLabEvent) (registration : WebhookRegistration)
      → resolve_session event t ≡ ok (some session) t
      → Ensures (HasTurns t.turns t.jobs) (ingest_event env draws event registration t)
  unfolding ingest_event find_delivery ◌>>=◌
  ingest_event-HasTurns event registration resolved =
      ingest_unless-HasTurns event registration resolved _

-- While a turn of the session's generation is queued, running or paused for its budget, an event of
-- the issue leaves the turns and the jobs as they are, whatever it says and whoever sends it.
pub ingest-HasTurns :
    (env : Environment) (draws : Draws) (event : NormalizedGitLabEvent)
    (registration : WebhookRegistration) (session : IssueSession) (id : String) (t : Tables)
    → resolve_session event t ≡ ok (some session) t
    → session.active_generation_id ≡ some id
    → str_eq id "" ≡ false
    → has_open_turn id t.turns ≡ true
    → ((ingest env draws event registration t).1.turns ≡ t.turns)
      × ((ingest env draws event registration t).1.jobs ≡ t.jobs)
unfolding ingest
ingest-HasTurns env draws event registration session id t resolved active named busy =
    Ensures-result (HasTurns t.turns t.jobs) (ingest_event env draws event registration) t
      (refl, refl)
      (ingest_event-HasTurns env draws session id t active named busy event registration resolved)
