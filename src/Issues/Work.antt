-- ===== src/Issues/Work.antt =====
-- gca/issue_sessions/store.py, `IssueSessionUnitOfWork`: the statements of one transaction. The
-- identifiers are `uuid4().hex` and the stamps `utc_now()`, each passed in by the caller.
pub mod Selects
pub mod Jobs
unfoldable pub use Selects.*
unfoldable pub use Jobs.*
use generic_coding_agent.Prelude.{
  ℕ, suc, ◌+◌, max, ◌==◌, String, Bool, true, false, not, ◌&&◌, ◌||◌, Option, none, some, List, [],
  ◌∷◌, ◌++◌, map, any, length, keep_if, find_first, if◌then◌else◌,
}
use generic_coding_agent.Prelude.Int.{ℤ, eq_ℤ}
use generic_coding_agent.Prelude.Text.{str_eq, opt_eq}
use generic_coding_agent.Json.{Fields}
use generic_coding_agent.Issues.Models.{
  IssueSession, IssueGeneration, Turn, InboundEvent, ScmLink, OutboundAction, SessionEvent, is_open,
}
use generic_coding_agent.Issues.Tables.{Tables, WorkError, Work, Worked, ok, err}

-- `UPDATE ... WHERE test`, with every column from the new object.
abbrev pub replace {ℓ} : {A : Type ℓ} → (A → Bool) → A → List A → List A
replace test new = map (λ x. if test x then new else x)

abbrev pub has_session : Tables → String → Bool
has_session t id = any (λ (s : IssueSession). str_eq s.id id) t.sessions

abbrev pub has_generation : Tables → String → Bool
has_generation t id = any (λ (g : IssueGeneration). str_eq g.id id) t.generations

-- The primary key and the two UNIQUE constraints of `inbound_events`.
unfoldable pub clashes : InboundEvent → InboundEvent → Bool
clashes event e =
    str_eq e.id event.id
    || str_eq e.provider event.provider && str_eq e.delivery_id event.delivery_id
    || str_eq e.provider event.provider
      && eq_ℤ e.project_id event.project_id
      && str_eq e.object_key event.object_key
      && str_eq e.action event.action

unfoldable pub insert_inbound_event : InboundEvent → Work InboundEvent
insert_inbound_event event t =
    if any (clashes event) t.inbound
    then err WorkError.duplicate_delivery
    else ok event (record t { inbound = t.inbound ++ event ∷ [] })

-- UNIQUE(gitlab_instance, project_id, issue_iid)
unfoldable pub is_issue : String → ℤ → ℤ → IssueSession → Bool
is_issue instance project_id issue_iid s =
    str_eq s.gitlab_instance instance && eq_ℤ s.project_id project_id && eq_ℤ s.issue_iid issue_iid

unfoldable pub upsert_session : IssueSession → Work IssueSession
upsert_session session t =
    elim (find_first (is_issue session.gitlab_instance session.project_id session.issue_iid)
      t.sessions) [
        | some existing ↦ ok existing t
        | none ↦
            if has_session t session.id
            then err WorkError.integrity
            else ok session (record t { sessions = t.sessions ++ session ∷ [] })
      ]

-- `WHERE id = ? AND version = ?` and the test of `rowcount`.
unfoldable pub save_session : ℕ → IssueSession → Work IssueSession
save_session now session t =
    let saved = record session { version = suc session.version; updated_at = now } in
    let at_version : IssueSession → Bool =
      λ s. str_eq s.id session.id && s.version == session.version in
    if length (keep_if at_version t.sessions) == 1
    then ok saved (record t { sessions = replace at_version saved t.sessions })
    else err WorkError.concurrency

unfoldable pub insert_generation : IssueGeneration → Work IssueGeneration
insert_generation generation t =
    if has_generation t generation.id || not (has_session t generation.issue_session_id)
    then err WorkError.integrity
    else ok generation (record t { generations = t.generations ++ generation ∷ [] })

unfoldable pub save_generation : ℕ → IssueGeneration → Work IssueGeneration
save_generation now generation t =
    let saved = record generation { version = suc generation.version; updated_at = now } in
    let at_version : IssueGeneration → Bool =
      λ g. str_eq g.id generation.id && g.version == generation.version in
    if length (keep_if at_version t.generations) == 1
    then ok saved (record t { generations = replace at_version saved t.generations })
    else err WorkError.concurrency

unfoldable pub bump_lease_epoch : ℕ → IssueGeneration → Work IssueGeneration
bump_lease_epoch now generation =
    save_generation now (record generation { lease_epoch = suc generation.lease_epoch })

-- Another row of the partial index `issue_turns_one_active`.
unfoldable pub is_rival : Turn → Turn → Bool
is_rival turn u =
    str_eq u.generation_id turn.generation_id && is_open u.status && not (str_eq u.id turn.id)

unfoldable pub insert_turn : Turn → Work Turn
insert_turn turn t =
    if any (λ (u : Turn). str_eq u.id turn.id) t.turns
      || is_open turn.status && any (is_rival turn) t.turns
      || not (has_session t turn.issue_session_id)
      || not (has_generation t turn.generation_id)
    then err WorkError.concurrency
    else ok turn (record t { turns = t.turns ++ turn ∷ [] })

abbrev pub turn_at_version : Turn → Turn → Bool
turn_at_version turn u = str_eq u.id turn.id && u.version == turn.version

-- The statement itself fails when it would break the partial index.
unfoldable pub save_turn : ℕ → Turn → Work Turn
save_turn now turn t =
    let saved = record turn { version = suc turn.version; updated_at = now } in
    if is_open turn.status && any (is_rival turn) t.turns && any (turn_at_version turn) t.turns
    then err WorkError.integrity
    else if length (keep_if (turn_at_version turn) t.turns) == 1
    then ok saved (record t { turns = replace (turn_at_version turn) saved t.turns })
    else err WorkError.concurrency

-- The UPDATE leaves the columns `id` and `created_at`, which no query reads.
unfoldable pub upsert_scm_link : ℕ → ScmLink → Work ScmLink
upsert_scm_link now link t =
    let stamped = record link { updated_at = now } in
    elim (find_first (λ (l : ScmLink). str_eq l.generation_id link.generation_id) t.links) [
      | some existing ↦ ok stamped (record t {
        links =
            replace (λ (l : ScmLink). str_eq l.generation_id link.generation_id) stamped t.links;
      })
      | none ↦
          if any (λ (l : ScmLink). str_eq l.id link.id) t.links
            || not (has_session t link.issue_session_id)
            || not (has_generation t link.generation_id)
          then err WorkError.integrity
          else ok stamped (record t { links = t.links ++ stamped ∷ [] })
    ]

-- The constraints of `outbound_actions`.
unfoldable pub is_refused : OutboundAction → Tables → Bool
is_refused action t =
    any (λ (a : OutboundAction). str_eq a.id action.id || str_eq a.effect_key action.effect_key)
      t.outbound
    || not (has_session t action.issue_session_id)
    || not (has_generation t action.generation_id)

unfoldable pub insert_outbound_action : OutboundAction → Work OutboundAction
insert_outbound_action action t =
    if is_refused action t
    then elim (find_first (λ (a : OutboundAction). str_eq a.effect_key action.effect_key)
        t.outbound) [ none ↦ err WorkError.integrity | some existing ↦ ok existing t ]
    else ok action (record t { outbound = t.outbound ++ action ∷ [] })

unfoldable pub save_outbound_action : ℕ → OutboundAction → Work OutboundAction
save_outbound_action now action t =
    let stamped = record action { updated_at = now } in
    ok stamped (record t {
      outbound = replace (λ (a : OutboundAction). str_eq a.id action.id) stamped t.outbound;
    })

-- `COALESCE(MAX(seq), 0)` of the session's events.
unfoldable pub max_seq : String → List SessionEvent → ℕ
max_seq session [] = 0
max_seq session (e ∷ events) =
    let rest = max_seq session events in
    if str_eq e.issue_session_id session then max e.seq rest else rest

unfoldable pub append_event :
    String → ℕ → String → String → Fields → Option String → Option String → Work SessionEvent
append_event id now session kind payload generation_id turn_id t =
    let event : SessionEvent = record {
      issue_session_id = session;
      seq = suc (max_seq session t.events);
      kind = kind;
      id = id;
      generation_id = generation_id;
      turn_id = turn_id;
      payload = payload;
      created_at = now;
    } in
    if any
        (λ (e : SessionEvent).
          str_eq e.id id || str_eq e.issue_session_id session && e.seq == event.seq)
        t.events
      || not (has_session t session)
    then err WorkError.integrity
    else ok event (record t { events = t.events ++ event ∷ [] })

-- One id of the loop of `mark_events_consumed`; an id without a row is passed over.
unfoldable pub mark_consumed : String → String → Tables → Tables
mark_consumed turn_id event_id t = record t {
  inbound =
      map
        (λ (e : InboundEvent).
          if str_eq e.id event_id then record e { consumed_by_turn_id = some turn_id } else e)
        t.inbound;
}

unfoldable pub mark_events_consumed : List String → String → Work (Unit {0})
mark_events_consumed [] turn_id t = ok tt t
mark_events_consumed (event_id ∷ ids) turn_id t =
    mark_events_consumed ids turn_id (mark_consumed turn_id event_id t)
