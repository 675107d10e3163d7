-- ===== src/Issues/Settled/Applied.antt =====
-- What `apply` leaves in the tables, against the table of statuses.
use generic_coding_agent.Prelude.{String, ap, some, inl, inr, ◌≡◌, sym, ◌∙◌, subst, In, List}
use generic_coding_agent.Prelude.Text.{str_eq, eq_iff}
use generic_coding_agent.Agent.{AgentResult, status_failed}
use generic_coding_agent.Issues.Models.{
  IssueSession, IssueGeneration, Turn, OutboundAction, SessionEvent, TurnOutcomeKind,
}
use generic_coding_agent.Issues.Tables.{Tables, ok, pure}
use generic_coding_agent.Issues.Work.{get_session, get_generation, fetch_turn}
use generic_coding_agent.Issues.Outcomes.{
  Draws, Decision, decide, outcome_kind, with_result, with_steps, action_of, outcome_payload,
  persist_outcome, apply,
}
use generic_coding_agent.Issues.Contracts.Statements.{append_event-Keeps}
use generic_coding_agent.Issues.Contracts.Values.{
  Gives, Gives-ok, ok-Gives, read-Gives, Gives-weaken, Gives-chain, HasEffect, save_turn-Gives,
  save_generation-Gives, save_session-Gives, Ensures-Gives, insert_outbound_action-Gives,
}
use generic_coding_agent.Issues.Settled.{
  HasSettled, decide-generation_after, decide-turn_after, decide-effect_after, same_effect,
  decide-same,
}

-- What the writes of a decision leave.
record HasPersisted (draws : Draws) (decision : Decision) (session : IssueSession)
    (before t : Tables) : Type 0 where
  turn : Turn
  generation : IssueGeneration
  saved : IssueSession
  turn_id : turn.id ≡ decision.turn.id
  turn_status : turn.status ≡ decision.turn.status
  turn_outcome : turn.outcome_kind ≡ decision.turn.outcome_kind
  turn_generation : turn.generation_id ≡ decision.turn.generation_id
  turn_session : turn.issue_session_id ≡ decision.turn.issue_session_id
  turn_stored : In turn t.turns
  generation_id : generation.id ≡ decision.generation.id
  generation_status : generation.status ≡ decision.generation.status
  generation_wait : generation.wait_reason ≡ decision.generation.wait_reason
  generation_stored : In generation t.generations
  session_id : saved.id ≡ session.id
  session_status : saved.status ≡ generation.status
  session_stored : In saved t.sessions
  effect : HasEffect (action_of draws decision session) before t

after_event :
    (draws : Draws) (decision : Decision) (session : IssueSession) (before t : Tables)
    (xs : List SessionEvent)
    → HasPersisted draws decision session before t
    → HasPersisted draws decision session before (record t { events = xs })
after_event draws decision session before t xs p = record {
  turn = p.turn;
  generation = p.generation;
  saved = p.saved;
  turn_id = p.turn_id;
  turn_status = p.turn_status;
  turn_outcome = p.turn_outcome;
  turn_generation = p.turn_generation;
  turn_session = p.turn_session;
  turn_stored = p.turn_stored;
  generation_id = p.generation_id;
  generation_status = p.generation_status;
  generation_wait = p.generation_wait;
  generation_stored = p.generation_stored;
  session_id = p.session_id;
  session_status = p.session_status;
  session_stored = p.session_stored;
  effect = p.effect;
}

persist_outcome-HasPersisted :
    (first_2000 : String → String) (draws : Draws) (kind : TurnOutcomeKind) (result : AgentResult)
    (session : IssueSession) (decision : Decision) (t : Tables)
    → Gives
        (λ (u : Unit {0}) (t' : Tables). HasPersisted draws decision session t t')
        (persist_outcome first_2000 draws kind result session decision t)
unfolding persist_outcome action_of pure
persist_outcome-HasPersisted first_2000 draws kind result session decision t =
    Gives-chain _ _ _ _ t (insert_outbound_action-Gives (action_of draws decision session) t)
      λ action t1 e.
        Gives-chain _ _ _ _ t1 (save_turn-Gives draws.turn_at decision.turn t1) λ turn t2 u.
          Gives-chain _ _ _ _ t2 (save_generation-Gives draws.generation_at decision.generation t2)
            λ generation t3 g.
              Gives-chain _ _ _ _ t3
                (save_session-Gives draws.session_at (record session { status = generation.status })
                  t3)
                λ saved t4 s.
                  let persisted : HasPersisted draws decision session t t4 = record {
                    turn = turn;
                    generation = generation;
                    saved = saved;
                    turn_id = u.0;
                    turn_status = u.1;
                    turn_outcome = u.2;
                    turn_generation = u.3;
                    turn_session = u.4;
                    turn_stored = rw (s.3, g.4) u.5;
                    generation_id = g.0;
                    generation_status = g.1;
                    generation_wait = g.2;
                    generation_stored = rw s.4 g.3;
                    session_id = s.0;
                    session_status = s.1;
                    session_stored = s.2;
                    effect = (e.0, rw (s.5, g.5, u.6) e.1, e.2, e.3);
                  } in
                  Gives-chain _ _ _ _ t4
                    (Ensures-Gives (HasPersisted draws decision session t) _ (
                      (append_event-Keeps (HasPersisted draws decision session t)
                          (λ v xs p. after_event draws decision session t v xs p) draws.event_id
                          draws.event_at session.id "turn_outcome"
                          (outcome_payload first_2000 kind result) (some generation.id)
                          (some turn.id)).runs
                        t4 persisted))
                    λ event t5 p. Gives-ok _ tt t5 p

apply-Gives :
    (first_2000 : String → String) (draws : Draws) (id : String) (result : AgentResult) (t : Tables)
    → Gives
        (λ (u : Unit {0}) (t' : Tables).
          HasSettled id draws.question_id
            (outcome_kind result)
            (str_eq result.status status_failed)
            t
            t')
        (apply first_2000 draws id result t)
unfolding apply fetch_turn get_generation get_session action_of
apply-Gives first_2000 draws id result t =
    Gives-chain _ _ _ _ t (read-Gives (λ (u : Turn). str_eq u.id id) t.turns _ t) λ turn t1 a.
      Gives-chain _ _ _ _ t1
        (read-Gives (λ (g : IssueGeneration). str_eq g.id turn.generation_id) t1.generations _ t1)
        λ generation t2 b.
          Gives-chain _ _ _ _ t2
            (read-Gives (λ (s : IssueSession). str_eq s.id turn.issue_session_id) t2.sessions _ t2)
            λ session t3 c.
              let kind = outcome_kind result in
              let done = with_result kind result turn in
              let spent = with_steps result generation in
              let same = decide-same draws kind result done spent session in
              let decision = decide draws kind result done spent session in
              Gives-weaken
                (λ (u : Unit {0}) (t' : Tables). HasPersisted draws decision session t3 t')
                (λ (u : Unit {0}) (t' : Tables).
                  HasSettled id draws.question_id kind (str_eq result.status status_failed) t t')
                _
                (λ u t' p. record {
                  turn = p.turn;
                  generation = p.generation;
                  session = p.saved;
                  action = p.effect.0;
                  turn_stored = p.turn_stored;
                  turn_id = p.turn_id ∙ same.0 ∙ (eq_iff turn.id id).0 a.0;
                  turn_status =
                      p.turn_status ∙ decide-turn_after draws kind result done spent session;
                  turn_outcome = p.turn_outcome ∙ same.1;
                  generation_stored = p.generation_stored;
                  generation_id =
                      p.generation_id
                      ∙ same.3
                      ∙ (eq_iff generation.id turn.generation_id).0 b.0
                      ∙ sym (p.turn_generation ∙ same.2);
                  generation_status =
                      p.generation_status
                      ∙ decide-generation_after draws kind result done spent session;
                  prior = generation;
                  prior_stored = rw (← a.2) b.1;
                  prior_id = sym (p.generation_id ∙ same.3);
                  generation_wait = p.generation_wait ∙ same.5;
                  session_stored = p.session_stored;
                  session_id =
                      p.session_id
                      ∙ (eq_iff session.id turn.issue_session_id).0 c.0
                      ∙ sym (p.turn_session ∙ same.4);
                  session_status = p.session_status;
                  action_stored = p.effect.1;
                  action_key =
                      p.effect.2
                      ∙ decide-effect_after draws kind result done spent session
                      ∙ same_effect kind (str_eq result.status status_failed) draws.question_id
                          (sym p.session_id) (sym (p.generation_id ∙ same.3))
                          (sym (p.turn_id ∙ same.0));
                  action_new = elim p.effect.3 [
                    | inl e ↦ inl (
                      ap (λ (x : OutboundAction). x.kind) e ∙ same.6,
                      ap (λ (x : OutboundAction). x.status) e,
                      ap (λ (x : OutboundAction). x.turn_id) e ∙ ap some (sym p.turn_id),
                    )
                    | inr i ↦ inr (rw (← a.2, ← b.2, ← c.2) i)
                  ];
                })
                (persist_outcome-HasPersisted first_2000 draws kind result session decision t3)

-- When the outcome of a turn is applied, the tables hold the turn with the outcome and the status of the
-- table, its generation with the status and the wait reason of the table, the turn's session in the same
-- status as the generation, and an action of the table's key. The action is pending, of the table's kind and of
-- the turn, or one that was stored under that key before. The table is by the outcome and whether the agent's
-- result failed: only a turn out of budget stays open, and only changes that are ready, of a result that has
-- not failed, are published.
pub apply-HasSettled :
    (first_2000 : String → String) (draws : Draws) (id : String) (result : AgentResult)
    (t t' : Tables)
    → apply first_2000 draws id result t ≡ ok tt t'
    → HasSettled id draws.question_id
        (outcome_kind result)
        (str_eq result.status status_failed)
        t
        t'
apply-HasSettled first_2000 draws id result t t' h =
    let R : Unit {0} → Tables → Type 0 = λ u t''.
      HasSettled id draws.question_id (outcome_kind result) (str_eq result.status status_failed) t
        t'' in
    ok-Gives R tt t' (subst (Gives R) h (apply-Gives first_2000 draws id result t))
