-- ===== src/Issues/Started.antt =====
-- What a start of `_start_session` leaves: a queued turn, and its job.
use generic_coding_agent.Prelude.{
  ℕ, String, Option, some, List, [], ◌∷◌, ◌++◌, ◌≡◌, refl, sym, ◌∙◌, ap, subst, In, Bool-cases, inl,
  inr, any,
}
use generic_coding_agent.Prelude.Int.{ℤ}
use generic_coding_agent.Jobs.Models.{Job, JobStatus}
use generic_coding_agent.Jobs.Store.Create.{new_job}
use generic_coding_agent.Jobs.Store.Table.{row_of}
use generic_coding_agent.Issues.Models.{
  IssueSession, IssueGeneration, Turn, TurnStatus, InboundEvent, OutboundAction,
}
use generic_coding_agent.Json.{Fields}
use generic_coding_agent.Issues.Tables.{Tables, TurnJob, Worked, Work, ok, err, ◌>>=◌, pure}
use generic_coding_agent.Issues.Work.{
  insert_turn, create_turn_job, save_session, mark_events_consumed, mark_consumed,
  insert_inbound_event, append_event, insert_outbound_action,
}
use generic_coding_agent.Issues.Work.Jobs.{turn_row, turn_key, is_taken}
use generic_coding_agent.Issues.Contracts.{Ensures, Keeps, keeps_rules}
use generic_coding_agent.Issues.Contracts.Values.{
  Gives, Gives-ok, Gives-err, ok-Gives, Gives-chain, Ensures-Gives, gives_rules, save_turn-Gives,
  IsSavedTurn,
}
use generic_coding_agent.Issues.Contracts.Statements.{
  upsert_session-Keeps, save_session-Keeps, insert_generation-Keeps, insert_turn-Keeps,
  save_turn-Keeps, insert_inbound_event-Keeps, mark_events_consumed-Keeps, append_event-Keeps,
  insert_outbound_action-Keeps,
}
use generic_coding_agent.Issues.Events.{NormalizedGitLabEvent, WebhookRegistration, ActorDecision}
use generic_coding_agent.Issues.Ingestion.Records.{Environment, Draws, IngestResult, new_turn}
use generic_coding_agent.Issues.Ingestion.Start.{retitle, start_turn}

-- A statement that keeps a predicate, and what follows it.
kept :
    {A B : Type 0} (P : Tables → Type 0) (S : B → Tables → Type 0) (m : Work A) (f : A → Work B)
    (t : Tables)
    → Keeps P m
    → P t
    → ((a : A) (u : Tables) → P u → Gives S (f a u))
    → Gives S ((m >>= f) t)
kept P S m f t k p h = Gives-chain (λ a u. P u) S m f t (Ensures-Gives P (m t) (k.runs t p)) h

both :
    {A : Type 0} (R : A → Tables → Type 0) (Q : Tables → Type 0) (w : Worked A)
    → Gives R w
    → Ensures Q w
    → Gives (λ (a : A) (t : Tables). R a t × Q t) w
unfolding Gives Ensures
both R Q (ok a t) r q = (r, q)
both R Q (err e) r q = tt

insert_turn-Gives :
    (turn : Turn) (t : Tables)
    → Gives (λ (u : Turn) (t' : Tables). u.status ≡ turn.status) (insert_turn turn t)
unfolding insert_turn
insert_turn-Gives turn t = let same : turn.status ≡ turn.status = refl in search (gives_rules, same)

-- The job that stands last.
record IsQueued (jobs : List TurnJob) (session generation turn job : String) (t : Tables)
    : Type 0 where
  queued : TurnJob
  appended : t.jobs ≡ jobs ++ queued ∷ []
  of_session : queued.issue_session_id ≡ session
  of_generation : queued.generation_id ≡ generation
  of_turn : queued.turn_id ≡ turn
  of_job : queued.row.id ≡ job
  waits : queued.row.status ≡ JobStatus.queued

IsCreated : IssueSession → IssueGeneration → Turn → Tables → Job × Turn → Tables → Type 0
IsCreated session generation turn t c t' =
    (c.1.id ≡ turn.id)
    × (c.1.status ≡ turn.status)
    × IsQueued t.jobs session.id generation.id turn.id c.0.id t'

create_turn_job-Gives :
    (number_text : ℤ → String) (ticks : ℕ) (id : String) (turn : Turn) (session : IssueSession)
    (generation : IssueGeneration) (task : String) (t : Tables)
    → Gives
        (IsCreated session generation turn t)
        (create_turn_job number_text ticks id turn session generation task t)
unfolding create_turn_job turn_row row_of new_job IsCreated
create_turn_job-Gives number_text ticks id turn session generation task t =
    elim (Bool-cases (any (λ (j : TurnJob). is_taken id (turn_key turn) j.row) t.jobs)) [
      | inl e ↦ rw (e, create_turn_job) (Gives-err (IsCreated session generation turn t) _)
      | inr e ↦
          rw (e, create_turn_job)
            (Gives-ok (IsCreated session generation turn t) _ _ (
              refl,
              refl,
              record {
                queued = record {
                  row = turn_row number_text ticks id turn session generation task;
                  issue_session_id = session.id;
                  generation_id = generation.id;
                  turn_id = turn.id;
                  lease_epoch = generation.lease_epoch;
                  cancel_requested = generation.cancel_requested;
                  project_id = session.project_id;
                };
                appended = refl;
                of_session = refl;
                of_generation = refl;
                of_turn = refl;
                of_job = refl;
                waits = refl;
              },
            ))
    ]

-- The turn that a result names is stored, queued, and its job is the one that the jobs gained.
pub record HasStarted (before : List TurnJob) (result : IngestResult) (t : Tables) : Type 0 where
  pub turn : Turn
  pub job : TurnJob
  pub turn_stored : In turn t.turns
  pub turn_waits : turn.status ≡ TurnStatus.queued
  pub job_added : t.jobs ≡ before ++ job ∷ []
  pub job_waits : job.row.status ≡ JobStatus.queued
  pub job_turn : job.turn_id ≡ turn.id
  pub names_turn : result.turn_id ≡ some turn.id
  pub names_job : result.job_id ≡ some job.row.id
  pub names_session : result.issue_session_id ≡ some job.issue_session_id
  pub names_generation : result.generation_id ≡ some job.generation_id

-- The jobs, and the turn.
abbrev HasJobs : List TurnJob → Tables → Type 0
HasJobs jobs t = t.jobs ≡ jobs

abbrev HasTurn : List TurnJob → Turn → Tables → Type 0
HasTurn jobs turn t = (t.jobs ≡ jobs) × In turn t.turns

retitle-HasJobs :
    (jobs : List TurnJob) (now : ℕ) (title : String) (session : IssueSession)
    → Keeps (HasJobs jobs) (retitle now title session)
unfolding retitle
retitle-HasJobs jobs now title session =
    let save : (n : ℕ) (s : IssueSession) → Keeps (HasJobs jobs) (save_session n s) =
      save_session-Keeps _ (λ t xs h. h) in
    search (keeps_rules, save)

consumed-HasTurn :
    (jobs : List TurnJob) (turn : Turn) (ids : List String) (turn_id : String)
    → Keeps (HasTurn jobs turn) (mark_events_consumed ids turn_id)
unfolding mark_consumed
consumed-HasTurn jobs turn ids turn_id =
    mark_events_consumed-Keeps _ turn_id (λ t event_id h. h) ids

-- What is known once the turn is saved, and of what is answered.
started :
    (before : List TurnJob) (inserted : Turn) (session : IssueSession)
    (generation : IssueGeneration) (created : Job × Turn) (turn : Turn) (t5 t6 t7 t' : Tables)
    (event : NormalizedGitLabEvent) (event_id : Option String)
    → inserted.status ≡ TurnStatus.queued
    → HasJobs before t5
    → IsCreated session generation inserted t5 created t6
    → IsSavedTurn created.1 t6 turn t7
    → HasTurn t6.jobs turn t'
    → HasStarted before
        (record {
          status = "accepted";
          delivery_id = event.delivery_id;
          issue_session_id = some session.id;
          generation_id = some generation.id;
          turn_id = some turn.id;
          job_id = some created.0.id;
          event_id = event_id;
        })
        t'
unfolding IsCreated
started before inserted session generation created turn t5 t6 t7 t' event event_id waits jobs c s
      h =
    record {
      turn = turn;
      job = c.2.queued;
      turn_stored = h.1;
      turn_waits = s.1 ∙ c.1 ∙ waits;
      job_added = h.0 ∙ c.2.appended ∙ ap (λ (js : List TurnJob). js ++ c.2.queued ∷ []) jobs;
      job_waits = c.2.waits;
      job_turn = c.2.of_turn ∙ sym (s.0 ∙ c.0);
      names_turn = refl;
      names_job = ap some (sym c.2.of_job);
      names_session = ap some (sym c.2.of_session);
      names_generation = ap some (sym c.2.of_generation);
    }

module _ (env : Environment) (draws : Draws) (event : NormalizedGitLabEvent)
    (registration : WebhookRegistration) (decision : ActorDecision) (issue_iid : ℤ) where
  -- The statements after the turn is saved leave the turns and the jobs.
  acknowledge :
      (before : List TurnJob) (inserted : Turn) (session : IssueSession)
      (generation : IssueGeneration) (created : Job × Turn) (turn : Turn) (t5 t6 t7 : Tables)
      (stored : InboundEvent) (id kind : String) (now : ℕ) (payload : Fields)
      (note : OutboundAction)
      → inserted.status ≡ TurnStatus.queued
      → HasJobs before t5
      → IsCreated session generation inserted t5 created t6
      → IsSavedTurn created.1 t6 turn t7
      → HasJobs t6.jobs t7
      → Gives (HasStarted before) (
          (insert_inbound_event stored >>= λ inbound.
          mark_events_consumed (inbound.id ∷ []) turn.id >>= λ consumed.
          append_event id now session.id kind payload (some generation.id) (some turn.id)
          >>= λ appended. insert_outbound_action note >>= λ noted. pure (record {
            status = "accepted";
            delivery_id = event.delivery_id;
            issue_session_id = some session.id;
            generation_id = some generation.id;
            turn_id = some turn.id;
            job_id = some created.0.id;
            event_id = some inbound.id;
          }))
            t7)
  unfolding pure
  acknowledge before inserted session generation created turn t5 t6 t7 stored id kind now payload
        note waits jobs c s h =
      let P = HasTurn t6.jobs turn in
      kept P _ _ _ t7 (insert_inbound_event-Keeps P (λ t xs h. h) _) (h, s.5)
        λ inbound t8 h8. kept P _ _ _ t8 (consumed-HasTurn t6.jobs turn _ _) h8 λ consumed t9 h9.
          kept P _ _ _ t9 (append_event-Keeps P (λ t xs h. h) _ _ _ _ _ _ _) h9 λ appended t10 h10.
            kept P _ _ _ t10 (insert_outbound_action-Keeps P (λ t xs h. h) _) h10 λ noted t11 h11.
              Gives-ok _ _ t11 (
                started before inserted session generation created turn t5 t6 t7 t11 event
                  (some inbound.id) waits jobs c s h11)

  start_turn-Gives :
      (t : Tables)
      → Gives (HasStarted t.jobs) (start_turn env draws event registration decision issue_iid t)
  unfolding start_turn new_turn pure
  start_turn-Gives t =
      kept (HasJobs t.jobs) _ _ _ t (upsert_session-Keeps _ (λ t xs h. h) _) refl λ upserted t1 h1.
        kept (HasJobs t.jobs) _ _ _ t1 (retitle-HasJobs t.jobs _ _ _) h1 λ titled t2 h2.
          kept (HasJobs t.jobs) _ _ _ t2 (insert_generation-Keeps _ (λ t xs h. h) _) h2
            λ generation t3 h3.
              kept (HasJobs t.jobs) _ _ _ t3 (save_session-Keeps _ (λ t xs h. h) _ _) h3
                λ session t4 h4.
                  Gives-chain _ _ _ _ t4
                    (both _ (HasJobs t.jobs) _ (insert_turn-Gives _ t4)
                      ((insert_turn-Keeps (HasJobs t.jobs) (λ t xs h. h) _).runs t4 h4))
                    λ inserted t5 p.
                      Gives-chain _ _ _ _ t5
                        (create_turn_job-Gives _ _ _ inserted session generation _ t5)
                        λ created t6 c.
                          Gives-chain _ _ _ _ t6
                            (both _ (HasJobs t6.jobs) _ (save_turn-Gives _ created.1 t6)
                              ((save_turn-Keeps (HasJobs t6.jobs) (λ t xs h. h) _ _).runs t6 refl))
                            λ turn t7 s.
                              acknowledge t.jobs inserted session generation created turn t5 t6 t7 _
                                _ _ _ _ _ p.0 p.1 c s.0 s.1

-- When a start of a session is answered, the jobs table has gained one job and no other, queued, for a turn that is
-- stored and queued; the answer names this turn and this job, with the job's session and generation.
pub start_turn-HasStarted :
    (env : Environment) (draws : Draws) (event : NormalizedGitLabEvent)
    (registration : WebhookRegistration) (decision : ActorDecision) (issue_iid : ℤ) (t t' : Tables)
    (result : IngestResult)
    → start_turn env draws event registration decision issue_iid t ≡ ok result t'
    → HasStarted t.jobs result t'
start_turn-HasStarted env draws event registration decision issue_iid t t' result h =
    ok-Gives (HasStarted t.jobs) result t' (
      subst (Gives (HasStarted t.jobs)) h
        (start_turn-Gives env draws event registration decision issue_iid t))
