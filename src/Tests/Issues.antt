-- ===== src/Tests/Issues.antt =====
-- An issue from its label to an answered turn, in empty tables.
use generic_coding_agent.Prelude.{
  ◌≡◌, refl, ℕ, String, true, false, ◌&&◌, none, some, [], ◌∷◌, ◌++◌, In, any, ◌≤◌, suc, find_first,
  get_or,
}
use generic_coding_agent.Prelude.Int.{pos}
use generic_coding_agent.Prelude.Text.{◌<>◌, str_eq}
use generic_coding_agent.Json.{Fields}
use generic_coding_agent.Agent.{AgentResult, status_failed}
use generic_coding_agent.Issues.Models.{
  InboundEvent, SessionEvent, IssueSession, IssueGeneration, WaitReason, GenerationStatus,
}
use generic_coding_agent.Issues.Tables.{
  Tables, Worked, ok, err, committed, empty_tables, ◌>>=◌, pure,
}
use generic_coding_agent.Issues.Work.{
  append_event, has_session, get_session, get_generation, fetch_turn, find_session, find_delivery,
  upsert_session, save_session, insert_generation, save_generation, insert_turn, save_turn,
  create_turn_job, insert_inbound_event, mark_events_consumed, insert_outbound_action, clashes,
  is_issue, is_refused, is_rival, turn_spec, mark_consumed, max_seq,
}
use generic_coding_agent.Issues.Outcomes
use generic_coding_agent.Issues.Outcomes.{
  apply, outcome_kind, parse_outcome, decide, persist_outcome, action_of, outcome_payload,
  failed_turn, outcome_of_status,
}
use generic_coding_agent.Issues.Events.{
  NormalizedGitLabEvent, WebhookRegistration, ActorDecision, authorize, should_queue_turn,
  is_start_event,
}
use generic_coding_agent.Issues.Events.Queueing.{queues, should_queue_turn-eq}
use generic_coding_agent.Issues.Ingestion.Records.{
  Environment, Draws, IngestResult, outcome, inbound_event, new_generation, new_turn, new_note,
  issue_task,
}
use generic_coding_agent.Issues.Ingestion.Start.{new_session, retitle, start_turn, start_session}
use generic_coding_agent.Issues.Ingestion.Ingest.{
  resolve_session, open_session, dispatch, ingest_unless, ingest_event, ingest,
}
use generic_coding_agent.Issues.Started.{HasStarted, start_turn-HasStarted}
use generic_coding_agent.Issues.Consistency.Sequence.{append_event-succeeds}
use generic_coding_agent.Issues.Redelivery.Once.{ingest-once}
use generic_coding_agent.Issues.Serial.{has_open_turn, ingest-HasTurns}
use generic_coding_agent.Issues.Settled.{HasSettled}
use generic_coding_agent.Issues.Settled.Applied.{apply-HasSettled}

abbrev environment : Environment
environment = record {
  access_level = λ project user. some (pos 30);
  turn_max_steps = pos 25;
  generation_max_steps = pos 100;
  first_4000 = λ s. s;
  first_12 = λ s. s;
  number_text = λ i. "7";
  time_text = λ n. "now";
}

-- The identifiers by their numbers.
abbrev names : String → ℕ → String
names prefix n =
    prefix
    <> get_or ("event" ∷ "session" ∷ "generation" ∷ "branch" ∷ "turn" ∷ "job" ∷ "entry" ∷ []) n
        "note"

abbrev draws : String → ℕ → Draws
draws prefix now = record { uuid = names prefix; clock = λ n. now }

abbrev registration : WebhookRegistration
registration = record {
  id = "r1";
  gitlab_instance = "https://gitlab.example";
  project_path = "group/project";
  trigger_label = "gca-run";
  minimum_actor_access_level = pos 30;
  actor_allowlist = [];
  bot_user_id = none;
  repository_url = "";
}

-- The label on issue 5.
abbrev labelled : NormalizedGitLabEvent
labelled = record {
  delivery_id = "d1";
  event_uuid = "u1";
  event_type = "Issue Hook";
  action = "update";
  object_key = "issue:5";
  gitlab_instance = "https://gitlab.example";
  project_id = pos 9;
  project_path = "group/project";
  repository_url = "";
  issue_iid = some (pos 5);
  issue_title = "Fix it";
  issue_description = "Please";
  mr_iid = none;
  note_id = none;
  note_body = "";
  actor_id = some (pos 3);
  actor_username = "dev";
  command = none;
  label_added = true;
  pipeline_id = none;
  pipeline_status = "";
  pipeline_sha = "";
  target_branch = "";
  relevant = true;
  ignore_reason = "";
}

-- A comment on it.
abbrev commented : NormalizedGitLabEvent
commented = record labelled {
  delivery_id = "d2";
  event_type = "Note Hook";
  action = "create";
  object_key = "note:1";
  note_body = "/agent fix";
  command = some "/agent fix";
  label_added = false;
}

abbrev started : Worked IngestResult
started = ingest_event environment (draws "a-" 1) labelled registration empty_tables

abbrev tables_of : Worked IngestResult → Tables
tables_of (ok r t) = t
tables_of (err e) = empty_tables

abbrev result_of : Worked IngestResult → IngestResult
result_of (ok r t) = r
result_of (err e) = outcome "" labelled none none none

-- The label starts a session with a turn.
started_ok : started ≡ ok (result_of started) (tables_of started)
unfolding ingest_event find_delivery find_first ingest_unless authorize resolve_session find_session
    dispatch open_session is_start_event start_session start_turn new_session upsert_session
    is_issue retitle insert_generation new_generation save_session insert_turn new_turn is_rival
    create_turn_job turn_spec save_turn insert_inbound_event inbound_event clashes
    mark_events_consumed mark_consumed append_event max_seq insert_outbound_action new_note
    is_refused issue_task ◌>>=◌ pure
started_ok = refl

started_accepted : (result_of started).status ≡ "accepted"
unfolding ingest_event find_delivery find_first ingest_unless authorize resolve_session find_session
    dispatch open_session is_start_event start_session start_turn new_session upsert_session
    is_issue retitle insert_generation new_generation save_session insert_turn new_turn is_rival
    create_turn_job turn_spec save_turn insert_inbound_event inbound_event clashes
    mark_events_consumed mark_consumed append_event max_seq insert_outbound_action new_note
    is_refused issue_task ◌>>=◌ pure
started_accepted = refl

ingest-once_example :
    (stored : InboundEvent) × In stored (tables_of started).inbound
    × (stored.delivery_id ≡ "d1")
    × (ingest environment (draws "b-" 2) labelled registration (tables_of started) ≡ (
      committed (outcome "duplicate" labelled stored.issue_session_id none (some stored.id)),
      tables_of started,
    ))
ingest-once_example =
    ingest-once environment (draws "a-" 1) (draws "b-" 2) labelled labelled registration
      registration empty_tables (tables_of started) (result_of started) started_ok refl

abbrev begun : Worked IngestResult
begun =
    start_turn environment (draws "a-" 1) labelled registration
      (authorize environment.access_level labelled registration) (pos 5) empty_tables

begun_ok : begun ≡ ok (result_of begun) (tables_of begun)
unfolding authorize start_turn new_session upsert_session is_issue retitle insert_generation
    new_generation save_session insert_turn new_turn is_rival create_turn_job turn_spec save_turn
    insert_inbound_event inbound_event clashes mark_events_consumed mark_consumed append_event
    max_seq insert_outbound_action new_note is_refused issue_task ◌>>=◌ pure find_first
begun_ok = refl

start_turn-HasStarted_example : HasStarted empty_tables.jobs (result_of begun) (tables_of begun)
start_turn-HasStarted_example =
    start_turn-HasStarted environment (draws "a-" 1) labelled registration
      (authorize environment.access_level labelled registration) (pos 5) empty_tables
      (tables_of begun) (result_of begun) begun_ok

abbrev stored_session : IssueSession
stored_session = record (new_session (draws "a-" 1) labelled registration (pos 5)) {
  active_generation_id = some "a-generation";
  version = 1;
  updated_at = 1;
}

resolved_ok :
    resolve_session commented (tables_of started) ≡ ok (some stored_session) (tables_of started)
unfolding ingest_event find_delivery find_first ingest_unless authorize resolve_session find_session
    dispatch open_session is_start_event start_session start_turn new_session upsert_session
    is_issue retitle insert_generation new_generation save_session insert_turn new_turn is_rival
    create_turn_job turn_spec save_turn insert_inbound_event inbound_event clashes
    mark_events_consumed mark_consumed append_event max_seq insert_outbound_action new_note
    is_refused issue_task ◌>>=◌ pure
resolved_ok = refl

session_active : stored_session.active_generation_id ≡ some "a-generation"
session_active = refl

turn_open : has_open_turn "a-generation" (tables_of started).turns ≡ true
unfolding ingest_event find_delivery find_first ingest_unless authorize resolve_session find_session
    dispatch open_session is_start_event start_session start_turn new_session upsert_session
    is_issue retitle insert_generation new_generation save_session insert_turn new_turn is_rival
    create_turn_job turn_spec save_turn insert_inbound_event inbound_event clashes
    mark_events_consumed mark_consumed append_event max_seq insert_outbound_action new_note
    is_refused issue_task ◌>>=◌ pure
turn_open = refl

ingest-HasTurns_example :
    ((ingest environment (draws "b-" 2) commented registration (tables_of started)).1.turns
      ≡ (tables_of started).turns)
    × ((ingest environment (draws "b-" 2) commented registration (tables_of started)).1.jobs
        ≡ (tables_of started).jobs)
ingest-HasTurns_example =
    ingest-HasTurns environment (draws "b-" 2) commented registration stored_session "a-generation"
      (tables_of started) resolved_ok session_active refl turn_open

-- A turn that used up its budget.
abbrev spent : AgentResult
spent = record { status = "paused"; steps = 25; final_message = "more to do"; outcome_kind = none }

abbrev outcome_draws : Outcomes.Draws
outcome_draws = record {
  question_id = "q1";
  action_id = "action1";
  action_at = 3;
  turn_at = 4;
  generation_at = 5;
  session_at = 6;
  event_id = "entry1";
  event_at = 7;
}

abbrev applied : Worked (Unit {0})
applied = apply (λ s. s) outcome_draws "a-turn" spent (tables_of started)

abbrev tables_after : Worked (Unit {0}) → Tables
tables_after (ok r t) = t
tables_after (err e) = empty_tables

applied_ok : applied ≡ ok tt (tables_after applied)
unfolding ingest_event find_delivery find_first ingest_unless authorize resolve_session find_session
    dispatch open_session is_start_event start_session start_turn new_session upsert_session
    is_issue retitle insert_generation new_generation save_session insert_turn new_turn is_rival
    create_turn_job turn_spec save_turn insert_inbound_event inbound_event clashes
    mark_events_consumed mark_consumed append_event max_seq insert_outbound_action new_note
    is_refused issue_task ◌>>=◌ pure apply fetch_turn get_generation get_session outcome_kind
    parse_outcome outcome_of_status decide failed_turn persist_outcome action_of outcome_payload
    save_generation
applied_ok = refl

apply-HasSettled_example :
    HasSettled "a-turn" "q1"
      (outcome_kind spent)
      (str_eq spent.status status_failed)
      (tables_of started)
      (tables_after applied)
apply-HasSettled_example =
    apply-HasSettled (λ s. s) outcome_draws "a-turn" spent (tables_of started)
      (tables_after applied) applied_ok

-- A generation that waits for an answer, and the answer.
abbrev waiting : IssueGeneration
waiting = record (new_generation environment "g1" 1 "s1" "main" "branch" "" Fields.end) {
  status = GenerationStatus.waiting_human;
  wait_reason = some WaitReason.clarification;
}

abbrev answer : NormalizedGitLabEvent
answer = record commented { command = none; note_body = "Yes." }

abbrev allowed : ActorDecision
allowed = record { authorized = true; reason = "membership role"; access_level = some (pos 30) }

should_queue_turn-eq_example :
    should_queue_turn waiting answer allowed ≡ (allowed.authorized && queues waiting answer)
should_queue_turn-eq_example = should_queue_turn-eq waiting answer allowed

answer_queues : should_queue_turn waiting answer allowed ≡ true
unfolding should_queue_turn new_generation
answer_queues = refl

fresh : any (λ (e : SessionEvent). str_eq e.id "entry2") (tables_of started).events ≡ false
unfolding ingest_event find_delivery find_first ingest_unless authorize resolve_session find_session
    dispatch open_session is_start_event start_session start_turn new_session upsert_session
    is_issue retitle insert_generation new_generation save_session insert_turn new_turn is_rival
    create_turn_job turn_spec save_turn insert_inbound_event inbound_event clashes
    mark_events_consumed mark_consumed append_event max_seq insert_outbound_action new_note
    is_refused issue_task ◌>>=◌ pure
fresh = refl

there : has_session (tables_of started) "a-session" ≡ true
unfolding ingest_event find_delivery find_first ingest_unless authorize resolve_session find_session
    dispatch open_session is_start_event start_session start_turn new_session upsert_session
    is_issue retitle insert_generation new_generation save_session insert_turn new_turn is_rival
    create_turn_job turn_spec save_turn insert_inbound_event inbound_event clashes
    mark_events_consumed mark_consumed append_event max_seq insert_outbound_action new_note
    is_refused issue_task ◌>>=◌ pure
there = refl

append_event-succeeds_example :
    (e : SessionEvent) × (append_event "entry2" 2 "a-session" "webhook" Fields.end none none
        (tables_of started)
      ≡ ok e (record (tables_of started) { events = (tables_of started).events ++ e ∷ [] }))
    × (e.issue_session_id ≡ "a-session")
    × ((f : SessionEvent)
        → In f (tables_of started).events
        → f.issue_session_id ≡ "a-session"
        → suc f.seq ≤ e.seq)
append_event-succeeds_example =
    append_event-succeeds "entry2" 2 "a-session" "webhook" Fields.end none none (tables_of started)
      fresh there
