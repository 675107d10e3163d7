-- ===== src/Issues/Work/Jobs.antt =====
-- `create_turn_job`: the queued job of a turn. `number_text` is `str` of an integer, `ticks` the time
-- of both of the job's stamps.
use generic_coding_agent.Prelude.{
  ℕ, String, Bool, none, some, [], ◌∷◌, ◌++◌, any, ◌||◌, if◌then◌else◌,
}
use generic_coding_agent.Prelude.Int.{ℤ, pos}
use generic_coding_agent.Prelude.Text.{str_eq, opt_eq, ◌<>◌}
use generic_coding_agent.Jobs.Models.{RunSpec, Job}
use generic_coding_agent.Jobs.Store.Table.{Row, row_of}
use generic_coding_agent.Jobs.Store.Create.{new_job}
use generic_coding_agent.Issues.Models.{IssueSession, IssueGeneration, Turn}
use generic_coding_agent.Issues.Tables.{TurnJob, WorkError, Work, ok, err}

-- `max_steps or turn.max_steps`, where no caller gives the argument.
unfoldable pub turn_spec : (ℤ → String) → Turn → IssueSession → IssueGeneration → String → RunSpec
turn_spec number_text turn session generation task = record {
  task = task;
  repository = record {
    url = session.repository_url;
    ref = if str_eq generation.target_branch "" then "main" else generation.target_branch;
    shallow_depth = pos 1;
  };
  workflow = none;
  max_steps = some turn.max_steps;
  publication = none;
  labels =
      ("issue_session_id", session.id)
      ∷ ("generation_id", generation.id)
      ∷ ("turn_id", turn.id)
      ∷ ("project_id", number_text session.project_id)
      ∷ ("issue_iid", number_text session.issue_iid)
      ∷ [];
}

-- The key of a turn's job.
abbrev pub turn_key : Turn → String
turn_key turn = "turn:" <> turn.id

-- The row; its idempotency key is not the stored job's.
unfoldable pub turn_row :
    (ℤ → String) → ℕ → String → Turn → IssueSession → IssueGeneration → String → Row
turn_row number_text ticks id turn session generation task =
    record (row_of (new_job ticks id (turn_spec number_text turn session generation task) none 3)) {
      idempotency_key = some (turn_key turn);
    }

-- The constraints of the jobs table.
unfoldable pub is_taken : String → String → Row → Bool
is_taken id key r = str_eq r.id id || opt_eq r.idempotency_key (some key)

-- The job, and the turn with the job's id.
unfoldable pub create_turn_job :
    (ℤ → String) → ℕ → String → Turn → IssueSession → IssueGeneration → String → Work (Job × Turn)
create_turn_job number_text ticks id turn session generation task t =
    let job = new_job ticks id (turn_spec number_text turn session generation task) none 3 in
    if any (λ (j : TurnJob). is_taken id (turn_key turn) j.row) t.jobs
    then err WorkError.integrity
    else ok (job, record turn { job_id = some id })
        (record t {
          jobs =
              t.jobs
              ++ record {
                row = turn_row number_text ticks id turn session generation task;
                issue_session_id = session.id;
                generation_id = generation.id;
                turn_id = turn.id;
                lease_epoch = generation.lease_epoch;
                cancel_requested = generation.cancel_requested;
                project_id = session.project_id;
              }
                ∷ [];
        })
