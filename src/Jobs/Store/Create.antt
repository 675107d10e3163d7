-- ===== src/Jobs/Store/Create.antt =====
-- gca/jobs/store.py, `create`: idempotent insertion. Between the look-up and the insertion other
-- connections may commit: `race` is what they do to the tables.
use generic_coding_agent.Prelude.{
  ℕ, String, Bool, true, false, not, ◌&&◌, Option, none, some, List, [], ◌∷◌, ◌++◌, if◌then◌else◌,
  length, any, all, ◌==◌,
}
use generic_coding_agent.Prelude.Int.{ℤ, pos, pos_part, leb_ℤ}
use generic_coding_agent.Prelude.Text.{str_eq, opt_eq, is_blank}
use generic_coding_agent.Json.{Fields}
use generic_coding_agent.Jobs.Models.{Job, JobStatus, RunSpec, RepositorySpec, PublicationTarget}
use generic_coding_agent.Jobs.Store.Table.{Db, row_of, collides, find_by_idempotency}
use generic_coding_agent.Jobs.Store.Validate.{validate_run_spec}
use generic_coding_agent.Result.{Result, ok, err, Error}

opt_int_eq : Option ℤ → Option ℤ → Bool
opt_int_eq none none = true
opt_int_eq (some a) (some b) = leb_ℤ a b && leb_ℤ b a
opt_int_eq _ _ = false

bool_eq : Bool → Bool → Bool
bool_eq true b = b
bool_eq false b = not b

publication_eq : Option PublicationTarget → Option PublicationTarget → Bool
unfolding bool_eq
publication_eq none none = true
publication_eq (some a) (some b) =
    str_eq a.provider b.provider
    && str_eq a.base_ref b.base_ref
    && str_eq a.branch_prefix b.branch_prefix
    && bool_eq a.draft b.draft
publication_eq _ _ = false

-- `==` on dicts: as many entries, and each of the left ones among the right ones.
labels_eq : List (String × String) → List (String × String) → Bool
labels_eq xs ys =
    length xs == length ys
    && all
        (λ (x : String × String).
          any (λ (y : String × String). str_eq x.0 y.0 && str_eq x.1 y.1) ys)
        xs

repository_eq : RepositorySpec → RepositorySpec → Bool
repository_eq a b =
    str_eq a.url b.url
    && str_eq a.ref b.ref
    && leb_ℤ a.shallow_depth b.shallow_depth
    && leb_ℤ b.shallow_depth a.shallow_depth

-- `==` on the frozen dataclass, field by field
unfoldable pub spec_eq : RunSpec → RunSpec → Bool
unfolding repository_eq opt_int_eq publication_eq labels_eq
spec_eq a b =
    str_eq a.task b.task
    && repository_eq a.repository b.repository
    && opt_eq a.workflow b.workflow
    && opt_int_eq a.max_steps b.max_steps
    && publication_eq a.publication b.publication
    && labels_eq a.labels b.labels

-- `Job(run_spec=..., idempotency_key=..., max_attempts=...)` with the defaults of the fields; the
-- id is `uuid.uuid4().hex`, and both timestamps are `utc_now()`.
unfoldable pub new_job : ℕ → String → RunSpec → Option String → ℕ → Job
new_job now id spec key max_attempts = record {
  run_spec = spec;
  id = id;
  status = JobStatus.queued;
  idempotency_key = key;
  attempt = 0;
  max_attempts = max_attempts;
  session_id = none;
  workspace_path = none;
  publication = Fields.end;
  result_summary = "";
  last_error = "";
  llm_usage = Fields.end;
  lease_owner = none;
  lease_expires_at = none;
  not_before = 0;
  version = 0;
  created_at = now;
  updated_at = now;
}

-- What an earlier job under the same key leads to.
unfoldable pub replay : RunSpec → Job → Result Job
replay spec existing =
    if spec_eq existing.run_spec spec then ok existing else err Error.idempotency_conflict

-- The INSERT, and the handler of `sqlite3.IntegrityError`.
unfoldable pub insert_job : RunSpec → Option String → Job → Db → Result Job × Db
insert_job spec key job db =
    if any (collides job) db.jobs
    then (
      elim key [
        | none ↦ err Error.create_failed
        | some k ↦ elim (find_by_idempotency k db) [
          | none ↦ err Error.create_failed
          | some existing ↦ replay spec existing
        ]
      ],
      db,
    )
    else (ok job, record db { jobs = db.jobs ++ row_of job ∷ [] })

bad_key : Option String → Bool
bad_key none = false
bad_key (some key) = is_blank key

prior : Option String → Db → Option Job
prior none db = none
prior (some key) db = find_by_idempotency key db

unfoldable pub create : ℕ → String → RunSpec → Option String → ℤ → (Db → Db) → Db → Result Job × Db
unfolding bad_key prior
create now id spec key max_attempts race db = elim (validate_run_spec spec) [
  | some message ↦ (err (Error.value_error message), db)
  | none ↦
      if not (leb_ℤ (pos 1) max_attempts && leb_ℤ max_attempts (pos 20))
      then (err (Error.value_error "max_attempts must be from 1 to 20"), db)
      else if bad_key key
      then (err (Error.value_error "idempotency_key must not be empty"), db)
      else elim (prior key db) [
        | some existing ↦ (replay spec existing, db)
        | none ↦ insert_job spec key (new_job now id spec key (pos_part max_attempts)) (race db)
      ]
]
