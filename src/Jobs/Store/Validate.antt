-- ===== src/Jobs/Store/Validate.antt =====
-- gca/jobs/store.py, `_validate_run_spec`: the limits that a run request must keep to.
use generic_coding_agent.Prelude.{
  ℕ, String, Bool, false, not, ◌&&◌, ◌||◌, Option, none, some, List, [], ◌∷◌, if◌then◌else◌, ltb,
  length, any, ◌==◌,
}
use generic_coding_agent.Prelude.Int.{ℤ, pos, leb_ℤ}
use generic_coding_agent.Prelude.Text.{codes, str_eq, is_blank}
use generic_coding_agent.Jobs.Models.{RunSpec, PublicationTarget}

-- `len(text)`
abbrev len : String → ℕ
len s = length (codes s)

-- `text.startswith("-")`
abbrev starts_with_dash : List ℕ → Bool
starts_with_dash [] = false
starts_with_dash (c ∷ cs) = c == b'-'

abbrev outside : ℤ → ℤ → ℤ → Bool
outside lo hi n = not (leb_ℤ lo n && leb_ℤ n hi)

bad_workflow : Option String → Bool
bad_workflow none = false
bad_workflow (some w) = not (str_eq w "auto" || str_eq w "fast" || str_eq w "feature")

bad_max_steps : Option ℤ → Bool
bad_max_steps none = false
bad_max_steps (some n) = outside (pos 1) (pos 1000) n

publication_error : Option PublicationTarget → Option String
publication_error none = none
publication_error (some p) =
    if is_blank p.provider || ltb 50 (len p.provider)
    then some "publication provider is invalid"
    else if is_blank p.base_ref || starts_with_dash (codes p.base_ref) || ltb 255 (len p.base_ref)
    then some "publication base_ref is invalid"
    else if ltb 100 (len p.branch_prefix)
    then some "publication branch_prefix is too long"
    else none

bad_labels : List (String × String) → Bool
bad_labels labels =
    ltb 100 (length labels)
    || any (λ (l : String × String). ltb 100 (len l.0) || ltb 1000 (len l.1)) labels

labels_error : List (String × String) → Option String
unfolding bad_labels
labels_error labels = if bad_labels labels then some "run labels exceed size limits" else none

-- The message of the `ValueError` raised, if one is; the tests stand in the order of the code.
unfoldable pub validate_run_spec : RunSpec → Option String
unfolding bad_workflow bad_max_steps publication_error labels_error
validate_run_spec spec =
    if is_blank spec.task
    then some "run task must not be empty"
    else if ltb 50000 (len spec.task)
    then some "run task must not exceed 50000 characters"
    else if is_blank spec.repository.url
    then some "repository URL must not be empty"
    else if ltb 2048 (len spec.repository.url)
    then some "repository URL must not exceed 2048 characters"
    else if is_blank spec.repository.ref
    then some "repository ref must not be empty"
    else if ltb 255 (len spec.repository.ref)
    then some "repository ref must not exceed 255 characters"
    else if outside (pos 1) (pos 1000) spec.repository.shallow_depth
    then some "repository shallow_depth must be from 1 to 1000"
    else if bad_workflow spec.workflow
    then some "workflow must be one of: auto, fast, feature"
    else if bad_max_steps spec.max_steps
    then some "max_steps must be from 1 to 1000"
    else elim (publication_error spec.publication) [
      | some message ↦ some message
      | none ↦ labels_error spec.labels
    ]
