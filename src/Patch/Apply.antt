-- ===== src/Patch/Apply.antt =====
-- gca/tools/patch.py, `apply_patch`: every file patch is planned against the workspace, and then the
-- plan is carried out. The workspace is a list of files, each
-- with the text that `read_text` gives, line ends translated.
pub mod Files
pub mod Atomic
pub mod Landing
use generic_coding_agent.Prelude.{
  ℕ, Bool, true, false, not, Option, none, some, List, [], ◌∷◌, ◌++◌, if◌then◌else◌,
}
use generic_coding_agent.Patch.Text.{Text, text_eq}
use generic_coding_agent.Patch.Parse.{
  FilePatch, Parsed, ok, err, PatchError, ◌>>=◌, parse_unified_diff,
}
use generic_coding_agent.Patch.Hunks.{apply_hunks}

abbrev pub Files : Type 0
Files = List (Text × Text)

-- What stands outside this module: `ctx.resolve` in `resolve`, where `none` is a `ToolError`;
-- directories in the way, in `is_directory`; the Python parser behind `validate_python_source`, in
-- `is_broken_source`; and the operating system, which may refuse a write, in `can_write`.
pub record Workspace : Type 0 where
  pub resolve : Text → Option Text
  pub is_directory : Text → Bool
  pub is_broken_source : Text → Text → Bool
  pub can_write : Text → Files → Bool

-- `target.read_text()` of a file; `none` when `target.is_file()` is false.
unfoldable pub read_file : Text → Files → Option Text
read_file path [] = none
read_file path ((p, content) ∷ files) =
    if text_eq p path then some content else read_file path files

unfoldable pub write_file : Text → Text → Files → Files
write_file path new [] = (path, new) ∷ []
write_file path new ((p, content) ∷ files) =
    if text_eq p path then (p, new) ∷ files else (p, content) ∷ write_file path new files

unfoldable pub remove_file : Text → Files → Files
remove_file path [] = []
remove_file path ((p, content) ∷ files) =
    let rest = remove_file path files in if text_eq p path then rest else (p, content) ∷ rest

pub data PlannedChange : Type 0 where
  write : Text → Text → PlannedChange
  delete : Text → PlannedChange

-- How `apply_patch` ends: with its summary, by a `PatchError` or `ToolError`, or by an error of the
-- operating system in the middle of the writes.
pub data Outcome : Type 0 where
  applied : List PlannedChange → Outcome
  rejected : PatchError → Outcome
  broken_off : Outcome

module _ (ws : Workspace) where
  open ws use {resolve, is_directory, is_broken_source, can_write}

  -- `ctx.resolve`; a `ToolError` ends the planning as a `PatchError` does.
  resolved : Text → Parsed Text
  resolved path = elim (resolve path) [ none ↦ err PatchError.path_refused | some t ↦ ok t ]

  plan_deletion : Files → Text → Parsed PlannedChange
  unfolding resolved
  plan_deletion files path = do
    target ← resolved path
    elim (read_file target files) [
      | none ↦ err PatchError.delete_missing
      | some content ↦ ok (delete path)
    ]

  -- The text that the hunks start from.
  original_of : Files → Text → Bool → Parsed Text
  original_of files target creation = elim (read_file target files) [
    | none ↦
        if creation
        then (if is_directory target then err PatchError.create_existing else ok [])
        else err PatchError.target_not_found
    | some content ↦ if creation then err PatchError.create_existing else ok content
  ]

  checked : Text → Text → Parsed PlannedChange
  checked path content =
      if is_broken_source path content then err PatchError.syntax_error else ok (write path content)

  plan_write : Files → Text → Bool → FilePatch → Parsed PlannedChange
  unfolding resolved original_of checked
  plan_write files path creation patch = do
    target ← resolved path
    original ← original_of files target creation
    content ← apply_hunks original patch.hunks
    checked path content

  is_creation : FilePatch → Bool
  is_creation patch = elim patch.old_path [ none ↦ true | some p ↦ false ]

  -- A deletion has no new path, and asserts that it has an old one. The AssertionError is an error of the
  -- planning here, as a PatchError is: it ends the call before a file is written.
  plan_change : Files → FilePatch → Parsed PlannedChange
  unfolding plan_deletion plan_write is_creation
  plan_change files patch = elim patch.new_path [
    | none ↦ elim patch.old_path [
      | none ↦ err PatchError.assertion_failed
      | some path ↦ plan_deletion files path
    ]
    | some path ↦ plan_write files path (is_creation patch) patch
  ]

  -- The first loop: nothing is written, so every patch is planned against the same files.
  unfoldable pub plan : Files → List FilePatch → Parsed (List PlannedChange)
  unfolding plan_change
  plan files [] = ok []
  plan files (p ∷ patches) = do
    change ← plan_change files p
    rest ← plan files patches
    ok (change ∷ rest)

  -- One turn of the second loop; `none` is an exception that is not handled here.
  unfoldable pub perform : PlannedChange → Files → Option Files
  perform (delete path) files = elim (resolve path) [
    | none ↦ none
    | some target ↦ elim (read_file target files) [
      | none ↦ none
      | some content ↦ some (remove_file target files)
    ]
  ]
  perform (write path content) files = elim (resolve path) [
    | none ↦ none
    | some target ↦ if can_write target files then some (write_file target content files) else none
  ]

  -- The second loop, with what was written before an exception left in place.
  unfoldable pub carry_out : List PlannedChange → Files → Bool × Files
  unfolding perform
  carry_out [] files = (true, files)
  carry_out (c ∷ changes) files = elim (perform c files) [
    | none ↦ (false, files)
    | some files' ↦ carry_out changes files'
  ]

  unfoldable pub apply_patch : Text → Files → Outcome × Files
  apply_patch diff files = elim (parse_unified_diff diff >>= plan files) [
    | err e ↦ (rejected e, files)
    | ok changes ↦
        let (done, files') = carry_out changes files in
        (if done then applied changes else broken_off, files')
  ]
