-- ===== src/Patch/Apply/Landing.antt =====
-- What carrying out a plan leaves in the workspace.
use generic_coding_agent.Prelude.{
  ◌≡◌, ◌≢◌, refl, sym, ◌∙◌, ap, true, Option, none, some, List, [], ◌∷◌, In, if◌then◌else◌,
  Bool-cases, inl, inr,
}
use generic_coding_agent.Patch.Text.{Text, text_eq}
use generic_coding_agent.Patch.Text.Equality.{text_eq-eq, text_eq_refl}
use generic_coding_agent.Patch.Parse.{FilePatch, ok, >>=-ok, ◌>>=◌, parse_unified_diff}
use generic_coding_agent.Patch.Apply.{
  Files, Workspace, PlannedChange, write, delete, applied, broken_off, read_file, write_file,
  remove_file, perform, plan, plan_change, plan_deletion, resolved, carry_out, apply_patch,
}
use generic_coding_agent.Patch.Apply.Files.{read_file-write_file, read_file-remove_file}
use generic_coding_agent.Patch.Apply.Atomic.{
  path_of, content_of, Ready, AllReady, DistinctTargets, plan-Ready,
}

-- The operating system lets every file be written.
abbrev pub IsWritable : Workspace → Type 0
IsWritable ws = (target : Text) (files : Files) → ws.can_write target files ≡ true

-- What one change that could be carried out did to the files.
abbrev Done : Workspace → PlannedChange → Files → Type 0
Done ws c files =
    (t : Text) × (files' : Files) × (ws.resolve (path_of c) ≡ some t)
    × (perform ws c files ≡ some files')
    × ((other : Text)
        → read_file other files'
          ≡ (if text_eq t other then content_of c else read_file other files))

perform-Ready :
    (ws : Workspace) (c : PlannedChange) (files : Files)
    → IsWritable ws
    → Ready ws files c
    → Done ws c files
unfolding perform
perform-Ready ws (write p content) files writable (t, found) = (
  t,
  write_file t content files,
  found,
  rw (found, writable t files, perform),
  λ o. read_file-write_file t content o files,
)
perform-Ready ws (delete p) files writable (t, content, found, there) = (
  t,
  remove_file t files,
  found,
  rw (found, there, perform),
  λ o. read_file-remove_file t o files,
)

-- A change to another target leaves a change ready.
Ready-other :
    (ws : Workspace) (c : PlannedChange) (t : Text) (new : Option Text) (files files' : Files)
    → ws.resolve (path_of c) ≢ some t
    → ((other : Text)
        → read_file other files' ≡ (if text_eq t other then new else read_file other files))
    → Ready ws files c
    → Ready ws files' c
Ready-other ws (write p content) t new files files' apart reads ready = ready
Ready-other ws (delete p) t new files files' apart reads (u, content, found, there) =
    elim (Bool-cases (text_eq t u)) [
      | inl same ↦ absurd (apart (found ∙ ap some (sym (text_eq-eq t u same))))
      | inr differ ↦ (u, content, found, reads u ∙ rw (differ, there))
    ]

AllReady-other :
    (ws : Workspace) (changes : List PlannedChange) (t : Text) (new : Option Text)
    (files files' : Files)
    → ((d : PlannedChange) → In d changes → ws.resolve (path_of d) ≢ some t)
    → ((other : Text)
        → read_file other files' ≡ (if text_eq t other then new else read_file other files))
    → AllReady ws files changes
    → AllReady ws files' changes
AllReady-other ws [] t new files files' apart reads ready = tt
AllReady-other ws (c ∷ changes) t new files files' apart reads (ready, others) = (
  Ready-other ws c t new files files' (apart c (inl refl)) reads ready,
  AllReady-other ws changes t new files files' (λ d d∈. apart d (inr d∈)) reads others,
)

-- The text that a target holds after the changes.
unfoldable pub last_text : Workspace → Text → List PlannedChange → Option Text → Option Text
last_text ws t [] before = before
last_text ws t (c ∷ changes) before = last_text ws t changes (elim (ws.resolve (path_of c)) [
  | none ↦ before
  | some u ↦ if text_eq u t then content_of c else before
])

pub carry_out-AllReady :
    (ws : Workspace) (changes : List PlannedChange) (files : Files)
    → IsWritable ws
    → DistinctTargets ws changes
    → AllReady ws files changes
    → (files' : Files) × (carry_out ws changes files ≡ (true, files'))
      × ((t : Text) → read_file t files' ≡ last_text ws t changes (read_file t files))
unfolding carry_out last_text
carry_out-AllReady ws [] files writable distinct ready = (files, refl, λ t. refl)
carry_out-AllReady ws (c ∷ changes) files writable (apart, distinct) (ready, others) =
    let (t, files₁, found, performed, reads) = perform-Ready ws c files writable ready in
    let others₁ =
      AllReady-other ws changes t (content_of c) files files₁
        (λ d d∈ eq. apart d d∈ (eq ∙ sym found)) reads others in
    let (files', carried, last) = carry_out-AllReady ws changes files₁ writable distinct others₁ in
    (files', rw (performed, carried, carry_out), λ u. last u ∙ rw (reads u, found))

-- When every section of a diff can be planned, no two of its changes lead to one target, and the
-- operating system lets files be written, `apply_patch` reports every planned change, and each file
-- of the workspace then holds what the plan says of it: the new text, nothing after a deletion, and
-- what it held before when no change names it.
pub apply_patch_lands :
    (ws : Workspace) (diff : Text) (files : Files) (changes : List PlannedChange)
    → IsWritable ws
    → (parse_unified_diff diff >>= plan ws files) ≡ ok changes
    → DistinctTargets ws changes
    → (files' : Files) × (apply_patch ws diff files ≡ (applied changes, files'))
      × ((t : Text) → read_file t files' ≡ last_text ws t changes (read_file t files))
unfolding apply_patch
apply_patch_lands ws diff files changes writable planned distinct =
    let (ps, _, all) = >>=-ok (parse_unified_diff diff) _ planned in
    let (files', carried, last) =
      carry_out-AllReady ws changes files writable distinct (plan-Ready ws files ps changes all) in
    (files', rw (planned, carried, apply_patch), last)

plan_change-deletion :
    (ws : Workspace) (path t content : Text) (p : FilePatch) (files : Files)
    → p.old_path ≡ some path
    → p.new_path ≡ none
    → ws.resolve path ≡ some t
    → read_file t files ≡ some content
    → plan_change ws files p ≡ ok (delete path)
unfolding plan_change plan_deletion resolved
plan_change-deletion ws path t content p files old new found there = cc

-- A diff whose two sections both delete one file that is there is not applied atomically: the first
-- deletion is carried out, the second fails with an error that `apply_patch` does not turn into a
-- `PatchError`, and the file is gone.
pub apply_patch_twice_deleted :
    (ws : Workspace) (diff path t content : Text) (p q : FilePatch) (files : Files)
    → parse_unified_diff diff ≡ ok (p ∷ q ∷ [])
    → (p.old_path ≡ some path) × (p.new_path ≡ none)
    → (q.old_path ≡ some path) × (q.new_path ≡ none)
    → ws.resolve path ≡ some t
    → read_file t files ≡ some content
    → apply_patch ws diff files ≡ (broken_off, remove_file t files)
unfolding apply_patch plan carry_out perform
apply_patch_twice_deleted ws diff path t content p q files parsed (po, pn) (qo, qn) found there =
    let first = plan_change-deletion ws path t content p files po pn found there in
    let second = plan_change-deletion ws path t content q files qo qn found there in
    let gone : read_file t (remove_file t files) ≡ none =
      read_file-remove_file t t files ∙ rw (text_eq_refl t) in
    rw (parsed, first, second, found, there, found, gone, apply_patch, plan, carry_out, perform)
