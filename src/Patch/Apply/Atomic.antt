-- ===== src/Patch/Apply/Atomic.antt =====
-- When `apply_patch` is atomic, and what the workspace holds afterwards.
use generic_coding_agent.Prelude.{
  ◌≡◌, ◌≢◌, subst, sym, inl, inr, Bool, Option, none, some, List, [], ◌∷◌, arith, In, Option-cases,
  Bool-cases,
}
use generic_coding_agent.Patch.Text.{Text}
use generic_coding_agent.Patch.Parse.{FilePatch, ok, ok-injective, ok≢err, >>=-ok}
use generic_coding_agent.Patch.Hunks.{apply_hunks}
use generic_coding_agent.Patch.Apply.{
  Files, Workspace, PlannedChange, write, delete, read_file, plan, plan_change, plan_deletion,
  plan_write, resolved, original_of, checked, is_creation,
}

-- The path that a change names, and what it leaves there.
abbrev pub path_of : PlannedChange → Text
path_of (write p content) = p
path_of (delete p) = p

abbrev pub content_of : PlannedChange → Option Text
content_of (write p content) = some content
content_of (delete p) = none

module _ (ws : Workspace) where
  open ws use {resolve, can_write}

  -- A change that can be carried out on the files: its path resolves, and what it deletes is there.
  abbrev pub Ready : Files → PlannedChange → Type 0
  Ready files (write p content) = (t : Text) × (resolve p ≡ some t)
  Ready files (delete p) =
      (t : Text) × (content : Text) × (resolve p ≡ some t) × (read_file t files ≡ some content)

  abbrev pub AllReady : Files → List PlannedChange → Type 0
  AllReady files [] = Unit
  AllReady files (c ∷ changes) = Ready files c × AllReady files changes

  -- No two changes lead to one target.
  abbrev pub DistinctTargets : List PlannedChange → Type 0
  DistinctTargets [] = Unit
  DistinctTargets (c ∷ changes) =
      ((d : PlannedChange) → In d changes → resolve (path_of d) ≢ resolve (path_of c))
      × DistinctTargets changes

  resolved-ok : (path t : Text) → resolved ws path ≡ ok t → resolve path ≡ some t
  unfolding resolved
  resolved-ok path t h = ground arith

  plan_deletion-Ready :
      (files : Files) (path : Text) (c : PlannedChange)
      → plan_deletion ws files path ≡ ok c
      → Ready files c
  unfolding plan_deletion
  plan_deletion-Ready files path c h =
      let (t, found, rest) = >>=-ok (resolved ws path) _ h in
      elim (Option-cases (read_file t files)) [
        | inl lost ↦ absurd (ok≢err (sym (rw lost at rest)))
        | inr (content, there) ↦
            subst (Ready files) (ok-injective (rw there at rest))
              (t, content, resolved-ok path t found, there)
      ]

  plan_write-Ready :
      (files : Files) (path : Text) (creation : Bool) (p : FilePatch) (c : PlannedChange)
      → plan_write ws files path creation p ≡ ok c
      → Ready files c
  unfolding plan_write
  plan_write-Ready files path creation p c h =
      let (t, found, rest) = >>=-ok (resolved ws path) _ h in
      let (original, _, rest') = >>=-ok (original_of ws files t creation) _ rest in
      let (content, _, last) = >>=-ok (apply_hunks original p.hunks) _ rest' in
      elim (Bool-cases (ws.is_broken_source path content)) [
        | inl broken ↦ absurd (ok≢err (sym (rw (broken, checked) at last)))
        | inr fine ↦
            subst (Ready files) (ok-injective (rw (fine, checked) at last))
              (t, resolved-ok path t found)
      ]

  plan_change-Ready :
      (files : Files) (p : FilePatch) (c : PlannedChange)
      → plan_change ws files p ≡ ok c
      → Ready files c
  unfolding plan_change
  plan_change-Ready files p c h = elim (Option-cases p.new_path) [
    | inr (path, new) ↦
        plan_write-Ready files path (is_creation ws p) p c (rw (new, plan_change) at h)
    | inl removed ↦ elim (Option-cases p.old_path) [
      | inl neither ↦ absurd (ok≢err (sym (rw (removed, neither, plan_change) at h)))
      | inr (path, old) ↦ plan_deletion-Ready files path c (rw (removed, old, plan_change) at h)
    ]
  ]

  -- Every planned change can be carried out on the files that it was planned on.
  pub plan-Ready :
      (files : Files) (ps : List FilePatch) (changes : List PlannedChange)
      → plan ws files ps ≡ ok changes
      → AllReady files changes
  unfolding plan
  plan-Ready files [] changes h = subst (AllReady files) (ok-injective h) tt
  plan-Ready files (p ∷ ps) changes h =
      let (c, planned, rest) = >>=-ok (plan_change ws files p) _ h in
      let (cs, others, last) = >>=-ok (plan ws files ps) _ rest in
      subst (AllReady files) (ok-injective last)
        (plan_change-Ready files p c planned, plan-Ready files ps cs others)
