-- ===== src/Tests/Workspace.antt =====
-- A workspace of two files, and diffs against it.
use generic_coding_agent.Prelude.{
  ◌≡◌, refl, ◌+◌, ◌≤◌, true, false, none, some, List, [], ◌∷◌, take, drop, arith,
}
use generic_coding_agent.Prelude.Int.{pos}
use generic_coding_agent.Prelude.Text.{codes}
use generic_coding_agent.Patch.Text.{
  Text, splitlines, strip, join_lines, starts_with, unix_newlines, before, before_ats, lines_from,
  strip_left, strip_right, text_eq, ends_in_newline, lines_eq,
}
use generic_coding_agent.Patch.Parse.{
  Hunk, FilePatch, ok, parse_unified_diff, parse_lines, normalize_diff_text, open_hunk, open_file,
  parse_hunk_header, int_of, finish, all_patches, flush_hunk, plain_line, hunk_line, strip_prefix,
}
use generic_coding_agent.Patch.Hunks.{
  locate, matches_at, scan, offsets, apply_lines, guess_of, splice, apply_hunks, finish_text,
}
use generic_coding_agent.Patch.Hunks.Located.{locate_sound, locate_complete}
use generic_coding_agent.Patch.Hunks.Applied.{hunk_undone}
use generic_coding_agent.Patch.Apply.{
  Files, Workspace, write, applied, broken_off, read_file, remove_file, plan, apply_patch,
}
use generic_coding_agent.Patch.Apply.Landing.{
  last_text, apply_patch_lands, apply_patch_twice_deleted,
}

abbrev a : Text
a = codes "a"

abbrev files : Files
files = (a, codes "x\n") ∷ (codes "b", codes "y\n") ∷ []

-- Every path resolves to itself, and no Python file is there.
abbrev open_workspace : Workspace
open_workspace = record {
  resolve = λ path. some path;
  is_directory = λ path. false;
  is_broken_source = λ path content. false;
  can_write = λ path files. true;
}

abbrev twice : Text
twice =
    codes "--- a/a\n+++ /dev/null\n@@ -1 +0,0 @@\n-x\n--- a/a\n+++ /dev/null\n@@ -1 +0,0 @@\n-x\n"

abbrev change_a : Text
change_a = codes "--- a/a\n+++ b/a\n@@ -1 +1 @@\n-x\n+z\n"

abbrev removal : FilePatch
removal = record {
  old_path = some a;
  new_path = none;
  hunks = record { old_start = pos 1; old_lines = codes "x" ∷ []; new_lines = [] } ∷ [];
}

twice_parsed : parse_unified_diff twice ≡ ok (removal ∷ removal ∷ [])
unfolding parse_unified_diff parse_lines splitlines normalize_diff_text strip join_lines starts_with
    unix_newlines open_hunk open_file parse_hunk_header int_of before before_ats finish all_patches
    flush_hunk plain_line hunk_line strip_prefix lines_from strip_left strip_right text_eq
twice_parsed = refl

apply_patch_twice_deleted_example :
    apply_patch open_workspace twice files ≡ (broken_off, remove_file a files)
unfolding read_file text_eq
apply_patch_twice_deleted_example =
    apply_patch_twice_deleted open_workspace twice a a (codes "x\n") removal removal files
      twice_parsed (refl, refl) (refl, refl) refl refl

apply_patch_lands_example :
    (files' : Files) × (apply_patch open_workspace change_a files
      ≡ (applied (write a (codes "z\n") ∷ []), files'))
    × ((t : Text)
        → read_file t files'
          ≡ last_text open_workspace t (write a (codes "z\n") ∷ []) (read_file t files))
unfolding parse_unified_diff parse_lines splitlines normalize_diff_text strip join_lines starts_with
    unix_newlines open_hunk open_file parse_hunk_header int_of before before_ats finish all_patches
    flush_hunk plain_line hunk_line strip_prefix lines_from strip_left strip_right text_eq plan
    read_file apply_hunks apply_lines finish_text guess_of locate matches_at offsets scan splice
    ends_in_newline lines_eq
apply_patch_lands_example =
    apply_patch_lands open_workspace change_a files (write a (codes "z\n") ∷ []) (λ t f. refl) refl
      ((λ d i. absurd i), tt)

abbrev lines : List Text
lines = codes "a" ∷ codes "b" ∷ codes "c" ∷ []

abbrev hunk : Hunk
hunk = record {
  old_start = pos 1;
  old_lines = codes "b" ∷ [];
  new_lines = codes "d" ∷ codes "e" ∷ [];
}

locate_sound_example :
    (take 1 (drop 1 lines) ≡ hunk.old_lines) × (1 + 1 ≤ 3) × (1 ≤ 0 + 200) × (0 ≤ 1 + 200)
unfolding locate matches_at offsets scan lines_eq text_eq
locate_sound_example = locate_sound lines hunk.old_lines 0 1 (omega arith) refl

locate_complete_example : matches_at lines (codes "d" ∷ []) 2 ≡ false
unfolding locate matches_at offsets scan lines_eq text_eq
locate_complete_example =
    locate_complete lines (codes "d" ∷ []) 0 2 refl (omega arith) (omega arith)

hunk_undone_example :
    apply_lines
      (codes "a" ∷ codes "d" ∷ codes "e" ∷ codes "c" ∷ [])
      (pos 0)
      (record { old_start = pos 2; old_lines = hunk.new_lines; new_lines = hunk.old_lines } ∷ [])
    ≡ ok lines
unfolding locate apply_lines matches_at offsets scan lines_eq text_eq splice guess_of
hunk_undone_example =
    hunk_undone lines hunk 1 (codes "a" ∷ codes "d" ∷ codes "e" ∷ codes "c" ∷ []) refl refl
