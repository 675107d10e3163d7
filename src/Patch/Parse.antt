-- ===== src/Patch/Parse.antt =====
-- gca/tools/patch.py: from the text of a diff to file patches.
use generic_coding_agent.Prelude.{
  ℕ, ◌+◌, ◌-◌, ◌*◌, ◌≡◌, refl, Bool, true, false, not, ◌&&◌, ◌||◌, Option, none, some, List, [],
  ◌∷◌, ◌++◌, if◌then◌else◌, leb, drop, keep_if, ◌==◌,
}
use generic_coding_agent.Prelude.Int.{ℤ, pos, sub_ℕ}
use generic_coding_agent.Prelude.Text.{codes}
use generic_coding_agent.Patch.Text.{
  Text, text_eq, starts_with, splitlines, join_lines, strip_left, strip, unix_newlines, before,
  before_ats,
}

pub record Hunk : Type 0 where
  pub old_start : ℤ
  pub old_lines : List Text
  pub new_lines : List Text

pub record FilePatch : Type 0 where
  pub old_path : Option Text
  pub new_path : Option Text
  pub hunks : List Hunk

-- What `PatchError` is raised for.
pub data PatchError : Type 0 where
  header_without_target : PatchError
  hunk_before_header : PatchError
  malformed_hunk_header : PatchError
  no_file_headers : PatchError
  context_not_found : PatchError
  delete_missing : PatchError
  create_existing : PatchError
  target_not_found : PatchError
  syntax_error : PatchError
  assertion_failed : PatchError
  path_refused : PatchError

pub data Parsed {ℓ} (A : Type ℓ) : Type ℓ where
  ok : A → Parsed A
  err : PatchError → Parsed A

pub ok-injective {ℓ} : {A : Type ℓ} {a b : A} → ok a ≡ ok b → a ≡ b
ok-injective h = cc

infixl 5 ◌>>=◌
abbrev pub ◌>>=◌ {ℓ κ} : {A : Type ℓ} {B : Type κ} → Parsed A → (A → Parsed B) → Parsed B
ok a >>= f = f a
err e >>= f = err e

pub >>=-ok {ℓ κ} :
    {A : Type ℓ} {B : Type κ} (m : Parsed A) (f : A → Parsed B) {b : B}
    → (m >>= f) ≡ ok b
    → (a : A) × (m ≡ ok a) × (f a ≡ ok b)
>>=-ok (ok a) f h = (a, refl, h)
>>=-ok (err e) f h = cc

pub ok≢err {ℓ} : {A : Type ℓ} {a : A} {e : PatchError} → ok a ≡ err e → ⊥
ok≢err h = cc

-- `None` stands for /dev/null.
unfoldable pub strip_prefix : Text → Option Text
strip_prefix raw =
    let path = strip raw in
    if text_eq path (codes "/dev/null")
    then none
    else if starts_with (codes "a/") path || starts_with (codes "b/") path
    then some (drop 2 path)
    else some path

drop_last : List Text → List Text
drop_last [] = []
drop_last (l ∷ []) = []
drop_last (l ∷ m ∷ rest) = l ∷ drop_last (m ∷ rest)

last_is_fence : List Text → Bool
last_is_fence [] = false
last_is_fence (l ∷ []) = text_eq (strip l) (codes "```")
last_is_fence (l ∷ m ∷ rest) = last_is_fence (m ∷ rest)

drop_first_fence : List Text → List Text
drop_first_fence [] = []
drop_first_fence (l ∷ rest) = if starts_with (codes "```") l then rest else l ∷ rest

-- The lines of git that carry no change.
is_preamble : Text → Bool
is_preamble line =
    starts_with (codes "diff --git ") line
    || starts_with (codes "index ") line
    || starts_with (codes "new file mode ") line
    || starts_with (codes "deleted file mode ") line

unfence : Text → Text
unfolding drop_first_fence last_is_fence drop_last
unfence text =
    let lines = drop_first_fence (splitlines text) in
    if starts_with (codes "```") text
    then strip (join_lines (if last_is_fence lines then drop_last lines else lines))
    else text

ending : List Text → Text
ending [] = []
ending (l ∷ rest) = 10 ∷ []

unfoldable pub normalize_diff_text : Text → Text
unfolding is_preamble unfence ending
normalize_diff_text diff =
    let kept =
      keep_if (λ line. not (is_preamble line))
        (splitlines (unfence (strip (unix_newlines diff)))) in
    strip (join_lines kept) ++ ending kept

-- `int(text)` without its sign: digits, with single underscores between them. `open_` says that
-- a digit must follow.
digits_from : Bool → ℕ → Text → Option ℕ
digits_from open_ n [] = if open_ then none else some n
digits_from open_ n (c ∷ cs) =
    let digit = digits_from false (n * 10 + (c - 48)) cs in
    let under = digits_from true n cs in
    if leb 48 c && leb c 57 then digit else if c == b'_' && not open_ then under else none

signed : Text → Option ℤ
unfolding digits_from
signed [] = none
signed (c ∷ cs) =
    if c == b'-'
    then elim (digits_from true 0 cs) [ none ↦ none | some n ↦ some (sub_ℕ 0 n) ]
    else if c == b'+'
    then elim (digits_from true 0 cs) [ none ↦ none | some n ↦ some (pos n) ]
    else elim (digits_from true 0 (c ∷ cs)) [ none ↦ none | some n ↦ some (pos n) ]

-- `int(text)`, over the ASCII digits; `none` is a `ValueError`.
unfoldable pub int_of : Text → Option ℤ
unfolding signed
int_of text = signed (strip text)

-- The line starts with "@@", so the piece before it is empty.
unfoldable pub parse_hunk_header : Text → Parsed ℤ
parse_hunk_header header =
    let segment = strip_left (λ c. c == b'-') (before 32 (strip (before_ats (drop 2 header)))) in
    elim (int_of (before b',' segment)) [ none ↦ err malformed_hunk_header | some n ↦ ok n ]

-- The variables of the loop. `current` is the last file patch, which the list of the code holds too;
-- here `patches` has those before it.
pub record Parser : Type 0 where
  pub patches : List FilePatch
  pub current : Option FilePatch
  pub in_hunk : Bool
  pub hunk_old_start : ℤ
  pub hunk_old : List Text
  pub hunk_new : List Text

abbrev pub begin : Parser
begin = record {
  patches = [];
  current = none;
  in_hunk = false;
  hunk_old_start = pos 0;
  hunk_old = [];
  hunk_new = [];
}

-- The open hunk joins the current file patch.
with_hunk : Parser → Option FilePatch
with_hunk p = elim p.current [
  | none ↦ none
  | some f ↦
      if p.in_hunk
      then some (record f {
        hunks =
            f.hunks
            ++ record {
              old_start = p.hunk_old_start;
              old_lines = p.hunk_old;
              new_lines = p.hunk_new;
            }
              ∷ [];
      })
      else some f
]

unfoldable pub flush_hunk : Parser → Parser
unfolding with_hunk
flush_hunk p = record p { current = with_hunk p; in_hunk = false; hunk_old = []; hunk_new = [] }

-- Every file patch so far, the current one last.
unfoldable pub all_patches : Parser → List FilePatch
all_patches p = elim p.current [ none ↦ p.patches | some f ↦ p.patches ++ f ∷ [] ]

unfoldable pub open_file : Text → Text → Parser → Parser
open_file old new p =
    let q = flush_hunk p in
    record q {
      patches = all_patches q;
      current =
          some (record { old_path = strip_prefix old; new_path = strip_prefix new; hunks = [] });
    }

unfoldable pub open_hunk : Text → Parser → Parsed Parser
open_hunk line p = elim p.current [
  | none ↦ err hunk_before_header
  | some f ↦ do
    start ← parse_hunk_header line
    ok (record (flush_hunk p) { in_hunk = true; hunk_old_start = start })
]

-- A line of a hunk, by its first character. A line that belongs to no hunk ends it: the code looks
-- at that line once more with no hunk open, and passes over it.
unfoldable pub hunk_line : Text → Parser → Parser
hunk_line [] p = record p { hunk_old = p.hunk_old ++ [] ∷ []; hunk_new = p.hunk_new ++ [] ∷ [] }
hunk_line (tag ∷ body) p =
    if tag == b'\\'
    then p
    else if tag == 32
    then record p { hunk_old = p.hunk_old ++ body ∷ []; hunk_new = p.hunk_new ++ body ∷ [] }
    else if tag == b'-'
    then record p { hunk_old = p.hunk_old ++ body ∷ [] }
    else if tag == b'+'
    then record p { hunk_new = p.hunk_new ++ body ∷ [] }
    else flush_hunk p

unfoldable pub plain_line : Text → Parser → Parser
plain_line line p = if p.in_hunk then hunk_line line p else p

-- `line.startswith("--- ")`, and so on
abbrev pub is_old_header : Text → Bool
is_old_header = starts_with (codes "--- ")

abbrev pub is_new_header : Text → Bool
is_new_header = starts_with (codes "+++ ")

abbrev pub is_hunk_header : Text → Bool
is_hunk_header = starts_with (codes "@@")

-- The loop over the lines. A file header takes two of them.
unfoldable pub parse_lines : List Text → Parser → Parsed Parser
parse_lines [] p = ok p
parse_lines (line ∷ []) p =
    if is_old_header line
    then err header_without_target
    else if is_hunk_header line
    then open_hunk line p
    else ok (plain_line line p)
parse_lines (line ∷ following ∷ rest) p =
    let after_header = parse_lines rest (open_file (drop 4 line) (drop 4 following) p) in
    let after_hunk_header = open_hunk line p >>= λ q. parse_lines (following ∷ rest) q in
    let after_line = parse_lines (following ∷ rest) (plain_line line p) in
    if is_old_header line
    then (if is_new_header following then after_header else err header_without_target)
    else if is_hunk_header line
    then after_hunk_header
    else after_line

unfoldable pub finish : Parser → Parsed (List FilePatch)
finish p = elim (all_patches (flush_hunk p)) [ [] ↦ err no_file_headers | f ∷ rest ↦ ok (f ∷ rest) ]

unfoldable pub parse_unified_diff : Text → Parsed (List FilePatch)
parse_unified_diff diff = do p ← parse_lines (splitlines (normalize_diff_text diff)) begin; finish p
