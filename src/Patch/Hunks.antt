-- ===== src/Patch/Hunks.antt =====
-- gca/tools/patch.py, `_locate` and `_apply_hunks`: finding a hunk's lines and replacing them.
pub mod Located
pub mod Applied
use generic_coding_agent.Prelude.{
  ℕ, zero, suc, ◌+◌, ◌-◌, ◌≤◌, ◌<◌, Bool, true, false, not, ◌&&◌, ◌||◌, Option, none, some, List,
  [], ◌∷◌, ◌++◌, if◌then◌else◌, ltb, length, take, drop, min,
}
use generic_coding_agent.Prelude.Int.{ℤ, pos, negsuc, pos_part, sub_ℕ, ◌+ℤ◌}
use generic_coding_agent.Patch.Text.{Text, lines_eq, splitlines, join_lines, ends_in_newline}
use generic_coding_agent.Patch.Parse.{Hunk, Parsed, ok, err, PatchError, ◌>>=◌}

abbrev pub search_window : ℕ
search_window = 200

-- `haystack[pos : pos + len(needle)] == needle`
unfoldable pub matches_at : List Text → List Text → ℕ → Bool
matches_at haystack needle at_ = lines_eq (take (length needle) (drop at_ haystack)) needle

-- The loop over `count` positions from `at_` on.
unfoldable pub scan : List Text → List Text → ℕ → ℕ → Option ℕ
scan haystack needle zero at_ = none
scan haystack needle (suc count) at_ =
    let rest = scan haystack needle count (suc at_) in
    if matches_at haystack needle at_ then some at_ else rest

-- How many positions `range(0, hi - lo + 1)` offers; `hi` may be negative.
unfoldable pub offsets : ℕ → ℕ → ℕ → ℕ
offsets lines needle guess =
    if ltb lines needle
    then 0
    else suc (min (lines - needle) (guess + search_window)) - (guess - search_window)

unfoldable pub locate : List Text → List Text → ℕ → Parsed ℕ
locate haystack [] guess = ok (min guess (length haystack))
locate haystack (n ∷ needle) guess =
    if matches_at haystack (n ∷ needle) guess
    then ok guess
    else elim (scan haystack (n ∷ needle) (offsets (length haystack) (length (n ∷ needle)) guess)
        (guess - search_window)) [ none ↦ err PatchError.context_not_found | some at_ ↦ ok at_ ]

-- `lines[pos : pos + len(old)] = new`
unfoldable pub splice : List Text → ℕ → List Text → List Text → List Text
splice lines at_ old new = take at_ lines ++ (new ++ drop (at_ + length old) lines)

-- `max(0, hunk.old_start - 1 + offset)`
unfoldable pub guess_of : ℤ → ℤ → ℕ
guess_of old_start offset = pos_part (old_start +ℤ negsuc 0 +ℤ offset)

-- The loop over the hunks, with `lines` and `offset` as its state.
unfoldable pub apply_lines : List Text → ℤ → List Hunk → Parsed (List Text)
apply_lines lines offset [] = ok lines
apply_lines lines offset (h ∷ hunks) = do
  at_ ← locate lines h.old_lines (guess_of h.old_start offset)
  apply_lines (splice lines at_ h.old_lines h.new_lines)
      (offset +ℤ sub_ℕ (length h.new_lines) (length h.old_lines)) hunks

is_empty : Text → Bool
is_empty [] = true
is_empty (c ∷ cs) = false

-- `if had_trailing_newline and text and not text.endswith("\n"): text += "\n"`
unfoldable pub finish_text : Bool → Text → Text
unfolding is_empty
finish_text had_newline text =
    if had_newline && not (is_empty text) && not (ends_in_newline text)
    then text ++ 10 ∷ []
    else text

unfoldable pub apply_hunks : Text → List Hunk → Parsed Text
unfolding is_empty
apply_hunks original hunks = do
  lines ← apply_lines (splitlines original) (pos 0) hunks
  ok (finish_text (ends_in_newline original || is_empty original) (join_lines lines))
