-- ===== src/Patch/Text.antt =====
-- The methods of `str` that gca/tools/patch.py calls.
pub mod Equality
use generic_coding_agent.Prelude.{
  ℕ, zero, suc, ◌-◌, String, Bool, true, false, ◌&&◌, ◌||◌, Option, none, some, List, [], ◌∷◌, ◌++◌,
  if◌then◌else◌, leb, ◌==◌,
}
use generic_coding_agent.Prelude.Text.{codes, is_space}

abbrev pub Text : Type 0
Text = List ℕ

-- `a == b`
unfoldable pub text_eq : Text → Text → Bool
text_eq [] [] = true
text_eq (a ∷ as_) (b ∷ bs) = a == b && text_eq as_ bs
text_eq _ _ = false

-- `a == b` on lists of lines
unfoldable pub lines_eq : List Text → List Text → Bool
lines_eq [] [] = true
lines_eq (a ∷ as_) (b ∷ bs) = text_eq a b && lines_eq as_ bs
lines_eq _ _ = false

-- `text.startswith(prefix)`, the prefix first
unfoldable pub starts_with : Text → Text → Bool
starts_with [] text = true
starts_with (p ∷ ps) [] = false
starts_with (p ∷ ps) (c ∷ cs) = p == c && starts_with ps cs

-- The line boundaries of `str.splitlines`.
abbrev pub is_break : ℕ → Bool
is_break c = (leb 10 c && leb c 13) || (leb 28 c && leb c 30) || c == 133 || c == 8232 || c == 8233

-- The lines from here on: `cr` says that a carriage return has just ended a line, and `line` holds
-- the characters of the line begun. A text that ends in a boundary has no line after it.
unfoldable pub lines_from : Bool → Text → Text → List Text
lines_from cr [] [] = []
lines_from cr (l ∷ line) [] = (l ∷ line) ∷ []
lines_from cr line (c ∷ rest) =
    let skipped = lines_from false line rest in
    let ended = line ∷ lines_from (c == 13) [] rest in
    let longer = lines_from false (line ++ c ∷ []) rest in
    if cr && c == 10 then skipped else if is_break c then ended else longer

unfoldable pub splitlines : Text → List Text
unfolding lines_from
splitlines text = lines_from false [] text

-- `"\n".join(lines)`
unfoldable pub join_lines : List Text → Text
join_lines [] = []
join_lines (l ∷ []) = l
join_lines (l ∷ m ∷ rest) = l ++ 10 ∷ join_lines (m ∷ rest)

unfoldable pub strip_left : (ℕ → Bool) → Text → Text
strip_left drop_it [] = []
strip_left drop_it (c ∷ cs) = let rest = strip_left drop_it cs in if drop_it c then rest else c ∷ cs

-- Trailing characters go if nothing but such characters follows.
unfoldable pub strip_right : (ℕ → Bool) → Text → Text
strip_right drop_it [] = []
strip_right drop_it (c ∷ cs) = elim (strip_right drop_it cs) [
  | [] ↦ if drop_it c then [] else c ∷ []
  | d ∷ ds ↦ c ∷ d ∷ ds
]

-- `text.strip()`
unfoldable pub strip : Text → Text
unfolding strip_left strip_right
strip text = strip_right is_space (strip_left is_space text)

-- `text.replace("\r\n", "\n")`
unfoldable pub unix_newlines : Text → Text
unix_newlines [] = []
unix_newlines (c ∷ []) = c ∷ []
unix_newlines (c ∷ d ∷ rest) =
    let tail = unix_newlines (d ∷ rest) in if c == 13 && d == 10 then tail else c ∷ tail

-- `text.split(sep)[0]` for a separator of one character
unfoldable pub before : ℕ → Text → Text
before sep [] = []
before sep (c ∷ cs) = let rest = before sep cs in if c == sep then [] else c ∷ rest

-- `text.split("@@")[0]`
unfoldable pub before_ats : Text → Text
before_ats [] = []
before_ats (c ∷ []) = c ∷ []
before_ats (c ∷ d ∷ rest) =
    let tail = before_ats (d ∷ rest) in if c == b'@' && d == b'@' then [] else c ∷ tail

-- `text.endswith("\n")`
unfoldable pub ends_in_newline : Text → Bool
ends_in_newline [] = false
ends_in_newline (c ∷ []) = c == 10
ends_in_newline (c ∷ d ∷ rest) = ends_in_newline (d ∷ rest)
