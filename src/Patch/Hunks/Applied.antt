-- ===== src/Patch/Hunks/Applied.antt =====
-- What a hunk changes: its lines and no others, and so it can be undone.
use generic_coding_agent.Prelude.{
  ℕ, suc, ◌+◌, ◌≤◌, ◌≡◌, refl, sym, ◌∙◌, ap, ap₂, true, List, [], ◌∷◌, ◌++◌, arith, length, take,
  drop, min, length-take, length-drop, length-append, take-append-drop, drop-add,
  take-append_length, drop-append_length,
}
use generic_coding_agent.Prelude.Int.{pos}
use generic_coding_agent.Patch.Text.{Text}
use generic_coding_agent.Patch.Text.Equality.{lines_eq_refl}
use generic_coding_agent.Patch.Parse.{Hunk, ok, ok-injective}
use generic_coding_agent.Patch.Hunks.{matches_at, locate, splice, guess_of, apply_lines}
use generic_coding_agent.Patch.Hunks.Located.{locate_sound}

-- The old lines stand where `_locate` says, also if there are none.
located_lines :
    (lines old : List Text) (guess at_ : ℕ)
    → locate lines old guess ≡ ok at_
    → (take (length old) (drop at_ lines) ≡ old) × (at_ + length old ≤ length lines)
unfolding locate
located_lines lines [] guess at_ h =
    let e : min guess (length lines) ≡ at_ = ok-injective h in (refl, omega (arith, e))
located_lines lines (o ∷ old) guess at_ h =
    let (same, fits, _, _) = locate_sound lines (o ∷ old) guess at_ (omega arith) h in (same, fits)

module _ (lines old new : List Text) (at_ : ℕ) (fits : at_ + length old ≤ length lines) where
  at-length : at_ ≡ length (take at_ lines)
  at-length = omega (arith, length-take at_ lines)

  -- Reading the spliced text at the position of the splice.
  take-splice : take at_ (splice lines at_ old new) ≡ take at_ lines
  unfolding splice
  take-splice = take-append_length at_ (take at_ lines) _ at-length

  drop-splice : drop at_ (splice lines at_ old new) ≡ new ++ drop (at_ + length old) lines
  unfolding splice
  drop-splice = drop-append_length at_ (take at_ lines) _ at-length

  splice-matches : matches_at (splice lines at_ old new) new at_ ≡ true
  unfolding matches_at
  splice-matches = rw drop-splice (
      rw (take-append_length (length new) new (drop (at_ + length old) lines) refl)
        (lines_eq_refl new))

  pub length-splice : length (splice lines at_ old new) + length old ≡ length lines + length new
  unfolding splice
  length-splice = omega (
    arith,
    length-append (take at_ lines) (new ++ drop (at_ + length old) lines),
    length-append new (drop (at_ + length old) lines),
    length-take at_ lines,
    length-drop (at_ + length old) lines,
  )

  rest-splice : drop (at_ + length new) (splice lines at_ old new) ≡ drop (at_ + length old) lines
  rest-splice =
      drop-add at_ (length new) (splice lines at_ old new)
      ∙ ap (drop (length new)) drop-splice
      ∙ drop-append_length (length new) new (drop (at_ + length old) lines) refl

  splice_back :
      take (length old) (drop at_ lines) ≡ old
      → splice (splice lines at_ old new) at_ new old ≡ lines
  splice_back same =
      unfold splice in
      ap₂ ◌++◌ take-splice (ap (◌++◌ old) rest-splice)
      ∙ ap (◌++◌ (take at_ lines)) (
          ap₂ ◌++◌ (sym same) (drop-add at_ (length old) lines)
          ∙ take-append-drop (length old) (drop at_ lines))
      ∙ take-append-drop at_ lines

locate_here :
    (lines needle : List Text) (at_ : ℕ)
    → matches_at lines needle at_ ≡ true
    → at_ ≤ length lines
    → locate lines needle at_ ≡ ok at_
unfolding locate
locate_here lines [] at_ h fits = let e : min at_ (length lines) ≡ at_ = omega arith in rw e
locate_here lines (n ∷ needle) at_ h fits = rw h

guess_at : (at_ : ℕ) → guess_of (pos (suc at_)) (pos 0) ≡ at_
unfolding guess_of
guess_at at_ = ground arith

-- A hunk that was applied to a list of lines is undone by the reversed hunk, placed where it was applied: the
-- list of lines is as before. Of the text around it, its line ends and the last one, nothing is said.
pub hunk_undone :
    (lines : List Text) (h : Hunk) (at_ : ℕ) (after : List Text)
    → locate lines h.old_lines (guess_of h.old_start (pos 0)) ≡ ok at_
    → apply_lines lines (pos 0) (h ∷ []) ≡ ok after
    → apply_lines after (pos 0) (
        record { old_start = pos (suc at_); old_lines = h.new_lines; new_lines = h.old_lines } ∷ [])
      ≡ ok lines
unfolding apply_lines
hunk_undone lines h at_ after found done =
    let (same, fits) = located_lines lines h.old_lines _ at_ found in
    let spliced : splice lines at_ h.old_lines h.new_lines ≡ after =
      ok-injective (rw (found, apply_lines) at done) in
    let again =
      locate_here (splice lines at_ h.old_lines h.new_lines) h.new_lines at_
        (splice-matches lines h.old_lines h.new_lines at_ fits)
        (omega (arith, fits, length-splice lines h.old_lines h.new_lines at_ fits)) in
    rw (← spliced, guess_at at_, again, apply_lines)
      (ap ok (splice_back lines h.old_lines h.new_lines at_ fits same))
