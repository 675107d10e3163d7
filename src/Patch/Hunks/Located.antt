-- ===== src/Patch/Hunks/Located.antt =====
-- Where `_locate` finds a hunk, and when it gives up.
use native.Mathlib.Decide.{ℕ_discrete}
use generic_coding_agent.Prelude.{
  ℕ, zero, suc, ◌+◌, ◌-◌, ◌≤◌, ◌<◌, ◌≡◌, ap, inl, inr, true, false, none, some, List, [], ◌∷◌,
  arith, length, take, drop, length-take, length-drop, Bool-cases,
}
use generic_coding_agent.Patch.Text.{Text}
use generic_coding_agent.Patch.Text.Equality.{lines_eq-eq}
use generic_coding_agent.Patch.Parse.{ok, err, PatchError}
use generic_coding_agent.Patch.Hunks.{matches_at, scan, offsets, locate, search_window}

-- A match lies inside the file.
pub matches_at-fits :
    (haystack needle : List Text) (at_ : ℕ)
    → matches_at haystack needle at_ ≡ true
    → 0 < length needle
    → (take (length needle) (drop at_ haystack) ≡ needle) × (at_ + length needle ≤ length haystack)
unfolding matches_at
matches_at-fits haystack needle at_ h nonempty =
    let same = lines_eq-eq (take (length needle) (drop at_ haystack)) needle h in
    (
      same,
      omega (
        arith,
        ap length same,
        length-take (length needle) (drop at_ haystack),
        length-drop at_ haystack,
      ),
    )

scan-some :
    (haystack needle : List Text) (count from at_ : ℕ)
    → scan haystack needle count from ≡ some at_
    → (from ≤ at_) × (at_ < from + count) × (matches_at haystack needle at_ ≡ true)
unfolding scan
scan-some haystack needle zero from at_ h = cc
scan-some haystack needle (suc count) from at_ h =
    ground (arith, scan-some haystack needle count (suc from) at_)

scan-none :
    (haystack needle : List Text) (count from at_ : ℕ)
    → scan haystack needle count from ≡ none
    → from ≤ at_
    → at_ < from + count
    → matches_at haystack needle at_ ≡ false
unfolding scan
scan-none haystack needle zero from at_ h lo hi = absurd (omega arith)
scan-none haystack needle (suc count) from at_ h lo hi = elim (ℕ_discrete from at_) [
  | yes same ↦ ground (arith, ap (matches_at haystack needle) same)
  | no other ↦ ground (arith, scan-none haystack needle count (suc from) at_)
]

-- What `_locate` returns, by the branch taken.
locate-ok :
    (haystack : List Text) (n : Text) (needle : List Text) (guess at_ : ℕ)
    → locate haystack (n ∷ needle) guess ≡ ok at_
    → (matches_at haystack (n ∷ needle) at_ ≡ true) × (at_ ≤ guess + 200) × (guess ≤ at_ + 200)
unfolding locate offsets
locate-ok haystack n needle guess at_ h = ground (
  arith,
  scan-some haystack (n ∷ needle) (offsets (length haystack) (length (n ∷ needle)) guess)
      (guess - search_window) at_,
)

-- A position that `_locate` returns for a hunk with old lines is one where exactly these lines
-- stand, inside the file and at most 200 lines from the guess.
pub locate_sound :
    (haystack needle : List Text) (guess at_ : ℕ)
    → 0 < length needle
    → locate haystack needle guess ≡ ok at_
    → (take (length needle) (drop at_ haystack) ≡ needle)
      × (at_ + length needle ≤ length haystack)
      × (at_ ≤ guess + 200)
      × (guess ≤ at_ + 200)
unfolding locate
locate_sound haystack [] guess at_ nonempty h = absurd (omega arith)
locate_sound haystack (n ∷ needle) guess at_ nonempty h =
    let (found, hi, lo) = locate-ok haystack n needle guess at_ h in
    let (same, fits) = matches_at-fits haystack (n ∷ needle) at_ found nonempty in
    (same, fits, hi, lo)

-- When `_locate` gives up, the hunk's old lines stand nowhere within 200 lines of the guess.
pub locate_complete :
    (haystack needle : List Text) (guess at_ : ℕ)
    → locate haystack needle guess ≡ err PatchError.context_not_found
    → at_ ≤ guess + 200
    → guess ≤ at_ + 200
    → matches_at haystack needle at_ ≡ false
unfolding locate offsets
locate_complete haystack [] guess at_ h hi lo = cc
locate_complete haystack (n ∷ needle) guess at_ h hi lo =
    elim (Bool-cases (matches_at haystack (n ∷ needle) at_)) [
      | inr f ↦ f
      | inl t ↦ ground (
        arith,
        (matches_at-fits haystack (n ∷ needle) at_ t (omega arith)).1,
        scan-none haystack (n ∷ needle) (offsets (length haystack) (length (n ∷ needle)) guess)
            (guess - search_window) at_,
      )
    ]
