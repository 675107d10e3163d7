-- ===== src/Prelude/Unique.antt =====
-- A row that a test selects, where it selects one.
use mathlib.Core.Path.{◌≡◌, refl}
use mathlib.Core.Logic.{inl, inr}
use mathlib.Core.Bool.{Bool, true}
use mathlib.Core.List.{List, [], ◌∷◌}
use native.Mathlib.Omega.{arith}
use generic_coding_agent.Prelude.Tests.{Bool-cases}
use generic_coding_agent.Prelude.Lists.{length, keep_if, In}

-- A row that is selected.
pub selected :
    {A : Type 0} (test : A → Bool) (xs : List A)
    → length (keep_if test xs) ≡ 1
    → (z : A) × In z xs × (test z ≡ true)
selected test [] l = absurd (omega arith)
selected test (x ∷ xs) l = elim (Bool-cases (test x)) [
  | inl e ↦ (x, inl refl, e)
  | inr e ↦ let (z, i, t) = selected test xs (ground arith) in (z, inr i, t)
]
