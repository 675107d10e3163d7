-- ===== src/Patch/Text/Equality.antt =====
-- The comparisons of texts and of lists of lines decide equality.
use generic_coding_agent.Prelude.{◌≡◌, refl, true, List, [], ◌∷◌, arith}
use generic_coding_agent.Patch.Text.{Text, text_eq, lines_eq}

pub text_eq-eq : (a b : Text) → text_eq a b ≡ true → a ≡ b
unfolding text_eq
text_eq-eq [] [] h = refl
text_eq-eq [] (b ∷ bs) h = cc
text_eq-eq (a ∷ as_) [] h = cc
text_eq-eq (a ∷ as_) (b ∷ bs) h = ground (arith, text_eq-eq as_ bs)

pub text_eq_refl : (a : Text) → text_eq a a ≡ true
unfolding text_eq
text_eq_refl [] = refl
text_eq_refl (a ∷ as_) = ground (arith, text_eq_refl as_)

pub lines_eq-eq : (a b : List Text) → lines_eq a b ≡ true → a ≡ b
unfolding lines_eq
lines_eq-eq [] [] h = refl
lines_eq-eq [] (b ∷ bs) h = cc
lines_eq-eq (a ∷ as_) [] h = cc
lines_eq-eq (a ∷ as_) (b ∷ bs) h = ground (arith, text_eq-eq a b, lines_eq-eq as_ bs)

pub lines_eq_refl : (a : List Text) → lines_eq a a ≡ true
unfolding lines_eq
lines_eq_refl [] = refl
lines_eq_refl (a ∷ as_) = ground (arith, text_eq_refl a, lines_eq_refl as_)
