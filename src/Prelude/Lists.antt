-- ===== src/Prelude/Lists.antt =====
-- Lists measured by native numbers, and the loops over lists that the components share.
use Prim.Native.Nat.{ℕ, zero, suc, ◌+◌, ◌-◌, min}
use mathlib.Core.Path.{◌≡◌, refl, sym, ap, ap₂}
use mathlib.Core.Logic.{◌⊎◌, inl, inr}
use mathlib.Core.Option.{Option, none, some}
use mathlib.Core.Bool.{Bool, true, false, true≢false, ◌&&◌, ◌||◌}
use mathlib.Core.List.{List, [], ◌∷◌, ◌++◌, map}
use native.Mathlib.Nat.{zero-add, add-zero, suc-add}
use native.Mathlib.Omega.{arith}
use generic_coding_agent.Prelude.Tests.{Bool-cases, if◌then◌else◌}

module _ {ℓ} {A : Type ℓ} where
  abbrev pub length : List A → ℕ
  length [] = 0
  length (x ∷ xs) = suc (length xs)

  abbrev pub take : ℕ → List A → List A
  take zero xs = []
  take (suc n) [] = []
  take (suc n) (x ∷ xs) = x ∷ take n xs

  abbrev pub drop : ℕ → List A → List A
  drop zero xs = xs
  drop (suc n) [] = []
  drop (suc n) (x ∷ xs) = drop n xs

  -- `xs[i]`, or `d` out of range
  abbrev pub get_or : List A → ℕ → A → A
  get_or [] i d = d
  get_or (x ∷ xs) zero d = x
  get_or (x ∷ xs) (suc i) d = get_or xs i d

  abbrev pub keep_if : (A → Bool) → List A → List A
  keep_if p [] = []
  keep_if p (x ∷ xs) = let rest = keep_if p xs in if p x then x ∷ rest else rest

  abbrev pub any : (A → Bool) → List A → Bool
  any p [] = false
  any p (x ∷ xs) = p x || any p xs

  abbrev pub all : (A → Bool) → List A → Bool
  all p [] = true
  all p (x ∷ xs) = p x && all p xs

-- Membership by recursion, which proofs take apart into any type.
module _ {A : Type 0} where
  abbrev pub In : A → List A → Type 0
  In a [] = ⊥
  In a (x ∷ xs) = (a ≡ x) ⊎ In a xs

  -- What a loop that keeps the elements with a property returns, element by element.
  pub In-keep_if :
      (p : A → Bool) (a : A) (xs : List A) → In a (keep_if p xs) → In a xs × (p a ≡ true)
  In-keep_if p a [] h = absurd h
  In-keep_if p a (x ∷ xs) h = ground (arith, In-keep_if p a xs)

  pub keep_if-In : (p : A → Bool) (a : A) (xs : List A) → In a xs → p a ≡ true → In a (keep_if p xs)
  keep_if-In p a [] h e = absurd h
  keep_if-In p a (x ∷ xs) h e = ground (arith, keep_if-In p a xs)

  pub any-In : (p : A → Bool) (a : A) (xs : List A) → In a xs → p a ≡ true → any p xs ≡ true
  any-In p a [] h e = absurd h
  any-In p a (x ∷ xs) (inl q) e = rw (← q, e)
  any-In p a (x ∷ xs) (inr h) e = ground (arith, any-In p a xs h e)

pub any-false-In :
    {A : Type 0} (p : A → Bool) (a : A) (xs : List A) → any p xs ≡ false → In a xs → p a ≡ false
any-false-In p a [] e h = absurd h
any-false-In p a (x ∷ xs) e h = ground (arith, any-false-In p a xs)

pub In-append_left : {A : Type 0} (a : A) (ys xs : List A) → In a xs → In a (xs ++ ys)
In-append_left a ys [] h = absurd h
In-append_left a ys (x ∷ xs) (inl e) = inl e
In-append_left a ys (x ∷ xs) (inr h) = inr (In-append_left a ys xs h)

pub append_one-In : {A : Type 0} (a : A) (xs : List A) → In a (xs ++ a ∷ [])
append_one-In a [] = inl refl
append_one-In a (x ∷ xs) = inr (append_one-In a xs)

-- An appended element stands at the end.
pub In-append_one : {A : Type 0} (a b : A) (xs : List A) → In a (xs ++ b ∷ []) → In a xs ⊎ (a ≡ b)
In-append_one a b [] (inl e) = inr e
In-append_one a b [] (inr h) = absurd h
In-append_one a b (x ∷ xs) (inl e) = inl (inl e)
In-append_one a b (x ∷ xs) (inr h) = elim (In-append_one a b xs h) [
  | inl i ↦ inl (inr i)
  | inr e ↦ inr e
]

pub In-map :
    {A B : Type 0} (f : A → B) (b : B) (xs : List A)
    → In b (map f xs)
    → (a : A) × In a xs × (b ≡ f a)
In-map f b [] h = absurd h
In-map f b (x ∷ xs) (inl e) = (x, inl refl, e)
In-map f b (x ∷ xs) (inr h) = let (a, i, e) = In-map f b xs h in (a, inr i, e)

pub map-In : {A B : Type 0} (f : A → B) (a : A) (xs : List A) → In a xs → In (f a) (map f xs)
map-In f a [] h = absurd h
map-In f a (x ∷ xs) (inl e) = inl (ap f e)
map-In f a (x ∷ xs) (inr h) = inr (map-In f a xs h)

pub map-eq :
    {A B : Type 0} (f g : A → B) (xs : List A)
    → ((a : A) → In a xs → f a ≡ g a)
    → map f xs ≡ map g xs
map-eq f g [] h = refl
map-eq f g (x ∷ xs) h = ap₂ ◌∷◌ (h x (inl refl)) (map-eq f g xs (λ a i. h a (inr i)))

pub map-id : {A : Type 0} (f : A → A) (xs : List A) → ((a : A) → In a xs → f a ≡ a) → map f xs ≡ xs
map-id f [] h = refl
map-id f (x ∷ xs) h = ap₂ ◌∷◌ (h x (inl refl)) (map-id f xs (λ a i. h a (inr i)))

pub map-compose :
    {A B C : Type 0} (g : B → C) (f : A → B) (xs : List A)
    → map g (map f xs) ≡ map (λ a. g (f a)) xs
map-compose g f [] = refl
map-compose g f (x ∷ xs) = ap (◌∷◌ (g (f x))) (map-compose g f xs)

module _ {ℓ} {A : Type ℓ} where
  pub length-append : (xs ys : List A) → length (xs ++ ys) ≡ length xs + length ys
  length-append [] ys = omega arith
  length-append (x ∷ xs) ys = omega (arith, length-append xs ys)

  pub length-take : (n : ℕ) (xs : List A) → length (take n xs) ≡ min n (length xs)
  length-take zero xs = omega arith
  length-take (suc n) [] = omega arith
  length-take (suc n) (x ∷ xs) = omega (arith, length-take n xs)

  pub length-drop : (n : ℕ) (xs : List A) → length (drop n xs) ≡ length xs - n
  length-drop zero xs = omega arith
  length-drop (suc n) [] = omega arith
  length-drop (suc n) (x ∷ xs) = omega (arith, length-drop n xs)

  pub take-append-drop : (n : ℕ) (xs : List A) → take n xs ++ drop n xs ≡ xs
  take-append-drop zero xs = refl
  take-append-drop (suc n) [] = refl
  take-append-drop (suc n) (x ∷ xs) = ap (◌∷◌ x) (take-append-drop n xs)

  pub drop-add : (m n : ℕ) (xs : List A) → drop (m + n) xs ≡ drop n (drop m xs)
  drop-add zero n xs = rw zero-add
  drop-add (suc m) zero [] = rw add-zero
  drop-add (suc m) (suc n) [] = rw suc-add
  drop-add (suc m) n (x ∷ xs) = rw suc-add (drop-add m n xs)

  -- Cutting a list where its first part ends.
  pub take-append_length : (n : ℕ) (xs ys : List A) → n ≡ length xs → take n (xs ++ ys) ≡ xs
  take-append_length zero [] ys h = refl
  take-append_length zero (x ∷ xs) ys h = absurd (omega arith)
  take-append_length (suc n) [] ys h = absurd (omega arith)
  take-append_length (suc n) (x ∷ xs) ys h = ap (◌∷◌ x) (take-append_length n xs ys (omega arith))

  pub drop-append_length : (n : ℕ) (xs ys : List A) → n ≡ length xs → drop n (xs ++ ys) ≡ ys
  drop-append_length zero [] ys h = refl
  drop-append_length zero (x ∷ xs) ys h = absurd (omega arith)
  drop-append_length (suc n) [] ys h = absurd (omega arith)
  drop-append_length (suc n) (x ∷ xs) ys h = drop-append_length n xs ys (omega arith)

-- `SELECT ... LIMIT 1`, or the first hit of a loop.
unfoldable pub find_first : {A : Type 0} → (A → Bool) → List A → Option A
find_first p [] = none
find_first p (x ∷ xs) = let rest = find_first p xs in if p x then some x else rest

pub find_first-In :
    {A : Type 0} (p : A → Bool) (xs : List A) (a : A)
    → find_first p xs ≡ some a
    → In a xs × (p a ≡ true)
unfolding find_first
find_first-In p [] a h = cc
find_first-In p (x ∷ xs) a h = ground (arith, find_first-In p xs a)

pub any-find_first :
    {A : Type 0} (p : A → Bool) (xs : List A)
    → any p xs ≡ true
    → (a : A) × (find_first p xs ≡ some a)
unfolding find_first
any-find_first p [] h = absurd (true≢false (sym h))
any-find_first p (x ∷ xs) h = elim (Bool-cases (p x)) [
  | inl e ↦ (x, rw e refl)
  | inr e ↦
      let rest : any p xs ≡ true = ground arith in
      let (a, f) = any-find_first p xs rest in (a, rw (e, f) refl)
]
