-- ===== src/Issues/Contracts.antt =====
-- What a unit of work keeps: a predicate on the tables that holds before it holds after, unless the
-- work raises. Chains keep what their parts keep.
pub mod Statements
pub mod Chains
pub mod Values
use generic_coding_agent.Prelude.{Bool, true, false, Option, none, some, if◌then◌else◌, ◌≡◌, refl}
use generic_coding_agent.Issues.Tables.{
  Tables, Work, WorkError, Worked, ok, err, ◌>>=◌, pure, unit_of_work, Outcome, committed, raised,
}

unfoldable pub Ensures : {A : Type 0} → (Tables → Type 0) → Worked A → Type 0
Ensures Q (ok a t) = Q t
Ensures Q (err e) = Unit {0}

pub Ensures-ok : {A : Type 0} (Q : Tables → Type 0) (a : A) (t : Tables) → Q t → Ensures Q (ok a t)
unfolding Ensures
Ensures-ok Q a t q = q

pub ok-Ensures : {A : Type 0} (Q : Tables → Type 0) (a : A) (t : Tables) → Ensures Q (ok a t) → Q t
unfolding Ensures
ok-Ensures Q a t h = h

pub Ensures-err : (A : Type 0) (Q : Tables → Type 0) (e : WorkError) → Ensures {A = A} Q (err e)
unfolding Ensures
Ensures-err A Q e = tt

-- From tables with P, a work that does not raise gives tables with Q.
pub record Contract {A : Type 0} (P : Tables → Type 0) (m : Work A) (Q : Tables → Type 0)
    : Type 0 where
  pub runs : (t : Tables) → P t → Ensures Q (m t)

abbrev pub Keeps : {A : Type 0} → (Tables → Type 0) → Work A → Type 0
Keeps P m = Contract P m P

ensured :
    {A B : Type 0} (R Q : Tables → Type 0) (w : Worked A) (f : A → Work B)
    → Ensures R w
    → ((a : A) → Contract R (f a) Q)
    → Ensures Q (elim w [ ok a t ↦ f a t | err e ↦ err e ])
unfolding Ensures
ensured R Q (ok a t) f h k = (k a).runs t h
ensured R Q (err e) f h k = search Ensures-err

module _ {A B : Type 0} {P R Q : Tables → Type 0} where
  pub Contract-chain :
      (m : Work A) (f : A → Work B)
      → Contract P m R
      → ((a : A) → Contract R (f a) Q)
      → Contract P (m >>= f) Q
  unfolding ◌>>=◌
  Contract-chain m f h k = record { runs = λ t p. ensured R Q (m t) f (h.runs t p) k }

module _ {A : Type 0} {P Q : Tables → Type 0} where
  pub Contract-if :
      (b : Bool) (m n : Work A)
      → (b ≡ true → Contract P m Q)
      → (b ≡ false → Contract P n Q)
      → Contract P (if b then m else n) Q
  Contract-if true m n h k = h refl
  Contract-if false m n h k = k refl

-- Both outcomes of a test within a statement.
pub Ensures-if :
    {A : Type 0} (Q : Tables → Type 0) (b : Bool) (w v : Worked A)
    → (b ≡ true → Ensures Q w)
    → (b ≡ false → Ensures Q v)
    → Ensures Q (if b then w else v)
Ensures-if Q true w v h k = h refl
Ensures-if Q false w v h k = k refl

pub Ensures-option :
    {A B : Type 0} (Q : Tables → Type 0) (o : Option B) (w : Worked A) (f : B → Worked A)
    → (o ≡ none → Ensures Q w)
    → ((b : B) → o ≡ some b → Ensures Q (f b))
    → Ensures Q (elim o [ none ↦ w | some b ↦ f b ])
Ensures-option Q none w f h k = h refl
Ensures-option Q (some b) w f h k = k b refl

-- A chain whose first part is known to return, or to raise.
pub chain_ok :
    {A B : Type 0} {P Q : Tables → Type 0} (m : Work A) (f : A → Work B) (t t' : Tables) (a : A)
    → m t ≡ ok a t'
    → Contract P (f a) Q
    → P t'
    → Ensures Q ((m >>= f) t)
unfolding ◌>>=◌
chain_ok m f t t' a e k p = rw (e, ◌>>=◌) (k.runs t' p)

pub chain_at :
    {A B : Type 0} (Q : Tables → Type 0) (m : Work A) (f : A → Work B) (t t' : Tables) (a : A)
    → m t ≡ ok a t'
    → Ensures Q (f a t')
    → Ensures Q ((m >>= f) t)
unfolding ◌>>=◌
chain_at Q m f t t' a e h = rw (e, ◌>>=◌) h

pub if_at :
    {A : Type 0} (Q : Tables → Type 0) (b : Bool) (m n : Work A) (t : Tables)
    → Ensures Q (m t)
    → Ensures Q (n t)
    → Ensures Q ((if b then m else n) t)
if_at Q true m n t h k = h
if_at Q false m n t h k = k

pub if_cases :
    {A : Type 0} (Q : Tables → Type 0) (b : Bool) (m n : Work A) (t : Tables)
    → Ensures Q (m t)
    → (b ≡ false → Ensures Q (n t))
    → Ensures Q ((if b then m else n) t)
if_cases Q true m n t h k = h
if_cases Q false m n t h k = k refl

pub chain_err :
    {A B : Type 0} (Q : Tables → Type 0) (m : Work A) (f : A → Work B) (t : Tables) (x : WorkError)
    → m t ≡ err x
    → Ensures Q ((m >>= f) t)
unfolding ◌>>=◌
chain_err Q m f t x e = rw (e, ◌>>=◌) (Ensures-err _ Q x)

pub unit_of_work-ok :
    {A : Type 0} (m : Work A) (t : Tables) (a : A) (t' : Tables)
    → m t ≡ ok a t'
    → unit_of_work m t ≡ (committed a, t')
unfolding unit_of_work
unit_of_work-ok m t a t' e = rw (e, unit_of_work) refl

settle :
    {A : Type 0} (P : Tables → Type 0) (t : Tables)
    → P t
    → (w : Worked A) → Ensures P w
    → P
        (elim w as (λ w. Outcome A × Tables) [
          | ok a t' ↦ (committed a, t')
          | err e ↦ (raised e, t)
        ]).1
unfolding Ensures
settle P t p (ok a t') h = h
settle P t p (err e) h = p

-- What holds of the tables before and after a success holds after the unit of work.
pub Ensures-result :
    {A : Type 0} (P : Tables → Type 0) (m : Work A) (t : Tables)
    → P t
    → Ensures P (m t)
    → P (unit_of_work m t).1
unfolding unit_of_work
Ensures-result P m t p h = settle P t p (m t) h

pub pure-Keeps : {A : Type 0} {P : Tables → Type 0} (a : A) → Keeps P (pure a)
unfolding pure
pure-Keeps a = record { runs = λ t p. Ensures-ok _ a t p }

pub Keeps-chain :
    {A B : Type 0} {P : Tables → Type 0} (m : Work A) (f : A → Work B)
    → Keeps P m
    → ((a : A) → Keeps P (f a))
    → Keeps P (m >>= f)
Keeps-chain m f h k = Contract-chain m f h k

pub ruleset ensures_rules = (Ensures-if, Ensures-ok, Ensures-err)

pub ruleset keeps_rules = (Keeps-chain, Contract-if, pure-Keeps)
