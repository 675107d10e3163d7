-- ===== src/Fallback/Resume.antt =====
-- A saved failover position is taken up again.
use generic_coding_agent.Prelude.{
  ◌≡◌, refl, sym, subst, ◌∙◌, ℕ, suc, zero, ◌<◌, String, Bool, true, false, none, some, List, [],
  ◌∷◌, length, any, arith, Bool-cases, inl, inr, either_false,
}
use generic_coding_agent.Prelude.Text.{str_eq, eq_iff, is_blank}
use generic_coding_agent.Json.{Json}
use generic_coding_agent.Fallback.{
  Chain, has_repeats, check_chain, name_at, index_of, get_field, is_wrapped, restored_index,
  get_state, set_state,
}

true≢false : true ≡ false → ⊥
true≢false h = cc

-- A test that fails on every name fails on the one at a place.
any-name_at :
    (test : String → Bool) (names : List String) (index : ℕ)
    → any test names ≡ false
    → index < length names
    → test (name_at index names) ≡ false
unfolding name_at
any-name_at test [] index none_ inside = absurd (omega arith)
any-name_at test (name ∷ names) zero none_ inside =
    (either_false (test name) (any test names) none_).0
any-name_at test (name ∷ names) (suc index) none_ inside =
    any-name_at test names index (either_false (test name) (any test names) none_).1 (omega arith)

str_eq_sym : (a b : String) → str_eq a b ≡ false → str_eq b a ≡ false
str_eq_sym a b h = elim (Bool-cases (str_eq b a)) [
  | inl e ↦ absurd (true≢false (sym ((eq_iff a b).1 (sym ((eq_iff b a).0 e))) ∙ h))
  | inr f ↦ f
]

index_of-name_at :
    (names : List String) (index : ℕ)
    → has_repeats names ≡ false
    → index < length names
    → index_of (name_at index names) names ≡ some index
unfolding index_of name_at has_repeats
index_of-name_at [] index unique inside = absurd (omega arith)
index_of-name_at (name ∷ names) zero unique inside = rw ((eq_iff name name).1 refl) refl
index_of-name_at (name ∷ names) (suc index) unique inside =
    let (once, rest) =
      either_false (any (λ other. str_eq other name) names) (has_repeats names) unique in
    let other = any-name_at (λ other. str_eq other name) names index once (omega arith) in
    rw
      (str_eq_sym (name_at index names) name other, index_of-name_at names index rest (omega arith))
      refl

-- A chain that was accepted has neither blank nor repeated names.
check_chain-parts :
    (names : List String)
    → check_chain names ≡ none
    → (any is_blank names ≡ false) × (has_repeats names ≡ false)
unfolding check_chain
check_chain-parts [] h = absurd (ground (arith, h))
check_chain-parts (name ∷ names) h = ground (arith, h)

empty-blank : (name : String) → is_blank name ≡ false → str_eq name "" ≡ false
unfolding is_blank
empty-blank name h = elim (Bool-cases (str_eq name "")) [
  | inl e ↦ absurd (true≢false (subst (λ n. is_blank n ≡ false) ((eq_iff name "").0 e) h))
  | inr f ↦ f
]

-- A state that a failover provider saved, taken up by another with the same accepted chain, whatever
-- its place, makes the provider that was active the active one, and gives it its own state.
pub set_state-get_state :
    (chain : Chain) (index other : ℕ) (w w' : chain.W)
    → check_chain chain.names ≡ none
    → index < length chain.names
    → set_state chain (Json.object (get_state chain index w)) other w'
      ≡ (index, chain.set_state_at index (chain.get_state_at index w) w')
unfolding set_state get_state is_wrapped restored_index get_field
set_state-get_state chain index other w w' accepted inside =
    let (named, unique) = check_chain-parts chain.names accepted in
    let some_name = empty-blank _ (any-name_at is_blank chain.names index named inside) in
    rw (some_name, index_of-name_at chain.names index unique inside) refl
