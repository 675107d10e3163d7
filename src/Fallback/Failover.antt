-- ===== src/Fallback/Failover.antt =====
-- Where a completion stops in the chain.
use generic_coding_agent.Prelude.{
  ◌≡◌, refl, ap, ℕ, suc, zero, ◌+◌, ◌-◌, ◌≤◌, ◌<◌, String, Bool, true, false, length, arith, ◌⊎◌,
  inl, inr,
}
use generic_coding_agent.Fallback.{Attempt, replied, failed, Chain, complete_from, complete}

-- The attempt is a retryable error.
abbrev pub is_retryable : {R : Type 0} → Attempt R → Bool
is_retryable (replied r) = false
is_retryable (failed retryable message) = retryable

attempt-cases :
    {R : Type 0} (a : Attempt R)
    → ((r : R) × (a ≡ replied r))
      ⊎ ((m : String) × (a ≡ failed false m))
      ⊎ ((m : String) × (a ≡ failed true m))
attempt-cases (replied r) = inl (r, refl)
attempt-cases (failed false m) = inr (inl (m, refl))
attempt-cases (failed true m) = inr (inr (m, refl))

module _ (chain : Chain) where
  complete_from-cases :
      (left index : ℕ) (w : chain.W)
      → let c = complete_from chain left index w in
        (c.index ≡ index + length c.failovers)
        × (length c.failovers ≤ left)
        × ((is_retryable c.attempt ≡ false) ⊎ (length c.failovers ≡ left))
  unfolding complete_from
  complete_from-cases zero index w = (omega arith, omega arith, inr refl)
  complete_from-cases (suc left) index w = elim (attempt-cases (chain.complete_at index w).0) [
    | inl (r, e) ↦ rw (e, complete_from) (omega arith, omega arith, inl (ap is_retryable e))
    | inr (inl (m, e)) ↦ rw (e, complete_from) (omega arith, omega arith, inl (ap is_retryable e))
    | inr (inr (m, e)) ↦
        let (moved, few, ends) =
          complete_from-cases left (suc index) (chain.complete_at index w).1 in
        rw (e, complete_from)
          (omega arith, omega arith, elim ends [ inl f ↦ inl f | inr f ↦ inr (ap suc f) ])
  ]

  -- A completion from a place in the chain moves on by one for each failover that it reports, never
  -- leaves the chain, and hands a retryable error on only from the last provider.
  pub complete_cases :
      (index : ℕ) (w : chain.W)
      → index < length chain.names
      → let c = complete chain index w in
        (c.index ≡ index + length c.failovers)
        × (c.index < length chain.names)
        × ((is_retryable c.attempt ≡ false) ⊎ (suc c.index ≡ length chain.names))
  unfolding complete
  complete_cases index w inside =
      let (moved, few, ends) = complete_from-cases (length chain.names - 1 - index) index w in
      (moved, omega arith, elim ends [ inl e ↦ inl e | inr e ↦ inr (omega arith) ])
