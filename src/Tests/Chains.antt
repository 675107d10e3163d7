-- ===== src/Tests/Chains.antt =====
-- A chain of two providers, the first of which does not respond.
use generic_coding_agent.Prelude.{
  ◌≡◌, refl, ℕ, zero, suc, ◌+◌, ◌<◌, String, true, false, ◌⊎◌, [], ◌∷◌, length, arith,
}
use generic_coding_agent.Prelude.Text.{is_blank}
use generic_coding_agent.Json.{Json, Fields}
use generic_coding_agent.Fallback.{
  Attempt, replied, failed, Chain, complete, check_chain, has_repeats, get_state, set_state,
}
use generic_coding_agent.Fallback.Failover.{is_retryable, complete_cases}
use generic_coding_agent.Fallback.Resume.{set_state-get_state}

abbrev respond : ℕ → ℕ → Attempt String × ℕ
respond zero w = (failed true "timeout", w + 1)
respond (suc index) w = (replied "hello", w + 1)

abbrev pair : Chain
pair = record {
  R = String;
  W = ℕ;
  names = "primary" ∷ "backup" ∷ [];
  complete_at = respond;
  get_state_at = λ index w. Fields.end;
  set_state_at = λ index state w. w;
}

complete_cases_example :
    ((complete pair 0 5).index ≡ 0 + length (complete pair 0 5).failovers)
    × ((complete pair 0 5).index < 2)
    × ((is_retryable (complete pair 0 5).attempt ≡ false) ⊎ (suc (complete pair 0 5).index ≡ 2))
complete_cases_example = complete_cases pair 0 5 (omega arith)

set_state-get_state_example : set_state pair (Json.object (get_state pair 1 5)) 0 7 ≡ (1, 7)
unfolding check_chain has_repeats is_blank
set_state-get_state_example = set_state-get_state pair 1 0 5 7 refl (omega arith)
