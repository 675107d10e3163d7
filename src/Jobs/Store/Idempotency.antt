-- ===== src/Jobs/Store/Idempotency.antt =====
-- Creation under an idempotency key: one job for a key, however often and by whomever it is asked for.
use generic_coding_agent.Prelude.{◌≡◌, String, Bool, true, false, ◌&&◌, none, some}
use generic_coding_agent.Prelude.Int.{ℤ, pos, leb_ℤ}
use generic_coding_agent.Prelude.Text.{opt_eq, is_blank}
use generic_coding_agent.Jobs.Models.{RunSpec}
use generic_coding_agent.Jobs.Store.Table.{Row}
use generic_coding_agent.Jobs.Store.Validate.{validate_run_spec}

abbrev has_key : String → Row → Bool
has_key key r = opt_eq r.idempotency_key (some key)

-- The checks that `create` makes of its arguments.
abbrev pub Accepts : RunSpec → String → ℤ → Type 0
Accepts spec key n =
    (validate_run_spec spec ≡ none)
    × ((leb_ℤ (pos 1) n && leb_ℤ n (pos 20)) ≡ true)
    × (is_blank key ≡ false)
