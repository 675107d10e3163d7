-- ===== src/Json.antt =====
-- The values of Python's `json` module, which the stores, the configuration and the tools read.
-- A number with a fraction is kept as a natural number of clock ticks: the code reads times so.
use generic_coding_agent.Prelude.{ℕ, String, Bool}
use generic_coding_agent.Prelude.Int.{ℤ}

mutual
  pub data Json : Type 0 where
    null : Json
    boolean : Bool → Json
    int : ℤ → Json
    float : ℕ → Json
    str : String → Json
    array : Items → Json
    object : Fields → Json

  pub data Items : Type 0 where
    nil : Items
    cons : Json → Items → Items

  pub data Fields : Type 0 where
    end : Fields
    field : String → Json → Fields → Fields
