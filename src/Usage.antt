-- ===== src/Usage.antt =====
-- gca/usage.py: token and cost totals across completions. The totals' token counts are integers; costs, and
-- all that is kept of one model, are Python floats: their type, their zero, their addition and the conversion
-- of an integer are parameters. The dictionary of a session is kept as the record it is read into.
pub mod Totals
use generic_coding_agent.Prelude.{
  ℕ, ◌+◌, ◌==◌, String, Bool, true, false, Option, none, some, List, [], ◌∷◌, if◌then◌else◌,
}
use generic_coding_agent.Prelude.Int.{ℤ, pos_part, neg_part}
use generic_coding_agent.Prelude.Text.{str_eq, strip}

pub record Floats : Type 1 where
  pub Float : Type 0
  pub zero_float : Float
  pub add_float : Float → Float → Float
  pub of_int : ℕ → Float

module _ (floats : Floats) where
  open floats use {Float, zero_float, add_float, of_int}

  pub record LlmUsage : Type 0 where
    pub prompt_tokens : ℤ
    pub completion_tokens : ℤ
    pub total_tokens : ℤ
    pub cost_usd : Option Float
    pub model : String

  -- One entry of `by_model`.
  pub record Bucket : Type 0 where
    pub prompt_tokens : Float
    pub completion_tokens : Float
    pub total_tokens : Float
    pub cost_usd : Float

  -- What one completion adds.
  pub record Amounts : Type 0 where
    pub prompt_tokens : ℕ
    pub completion_tokens : ℕ
    pub total_tokens : ℕ
    pub cost_usd : Float

  pub record LlmUsageTotals : Type 0 where
    pub prompt_tokens : ℕ
    pub completion_tokens : ℕ
    pub total_tokens : ℕ
    pub cost_usd : Float
    pub by_model : List (String × Bucket)

  abbrev pub no_usage : LlmUsageTotals
  no_usage = record {
    prompt_tokens = 0;
    completion_tokens = 0;
    total_tokens = 0;
    cost_usd = zero_float;
    by_model = [];
  }

  abbrev pub empty_bucket : Bucket
  empty_bucket = record {
    prompt_tokens = zero_float;
    completion_tokens = zero_float;
    total_tokens = zero_float;
    cost_usd = zero_float;
  }

  abbrev pub plus : Bucket → Bucket → Bucket
  plus a b = record {
    prompt_tokens = add_float a.prompt_tokens b.prompt_tokens;
    completion_tokens = add_float a.completion_tokens b.completion_tokens;
    total_tokens = add_float a.total_tokens b.total_tokens;
    cost_usd = add_float a.cost_usd b.cost_usd;
  }

  -- `setdefault` with an empty bucket, and the additions to it.
  unfoldable pub add_to : String → Bucket → List (String × Bucket) → List (String × Bucket)
  add_to model b [] = (model, plus empty_bucket b) ∷ []
  add_to model b ((name, a) ∷ buckets) =
      if str_eq name model then (name, plus a b) ∷ buckets else (name, a) ∷ add_to model b buckets

  abbrev pub or_unknown : String → String
  or_unknown name = if str_eq name "" then "unknown" else name

  -- The amounts that one completion adds: negative counts are dropped, and a total of zero is taken
  -- as not given.
  unfoldable pub amounts : LlmUsage → Amounts
  amounts usage =
      let prompt = pos_part usage.prompt_tokens in
      let completion = pos_part usage.completion_tokens in
      record {
        prompt_tokens = prompt;
        completion_tokens = completion;
        total_tokens =
            if pos_part usage.total_tokens + neg_part usage.total_tokens == 0
            then prompt + completion
            else pos_part usage.total_tokens;
        cost_usd = elim usage.cost_usd [ none ↦ zero_float | some c ↦ c ];
      }

  -- `+=` with an integer on the right converts it.
  abbrev pub as_floats : Amounts → Bucket
  as_floats x = record {
    prompt_tokens = of_int x.prompt_tokens;
    completion_tokens = of_int x.completion_tokens;
    total_tokens = of_int x.total_tokens;
    cost_usd = x.cost_usd;
  }

  unfoldable pub merge_usage : LlmUsageTotals → Option LlmUsage → LlmUsageTotals
  unfolding amounts
  merge_usage totals none = totals
  merge_usage totals (some usage) =
      let b = amounts usage in
      record {
        prompt_tokens = totals.prompt_tokens + b.prompt_tokens;
        completion_tokens = totals.completion_tokens + b.completion_tokens;
        total_tokens = totals.total_tokens + b.total_tokens;
        cost_usd = add_float totals.cost_usd b.cost_usd;
        by_model =
            add_to (or_unknown (strip (or_unknown usage.model))) (as_floats b) totals.by_model;
      }

  -- The loop over `right.by_model`.
  unfoldable pub add_all : List (String × Bucket) → List (String × Bucket) → List (String × Bucket)
  add_all [] into = into
  add_all ((name, b) ∷ buckets) into = add_all buckets (add_to name b into)

  unfoldable pub merge_totals : LlmUsageTotals → LlmUsageTotals → LlmUsageTotals
  merge_totals left right = record {
    prompt_tokens = left.prompt_tokens + right.prompt_tokens;
    completion_tokens = left.completion_tokens + right.completion_tokens;
    total_tokens = left.total_tokens + right.total_tokens;
    cost_usd = add_float left.cost_usd right.cost_usd;
    by_model = add_all right.by_model left.by_model;
  }
