-- ===== src/Cost/Pricing.antt =====
-- src/cost.rs: the prices of models and the cost of a request.
use kou_router.Prelude.{
  ℕ, String, Bool, Option, none, some, List, [], ◌∷◌, any, if◌then◌else◌, unwrap_or, map_option,
  and_then,
}
use kou_router.Text.{to_ascii_lowercase, after_last, starts_with}
use kou_router.Cost.{UsageInfo}

-- Prices in thousandths of a dollar per million tokens.
pub record ModelPricing : Type 0 where
  pub input_per_million : ℕ
  pub output_per_million : ℕ
  pub cache_read_per_million : Option ℕ
  pub cache_write_per_million : Option ℕ

abbrev pub priced : ℕ → ℕ → Option ℕ → Option ℕ → ModelPricing
priced input output cache_read cache_write = record {
  input_per_million = input;
  output_per_million = output;
  cache_read_per_million = cache_read;
  cache_write_per_million = cache_write;
}

-- The branches of `get_model_pricing` in their order, each with the prefixes of its condition.
abbrev pub branches : List (List String × ModelPricing)
branches =
    (
      "claude-sonnet-4" ∷ "claude-3-5-sonnet" ∷ "claude-3.5-sonnet" ∷ [],
      priced 3000 15000 (some 300) (some 3750),
    )
    ∷ (
      "claude-opus-4" ∷ "claude-3-opus" ∷ "claude-3.5-opus" ∷ [],
      priced 15000 75000 (some 1500) (some 18750),
    )
    ∷ ("claude-3-haiku" ∷ "claude-3.5-haiku" ∷ [], priced 800 4000 (some 80) (some 1000))
    ∷ ("gpt-4o-mini" ∷ [], priced 150 600 (some 75) none)
    ∷ ("gpt-4o" ∷ "chatgpt-4o" ∷ [], priced 2500 10000 (some 1250) none)
    ∷ ("gpt-4-turbo" ∷ [], priced 10000 30000 none none)
    ∷ ("o1-mini" ∷ "o3-mini" ∷ [], priced 1100 4400 (some 550) none)
    ∷ ("o1" ∷ "o3" ∷ "o4-mini" ∷ [], priced 15000 60000 (some 7500) none)
    ∷ ("gemini-2.0-flash" ∷ "gemini-2.5-flash" ∷ [], priced 75 300 none none)
    ∷ ("gemini-2.0-pro" ∷ "gemini-2.5-pro" ∷ "gemini-1.5-pro" ∷ [], priced 1250 5000 none none)
    ∷ ("deepseek-chat" ∷ "deepseek-v" ∷ [], priced 140 280 (some 14) none)
    ∷ ("deepseek-reasoner" ∷ [], priced 550 2190 (some 140) none)
    ∷ ("mistral-large" ∷ "mistral-medium" ∷ [], priced 2000 6000 none none)
    ∷ ("mistral-small" ∷ "codestral" ∷ [], priced 100 300 none none)
    ∷ []

abbrev pub starts_with_any : List String → String → Bool
starts_with_any prefixes name = any (λ prefix. starts_with name prefix) prefixes

-- The first branch that applies, else the conservative default.
unfoldable pub pricing_in : List (List String × ModelPricing) → String → ModelPricing
pricing_in [] name = priced 3000 15000 none none
pricing_in ((prefixes, pricing) ∷ rest) name =
    if starts_with_any prefixes name then pricing else pricing_in rest name

unfoldable pub get_model_pricing : String → ModelPricing
unfolding to_ascii_lowercase after_last pricing_in
get_model_pricing model = pricing_in branches (after_last b'/' (to_ascii_lowercase model))

-- `f64`: a literal in thousandths, `tokens as f64 / 1_000_000.0`, products, sums and `0.0`.
pub record Money : Type 1 where
  pub F64 : Type 0
  pub literal : ℕ → F64
  pub millions : ℕ → F64
  pub times : F64 → F64 → F64
  pub plus : F64 → F64 → F64
  pub nothing : F64

module _ (m : Money) where
  abbrev pub cost_of : ℕ → ℕ → m.F64
  cost_of tokens price = m.times (m.millions tokens) (m.literal price)

  -- `zip` of the tokens and the price.
  abbrev pub cache_cost : Option ℕ → Option ℕ → m.F64
  cache_cost tokens price =
      unwrap_or m.nothing (and_then tokens (λ t. map_option (cost_of t) price))

  unfoldable pub cost_with : ModelPricing → UsageInfo → m.F64
  cost_with pricing usage =
      m.plus
        (m.plus
          (m.plus (cost_of usage.input_tokens pricing.input_per_million)
            (cost_of usage.output_tokens pricing.output_per_million))
          (cache_cost usage.cache_read_tokens pricing.cache_read_per_million))
        (cache_cost usage.cache_creation_tokens pricing.cache_write_per_million)

  unfoldable pub calculate_cost : String → UsageInfo → m.F64
  unfolding get_model_pricing cost_with
  calculate_cost model usage = cost_with (get_model_pricing model) usage
