-- ===== src/Pricing/Cost.antt =====
-- internal/pricing/pricing.go: the cost of the tokens of text: inputBreakdown, computeCost,
-- resolveTextTier, CostWithCacheCreation, Cost and CostText.
pub mod Input
pub mod NotNegative
pub mod Tier
use metering_proxy.Common.{
  Bool, true, false, not, ◌&&◌, Option, none, some, [], Bytes, if◌then◌else◌,
}
use metering_proxy.Common.Int64.{ℤ, pos, is_pos, ltb_ℤ, sub64}
use metering_proxy.Pricing.{Float, ModelPrice, LongContextPrice, TextTokenUsage}
use metering_proxy.Pricing.Names.{Table, lookup}
use Input.{Breakdown, input_breakdown}

module _ {F : Type 0} (float : Float F) where
  -- float64(n) / 1_000_000.0 * rate
  unfoldable pub charge : ℤ → F → F
  charge n rate = float.mul (float.div (float.of_int64 n) float.million) rate

  add_if : Bool → F → F → F
  add_if b cost x = if b then float.add cost x else cost

  unfoldable pub input_cost : ModelPrice F → Breakdown → F
  unfolding charge add_if
  input_cost mp b =
      let cached = add_if (is_pos b.cached) float.nought (charge b.cached mp.cached_input_per_1m) in
      let plain = add_if (is_pos b.non_cached) cached (charge b.non_cached mp.input_per_1m) in
      if is_pos b.creation && float.above_zero mp.cache_creation_per_1m
      then float.add plain (charge b.creation mp.cache_creation_per_1m)
      else add_if (is_pos b.creation) plain (charge b.creation mp.input_per_1m)

  unfoldable pub output_cost : ModelPrice F → F → ℤ → ℤ → F
  unfolding charge add_if
  output_cost mp cost output reasoning =
      let regular = sub64 output reasoning in
      if is_pos reasoning && float.above_zero mp.reasoning_per_1m
      then float.add (add_if (is_pos regular) cost (charge regular mp.output_per_1m))
          (charge reasoning mp.reasoning_per_1m)
      else float.add cost (charge output mp.output_per_1m)

  unfoldable pub compute_cost : ModelPrice F → ℤ → ℤ → ℤ → ℤ → ℤ → F
  unfolding input_cost output_cost input_breakdown
  compute_cost mp input output reasoning cached creation =
      output_cost mp (input_cost mp (input_breakdown input cached creation)) output reasoning

  -- `none` is a price that is not known.
  unfoldable pub cost_with_cache_creation :
      Table (ModelPrice F) → Bytes → ℤ → ℤ → ℤ → ℤ → ℤ → Option F
  unfolding lookup compute_cost
  cost_with_cache_creation t model input output reasoning cached creation = elim (lookup t model) [
    | none ↦ none
    | some mp ↦ some (compute_cost mp input output reasoning cached creation)
  ]

  unfoldable pub cost : Table (ModelPrice F) → Bytes → ℤ → ℤ → ℤ → ℤ → Option F
  unfolding cost_with_cache_creation
  cost t model input output reasoning cached =
      cost_with_cache_creation t model input output reasoning cached (pos 0)

module _ {F : Type 0} where
  short_tier : ModelPrice F → ModelPrice F
  short_tier mp = record mp { long_context = none; aliases = [] }

  -- The fields that the composite literal leaves out are zero.
  long_tier : LongContextPrice F → ModelPrice F
  long_tier lc = record {
    input_per_1m = lc.input_per_1m;
    cached_input_per_1m = lc.cached_input_per_1m;
    output_per_1m = lc.output_per_1m;
    reasoning_per_1m = lc.reasoning_per_1m;
    cache_creation_per_1m = lc.cache_creation_per_1m;
    aliases = [];
    long_context = none;
  }

  unfoldable pub tier_of : ModelPrice F → Option (LongContextPrice F) → ℤ → ModelPrice F
  unfolding short_tier long_tier
  tier_of mp none request = short_tier mp
  tier_of mp (some lc) request =
      if ltb_ℤ request lc.threshold_input_tokens then short_tier mp else long_tier lc

  unfoldable pub resolve_text_tier : ModelPrice F → ℤ → ModelPrice F
  unfolding tier_of
  resolve_text_tier mp request = tier_of mp mp.long_context request

module _ {F : Type 0} (float : Float F) where
  unfoldable pub cost_of_usage : ModelPrice F → TextTokenUsage → F
  unfolding compute_cost
  cost_of_usage mp u =
      compute_cost float mp u.input_tokens u.output_tokens u.reasoning_tokens u.cached_tokens
        u.cache_creation_tokens

  unfoldable pub cost_text : Table (ModelPrice F) → Bytes → TextTokenUsage → Option F
  unfolding lookup resolve_text_tier cost_of_usage
  cost_text t model u = elim (lookup t model) [
    | none ↦ none
    | some mp ↦ some (cost_of_usage (resolve_text_tier mp u.request_input_tokens) u)
  ]
