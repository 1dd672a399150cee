-- ===== src/Pricing/Cost/Tier.antt =====
-- CostText against CostWithCacheCreation, which knows no tiers: a table whose prices are those of the
-- tier of the request, found by the same names.
use metering_proxy.Common.{
  ◌≡◌, refl, ◌∙◌, ap, Option, none, some, List, [], ◌∷◌, Bytes, if◌then◌else◌, Bool-cases, inl, inr,
  sym,
}
use metering_proxy.Common.Int64.{ℤ, ltb_ℤ}
use metering_proxy.Common.Trim.{bytes_eq}
use metering_proxy.Pricing.{Float, ModelPrice, LongContextPrice, TextTokenUsage}
use metering_proxy.Pricing.Names.{
  Table, find, by_alias, by_canonical, canonicalize, or_then, lookup,
}
use metering_proxy.Pricing.Cost.{
  tier_of, resolve_text_tier, compute_cost, input_cost, output_cost, cost_of_usage, cost_text,
  cost_with_cache_creation,
}

module _ {F : Type 0} where
  -- The price of a model with the rates of its long context.
  abbrev pub with_rates_of : LongContextPrice F → ModelPrice F → ModelPrice F
  with_rates_of lc mp = record mp {
    input_per_1m = lc.input_per_1m;
    cached_input_per_1m = lc.cached_input_per_1m;
    output_per_1m = lc.output_per_1m;
    reasoning_per_1m = lc.reasoning_per_1m;
    cache_creation_per_1m = lc.cache_creation_per_1m;
  }

  -- The price of a model for a request: the long rates from the threshold on.
  unfoldable pub rates_for : ℤ → Option (LongContextPrice F) → ModelPrice F → ModelPrice F
  rates_for request none mp = mp
  rates_for request (some lc) mp =
      if ltb_ℤ request lc.threshold_input_tokens then mp else with_rates_of lc mp

  unfoldable pub models_for : ℤ → List (Bytes × ModelPrice F) → List (Bytes × ModelPrice F)
  unfolding rates_for
  models_for request [] = []
  models_for request ((name, mp) ∷ models) =
      (name, rates_for request mp.long_context mp) ∷ models_for request models

  -- A table as one request sees it.
  unfoldable pub table_for : ℤ → Table (ModelPrice F) → Table (ModelPrice F)
  unfolding models_for
  table_for request t = record { models = models_for request t.models; alias_index = t.alias_index }

  price_for : ℤ → Option (ModelPrice F) → Option (ModelPrice F)
  price_for request none = none
  price_for request (some mp) = some (rates_for request mp.long_context mp)

  find-models_for :
      (request : ℤ) (key : Bytes) (models : List (Bytes × ModelPrice F))
      → find key (models_for request models) ≡ price_for request (find key models)
  unfolding find models_for price_for
  find-models_for request key [] = refl
  find-models_for request key ((name, mp) ∷ models) = elim (Bool-cases (bytes_eq key name)) [
    | inl e ↦ rw e refl
    | inr e ↦ rw e (find-models_for request key models)
  ]

  by_alias-table_for :
      (request : ℤ) (t : Table (ModelPrice F)) (model : Bytes)
      → by_alias (table_for request t) model ≡ price_for request (by_alias t model)
  unfolding by_alias table_for price_for
  by_alias-table_for request t model = at (find model t.alias_index)
    where
      at :
          (o : Option Bytes)
          → elim o [ none ↦ none | some name ↦ find name (models_for request t.models) ]
            ≡ price_for request (elim o [ none ↦ none | some name ↦ find name t.models ])
      at none = refl
      at (some name) = find-models_for request name t.models

  by_canonical-table_for :
      (request : ℤ) (t : Table (ModelPrice F)) (model : Bytes)
      → by_canonical (table_for request t) model ≡ price_for request (by_canonical t model)
  unfolding by_canonical table_for price_for
  by_canonical-table_for request t model = elim (Bool-cases (bytes_eq (canonicalize model) model)) [
    | inl e ↦ rw e refl
    | inr e ↦ rw e (find-models_for request (canonicalize model) t.models)
  ]

  or_then-price_for :
      (request : ℤ) (a b c : Option (ModelPrice F))
      → or_then (price_for request a) (or_then (price_for request b) (price_for request c))
        ≡ price_for request (or_then a (or_then b c))
  unfolding or_then price_for
  or_then-price_for request (some a) b c = refl
  or_then-price_for request none (some b) c = refl
  or_then-price_for request none none c = refl

  lookup-table_for :
      (request : ℤ) (t : Table (ModelPrice F)) (model : Bytes)
      → lookup (table_for request t) model ≡ price_for request (lookup t model)
  unfolding lookup table_for
  lookup-table_for request t model =
      (λ i.
        or_then (find-models_for request model t.models i) (
          or_then (by_alias-table_for request t model i)
            (by_canonical-table_for request t model i)))
      ∙ or_then-price_for request (find model t.models) (by_alias t model) (by_canonical t model)

module _ {F : Type 0} (float : Float F) where
  tier_of-cost :
      (mp : ModelPrice F) (l : Option (LongContextPrice F)) (u : TextTokenUsage)
      → cost_of_usage float (tier_of mp l u.request_input_tokens) u
        ≡ cost_of_usage float (rates_for u.request_input_tokens l mp) u
  unfolding tier_of rates_for cost_of_usage compute_cost input_cost output_cost
  tier_of-cost mp none u = refl
  tier_of-cost mp (some lc) u =
      elim (Bool-cases (ltb_ℤ u.request_input_tokens lc.threshold_input_tokens)) [
        | inl e ↦ rw e refl
        | inr e ↦ rw e refl
      ]

  abbrev cost_at : TextTokenUsage → Option (ModelPrice F) → Option F
  cost_at u o = elim o [ none ↦ none | some mp ↦ some (cost_of_usage float mp u) ]

  price_for-cost :
      (o : Option (ModelPrice F)) (u : TextTokenUsage)
      → elim o [
        | none ↦ none
        | some mp ↦ some (cost_of_usage float (resolve_text_tier mp u.request_input_tokens) u)
      ]
        ≡ cost_at u (price_for u.request_input_tokens o)
  unfolding price_for resolve_text_tier
  price_for-cost none u = refl
  price_for-cost (some mp) u = ap some (tier_of-cost mp mp.long_context u)

-- A request costs by CostText what CostWithCacheCreation says of its counts in the table where the
-- rates of every model with a long context are replaced by the long ones, if the request's own input
-- reaches the threshold of that model, and are left as they are if it does not. The price is known by
-- both or by neither.
pub cost_text-cost_with_cache_creation :
    {F : Type 0} (float : Float F) (t : Table (ModelPrice F)) (model : Bytes) (u : TextTokenUsage)
    → cost_text float t model u
      ≡ cost_with_cache_creation float
          (table_for u.request_input_tokens t)
          model
          u.input_tokens
          u.output_tokens
          u.reasoning_tokens
          u.cached_tokens
          u.cache_creation_tokens
unfolding cost_text cost_with_cache_creation cost_of_usage
cost_text-cost_with_cache_creation float t model u =
    price_for-cost float (lookup t model) u
    ∙ ap (cost_at float u) (sym (lookup-table_for u.request_input_tokens t model))
