-- ===== src/Pricing/Cost/NotNegative.antt =====
-- The cost of text under prices that Validate accepts is not below zero.
use metering_proxy.Common.{
  ℕ, Bool, true, false, ◌&&◌, ◌≡◌, refl, Option, none, some, List, [], ◌∷◌, Bytes, arith,
  if◌then◌else◌, Bool-cases, inl, inr, sym, ◌∙◌, ap,
}
use metering_proxy.Common.Int64.{ℤ, pos, negsuc, neg_part, is_pos, ltb_ℤ, sub64}
use metering_proxy.Common.Trim.{bytes_eq}
use metering_proxy.Pricing.{
  Float, ModelPrice, MultimodalModelPrice, LongContextPrice, TextTokenUsage,
}
use metering_proxy.Pricing.Names.{find, lookup}
use metering_proxy.Pricing.Names.Found.{lookup-find}
use metering_proxy.Pricing.Validate.{
  validate_finite_non_negative_price, validate_long_context, validate_model, all, validate, index,
  Pricing,
}
use metering_proxy.Pricing.Cost.{
  charge, add_if, input_cost, output_cost, compute_cost, cost_text, cost_of_usage,
  resolve_text_tier, tier_of,
}
use metering_proxy.Pricing.Cost.Input.{Breakdown, input_breakdown}

-- What IEEE 754 says of `x < 0`: sums and products of numbers that are not below 0, and a count that
-- is not negative divided by a million, are not below 0. NaN is not below 0 either.
pub record SignLaws {F : Type 0} (float : Float F) : Type 0 where
  pub nought_sign : float.below_zero float.nought ≡ false
  pub add_sign :
      (x y : F)
      → float.below_zero x ≡ false
      → float.below_zero y ≡ false
      → float.below_zero (float.add x y) ≡ false
  pub mul_sign :
      (x y : F)
      → float.below_zero x ≡ false
      → float.below_zero y ≡ false
      → float.below_zero (float.mul x y) ≡ false
  pub count_sign :
      (n : ℕ) → float.below_zero (float.div (float.of_int64 (pos n)) float.million) ≡ false

pub and_left : (a b : Bool) → (a && b) ≡ true → a ≡ true
and_left a b h = ground arith

pub and_right : (a b : Bool) → (a && b) ≡ true → b ≡ true
and_right a b h = ground arith

module _ {F : Type 0} (float : Float F) (laws : SignLaws float) where
  abbrev NotBelow : F → Type 0
  NotBelow x = float.below_zero x ≡ false

  charge_sign : (n : ℤ) (rate : F) → neg_part n ≡ 0 → NotBelow rate → NotBelow (charge float n rate)
  unfolding charge
  charge_sign (pos n) rate h k = laws.mul_sign _ rate (laws.count_sign n) k
  charge_sign (negsuc n) rate h k = absurd (omega arith)

  is_pos-sign : (n : ℤ) → is_pos n ≡ true → neg_part n ≡ 0
  is_pos-sign n h = ground arith

  add_if-sign :
      (n : ℤ) (cost rate : F)
      → NotBelow cost
      → NotBelow rate
      → NotBelow (add_if float (is_pos n) cost (charge float n rate))
  unfolding add_if
  add_if-sign n cost rate h k = elim (Bool-cases (is_pos n)) [
    | inl e ↦ rw e (laws.add_sign _ _ h (charge_sign n rate (is_pos-sign n e) k))
    | inr e ↦ rw e h
  ]

  -- No price of the five is below 0.
  record PricesSigned (mp : ModelPrice F) : Type 0 where
    input_sign : NotBelow mp.input_per_1m
    cached_sign : NotBelow mp.cached_input_per_1m
    output_sign : NotBelow mp.output_per_1m
    reasoning_sign : NotBelow mp.reasoning_per_1m
    creation_sign : NotBelow mp.cache_creation_per_1m

  if-sign :
      (b : Bool) (x y : F)
      → (b ≡ true → NotBelow x)
      → (b ≡ false → NotBelow y)
      → NotBelow (if b then x else y)
  if-sign true x y h k = h refl
  if-sign false x y h k = k refl

  input_cost-sign :
      (mp : ModelPrice F) (b : Breakdown) → PricesSigned mp → NotBelow (input_cost float mp b)
  unfolding input_cost
  input_cost-sign mp b h =
      let cached =
        add_if-sign b.cached float.nought mp.cached_input_per_1m laws.nought_sign h.cached_sign in
      let plain = add_if-sign b.non_cached _ mp.input_per_1m cached h.input_sign in
      if-sign (is_pos b.creation && float.above_zero mp.cache_creation_per_1m) _ _
        (λ e. laws.add_sign _ _ plain (
          charge_sign b.creation mp.cache_creation_per_1m (is_pos-sign b.creation (and_left _ _ e))
            h.creation_sign))
        (λ e. add_if-sign b.creation _ mp.input_per_1m plain h.input_sign)

  output_cost-sign :
      (mp : ModelPrice F) (cost : F) (output reasoning : ℤ)
      → PricesSigned mp
      → NotBelow cost
      → neg_part output ≡ 0
      → NotBelow (output_cost float mp cost output reasoning)
  unfolding output_cost
  output_cost-sign mp cost output reasoning h k o =
      if-sign (is_pos reasoning && float.above_zero mp.reasoning_per_1m) _ _
        (λ e.
          laws.add_sign _ _
            (add_if-sign (sub64 output reasoning) cost mp.output_per_1m k h.output_sign)
            (charge_sign reasoning mp.reasoning_per_1m (is_pos-sign reasoning (and_left _ _ e))
              h.reasoning_sign))
        (λ e. laws.add_sign _ _ k (charge_sign output mp.output_per_1m o h.output_sign))

  price-sign : (v : F) → validate_finite_non_negative_price float v ≡ true → NotBelow v
  unfolding validate_finite_non_negative_price
  price-sign v h = ground arith

  -- The first price of a list that is checked, and the check of the others.
  first_price :
      (v : F) (vs : List F)
      → all (validate_finite_non_negative_price float) (v ∷ vs) ≡ true
      → NotBelow v × (all (validate_finite_non_negative_price float) vs ≡ true)
  unfolding all
  first_price v vs h = (price-sign v (and_left _ _ h), and_right _ _ h)

  five_prices :
      (a b c d e : F)
      → all (validate_finite_non_negative_price float) (a ∷ b ∷ c ∷ d ∷ e ∷ []) ≡ true
      → NotBelow a × NotBelow b × NotBelow c × NotBelow d × NotBelow e
  five_prices a b c d e h =
      let (p, i) = first_price _ _ h in
      let (q, j) = first_price _ _ i in
      let (r, k) = first_price _ _ j in
      let (s, l) = first_price _ _ k in (p, q, r, s, (first_price _ _ l).0)

  either_tier :
      (b : Bool) (mp mq : ModelPrice F)
      → PricesSigned mp
      → PricesSigned mq
      → PricesSigned (if b then mp else mq)
  either_tier true mp mq h k = h
  either_tier false mp mq h k = k

  tier_of-PricesSigned :
      (mp : ModelPrice F) (lc : Option (LongContextPrice F)) (request : ℤ)
      → PricesSigned mp
      → validate_long_context float lc ≡ true
      → PricesSigned (tier_of mp lc request)
  unfolding tier_of validate_long_context
  tier_of-PricesSigned mp none request h k = record {
    input_sign = h.input_sign;
    cached_sign = h.cached_sign;
    output_sign = h.output_sign;
    reasoning_sign = h.reasoning_sign;
    creation_sign = h.creation_sign;
  }
  tier_of-PricesSigned mp (some lc) request h k =
      let (p, q, r, s, t) =
        five_prices lc.input_per_1m lc.output_per_1m lc.cached_input_per_1m lc.reasoning_per_1m
          lc.cache_creation_per_1m (and_right _ _ k) in
      either_tier (ltb_ℤ request lc.threshold_input_tokens) _ _
        record {
          input_sign = h.input_sign;
          cached_sign = h.cached_sign;
          output_sign = h.output_sign;
          reasoning_sign = h.reasoning_sign;
          creation_sign = h.creation_sign;
        }
        record {
          input_sign = p;
          cached_sign = r;
          output_sign = q;
          reasoning_sign = s;
          creation_sign = t;
        }

  validate_model-PricesSigned :
      (key : Bytes) (mp : ModelPrice F) (request : ℤ)
      → validate_model float (key, mp) ≡ true
      → PricesSigned (resolve_text_tier mp request)
  unfolding validate_model resolve_text_tier
  validate_model-PricesSigned key mp request h =
      let (p, q, r, s, t) =
        five_prices mp.input_per_1m mp.cached_input_per_1m mp.output_per_1m mp.reasoning_per_1m
          mp.cache_creation_per_1m (and_left _ _ (and_left _ _ h)) in
      tier_of-PricesSigned mp mp.long_context request
        record {
          input_sign = p;
          cached_sign = q;
          output_sign = r;
          reasoning_sign = s;
          creation_sign = t;
        }
        (and_right _ _ h)

  -- The cost of an entry's usage, tier and all.
  cost_of_usage-sign :
      (key : Bytes) (mp : ModelPrice F) (u : TextTokenUsage)
      → validate_model float (key, mp) ≡ true
      → neg_part u.output_tokens ≡ 0
      → NotBelow (cost_of_usage float (resolve_text_tier mp u.request_input_tokens) u)
  unfolding cost_of_usage compute_cost
  cost_of_usage-sign key mp u h o =
      let signed = validate_model-PricesSigned key mp u.request_input_tokens h in
      output_cost-sign (resolve_text_tier mp u.request_input_tokens) _ u.output_tokens
        u.reasoning_tokens signed
        (input_cost-sign _ (input_breakdown u.input_tokens u.cached_tokens u.cache_creation_tokens)
          signed)
        o

module _ {V : Type 0} (p : Bytes × V → Bool) where
  pub find-all :
      (key : Bytes) (models : List (Bytes × V)) (v : V)
      → all p models ≡ true
      → find key models ≡ some v
      → (k : Bytes) × (p (k, v) ≡ true)
  unfolding all find
  find-all key [] v h e = absurd (cc e)
  find-all key ((k, w) ∷ models) v h e =
      found (bytes_eq key k) (λ f. find-all key models v (and_right _ _ h) f) e
    where
      found :
          (b : Bool)
          → (find key models ≡ some v → (k : Bytes) × (p (k, v) ≡ true))
          → (if b then some w else find key models) ≡ some v
          → (k : Bytes) × (p (k, v) ≡ true)
      found true rest f = (k, let g : p (k, w) ≡ true = and_left _ _ h in cc (f, g))
      found false rest f = rest f

pub if_some :
    {A : Type 0} (b : Bool) (x y : A) → (if b then some x else none) ≡ some y → (b ≡ true) × (x ≡ y)
if_some true x y h = (refl, cc h)
if_some false x y h = absurd (cc h)

validate-all :
    {F : Type 0} (float : Float F) (ms : List (Bytes × ModelPrice F))
    (mms : List (Bytes × MultimodalModelPrice F))
    → validate float ms mms ≡ true
    → all (validate_model float) ms ≡ true
unfolding validate
validate-all float ms mms h = ground (arith)

cost_of_known :
    {F : Type 0} (float : Float F) (laws : SignLaws float) (ms : List (Bytes × ModelPrice F))
    (mms : List (Bytes × MultimodalModelPrice F)) (p : Pricing F) (model : Bytes)
    (u : TextTokenUsage) (mp : ModelPrice F)
    → index float ms mms ≡ some p
    → neg_part u.output_tokens ≡ 0
    → lookup p.text_table model ≡ some mp
    → float.below_zero (cost_of_usage float (resolve_text_tier mp u.request_input_tokens) u) ≡ false
unfolding index
cost_of_known float laws ms mms p model u mp h o e =
    let (valid, same) = if_some _ _ _ h in
    let (key, found) = lookup-find p.text_table model mp e in
    let all_valid : all (validate_model float) ms ≡ true = validate-all float ms mms valid in
    let (k, ok) =
      find-all (validate_model float) key p.text_table.models mp
        (ap (λ t. all (validate_model float) t.text_table.models) (sym same) ∙ all_valid) found in
    cost_of_usage-sign float laws k mp u ok o

-- Where Parse accepts the prices, the cost that CostText computes for a model is not below zero,
-- whichever tier the request selects and whatever its counts of input, cached and reasoning tokens
-- and of cache creation are: under what IEEE 754 says of signs, for output tokens not below zero.
pub cost_text-NotBelow :
    {F : Type 0} (float : Float F) (laws : SignLaws float) (ms : List (Bytes × ModelPrice F))
    (mms : List (Bytes × MultimodalModelPrice F)) (p : Pricing F) (model : Bytes)
    (u : TextTokenUsage) (c : F)
    → index float ms mms ≡ some p
    → neg_part u.output_tokens ≡ 0
    → cost_text float p.text_table model u ≡ some c
    → float.below_zero c ≡ false
unfolding cost_text
cost_text-NotBelow {F = F} float laws ms mms p model u c h o k =
    priced (lookup p.text_table model) (λ mp e. cost_of_known float laws ms mms p model u mp h o e)
      k
  where
    priced :
        (m : Option (ModelPrice F))
        → ((mp : ModelPrice F)
            → m ≡ some mp
            → float.below_zero (cost_of_usage float (resolve_text_tier mp u.request_input_tokens) u)
              ≡ false)
        → elim m [
          | none ↦ none
          | some mp ↦ some (cost_of_usage float (resolve_text_tier mp u.request_input_tokens) u)
        ]
          ≡ some c
        → float.below_zero c ≡ false
    priced none sign e = absurd (cc e)
    priced (some mp) sign e = let g = sign mp refl in cc (e, g)
