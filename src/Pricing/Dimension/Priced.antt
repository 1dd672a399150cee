-- ===== src/Pricing/Dimension/Priced.antt =====
-- HasImageTokenPricing against CostDimension.
use metering_proxy.Common.{
  String, Bool, true, false, ◌≡◌, refl, ap, ◌∙◌, ◌⊎◌, inl, inr, Option, none, some, Bytes, ◌||◌,
}
use metering_proxy.Pricing.{Float, ModalityPrice, MultimodalModelPrice}
use metering_proxy.Pricing.Names.{Table, lookup}
use metering_proxy.Pricing.Dimension.{
  cost_dimension, cost_of_modality, cost_tokens, charged, token_direction_rate,
  modality_token_price, price_of_name, or_price, modality_has_token_price, has_image_token_pricing,
}

-- `x > 0` and `x <= 0` do not both hold.
abbrev pub SignsApart : {F : Type 0} → Float F → Type 0
SignsApart {F = F} float = (x : F) → float.above_zero x ≡ true → float.zero_or_less x ≡ false

abbrev IsKnown : {F : Type 0} → Option F → Type 0
IsKnown {F = F} o = (c : F) × (o ≡ some c)

or_cases : (a b : Bool) → (a || b) ≡ true → (a ≡ true) ⊎ (b ≡ true)
or_cases true b h = inl refl
or_cases false b h = inr h

module _ {F : Type 0} (float : Float F) (apart : SignsApart float) where
  charged-known : (rate c : F) → float.above_zero rate ≡ true → charged float rate c ≡ some c
  unfolding charged
  charged-known rate c h = rw (apart rate h) refl

  -- A price with a rate above zero prices some direction.
  PricesDirection : ModalityPrice F → Type 0
  PricesDirection price =
      (direction : String) × ((amount : F)
        → IsKnown (cost_tokens float (some price) direction amount))

  direction_known :
      (price : ModalityPrice F) (direction : String) (rate : F)
      → token_direction_rate price direction ≡ some rate
      → float.above_zero rate ≡ true
      → PricesDirection price
  unfolding cost_tokens PricesDirection
  direction_known price direction rate e h = (
    direction,
    λ amount. (
      float.mul (float.div amount float.million) rate,
      ap
            (λ o. elim o [
              | none ↦ none
              | some r ↦ charged float r (float.mul (float.div amount float.million) r)
            ])
            e
          ∙ charged-known rate _ h,
    ),
  )

  modality_known :
      (price : ModalityPrice F)
      → modality_has_token_price float price ≡ true
      → PricesDirection price
  unfolding modality_has_token_price token_direction_rate
  modality_known price h = elim (or_cases _ _ h) [
    | inr e ↦ direction_known price "reasoning" price.reasoning_per_1m refl e
    | inl f ↦ elim (or_cases _ _ f) [
      | inr e ↦ direction_known price "output" price.output_per_1m refl e
      | inl g ↦ elim (or_cases _ _ g) [
        | inr e ↦ direction_known price "cached_input" price.cached_input_per_1m refl e
        | inl e ↦ direction_known price "input" price.input_per_1m refl e
      ]
    ]
  ]

  -- CostDimension at the channel of a modality's name.
  channel_cost :
      (t : Table (MultimodalModelPrice F)) (mp : MultimodalModelPrice F) (channel : String)
      (price : ModalityPrice F) (model : Bytes) (modality direction : String) (amount : F)
      → price_of_name mp channel ≡ some price
      → lookup t model ≡ some mp
      → float.above_zero amount ≡ true
      → cost_dimension float t model modality channel "tokens" direction "token" amount
        ≡ cost_tokens float (some price) direction amount
  unfolding cost_dimension cost_of_modality modality_token_price or_price
  channel_cost t mp channel price model modality direction amount e l h = rw (apart amount h) (
      ap
        (λ o. elim o [
          | none ↦ none
          | some m ↦ cost_of_modality float m modality channel "tokens" direction "token" amount
        ])
        l
      ∙ ap (λ o. cost_tokens float (or_price o (price_of_name mp modality)) direction amount) e)

  channel-IsKnown :
      (t : Table (MultimodalModelPrice F)) (mp : MultimodalModelPrice F) (channel : String)
      (price : ModalityPrice F) (model : Bytes)
      → price_of_name mp channel ≡ some price
      → lookup t model ≡ some mp
      → modality_has_token_price float price ≡ true
      → (channel : String) × (direction : String) × ((modality : String) (amount : F)
          → float.above_zero amount ≡ true
          → IsKnown
              (cost_dimension float t model modality channel "tokens" direction "token" amount))
  unfolding PricesDirection
  channel-IsKnown t mp channel price model e l h =
      let (direction, known) = modality_known price h in
      (
        channel,
        direction,
        λ modality amount k.
            let (c, same) = known amount in
            (c, channel_cost t mp channel price model modality direction amount e l k ∙ same),
      )

-- Where HasImageTokenPricing says that a model has token rates for requests of images, there are a
-- channel, text or image, and a direction such that CostDimension knows the cost of any amount of
-- tokens above zero, whatever the modality. It relies on a number not being
-- both above zero and at most zero.
pub has_image_token_pricing-cost_dimension :
    {F : Type 0} (float : Float F)
    → SignsApart float
    → (t : Table (MultimodalModelPrice F)) (model : Bytes)
    → has_image_token_pricing float t model ≡ true
    → (channel : String) × (direction : String) × ((modality : String) (amount : F)
        → float.above_zero amount ≡ true
        → IsKnown (cost_dimension float t model modality channel "tokens" direction "token" amount))
unfolding has_image_token_pricing price_of_name
has_image_token_pricing-cost_dimension {F = F} float apart t model h =
    by_price (lookup t model) h (λ mp e. e)
  where
    by_price :
        (m : Option (MultimodalModelPrice F))
        → elim m [
          | none ↦ false
          | some mp ↦
              modality_has_token_price float mp.text || modality_has_token_price float mp.image
        ]
          ≡ true
        → ((mp : MultimodalModelPrice F) → m ≡ some mp → lookup t model ≡ some mp)
        → (channel : String) × (direction : String) × ((modality : String) (amount : F)
            → float.above_zero amount ≡ true
            → IsKnown
                (cost_dimension float t model modality channel "tokens" direction "token" amount))
    by_price none k e = absurd (cc k)
    by_price (some mp) k e = elim (or_cases _ _ k) [
      | inl p ↦ channel-IsKnown float apart t mp "text" mp.text model refl (e mp refl) p
      | inr p ↦ channel-IsKnown float apart t mp "image" mp.image model refl (e mp refl) p
    ]
