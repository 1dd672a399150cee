-- ===== src/Pricing/Dimension.antt =====
-- internal/pricing/pricing.go: CostDimension and its helpers.
pub mod Priced
use metering_proxy.Common.{
  String, Bool, true, false, not, ◌&&◌, ◌||◌, Option, none, some, Bytes, str_eq, if◌then◌else◌,
}
use metering_proxy.Pricing.{Float, ModalityPrice, MultimodalModelPrice}
use metering_proxy.Pricing.Names.{Table, lookup}

module _ {F : Type 0} where
  -- The three cases of a switch of modalityTokenPrice.
  unfoldable pub price_of_name : MultimodalModelPrice F → String → Option (ModalityPrice F)
  price_of_name mp name =
      if str_eq name "text"
      then some mp.text
      else if str_eq name "image"
      then some mp.image
      else if str_eq name "audio"
      then some mp.audio
      else none

  or_price : Option (ModalityPrice F) → Option (ModalityPrice F) → Option (ModalityPrice F)
  or_price none q = q
  or_price (some p) q = some p

  unfoldable pub modality_token_price :
      MultimodalModelPrice F → String → String → Option (ModalityPrice F)
  unfolding price_of_name or_price
  modality_token_price mp modality channel =
      or_price (price_of_name mp channel) (price_of_name mp modality)

  unfoldable pub token_direction_rate : ModalityPrice F → String → Option F
  token_direction_rate price direction =
      if str_eq direction "input"
      then some price.input_per_1m
      else if str_eq direction "cached_input"
      then some price.cached_input_per_1m
      else if str_eq direction "output"
      then some price.output_per_1m
      else if str_eq direction "reasoning"
      then some price.reasoning_per_1m
      else none

module _ {F : Type 0} (float : Float F) where
  unfoldable pub seconds_rate : F → F → F
  seconds_rate per_second per_minute =
      if float.above_zero per_second
      then per_second
      else if float.above_zero per_minute
      then float.div per_minute float.sixty
      else float.nought

  -- The rate of a direction where it is above zero, else the general one.
  override : F → F → F
  override specific general = if float.above_zero specific then specific else general

  unfoldable pub directed_rate : ModalityPrice F → String → F
  unfolding seconds_rate override
  directed_rate price direction =
      let rate = seconds_rate price.per_second price.per_minute in
      if str_eq direction "input"
      then override (seconds_rate price.input_per_second price.input_per_minute) rate
      else if str_eq direction "output"
      then override (seconds_rate price.output_per_second price.output_per_minute) rate
      else rate

  -- A rate that is not above zero is no price.
  unfoldable pub charged : F → F → Option F
  charged rate amount = if float.zero_or_less rate then none else some amount

  unfoldable pub cost_tokens : Option (ModalityPrice F) → String → F → Option F
  unfolding token_direction_rate charged
  cost_tokens none direction amount = none
  cost_tokens (some price) direction amount = elim (token_direction_rate price direction) [
    | none ↦ none
    | some rate ↦ charged rate (float.mul (float.div amount float.million) rate)
  ]

  unfoldable pub cost_seconds : MultimodalModelPrice F → String → F → Option F
  unfolding directed_rate charged
  cost_seconds mp direction amount =
      let rate = directed_rate mp.audio_seconds direction in charged rate (float.mul amount rate)

  unfoldable pub cost_of_modality :
      MultimodalModelPrice F → String → String → String → String → String → F → Option F
  unfolding modality_token_price cost_tokens cost_seconds
  cost_of_modality mp modality channel metric direction unit_ amount =
      if str_eq metric "tokens" && str_eq unit_ "token"
      then cost_tokens (modality_token_price mp modality channel) direction amount
      else if str_eq metric "seconds" && str_eq unit_ "second"
      then cost_seconds mp direction amount
      else none

  -- `none` is a cost that is not known.
  unfoldable pub cost_dimension :
      Table (MultimodalModelPrice F)
      → Bytes
      → String
      → String
      → String
      → String
      → String
      → F
      → Option F
  unfolding lookup cost_of_modality
  cost_dimension t model modality channel metric direction unit_ amount =
      if float.zero_or_less amount then some float.nought else elim (lookup t model) [
        | none ↦ none
        | some mp ↦ cost_of_modality mp modality channel metric direction unit_ amount
      ]

  unfoldable pub modality_has_token_price : ModalityPrice F → Bool
  modality_has_token_price mp =
      float.above_zero mp.input_per_1m
      || float.above_zero mp.cached_input_per_1m
      || float.above_zero mp.output_per_1m
      || float.above_zero mp.reasoning_per_1m

  unfoldable pub has_image_token_pricing : Table (MultimodalModelPrice F) → Bytes → Bool
  unfolding lookup modality_has_token_price
  has_image_token_pricing t model = elim (lookup t model) [
    | none ↦ false
    | some mp ↦ modality_has_token_price mp.text || modality_has_token_price mp.image
  ]
