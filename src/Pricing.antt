-- ===== src/Pricing.antt =====
-- internal/pricing/pricing.go: prices of models, as the YAML file holds them after decoding. A Go map
-- is a list of its entries, with each key once, in the order in which it happens to be ranged over.
pub mod Names
pub mod Cost
pub mod Dimension
pub mod Images
pub mod Validate
use metering_proxy.Common.{String, Bool, Option, List, Bytes}
use metering_proxy.Common.Int64.{ℤ}

-- What the code does with a float64.
pub record Float (F : Type 0) : Type 0 where
  pub nought : F
  pub million : F
  pub sixty : F
  pub of_int64 : ℤ → F
  pub add : F → F → F
  pub mul : F → F → F
  pub div : F → F → F
  pub above_zero : F → Bool  -- x > 0
  pub below_zero : F → Bool  -- x < 0
  pub zero_or_less : F → Bool  -- x <= 0
  pub is_zero : F → Bool
  pub is_nan : F → Bool
  pub is_inf : F → Bool

module _ (F : Type 0) where
  pub record LongContextPrice : Type 0 where
    pub threshold_input_tokens : ℤ
    pub input_per_1m : F
    pub cached_input_per_1m : F
    pub output_per_1m : F
    pub reasoning_per_1m : F
    pub cache_creation_per_1m : F

  pub record ModelPrice : Type 0 where
    pub input_per_1m : F
    pub cached_input_per_1m : F
    pub output_per_1m : F
    pub reasoning_per_1m : F
    pub cache_creation_per_1m : F
    pub aliases : List Bytes
    pub long_context : Option LongContextPrice

  pub record ModalityPrice : Type 0 where
    pub input_per_1m : F
    pub cached_input_per_1m : F
    pub output_per_1m : F
    pub reasoning_per_1m : F
    pub per_second : F
    pub input_per_second : F
    pub output_per_second : F
    pub per_minute : F
    pub input_per_minute : F
    pub output_per_minute : F
    pub per_image_input : F
    pub per_image_output : Option (List (String × F))
    pub has_per_image_input : Bool
    pub per_image_output_key_set : Bool

  pub record MultimodalModelPrice : Type 0 where
    pub text : ModalityPrice
    pub image : ModalityPrice
    pub audio : ModalityPrice
    pub audio_seconds : ModalityPrice
    pub aliases : List Bytes

-- TextTokenUsage
pub record TextTokenUsage : Type 0 where
  pub input_tokens : ℤ
  pub output_tokens : ℤ
  pub reasoning_tokens : ℤ
  pub cached_tokens : ℤ
  pub cache_creation_tokens : ℤ
  pub request_input_tokens : ℤ
