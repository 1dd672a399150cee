-- ===== src/Pricing/Validate.antt =====
-- internal/pricing/pricing.go: Validate and its helpers, and what Parse does with the decoded prices: the
-- marks of fields that the YAML has, and from Validate on. The check of the fields that the YAML must
-- have is left out. Only whether there is an error is kept, as `false` or `none`, so the order in which
-- the sorted names are checked does not matter.
use metering_proxy.Common.{
  String, Bool, true, false, not, ◌&&◌, ◌||◌, Option, none, some, List, [], ◌∷◌, Bytes, str_eq,
  if◌then◌else◌,
}
use metering_proxy.Common.Int64.{is_pos}
use metering_proxy.Common.Trim.{trim_space, bytes_eq, is_empty}
use metering_proxy.Pricing.{
  Float, ModelPrice, LongContextPrice, ModalityPrice, MultimodalModelPrice,
}
use metering_proxy.Pricing.Names.{Table, find, validate_alias_namespace, build_alias_index}

unfoldable pub all {ℓ} : {A : Type ℓ} → (A → Bool) → List A → Bool
all p [] = true
all p (a ∷ as_) = p a && all p as_

unfoldable pub member : Bytes → List Bytes → Bool
unfolding bytes_eq
member a [] = false
member a (b ∷ bs) = bytes_eq a b || member a bs

-- validateAliases, with the aliases seen so far.
unfoldable pub distinct_aliases : List Bytes → List Bytes → Bool
unfolding trim_space member
distinct_aliases seen [] = true
distinct_aliases seen (a ∷ rest) =
    let alias = trim_space a in
    not (is_empty alias) && not (member alias seen) && distinct_aliases (alias ∷ seen) rest

unfoldable pub is_supported_image_size_key : String → Bool
is_supported_image_size_key k = str_eq k "default" || str_eq k "1K" || str_eq k "2K"

unfoldable pub rate_of {ℓ} : {A : Type ℓ} → String → List (String × A) → Option A
rate_of key [] = none
rate_of key ((k, a) ∷ m) = if str_eq key k then some a else rate_of key m

abbrev pub is_some {ℓ} : {A : Type ℓ} → Option A → Bool
is_some none = false
is_some (some a) = true

abbrev text_aliases : {F : Type 0} → ModelPrice F → List Bytes
text_aliases mp = mp.aliases

abbrev multimodal_aliases : {F : Type 0} → MultimodalModelPrice F → List Bytes
multimodal_aliases mp = mp.aliases

module _ {F : Type 0} (float : Float F) where
  unfoldable pub validate_finite_non_negative_price : F → Bool
  validate_finite_non_negative_price v =
      not (float.is_nan v) && not (float.is_inf v) && not (float.below_zero v)

  unfoldable pub validate_size_rate : String × F → Bool
  unfolding validate_finite_non_negative_price is_supported_image_size_key
  validate_size_rate (k, v) = is_supported_image_size_key k && validate_finite_non_negative_price v

  -- `key_set`: the YAML has the key per_image_output.
  unfoldable pub validate_per_image_output : Bool → Option (List (String × F)) → Bool
  unfolding validate_size_rate rate_of all
  validate_per_image_output key_set none = not key_set
  validate_per_image_output key_set (some []) = false
  validate_per_image_output key_set (some (r ∷ rates)) =
      is_some (rate_of "default" (r ∷ rates)) && all validate_size_rate (r ∷ rates)

  unfoldable pub validate_modality_price : ModalityPrice F → Bool
  unfolding validate_finite_non_negative_price validate_per_image_output all
  validate_modality_price mp =
      all validate_finite_non_negative_price (
        mp.input_per_1m ∷ mp.cached_input_per_1m ∷ mp.output_per_1m ∷ mp.reasoning_per_1m
        ∷ mp.per_second ∷ mp.input_per_second ∷ mp.output_per_second ∷ mp.per_minute
        ∷ mp.input_per_minute ∷ mp.output_per_minute ∷ mp.per_image_input ∷ [])
      && validate_per_image_output mp.per_image_output_key_set mp.per_image_output

  unfoldable pub validate_long_context : Option (LongContextPrice F) → Bool
  unfolding validate_finite_non_negative_price all
  validate_long_context none = true
  validate_long_context (some lc) =
      is_pos lc.threshold_input_tokens
      && all validate_finite_non_negative_price (
          lc.input_per_1m ∷ lc.output_per_1m ∷ lc.cached_input_per_1m ∷ lc.reasoning_per_1m
          ∷ lc.cache_creation_per_1m ∷ [])

  unfoldable pub validate_model : Bytes × ModelPrice F → Bool
  unfolding validate_finite_non_negative_price validate_long_context distinct_aliases all
  validate_model (name, mp) =
      all validate_finite_non_negative_price (
        mp.input_per_1m ∷ mp.cached_input_per_1m ∷ mp.output_per_1m ∷ mp.reasoning_per_1m
        ∷ mp.cache_creation_per_1m ∷ [])
      && distinct_aliases [] mp.aliases
      && validate_long_context mp.long_context

  unfoldable pub validate_multimodal : Bytes × MultimodalModelPrice F → Bool
  unfolding distinct_aliases validate_modality_price
  validate_multimodal (name, mp) =
      distinct_aliases [] mp.aliases
      && validate_modality_price mp.text
      && validate_modality_price mp.image
      && validate_modality_price mp.audio
      && validate_modality_price mp.audio_seconds

  unfoldable pub validate :
      List (Bytes × ModelPrice F) → List (Bytes × MultimodalModelPrice F) → Bool
  unfolding validate_model validate_multimodal all validate_alias_namespace
  validate models multimodal =
      all validate_model models
      && all validate_multimodal multimodal
      && validate_alias_namespace text_aliases models
      && validate_alias_namespace multimodal_aliases multimodal

-- The fields of modalityPresence, for each modality of a model.
pub record ModalityPresence : Type 0 where
  pub per_image_input_set : Bool
  pub per_image_output_key : Bool

pub record MultimodalPresence : Type 0 where
  pub text_set : ModalityPresence
  pub image_set : ModalityPresence
  pub audio_set : ModalityPresence
  pub audio_seconds_set : ModalityPresence

-- Pricing, of which the tables are used: what Parse returns where Validate has no error.
pub record Pricing (F : Type 0) : Type 0 where
  pub text_table : Table (ModelPrice F)
  pub multimodal_table : Table (MultimodalModelPrice F)

module _ {F : Type 0} (float : Float F) where
  unfoldable pub apply_presence : ModalityPresence → ModalityPrice F → ModalityPrice F
  apply_presence pr mp = record mp {
    has_per_image_input = pr.per_image_input_set || not (float.is_zero mp.per_image_input);
    per_image_output_key_set = pr.per_image_output_key;
  }

  unfoldable pub apply_presences :
      Option MultimodalPresence → MultimodalModelPrice F → MultimodalModelPrice F
  unfolding apply_presence
  apply_presences none mp = mp
  apply_presences (some pr) mp = record mp {
    text = apply_presence pr.text_set mp.text;
    image = apply_presence pr.image_set mp.image;
    audio = apply_presence pr.audio_set mp.audio;
    audio_seconds = apply_presence pr.audio_seconds_set mp.audio_seconds;
  }

  unfoldable pub apply_yaml_presence :
      List (Bytes × MultimodalPresence)
      → List (Bytes × MultimodalModelPrice F)
      → List (Bytes × MultimodalModelPrice F)
  unfolding apply_presences find
  apply_yaml_presence presence [] = []
  apply_yaml_presence presence ((name, mp) ∷ rest) =
      (name, apply_presences (find name presence) mp) ∷ apply_yaml_presence presence rest

  -- Parse, from p.Validate() on.
  unfoldable pub index :
      List (Bytes × ModelPrice F) → List (Bytes × MultimodalModelPrice F) → Option (Pricing F)
  unfolding validate build_alias_index
  index ms mms =
      if validate float ms mms
      then some record {
        text_table = record { models = ms; alias_index = build_alias_index text_aliases ms };
        multimodal_table = record {
          models = mms;
          alias_index = build_alias_index multimodal_aliases mms;
        };
      }
      else none
