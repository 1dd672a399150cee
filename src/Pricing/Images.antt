-- ===== src/Pricing/Images.antt =====
-- internal/pricing/pricing.go: the price of images: NormalizeImageSize, CostImages,
-- perImageInputConfigured and HasPerImagePricing.
pub mod Known
use metering_proxy.Common.{
  ℕ, ◌+◌, String, Bool, true, false, not, ◌&&◌, ◌||◌, Option, none, some, List, [], ◌∷◌, Bytes,
  codes, leb, ◌==◌, if◌then◌else◌,
}
use metering_proxy.Common.Int64.{ℤ, pos, is_pos}
use metering_proxy.Common.Trim.{trim_space, has_prefix, is_empty}
use metering_proxy.Pricing.{Float, ModalityPrice, MultimodalModelPrice}
use metering_proxy.Pricing.Names.{Table, lookup}
use metering_proxy.Pricing.Validate.{rate_of}

lower : ℕ → ℕ
lower c = if leb b'A' c && leb c b'Z' then c + 32 else c

-- strings.EqualFold against an ASCII text t. Two code points above ASCII fold to an ASCII letter:
-- the Kelvin sign, 0xe2 0x84 0xaa, to k, and the long s, 0xc5 0xbf, to s.
unfoldable pub equal_fold : Bytes → Bytes → Bool
unfolding lower
equal_fold [] [] = true
equal_fold [] (c ∷ t) = false
equal_fold (a ∷ s) [] = false
equal_fold (a ∷ []) (c ∷ t) = lower a == lower c && equal_fold [] t
equal_fold (a ∷ b ∷ []) (c ∷ t) =
    let long_s = equal_fold [] t in
    let plain = equal_fold (b ∷ []) t in
    if a == 0xc5 && b == 0xbf && lower c == b's' then long_s else lower a == lower c && plain
equal_fold (a ∷ b ∷ d ∷ s) (c ∷ t) =
    let kelvin = equal_fold s t in
    let long_s = equal_fold (d ∷ s) t in
    let plain = equal_fold (b ∷ d ∷ s) t in
    if a == 0xe2 && b == 0x84 && d == 0xaa && lower c == b'k'
    then kelvin
    else if a == 0xc5 && b == 0xbf && lower c == b's'
    then long_s
    else lower a == lower c && plain

-- The key, and whether it was defaulted.
unfoldable pub normalize_image_size : Bytes → String × Bool
unfolding trim_space equal_fold has_prefix
normalize_image_size size =
    let s = trim_space size in
    if is_empty s
    then ("default", true)
    else if equal_fold s (codes "default")
    then ("default", false)
    else if equal_fold s (codes "1K") || has_prefix s (codes "1024")
    then ("1K", false)
    else if equal_fold s (codes "2K") || has_prefix s (codes "2048")
    then ("2K", false)
    else ("default", true)

-- The results cost, known and sizeDefaulted.
pub record ImageCost (F : Type 0) : Type 0 where
  pub cost : F
  pub known : Bool
  pub size_defaulted : Bool

-- mp.Image.PerImageOutput[normalized], where the map is not nil.
unfoldable pub output_rate : {F : Type 0} → Option (List (String × F)) → String → Option F
unfolding rate_of
output_rate none key = none
output_rate (some rates) key = rate_of key rates

module _ {F : Type 0} (float : Float F) where
  unfoldable pub per_image_input_configured : ModalityPrice F → Bool
  per_image_input_configured mp = mp.has_per_image_input || not (float.is_zero mp.per_image_input)

  -- total and known, after the input images.
  unfoldable pub input_images : ModalityPrice F → ℤ → F × Bool
  unfolding per_image_input_configured
  input_images mp count =
      if is_pos count
      then (if per_image_input_configured mp
          then (float.add float.nought (float.mul (float.of_int64 count) mp.per_image_input), true)
          else (float.nought, false))
      else (float.nought, true)

  unfoldable pub output_images : Option F → ℤ → F × Bool → F × Bool
  output_images rate count (total, known) =
      if is_pos count
      then elim rate [
        | none ↦ (total, false)
        | some r ↦ (float.add total (float.mul (float.of_int64 count) r), known)
      ]
      else (total, known)

  unfoldable pub image_total : ModalityPrice F → ℤ → ℤ → String → F × Bool
  unfolding input_images output_rate output_images
  image_total mp inputs outputs key =
      output_images (output_rate mp.per_image_output key) outputs (input_images mp inputs)

  unfoldable pub priced_images :
      Option (MultimodalModelPrice F) → ℤ → ℤ → String × Bool → ImageCost F
  unfolding image_total
  priced_images none inputs outputs (key, defaulted) = record {
    cost = float.nought;
    known = false;
    size_defaulted = defaulted;
  }
  priced_images (some mp) inputs outputs (key, defaulted) =
      let (total, is_known) = image_total mp.image inputs outputs key in
      record { cost = total; known = is_known; size_defaulted = defaulted }

  unfoldable pub cost_images : Table (MultimodalModelPrice F) → Bytes → ℤ → ℤ → Bytes → ImageCost F
  unfolding lookup normalize_image_size priced_images
  cost_images t model inputs outputs size =
      let normalized = normalize_image_size size in
      if not (is_pos inputs) && not (is_pos outputs)
      then record { cost = float.nought; known = true; size_defaulted = normalized.1 }
      else priced_images (lookup t model) inputs outputs normalized

  unfoldable pub has_per_image_pricing : Table (MultimodalModelPrice F) → Bytes → Bool
  unfolding lookup per_image_input_configured
  has_per_image_pricing t model = elim (lookup t model) [
    | none ↦ false
    | some mp ↦
        per_image_input_configured mp.image
        || mp.image.per_image_output_key_set
        || elim mp.image.per_image_output [ none ↦ false | some rates ↦ true ]
  ]
