-- ===== src/Pricing/Images/Known.antt =====
-- When the cost of images is known.
use metering_proxy.Common.{
  String, Bool, true, false, not, ◌&&◌, ◌||◌, ◌≡◌, refl, ap, ap₂, sym, ◌∙◌, Option, none, some,
  List, [], ◌∷◌, Bytes, codes, if◌then◌else◌, arith,
}
use metering_proxy.Common.Int64.{ℤ, is_pos}
use metering_proxy.Common.Trim.{trim_space, has_prefix, is_empty}
use metering_proxy.Pricing.{Float, ModelPrice, ModalityPrice, MultimodalModelPrice}
use metering_proxy.Pricing.Names.{Table, lookup}
use metering_proxy.Pricing.Names.Found.{lookup-find}
use metering_proxy.Pricing.Cost.NotNegative.{find-all, if_some, and_left, and_right}
use metering_proxy.Pricing.Validate.{
  all, index, validate, validate_multimodal, validate_modality_price, validate_per_image_output,
  is_some, rate_of, Pricing,
}
use metering_proxy.Pricing.Images.{
  equal_fold, normalize_image_size, per_image_input_configured, input_images, output_images,
  output_rate, image_total, priced_images, cost_images, ImageCost,
}

choose_key : (a b c d : Bool) → String × Bool
choose_key a b c d =
    if a
    then ("default", true)
    else if b
    then ("default", false)
    else if c
    then ("1K", false)
    else if d
    then ("2K", false)
    else ("default", true)

choose_key-defaulted :
    (a b c d : Bool) → (choose_key a b c d).1 ≡ true → (choose_key a b c d).0 ≡ "default"
unfolding choose_key
choose_key-defaulted true b c d h = refl
choose_key-defaulted false true c d h = refl
choose_key-defaulted false false true d h = absurd (cc h)
choose_key-defaulted false false false true h = absurd (cc h)
choose_key-defaulted false false false false h = refl

normalize-defaulted :
    (size : Bytes)
    → (normalize_image_size size).1 ≡ true
    → (normalize_image_size size).0 ≡ "default"
unfolding normalize_image_size choose_key
normalize-defaulted size h =
    let s = trim_space size in
    choose_key-defaulted (is_empty s) (equal_fold s (codes "default"))
      (equal_fold s (codes "1K") || has_prefix s (codes "1024"))
      (equal_fold s (codes "2K") || has_prefix s (codes "2048")) h

module _ {F : Type 0} (float : Float F) where
  validate-all_multimodal :
      (ms : List (Bytes × ModelPrice F)) (mms : List (Bytes × MultimodalModelPrice F))
      → validate float ms mms ≡ true
      → all (validate_multimodal float) mms ≡ true
  unfolding validate
  validate-all_multimodal ms mms h = ground (arith)

  validate_multimodal-image :
      (key : Bytes) (mp : MultimodalModelPrice F)
      → validate_multimodal float (key, mp) ≡ true
      → validate_modality_price float mp.image ≡ true
  unfolding validate_multimodal
  validate_multimodal-image key mp h = and_right _ _ (and_left _ _ (and_left _ _ h))

  validate_modality-output :
      (mp : ModalityPrice F)
      → validate_modality_price float mp ≡ true
      → validate_per_image_output float mp.per_image_output_key_set mp.per_image_output ≡ true
  unfolding validate_modality_price
  validate_modality-output mp h = ground (arith)

  has_default :
      (b : Bool) (rates : List (String × F))
      → validate_per_image_output float b (some rates) ≡ true
      → (r : F) × (rate_of "default" rates ≡ some r)
  unfolding validate_per_image_output
  has_default b [] h = absurd (cc h)
  has_default b (e ∷ rates) h = some_of (rate_of "default" (e ∷ rates)) (and_left _ _ h)
    where
      some_of : (o : Option F) → is_some o ≡ true → (r : F) × (o ≡ some r)
      some_of none k = absurd (cc k)
      some_of (some r) k = (r, refl)

  -- The input images have no count or a price.
  abbrev InputPriced : ModalityPrice F → ℤ → Type 0
  InputPriced mp count = (not (is_pos count) || per_image_input_configured float mp) ≡ true

  input_images-known :
      (mp : ModalityPrice F) (count : ℤ)
      → InputPriced mp count
      → (input_images float mp count).1 ≡ true
  unfolding input_images
  input_images-known mp count h = ground arith

  output_images-known :
      (r : F) (count : ℤ) (a : F × Bool) → (output_images float (some r) count a).1 ≡ a.1
  unfolding output_images
  output_images-known r count a = ground arith

  image_total-known :
      (mp : ModalityPrice F) (inputs outputs : ℤ) (key : String) (r : F)
      → InputPriced mp inputs
      → output_rate mp.per_image_output key ≡ some r
      → (image_total float mp inputs outputs key).1 ≡ true
  unfolding image_total
  image_total-known mp inputs outputs key r h e = rw e (
      output_images-known r outputs (input_images float mp inputs) ∙ input_images-known mp inputs h)

  default_rate :
      (mp : ModalityPrice F) (rates : List (String × F)) (key : String)
      → validate_modality_price float mp ≡ true
      → mp.per_image_output ≡ some rates
      → key ≡ "default"
      → (r : F) × (output_rate mp.per_image_output key ≡ some r)
  unfolding output_rate
  default_rate mp rates key h e k =
      let valid = validate_modality-output mp h in
      let (r, found) =
        has_default mp.per_image_output_key_set rates (
          ap (λ o. validate_per_image_output float mp.per_image_output_key_set o) (sym e)
          ∙ valid) in
      (r, ap₂ output_rate e k ∙ found)

  image_valid :
      (ms : List (Bytes × ModelPrice F)) (mms : List (Bytes × MultimodalModelPrice F))
      (p : Pricing F) (model : Bytes) (mp : MultimodalModelPrice F)
      → index float ms mms ≡ some p
      → lookup p.multimodal_table model ≡ some mp
      → validate_modality_price float mp.image ≡ true
  unfolding index
  image_valid ms mms p model mp h e =
      let (valid, same) = if_some _ _ _ h in
      let (key, found) = lookup-find p.multimodal_table model mp e in
      let all_valid : all (validate_multimodal float) mms ≡ true =
        validate-all_multimodal ms mms valid in
      let (k, ok) =
        find-all (validate_multimodal float) key p.multimodal_table.models mp
          (ap (λ t. all (validate_multimodal float) t.multimodal_table.models) (sym same)
            ∙ all_valid)
          found in
      validate_multimodal-image k mp ok

  if-known :
      (b : Bool) (x y : ImageCost F)
      → x.known ≡ true
      → y.known ≡ true
      → (if b then x else y).known ≡ true
  if-known true x y h k = h
  if-known false x y h k = k

  priced_images-known :
      (o : Option (MultimodalModelPrice F)) (mp : MultimodalModelPrice F) (inputs outputs : ℤ)
      (size : String × Bool)
      → o ≡ some mp
      → (image_total float mp.image inputs outputs size.0).1 ≡ true
      → (priced_images float o inputs outputs size).known ≡ true
  unfolding priced_images
  priced_images-known o mp inputs outputs size e h = rw e h

  cost_images_lem :
      (t : Table (MultimodalModelPrice F)) (model : Bytes) (inputs outputs : ℤ) (size : Bytes)
      (mp : MultimodalModelPrice F)
      → lookup t model ≡ some mp
      → (image_total float mp.image inputs outputs (normalize_image_size size).0).1 ≡ true
      → (cost_images float t model inputs outputs size).known ≡ true
  unfolding cost_images
  cost_images_lem t model inputs outputs size mp e h =
      if-known (not (is_pos inputs) && not (is_pos outputs)) _ _ refl
        (priced_images-known (lookup t model) mp inputs outputs (normalize_image_size size) e h)

-- Where Parse accepts the prices and a model has prices of output images, CostImages knows the cost of
-- any number of images at a size that is missing or not recognized, as long as there are no input
-- images or they have a price: the size falls back on a key that Parse has made sure is there.
pub cost_images-known :
    {F : Type 0} (float : Float F) (ms : List (Bytes × ModelPrice F))
    (mms : List (Bytes × MultimodalModelPrice F)) (p : Pricing F) (model : Bytes)
    (mp : MultimodalModelPrice F) (rates : List (String × F)) (inputs outputs : ℤ) (size : Bytes)
    → index float ms mms ≡ some p
    → lookup p.multimodal_table model ≡ some mp
    → mp.image.per_image_output ≡ some rates
    → InputPriced float mp.image inputs
    → (normalize_image_size size).1 ≡ true
    → (cost_images float p.multimodal_table model inputs outputs size).known ≡ true
cost_images-known float ms mms p model mp rates inputs outputs size h e k i d =
    let (r, found) =
      default_rate float mp.image rates (normalize_image_size size).0
        (image_valid float ms mms p model mp h e) k (normalize-defaulted size d) in
    cost_images_lem float p.multimodal_table model inputs outputs size mp e
      (image_total-known float mp.image inputs outputs (normalize_image_size size).0 r i found)
