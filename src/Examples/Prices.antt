-- ===== src/Examples/Prices.antt =====
-- internal/pricing/pricing.go on concrete prices: whole numbers stand for float64.
use mathlib.Core.List.{Memᴰ}
use metering_proxy.Common.{
  ℕ, zero, suc, ◌*◌, ◌/◌, ◌≡◌, refl, inl, String, Bool, true, false, not, none, some, List, [], ◌∷◌,
  Bytes, codes, arith,
}
use metering_proxy.Common.Int64.{ℤ, pos, negsuc, ◌+ℤ◌, ◌-ℤ◌, wrap64, is_pos, is_zero}
use metering_proxy.Common.Trim.{trim_space}
use metering_proxy.Pricing.{
  Float, ModelPrice, LongContextPrice, ModalityPrice, MultimodalModelPrice, TextTokenUsage,
}
use metering_proxy.Pricing.Names.{
  Table, lookup, find, build_alias_index, validate_alias_namespace, is_date_suffix,
}
use metering_proxy.Pricing.Names.Aliases.{lookup-alias}
use metering_proxy.Pricing.Names.Dated.{lookup-dated}
use metering_proxy.Pricing.Cost.{cost_text, cost_with_cache_creation}
use metering_proxy.Pricing.Cost.Input.{Divides, input_breakdown, input_breakdown-Divides}
use metering_proxy.Pricing.Cost.NotNegative.{SignLaws, cost_text-NotBelow}
use metering_proxy.Pricing.Cost.Tier.{table_for, cost_text-cost_with_cache_creation}
use metering_proxy.Pricing.Images.{cost_images, normalize_image_size}
use metering_proxy.Pricing.Images.Known.{cost_images-known}
use metering_proxy.Pricing.Validate.{index, Pricing}

abbrev minus : ℕ → ℤ
minus zero = pos 0
minus (suc n) = negsuc n

abbrev mul_ℤ : ℤ → ℤ → ℤ
mul_ℤ (pos a) (pos b) = pos (a * b)
mul_ℤ (pos a) (negsuc b) = minus (a * suc b)
mul_ℤ (negsuc a) (pos b) = minus (suc a * b)
mul_ℤ (negsuc a) (negsuc b) = pos (suc a * suc b)

-- Division, rounded towards zero.
abbrev div_ℤ : ℤ → ℤ → ℤ
div_ℤ (pos a) (pos b) = pos (a / b)
div_ℤ (pos a) (negsuc b) = minus (a / suc b)
div_ℤ (negsuc a) (pos b) = minus (suc a / b)
div_ℤ (negsuc a) (negsuc b) = pos (suc a / suc b)

abbrev is_neg : ℤ → Bool
is_neg (pos a) = false
is_neg (negsuc a) = true

abbrev whole : Float ℤ
whole = record {
  nought = pos 0;
  million = pos 1000000;
  sixty = pos 60;
  of_int64 = λ n. n;
  add = λ a b. a +ℤ b;
  mul = mul_ℤ;
  div = div_ℤ;
  above_zero = is_pos;
  below_zero = is_neg;
  zero_or_less = λ n. not (is_pos n);
  is_zero = is_zero;
  is_nan = λ n. false;
  is_inf = λ n. false;
}

add-is_neg : (a b : ℤ) → is_neg a ≡ false → is_neg b ≡ false → is_neg (a +ℤ b) ≡ false
unfolding ◌+ℤ◌
add-is_neg (pos a) (pos b) h k = ground arith
add-is_neg (pos a) (negsuc b) h k = absurd (cc k)
add-is_neg (negsuc a) b h k = absurd (cc h)

mul-is_neg : (a b : ℤ) → is_neg a ≡ false → is_neg b ≡ false → is_neg (mul_ℤ a b) ≡ false
mul-is_neg (pos a) (pos b) h k = refl
mul-is_neg (pos a) (negsuc b) h k = absurd (cc k)
mul-is_neg (negsuc a) b h k = absurd (cc h)

abbrev whole_signs : SignLaws whole
whole_signs = record {
  nought_sign = refl;
  add_sign = add-is_neg;
  mul_sign = mul-is_neg;
  count_sign = λ n. refl;
}

abbrev long_price : LongContextPrice ℤ
long_price = record {
  threshold_input_tokens = pos 3000000;
  input_per_1m = pos 4;
  cached_input_per_1m = pos 2;
  output_per_1m = pos 16;
  reasoning_per_1m = pos 0;
  cache_creation_per_1m = pos 6;
}

-- 2 for a million input tokens, 8 for output, and twice that from 3000000 input tokens on.
abbrev tiered : ModelPrice ℤ
tiered = record {
  input_per_1m = pos 2;
  cached_input_per_1m = pos 1;
  output_per_1m = pos 8;
  reasoning_per_1m = pos 0;
  cache_creation_per_1m = pos 3;
  aliases = codes " best " ∷ [];
  long_context = some long_price;
}

abbrev no_price : ModalityPrice ℤ
no_price = record {
  input_per_1m = pos 0;
  cached_input_per_1m = pos 0;
  output_per_1m = pos 0;
  reasoning_per_1m = pos 0;
  per_second = pos 0;
  input_per_second = pos 0;
  output_per_second = pos 0;
  per_minute = pos 0;
  input_per_minute = pos 0;
  output_per_minute = pos 0;
  per_image_input = pos 0;
  per_image_output = none;
  has_per_image_input = false;
  per_image_output_key_set = false;
}

abbrev image_rates : List (String × ℤ)
image_rates = ("2K", pos 9) ∷ ("default", pos 5) ∷ []

abbrev painter : MultimodalModelPrice ℤ
painter = record {
  text = record no_price { output_per_1m = pos 7 };
  image = record no_price { per_image_output = some image_rates };
  audio = no_price;
  audio_seconds = no_price;
  aliases = [];
}

abbrev models : List (Bytes × ModelPrice ℤ)
models = (codes "gpt-5", tiered) ∷ []

abbrev painters : List (Bytes × MultimodalModelPrice ℤ)
painters = (codes "gpt-image", painter) ∷ []

abbrev painter_table : Table (MultimodalModelPrice ℤ)
painter_table = record { models = painters; alias_index = [] }

abbrev priced : Pricing ℤ
priced = record {
  text_table = record {
    models = models;
    alias_index = build_alias_index (λ mp. mp.aliases) models;
  };
  multimodal_table = painter_table;
}

-- A request of 2000000 input tokens, a million of them cached, and a million output tokens.
abbrev request : TextTokenUsage
request = record {
  input_tokens = pos 2000000;
  output_tokens = pos 1000000;
  reasoning_tokens = pos 0;
  cached_tokens = pos 1000000;
  cache_creation_tokens = pos 0;
  request_input_tokens = pos 2000000;
}

index-priced : index whole models painters ≡ some priced
unfolding index
index-priced = refl

cost_priced : cost_text whole priced.text_table (codes "gpt-5-2026-03-18") request ≡ some (pos 11)
unfolding cost_text build_alias_index ◌+ℤ◌ wrap64 ◌-ℤ◌
cost_priced = refl

input_breakdown-Divides_example :
    Divides 2000000 1500000 1000000 (input_breakdown (pos 2000000) (pos 1500000) (pos 1000000))
input_breakdown-Divides_example =
    input_breakdown-Divides 2000000 (pos 1500000) (pos 1000000) (omega arith) (omega arith)

cost_text-NotBelow_example : is_neg (pos 11) ≡ false
cost_text-NotBelow_example =
    cost_text-NotBelow whole whole_signs models painters priced (codes "gpt-5-2026-03-18") request
      (pos 11) index-priced refl cost_priced

-- At the threshold.
abbrev long_request : TextTokenUsage
long_request = record request { request_input_tokens = pos 3000000 }

cost_text-cost_with_cache_creation_example :
    cost_text whole priced.text_table (codes "gpt-5") long_request
    ≡ cost_with_cache_creation whole
        (table_for (pos 3000000) priced.text_table)
        (codes "gpt-5")
        (pos 2000000)
        (pos 1000000)
        (pos 0)
        (pos 1000000)
        (pos 0)
cost_text-cost_with_cache_creation_example =
    cost_text-cost_with_cache_creation whole priced.text_table (codes "gpt-5") long_request

painter_found : lookup painter_table (codes "gpt-image") ≡ some painter
unfolding lookup
painter_found = refl

odd_size : (normalize_image_size (codes "4096x4096")).1 ≡ true
unfolding normalize_image_size
odd_size = refl

cost_images-known_example :
    (cost_images whole painter_table (codes "gpt-image") (pos 0) (pos 2) (codes "4096x4096")).known
    ≡ true
cost_images-known_example =
    cost_images-known whole models painters priced (codes "gpt-image") painter image_rates (pos 0)
      (pos 2) (codes "4096x4096") index-priced painter_found refl refl odd_size

dated : is_date_suffix (codes "-2026-03-18") ≡ true
unfolding is_date_suffix
dated = refl

no_dated_model : find (codes "gpt-5-2026-03-18") models ≡ none
unfolding find
no_dated_model = refl

no_dated_alias : find (codes "gpt-5-2026-03-18") priced.text_table.alias_index ≡ none
unfolding find build_alias_index
no_dated_alias = refl

lookup-dated_example :
    lookup priced.text_table (codes "gpt-5-2026-03-18") ≡ find (codes "gpt-5") models
lookup-dated_example =
    lookup-dated priced.text_table (codes "gpt-5") (codes "-2026-03-18") (omega arith) (inl dated)
      no_dated_model no_dated_alias

aliases_valid : validate_alias_namespace (λ mp. mp.aliases) models ≡ true
unfolding validate_alias_namespace
aliases_valid = refl

tiered_found : find (codes "gpt-5") models ≡ some tiered
unfolding find
tiered_found = refl

lookup-alias_example : lookup priced.text_table (trim_space (codes " best ")) ≡ some tiered
lookup-alias_example =
    lookup-alias (λ mp. mp.aliases) models (codes "gpt-5") (codes " best ") tiered aliases_valid
      tiered_found (Memᴰ.head refl)
