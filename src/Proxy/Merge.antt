-- ===== src/Proxy/Merge.antt =====
-- internal/proxy/proxy.go, mergeUsageInfo: the usages of a stream's events, put together. A nil
-- pointer is `none`; the copies that the source makes are values here.
pub mod Anthropic
use metering_proxy.Common.{
  ℕ, ◌+◌, ◌<◌, ◌^◌, ◌≡◌, ◌≢◌, refl, String, Bool, true, false, not, ◌&&◌, ◌||◌, Option, none, some,
  List, [], ◌∷◌, Bytes, str_eq, ◌==◌, if◌then◌else◌, arith,
}
use metering_proxy.Common.Trim.{is_empty}
use metering_proxy.Common.Int64.{ℤ, pos, negsuc, is_zero, add64, add64_nonneg}
use metering_proxy.Extractor.{UsageInfo}

unfoldable pub eq_ℤ : ℤ → ℤ → Bool
eq_ℤ (pos a) (pos b) = a == b
eq_ℤ (pos a) (negsuc b) = false
eq_ℤ (negsuc a) (pos b) = false
eq_ℤ (negsuc a) (negsuc b) = a == b

-- The next value, where there is one.
unfoldable pub or_text : String → String → String
or_text current next = if str_eq next "" then current else next

unfoldable pub or_count : ℤ → ℤ → ℤ
or_count current next = if is_zero next then current else next

unfoldable pub merged_total : UsageInfo → UsageInfo → ℤ
unfolding or_count eq_ℤ add64
merged_total current next =
    let input = or_count current.input_tokens next.input_tokens in
    let output = or_count current.output_tokens next.output_tokens in
    if not (is_zero next.total_tokens)
    then (if is_zero next.input_tokens
          && not (is_zero next.output_tokens)
          && not (is_zero current.input_tokens)
          && eq_ℤ next.total_tokens next.output_tokens
        then add64 input next.output_tokens
        else next.total_tokens)
    else if not (is_zero next.input_tokens)
        || not (is_zero next.output_tokens)
        || not (is_zero next.reasoning_tokens)
        || not (is_zero next.cached_tokens)
    then add64 input output
    else current.total_tokens

unfoldable pub merge_some : UsageInfo → UsageInfo → UsageInfo
unfolding merged_total or_text or_count add64
merge_some current next = record {
  model = or_text current.model next.model;
  input_tokens = or_count current.input_tokens next.input_tokens;
  output_tokens = or_count current.output_tokens next.output_tokens;
  reasoning_tokens = or_count current.reasoning_tokens next.reasoning_tokens;
  cached_tokens = or_count current.cached_tokens next.cached_tokens;
  cache_creation_tokens = or_count current.cache_creation_tokens next.cache_creation_tokens;
  total_tokens = merged_total current next;
  usage_raw_json =
      if is_empty next.usage_raw_json then current.usage_raw_json else next.usage_raw_json;
  input_text_tokens = or_count current.input_text_tokens next.input_text_tokens;
  input_image_tokens = or_count current.input_image_tokens next.input_image_tokens;
  cached_text_tokens = or_count current.cached_text_tokens next.cached_text_tokens;
  cached_image_tokens = or_count current.cached_image_tokens next.cached_image_tokens;
  image_count = or_count current.image_count next.image_count;
  partial_image_count =
      if is_zero next.partial_image_count
      then current.partial_image_count
      else add64 current.partial_image_count next.partial_image_count;
  input_image_count = or_count current.input_image_count next.input_image_count;
  operation = or_text current.operation next.operation;
  size = or_text current.size next.size;
  quality = or_text current.quality next.quality;
  output_format = or_text current.output_format next.output_format;
  has_mask = current.has_mask || next.has_mask;
}

-- mergeUsageInfo
unfoldable pub merge_usage_info : Option UsageInfo → Option UsageInfo → Option UsageInfo
unfolding merge_some
merge_usage_info current none = current
merge_usage_info none (some next) = some next
merge_usage_info (some current) (some next) = some (merge_some current next)

-- lastUsage of handleStream, over the usages that the events gave.
unfoldable pub merge_all : Option UsageInfo → List (Option UsageInfo) → Option UsageInfo
unfolding merge_usage_info
merge_all last [] = last
merge_all last (u ∷ us) = merge_all (merge_usage_info last u) us
