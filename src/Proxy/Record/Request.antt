-- ===== src/Proxy/Record/Request.antt =====
-- internal/proxy/proxy.go: what is known of a request, and which profiles are of images.
use metering_proxy.Common.{
  String, Bool, false, ◌||◌, Option, none, some, codes, str_eq, if◌then◌else◌,
}
use metering_proxy.Common.Int64.{ℤ, is_pos}
use metering_proxy.Common.Trim.{has_prefix}
use metering_proxy.Extractor.{UsageInfo}
use metering_proxy.Profile.{EndpointProfile}

-- requestUsageMetadata
pub record RequestUsageMetadata : Type 0 where
  pub size : String
  pub quality : String
  pub output_format : String
  pub stream : Bool
  pub input_image_count : ℤ
  pub has_mask : Bool

abbrev pub pick : String → String → String
pick a b = if str_eq a "" then b else a

-- mergeRequestUsageMetadata
unfoldable pub merge_request_usage_metadata :
    RequestUsageMetadata → RequestUsageMetadata → RequestUsageMetadata
merge_request_usage_metadata base observed = record {
  size = pick observed.size base.size;
  quality = pick observed.quality base.quality;
  output_format = pick observed.output_format base.output_format;
  stream = base.stream || observed.stream;
  input_image_count =
      if is_pos observed.input_image_count
      then observed.input_image_count
      else base.input_image_count;
  has_mask = observed.has_mask || base.has_mask;
}

unfoldable pub is_image_profile : Option EndpointProfile → Bool
unfolding has_prefix
is_image_profile none = false
is_image_profile (some p) = has_prefix (codes p.name) (codes "openai_images_")

unfoldable pub should_record_image_usage : Option EndpointProfile → Option UsageInfo → Bool
unfolding is_image_profile
should_record_image_usage prof none = is_image_profile prof
should_record_image_usage prof (some u) =
    is_image_profile prof || is_pos u.image_count || is_pos u.partial_image_count

-- usesPrefixTailSampling
unfoldable pub uses_prefix_tail_sampling : Option EndpointProfile → Bool
unfolding is_image_profile
uses_prefix_tail_sampling none = false
uses_prefix_tail_sampling (some p) =
    is_image_profile (some p)
    || str_eq p.name "responses"
    || str_eq p.name "gemini_generate_content"
