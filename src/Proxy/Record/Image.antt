-- ===== src/Proxy/Record/Image.antt =====
-- internal/proxy/proxy.go, buildImageUsage: what an event says of images.
use metering_proxy.Common.{String, not, ◌||◌, Option, none, some, str_eq, if◌then◌else◌}
use metering_proxy.Common.Int64.{pos, is_zero}
use metering_proxy.Event.{Event, ImageUsage}
use metering_proxy.Extractor.{UsageInfo}
use metering_proxy.Profile.{EndpointProfile}
use metering_proxy.Proxy.Record.Request.{RequestUsageMetadata, pick, should_record_image_usage}

profile_operation : Option EndpointProfile → String
profile_operation none = "generation"
profile_operation (some p) =
    if str_eq p.name "openai_images_edits"
    then "edit"
    else if str_eq p.name "openai_images_variations"
    then "variation"
    else "generation"

unfoldable pub image_operation : Option EndpointProfile → Option UsageInfo → String
unfolding profile_operation
image_operation prof none = profile_operation prof
image_operation prof (some u) = pick u.operation (profile_operation prof)

-- The fields of a usage that replace those of the request.
unfoldable pub with_usage : Option UsageInfo → ImageUsage → ImageUsage
with_usage none img = img
with_usage (some u) img = record img {
  image_count = u.image_count;
  partial_image_count = u.partial_image_count;
  input_image_count =
      if is_zero u.input_image_count then img.input_image_count else u.input_image_count;
  size = pick u.size img.size;
  quality = pick u.quality img.quality;
  output_format = pick u.output_format img.output_format;
  has_mask = u.has_mask || img.has_mask;
}

unfoldable pub build_image_usage :
    {T F : Type 0}
    → Option EndpointProfile
    → Event T F
    → RequestUsageMetadata
    → Option UsageInfo
    → Option ImageUsage
unfolding should_record_image_usage image_operation with_usage
build_image_usage prof ev meta usage =
    if not (should_record_image_usage prof usage)
    then none
    else some (
        with_usage usage record {
          operation = image_operation prof usage;
          provider = "";
          model_requested = ev.model_requested;
          model_returned = ev.model_returned;
          size = meta.size;
          quality = meta.quality;
          output_format = meta.output_format;
          stream = ev.stream || meta.stream;
          image_count = pos 0;
          partial_image_count = pos 0;
          input_image_count = meta.input_image_count;
          has_mask = meta.has_mask;
          usage_source = ev.usage_source;
          capture_outcome = ev.capture_outcome;
          capture_reason = ev.capture_reason;
          metadata_json = "{}";
        })
