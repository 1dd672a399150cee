-- ===== src/Event/Mapping.antt =====
-- internal/event/mapping.go: the database rows of an event. `format` stands for
-- Timestamp.UTC().Format(time.RFC3339). A field that a literal does not set has Go's zero value.
use metering_proxy.Common.{String, Option, none, some, map, str_eq, if◌then◌else◌}
use metering_proxy.Common.Int64.{pos}
use metering_proxy.Event.{Event, UsageDimension, ImageUsage}
use metering_proxy.Event.Record.{UsageRecord, UsageDimensionRecord, ImageUsageRecord}

-- valueOrDefault
unfoldable pub value_or_default : String → String → String
value_or_default value fallback = if str_eq value "" then fallback else value

module _ {T F : Type 0} (format : T → String) where
  -- one round of the loop over e.UsageDimensions
  unfoldable pub dimension_to_record : Event T F → UsageDimension F → UsageDimensionRecord F
  unfolding value_or_default
  dimension_to_record e d = record {
    request_usage_id = pos 0;
    request_id = e.id;
    created_at = format e.timestamp;
    created_at_unix = pos 0;
    endpoint_profile = value_or_default d.endpoint_profile e.endpoint_profile;
    provider = d.provider;
    model = d.model;
    modality = d.modality;
    channel = d.channel;
    metric = d.metric;
    direction = d.direction;
    unit = d.unit;
    amount = d.amount;
    usage_source = value_or_default d.usage_source e.usage_source;
    capture_outcome = value_or_default d.capture_outcome e.capture_outcome;
    capture_reason = value_or_default d.capture_reason e.capture_reason;
    details_json = value_or_default d.details_json "{}";
  }

  unfoldable pub image_to_record : Event T F → ImageUsage → ImageUsageRecord
  unfolding value_or_default
  image_to_record e u = record {
    request_usage_id = pos 0;
    request_id = e.id;
    created_at = format e.timestamp;
    created_at_unix = pos 0;
    operation = u.operation;
    provider = u.provider;
    model_requested = value_or_default u.model_requested e.model_requested;
    model_returned = value_or_default u.model_returned e.model_returned;
    size = u.size;
    quality = u.quality;
    output_format = u.output_format;
    stream = u.stream;
    image_count = u.image_count;
    partial_image_count = u.partial_image_count;
    input_image_count = u.input_image_count;
    has_mask = u.has_mask;
    usage_source = value_or_default u.usage_source e.usage_source;
    capture_outcome = value_or_default u.capture_outcome e.capture_outcome;
    capture_reason = value_or_default u.capture_reason e.capture_reason;
    metadata_json = value_or_default u.metadata_json "{}";
  }

  image_record : Event T F → Option ImageUsage → Option ImageUsageRecord
  unfolding image_to_record
  image_record e none = none
  image_record e (some u) = some (image_to_record e u)

  -- EventToRecord
  unfoldable pub event_to_record : Event T F → UsageRecord F
  unfolding dimension_to_record image_record
  event_to_record e = record {
    created_at = format e.timestamp;
    request_id = e.id;
    endpoint = e.path;
    method = e.method;
    status = e.status;
    latency_ms = e.latency_ms;
    ttfb_ms = e.ttfb_ms;
    stream = e.stream;
    client_ip_hash = e.client_ip_hash;
    api_key_hash = e.api_key_hash;
    model_requested = e.model_requested;
    model_returned = e.model_returned;
    input_tokens = e.input_tokens;
    output_tokens = e.output_tokens;
    reasoning_tokens = e.reasoning_tokens;
    cached_tokens = e.cached_tokens;
    cache_creation_tokens = e.cache_creation_tokens;
    total_tokens = e.total_tokens;
    request_bytes = e.request_bytes;
    response_bytes = e.response_bytes;
    error = e.error;
    endpoint_profile = e.endpoint_profile;
    capture_mode = e.capture_mode;
    metering_kind = e.metering_kind;
    usage_raw_json = e.usage_raw_json;
    usage_raw_truncated = e.usage_raw_truncated;
    billable_input = e.billable_input;
    billable_output = e.billable_output;
    billable_total = e.billable_total;
    billable_unit = e.billable_unit;
    capture_outcome = e.capture_outcome;
    capture_reason = e.capture_reason;
    error_class = e.error_class;
    error_type = e.error_type;
    error_code = e.error_code;
    error_param = e.error_param;
    error_message = e.error_message;
    error_message_truncated = e.error_message_truncated;
    model_returned_source = e.model_returned_source;
    usage_source = e.usage_source;
    terminal_event = e.terminal_event;
    terminal_reason = e.terminal_reason;
    side_usage_event_id = e.side_usage_event_id;
    usage_dimensions = map (dimension_to_record e) e.usage_dimensions;
    image_usage = image_record e e.image_usage;
  }
