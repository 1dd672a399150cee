-- ===== src/Examples/Events.antt =====
-- The theorem on stored events at a concrete event; times and amounts are numbers here.
use metering_proxy.Common.{ℕ, String, false, none, [], ◌∷◌}
use metering_proxy.Common.Int64.{pos}
use metering_proxy.Event.{Event, UsageDimension}
use metering_proxy.Event.Mapping.{event_to_record}
use metering_proxy.Event.Faithful.{Children, event_to_record-Children}

abbrev token_dimension : UsageDimension ℕ
token_dimension = record {
  endpoint_profile = "chat";
  provider = "";
  model = "";
  modality = "";
  channel = "";
  metric = "";
  direction = "";
  unit = "";
  amount = 7;
  usage_source = "";
  capture_outcome = "";
  capture_reason = "";
  details_json = "";
}

-- It leaves nothing to the event.
abbrev own_dimension : UsageDimension ℕ
own_dimension = record token_dimension {
  usage_source = "side";
  capture_outcome = "failed";
  capture_reason = "parse_error";
  details_json = "{1}";
}

abbrev small_event : Event ℕ ℕ
small_event = record {
  id = "req-1";
  timestamp = 1700;
  endpoint_profile = "chat";
  capture_mode = "";
  metering_kind = "";
  method = "";
  path = "";
  status = pos 0;
  stream = false;
  latency_ms = pos 0;
  ttfb_ms = pos 0;
  api_key_hash = "";
  client_ip_hash = "";
  model_requested = "";
  model_returned = "";
  input_tokens = pos 0;
  output_tokens = pos 0;
  reasoning_tokens = pos 0;
  cached_tokens = pos 0;
  cache_creation_tokens = pos 0;
  total_tokens = pos 0;
  billable_input = 0;
  billable_output = 0;
  billable_total = 0;
  billable_unit = "";
  usage_raw_json = [];
  usage_raw_truncated = false;
  capture_outcome = "";
  capture_reason = "";
  error_class = "";
  error_type = "";
  error_code = "";
  error_param = "";
  error_message = "";
  error_message_truncated = false;
  request_bytes = pos 0;
  response_bytes = pos 0;
  error = "";
  model_returned_source = "";
  usage_source = "";
  terminal_event = "";
  terminal_reason = "";
  side_usage_event_id = pos 0;
  usage_dimensions = token_dimension ∷ own_dimension ∷ [];
  image_usage = none;
}

abbrev format_time : ℕ → String
format_time n = "2023"

event_to_record-Children_example :
    Children format_time small_event small_event.usage_dimensions
      (event_to_record format_time small_event).usage_dimensions
event_to_record-Children_example = event_to_record-Children format_time small_event
