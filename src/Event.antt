-- ===== src/Event.antt =====
-- internal/event/event.go: the domain event of one metered request, and the constants that the
-- model uses. `T` is the type of time.Time and `F` that of float64: neither is looked into here.
-- Texts that the code only compares are native strings; the raw usage JSON is a list of bytes.
pub mod Record
pub mod Mapping
pub mod Faithful
use metering_proxy.Common.{String, Bool, Option, List, Bytes}
use metering_proxy.Common.Int64.{ℤ}

pub record UsageDimension (F : Type 0) : Type 0 where
  pub endpoint_profile : String
  pub provider : String
  pub model : String
  pub modality : String
  pub channel : String
  pub metric : String
  pub direction : String
  pub unit : String
  pub amount : F
  pub usage_source : String
  pub capture_outcome : String
  pub capture_reason : String
  pub details_json : String

pub record ImageUsage : Type 0 where
  pub operation : String
  pub provider : String
  pub model_requested : String
  pub model_returned : String
  pub size : String
  pub quality : String
  pub output_format : String
  pub stream : Bool
  pub image_count : ℤ
  pub partial_image_count : ℤ
  pub input_image_count : ℤ
  pub has_mask : Bool
  pub usage_source : String
  pub capture_outcome : String
  pub capture_reason : String
  pub metadata_json : String

pub record Event (T F : Type 0) : Type 0 where
  pub id : String
  pub timestamp : T
  pub endpoint_profile : String
  pub capture_mode : String
  pub metering_kind : String
  pub method : String
  pub path : String
  pub status : ℤ
  pub stream : Bool
  pub latency_ms : ℤ
  pub ttfb_ms : ℤ
  pub api_key_hash : String
  pub client_ip_hash : String
  pub model_requested : String
  pub model_returned : String
  pub input_tokens : ℤ
  pub output_tokens : ℤ
  pub reasoning_tokens : ℤ
  pub cached_tokens : ℤ
  pub cache_creation_tokens : ℤ
  pub total_tokens : ℤ
  pub billable_input : F
  pub billable_output : F
  pub billable_total : F
  pub billable_unit : String
  pub usage_raw_json : Bytes
  pub usage_raw_truncated : Bool
  pub capture_outcome : String
  pub capture_reason : String
  pub error_class : String
  pub error_type : String
  pub error_code : String
  pub error_param : String
  pub error_message : String
  pub error_message_truncated : Bool
  pub request_bytes : ℤ
  pub response_bytes : ℤ
  pub error : String
  pub model_returned_source : String
  pub usage_source : String
  pub terminal_event : String
  pub terminal_reason : String
  pub side_usage_event_id : ℤ
  pub usage_dimensions : List (UsageDimension F)
  pub image_usage : Option ImageUsage

abbrev pub capture_passthrough : String
capture_passthrough = "passthrough"

abbrev pub capture_request_only : String
capture_request_only = "request_only"

abbrev pub capture_usage_metered : String
capture_usage_metered = "usage_metered"

abbrev pub metering_none : String
metering_none = "none"

abbrev pub metering_llm_tokens : String
metering_llm_tokens = "llm_tokens"

abbrev pub metering_embedding_tokens : String
metering_embedding_tokens = "embedding_tokens"

abbrev pub metering_image_tokens : String
metering_image_tokens = "image_tokens"

abbrev pub metering_request_only : String
metering_request_only = "request_only"

abbrev pub outcome_captured : String
outcome_captured = "captured"

abbrev pub outcome_skipped : String
outcome_skipped = "skipped"

abbrev pub outcome_failed : String
outcome_failed = "failed"

abbrev pub reason_request_only_profile : String
reason_request_only_profile = "request_only_profile"

abbrev pub reason_usage_not_present : String
reason_usage_not_present = "usage_not_present"

abbrev pub reason_parse_error : String
reason_parse_error = "parse_error"

abbrev pub source_usage : String
source_usage = "usage"

abbrev pub usage_source_http_response : String
usage_source_http_response = "http_response"

abbrev pub terminal_stream_error : String
terminal_stream_error = "stream_error"
