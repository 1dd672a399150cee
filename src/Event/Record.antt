-- ===== src/Event/Record.antt =====
-- internal/db/db.go: the rows that an event is stored as.
use metering_proxy.Common.{String, Bool, Option, List, Bytes}
use metering_proxy.Common.Int64.{ℤ}

pub record UsageDimensionRecord (F : Type 0) : Type 0 where
  pub request_usage_id : ℤ
  pub request_id : String
  pub created_at : String
  pub created_at_unix : ℤ
  pub endpoint_profile : String
  pub provider : String
  pub model : String
  pub modality : String
  pub channel : String
  pub metric : String
  pub direction : String
  pub unit : String
  pub amount : F
  pub usage_source : String
  pub capture_outcome : String
  pub capture_reason : String
  pub details_json : String

pub record ImageUsageRecord : Type 0 where
  pub request_usage_id : ℤ
  pub request_id : String
  pub created_at : String
  pub created_at_unix : ℤ
  pub operation : String
  pub provider : String
  pub model_requested : String
  pub model_returned : String
  pub size : String
  pub quality : String
  pub output_format : String
  pub stream : Bool
  pub image_count : ℤ
  pub partial_image_count : ℤ
  pub input_image_count : ℤ
  pub has_mask : Bool
  pub usage_source : String
  pub capture_outcome : String
  pub capture_reason : String
  pub metadata_json : String

pub record UsageRecord (F : Type 0) : Type 0 where
  pub created_at : String
  pub request_id : String
  pub endpoint : String
  pub method : String
  pub status : ℤ
  pub latency_ms : ℤ
  pub ttfb_ms : ℤ
  pub stream : Bool
  pub client_ip_hash : String
  pub api_key_hash : String
  pub model_requested : String
  pub model_returned : String
  pub input_tokens : ℤ
  pub output_tokens : ℤ
  pub reasoning_tokens : ℤ
  pub cached_tokens : ℤ
  pub cache_creation_tokens : ℤ
  pub total_tokens : ℤ
  pub request_bytes : ℤ
  pub response_bytes : ℤ
  pub error : String
  pub endpoint_profile : String
  pub capture_mode : String
  pub metering_kind : String
  pub usage_raw_json : Bytes
  pub usage_raw_truncated : Bool
  pub billable_input : F
  pub billable_output : F
  pub billable_total : F
  pub billable_unit : String
  pub capture_outcome : String
  pub capture_reason : String
  pub error_class : String
  pub error_type : String
  pub error_code : String
  pub error_param : String
  pub error_message : String
  pub error_message_truncated : Bool
  pub model_returned_source : String
  pub usage_source : String
  pub terminal_event : String
  pub terminal_reason : String
  pub side_usage_event_id : ℤ
  pub usage_dimensions : List (UsageDimensionRecord F)
  pub image_usage : Option ImageUsageRecord
