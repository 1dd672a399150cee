-- ===== src/Proxy/Record.antt =====
-- internal/proxy/proxy.go, recordUsage: the event of a finished request, which goes to the writer's
-- Enqueue. `of_int64` is the conversion float64(n), `is_nought` the test `amount == 0`, and `nought`
-- the float 0. The durations, of which one reads the clock, are fields of the arguments.
pub mod Raw
pub mod Request
pub mod Rows
pub mod Image
pub mod Stored
use metering_proxy.Common.{
  String, Bool, true, false, not, ◌&&◌, ◌||◌, Option, none, some, List, [], ◌∷◌, ◌++◌, Bytes, codes,
  str_eq, if◌then◌else◌,
}
use metering_proxy.Common.Int64.{ℤ, pos, ltb_ℤ, is_zero, is_pos}
use metering_proxy.Common.Trim.{has_prefix, is_empty}
use metering_proxy.Event.{
  Event, UsageDimension, ImageUsage, capture_passthrough, metering_none, capture_request_only,
  metering_image_tokens, metering_embedding_tokens, outcome_captured, source_usage,
  usage_source_http_response,
}
use metering_proxy.Extractor.{UsageInfo, ErrorInfo}
use metering_proxy.Profile.{EndpointProfile}
use Raw.{truncate_usage_raw_json}
use Request.{RequestUsageMetadata}
use Rows.{Row, all_rows}
use Image.{build_image_usage}

name_of : Option EndpointProfile → String
name_of none = ""
name_of (some p) = p.name

capture_mode_of : Option EndpointProfile → String
capture_mode_of none = capture_passthrough
capture_mode_of (some p) = p.capture_mode

metering_kind_of : Option EndpointProfile → String
metering_kind_of none = metering_none
metering_kind_of (some p) = p.metering_kind

-- firstNonEmptyString
unfoldable pub first_non_empty_string : List String → String
first_non_empty_string [] = ""
first_non_empty_string (v ∷ vs) =
    let rest = first_non_empty_string vs in if str_eq v "" then rest else v

-- The arguments of recordUsage.
pub record Finished (T : Type 0) : Type 0 where
  pub start : T
  pub latency_ms : ℤ
  pub ttfb_ms : ℤ
  pub prof : Option EndpointProfile
  pub endpoint : String
  pub method : String
  pub request_id : String
  pub status : ℤ
  pub stream : Bool
  pub client_ip_hash : String
  pub api_key_hash : String
  pub model_requested : String
  pub request_meta : RequestUsageMetadata
  pub usage : Option UsageInfo
  pub request_bytes : ℤ
  pub response_bytes : ℤ
  pub err_str : String
  pub capture_outcome : String
  pub capture_reason : String
  pub err_info : Option ErrorInfo
  pub model_returned : String
  pub model_returned_source : String
  pub terminal_event : String
  pub terminal_reason : String

module _ {T F : Type 0} where
  -- ev, after its literal.
  unfoldable pub first_event : F → Finished T → Event T F
  unfolding name_of capture_mode_of metering_kind_of
  first_event nought r = record {
    id = r.request_id;
    timestamp = r.start;
    endpoint_profile = name_of r.prof;
    capture_mode = capture_mode_of r.prof;
    metering_kind = metering_kind_of r.prof;
    method = r.method;
    path = r.endpoint;
    status = r.status;
    stream = r.stream;
    latency_ms = r.latency_ms;
    ttfb_ms = r.ttfb_ms;
    api_key_hash = r.api_key_hash;
    client_ip_hash = r.client_ip_hash;
    model_requested = r.model_requested;
    model_returned = r.model_returned;
    input_tokens = pos 0;
    output_tokens = pos 0;
    reasoning_tokens = pos 0;
    cached_tokens = pos 0;
    cache_creation_tokens = pos 0;
    total_tokens = pos 0;
    billable_input = nought;
    billable_output = nought;
    billable_total = nought;
    billable_unit = "";
    usage_raw_json = [];
    usage_raw_truncated = false;
    capture_outcome = r.capture_outcome;
    capture_reason = r.capture_reason;
    error_class = "";
    error_type = "";
    error_code = "";
    error_param = "";
    error_message = "";
    error_message_truncated = false;
    request_bytes = if ltb_ℤ r.request_bytes (pos 0) then pos 0 else r.request_bytes;
    response_bytes = r.response_bytes;
    error = r.err_str;
    model_returned_source = r.model_returned_source;
    usage_source = "";
    terminal_event = r.terminal_event;
    terminal_reason = r.terminal_reason;
    side_usage_event_id = pos 0;
    usage_dimensions = [];
    image_usage = none;
  }

  unfoldable pub with_error : Option ErrorInfo → Event T F → Event T F
  with_error none ev = ev
  with_error (some i) ev = record ev {
    error_class = i.class;
    error_type = i.type;
    error_code = i.code;
    error_param = i.param;
  }

  unfoldable pub with_counts : Option UsageInfo → Event T F → Event T F
  unfolding truncate_usage_raw_json
  with_counts none ev = ev
  with_counts (some u) ev =
      let raw = truncate_usage_raw_json u.usage_raw_json in
      record ev {
        model_returned = if str_eq u.model "" then ev.model_returned else u.model;
        input_tokens = u.input_tokens;
        output_tokens = u.output_tokens;
        reasoning_tokens = u.reasoning_tokens;
        cached_tokens = u.cached_tokens;
        cache_creation_tokens = u.cache_creation_tokens;
        total_tokens = u.total_tokens;
        capture_outcome =
            if str_eq ev.capture_outcome "" then outcome_captured else ev.capture_outcome;
        model_returned_source =
            if str_eq ev.model_returned_source "" then source_usage else ev.model_returned_source;
        usage_source = usage_source_http_response;
        usage_raw_json = if is_empty u.usage_raw_json then ev.usage_raw_json else raw.0;
        usage_raw_truncated = if is_empty u.usage_raw_json then ev.usage_raw_truncated else raw.1;
      }

module _ {T F : Type 0} (of_int64 : ℤ → F) (is_nought : F → Bool) where
  -- The row that `add` appends.
  unfoldable pub dimension : Event T F → Row → UsageDimension F
  unfolding first_non_empty_string
  dimension ev r = record {
    endpoint_profile = ev.endpoint_profile;
    provider = "";
    model = first_non_empty_string (ev.model_returned ∷ ev.model_requested ∷ []);
    modality = r.modality;
    channel = r.channel;
    metric = r.metric;
    direction = r.direction;
    unit = r.unit;
    amount = of_int64 r.count;
    usage_source = ev.usage_source;
    capture_outcome = ev.capture_outcome;
    capture_reason = ev.capture_reason;
    details_json = "{}";
  }

  -- The calls of `add`.
  unfoldable pub add_rows : Event T F → List Row → List (UsageDimension F)
  unfolding dimension
  add_rows ev [] = []
  add_rows ev (r ∷ rs) =
      let rest = add_rows ev rs in
      if is_nought (of_int64 r.count) then rest else dimension ev r ∷ rest

  unfoldable pub build_usage_dimensions :
      Option EndpointProfile → Event T F → Option UsageInfo → List (UsageDimension F)
  unfolding add_rows all_rows
  build_usage_dimensions prof ev usage =
      add_rows ev (all_rows prof ev.endpoint_profile ev.metering_kind usage)

  -- recordUsage, up to Enqueue.
  unfoldable pub record_usage : F → Finished T → Event T F
  unfolding first_event with_error with_counts build_usage_dimensions build_image_usage
  record_usage nought r =
      let ev = with_counts r.usage (with_error r.err_info (first_event nought r)) in
      record ev {
        usage_dimensions = build_usage_dimensions r.prof ev r.usage;
        image_usage = build_image_usage r.prof ev r.request_meta r.usage;
      }
