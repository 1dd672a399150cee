-- ===== src/Extractor/Responses.antt =====
-- internal/extractor/responses_state.go: what a Responses API stream has shown so far.
-- A method that mutates the state returns the new one.
-- The mutex is not modelled: each method holds it from start to end, so a call is one step.
pub mod Result
pub mod Drawn
pub mod Outcome
pub mod Progress
use metering_proxy.Common.{
  ℕ, zero, suc, String, Bool, true, false, not, ◌||◌, ◌&&◌, Option, none, some, List, [], ◌∷◌,
  Bytes, codes, str_eq, length, drop, ltb, if◌then◌else◌,
}
use metering_proxy.Common.Trim.{trim_space, has_prefix, bytes_eq, is_empty}
use metering_proxy.Common.Int64.{ℤ, pos, add64, is_pos, is_zero}
use metering_proxy.Extractor.{
  UsageInfo, empty_usage, ErrorInfo, ResponsesUsage, ResponsesOutputItem, ResponsesSseEvent,
  ResponseBody, ErrorBody, IncompleteDetails, Json,
}
use metering_proxy.Extractor.Tokens.{responses_usage_to_info}

-- The loop of stripSSEPrefix. A round drops five bytes, so the length is enough fuel.
unfoldable pub strip_loop : ℕ → Bytes → Bytes
unfolding has_prefix
strip_loop zero text = text
strip_loop (suc f) text =
    let rest = strip_loop f (trim_space (drop 5 text)) in
    if has_prefix text (codes "data:") then rest else text

unfoldable pub strip_sse_prefix : Bytes → Bytes
unfolding strip_loop bytes_eq
strip_sse_prefix data_ =
    let trimmed = trim_space data_ in
    let text = strip_loop (length trimmed) trimmed in
    if bytes_eq text (codes "[DONE]") || is_empty text then [] else text

unfoldable pub raw_usage_string : Json → Bytes → Bytes
raw_usage_string json raw =
    let trimmed = trim_space raw in
    if is_empty trimmed
    then []
    else elim (json.compact trimmed) [ some compact ↦ compact | none ↦ trimmed ]

abbrev pub max_responses_sse_json_bytes : ℕ
max_responses_sse_json_bytes = 1048576

pub record ResponsesStreamState : Type 0 where
  pub seen_created : Bool
  pub created_model : String
  pub seen_completed : Bool
  pub completed_model : String
  pub completed_usage : Bytes
  pub seen_failed : Bool
  pub failed_model : String
  pub seen_incomplete : Bool
  pub incomplete_model : String
  pub incomplete_reason : String
  pub seen_error_event : Bool
  pub error_type : String
  pub error_code : String
  pub error_param : String
  pub usage_seen : Bool
  pub usage : Option UsageInfo
  pub image_count : ℤ
  pub partial_images : ℤ
  pub last_event_type : String
  pub json_parse_errors : ℤ

abbrev pub new_responses_stream_state : ResponsesStreamState
new_responses_stream_state = record {
  seen_created = false;
  created_model = "";
  seen_completed = false;
  completed_model = "";
  completed_usage = [];
  seen_failed = false;
  failed_model = "";
  seen_incomplete = false;
  incomplete_model = "";
  incomplete_reason = "";
  seen_error_event = false;
  error_type = "";
  error_code = "";
  error_param = "";
  usage_seen = false;
  usage = none;
  image_count = pos 0;
  partial_images = pos 0;
  last_event_type = "";
  json_parse_errors = pos 0;
}

-- if value != "" { field = value }
abbrev pub or_keep : String → String → String
or_keep value old = if str_eq value "" then old else value

unfoldable pub count_responses_image_outputs : List ResponsesOutputItem → ℤ
count_responses_image_outputs [] = pos 0
count_responses_image_outputs (item ∷ items) =
    let rest = count_responses_image_outputs items in
    if str_eq item.type "image_generation_call" then add64 rest (pos 1) else rest

unfoldable pub on_created : Option ResponseBody → ResponsesStreamState → ResponsesStreamState
on_created none s = record s { seen_created = true }
on_created (some r) s = record s {
  seen_created = true;
  created_model = or_keep r.model s.created_model;
}

unfoldable pub on_completed : Option ResponseBody → ResponsesStreamState → ResponsesStreamState
on_completed none s = record s { seen_completed = true }
on_completed (some r) s =
    let count = count_responses_image_outputs r.output in
    record s {
      seen_completed = true;
      completed_model = or_keep r.model s.completed_model;
      completed_usage = if is_empty r.usage then s.completed_usage else r.usage;
      image_count = if is_pos count then count else s.image_count;
    }

unfoldable pub on_failed : Option ResponseBody → ResponsesStreamState → ResponsesStreamState
on_failed none s = record s { seen_failed = true }
on_failed (some r) s = record s {
  seen_failed = true;
  failed_model = or_keep r.model s.failed_model;
}

reason_of : Option IncompleteDetails → String → String
reason_of none old = old
reason_of (some d) old = or_keep d.reason old

unfoldable pub on_incomplete : Option ResponseBody → ResponsesStreamState → ResponsesStreamState
unfolding reason_of
on_incomplete none s = record s { seen_incomplete = true }
on_incomplete (some r) s = record s {
  seen_incomplete = true;
  incomplete_model = or_keep r.model s.incomplete_model;
  incomplete_reason = reason_of r.incomplete_details s.incomplete_reason;
}

unfoldable pub on_error : Option ErrorBody → ResponsesStreamState → ResponsesStreamState
on_error none s = record s { seen_error_event = true }
on_error (some e) s = record s {
  seen_error_event = true;
  error_type = e.type;
  error_code = e.code;
  error_param = e.param;
}

-- The switch on evt.Type.
unfoldable pub apply_event : ResponsesSseEvent → ResponsesStreamState → ResponsesStreamState
unfolding on_created on_completed on_failed on_incomplete on_error
apply_event evt state =
    let s = record state { last_event_type = evt.type } in
    if str_eq evt.type "response.image_generation_call.partial_image"
    then record s { partial_images = add64 s.partial_images (pos 1) }
    else if str_eq evt.type "response.created"
    then on_created evt.response s
    else if str_eq evt.type "response.completed"
    then on_completed evt.response s
    else if str_eq evt.type "response.failed"
    then on_failed evt.response s
    else if str_eq evt.type "response.incomplete"
    then on_incomplete evt.response s
    else if str_eq evt.type "error"
    then on_error evt.error s
    else s

unfoldable pub parse_failed : ResponsesStreamState → ResponsesStreamState
parse_failed s = record s { json_parse_errors = add64 s.json_parse_errors (pos 1) }

unfoldable pub decoded : Option ResponsesSseEvent → ResponsesStreamState → ResponsesStreamState
unfolding parse_failed
decoded none s = parse_failed s
decoded (some evt) s = apply_event evt s

-- ProcessSSEEvent
unfoldable pub process_sse_event : Json → Bytes → ResponsesStreamState → ResponsesStreamState
unfolding decoded parse_failed
process_sse_event json line s =
    let text = strip_sse_prefix line in
    if is_empty text
    then s
    else if ltb max_responses_sse_json_bytes (length text)
    then parse_failed s
    else decoded (json.responses_event text) s
