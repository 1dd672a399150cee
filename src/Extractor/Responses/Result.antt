-- ===== src/Extractor/Responses/Result.antt =====
-- internal/extractor/responses_state.go, Result: what is drawn from the state of a Responses stream
-- when it ends.
use metering_proxy.Common.{
  String, Bool, true, false, ◌||◌, ◌&&◌, Option, none, some, List, [], ◌∷◌, Bytes, str_eq,
  if◌then◌else◌,
}
use metering_proxy.Common.Trim.{is_empty}
use metering_proxy.Common.Int64.{ℤ, is_pos, is_zero}
use metering_proxy.Extractor.{UsageInfo, empty_usage, ErrorInfo, ResponsesUsage, Json}
use metering_proxy.Extractor.Tokens.{responses_usage_to_info}
use metering_proxy.Extractor.Responses.{raw_usage_string, ResponsesStreamState}

pub record StreamFinalResult : Type 0 where
  pub usage : Option UsageInfo
  pub model_returned : String
  pub model_returned_source : String
  pub terminal_event : String
  pub terminal_reason : String
  pub capture_outcome : String
  pub capture_reason : String
  pub error_info : Option ErrorInfo

-- StreamFinalResult{}
abbrev pub no_result : StreamFinalResult
no_result = record {
  usage = none;
  model_returned = "";
  model_returned_source = "";
  terminal_event = "";
  terminal_reason = "";
  capture_outcome = "";
  capture_reason = "";
  error_info = none;
}

unfoldable pub best_model_str : List String → String
best_model_str [] = ""
best_model_str (c ∷ cs) = let rest = best_model_str cs in if str_eq c "" then rest else c

unfoldable pub completed_info : Json → String → Bytes → ResponsesUsage → Option UsageInfo
completed_info json model raw u =
    if is_zero u.input_tokens && is_zero u.output_tokens && is_zero u.total_tokens
    then none
    else some
        (record (responses_usage_to_info model u) { usage_raw_json = raw_usage_string json raw })

-- parseResponsesUsageFromCompleted. Its caller treats an error and a nil usage alike: both `none`.
unfoldable pub parse_responses_usage_from_completed : Json → String → Bytes → Option UsageInfo
unfolding completed_info
parse_responses_usage_from_completed json model raw = elim (json.responses_usage raw) [
  | none ↦ none
  | some u ↦ completed_info json model raw u
]

unfoldable pub has_tokens : UsageInfo → Bool
has_tokens u = is_pos u.input_tokens || is_pos u.output_tokens || is_pos u.total_tokens

-- The image counts go into the fresh usage.
unfoldable pub with_images : ℤ → ℤ → UsageInfo → UsageInfo
with_images images partial u =
    let v =
      if is_pos images then record u { image_count = images; operation = "generation" } else u in
    if is_pos partial
    then record v { partial_image_count = partial; operation = "generation" }
    else v

unfoldable pub keep_usage : Option UsageInfo → ResponsesStreamState → ResponsesStreamState
unfolding has_tokens with_images
keep_usage none s = s
keep_usage (some u) s =
    if has_tokens u
    then record s { usage_seen = true; usage = some (with_images s.image_count s.partial_images u) }
    else s

-- The first part of Result: the usage of the completed event is stored.
unfoldable pub settle_usage : Json → ResponsesStreamState → ResponsesStreamState
unfolding keep_usage
settle_usage json s =
    if is_empty s.completed_usage
    then s
    else keep_usage (parse_responses_usage_from_completed json s.completed_model s.completed_usage)
        s

unfoldable pub captured_result : UsageInfo → ResponsesStreamState → StreamFinalResult
captured_result u s =
    let model =
      if str_eq u.model ""
      then best_model_str
          (s.completed_model ∷ s.created_model ∷ s.failed_model ∷ s.incomplete_model ∷ "" ∷ [])
      else u.model in
    record no_result {
      usage = some u;
      model_returned = model;
      model_returned_source = "usage";
      terminal_event = "response.completed";
      capture_outcome = "captured";
    }

unfoldable pub parse_error_result : ResponsesStreamState → StreamFinalResult
parse_error_result s = record no_result {
  model_returned =
      best_model_str
        (s.completed_model ∷ s.incomplete_model ∷ s.failed_model ∷ s.created_model ∷ "" ∷ []);
  terminal_event = "stream_error";
  terminal_reason = "stream_error";
  capture_outcome = "failed";
  capture_reason = "parse_error";
  error_info = some (record {
    class = "stream_parse_error";
    type = "";
    code = "";
    param = "";
    message = "";
    message_truncated = false;
  });
}

unfoldable pub completed_result : ResponsesStreamState → StreamFinalResult
completed_result s =
    let model = best_model_str (s.completed_model ∷ s.created_model ∷ "" ∷ "" ∷ "" ∷ []) in
    let base = record no_result {
      model_returned = model;
      model_returned_source = "response_completed";
      terminal_event = "response.completed";
    } in
    if is_pos s.image_count || is_pos s.partial_images
    then record base {
      usage = some (record empty_usage {
        model = model;
        image_count = s.image_count;
        partial_image_count = s.partial_images;
        operation = "generation";
      });
      capture_outcome = "captured";
    }
    else record base {
      capture_outcome = "skipped";
      capture_reason = "response_completed_without_usage";
    }

unfoldable pub incomplete_result : ResponsesStreamState → StreamFinalResult
incomplete_result s = record no_result {
  model_returned = best_model_str (s.incomplete_model ∷ s.created_model ∷ "" ∷ "" ∷ "" ∷ []);
  model_returned_source = "response_incomplete";
  terminal_event = "response.incomplete";
  terminal_reason = if str_eq s.incomplete_reason "" then "incomplete" else s.incomplete_reason;
  capture_outcome = "skipped";
  capture_reason = "response_incomplete";
}

unfoldable pub failed_result : ResponsesStreamState → StreamFinalResult
failed_result s = record no_result {
  model_returned = best_model_str (s.failed_model ∷ s.created_model ∷ "" ∷ "" ∷ "" ∷ []);
  model_returned_source = "response_failed";
  terminal_event = if s.seen_error_event then "error" else "response.failed";
  capture_outcome = "failed";
  capture_reason = "response_error_event";
  error_info =
      if s.seen_error_event
      then some (record {
        class = "response_error_event";
        type = s.error_type;
        code = s.error_code;
        param = s.error_param;
        message = "";
        message_truncated = false;
      })
      else none;
}

-- The rest of Result: what the stream has shown, the strongest evidence first.
unfoldable pub without_usage : ResponsesStreamState → StreamFinalResult
unfolding parse_error_result completed_result incomplete_result failed_result
without_usage s =
    if is_pos s.json_parse_errors
    then parse_error_result s
    else if s.seen_completed
    then completed_result s
    else if s.seen_incomplete
    then incomplete_result s
    else if s.seen_failed || s.seen_error_event
    then failed_result s
    else if s.seen_created
    then record no_result {
      model_returned = s.created_model;
      model_returned_source = "response_created";
      terminal_event = "stream_end";
      capture_outcome = "skipped";
      capture_reason = "stream_ended_without_completed";
    }
    else record no_result { capture_outcome = "skipped"; capture_reason = "usage_not_present" }

unfoldable pub final_result : Bool → Option UsageInfo → ResponsesStreamState → StreamFinalResult
unfolding without_usage captured_result
final_result true (some u) s = captured_result u s
final_result true none s = without_usage s
final_result false u s = without_usage s

-- Result: it stores the usage, so it returns the new state too.
unfoldable pub result : Json → ResponsesStreamState → StreamFinalResult × ResponsesStreamState
unfolding final_result
result json s =
    let settled = settle_usage json s in
    (final_result settled.usage_seen settled.usage settled, settled)
