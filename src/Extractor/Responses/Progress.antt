-- ===== src/Extractor/Responses/Progress.antt =====
-- What the events of a stream can change.
use metering_proxy.Common.{
  ℕ, Bool, true, false, not, ◌&&◌, ◌||◌, ◌≡◌, refl, ap, ◌+◌, ◌<◌, ◌^◌, ◌∙◌, inl, inr, Option, none,
  some, List, [], ◌∷◌, Bytes, length, arith, Bool-cases, if◌then◌else◌, ltb, str_eq, All,
}
use metering_proxy.Common.Trim.{is_empty}
use metering_proxy.Common.Int64.{pos, add64, add64_nonneg}
use metering_proxy.Extractor.{UsageInfo, ResponsesSseEvent, Json}
use metering_proxy.Extractor.Responses.{
  ResponsesStreamState, new_responses_stream_state, process_sse_event, apply_event,
  strip_sse_prefix, max_responses_sse_json_bytes, decoded,
}
use metering_proxy.Extractor.Responses.Result.{
  result, settle_usage, has_tokens, with_images, parse_responses_usage_from_completed,
}

-- The lines of a stream, in order.
unfoldable pub process_all : Json → List Bytes → ResponsesStreamState → ResponsesStreamState
process_all json [] s = s
process_all json (line ∷ lines) s = process_all json lines (process_sse_event json line s)

decodes_to_completed : Option ResponsesSseEvent → Bool
decodes_to_completed none = false
decodes_to_completed (some evt) = str_eq evt.type "response.completed"

-- A line that carries a response.completed event.
unfoldable pub completes : Json → Bytes → Bool
unfolding decodes_to_completed
completes json line =
    let text = strip_sse_prefix line in
    not (is_empty text)
    && not (ltb max_responses_sse_json_bytes (length text))
    && decodes_to_completed (json.responses_event text)

fails_to_decode : Option ResponsesSseEvent → Bool
fails_to_decode none = true
fails_to_decode (some evt) = false

-- A line with content that is too long or is no event. A line that is empty without its prefix, and the
-- end marker, have none.
unfoldable pub is_failure : Json → Bytes → Bool
unfolding fails_to_decode
is_failure json line =
    let text = strip_sse_prefix line in
    not (is_empty text)
    && (ltb max_responses_sse_json_bytes (length text)
        || fails_to_decode (json.responses_event text))

abbrev pub failures : Json → List Bytes → ℕ
failures json [] = 0
failures json (line ∷ lines) = (if is_failure json line then 1 else 0) + failures json lines

abbrev SameUsage : ResponsesStreamState → ResponsesStreamState → Type 0
SameUsage s t = (s.completed_usage ≡ t.completed_usage) × (s.completed_model ≡ t.completed_model)

apply_event-SameUsage :
    (evt : ResponsesSseEvent) (s : ResponsesStreamState)
    → str_eq evt.type "response.completed" ≡ false
    → SameUsage (apply_event evt s) s
unfolding apply_event
apply_event-SameUsage evt s h = ground arith

decoded-SameUsage :
    (o : Option ResponsesSseEvent) (s : ResponsesStreamState)
    → decodes_to_completed o ≡ false
    → SameUsage (decoded o s) s
unfolding decoded decodes_to_completed
decoded-SameUsage none s h = (refl, refl)
decoded-SameUsage (some evt) s h = apply_event-SameUsage evt s h

process-SameUsage :
    (json : Json) (line : Bytes) (s : ResponsesStreamState)
    → completes json line ≡ false
    → SameUsage (process_sse_event json line s) s
unfolding process_sse_event completes
process-SameUsage json line s h =
    ground (arith, decoded-SameUsage (json.responses_event (strip_sse_prefix line)) s)

apply_event-errors :
    (evt : ResponsesSseEvent) (s : ResponsesStreamState)
    → (apply_event evt s).json_parse_errors ≡ s.json_parse_errors
unfolding apply_event
apply_event-errors evt s = ground arith

decoded-errors :
    (o : Option ResponsesSseEvent) (s : ResponsesStreamState)
    → (decoded o s).json_parse_errors
      ≡ (if fails_to_decode o then add64 s.json_parse_errors (pos 1) else s.json_parse_errors)
unfolding decoded fails_to_decode
decoded-errors none s = refl
decoded-errors (some evt) s = apply_event-errors evt s

process-errors :
    (json : Json) (line : Bytes) (s : ResponsesStreamState)
    → (process_sse_event json line s).json_parse_errors
      ≡ (if is_failure json line then add64 s.json_parse_errors (pos 1) else s.json_parse_errors)
unfolding process_sse_event is_failure
process-errors json line s =
    ground (arith, decoded-errors (json.responses_event (strip_sse_prefix line)) s)

process_all-errors :
    (json : Json) (lines : List Bytes) (s : ResponsesStreamState) (n : ℕ)
    → s.json_parse_errors ≡ pos n
    → n + length lines < 2 ^ 63
    → (process_all json lines s).json_parse_errors ≡ pos (n + failures json lines)
unfolding process_all
process_all-errors json [] s n e h = e ∙ ap pos (omega arith)
process_all-errors json (line ∷ lines) s n e h = elim (Bool-cases (is_failure json line)) [
  | inl f ↦ rw f (
      process_all-errors json lines (process_sse_event json line s) (n + 1)
        (ground (arith, process-errors json line s, add64_nonneg n 1)) (omega arith)
      ∙ ap pos (omega arith))
  | inr f ↦ rw f (
      process_all-errors json lines (process_sse_event json line s) n
        (ground (arith, process-errors json line s)) (omega arith)
      ∙ ap pos (omega arith))
]

-- After a stream of fewer than 2^63 lines the state has counted exactly the lines with content that are
-- too long or are no event; empty lines and the end marker of a stream have no content.
pub parse_errors_exact :
    (json : Json) (lines : List Bytes)
    → length lines < 2 ^ 63
    → (process_all json lines new_responses_stream_state).json_parse_errors
      ≡ pos (failures json lines)
parse_errors_exact json lines h =
    process_all-errors json lines new_responses_stream_state 0 refl (omega arith)
    ∙ ap pos (omega arith)

process_all-SameUsage :
    (json : Json) (lines : List Bytes) (s : ResponsesStreamState)
    → All (λ line. completes json line ≡ false) lines
    → SameUsage (process_all json lines s) s
unfolding process_all
process_all-SameUsage json [] s h = (refl, refl)
process_all-SameUsage json (line ∷ lines) s h =
    let (u, m) = process-SameUsage json line s h.0 in
    let (us, ms) = process_all-SameUsage json lines (process_sse_event json line s) h.1 in
    (us ∙ u, ms ∙ m)

-- A stored usage with tokens decides the result.
result-settled :
    (json : Json) (s : ResponsesStreamState) (u : UsageInfo)
    → is_empty s.completed_usage ≡ false
    → parse_responses_usage_from_completed json s.completed_model s.completed_usage ≡ some u
    → has_tokens u ≡ true
    → (result json s).0.usage ≡ some (with_images s.image_count s.partial_images u)
unfolding result settle_usage
result-settled json s u full parsed tokens = ground arith

-- Once a completed event has brought a usage with tokens, no later line that is not another completed
-- event takes it away: the result has that usage, with the images counted by then.
pub usage_survives :
    (json : Json) (s : ResponsesStreamState) (u : UsageInfo) (lines : List Bytes)
    → is_empty s.completed_usage ≡ false
    → parse_responses_usage_from_completed json s.completed_model s.completed_usage ≡ some u
    → has_tokens u ≡ true
    → All (λ line. completes json line ≡ false) lines
    → let t = process_all json lines s in
      (result json t).0.usage ≡ some (with_images t.image_count t.partial_images u)
usage_survives json s u lines full parsed tokens h =
    let t = process_all json lines s in
    let (us, ms) = process_all-SameUsage json lines s h in
    result-settled json t u (rw us full) (rw (us, ms) parsed) tokens
