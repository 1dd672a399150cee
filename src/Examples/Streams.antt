-- ===== src/Examples/Streams.antt =====
-- The theorems on streams and on the writer at concrete values.
use metering_proxy.Common.{
  ℕ, ◌≡◌, refl, ◌≤◌, true, false, none, some, List, [], ◌∷◌, ◌++◌, Bytes, codes, length,
  if◌then◌else◌, arith,
}
use metering_proxy.Common.Trim.{is_empty, bytes_eq, trim_space}
use metering_proxy.Common.Int64.{pos}
use metering_proxy.Extractor.{Json, ResponsesSseEvent, ResponsesUsage, UsageInfo}
use metering_proxy.Extractor.Tokens.{responses_usage_to_info}
use metering_proxy.Extractor.Responses.{
  ResponsesStreamState, new_responses_stream_state, process_sse_event, strip_sse_prefix,
  apply_event, raw_usage_string,
}
use metering_proxy.Extractor.Responses.Result.{
  result, has_tokens, with_images, parse_responses_usage_from_completed,
}
use metering_proxy.Extractor.Responses.Outcome.{IsClassified, result-IsClassified}
use metering_proxy.Extractor.Responses.Drawn.{Drawn, result-Drawn}
use metering_proxy.Extractor.Responses.Progress.{
  process_all, completes, failures, parse_errors_exact, usage_survives,
}
use metering_proxy.Sse.Lines.{lf_at, line, emit, fresh_line, feed}
use metering_proxy.Sse.Lines.Scan.Reads.{ends_cr, then_feed, feed-append, feed-cut_crlf}
use metering_proxy.Sse.Assembler.{
  new_assembler, process_lines, join_lines, pending_payload_complete, single_line_payload_complete,
  sse_event,
}
use metering_proxy.Sse.Assembler.Bounds.{total, IsBounded, process_lines-IsBounded}
use metering_proxy.Sse.Assembler.Multiline.{event_lines, waits, holding, process_lines-join}
use metering_proxy.Sse.ErrorPayloads.{
  sample_events, new_error_payload_sampler, finalize, length-finalize, finalize-locked,
}
use metering_proxy.Writer.{
  BatchWriter, Attempts, new_writer, start, stop, enqueue_test, enqueue_send, draining, finished,
  drain_queue,
}
use metering_proxy.Writer.Steps.{
  Reachable, at_first, after, does_start, does_stop, tests, sends, drains,
}
use metering_proxy.Writer.Conserved.{IsConserved, Reachable-IsConserved}
use metering_proxy.Writer.Delivery.{drain_queue-flushed}

-- A decoder that knows one event and one usage.
abbrev completed_event : ResponsesSseEvent
completed_event = record {
  type = "response.completed";
  response = some (record {
    model = "gpt";
    status = "completed";
    usage = codes "u";
    output = [];
    incomplete_details = none;
  });
  error = none;
}

abbrev some_usage : ResponsesUsage
some_usage = record {
  input_tokens = pos 10;
  output_tokens = pos 5;
  total_tokens = pos 15;
  input_tokens_details = none;
  output_tokens_details = none;
}

abbrev small_json : Json
small_json = record {
  valid = λ s. bytes_eq s (codes "{}");
  compact = λ s. some s;
  responses_event = λ s. if bytes_eq s (codes "c") then some completed_event else none;
  responses_usage = λ s. some some_usage;
}

abbrev completed_state : ResponsesStreamState
completed_state = process_sse_event small_json (codes "data: c") new_responses_stream_state

result-IsClassified_example : IsClassified (result small_json completed_state).0
result-IsClassified_example = result-IsClassified small_json completed_state

result-Drawn_example :
    Drawn small_json completed_state
      (result small_json completed_state).0
      (result small_json completed_state).1
result-Drawn_example = result-Drawn small_json completed_state

abbrev stream_lines : List Bytes
stream_lines = codes "data: c" ∷ codes "data: ?" ∷ codes "data: [DONE]" ∷ []

parse_errors_exact_example :
    (process_all small_json stream_lines new_responses_stream_state).json_parse_errors
    ≡ pos (failures small_json stream_lines)
parse_errors_exact_example = parse_errors_exact small_json stream_lines (omega arith)

abbrev brought_usage : UsageInfo
brought_usage = record (responses_usage_to_info "gpt" some_usage) { usage_raw_json = codes "u" }

usage_is_full : is_empty completed_state.completed_usage ≡ false
unfolding process_sse_event strip_sse_prefix trim_space apply_event
usage_is_full = refl

usage_parses :
    parse_responses_usage_from_completed small_json completed_state.completed_model
      completed_state.completed_usage
    ≡ some brought_usage
unfolding process_sse_event parse_responses_usage_from_completed strip_sse_prefix raw_usage_string
    trim_space responses_usage_to_info apply_event
usage_parses = refl

usage_counts : has_tokens brought_usage ≡ true
unfolding has_tokens responses_usage_to_info
usage_counts = refl

not_completed : completes small_json (codes "data: ?") ≡ false
unfolding completes strip_sse_prefix trim_space
not_completed = refl

usage_survives_example :
    let t = process_all small_json (codes "data: ?" ∷ []) completed_state in
    (result small_json t).0.usage ≡ some (with_images t.image_count t.partial_images brought_usage)
usage_survives_example =
    usage_survives small_json completed_state brought_usage (codes "data: ?" ∷ []) usage_is_full
      usage_parses usage_counts (not_completed, tt)

feed-append_example :
    feed 10 fresh_line (codes "data: a\nda" ++ codes "ta: b\r\n")
    ≡ then_feed 10 (feed 10 fresh_line (codes "data: a\nda")) (codes "ta: b\r\n")
feed-append_example =
    feed-append 10 fresh_line (codes "data: a\nda") (codes "ta: b\r\n") (omega arith)
      (unfold ends_cr lf_at in refl)

feed-cut_crlf_example :
    (then_feed 10 (feed 10 fresh_line (codes "data: a" ++ b'\r' ∷ [])) (b'\n' ∷ codes "data: b\n")
      ≡ emit
          (feed 10 fresh_line (codes "data: a" ++ b'\r' ∷ [])).events
          (emit (line [] ∷ []) (feed 10 fresh_line (codes "data: b\n"))))
    × (feed 10 fresh_line (codes "data: a" ++ b'\r' ∷ b'\n' ∷ codes "data: b\n")
        ≡ emit
            (feed 10 fresh_line (codes "data: a" ++ b'\r' ∷ [])).events
            (feed 10 fresh_line (codes "data: b\n")))
feed-cut_crlf_example =
    feed-cut_crlf 10 fresh_line (codes "data: a") (codes "data: b\n") (omega arith)

process_lines-IsBounded_example :
    IsBounded
      (process_lines small_json.valid
        (new_assembler 4)
        (line (codes "data: abc") ∷ line (codes "data: d") ∷ [])).assembler
process_lines-IsBounded_example =
    process_lines-IsBounded small_json.valid 4
      (line (codes "data: abc") ∷ line (codes "data: d") ∷ [])

process_lines-join_example :
    process_lines small_json.valid
      (holding small_json.valid 10 [])
      (event_lines (codes "{" ∷ codes "}" ∷ []))
    ≡ record {
      assembler = holding small_json.valid 10 [];
      events = sse_event (codes "data: " ++ join_lines (codes "{" ∷ codes "}" ∷ [])) ∷ [];
    }
unfolding pending_payload_complete single_line_payload_complete trim_space bytes_eq total join_lines
process_lines-join_example =
    process_lines-join small_json.valid 10 (codes "{") (codes "}" ∷ []) (unfold waits in refl)

length-finalize_example :
    length (finalize (sample_events none new_error_payload_sampler (codes "data: x" ∷ []))).1 ≤ 8196
length-finalize_example = length-finalize none (codes "data: x" ∷ [])

finalize-locked_example :
    finalize (sample_events none (finalize new_error_payload_sampler).0 (codes "data: x" ∷ []))
    ≡ finalize new_error_payload_sampler
finalize-locked_example = finalize-locked none new_error_payload_sampler (codes "data: x" ∷ [])

-- Two events are sent, and the writer is stopped.
abbrev sent_two : BatchWriter ℕ
sent_two = enqueue_send 4 8 (enqueue_send 4 7 (enqueue_test (enqueue_test (start new_writer))))

abbrev stopping : BatchWriter ℕ
stopping = record (stop sent_two) { phase = draining }

sent_two-Reachable : Reachable 4 2 sent_two
unfolding new_writer start enqueue_test enqueue_send
sent_two-Reachable =
    after (after (after (after (after at_first does_start) tests) tests) (sends 7 (omega arith)))
      (sends 8 (omega arith))

stopping-Reachable : Reachable 4 2 stopping
unfolding new_writer start enqueue_test enqueue_send stop
stopping-Reachable = after (after sent_two-Reachable does_stop) (drains refl refl)

Reachable-IsConserved_example : IsConserved 4 2 sent_two
Reachable-IsConserved_example = Reachable-IsConserved 4 2 sent_two (omega arith) sent_two-Reachable

abbrev always_fails : ℕ → Attempts
always_fails n = record { first_fails = true; second_fails = true }

two_queued : stopping.queue ≡ 7 ∷ 8 ∷ []
unfolding new_writer start enqueue_test enqueue_send stop
two_queued = refl

drain_queue-flushed_example :
    ((drain_queue 2 always_fails (7 ∷ 8 ∷ []) stopping).phase ≡ finished)
    × ((drain_queue 2 always_fails (7 ∷ 8 ∷ []) stopping).queue ≡ [])
    × ((drain_queue 2 always_fails (7 ∷ 8 ∷ []) stopping).batch ≡ [])
    × ((drain_queue 2 always_fails (7 ∷ 8 ∷ []) stopping).sent ≡ stopping.sent)
    × ((drain_queue 2 always_fails (7 ∷ 8 ∷ []) stopping).flushed ≡ stopping.sent)
drain_queue-flushed_example =
    drain_queue-flushed 4 2 (omega arith) always_fails (7 ∷ 8 ∷ []) stopping stopping-Reachable refl
      two_queued
