-- ===== src/Examples/Usages.antt =====
-- The theorems on what is recorded of a stream at concrete values.
use metering_proxy.Common.{true, Bytes, codes, ◌+◌, false, none, some, [], ◌∷◌, arith}
use metering_proxy.Common.Int64.{pos}
use metering_proxy.Extractor.{Json, UsageInfo, empty_usage}
use metering_proxy.Extractor.Responses.{new_responses_stream_state}
use metering_proxy.Extractor.Tokens.{anthropic_usage_to_info}
use metering_proxy.Profile.Registry.{chat_completions}
use metering_proxy.Proxy.Merge.{merge_all}
use metering_proxy.Proxy.Merge.Anthropic.{deltas, SomeCounts, last_output, merge_all-Counts}
use metering_proxy.Profile.{NonStreamExtractor}
use metering_proxy.Proxy.NonStream.{
  Extracted, refused, capture_non_stream, IsMetered, capture_non_stream-IsMetered,
}
use metering_proxy.Proxy.Finalize.{
  finalize_stream_usage, IsRecorded, finalize_stream_usage-IsRecorded,
}

merge_all-Counts_example : SomeCounts (100 + 20 + 300) (last_output 1 (7 ∷ 40 ∷ [])) (
    merge_all none (
      some (
        anthropic_usage_to_info "claude" (record {
          input_tokens = pos 100;
          output_tokens = pos 1;
          cache_creation_input_tokens = pos 20;
          cache_read_input_tokens = pos 300;
        }))
      ∷ deltas "claude" (7 ∷ 40 ∷ [])))
merge_all-Counts_example =
    merge_all-Counts "claude" 100 20 300 1 (7 ∷ 40 ∷ []) (omega arith) (omega arith)
      ((omega arith, omega arith), ((omega arith, omega arith), tt))

-- A decoder that refuses everything.
abbrev no_json : Json
no_json = record {
  valid = λ s. false;
  compact = λ s. none;
  responses_event = λ s. none;
  responses_usage = λ s. none;
}

abbrev last_usage : UsageInfo
last_usage = record empty_usage { model = "gpt"; input_tokens = pos 10; total_tokens = pos 10 }

finalize_stream_usage-IsRecorded_example : IsRecorded (some chat_completions) (
    finalize_stream_usage no_json
      (some last_usage)
      (some new_responses_stream_state)
      (some chat_completions)
      1)
finalize_stream_usage-IsRecorded_example =
    finalize_stream_usage-IsRecorded no_json (some last_usage) (some new_responses_stream_state)
      (some chat_completions) 1

abbrev nothing_found : NonStreamExtractor → Bytes → Extracted
nothing_found x s = refused

capture_non_stream-IsMetered_example :
    IsMetered nothing_found
      (some chat_completions)
      true
      (codes "{")
      (capture_non_stream nothing_found (some chat_completions) true (codes "{"))
capture_non_stream-IsMetered_example =
    capture_non_stream-IsMetered nothing_found (some chat_completions) true (codes "{")
