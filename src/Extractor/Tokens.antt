-- ===== src/Extractor/Tokens.antt =====
-- internal/extractor/extractor.go: token counts that a provider reports become the counts of a
-- `UsageInfo`. A count is int64: negative ones are taken as 0, and sums stop at the largest int64.
use metering_proxy.Common.{
  String, Bool, ◌||◌, ◌&&◌, Option, none, some, List, [], ◌∷◌, ◌-◌, ◌^◌, if◌then◌else◌,
}
use metering_proxy.Common.Int64.{ℤ, pos, add64, sub64, ltb_ℤ, is_pos, is_zero}
use metering_proxy.Extractor.{
  UsageInfo, empty_usage, ChatUsage, PromptTokensDetails, CompletionTokensDetails, ResponsesUsage,
  InputTokensDetails, OutputTokensDetails, AnthropicUsage, GeminiUsage,
}

unfoldable pub token_count : ℤ → ℤ
token_count v = if ltb_ℤ v (pos 0) then pos 0 else v

abbrev pub max_token_count : ℤ
max_token_count = pos (2 ^ 63 - 1)

-- The loop of sumTokenCounts, with its early return.
unfoldable pub sum_from : ℤ → List ℤ → ℤ
unfolding token_count sub64 add64
sum_from total [] = total
sum_from total (v ∷ vs) =
    let rest = sum_from (add64 total (token_count v)) vs in
    if ltb_ℤ (sub64 max_token_count total) (token_count v) then max_token_count else rest

unfoldable pub sum_token_counts : List ℤ → ℤ
unfolding sum_from
sum_token_counts values = sum_from (pos 0) values

cached_of : Option PromptTokensDetails → ℤ
unfolding token_count
cached_of none = pos 0
cached_of (some d) = token_count d.cached_tokens

reasoning_of : Option CompletionTokensDetails → ℤ
unfolding token_count
reasoning_of none = pos 0
reasoning_of (some d) = token_count d.reasoning_tokens

unfoldable pub chat_usage_to_info : String → ChatUsage → UsageInfo
unfolding cached_of reasoning_of
chat_usage_to_info model u = record empty_usage {
  model = model;
  input_tokens = token_count u.prompt_tokens;
  output_tokens = token_count u.completion_tokens;
  total_tokens = token_count u.total_tokens;
  cached_tokens = cached_of u.prompt_tokens_details;
  reasoning_tokens = reasoning_of u.completion_tokens_details;
}

cached_input_of : Option InputTokensDetails → ℤ
unfolding token_count
cached_input_of none = pos 0
cached_input_of (some d) = token_count d.cached_tokens

reasoning_output_of : Option OutputTokensDetails → ℤ
unfolding token_count
reasoning_output_of none = pos 0
reasoning_output_of (some d) = token_count d.reasoning_tokens

unfoldable pub responses_usage_to_info : String → ResponsesUsage → UsageInfo
unfolding cached_input_of reasoning_output_of
responses_usage_to_info model u = record empty_usage {
  model = model;
  input_tokens = token_count u.input_tokens;
  output_tokens = token_count u.output_tokens;
  total_tokens = token_count u.total_tokens;
  cached_tokens = cached_input_of u.input_tokens_details;
  reasoning_tokens = reasoning_output_of u.output_tokens_details;
}

unfoldable pub anthropic_usage_to_info : String → AnthropicUsage → UsageInfo
anthropic_usage_to_info model u =
    let input =
      sum_token_counts
        (u.input_tokens ∷ u.cache_creation_input_tokens ∷ u.cache_read_input_tokens ∷ []) in
    let output = token_count u.output_tokens in
    record empty_usage {
      model = model;
      input_tokens = input;
      output_tokens = output;
      cached_tokens = token_count u.cache_read_input_tokens;
      cache_creation_tokens = token_count u.cache_creation_input_tokens;
      total_tokens = sum_token_counts (input ∷ output ∷ []);
    }

unfoldable pub has_anthropic_usage_tokens : AnthropicUsage → Bool
has_anthropic_usage_tokens u =
    is_pos u.input_tokens
    || is_pos u.output_tokens
    || is_pos u.cache_creation_input_tokens
    || is_pos u.cache_read_input_tokens

-- The steps of geminiUsageToInfo, one for each reassignment.
unfoldable pub gemini_input : ℤ → ℤ → ℤ
gemini_input input cached = if is_zero input && is_pos cached then cached else input

unfoldable pub gemini_output : ℤ → ℤ → ℤ → ℤ
gemini_output input output provider_total =
    if is_zero output && ltb_ℤ input provider_total then sub64 provider_total input else output

unfoldable pub gemini_total : ℤ → ℤ → ℤ → ℤ
gemini_total input output provider_total =
    if is_zero provider_total then sum_token_counts (input ∷ output ∷ []) else provider_total

unfoldable pub gemini_usage_to_info : String → GeminiUsage → UsageInfo
unfolding gemini_input gemini_output gemini_total
gemini_usage_to_info model u =
    let prompt = token_count u.prompt_token_count in
    let tool_use = token_count u.tool_use_prompt_token_count in
    let cached = token_count u.cached_content_token_count in
    let thought = token_count u.thoughts_token_count in
    let input = gemini_input (sum_token_counts (prompt ∷ tool_use ∷ [])) cached in
    let provider_total = token_count u.total_token_count in
    let output =
      gemini_output input (sum_token_counts (u.candidates_token_count ∷ thought ∷ []))
        provider_total in
    record empty_usage {
      model = model;
      input_tokens = input;
      output_tokens = output;
      reasoning_tokens = thought;
      cached_tokens = cached;
      total_tokens = gemini_total input output provider_total;
    }
