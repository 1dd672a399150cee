-- ===== src/Examples/Parts.antt =====
-- The theorems on records, token counts, routes and samples at concrete values.
use metering_proxy.Common.{◌≡◌, refl, ◌+◌, ◌-◌, ◌^◌, min, true, List, [], ◌∷◌, Bytes, codes, arith}
use metering_proxy.Common.Int64.{ℤ, pos, negsuc, pos_part}
use metering_proxy.Extractor.{AnthropicUsage, GeminiUsage}
use metering_proxy.Extractor.Tokens.{
  sum_token_counts, anthropic_usage_to_info, gemini_usage_to_info,
}
use metering_proxy.Extractor.Bounds.{
  exact_sum, IsSound, IsInt64Usage, sum_token_counts-saturates, anthropic-conserves, gemini-IsSound,
  or_instead, gemini-accounts,
}
use metering_proxy.Profile.Registry.{new_registry, registry_match}
use metering_proxy.Profile.Registry.Dispatch.{Answer, registry_match-Answer, registry_match-slash}
use metering_proxy.Sample.Limited.{write_all-take, new_limited_buffer}
use metering_proxy.Sample.PrefixTail.{Ring, ring_write, sample, new_buffer, half_of}
use metering_proxy.Sample.PrefixTail.Rotation.{IsRing, Shifts, ring_write-Shifts}
use metering_proxy.Sample.PrefixTail.Window.{two_ends, sample-write_all}

abbrev huge_counts : List ℤ
huge_counts = pos (2 ^ 63 - 1) ∷ negsuc 4 ∷ pos 7 ∷ []

sum_token_counts-saturates_example :
    sum_token_counts huge_counts ≡ pos (min (2 ^ 63 - 1) (exact_sum huge_counts))
sum_token_counts-saturates_example = sum_token_counts-saturates huge_counts

abbrev claude_usage : AnthropicUsage
claude_usage = record {
  input_tokens = pos 100;
  output_tokens = pos 40;
  cache_creation_input_tokens = pos 20;
  cache_read_input_tokens = pos 300;
}

anthropic-conserves_example :
    let i = anthropic_usage_to_info "claude" claude_usage in
    (pos_part i.input_tokens ≡ 100 + pos_part i.cache_creation_tokens + pos_part i.cached_tokens)
    × (i.output_tokens ≡ pos 40)
    × (i.total_tokens ≡ pos (pos_part i.input_tokens + pos_part i.output_tokens))
anthropic-conserves_example = anthropic-conserves "claude" claude_usage (omega arith)

abbrev gemini_usage : GeminiUsage
gemini_usage = record {
  prompt_token_count = pos 10;
  candidates_token_count = pos 0;
  total_token_count = pos 25;
  cached_content_token_count = pos 4;
  thoughts_token_count = pos 0;
  tool_use_prompt_token_count = pos 3;
}

gemini_usage-IsInt64 : IsInt64Usage gemini_usage
gemini_usage-IsInt64 = record {
  prompt = omega arith;
  candidates = omega arith;
  total = omega arith;
  cached = omega arith;
  thoughts = omega arith;
  tool_use = omega arith;
}

gemini-IsSound_example : IsSound (gemini_usage_to_info "gemini" gemini_usage)
gemini-IsSound_example = gemini-IsSound "gemini" gemini_usage gemini_usage-IsInt64

gemini-accounts_example :
    let i = gemini_usage_to_info "gemini" gemini_usage in
    let input = pos_part i.input_tokens in
    (i.input_tokens ≡ pos (or_instead (min (2 ^ 63 - 1) 13) 4))
    × (i.output_tokens ≡ pos (or_instead (min (2 ^ 63 - 1) 0) (25 - input)))
    × (i.total_tokens ≡ pos (or_instead 25 (min (2 ^ 63 - 1) (input + pos_part i.output_tokens))))
    × (i.reasoning_tokens ≡ pos 0)
    × (i.cached_tokens ≡ pos 4)
gemini-accounts_example = gemini-accounts "gemini" gemini_usage gemini_usage-IsInt64

registry_match-Answer_example :
    Answer "POST" (codes "/v1/messages") (registry_match new_registry "POST" (codes "/v1/messages"))
registry_match-Answer_example = registry_match-Answer "POST" (codes "/v1/messages")

registry_match-slash_example :
    registry_match new_registry "POST" (codes "/v1/messages/")
    ≡ registry_match new_registry "POST" (codes "/v1/messages")
registry_match-slash_example = registry_match-slash new_registry "POST" (codes "/v1/messages")

abbrev body_parts : List Bytes
body_parts = codes "abc" ∷ codes "defg" ∷ []

write_all-take_example :
    let lb = metering_proxy.Sample.Limited.write_all (new_limited_buffer 5) body_parts in
    (lb.buf ≡ codes "abcde") × (lb.overflow ≡ true) × (lb.max ≡ 5)
write_all-take_example = write_all-take 5 body_parts

abbrev ring_of_four : Ring
ring_of_four = record { cells = codes "cdab"; wpos = 2; full = true }

ring_of_four-IsRing : IsRing 4 ring_of_four
ring_of_four-IsRing = record { sized = refl; inside = omega arith }

ring_write-Shifts_example :
    Shifts 4 ring_of_four (codes "xyz") (ring_write ring_of_four (codes "xyz"))
ring_write-Shifts_example = ring_write-Shifts 4 ring_of_four (codes "xyz") ring_of_four-IsRing

sample-write_all_example :
    sample (metering_proxy.Sample.PrefixTail.write_all (new_buffer 4) body_parts)
    ≡ two_ends (half_of 4) 4 (codes "abcdefg")
sample-write_all_example = sample-write_all 4 body_parts (omega arith)
