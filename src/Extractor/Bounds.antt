-- ===== src/Extractor/Bounds.antt =====
-- The counts of a `UsageInfo` are never negative, never overflow, and add up.
use Prim.Native.Nat.{min}
use metering_proxy.Common.{
  if◌then◌else◌, ℕ, zero, suc, String, ◌+◌, ◌-◌, ◌^◌, ◌≤◌, ◌≡◌, refl, ◌∙◌, ap, List, [], ◌∷◌, arith,
}
use metering_proxy.Common.Int64.{
  ℤ, pos, negsuc, pos_part, is_zero, IsInt64, add64_nonneg, sub64_nonneg,
}
use metering_proxy.Extractor.{UsageInfo, AnthropicUsage, GeminiUsage}
use metering_proxy.Extractor.Tokens.{
  token_count, sum_from, sum_token_counts, anthropic_usage_to_info, gemini_usage_to_info,
  gemini_input, gemini_output, gemini_total,
}

abbrev pub max_count : ℕ
max_count = 2 ^ 63 - 1

-- The sum of the positive counts, as a number without bound.
unfoldable pub exact_sum : List ℤ → ℕ
exact_sum [] = 0
exact_sum (v ∷ vs) = pos_part v + exact_sum vs

pub token_count_lem : (v : ℤ) → token_count v ≡ pos (pos_part v)
unfolding token_count
token_count_lem v = ground arith

sum_from-saturates :
    (t : ℕ) (vs : List ℤ)
    → t ≤ max_count
    → sum_from (pos t) vs ≡ pos (min max_count (t + exact_sum vs))
unfolding sum_from exact_sum
sum_from-saturates t [] h = ap pos (omega arith)
sum_from-saturates t (v ∷ vs) h = ground (
  arith,
  token_count_lem v,
  sub64_nonneg max_count t,
  add64_nonneg t (pos_part v),
  sum_from-saturates (t + pos_part v) vs,
)

-- A sum of token counts is the true sum of the positive ones, or the largest int64 where that is
-- larger: it never wraps.
pub sum_token_counts-saturates :
    (vs : List ℤ) → sum_token_counts vs ≡ pos (min (2 ^ 63 - 1) (exact_sum vs))
unfolding sum_token_counts
sum_token_counts-saturates vs =
    sum_from-saturates 0 vs (omega arith)
    ∙ ap (λ k. pos (min max_count k)) {y = exact_sum vs} (omega arith)

-- A count that reports can add up: not negative, and at most the largest int64.
abbrev pub IsCount : ℤ → Type 0
IsCount (pos n) = n ≤ max_count
IsCount (negsuc n) = ⊥

pub record IsSound (u : UsageInfo) : Type 0 where
  pub input : IsCount u.input_tokens
  pub output : IsCount u.output_tokens
  pub reasoning : IsCount u.reasoning_tokens
  pub cached : IsCount u.cached_tokens
  pub creation : IsCount u.cache_creation_tokens
  pub total : IsCount u.total_tokens

token_count-IsCount : (v : ℤ) → IsInt64 v → IsCount (token_count v)
token_count-IsCount v h = rw token_count_lem (omega arith)

sum_token_counts-IsCount : (vs : List ℤ) → IsCount (sum_token_counts vs)
sum_token_counts-IsCount vs = rw sum_token_counts-saturates (omega arith)

pub record IsInt64Usage (u : GeminiUsage) : Type 0 where
  pub prompt : IsInt64 u.prompt_token_count
  pub candidates : IsInt64 u.candidates_token_count
  pub total : IsInt64 u.total_token_count
  pub cached : IsInt64 u.cached_content_token_count
  pub thoughts : IsInt64 u.thoughts_token_count
  pub tool_use : IsInt64 u.tool_use_prompt_token_count

-- For an Anthropic usage whose positive counts sum to at most the largest int64, the input tokens
-- are the fresh, the cache-creation and the cache-read tokens together, the output tokens are those
-- reported (0 for a negative report), and the total is input plus output.
pub anthropic-conserves :
    (model : String) (u : AnthropicUsage)
    → pos_part u.input_tokens
        + pos_part u.cache_creation_input_tokens
        + pos_part u.cache_read_input_tokens
        + pos_part u.output_tokens
      ≤ 2 ^ 63 - 1
    → let i = anthropic_usage_to_info model u in
      (pos_part i.input_tokens
        ≡ pos_part u.input_tokens + pos_part i.cache_creation_tokens + pos_part i.cached_tokens)
      × (i.output_tokens ≡ pos (pos_part u.output_tokens))
      × (i.total_tokens ≡ pos (pos_part i.input_tokens + pos_part i.output_tokens))
unfolding anthropic_usage_to_info exact_sum
anthropic-conserves model u h =
    simp (sum_token_counts-saturates, token_count_lem) (omega arith, refl, ap pos (omega arith))

gemini_input-IsCount : (i c : ℤ) → IsCount i → IsCount c → IsCount (gemini_input i c)
unfolding gemini_input
gemini_input-IsCount i c hi hc = ground arith

gemini_output-IsCount :
    (i o p : ℤ) → IsCount i → IsCount o → IsCount p → IsCount (gemini_output i o p)
unfolding gemini_output
gemini_output-IsCount (pos i) o (pos p) hi ho hp = ground (arith, sub64_nonneg p i)
gemini_output-IsCount i o p hi ho hp = ground arith

gemini_total-IsCount : (i o p : ℤ) → IsCount p → IsCount (gemini_total i o p)
unfolding gemini_total
gemini_total-IsCount i o p hp = ground (arith, sum_token_counts-IsCount (i ∷ o ∷ []))

-- From a Gemini usage of int64 counts, of any sign and size, no count of the result is negative or
-- past the largest int64.
pub gemini-IsSound :
    (model : String) (u : GeminiUsage) → IsInt64Usage u → IsSound (gemini_usage_to_info model u)
unfolding gemini_usage_to_info
gemini-IsSound model u h =
    let input =
      gemini_input-IsCount
        (sum_token_counts
          (token_count u.prompt_token_count ∷ token_count u.tool_use_prompt_token_count ∷ []))
        (token_count u.cached_content_token_count) (sum_token_counts-IsCount _)
        (token_count-IsCount u.cached_content_token_count h.cached) in
    let provider = token_count-IsCount u.total_token_count h.total in
    record {
      input = input;
      output = gemini_output-IsCount _ _ _ input (sum_token_counts-IsCount _) provider;
      reasoning = token_count-IsCount u.thoughts_token_count h.thoughts;
      cached = token_count-IsCount u.cached_content_token_count h.cached;
      creation = omega arith;
      total = gemini_total-IsCount _ _ _ provider;
    }

-- What is reported, and what stands in for it where nothing is.
abbrev pub or_instead : ℕ → ℕ → ℕ
or_instead zero m = m
or_instead (suc n) m = suc n

gemini_input_lem : (i c : ℕ) → gemini_input (pos i) (pos c) ≡ pos (or_instead i c)
unfolding gemini_input
gemini_input_lem zero zero = refl
gemini_input_lem zero (suc c) = ground arith
gemini_input_lem (suc i) c = ground arith

gemini_output_lem :
    (i o p : ℕ) → p ≤ max_count → gemini_output (pos i) (pos o) (pos p) ≡ pos (or_instead o (p - i))
unfolding gemini_output
gemini_output_lem i zero p h = ground (arith, sub64_nonneg p i)
gemini_output_lem i (suc o) p h = ground arith

plain_sum :
    (a b : ℤ) → sum_token_counts (a ∷ b ∷ []) ≡ pos (min max_count (pos_part a + pos_part b))
unfolding exact_sum
plain_sum a b = simp sum_token_counts-saturates (ap pos (omega arith))

total_or_sum : (p m : ℕ) → (if is_zero (pos p) then pos m else pos p) ≡ pos (or_instead p m)
total_or_sum zero m = refl
total_or_sum (suc p) m = ground arith

-- For a Gemini usage of int64 counts, negative ones counting as 0: the input tokens are those of the
-- prompt and the tools, up to the largest int64, or the cached ones where those are 0; the output
-- tokens are those of the candidates and the thoughts, up to the largest int64, or what the reported
-- total exceeds the input by, if anything, where those are 0; the total is the reported one, or input
-- plus output, up to the largest int64, where none is; the reasoning tokens are the thoughts, and the
-- cached ones those reported.
pub gemini-accounts :
    (model : String) (u : GeminiUsage)
    → IsInt64Usage u
    → let i = gemini_usage_to_info model u in
      let input = pos_part i.input_tokens in
      let output = pos_part i.output_tokens in
      (i.input_tokens
        ≡ pos (
            or_instead
              (min
                (2 ^ 63 - 1)
                (pos_part u.prompt_token_count + pos_part u.tool_use_prompt_token_count))
              (pos_part u.cached_content_token_count)))
      × (i.output_tokens
          ≡ pos (
              or_instead
                (min
                  (2 ^ 63 - 1)
                  (pos_part u.candidates_token_count + pos_part u.thoughts_token_count))
                (pos_part u.total_token_count - input)))
      × (i.total_tokens
          ≡ pos (or_instead (pos_part u.total_token_count) (min (2 ^ 63 - 1) (input + output))))
      × (i.reasoning_tokens ≡ pos (pos_part u.thoughts_token_count))
      × (i.cached_tokens ≡ pos (pos_part u.cached_content_token_count))
unfolding gemini_usage_to_info
gemini-accounts model u h =
    let input =
      or_instead
        (min max_count (pos_part u.prompt_token_count + pos_part u.tool_use_prompt_token_count))
        (pos_part u.cached_content_token_count) in
    let output =
      min max_count (pos_part u.candidates_token_count + pos_part u.thoughts_token_count) in
    simp
      (
        plain_sum,
        token_count_lem,
        gemini_input_lem,
        gemini_output_lem input output (pos_part u.total_token_count) (omega (arith, h.total)),
      )
      (refl, refl, total_or_sum (pos_part u.total_token_count) _, refl, refl)
