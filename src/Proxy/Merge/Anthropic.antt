-- ===== src/Proxy/Merge/Anthropic.antt =====
-- mergeUsageInfo over an Anthropic stream: message_start reports the input, and each message_delta an
-- output so far.
use metering_proxy.Common.{
  ℕ, ◌+◌, ◌<◌, ◌^◌, ◌≡◌, refl, ap, String, Option, none, some, List, [], ◌∷◌, All, arith,
}
use metering_proxy.Common.Int64.{pos, add64_nonneg}
use metering_proxy.Extractor.{UsageInfo, AnthropicUsage}
use metering_proxy.Extractor.Tokens.{anthropic_usage_to_info}
use metering_proxy.Extractor.Bounds.{exact_sum, sum_token_counts-saturates, token_count_lem}
use metering_proxy.Proxy.Merge.{
  eq_ℤ, or_count, merged_total, merge_some, merge_usage_info, merge_all,
}

-- The usage of a message_delta with `k` output tokens.
abbrev pub delta : ℕ → AnthropicUsage
delta k = record {
  input_tokens = pos 0;
  output_tokens = pos k;
  cache_creation_input_tokens = pos 0;
  cache_read_input_tokens = pos 0;
}

-- Input, output and total of a usage.
pub record Counts (i o : ℕ) (u : UsageInfo) : Type 0 where
  pub input : u.input_tokens ≡ pos i
  pub output : u.output_tokens ≡ pos o
  pub total : u.total_tokens ≡ pos (i + o)

delta-Counts :
    (model : String) (k : ℕ) → k < 2 ^ 63 → Counts 0 k (anthropic_usage_to_info model (delta k))
unfolding anthropic_usage_to_info exact_sum
delta-Counts model k h = record {
  input = simp (sum_token_counts-saturates) (ap pos (omega arith));
  output = simp (token_count_lem) (ap pos (omega arith));
  total = simp (sum_token_counts-saturates, token_count_lem) (ap pos (omega arith));
}

-- A later output replaces the earlier one, and the input stays in the total.
merge_some-Counts :
    (i o k : ℕ) (u d : UsageInfo)
    → Counts i o u
    → Counts 0 k d
    → 0 < i
    → 0 < k
    → i + k < 2 ^ 63
    → Counts i k (merge_some u d)
unfolding merge_some merged_total or_count eq_ℤ
merge_some-Counts i o k u d hu hd pi pk h = record {
  input = simp (hu.input, hd.input) refl;
  output = simp (hu.output, hd.output) (ground arith);
  total =
      simp (hu.input, hu.output, hd.input, hd.output, hd.total) (ground (arith, add64_nonneg i k));
}

unfoldable pub last_output : ℕ → List ℕ → ℕ
last_output o [] = o
last_output o (k ∷ ks) = last_output k ks

-- The usages of the message_delta events, in order.
unfoldable pub deltas : String → List ℕ → List (Option UsageInfo)
deltas model [] = []
deltas model (k ∷ ks) = some (anthropic_usage_to_info model (delta k)) ∷ deltas model ks

abbrev pub SomeCounts : ℕ → ℕ → Option UsageInfo → Type 0
SomeCounts i o none = ⊥
SomeCounts i o (some u) = Counts i o u

abbrev pub InRange : ℕ → ℕ → Type 0
InRange i k = (0 < k) × (i + k < 2 ^ 63)

merge_more :
    (model : String) (i o : ℕ) (ks : List ℕ) (u : UsageInfo)
    → 0 < i
    → Counts i o u
    → All (InRange i) ks
    → SomeCounts i (last_output o ks) (merge_all (some u) (deltas model ks))
unfolding merge_all merge_usage_info deltas last_output
merge_more model i o [] u pi h a = h
merge_more model i o (k ∷ ks) u pi h ((pk, r), a) =
    merge_more model i k ks (merge_some u (anthropic_usage_to_info model (delta k))) pi
      (merge_some-Counts i o k u (anthropic_usage_to_info model (delta k)) h
        (delta-Counts model k (omega arith)) pi pk r)
      a

start-Counts :
    (model : String) (f w r o : ℕ)
    → f + w + r + o < 2 ^ 63
    → Counts (f + w + r) o (
        anthropic_usage_to_info model (record {
          input_tokens = pos f;
          output_tokens = pos o;
          cache_creation_input_tokens = pos w;
          cache_read_input_tokens = pos r;
        }))
unfolding anthropic_usage_to_info exact_sum
start-Counts model f w r o h = record {
  input = simp (sum_token_counts-saturates) (ap pos (omega arith));
  output = simp (token_count_lem) (ap pos (omega arith));
  total = simp (sum_token_counts-saturates, token_count_lem) (ap pos (omega arith));
}

-- A message_start with `f` fresh, `w` cache-creation and `r` cache-read tokens, not all 0, and `o`
-- output tokens, followed by message_delta events with output counts that are positive and stay in
-- int64: the merged usage has all of the input, the last output count alone, and their sum as total.
pub merge_all-Counts :
    (model : String) (f w r o : ℕ) (ks : List ℕ)
    → 0 < f + w + r
    → f + w + r + o < 2 ^ 63
    → All (InRange (f + w + r)) ks
    → SomeCounts (f + w + r) (last_output o ks) (
        merge_all none (
          some (
            anthropic_usage_to_info model (record {
              input_tokens = pos f;
              output_tokens = pos o;
              cache_creation_input_tokens = pos w;
              cache_read_input_tokens = pos r;
            }))
          ∷ deltas model ks))
unfolding merge_all merge_usage_info
merge_all-Counts model f w r o ks pi h a =
    merge_more model (f + w + r) o ks _ pi (start-Counts model f w r o h) a
