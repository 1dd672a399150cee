-- ===== src/UsageQueue/Payload/Totals.antt =====
-- applyTokenFields: the counts of a side usage event, and its total.
use mathlib.Core.Path.{subst}
use metering_proxy.Common.{
  ℕ, zero, suc, ◌+◌, ◌<◌, ◌^◌, ◌≡◌, ◌≢◌, Bool-cases, inl, inr, ltb, refl, ◌&&◌, Option, none, some,
  [], ◌∷◌, if◌then◌else◌, arith,
}
use metering_proxy.Common.Int64.{
  ℤ, pos, negsuc, pos_part, neg_part, add64, add64_nonneg, is_zero, is_pos,
}
use metering_proxy.UsageQueue.Payload.{Float, Members, SideUsageEvent, int64_field, object_field}

or_else : ℤ → ℤ → ℤ
or_else n m = if is_zero n then m else n

module _ {F : Type 0} (float : Float F) where
  unfoldable pub top_tokens : SideUsageEvent → Members F → SideUsageEvent
  unfolding int64_field
  top_tokens e raw = record e {
    input_tokens = int64_field float raw ("input_tokens" ∷ "prompt_tokens" ∷ []);
    output_tokens = int64_field float raw ("output_tokens" ∷ "completion_tokens" ∷ []);
    reasoning_tokens = int64_field float raw ("reasoning_tokens" ∷ []);
    cached_tokens = int64_field float raw ("cached_tokens" ∷ []);
    cache_read_tokens = int64_field float raw ("cache_read_tokens" ∷ []);
    cache_creation_tokens =
        int64_field float raw ("cache_creation_tokens" ∷ "cache_creation_input_tokens" ∷ []);
    total_tokens = int64_field float raw ("total_tokens" ∷ []);
  }

  -- The object below "tokens" or "usage" gives what is still 0.
  unfoldable pub nested_tokens : SideUsageEvent → Option (Members F) → SideUsageEvent
  unfolding int64_field or_else
  nested_tokens e none = e
  nested_tokens e (some t) = record e {
    input_tokens =
        or_else e.input_tokens (int64_field float t ("input_tokens" ∷ "prompt_tokens" ∷ []));
    output_tokens =
        or_else e.output_tokens (int64_field float t ("output_tokens" ∷ "completion_tokens" ∷ []));
    reasoning_tokens = or_else e.reasoning_tokens (int64_field float t ("reasoning_tokens" ∷ []));
    cached_tokens = or_else e.cached_tokens (int64_field float t ("cached_tokens" ∷ []));
    cache_read_tokens =
        or_else e.cache_read_tokens (int64_field float t ("cache_read_tokens" ∷ []));
    cache_creation_tokens =
        or_else e.cache_creation_tokens
          (int64_field float t ("cache_creation_tokens" ∷ "cache_creation_input_tokens" ∷ []));
    total_tokens = or_else e.total_tokens (int64_field float t ("total_tokens" ∷ []));
  }

-- The cached count falls back on the cache reads.
unfoldable pub cached_count : ℤ → ℤ → ℤ
cached_count cached cache_read = if is_zero cached && is_pos cache_read then cache_read else cached

-- The total falls back on two sums.
unfoldable pub total_count : ℤ → ℤ → ℤ → ℤ → ℤ → ℤ → ℤ
unfolding or_else add64
total_count total input output reasoning cached creation =
    let plain = add64 (add64 input output) reasoning in
    or_else (or_else total plain) (add64 (add64 plain cached) creation)

unfoldable pub settle_tokens : SideUsageEvent → SideUsageEvent
unfolding cached_count total_count
settle_tokens e =
    let cached = cached_count e.cached_tokens e.cache_read_tokens in
    record e {
      cached_tokens = cached;
      total_tokens =
          total_count e.total_tokens e.input_tokens e.output_tokens e.reasoning_tokens cached
            e.cache_creation_tokens;
    }

unfoldable pub apply_token_fields :
    {F : Type 0} → Float F → SideUsageEvent → Members F → SideUsageEvent
unfolding top_tokens nested_tokens settle_tokens object_field
apply_token_fields float e raw = settle_tokens (
    nested_tokens float (top_tokens float e raw) (object_field float raw ("tokens" ∷ "usage" ∷ [])))

-- Counts that are not negative and add up to an int64.
pub record AreCounts (a b c d f : ℤ) : Type 0 where
  pub not_negative : neg_part a + neg_part b + neg_part c + neg_part d + neg_part f ≡ 0
  pub no_overflow : pos_part a + pos_part b + pos_part c + pos_part d + pos_part f < 2 ^ 63

five_sum :
    (a b c d f : ℕ)
    → a + b + c + d + f < 2 ^ 63
    → add64 (add64 (add64 (add64 (pos a) (pos b)) (pos c)) (pos d)) (pos f)
      ≡ pos (a + b + c + d + f)
five_sum a b c d f h =
    rw
      (
        add64_nonneg a b (omega arith),
        add64_nonneg (a + b) c (omega arith),
        add64_nonneg (a + b + c) d (omega arith),
        add64_nonneg (a + b + c + d) f (omega arith),
      )
      refl

three_sum :
    (a b c d f : ℕ)
    → a + b + c + d + f < 2 ^ 63
    → add64 (add64 (pos a) (pos b)) (pos c) ≡ pos (a + b + c)
three_sum a b c d f h =
    rw (add64_nonneg a b (omega arith), add64_nonneg (a + b) c (omega arith)) refl

-- What the total of a side usage event is, from the total that the payload reports: that one, or the
-- input, output and reasoning tokens, or the cached and cache-creation tokens where those are 0 too.
pub data IsTotal (reported input output reasoning cached creation total : ℤ) : Type 0 where
  as_reported :
      reported ≢ pos 0
      → total ≡ reported
      → IsTotal reported input output reasoning cached creation total
  plain_sum :
      reported ≡ pos 0
      → 0 < pos_part input + pos_part output + pos_part reasoning
      → total ≡ pos (pos_part input + pos_part output + pos_part reasoning)
      → IsTotal reported input output reasoning cached creation total
  cache_sum :
      reported ≡ pos 0
      → pos_part input + pos_part output + pos_part reasoning ≡ 0
      → total ≡ pos (pos_part cached + pos_part creation)
      → IsTotal reported input output reasoning cached creation total

total_count-made :
    (a b c d f : ℕ)
    → a + b + c + d + f < 2 ^ 63
    → IsTotal
        (pos 0)
        (pos a)
        (pos b)
        (pos c)
        (pos d)
        (pos f)
        (total_count (pos 0) (pos a) (pos b) (pos c) (pos d) (pos f))
unfolding total_count or_else
total_count-made a b c d f h = elim (Bool-cases (ltb 0 (a + b + c))) [
  | inl p ↦ plain_sum refl (ground arith) (ground (arith, three_sum a b c d f h))
  | inr p ↦
      cache_sum refl (ground arith) (ground (arith, three_sum a b c d f h, five_sum a b c d f h))
]

counted :
    (a b c d f : ℤ)
    → AreCounts a b c d f
    → IsTotal (pos 0) a b c d f (total_count (pos 0) a b c d f)
counted (pos a) (pos b) (pos c) (pos d) (pos f) h = total_count-made a b c d f h.no_overflow
counted (negsuc a) b c d f h = absurd (omega (arith, h.not_negative))
counted a (negsuc b) c d f h = absurd (omega (arith, h.not_negative))
counted a b (negsuc c) d f h = absurd (omega (arith, h.not_negative))
counted a b c (negsuc d) f h = absurd (omega (arith, h.not_negative))
counted a b c d (negsuc f) h = absurd (omega (arith, h.not_negative))

total_count-IsTotal :
    (t a b c d f : ℤ) → AreCounts a b c d f → IsTotal t a b c d f (total_count t a b c d f)
total_count-IsTotal (pos zero) a b c d f h = counted a b c d f h
total_count-IsTotal (pos (suc t)) a b c d f h =
    unfold total_count or_else in as_reported (ground arith) (ground arith)
total_count-IsTotal (negsuc t) a b c d f h =
    unfold total_count or_else in as_reported (ground arith) (ground arith)

or_zero : (t : ℤ) → t ≡ (if is_zero t then pos 0 else t)
or_zero t = ground arith

abbrev pub CountsOf : SideUsageEvent → Type 0
CountsOf r =
    AreCounts r.input_tokens r.output_tokens r.reasoning_tokens r.cached_tokens
      r.cache_creation_tokens

module _ {F : Type 0} (float : Float F) where
  -- The total of an object.
  abbrev pub own_total : Members F → ℤ
  own_total raw = int64_field float raw ("total_tokens" ∷ [])

  abbrev pub below_total : Option (Members F) → ℤ
  below_total none = pos 0
  below_total (some t) = own_total t

  -- The total that a payload reports: its own, or the one below "tokens" or "usage" where that is 0.
  abbrev pub reported_total : Members F → ℤ
  reported_total raw =
      if is_zero (own_total raw)
      then below_total (object_field float raw ("tokens" ∷ "usage" ∷ []))
      else own_total raw

  nested_tokens-total :
      (e : SideUsageEvent) (t : Option (Members F))
      → (nested_tokens float e t).total_tokens
        ≡ (if is_zero e.total_tokens then below_total t else e.total_tokens)
  unfolding nested_tokens or_else
  nested_tokens-total e none = or_zero e.total_tokens
  nested_tokens-total e (some t) = refl

-- A side usage event whose counts are not negative and add up to an int64 has the total that the
-- payload reports, at its top or, where that is 0, below "tokens" or "usage". Where both are 0, the
-- total is the sum of the input, output and reasoning tokens, or of the cached and cache-creation
-- tokens where those are all 0.
pub apply_token_fields-IsTotal :
    {F : Type 0} (float : Float F) (e : SideUsageEvent) (raw : Members F)
    → CountsOf (apply_token_fields float e raw)
    → let r = apply_token_fields float e raw in
      IsTotal
        (reported_total float raw)
        r.input_tokens
        r.output_tokens
        r.reasoning_tokens
        r.cached_tokens
        r.cache_creation_tokens
        r.total_tokens
unfolding apply_token_fields settle_tokens top_tokens
apply_token_fields-IsTotal float e raw h =
    let n =
      nested_tokens float (top_tokens float e raw)
        (object_field float raw ("tokens" ∷ "usage" ∷ [])) in
    let r = settle_tokens n in
    subst
      (λ t.
        IsTotal t r.input_tokens r.output_tokens r.reasoning_tokens r.cached_tokens
          r.cache_creation_tokens r.total_tokens)
      (nested_tokens-total float (top_tokens float e raw)
        (object_field float raw ("tokens" ∷ "usage" ∷ [])))
      (total_count-IsTotal n.total_tokens n.input_tokens n.output_tokens n.reasoning_tokens
        (cached_count n.cached_tokens n.cache_read_tokens) n.cache_creation_tokens h)
