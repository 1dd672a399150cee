-- ===== src/Pricing/Cost/Input.antt =====
-- inputBreakdown: the input tokens of a request, split by what they are billed as.
use metering_proxy.Common.{
  ℕ, ◌+◌, ◌-◌, ◌^◌, min, refl, false, ◌<◌, ◌≤◌, ◌≡◌, not, if◌then◌else◌, arith,
}
use metering_proxy.Common.Int64.{ℤ, pos, pos_part, neg_part, ltb_ℤ, is_pos, sub64, sub64_nonneg}

-- The results nonCachedInput, cachedInput and cacheCreationInput.
pub record Breakdown : Type 0 where
  pub non_cached : ℤ
  pub cached : ℤ
  pub creation : ℤ

-- if n < 0 { n = 0 }
abbrev pub at_least_zero : ℤ → ℤ
at_least_zero n = if ltb_ℤ n (pos 0) then pos 0 else n

-- if n > limit { n = limit }
abbrev pub at_most : ℤ → ℤ → ℤ
at_most n limit = if ltb_ℤ limit n then limit else n

unfoldable pub split_input : ℤ → ℤ → ℤ → Breakdown
unfolding sub64
split_input input cached creation =
    let made = at_most creation input in
    let remaining = sub64 input made in
    let read = at_most cached remaining in
    record { non_cached = sub64 remaining read; cached = read; creation = made }

unfoldable pub input_breakdown : ℤ → ℤ → ℤ → Breakdown
unfolding split_input
input_breakdown input cached creation =
    if not (is_pos input)
    then record {
      non_cached = pos 0;
      cached = at_least_zero cached;
      creation = at_least_zero creation;
    }
    else split_input input (at_least_zero cached) (at_least_zero creation)

at_most_pos : (a b : ℕ) → at_most (pos a) (pos b) ≡ pos (min a b)
at_most_pos a b = ground arith

split_input_lem :
    (n c k : ℕ)
    → n < 2 ^ 63
    → split_input (pos n) (pos c) (pos k) ≡ record {
      non_cached = pos (n - min k n - min c (n - min k n));
      cached = pos (min c (n - min k n));
      creation = pos (min k n);
    }
unfolding split_input
split_input_lem n c k h =
    rw
      (
        at_most_pos k n,
        sub64_nonneg n (min k n) (omega arith) h,
        at_most_pos c (n - min k n),
        sub64_nonneg (n - min k n) (min c (n - min k n)) (omega arith) (omega arith),
      )
      refl

at_least_zero_lem : (v : ℤ) → at_least_zero v ≡ pos (pos_part v)
at_least_zero_lem v = ground arith

is_pos_lem : (n : ℕ) → 0 < n → not (is_pos (pos n)) ≡ false
is_pos_lem n h = ground arith

input_breakdown_lem :
    (n : ℕ) (cached creation : ℤ)
    → 0 < n
    → input_breakdown (pos n) cached creation
      ≡ split_input (pos n) (pos (pos_part cached)) (pos (pos_part creation))
unfolding input_breakdown
input_breakdown_lem n cached creation h =
    rw (at_least_zero_lem cached, at_least_zero_lem creation, is_pos_lem n h) refl

-- A division of n tokens into parts that are not negative, of which two are at most what was said.
pub record Divides (n cached creation : ℕ) (b : Breakdown) : Type 0 where
  pub not_negative : neg_part b.non_cached + neg_part b.cached + neg_part b.creation ≡ 0
  pub sum : pos_part b.non_cached + pos_part b.cached + pos_part b.creation ≡ n
  pub cached_bound : pos_part b.cached ≤ cached
  pub creation_bound : pos_part b.creation ≤ creation

-- For n input tokens, an int64 above 0, and whatever counts of cached tokens and of cache creation
-- come with them, inputBreakdown gives parts that are not negative, that add up to n, and that have
-- no more cached tokens and no more cache creation than was said: each input token is billed once.
pub input_breakdown-Divides :
    (n : ℕ) (cached creation : ℤ)
    → 0 < n
    → n < 2 ^ 63
    → Divides n (pos_part cached) (pos_part creation) (input_breakdown (pos n) cached creation)
input_breakdown-Divides n cached creation h k =
    rw
      (
        input_breakdown_lem n cached creation h,
        split_input_lem n (pos_part cached) (pos_part creation) k,
      )
      record {
        not_negative = omega arith;
        sum = omega arith;
        cached_bound = omega arith;
        creation_bound = omega arith;
      }
