-- ===== src/Proxy/Record/Raw.antt =====
-- truncateUsageRawJSON: the raw usage of a response, cut at the start of a UTF-8 code point.
use metering_proxy.Common.{
  ℕ, zero, suc, ◌%◌, ◌/◌, ◌≡◌, ◌≤◌, ◌<◌, refl, ap, ◌∙◌, ◌⊎◌, inl, inr, Bool, true, false, not, [],
  ◌∷◌, ◌++◌, Bytes, length, take, drop, leb, ◌==◌, if◌then◌else◌, arith, length-take,
  take-append-drop, Bool-cases, leb→le, leb-false, ne→==, drop-all, append-nil,
}

abbrev pub max_usage_raw_json_bytes : ℕ
max_usage_raw_json_bytes = 4096

-- utf8.RuneStart: b & 0xC0 != 0x80
abbrev pub rune_start : ℕ → Bool
rune_start b = not (b / 64 % 4 == 2)

abbrev pub starts : Bytes → Bool
starts [] = false
starts (b ∷ s) = rune_start b

-- The loop over end, from its value: raw[end] is what is left behind the first `end` bytes.
unfoldable pub rune_end : ℕ → Bytes → ℕ
rune_end zero raw = zero
rune_end (suc n) raw =
    let rest = rune_end n raw in if starts (drop (suc n) raw) then suc n else rest

unfoldable pub cut_at : Bytes → ℕ
unfolding rune_end
cut_at raw =
    let end = rune_end max_usage_raw_json_bytes raw in
    if end == 0 then max_usage_raw_json_bytes else end

unfoldable pub truncate_usage_raw_json : Bytes → Bytes × Bool
unfolding cut_at
truncate_usage_raw_json raw =
    if leb (length raw) max_usage_raw_json_bytes
    then (raw, false)
    else (take (cut_at raw) raw, true)

-- No code point starts at a position from above `low` up to `high`.
abbrev pub NoStart : Bytes → ℕ → ℕ → Type 0
NoStart raw low high = (k : ℕ) → low < k → k ≤ high → starts (drop k raw) ≡ false

-- What the loop ends at: the last start from 1 up to n, or 0.
record LastStart (raw : Bytes) (n at : ℕ) : Type 0 where
  bound : at ≤ n
  none_behind : NoStart raw at n
  at_start : (at ≡ 0) ⊎ (starts (drop at raw) ≡ true)

le_cases : (k n : ℕ) → k ≤ suc n → (k ≤ n) ⊎ (k ≡ suc n)
le_cases k n h = elim (Bool-cases (leb k n)) [
  | inl e ↦ inl (leb→le k n e)
  | inr e ↦ inr (omega (arith, leb-false k n e))
]

rune_end-LastStart : (n : ℕ) (raw : Bytes) → LastStart raw n (rune_end n raw)
unfolding rune_end
rune_end-LastStart zero raw = record {
  bound = omega arith;
  none_behind = λ k h l. absurd (omega (arith, h, l));
  at_start = inl refl;
}
rune_end-LastStart (suc n) raw = choose (starts (drop (suc n) raw)) (rune_end-LastStart n raw) refl
  where
    choose :
        (b : Bool)
        → LastStart raw n (rune_end n raw)
        → starts (drop (suc n) raw) ≡ b
        → LastStart raw (suc n) (if b then suc n else rune_end n raw)
    choose true h e = record {
      bound = omega arith;
      none_behind = λ k l m. absurd (omega (arith, l, m));
      at_start = inr e;
    }
    choose false h e = record {
      bound = omega (arith, h.bound);
      none_behind = λ k l m. elim (le_cases k n m) [ inl p ↦ h.none_behind k l p | inr p ↦ rw p e ];
      at_start = h.at_start;
    }

-- What a cut of the raw usage is: `kept` and whether it is marked as truncated.
pub record IsCut (raw : Bytes) (cut : Bytes × Bool) : Type 0 where
  pub prefix : cut.0 ++ drop (length cut.0) raw ≡ raw
  pub bound : length cut.0 ≤ max_usage_raw_json_bytes
  pub whole : cut.1 ≡ false → cut.0 ≡ raw
  pub too_long : cut.1 ≡ true → max_usage_raw_json_bytes < length raw
  pub latest : cut.1 ≡ true → NoStart raw (length cut.0) max_usage_raw_json_bytes
  pub at_start :
      cut.1 ≡ true
      → (starts (drop (length cut.0) raw) ≡ true)
        ⊎ ((length cut.0 ≡ max_usage_raw_json_bytes) × NoStart raw 0 max_usage_raw_json_bytes)

record CutAt (raw : Bytes) (at : ℕ) : Type 0 where
  limit : at ≤ max_usage_raw_json_bytes
  behind : NoStart raw at max_usage_raw_json_bytes
  place :
      (starts (drop at raw) ≡ true)
      ⊎ ((at ≡ max_usage_raw_json_bytes) × NoStart raw 0 max_usage_raw_json_bytes)

cut_at-CutAt : (raw : Bytes) → CutAt raw (cut_at raw)
unfolding cut_at
cut_at-CutAt raw =
    fallback (rune_end max_usage_raw_json_bytes raw)
      (rune_end-LastStart max_usage_raw_json_bytes raw)
  where
    fallback :
        (end : ℕ)
        → LastStart raw max_usage_raw_json_bytes end
        → CutAt raw (if end == 0 then max_usage_raw_json_bytes else end)
    fallback zero h = record {
      limit = omega arith;
      behind = λ k l m. absurd (omega (arith, l, m));
      place = inr (refl, h.none_behind);
    }
    fallback (suc n) h =
        rw (ne→== (suc n) 0 (λ e. absurd (omega (arith, e))))
          record { limit = h.bound; behind = h.none_behind; place = at_or_before h.at_start }
      where
        at_or_before :
            (suc n ≡ 0) ⊎ (starts (drop (suc n) raw) ≡ true)
            → (starts (drop (suc n) raw) ≡ true)
              ⊎ ((suc n ≡ max_usage_raw_json_bytes) × NoStart raw 0 max_usage_raw_json_bytes)
        at_or_before (inl e) = absurd (omega (arith, e))
        at_or_before (inr e) = inl e

length-kept :
    (raw : Bytes)
    → max_usage_raw_json_bytes < length raw
    → length (take (cut_at raw) raw) ≡ cut_at raw
length-kept raw h = length-take (cut_at raw) raw ∙ omega (arith, (cut_at-CutAt raw).limit)

-- The raw usage that is stored is a prefix of the raw usage, of at most 4096 bytes. Where it is not
-- marked as truncated it is all of it. Where it is, the raw usage is longer than that, and the cut
-- is at the last start of a code point up to position 4096, unless none starts at positions 1 to 4096;
-- then it is at 4096.
pub truncate_usage_raw_json-IsCut : (raw : Bytes) → IsCut raw (truncate_usage_raw_json raw)
unfolding truncate_usage_raw_json
truncate_usage_raw_json-IsCut raw = choose (leb (length raw) max_usage_raw_json_bytes) refl
  where
    choose :
        (b : Bool)
        → leb (length raw) max_usage_raw_json_bytes ≡ b
        → IsCut raw (if b then (raw, false) else (take (cut_at raw) raw, true))
    choose true e = record {
      prefix = ap (λ t. raw ++ t) (drop-all (length raw) raw (omega arith)) ∙ append-nil raw;
      bound = leb→le (length raw) max_usage_raw_json_bytes e;
      whole = λ h. refl;
      too_long = λ h. absurd (cc h);
      latest = λ h. absurd (cc h);
      at_start = λ h. absurd (cc h);
    }
    choose false e =
        let long : max_usage_raw_json_bytes < length raw =
          leb-false (length raw) max_usage_raw_json_bytes e in
        let size = length-kept raw long in
        let at = cut_at-CutAt raw in
        record {
          prefix =
              ap (λ n. take (cut_at raw) raw ++ drop n raw) size
              ∙ take-append-drop (cut_at raw) raw;
          bound = omega (arith, size, at.limit);
          whole = λ h. absurd (cc h);
          too_long = λ h. long;
          latest = λ h. rw size at.behind;
          at_start = λ h. rw size at.place;
        }
