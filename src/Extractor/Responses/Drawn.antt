-- ===== src/Extractor/Responses/Drawn.antt =====
-- internal/extractor/responses_state.go, Result: which usage the result of a stream has, and what it
-- leaves in the state.
use metering_proxy.Common.{
  ◌+◌, ◌<◌, Bool, true, false, ◌||◌, ◌≡◌, ◌≢◌, refl, ◌⊎◌, inl, inr, Option, none, some, [], ◌∷◌,
  Bytes, arith, Bool-cases, if◌then◌else◌,
}
use metering_proxy.Common.Trim.{is_empty}
use metering_proxy.Common.Int64.{pos_part, is_pos}
use metering_proxy.Extractor.{UsageInfo, empty_usage, Json}
use metering_proxy.Extractor.Responses.{ResponsesStreamState}
use metering_proxy.Extractor.Responses.Result.{
  StreamFinalResult, result, final_result, settle_usage, without_usage, keep_usage, with_images,
  has_tokens, parse_responses_usage_from_completed, captured_result,
}

empty_text : (t : Bytes) → is_empty t ≡ true → t ≡ []
empty_text [] e = refl
empty_text (b ∷ t) e = absurd (cc e)

some_text : (t : Bytes) → is_empty t ≡ false → t ≢ []
some_text [] e = absurd (cc e)
some_text (b ∷ t) e = cc

-- A usage with the images that the stream has shown, where it has shown any.
abbrev pub pictured : ResponsesStreamState → UsageInfo → UsageInfo
pictured s u = record u {
  image_count = if is_pos s.image_count then s.image_count else u.image_count;
  partial_image_count = if is_pos s.partial_images then s.partial_images else u.partial_image_count;
  operation = if is_pos s.image_count || is_pos s.partial_images then "generation" else u.operation;
}

with_images-pictured :
    (s : ResponsesStreamState) (u : UsageInfo)
    → with_images s.image_count s.partial_images u ≡ pictured s u
unfolding with_images
with_images-pictured s u = elim (Bool-cases (is_pos s.image_count)) [
  | inl e ↦ elim (Bool-cases (is_pos s.partial_images)) [
    | inl f ↦ rw (e, f) refl
    | inr f ↦ rw (e, f) refl
  ]
  | inr e ↦ elim (Bool-cases (is_pos s.partial_images)) [
    | inl f ↦ rw (e, f) refl
    | inr f ↦ rw (e, f) refl
  ]
]

module _ (json : Json) (s : ResponsesStreamState) where
  -- The usage of the completed event has tokens.
  pub data Brings (u : UsageInfo) : Type 0 where
    brings :
        s.completed_usage ≢ []
        → parse_responses_usage_from_completed json s.completed_model s.completed_usage ≡ some u
        → 0 < pos_part u.input_tokens + pos_part u.output_tokens + pos_part u.total_tokens
        → Brings u

  -- There is none, it does not parse, or it has no tokens.
  pub data BringsNone : Type 0 where
    no_text : s.completed_usage ≡ [] → BringsNone
    no_usage :
        parse_responses_usage_from_completed json s.completed_model s.completed_usage ≡ none
        → BringsNone
    no_tokens :
        {u : UsageInfo}
        → parse_responses_usage_from_completed json s.completed_model s.completed_usage ≡ some u
        → pos_part u.input_tokens + pos_part u.output_tokens + pos_part u.total_tokens ≡ 0
        → BringsNone

  -- The images of a completed response do not count as a usage.
  pub data NoImages : Type 0 where
    parse_errors : 0 < pos_part s.json_parse_errors → NoImages
    not_completed : s.seen_completed ≡ false → NoImages
    no_images : pos_part s.image_count + pos_part s.partial_images ≡ 0 → NoImages

  -- The usage of a result, and the state that Result leaves.
  pub data Drawn (r : StreamFinalResult) (t : ResponsesStreamState) : Type 0 where
    fresh :
        {u : UsageInfo}
        → Brings u
        → r.usage ≡ some (pictured s u)
        → t ≡ record s { usage_seen = true; usage = some (pictured s u) }
        → Drawn r t
    stored :
        {u : UsageInfo}
        → BringsNone
        → s.usage_seen ≡ true
        → s.usage ≡ some u
        → r.usage ≡ some u
        → t ≡ s
        → Drawn r t
    images_alone :
        BringsNone
        → (s.usage_seen ≡ false) ⊎ (s.usage ≡ none)
        → pos_part s.json_parse_errors ≡ 0
        → s.seen_completed ≡ true
        → 0 < pos_part s.image_count + pos_part s.partial_images
        → r.usage
          ≡ some (record empty_usage {
            model = r.model_returned;
            image_count = s.image_count;
            partial_image_count = s.partial_images;
            operation = "generation";
          })
        → t ≡ s
        → Drawn r t
    nothing :
        BringsNone
        → (s.usage_seen ≡ false) ⊎ (s.usage ≡ none)
        → NoImages
        → r.usage ≡ none
        → t ≡ s
        → Drawn r t

  without_usage-Drawn :
      BringsNone → (s.usage_seen ≡ false) ⊎ (s.usage ≡ none) → Drawn (without_usage s) s
  unfolding without_usage
  without_usage-Drawn b n = elim (Bool-cases (is_pos s.json_parse_errors)) [
    | inl e ↦ rw e (nothing b n (parse_errors (ground arith)) refl refl)
    | inr e ↦ rw e (elim (Bool-cases s.seen_completed) [
      | inl c ↦ simp c (elim (Bool-cases (is_pos s.image_count || is_pos s.partial_images)) [
        | inl i ↦ rw i (images_alone b n (ground arith) c (ground arith) refl refl)
        | inr i ↦ rw i (nothing b n (no_images (ground arith)) refl refl)
      ])
      | inr c ↦ nothing b n (not_completed c) (ground arith) refl
    ])
  ]

  final_result-Drawn :
      (seen : Bool) (o : Option UsageInfo)
      → s.usage_seen ≡ seen
      → s.usage ≡ o
      → BringsNone
      → Drawn (final_result seen o s) s
  unfolding final_result captured_result
  final_result-Drawn true (some u) e f b = stored b e f refl refl
  final_result-Drawn true none e f b = without_usage-Drawn b (inr f)
  final_result-Drawn false o e f b = without_usage-Drawn b (inl e)

  -- What Result returns, for a state that it has settled.
  abbrev FromSettled : ResponsesStreamState → Type 0
  FromSettled t = Drawn (final_result t.usage_seen t.usage t) t

  kept-Drawn : BringsNone → FromSettled s
  kept-Drawn b = final_result-Drawn s.usage_seen s.usage refl refl b

  keep_usage-Drawn :
      (o : Option UsageInfo)
      → s.completed_usage ≢ []
      → parse_responses_usage_from_completed json s.completed_model s.completed_usage ≡ o
      → FromSettled (keep_usage o s)
  unfolding keep_usage has_tokens
  keep_usage-Drawn none n e = kept-Drawn (no_usage e)
  keep_usage-Drawn (some u) n e =
      elim (Bool-cases (is_pos u.input_tokens || is_pos u.output_tokens || is_pos u.total_tokens)) [
        | inl t ↦
            rw (t, with_images-pictured s u)
              (unfold final_result captured_result in fresh (brings n e (ground arith)) refl refl)
        | inr t ↦ rw t (kept-Drawn (no_tokens e (ground arith)))
      ]

  settle_usage-Drawn : FromSettled (settle_usage json s)
  unfolding settle_usage
  settle_usage-Drawn = elim (Bool-cases (is_empty s.completed_usage)) [
    | inl e ↦ rw e (kept-Drawn (no_text (empty_text s.completed_usage e)))
    | inr e ↦ rw e (
        keep_usage-Drawn
          (parse_responses_usage_from_completed json s.completed_model s.completed_usage)
          (some_text s.completed_usage e) refl)
  ]

-- For every state of a stream: where the usage of its completed event parses and has tokens, Result
-- returns it, with the images that the stream has shown, and stores it in the state. Where there is
-- none, the state is unchanged, and Result returns the usage that is stored, or else the images alone,
-- of a completed response with images and no parse error, or else none.
pub result-Drawn :
    (json : Json) (s : ResponsesStreamState) → Drawn json s (result json s).0 (result json s).1
unfolding result
result-Drawn json s = settle_usage-Drawn json s
