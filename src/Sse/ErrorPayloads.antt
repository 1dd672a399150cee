-- ===== src/Sse/ErrorPayloads.antt =====
-- internal/proxy/proxy.go, errorPayloadSampler and stripSSEDataLine: the data payloads of a failed
-- stream, kept for the classification of its error.
use metering_proxy.Common.{
  ℕ, ◌+◌, ◌-◌, ◌≤◌, ◌≡◌, ap, ◌∙◌, refl, Bool, true, false, not, ◌||◌, Option, none, some, List, [],
  ◌∷◌, ◌++◌, Bytes, codes, length, drop, ltb, leb, arith, if◌then◌else◌, Bool-cases, inl, inr,
  length-append,
}
use metering_proxy.Common.Trim.{trim_space, has_prefix, bytes_eq, is_empty}
use metering_proxy.Profile.{EndpointProfile}
use metering_proxy.Sse.Assembler.{join_more, join_lines}

pub record ErrorPayloadSampler : Type 0 where
  pub payloads : List Bytes
  pub total_bytes : ℕ
  pub overflow : Bool
  pub locked : Bool

unfoldable pub new_error_payload_sampler : ErrorPayloadSampler
new_error_payload_sampler = record {
  payloads = [];
  total_bytes = 0;
  overflow = false;
  locked = false;
}

unfoldable pub add_stripped_payload : ErrorPayloadSampler → Bytes → ErrorPayloadSampler
add_stripped_payload s payload =
    if is_empty payload || s.locked
    then s
    else if leb 5 (length s.payloads) || ltb 8192 (s.total_bytes + length payload)
    then record s { overflow = true }
    else record s {
      payloads = s.payloads ++ payload ∷ [];
      total_bytes = s.total_bytes + length payload;
    }

-- What finalize leaves, and what it returns.
unfoldable pub finalize : ErrorPayloadSampler → ErrorPayloadSampler × Bytes
unfolding join_lines
finalize s = (record s { locked = true }, join_lines s.payloads)

-- The marker that ends a stream, which is no payload; the usual one where the profile names none.
unfoldable pub end_marker : Option EndpointProfile → Bytes
end_marker none = codes "[DONE]"
end_marker (some prof) =
    let marker = codes prof.stream_protocol.completion_marker in
    if is_empty marker then codes "[DONE]" else marker

unfoldable pub strip_sse_data_line : Bytes → Option EndpointProfile → Bytes
unfolding trim_space has_prefix bytes_eq end_marker
strip_sse_data_line line prof =
    let trimmed = trim_space line in
    let payload = trim_space (drop 5 trimmed) in
    if not (has_prefix trimmed (codes "data:"))
      || is_empty payload
      || bytes_eq payload (end_marker prof)
    then []
    else payload

-- processSSEEvent, for the sampler of a response with an error status.
unfoldable pub sample_events :
    Option EndpointProfile → ErrorPayloadSampler → List Bytes → ErrorPayloadSampler
sample_events prof s [] = s
sample_events prof s (e ∷ es) =
    sample_events prof (add_stripped_payload s (strip_sse_data_line e prof)) es

-- The bytes of the payloads.
sum_lengths : List Bytes → ℕ
sum_lengths [] = 0
sum_lengths (p ∷ ps) = length p + sum_lengths ps

sum_lengths-append : (ps qs : List Bytes) → sum_lengths (ps ++ qs) ≡ sum_lengths ps + sum_lengths qs
unfolding sum_lengths
sum_lengths-append [] qs = omega arith
sum_lengths-append (p ∷ ps) qs = rw (sum_lengths-append ps qs) (omega arith)

record IsSampled (s : ErrorPayloadSampler) : Type 0 where
  pub few : length s.payloads ≤ 5
  pub counted : s.total_bytes ≡ sum_lengths s.payloads
  pub small : s.total_bytes ≤ 8192
  pub unlocked : s.locked ≡ false

new-IsSampled : IsSampled new_error_payload_sampler
unfolding new_error_payload_sampler sum_lengths
new-IsSampled = record { few = omega arith; counted = refl; small = omega arith; unlocked = refl }

grown-IsSampled :
    (s : ErrorPayloadSampler) (p : Bytes)
    → IsSampled s
    → (leb 5 (length s.payloads) || ltb 8192 (s.total_bytes + length p)) ≡ false
    → IsSampled
        (record s { payloads = s.payloads ++ p ∷ []; total_bytes = s.total_bytes + length p })
unfolding sum_lengths
grown-IsSampled s p h fits = record {
  few = rw (length-append s.payloads (p ∷ [])) (ground arith);
  counted = rw (sum_lengths-append s.payloads (p ∷ [])) (omega (arith, h.counted));
  small = ground arith;
  unlocked = h.unlocked;
}

full-IsSampled : (s : ErrorPayloadSampler) → IsSampled s → IsSampled (record s { overflow = true })
full-IsSampled s h = record {
  few = h.few;
  counted = h.counted;
  small = h.small;
  unlocked = h.unlocked;
}

add_stripped_payload-IsSampled :
    (s : ErrorPayloadSampler) (p : Bytes) → IsSampled s → IsSampled (add_stripped_payload s p)
unfolding add_stripped_payload
add_stripped_payload-IsSampled s p h = elim (Bool-cases (is_empty p || s.locked)) [
  | inl e ↦ rw e h
  | inr e ↦
      rw e (elim (Bool-cases (leb 5 (length s.payloads) || ltb 8192 (s.total_bytes + length p))) [
        | inl f ↦ rw f (full-IsSampled s h)
        | inr f ↦ rw f (grown-IsSampled s p h f)
      ])
]

sample_events-IsSampled :
    (prof : Option EndpointProfile) (s : ErrorPayloadSampler) (es : List Bytes)
    → IsSampled s
    → IsSampled (sample_events prof s es)
unfolding sample_events
sample_events-IsSampled prof s [] h = h
sample_events-IsSampled prof s (e ∷ es) h =
    sample_events-IsSampled prof (add_stripped_payload s (strip_sse_data_line e prof)) es
      (add_stripped_payload-IsSampled s (strip_sse_data_line e prof) h)

length-join_more : (ps : List Bytes) → length (join_more ps) ≡ sum_lengths ps + length ps
unfolding join_more sum_lengths
length-join_more [] = refl
length-join_more (p ∷ ps) = rw (length-append p (join_more ps), length-join_more ps) (omega arith)

length-join_lines : (ps : List Bytes) → length (join_lines ps) ≤ sum_lengths ps + (length ps - 1)
unfolding join_lines sum_lengths
length-join_lines [] = omega arith
length-join_lines (p ∷ ps) = rw (length-append p (join_more ps), length-join_more ps) (omega arith)

-- Whatever events a stream with an error status has had, the sample that finalize returns is at most
-- 8196 bytes long: at most 8192 of at most five payloads, and the separators.
pub length-finalize :
    (prof : Option EndpointProfile) (es : List Bytes)
    → length (finalize (sample_events prof new_error_payload_sampler es)).1 ≤ 8196
unfolding finalize
length-finalize prof es =
    let s = sample_events prof new_error_payload_sampler es in
    let h = sample_events-IsSampled prof new_error_payload_sampler es new-IsSampled in
    omega (arith, length-join_lines s.payloads, h.few, h.small, h.counted)

stays :
    (s : ErrorPayloadSampler) (p : Bytes)
    → add_stripped_payload (record s { locked = true }) p ≡ record s { locked = true }
unfolding add_stripped_payload
stays s [] = refl
stays s (c ∷ p) = refl

sample_events_step :
    (prof : Option EndpointProfile) (s : ErrorPayloadSampler) (e : Bytes) (es : List Bytes)
    → sample_events prof s (e ∷ es)
      ≡ sample_events prof (add_stripped_payload s (strip_sse_data_line e prof)) es
unfolding sample_events
sample_events_step prof s e es = refl

sample_events-locked :
    (prof : Option EndpointProfile) (s : ErrorPayloadSampler) (es : List Bytes)
    → sample_events prof (record s { locked = true }) es ≡ record s { locked = true }
sample_events-locked prof s [] = unfold sample_events in refl
sample_events-locked prof s (e ∷ es) =
    sample_events_step prof (record s { locked = true }) e es
    ∙ (ap (λ u. sample_events prof u es) (stays s (strip_sse_data_line e prof))
        ∙ sample_events-locked prof s es)

-- After finalize the sample stands: whatever events come later, a second finalize gives what the
-- first one did.
pub finalize-locked :
    (prof : Option EndpointProfile) (s : ErrorPayloadSampler) (es : List Bytes)
    → finalize (sample_events prof (finalize s).0 es) ≡ finalize s
unfolding finalize
finalize-locked prof s es =
    ap (λ s. (record s { locked = true }, join_lines s.payloads)) (sample_events-locked prof s es)
