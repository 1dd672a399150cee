-- ===== src/Proxy/NonStream.antt =====
-- internal/proxy/proxy.go, handleNonStream: what is recorded of a body that is not a stream, drawn
-- from its sample. The copy to the client and the error information are not modelled. `extract` runs
-- the profile's extractor, for the endpoint of the request.
use metering_proxy.Common.{
  ℕ, ◌≡◌, ◌≢◌, ◌⊎◌, refl, eq_iff, arith, String, Bool, true, false, ◌&&◌, Option, none, some, [],
  ◌∷◌, Bytes, str_eq, if◌then◌else◌, Bool-cases, inl, inr,
}
use metering_proxy.Common.Trim.{is_empty}
use metering_proxy.Event.{
  outcome_captured, outcome_skipped, outcome_failed, capture_request_only,
  reason_request_only_profile, reason_usage_not_present, reason_parse_error,
}
use metering_proxy.Extractor.{UsageInfo}
use metering_proxy.Profile.{EndpointProfile, NonStreamExtractor}

-- event.ReasonSampleLimitExceeded
abbrev pub reason_sample_limit_exceeded : String
reason_sample_limit_exceeded = "sample_limit_exceeded"

-- What an extractor returns: an error, or a usage that may be nil.
pub data Extracted : Type 0 where
  refused : Extracted
  extracted : Option UsageInfo → Extracted

-- The variables of the handler, and the calls of IncrParseErrors.
pub record Capture : Type 0 where
  pub usage : Option UsageInfo
  pub capture_outcome : String
  pub capture_reason : String
  pub parse_errors : ℕ

abbrev untouched : Capture
untouched = record {
  usage = none;
  capture_outcome = outcome_captured;
  capture_reason = "";
  parse_errors = 0;
}

unfoldable pub on_extracted : Bool → Extracted → Capture
on_extracted overflow (extracted u) = record untouched { usage = u }
on_extracted overflow refused =
    if overflow
    then record untouched { capture_reason = reason_sample_limit_exceeded }
    else record untouched {
      capture_outcome = outcome_failed;
      capture_reason = reason_parse_error;
      parse_errors = 1;
    }

-- if usage == nil
unfoldable pub settle_missing : Bool → Capture → Capture
settle_missing request_only c =
    if request_only
    then record c {
      capture_outcome = outcome_captured;
      capture_reason = reason_request_only_profile;
    }
    else if str_eq c.capture_outcome outcome_captured && str_eq c.capture_reason ""
    then record c { capture_outcome = outcome_skipped; capture_reason = reason_usage_not_present }
    else if str_eq c.capture_reason reason_sample_limit_exceeded
    then record c { capture_outcome = outcome_skipped }
    else c

unfoldable pub settle : Bool → Option UsageInfo → Capture → Capture
unfolding settle_missing
settle request_only (some u) c = c
settle request_only none c = settle_missing request_only c

unfoldable pub is_request_only : Option EndpointProfile → Bool
is_request_only none = false
is_request_only (some prof) = str_eq prof.capture_mode capture_request_only

module _ (extract : NonStreamExtractor → Bytes → Extracted) where
  unfoldable pub run_extractor : Option NonStreamExtractor → Bool → Bytes → Capture
  unfolding on_extracted
  run_extractor none overflow sample = untouched
  run_extractor (some x) overflow sample =
      if is_empty sample then untouched else on_extracted overflow (extract x sample)

  unfoldable pub first_capture : Option EndpointProfile → Bool → Bytes → Capture
  unfolding run_extractor
  first_capture none overflow sample = untouched
  first_capture (some prof) overflow sample =
      if str_eq prof.capture_mode capture_request_only
      then record untouched { capture_reason = reason_request_only_profile }
      else run_extractor prof.non_stream_extractor overflow sample

  unfoldable pub capture_non_stream : Option EndpointProfile → Bool → Bytes → Capture
  unfolding first_capture settle is_request_only
  capture_non_stream prof overflow sample =
      let c = first_capture prof overflow sample in settle (is_request_only prof) c.usage c

  -- What the extractor of a profile returns for a sample that is not empty.
  pub data Returns (prof : Option EndpointProfile) (sample : Bytes) (r : Extracted) : Type 0 where
    returned :
        {p : EndpointProfile} {x : NonStreamExtractor}
        → prof ≡ some p
        → p.capture_mode ≢ capture_request_only
        → p.non_stream_extractor ≡ some x
        → sample ≢ []
        → extract x sample ≡ r
        → Returns prof sample r

  -- No extractor is run.
  pub data IsUnread (prof : Option EndpointProfile) (sample : Bytes) : Type 0 where
    no_profile : prof ≡ none → IsUnread prof sample
    no_extractor :
        {p : EndpointProfile}
        → prof ≡ some p
        → p.capture_mode ≢ capture_request_only
        → p.non_stream_extractor ≡ none
        → IsUnread prof sample
    no_sample :
        {p : EndpointProfile}
        → prof ≡ some p
        → p.capture_mode ≢ capture_request_only
        → sample ≡ []
        → IsUnread prof sample

  -- The outcomes, each with what it takes.
  pub data IsMetered (prof : Option EndpointProfile) (overflow : Bool) (sample : Bytes)
      (c : Capture) : Type 0 where
    with_usage :
        {u : UsageInfo}
        → Returns prof sample (extracted (some u))
        → c ≡ record {
          usage = some u;
          capture_outcome = outcome_captured;
          capture_reason = "";
          parse_errors = 0;
        }
        → IsMetered prof overflow sample c
    request_alone :
        {p : EndpointProfile}
        → prof ≡ some p
        → p.capture_mode ≡ capture_request_only
        → c ≡ record {
          usage = none;
          capture_outcome = outcome_captured;
          capture_reason = reason_request_only_profile;
          parse_errors = 0;
        }
        → IsMetered prof overflow sample c
    absent :
        Returns prof sample (extracted none) ⊎ IsUnread prof sample
        → c ≡ record {
          usage = none;
          capture_outcome = outcome_skipped;
          capture_reason = reason_usage_not_present;
          parse_errors = 0;
        }
        → IsMetered prof overflow sample c
    cut_off :
        Returns prof sample refused
        → overflow ≡ true
        → c ≡ record {
          usage = none;
          capture_outcome = outcome_skipped;
          capture_reason = reason_sample_limit_exceeded;
          parse_errors = 0;
        }
        → IsMetered prof overflow sample c
    unreadable :
        Returns prof sample refused
        → overflow ≡ false
        → c ≡ record {
          usage = none;
          capture_outcome = outcome_failed;
          capture_reason = reason_parse_error;
          parse_errors = 1;
        }
        → IsMetered prof overflow sample c

  extracted-IsMetered :
      (prof : Option EndpointProfile) (overflow : Bool) (sample : Bytes) (r : Extracted)
      → Returns prof sample r
      → IsMetered prof overflow sample
          (settle false (on_extracted overflow r).usage (on_extracted overflow r))
  unfolding settle on_extracted
  extracted-IsMetered prof overflow sample (extracted (some u)) h = with_usage h refl
  extracted-IsMetered prof overflow sample (extracted none) h = absent (inl h) refl
  extracted-IsMetered prof true sample refused h = cut_off h refl refl
  extracted-IsMetered prof false sample refused h = unreadable h refl refl

  run-IsMetered :
      (p : EndpointProfile) (x : Option NonStreamExtractor) (overflow : Bool) (sample : Bytes)
      → p.capture_mode ≢ capture_request_only
      → p.non_stream_extractor ≡ x
      → IsMetered
          (some p)
          overflow
          sample
          (settle false (run_extractor x overflow sample).usage (run_extractor x overflow sample))
  unfolding run_extractor
  run-IsMetered p none overflow sample m e =
      unfold settle in absent (inr (no_extractor refl m e)) refl
  run-IsMetered p (some x) overflow [] m e =
      unfold settle in absent (inr (no_sample refl m refl)) refl
  run-IsMetered p (some x) overflow (b ∷ s) m e =
      extracted-IsMetered (some p) overflow (b ∷ s) (extract x (b ∷ s))
        (returned refl m e (cc) refl)

  -- What is recorded of a body that is not a stream, from its profile, its sample and whether the
  -- sample overflowed. A request-only profile is captured without a usage. Else the profile's
  -- extractor reads a sample that is not empty: a usage that it finds is captured, with no reason;
  -- where it fails, a sample that overflowed is skipped as cut off, and one that did not is failed
  -- with a parse error, the one case that is counted as one. Without a usage, a profile, an extractor
  -- or a sample the request is skipped, with no usage present.
  pub capture_non_stream-IsMetered :
      (prof : Option EndpointProfile) (overflow : Bool) (sample : Bytes)
      → IsMetered prof overflow sample (capture_non_stream prof overflow sample)
  unfolding capture_non_stream
  capture_non_stream-IsMetered none overflow sample = absent (inr (no_profile refl)) refl
  capture_non_stream-IsMetered (some prof) overflow sample =
      elim (Bool-cases (str_eq prof.capture_mode capture_request_only)) [
        | inl e ↦ rw e (
            request_alone refl (ground (arith, eq_iff prof.capture_mode capture_request_only)) refl)
        | inr e ↦ rw e (
            run-IsMetered prof prof.non_stream_extractor overflow sample
              (ground (arith, eq_iff prof.capture_mode capture_request_only)) refl)
      ]
