-- ===== src/Proxy/Finalize.antt =====
-- internal/proxy/proxy.go, finalizeStreamUsage: what is recorded of a stream when it ends.
use metering_proxy.Common.{
  ℕ, ◌≡◌, refl, String, Bool, true, false, not, ◌&&◌, ◌||◌, Option, none, some, str_eq, ltb,
  if◌then◌else◌, ◌⊎◌, inl, inr, Bool-cases, arith, eq_iff,
}
use metering_proxy.Event.{
  outcome_captured, outcome_skipped, outcome_failed, capture_request_only,
  reason_request_only_profile, reason_usage_not_present, reason_parse_error, source_usage,
  terminal_stream_error,
}
use metering_proxy.Extractor.{UsageInfo, ErrorInfo, Json}
use metering_proxy.Extractor.Responses.{ResponsesStreamState}
use metering_proxy.Extractor.Responses.Result.{StreamFinalResult, result, has_tokens}
use metering_proxy.Extractor.Responses.Outcome.{
  IsReason, parse_error, not_present, Classified, result-IsClassified,
}
use metering_proxy.Profile.{EndpointProfile}
use metering_proxy.Proxy.Merge.{merge_usage_info}

pub record StreamResult : Type 0 where
  pub usage : Option UsageInfo
  pub model_returned : String
  pub model_returned_source : String
  pub terminal_event : String
  pub terminal_reason : String
  pub capture_outcome : String
  pub capture_reason : String
  pub error_info : Option ErrorInfo

-- usage.Model = res.ModelReturned, where there is one
named_usage : String → UsageInfo → UsageInfo
named_usage model u = if str_eq model "" then u else record u { model = model }

named : String → Option UsageInfo → Option UsageInfo
unfolding named_usage
named model none = none
named model (some u) = some (named_usage model u)

unfoldable pub stream_result :
    StreamFinalResult → Option UsageInfo → String → String → String → StreamResult
unfolding named
stream_result res usage source outcome reason = record {
  usage = named res.model_returned usage;
  model_returned = res.model_returned;
  model_returned_source = source;
  terminal_event = res.terminal_event;
  terminal_reason = res.terminal_reason;
  capture_outcome = outcome;
  capture_reason = reason;
  error_info = res.error_info;
}

-- The last usage makes up for a missing one, and then a skipped result with tokens is captured.
unfoldable pub only_last : UsageInfo → StreamFinalResult → StreamResult
unfolding stream_result has_tokens
only_last last res =
    let unnamed =
      str_eq res.model_returned ""
      && not (str_eq last.model "")
      && str_eq res.model_returned_source "" in
    let taken =
      (str_eq res.capture_outcome "" || str_eq res.capture_outcome outcome_skipped)
      && has_tokens last in
    stream_result res (some last) (if unnamed then source_usage else res.model_returned_source)
      (if taken then outcome_captured else res.capture_outcome)
      (if taken then "" else res.capture_reason)

-- The branch with a Responses state: the last usage, the usage of the result, the result.
unfoldable pub from_result : Option UsageInfo → Option UsageInfo → StreamFinalResult → StreamResult
unfolding only_last stream_result merge_usage_info
from_result none usage res =
    stream_result res usage res.model_returned_source res.capture_outcome res.capture_reason
from_result (some last) none res = only_last last res
from_result (some last) (some u) res =
    stream_result res (merge_usage_info (some last) (some u)) res.model_returned_source
      res.capture_outcome res.capture_reason

is_request_only : Option EndpointProfile → Bool
is_request_only none = false
is_request_only (some prof) = str_eq prof.capture_mode capture_request_only

model_from_usage : Option UsageInfo → String
model_from_usage none = ""
model_from_usage (some u) = u.model

is_none : Option UsageInfo → Bool
is_none none = true
is_none (some u) = false

has_profile : Option EndpointProfile → Bool
has_profile none = false
has_profile (some prof) = true

-- The branch without one.
unfoldable pub from_usage : Option UsageInfo → Option EndpointProfile → ℕ → StreamResult
unfolding is_request_only model_from_usage is_none has_profile
from_usage last prof sse_parse_errs =
    let request_only = is_request_only prof in
    let outcome = if not request_only && is_none last then outcome_skipped else outcome_captured in
    let reason =
      if request_only
      then reason_request_only_profile
      else if is_none last
      then reason_usage_not_present
      else "" in
    let failed = ltb 0 sse_parse_errs && (is_none last || not (str_eq outcome outcome_captured)) in
    record {
      usage = last;
      model_returned = model_from_usage last;
      model_returned_source =
          if has_profile prof && not (str_eq (model_from_usage last) "") then source_usage else "";
      terminal_event = if failed then terminal_stream_error else "";
      terminal_reason = "";
      capture_outcome = if failed then outcome_failed else outcome;
      capture_reason = if failed then reason_parse_error else reason;
      error_info = none;
    }

-- finalizeStreamUsage
unfoldable pub finalize_stream_usage :
    Json
    → Option UsageInfo
    → Option ResponsesStreamState
    → Option EndpointProfile
    → ℕ
    → StreamResult
unfolding from_result from_usage
finalize_stream_usage json last none prof sse_parse_errs = from_usage last prof sse_parse_errs
finalize_stream_usage json last (some s) prof sse_parse_errs =
    let res = (result json s).0 in from_result last res.usage res

-- The profile asks for requests alone.
pub data IsRequestOnly (prof : Option EndpointProfile) : Type 0 where
  asks :
      {p : EndpointProfile}
      → prof ≡ some p
      → p.capture_mode ≡ capture_request_only
      → IsRequestOnly prof

is_request_only-IsRequestOnly :
    (prof : Option EndpointProfile) → is_request_only prof ≡ true → IsRequestOnly prof
unfolding is_request_only
is_request_only-IsRequestOnly none h = absurd (cc h)
is_request_only-IsRequestOnly (some p) h =
    asks refl (ground (arith, eq_iff p.capture_mode capture_request_only))

-- What may be recorded: a captured usage without a reason, a captured request without a usage for a
-- profile that asks for no more, or nothing captured for a known reason.
pub data IsRecorded (prof : Option EndpointProfile) (r : StreamResult) : Type 0 where
  with_usage :
      {u : UsageInfo}
      → r.usage ≡ some u
      → r.capture_outcome ≡ outcome_captured
      → r.capture_reason ≡ ""
      → IsRecorded prof r
  request_alone :
      IsRequestOnly prof
      → r.capture_outcome ≡ outcome_captured
      → r.capture_reason ≡ reason_request_only_profile
      → IsRecorded prof r
  not_captured :
      (r.capture_outcome ≡ outcome_skipped) ⊎ (r.capture_outcome ≡ outcome_failed)
      → IsReason r.capture_reason
      → IsRecorded prof r

only_last-IsRecorded :
    {prof : Option EndpointProfile} (last : UsageInfo) (res : StreamFinalResult)
    → Classified none res
    → IsRecorded prof (only_last last res)
unfolding only_last
only_last-IsRecorded last res (outcome, reason) =
    elim (Bool-cases (
      (str_eq res.capture_outcome "" || str_eq res.capture_outcome outcome_skipped)
      && has_tokens last)) [
        | inl e ↦ rw e (with_usage refl refl refl)
        | inr e ↦ rw e (not_captured outcome reason)
      ]

from_result-IsRecorded :
    {prof : Option EndpointProfile} (last usage : Option UsageInfo) (res : StreamFinalResult)
    → Classified usage res
    → IsRecorded prof (from_result last usage res)
unfolding from_result
from_result-IsRecorded none none res (outcome, reason) = not_captured outcome reason
from_result-IsRecorded none (some u) res (outcome, reason, _, _) = with_usage refl outcome reason
from_result-IsRecorded (some last) none res h = only_last-IsRecorded last res h
from_result-IsRecorded (some last) (some u) res (outcome, reason, _, _) =
    with_usage refl outcome reason

from_usage-IsRecorded :
    (last : Option UsageInfo) (prof : Option EndpointProfile) (errs : ℕ)
    → IsRecorded prof (from_usage last prof errs)
unfolding from_usage
from_usage-IsRecorded last prof errs = by_case last (is_request_only prof) refl
  where
    by_case :
        (l : Option UsageInfo) (b : Bool)
        → is_request_only prof ≡ b
        → IsRecorded prof (from_usage l prof errs)
    by_case (some u) true e =
        request_alone (is_request_only-IsRequestOnly prof e) (rw e (ground arith))
          (rw e (ground arith))
    by_case (some u) false e = with_usage refl (rw e (ground arith)) (rw e (ground arith))
    by_case none true e = elim (Bool-cases (ltb 0 errs)) [
      | inl f ↦ rw f (not_captured (inr refl) parse_error)
      | inr f ↦ rw (f, e) (request_alone (is_request_only-IsRequestOnly prof e) refl refl)
    ]
    by_case none false e = elim (Bool-cases (ltb 0 errs)) [
      | inl f ↦ rw f (not_captured (inr refl) parse_error)
      | inr f ↦ rw (f, e) (not_captured (inl refl) not_present)
    ]

-- Whatever a stream gave, what is recorded of it is one of three: captured, with a usage and no
-- reason; captured, with the reason request_only_profile, and then the profile asks for requests
-- alone; or skipped or failed, for one of six reasons.
pub finalize_stream_usage-IsRecorded :
    (json : Json) (last : Option UsageInfo) (state : Option ResponsesStreamState)
    (prof : Option EndpointProfile) (sse_parse_errs : ℕ)
    → IsRecorded prof (finalize_stream_usage json last state prof sse_parse_errs)
unfolding finalize_stream_usage
finalize_stream_usage-IsRecorded json last none prof errs = from_usage-IsRecorded last prof errs
finalize_stream_usage-IsRecorded json last (some s) prof errs =
    from_result-IsRecorded last (result json s).0.usage (result json s).0
      (result-IsClassified json s)
