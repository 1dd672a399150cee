-- ===== src/Extractor/Responses/Outcome.antt =====
-- How the result of a stream is classified.
use metering_proxy.Common.{
  String, Bool, ◌||◌, true, false, ◌≡◌, refl, ◌⊎◌, inl, inr, Option, none, some, Bool-cases,
}
use metering_proxy.Common.Int64.{is_pos}
use metering_proxy.Extractor.{UsageInfo, Json}
use metering_proxy.Extractor.Responses.{ResponsesStreamState}
use metering_proxy.Extractor.Responses.Result.{
  StreamFinalResult, result, final_result, settle_usage, without_usage, completed_result,
}

-- A reason that a report can group by.
pub data IsReason : String → Type 0 where
  parse_error : IsReason "parse_error"
  without_usage_ : IsReason "response_completed_without_usage"
  incomplete : IsReason "response_incomplete"
  error_event : IsReason "response_error_event"
  no_completed : IsReason "stream_ended_without_completed"
  not_present : IsReason "usage_not_present"

-- A result with a usage is captured, with no reason and no error, by a completed response. A result
-- with none is skipped or failed, for a known reason.
abbrev pub Classified : Option UsageInfo → StreamFinalResult → Type 0
Classified (some u) r =
    (r.capture_outcome ≡ "captured")
    × (r.capture_reason ≡ "")
    × (r.error_info ≡ none)
    × (r.terminal_event ≡ "response.completed")
Classified none r =
    ((r.capture_outcome ≡ "skipped") ⊎ (r.capture_outcome ≡ "failed")) × IsReason r.capture_reason

abbrev pub IsClassified : StreamFinalResult → Type 0
IsClassified r = Classified r.usage r

completed-IsClassified : (s : ResponsesStreamState) → IsClassified (completed_result s)
unfolding completed_result
completed-IsClassified s = elim (Bool-cases (is_pos s.image_count || is_pos s.partial_images)) [
  | inl e ↦ rw e (refl, refl, refl, refl)
  | inr e ↦ rw e (inl refl, without_usage_)
]

-- The tests of `without_usage`, in order.
without_usage-IsClassified : (s : ResponsesStreamState) → IsClassified (without_usage s)
unfolding without_usage
without_usage-IsClassified s = elim (Bool-cases (is_pos s.json_parse_errors)) [
  | inl e ↦ rw e (inr refl, parse_error)
  | inr e ↦ rw e (elim (Bool-cases s.seen_completed) [
    | inl e ↦ rw e (completed-IsClassified s)
    | inr e ↦ rw e (elim (Bool-cases s.seen_incomplete) [
      | inl e ↦ rw e (inl refl, incomplete)
      | inr e ↦ rw e (elim (Bool-cases (s.seen_failed || s.seen_error_event)) [
        | inl e ↦ rw e (inr refl, error_event)
        | inr e ↦ rw e (elim (Bool-cases s.seen_created) [
          | inl e ↦ rw e (inl refl, no_completed)
          | inr e ↦ rw e (inl refl, not_present)
        ])
      ])
    ])
  ])
]

final-IsClassified :
    (seen : Bool) (u : Option UsageInfo) (s : ResponsesStreamState)
    → IsClassified (final_result seen u s)
unfolding final_result
final-IsClassified true (some u) s = (refl, refl, refl, refl)
final-IsClassified true none s = without_usage-IsClassified s
final-IsClassified false u s = without_usage-IsClassified s

-- Whatever the stream has shown, its result is captured exactly if it has a usage; else it is
-- skipped or failed for one of six reasons. A captured result has no reason and no error, and its
-- terminal event is response.completed.
pub result-IsClassified : (json : Json) (s : ResponsesStreamState) → IsClassified (result json s).0
unfolding result
result-IsClassified json s =
    let t = settle_usage json s in final-IsClassified t.usage_seen t.usage t
