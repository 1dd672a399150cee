-- ===== src/Proxy/Record/Stored.antt =====
-- What is stored of a finished request: recordUsage and then EventToRecord.
use metering_proxy.Common.{
  String, Bool, true, false, ◌≡◌, refl, Option, List, [], ◌∷◌, map, All, str_eq, if◌then◌else◌,
}
use metering_proxy.Common.Int64.{ℤ}
use metering_proxy.Event.{Event, UsageDimension, ImageUsage}
use metering_proxy.Event.Record.{UsageRecord, UsageDimensionRecord}
use metering_proxy.Event.Mapping.{value_or_default, dimension_to_record, event_to_record}
use metering_proxy.Proxy.Record.{
  Finished, record_usage, build_usage_dimensions, add_rows, dimension, first_non_empty_string,
  first_event, with_error, with_counts,
}
use metering_proxy.Proxy.Record.Image.{build_image_usage}
use metering_proxy.Proxy.Record.Rows.{Row, all_rows}

value_or_default-same : (v : String) → value_or_default v v ≡ v
unfolding value_or_default
value_or_default-same v = same (str_eq v "")
  where
    same : (b : Bool) → (if b then v else v) ≡ v
    same true = refl
    same false = refl

module _ {F : Type 0} (is_nought : F → Bool) where
  -- A row of dimensions that fits the row of its request.
  pub record Agrees (rec : UsageRecord F) (d : UsageDimensionRecord F) : Type 0 where
    pub same_request : d.request_id ≡ rec.request_id
    pub same_moment : d.created_at ≡ rec.created_at
    pub same_profile : d.endpoint_profile ≡ rec.endpoint_profile
    pub same_source : d.usage_source ≡ rec.usage_source
    pub same_outcome : d.capture_outcome ≡ rec.capture_outcome
    pub same_reason : d.capture_reason ≡ rec.capture_reason
    pub same_model :
        d.model ≡ first_non_empty_string (rec.model_returned ∷ rec.model_requested ∷ [])
    pub amount_set : is_nought d.amount ≡ false

module _ {T F : Type 0} (format : T → String) (of_int64 : ℤ → F) (is_nought : F → Bool) where
  -- The event with its dimensions and its usage of images, which are set last.
  abbrev settled : Event T F → List (UsageDimension F) → Option ImageUsage → Event T F
  settled e ds img = record e { usage_dimensions = ds; image_usage = img }

  dimension-Agrees :
      (e : Event T F) (ds : List (UsageDimension F)) (img : Option ImageUsage) (r : Row)
      → is_nought (of_int64 r.count) ≡ false
      → Agrees is_nought
          (event_to_record format (settled e ds img))
          (dimension_to_record format (settled e ds img) (dimension of_int64 is_nought e r))
  unfolding event_to_record dimension_to_record dimension
  dimension-Agrees e ds img r h = record {
    same_request = refl;
    same_moment = refl;
    same_profile = value_or_default-same e.endpoint_profile;
    same_source = value_or_default-same e.usage_source;
    same_outcome = value_or_default-same e.capture_outcome;
    same_reason = value_or_default-same e.capture_reason;
    same_model = refl;
    amount_set = h;
  }

  add_rows-Agrees :
      (e : Event T F) (ds : List (UsageDimension F)) (img : Option ImageUsage) (rows : List Row)
      → All
          (Agrees is_nought (event_to_record format (settled e ds img)))
          (map (dimension_to_record format (settled e ds img)) (add_rows of_int64 is_nought e rows))
  unfolding add_rows
  add_rows-Agrees e ds img [] = tt
  add_rows-Agrees e ds img (r ∷ rs) =
      keep (is_nought (of_int64 r.count)) refl (add_rows-Agrees e ds img rs)
    where
      keep :
          (b : Bool)
          → is_nought (of_int64 r.count) ≡ b
          → All (Agrees is_nought (event_to_record format (settled e ds img))) (
              map
                (dimension_to_record format (settled e ds img))
                (add_rows of_int64 is_nought e rs))
          → All (Agrees is_nought (event_to_record format (settled e ds img))) (
              map (dimension_to_record format (settled e ds img)) (
                if b
                then add_rows of_int64 is_nought e rs
                else dimension of_int64 is_nought e r ∷ add_rows of_int64 is_nought e rs))
      keep true h rest = rest
      keep false h rest = (dimension-Agrees e ds img r h, rest)

-- The rows of dimensions that are stored for a finished request agree with the row of the request:
-- they have its id, time, profile, source and capture outcome and reason, the model that it returned
-- or else the one it asked for, and an amount that is not 0.
pub record_usage-AllAgree :
    {T F : Type 0} (format : T → String) (of_int64 : ℤ → F) (is_nought : F → Bool) (nought : F)
    (r : Finished T)
    → All
        (Agrees is_nought (event_to_record format (record_usage of_int64 is_nought nought r)))
        (event_to_record format (record_usage of_int64 is_nought nought r)).usage_dimensions
unfolding record_usage build_usage_dimensions event_to_record
record_usage-AllAgree format of_int64 is_nought nought r =
    let e = with_counts r.usage (with_error r.err_info (first_event nought r)) in
    add_rows-Agrees format of_int64 is_nought e
      (build_usage_dimensions of_int64 is_nought r.prof e r.usage)
      (build_image_usage r.prof e r.request_meta r.usage)
      (all_rows r.prof e.endpoint_profile e.metering_kind r.usage)
