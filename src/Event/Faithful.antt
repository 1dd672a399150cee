-- ===== src/Event/Faithful.antt =====
-- What a stored row keeps of its event.
use metering_proxy.Common.{
  Bool-cases, inl, inr, str_eq, String, ◌≡◌, ◌≢◌, refl, List, [], ◌∷◌, map, eq_iff, arith,
}
use metering_proxy.Event.{Event, UsageDimension}
use metering_proxy.Event.Record.{UsageDimensionRecord}
use metering_proxy.Event.Mapping.{value_or_default, dimension_to_record, event_to_record}

-- A text that is kept where there is one, and else is the other one.
pub data Prefers (own other kept : String) : Type 0 where
  own_text : own ≢ "" → kept ≡ own → Prefers own other kept
  other_text : own ≡ "" → kept ≡ other → Prefers own other kept

value_or_default-Prefers : (v d : String) → Prefers v d (value_or_default v d)
unfolding value_or_default
value_or_default-Prefers v d = elim (Bool-cases (str_eq v "")) [
  | inl e ↦ rw e (other_text (ground (arith, eq_iff v "")) refl)
  | inr e ↦ rw e (own_text (ground (arith, eq_iff v "")) refl)
]

module _ {T F : Type 0} (format : T → String) where
  -- A child row carries the identity of its request and the values of its dimension; what the
  -- dimension leaves open is taken from the event.
  pub record IsChild (e : Event T F) (d : UsageDimension F) (r : UsageDimensionRecord F)
      : Type 0 where
    pub same_request : r.request_id ≡ e.id
    pub same_moment : r.created_at ≡ format e.timestamp
    pub same_amount : r.amount ≡ d.amount
    pub same_model : (r.provider ≡ d.provider) × (r.model ≡ d.model)
    pub same_channel : (r.modality ≡ d.modality) × (r.channel ≡ d.channel)
    pub same_metric : (r.metric ≡ d.metric) × (r.direction ≡ d.direction) × (r.unit ≡ d.unit)
    pub profile : Prefers d.endpoint_profile e.endpoint_profile r.endpoint_profile
    pub source : Prefers d.usage_source e.usage_source r.usage_source
    pub outcome : Prefers d.capture_outcome e.capture_outcome r.capture_outcome
    pub reason : Prefers d.capture_reason e.capture_reason r.capture_reason
    pub details : Prefers d.details_json "{}" r.details_json

  pub data Children (e : Event T F)
      : List (UsageDimension F) → List (UsageDimensionRecord F) → Type 0 where
    none_left : Children e [] []
    child :
        {d : UsageDimension F} {r : UsageDimensionRecord F} {ds : List (UsageDimension F)}
        {rs : List (UsageDimensionRecord F)}
        → IsChild e d r
        → Children e ds rs
        → Children e (d ∷ ds) (r ∷ rs)

  dimension_IsChild :
      (e : Event T F) (d : UsageDimension F) → IsChild e d (dimension_to_record format e d)
  unfolding dimension_to_record
  dimension_IsChild e d = record {
    same_request = refl;
    same_moment = refl;
    same_amount = refl;
    same_model = (refl, refl);
    same_channel = (refl, refl);
    same_metric = (refl, refl, refl);
    profile = value_or_default-Prefers d.endpoint_profile e.endpoint_profile;
    source = value_or_default-Prefers d.usage_source e.usage_source;
    outcome = value_or_default-Prefers d.capture_outcome e.capture_outcome;
    reason = value_or_default-Prefers d.capture_reason e.capture_reason;
    details = value_or_default-Prefers d.details_json "{}";
  }

  map-Children :
      (e : Event T F) (ds : List (UsageDimension F))
      → Children e ds (map (dimension_to_record format e) ds)
  map-Children e [] = none_left
  map-Children e (d ∷ ds) = child (dimension_IsChild e d) (map-Children e ds)

  -- Every usage dimension of an event is stored, in order, as one row that carries the request's id,
  -- its moment and the dimension's amount, provider, model, modality, channel, metric, direction and
  -- unit. Its profile, source, outcome and reason are those of the dimension, or those of the event
  -- where the dimension's are empty, and its details are those of the dimension, or an empty object.
  pub event_to_record-Children :
      (e : Event T F) → Children e e.usage_dimensions (event_to_record format e).usage_dimensions
  unfolding event_to_record
  event_to_record-Children e = map-Children e e.usage_dimensions
