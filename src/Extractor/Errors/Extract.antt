-- ===== src/Extractor/Errors/Extract.antt =====
-- internal/extractor/error.go: the error information of a sample. `values` are the JSON values that the
-- decoder gives before its end or an error, `unmarshal` is json.Unmarshal of one of them with the code
-- made a text, and `sanitize` is sanitizeMessage, with the mark of a truncation.
use metering_proxy.Common.{
  String, Bool, ◌&&◌, ◌||◌, Option, none, some, List, [], ◌∷◌, Bytes, codes, map, str_eq,
  if◌then◌else◌,
}
use metering_proxy.Common.Int64.{ℤ}
use metering_proxy.Common.Trim.{has_prefix, is_empty}
use metering_proxy.Extractor.{ErrorInfo}
use metering_proxy.Extractor.Errors.{classify_error, lower_code}

-- The object below "error".
pub record ErrorObject : Type 0 where
  pub message : String
  pub type : String
  pub code : String
  pub param : String
  pub status : String

-- errPayload
pub record ErrorPayload : Type 0 where
  pub error : Option ErrorObject
  pub type : String
  pub message : String
  pub code : String
  pub param : String
  pub status : String

-- info, before the message is sanitized.
pub record RawError : Type 0 where
  pub type : String
  pub code : String
  pub param : String
  pub message : String

abbrev or_text : String → String → String
or_text a b = if str_eq a "" then b else a

unfoldable pub raw_error : Option ErrorObject → ErrorPayload → Option RawError
raw_error (some e) p =
    some
      record { type = or_text e.type e.status; code = e.code; param = e.param; message = e.message }
raw_error none p =
    if str_eq p.message "" && str_eq p.code "" && str_eq p.status ""
    then none
    else some record {
      type = if str_eq p.type "" || str_eq p.type "error" then p.status else p.type;
      code = p.code;
      param = p.param;
      message = p.message;
    }

module _ (sanitize : String → String × Bool) where
  unfoldable pub classified : ℤ → RawError → Option ErrorInfo
  unfolding classify_error
  classified status r =
      if str_eq r.type "" && str_eq r.code "" && str_eq r.param "" && str_eq r.message ""
      then none
      else let clean = sanitize r.message in
        some record {
          class = classify_error status r.type r.code clean.0;
          type = r.type;
          code = r.code;
          param = r.param;
          message = clean.0;
          message_truncated = clean.1;
        }

  unfoldable pub error_info_of : ℤ → Option ErrorPayload → Option ErrorInfo
  unfolding raw_error classified
  error_info_of status none = none
  error_info_of status (some p) = elim (raw_error p.error p) [
    | none ↦ none
    | some r ↦ classified status r
  ]

  module _ {V : Type 0} (unmarshal : V → Option ErrorPayload) (values : Bytes → List V) where
    -- The loop over the values.
    unfoldable pub first_error : ℤ → List V → Option ErrorInfo
    unfolding error_info_of
    first_error status [] = none
    first_error status (v ∷ vs) = elim (error_info_of status (unmarshal v)) [
      | none ↦ first_error status vs
      | some info ↦ some info
    ]

    unfoldable pub extract_error_info : Bytes → ℤ → String → Option ErrorInfo
    unfolding first_error has_prefix lower_code
    extract_error_info sample status content_type =
        if is_empty sample || has_prefix (map lower_code (codes content_type)) (codes "text/html")
        then none
        else first_error status (values sample)
