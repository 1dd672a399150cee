-- ===== src/Examples/Failures.antt =====
-- The error information of a response at a concrete sample.
use metering_proxy.Common.{◌≡◌, refl, false, some, [], ◌∷◌, codes}
use metering_proxy.Common.Int64.{pos}
use metering_proxy.Extractor.{ErrorInfo}
use metering_proxy.Extractor.Errors.Extract.{ErrorPayload, extract_error_info}
use metering_proxy.Extractor.Errors.Upstream.{
  is_upstream, is_server_error, extract_error_info-is_upstream,
}

-- {"error": {"message": "Overloaded", "type": "", "status": "UNAVAILABLE"}}
abbrev overloaded : ErrorPayload
overloaded = record {
  error =
      some
        record { message = "Overloaded"; type = ""; code = ""; param = ""; status = "UNAVAILABLE" };
  type = "";
  message = "";
  code = "";
  param = "";
  status = "";
}

abbrev overloaded_info : ErrorInfo
overloaded_info = record {
  class = "upstream_overloaded";
  type = "UNAVAILABLE";
  code = "";
  param = "";
  message = "Overloaded";
  message_truncated = false;
}

overloaded-found :
    extract_error_info
      (λ m. (m, false))
      some
      (λ s. overloaded ∷ [])
      (codes "{}")
      (pos 529)
      "application/json"
    ≡ some overloaded_info
unfolding extract_error_info
overloaded-found = refl

extract_error_info-is_upstream_example :
    is_upstream "upstream_overloaded" ≡ is_server_error (pos 529)
extract_error_info-is_upstream_example =
    extract_error_info-is_upstream (λ m. (m, false)) some (λ s. overloaded ∷ []) (codes "{}")
      (pos 529) "application/json" overloaded_info overloaded-found
