-- ===== src/Extractor/Errors.antt =====
-- internal/extractor/error.go: the class of an error response. A text is its code points: it is only
-- searched for ASCII texts, for which they do as well as its bytes. `sanitize` stands for
-- sanitizeMessage, which masks what looks like a key by regular expressions, and the payload is what
-- json.Unmarshal has filled in, with a code that rawJSONScalarString has made a text.
pub mod Extract
pub mod Upstream
use metering_proxy.Common.{
  ℕ, ◌+◌, ◌<◌, ◌≤◌, ◌≡◌, refl, String, Bool, true, false, not, ◌&&◌, ◌||◌, Option, none, some, List,
  [], ◌∷◌, ◌++◌, Bytes, codes, map, str_eq, leb, ◌==◌, if◌then◌else◌, arith, Bool-cases, inl, inr,
  ==→eq,
}
use metering_proxy.Common.Int64.{ℤ, pos, negsuc}
use metering_proxy.Common.Trim.{has_prefix}
use metering_proxy.Extractor.{ErrorInfo}

-- strings.Contains
unfoldable pub text_contains : Bytes → Bytes → Bool
unfolding has_prefix
text_contains [] t = has_prefix [] t
text_contains (c ∷ s) t = let rest = text_contains s t in has_prefix (c ∷ s) t || rest

-- strings.ToLower, as far as it gives ASCII letters: the Kelvin sign becomes k, and U+0130 an i.
unfoldable pub lower_code : ℕ → ℕ
lower_code c =
    if leb b'A' c && leb c b'Z'
    then c + 32
    else if c == 0x212a
    then b'k'
    else if c == 0x130
    then b'i'
    else c

unfoldable pub contains_any : Bytes → List String → Bool
unfolding text_contains
contains_any s [] = false
contains_any s (t ∷ ts) = text_contains s (codes t) || contains_any s ts

-- The class of the first rule of which a text is contained, or the last one.
unfoldable pub first_class : Bytes → List (List String × String) → String → String
unfolding contains_any
first_class s [] default = default
first_class s ((texts, class) ∷ rules) default =
    let rest = first_class s rules default in if contains_any s texts then class else rest

-- A switch on a status.
unfoldable pub on_status : ℕ → List (ℕ × String) → String → String
on_status n [] default = default
on_status n ((k, class) ∷ cases) default =
    let rest = on_status n cases default in if n == k then class else rest

abbrev pub upstream_rules : List (List String × String)
upstream_rules =
    ("timeout" ∷ "timed out" ∷ "deadline exceeded" ∷ "gateway timeout" ∷ [], "upstream_timeout")
    ∷ ("connection refused" ∷ "connect refused" ∷ "refused" ∷ [], "upstream_connection_refused")
    ∷ ("connection reset" ∷ "reset by peer" ∷ [], "upstream_connection_reset")
    ∷ ("dns" ∷ "no such host" ∷ "name resolution" ∷ [], "upstream_dns_error")
    ∷ ("no route" ∷ "network unreachable" ∷ [], "upstream_network_unreachable")
    ∷ ("tls" ∷ "certificate" ∷ "x509" ∷ [], "upstream_tls_error")
    ∷ ("overloaded" ∷ "overload" ∷ "capacity" ∷ [], "upstream_overloaded")
    ∷ (
      "temporarily unavailable" ∷ "service unavailable" ∷ "unavailable" ∷ [],
      "upstream_unavailable",
    )
    ∷ []

abbrev pub upstream_statuses : List (ℕ × String)
upstream_statuses =
    (500, "upstream_internal_error")
    ∷ (501, "upstream_not_implemented")
    ∷ (502, "upstream_bad_gateway")
    ∷ (503, "upstream_unavailable")
    ∷ (504, "upstream_timeout")
    ∷ []

unfoldable pub classify_upstream5xx : ℕ → Bytes → String
unfolding first_class on_status
classify_upstream5xx status s =
    first_class s upstream_rules (on_status status upstream_statuses "upstream_5xx")

abbrev pub context_length_texts : List String
context_length_texts =
    "context_length" ∷ "context length" ∷ "context window" ∷ "maximum context" ∷ "max context"
    ∷ "token limit" ∷ "too many tokens" ∷ "maximum number of tokens" ∷ "exceeded token" ∷ []

abbrev pub request_rules : List (List String × String)
request_rules =
    (context_length_texts, "context_length")
    ∷ (
      "model_not_found" ∷ "model not found" ∷ "unknown model" ∷ "invalid model" ∷ [],
      "invalid_model",
    )
    ∷ []

-- The cases of a status below 500 whose class depends on the text.
unfoldable pub classify_400 : Bytes → String
unfolding first_class
classify_400 s = first_class s request_rules "invalid_request"

abbrev pub key_rules : List (List String × String)
key_rules =
    ("invalid_api_key" ∷ "invalid api key" ∷ "incorrect api key" ∷ [], "auth_invalid_key")
    ∷ ("expired" ∷ "revoked" ∷ [], "auth_expired")
    ∷ []

unfoldable pub classify_401 : Bytes → String
unfolding first_class
classify_401 s = first_class s key_rules "auth_failed"

abbrev pub permission_rules : List (List String × String)
permission_rules =
    (
      "scope" ∷ "permission" ∷ "not allowed" ∷ "forbidden" ∷ "access denied" ∷ [],
      "permission_denied",
    )
    ∷ ("expired" ∷ "revoked" ∷ [], "auth_expired")
    ∷ []

unfoldable pub classify_403 : Bytes → String
unfolding first_class
classify_403 s = first_class s permission_rules "permission_denied"

abbrev pub quota_rules : List (List String × String)
quota_rules =
    (
      "quota" ∷ "insufficient" ∷ "balance" ∷ "credit" ∷ "resource_exhausted" ∷ "exhausted" ∷ [],
      "quota_exhausted",
    )
    ∷ ("rate" ∷ "limit" ∷ "too many" ∷ [], "rate_limited")
    ∷ []

unfoldable pub classify_429 : Bytes → String
unfolding first_class
classify_429 s = first_class s quota_rules "rate_limited"

abbrev pub model_rules : List (List String × String)
model_rules = ("model" ∷ [], "invalid_model") ∷ []

abbrev pub length_rules : List (List String × String)
length_rules = (context_length_texts, "context_length") ∷ []

unfoldable pub status_cases : Bytes → List (ℕ × String)
unfolding first_class classify_400 classify_401 classify_403 classify_429
status_cases s =
    (400, classify_400 s)
    ∷ (401, classify_401 s)
    ∷ (402, "billing_required")
    ∷ (403, classify_403 s)
    ∷ (404, first_class s model_rules "not_found")
    ∷ (408, "request_timeout")
    ∷ (409, "conflict")
    ∷ (413, "request_too_large")
    ∷ (422, first_class s length_rules "validation_error")
    ∷ (429, classify_429 s)
    ∷ []

unfoldable pub classify_status : ℕ → Bytes → String
unfolding on_status status_cases classify_upstream5xx
classify_status n s =
    on_status n (status_cases s) (if leb 500 n then classify_upstream5xx n s else "unknown")

-- The lower case of the type, the code and the message.
unfoldable pub combined : String → String → String → Bytes
unfolding lower_code
combined type_ code_ message_ =
    map lower_code (codes type_ ++ b' ' ∷ (codes code_ ++ b' ' ∷ codes message_))

-- A status below 0 is in no case.
unfoldable pub classify_error : ℤ → String → String → String → String
unfolding classify_status combined
classify_error (negsuc n) type_ code_ message_ = "unknown"
classify_error (pos n) type_ code_ message_ = classify_status n (combined type_ code_ message_)
