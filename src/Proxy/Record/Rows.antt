-- ===== src/Proxy/Record/Rows.antt =====
-- internal/proxy/proxy.go, buildUsageDimensions: the calls of `add`, in their order.
use metering_proxy.Common.{
  String, Bool, false, ◌&&◌, ◌||◌, Option, none, some, List, [], ◌∷◌, ◌++◌, Bytes, codes, str_eq,
  if◌then◌else◌,
}
use metering_proxy.Common.Int64.{ℤ, pos, is_zero}
use metering_proxy.Common.Trim.{has_prefix}
use metering_proxy.Event.{capture_request_only, metering_image_tokens, metering_embedding_tokens}
use metering_proxy.Extractor.{UsageInfo}
use metering_proxy.Profile.{EndpointProfile}

-- strings.Contains
unfoldable pub contains : Bytes → Bytes → Bool
unfolding has_prefix
contains [] t = has_prefix [] t
contains (c ∷ s) t = let rest = contains s t in has_prefix (c ∷ s) t || rest

-- The switch on the name of a profile that only counts requests.
unfoldable pub request_modality : String → String
unfolding contains
request_modality name =
    let text = codes name in
    if contains text (codes "audio")
    then "audio"
    else if contains text (codes "video")
    then "video"
    else if contains text (codes "image")
    then "image"
    else "request"

-- The fields of a row that `add` is given.
pub record Row : Type 0 where
  pub modality : String
  pub channel : String
  pub metric : String
  pub direction : String
  pub unit : String
  pub count : ℤ

abbrev tokens : String → String → String → ℤ → Row
tokens m c d n = record {
  modality = m;
  channel = c;
  metric = "tokens";
  direction = d;
  unit = "token";
  count = n;
}

abbrev images : String → ℤ → Row
images d n = record {
  modality = "image";
  channel = "image";
  metric = "count";
  direction = d;
  unit = "image";
  count = n;
}

abbrev when : Bool → Row → List Row
when b r = if b then r ∷ [] else []

-- The calls of `add` for each kind of metering, in their order.
unfoldable pub image_rows : UsageInfo → List Row
image_rows u =
    tokens "image" "text" "input" u.input_text_tokens
    ∷ tokens "image" "image" "input" u.input_image_tokens
    ∷ tokens "image" "text" "cached_input" u.cached_text_tokens
    ∷ tokens "image" "image" "cached_input" u.cached_image_tokens
    ∷ (when (is_zero u.cached_text_tokens && is_zero u.cached_image_tokens)
          (tokens "image" "mixed" "cached_input" u.cached_tokens)
        ++ when (is_zero u.input_text_tokens && is_zero u.input_image_tokens)
            (tokens "image" "mixed" "input" u.input_tokens)
        ++ tokens "image" "image" "output" u.output_tokens
          ∷ images "output" u.image_count
          ∷ images "partial" u.partial_image_count
          ∷ [])

unfoldable pub text_rows : UsageInfo → List Row
text_rows u =
    tokens "text" "text" "input" u.input_tokens
    ∷ tokens "text" "text" "cached_input" u.cached_tokens
    ∷ tokens "text" "text" "cache_creation" u.cache_creation_tokens
    ∷ tokens "text" "text" "output" u.output_tokens
    ∷ tokens "text" "text" "reasoning" u.reasoning_tokens
    ∷ images "output" u.image_count
    ∷ images "partial" u.partial_image_count
    ∷ []

unfoldable pub embedding_rows : UsageInfo → List Row
embedding_rows u =
    tokens "embedding" "text" "input" u.input_tokens
    ∷ images "output" u.image_count
    ∷ images "partial" u.partial_image_count
    ∷ []

unfoldable pub usage_rows : String → UsageInfo → List Row
unfolding image_rows text_rows embedding_rows
usage_rows kind u =
    if str_eq kind metering_image_tokens
    then image_rows u
    else if str_eq kind metering_embedding_tokens
    then embedding_rows u
    else text_rows u

is_request_only : Option EndpointProfile → Bool
is_request_only none = false
is_request_only (some p) = str_eq p.capture_mode capture_request_only

rows_of_usage : String → Option UsageInfo → List Row
unfolding usage_rows
rows_of_usage kind none = []
rows_of_usage kind (some u) = usage_rows kind u

unfoldable pub all_rows : Option EndpointProfile → String → String → Option UsageInfo → List Row
unfolding is_request_only rows_of_usage request_modality
all_rows prof name kind usage =
    if is_request_only prof
    then record {
      modality = request_modality name;
      channel = "none";
      metric = "request";
      direction = "none";
      unit = "request";
      count = pos 1;
    }
      ∷ []
    else rows_of_usage kind usage
