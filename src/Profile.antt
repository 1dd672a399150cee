-- ===== src/Profile.antt =====
-- internal/profile/profile.go: an endpoint that the proxy knows. Method, name and modes are only
-- compared, and are native strings; a path is its bytes. The extractor fields of the source hold
-- closures that call one function of internal/extractor each: here they name that function.
pub mod Routes
pub mod Registry
use metering_proxy.Common.{
  ℕ, String, Bool, false, not, ◌==◌, ◌&&◌, Option, none, some, List, [], ◌∷◌, Bytes, codes, str_eq,
  if◌then◌else◌,
}
use Prim.Native.String.{◌++◌}
use metering_proxy.Common.Trim.{bytes_eq}
use metering_proxy.Event.{capture_passthrough}
use metering_proxy.Streamproto.{Protocol}

pub data NonStreamExtractor : Type 0 where
  extract_non_streaming : NonStreamExtractor
  extract_anthropic_non_streaming : NonStreamExtractor
  extract_gemini_non_streaming : NonStreamExtractor
  extract_image_non_streaming : NonStreamExtractor
  extract_embedding_non_streaming : NonStreamExtractor

pub data StreamExtractor : Type 0 where
  extract_chat_usage : StreamExtractor
  extract_responses_usage : StreamExtractor
  extract_anthropic_usage : StreamExtractor
  extract_gemini_usage : StreamExtractor
  extract_image_usage : StreamExtractor

pub record EndpointProfile : Type 0 where
  pub name : String
  pub method : String
  pub path_prefix : String
  pub path_matcher : Option (Bytes → Bool)
  pub capture_mode : String
  pub metering_kind : String
  pub stream_protocol : Protocol
  pub non_stream_extractor : Option NonStreamExtractor
  pub stream_extractor : Option StreamExtractor

keep_unless_slash : ℕ → Bytes → Bytes
keep_unless_slash c [] = if c == b'/' then [] else c ∷ []
keep_unless_slash c (d ∷ r) = c ∷ d ∷ r

-- strings.TrimRight(path, "/")
unfoldable pub trim_right_slash : Bytes → Bytes
unfolding keep_unless_slash
trim_right_slash [] = []
trim_right_slash (c ∷ s) = keep_unless_slash c (trim_right_slash s)

unfoldable pub path_matches : Option (Bytes → Bool) → String → Bytes → Bool
unfolding bytes_eq
path_matches (some matcher) prefix path = matcher path
path_matches none prefix path = bytes_eq path (codes prefix)

-- Match
unfoldable pub profile_match : EndpointProfile → String → Bytes → Bool
unfolding trim_right_slash path_matches
profile_match p method path =
    if not (str_eq p.method "") && not (str_eq p.method method)
    then false
    else path_matches p.path_matcher p.path_prefix (trim_right_slash path)

-- IsMetered
unfoldable pub is_metered : EndpointProfile → Bool
is_metered p = not (str_eq p.capture_mode capture_passthrough)

-- DisplayName
unfoldable pub display_name : EndpointProfile → String
display_name p =
    if str_eq p.name "chat_completions"
    then "Chat Completions"
    else if str_eq p.name "openai_completions"
    then "Completions"
    else if str_eq p.name "responses"
    then "Responses API"
    else if str_eq p.name "anthropic_messages"
    then "Anthropic Messages"
    else if str_eq p.name "gemini_generate_content"
    then "Gemini Generate Content"
    else if str_eq p.name "openai_images_generations"
    then "Images Generations"
    else if str_eq p.name "openai_images_edits"
    then "Images Edits"
    else if str_eq p.name "openai_images_variations"
    then "Images Variations"
    else if str_eq p.name "openai_embeddings"
    then "Embeddings"
    else if str_eq p.name "openai_audio"
    then "Audio"
    else if str_eq p.name "openai_videos"
    then "Videos"
    else if str_eq p.name "unknown_passthrough"
    then "Unknown (Passthrough)"
    else p.name

-- internal/profile/meta.go
pub record EndpointMeta : Type 0 where
  pub name : String
  pub path : String
  pub filter_value : String
  pub method : String
  pub display_name : String
  pub metering_kind : String
  pub capture_mode : String

filter_value_of : Option (Bytes → Bool) → String → String → String
filter_value_of (some matcher) name prefix = "profile:" ++ name
filter_value_of none name prefix = prefix

-- ToEndpointMeta
unfoldable pub to_endpoint_meta : EndpointProfile → EndpointMeta
unfolding filter_value_of display_name
to_endpoint_meta p = record {
  name = p.name;
  path = p.path_prefix;
  filter_value = filter_value_of p.path_matcher p.name p.path_prefix;
  method = p.method;
  display_name = display_name p;
  metering_kind = p.metering_kind;
  capture_mode = p.capture_mode;
}
