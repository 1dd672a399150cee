-- ===== src/Profile/Registry.antt =====
-- internal/profile/registry.go: the built-in profiles and the choice of one for a request.
pub mod Dispatch
use metering_proxy.Common.{
  String, Bool, Option, none, some, List, [], ◌∷◌, Bytes, map, str_eq, if◌then◌else◌,
}
use metering_proxy.Event.{
  capture_passthrough, capture_request_only, capture_usage_metered, metering_none,
  metering_llm_tokens, metering_embedding_tokens, metering_image_tokens, metering_request_only,
}
use metering_proxy.Streamproto.{openai_sse, none_protocol}
use metering_proxy.Profile.{
  EndpointProfile, EndpointMeta, extract_non_streaming, extract_anthropic_non_streaming,
  extract_gemini_non_streaming, extract_image_non_streaming, extract_embedding_non_streaming,
  extract_chat_usage, extract_responses_usage, extract_anthropic_usage, extract_gemini_usage,
  extract_image_usage, profile_match, is_metered, to_endpoint_meta,
}
use metering_proxy.Profile.Routes.{
  is_chat_completions_path, is_openai_completions_path, is_responses_path,
  is_anthropic_messages_path, is_gemini_generate_content_path, is_openai_images_generations_path,
  is_openai_images_edits_path, is_openai_images_variations_path, is_openai_embeddings_path,
  is_openai_audio_path, is_openai_videos_path,
}

abbrev pub Registry : Type 0
Registry = List EndpointProfile

abbrev pub chat_completions : EndpointProfile
chat_completions = record {
  name = "chat_completions";
  method = "POST";
  path_prefix = "/v1/chat/completions";
  path_matcher = some is_chat_completions_path;
  capture_mode = capture_usage_metered;
  metering_kind = metering_llm_tokens;
  stream_protocol = openai_sse;
  non_stream_extractor = some extract_non_streaming;
  stream_extractor = some extract_chat_usage;
}

abbrev pub openai_completions : EndpointProfile
openai_completions = record {
  name = "openai_completions";
  method = "POST";
  path_prefix = "/v1/completions";
  path_matcher = some is_openai_completions_path;
  capture_mode = capture_usage_metered;
  metering_kind = metering_llm_tokens;
  stream_protocol = openai_sse;
  non_stream_extractor = some extract_non_streaming;
  stream_extractor = some extract_chat_usage;
}

abbrev pub responses : EndpointProfile
responses = record {
  name = "responses";
  method = "POST";
  path_prefix = "/v1/responses";
  path_matcher = some is_responses_path;
  capture_mode = capture_usage_metered;
  metering_kind = metering_llm_tokens;
  stream_protocol = openai_sse;
  non_stream_extractor = some extract_non_streaming;
  stream_extractor = some extract_responses_usage;
}

abbrev pub anthropic_messages : EndpointProfile
anthropic_messages = record {
  name = "anthropic_messages";
  method = "POST";
  path_prefix = "/v1/messages";
  path_matcher = some is_anthropic_messages_path;
  capture_mode = capture_usage_metered;
  metering_kind = metering_llm_tokens;
  stream_protocol = openai_sse;
  non_stream_extractor = some extract_anthropic_non_streaming;
  stream_extractor = some extract_anthropic_usage;
}

abbrev pub gemini_generate_content : EndpointProfile
gemini_generate_content = record {
  name = "gemini_generate_content";
  method = "POST";
  path_prefix = "/v1(beta)?/models/{model}:generateContent|streamGenerateContent";
  path_matcher = some is_gemini_generate_content_path;
  capture_mode = capture_usage_metered;
  metering_kind = metering_llm_tokens;
  stream_protocol = openai_sse;
  non_stream_extractor = some extract_gemini_non_streaming;
  stream_extractor = some extract_gemini_usage;
}

abbrev pub openai_images_generations : EndpointProfile
openai_images_generations = record {
  name = "openai_images_generations";
  method = "POST";
  path_prefix = "/v1/images/generations";
  path_matcher = some is_openai_images_generations_path;
  capture_mode = capture_usage_metered;
  metering_kind = metering_image_tokens;
  stream_protocol = openai_sse;
  non_stream_extractor = some extract_image_non_streaming;
  stream_extractor = some extract_image_usage;
}

abbrev pub openai_images_edits : EndpointProfile
openai_images_edits = record {
  name = "openai_images_edits";
  method = "POST";
  path_prefix = "/v1/images/edits";
  path_matcher = some is_openai_images_edits_path;
  capture_mode = capture_usage_metered;
  metering_kind = metering_image_tokens;
  stream_protocol = openai_sse;
  non_stream_extractor = some extract_image_non_streaming;
  stream_extractor = some extract_image_usage;
}

abbrev pub openai_images_variations : EndpointProfile
openai_images_variations = record {
  name = "openai_images_variations";
  method = "POST";
  path_prefix = "/v1/images/variations";
  path_matcher = some is_openai_images_variations_path;
  capture_mode = capture_request_only;
  metering_kind = metering_request_only;
  stream_protocol = none_protocol;
  non_stream_extractor = none;
  stream_extractor = none;
}

abbrev pub openai_embeddings : EndpointProfile
openai_embeddings = record {
  name = "openai_embeddings";
  method = "POST";
  path_prefix = "/v1/embeddings";
  path_matcher = some is_openai_embeddings_path;
  capture_mode = capture_usage_metered;
  metering_kind = metering_embedding_tokens;
  stream_protocol = none_protocol;
  non_stream_extractor = some extract_embedding_non_streaming;
  stream_extractor = none;
}

abbrev pub openai_audio : EndpointProfile
openai_audio = record {
  name = "openai_audio";
  method = "POST";
  path_prefix = "/v1/audio/{speech|transcriptions|translations}";
  path_matcher = some is_openai_audio_path;
  capture_mode = capture_request_only;
  metering_kind = metering_request_only;
  stream_protocol = none_protocol;
  non_stream_extractor = none;
  stream_extractor = none;
}

abbrev pub openai_videos : EndpointProfile
openai_videos = record {
  name = "openai_videos";
  method = "";
  path_prefix = "/v1/videos";
  path_matcher = some is_openai_videos_path;
  capture_mode = capture_request_only;
  metering_kind = metering_request_only;
  stream_protocol = none_protocol;
  non_stream_extractor = none;
  stream_extractor = none;
}

abbrev pub unknown_passthrough : EndpointProfile
unknown_passthrough = record {
  name = "unknown_passthrough";
  method = "";
  path_prefix = "";
  path_matcher = none;
  capture_mode = capture_passthrough;
  metering_kind = metering_none;
  stream_protocol = none_protocol;
  non_stream_extractor = none;
  stream_extractor = none;
}

-- NewRegistry, which calls registerBuiltins.
abbrev pub new_registry : Registry
new_registry =
    chat_completions ∷ openai_completions ∷ responses ∷ anthropic_messages ∷ gemini_generate_content
    ∷ openai_images_generations ∷ openai_images_edits ∷ openai_images_variations ∷ openai_embeddings
    ∷ openai_audio ∷ openai_videos ∷ unknown_passthrough ∷ []

-- The first loop of Match: the catch-all is passed over.
unfoldable pub first_match : Registry → String → Bytes → Option EndpointProfile
first_match [] method path = none
first_match (p ∷ r) method path =
    let rest = first_match r method path in
    if str_eq p.name "unknown_passthrough"
    then rest
    else if profile_match p method path
    then some p
    else rest

-- The second loop: the catch-all itself.
unfoldable pub fallback : Registry → Option EndpointProfile
fallback [] = none
fallback (p ∷ r) =
    let rest = fallback r in if str_eq p.name "unknown_passthrough" then some p else rest

-- Match. `none` is the error "no profile matched".
unfoldable pub registry_match : Registry → String → Bytes → Option EndpointProfile
unfolding first_match fallback
registry_match r method path = elim (first_match r method path) [
  | some p ↦ some p
  | none ↦ fallback r
]

-- MeteredProfiles
unfoldable pub metered_profiles : Registry → List EndpointProfile
metered_profiles [] = []
metered_profiles (p ∷ r) = let rest = metered_profiles r in if is_metered p then p ∷ rest else rest

-- EndpointMetas
unfoldable pub endpoint_metas : Registry → List EndpointMeta
endpoint_metas r = map to_endpoint_meta r
