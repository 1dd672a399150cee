-- ===== src/Profile/Routes.antt =====
-- internal/profile/registry.go: the paths of the built-in profiles, plain or behind
-- /api/provider/<name>/. The literals are ASCII, so their code points are their bytes.
use metering_proxy.Common.{
  ℕ, suc, ◌-◌, ◌++◌, ◌≡◌, refl, Bool, true, false, not, ◌||◌, Option, none, some, List, [], ◌∷◌,
  Bytes, codes, length, drop, ◌==◌, ◌>>=◌, if◌then◌else◌,
}
use metering_proxy.Common.Trim.{has_prefix, bytes_eq, is_empty}

-- strings.SplitN(rest, "/", 2): the parts round the first slash, if there is one.
unfoldable pub split_slash : Bytes → Option (Bytes × Bytes)
split_slash [] = none
split_slash (c ∷ s) =
    let later = split_slash s in
    if c == b'/' then some ([], s) else elim later [ none ↦ none | some (a, b) ↦ some (c ∷ a, b) ]

unfoldable pub provider_route_rest : Bytes → Option Bytes
unfolding has_prefix
provider_route_rest path =
    let prefix = codes "/api/provider/" in
    if not (has_prefix path prefix)
    then none
    else let rest = drop (length prefix) path in
      if is_empty rest || has_prefix rest (codes "/") then none else some rest

second_part : Option (Bytes × Bytes) → Option Bytes
second_part none = none
second_part (some (name, route)) = if is_empty name then none else some route

unfoldable pub provider_route_without_version : Bytes → Option Bytes
unfolding provider_route_rest split_slash second_part
provider_route_without_version path = do
  rest ← provider_route_rest path
  second_part (split_slash rest)

unfoldable pub provider_version_route : Bytes → Bytes → Option Bytes
unfolding provider_route_without_version
provider_version_route path version = do
  route ← provider_route_without_version path
  let prefix = version ++ codes "/"
  if has_prefix route prefix then some (drop (length prefix) route) else none

equals : Option Bytes → Bytes → Bool
unfolding bytes_eq
equals none suffix = false
equals (some route) suffix = bytes_eq route suffix

unfoldable pub match_provider_route : Bytes → Bytes → Bytes → Bool
unfolding equals provider_version_route
match_provider_route path version suffix =
    equals
      (if is_empty version
        then provider_route_without_version path
        else provider_version_route path version)
      suffix

starts : Option Bytes → Bytes → Bool
unfolding has_prefix
starts none prefix = false
starts (some route) prefix = has_prefix route prefix

unfoldable pub match_provider_route_prefix : Bytes → Bytes → Bytes → Bool
unfolding starts provider_version_route
match_provider_route_prefix path version prefix =
    starts (provider_version_route path version) prefix

-- strings.LastIndexByte
unfoldable pub last_index : ℕ → Bytes → Option ℕ
last_index b [] = none
last_index b (c ∷ s) = elim (last_index b s) [
  | some i ↦ some (suc i)
  | none ↦ if c == b then some 0 else none
]

action_at : Bytes → Option ℕ → Bool
unfolding bytes_eq
action_at rest none = false
action_at rest (some colon) =
    if colon == 0 || colon == length rest - 1
    then false
    else let action = drop (suc colon) rest in
      bytes_eq action (codes "generateContent") || bytes_eq action (codes "streamGenerateContent")

unfoldable pub gemini_action_matches : Bytes → Bool
unfolding last_index action_at
gemini_action_matches rest = action_at rest (last_index b':' rest)

-- The first loop of isGeminiGenerateContentPath returns at the first prefix that fits.
plain_gemini : Bytes → List Bytes → Option Bool
unfolding has_prefix gemini_action_matches
plain_gemini path [] = none
plain_gemini path (prefix ∷ prefixes) =
    let rest = plain_gemini path prefixes in
    if has_prefix path prefix
    then some (gemini_action_matches (drop (length prefix) path))
    else rest

provider_gemini : Bytes → List Bytes → Bool
unfolding provider_version_route has_prefix gemini_action_matches
provider_gemini path [] = false
provider_gemini path (version ∷ versions) =
    let rest = provider_gemini path versions in
    elim (provider_version_route path version) [
      | none ↦ rest
      | some route ↦
          if has_prefix route (codes "models/")
          then gemini_action_matches (drop (length (codes "models/")) route)
          else rest
    ]

unfoldable pub is_gemini_generate_content_path : Bytes → Bool
unfolding plain_gemini provider_gemini
is_gemini_generate_content_path path =
    let behind_provider = provider_gemini path (codes "v1" ∷ codes "v1beta" ∷ []) in
    elim (plain_gemini path (codes "/v1/models/" ∷ codes "/v1beta/models/" ∷ [])) [
      | some found ↦ found
      | none ↦ behind_provider
    ]

unfoldable pub is_chat_completions_path : Bytes → Bool
unfolding match_provider_route
is_chat_completions_path path =
    bytes_eq path (codes "/v1/chat/completions")
    || match_provider_route path (codes "") (codes "chat/completions")
    || match_provider_route path (codes "v1") (codes "chat/completions")

unfoldable pub is_openai_completions_path : Bytes → Bool
unfolding match_provider_route
is_openai_completions_path path =
    bytes_eq path (codes "/v1/completions")
    || match_provider_route path (codes "") (codes "completions")
    || match_provider_route path (codes "v1") (codes "completions")

unfoldable pub is_responses_path : Bytes → Bool
unfolding match_provider_route
is_responses_path path =
    bytes_eq path (codes "/v1/responses")
    || bytes_eq path (codes "/v1/responses/compact")
    || bytes_eq path (codes "/backend-api/codex/responses")
    || bytes_eq path (codes "/backend-api/codex/responses/compact")
    || match_provider_route path (codes "") (codes "responses")
    || match_provider_route path (codes "v1") (codes "responses")

unfoldable pub is_anthropic_messages_path : Bytes → Bool
unfolding match_provider_route
is_anthropic_messages_path path =
    bytes_eq path (codes "/v1/messages")
    || match_provider_route path (codes "v1") (codes "messages")

unfoldable pub is_openai_images_generations_path : Bytes → Bool
unfolding match_provider_route
is_openai_images_generations_path path =
    bytes_eq path (codes "/v1/images/generations")
    || match_provider_route path (codes "") (codes "images/generations")
    || match_provider_route path (codes "v1") (codes "images/generations")

unfoldable pub is_openai_images_edits_path : Bytes → Bool
unfolding match_provider_route
is_openai_images_edits_path path =
    bytes_eq path (codes "/v1/images/edits")
    || match_provider_route path (codes "") (codes "images/edits")
    || match_provider_route path (codes "v1") (codes "images/edits")

unfoldable pub is_openai_images_variations_path : Bytes → Bool
unfolding match_provider_route
is_openai_images_variations_path path =
    bytes_eq path (codes "/v1/images/variations")
    || match_provider_route path (codes "") (codes "images/variations")
    || match_provider_route path (codes "v1") (codes "images/variations")

unfoldable pub is_openai_embeddings_path : Bytes → Bool
unfolding match_provider_route
is_openai_embeddings_path path =
    bytes_eq path (codes "/v1/embeddings")
    || match_provider_route path (codes "") (codes "embeddings")
    || match_provider_route path (codes "v1") (codes "embeddings")

unfoldable pub is_openai_audio_path : Bytes → Bool
unfolding match_provider_route
is_openai_audio_path path =
    bytes_eq path (codes "/v1/audio/speech")
    || bytes_eq path (codes "/v1/audio/transcriptions")
    || bytes_eq path (codes "/v1/audio/translations")
    || match_provider_route path (codes "v1") (codes "audio/speech")
    || match_provider_route path (codes "v1") (codes "audio/transcriptions")
    || match_provider_route path (codes "v1") (codes "audio/translations")

unfoldable pub is_openai_videos_path : Bytes → Bool
unfolding match_provider_route match_provider_route_prefix
is_openai_videos_path path =
    bytes_eq path (codes "/v1/videos")
    || bytes_eq path (codes "/v1/videos/edits")
    || has_prefix path (codes "/v1/videos/")
    || match_provider_route path (codes "v1") (codes "videos")
    || match_provider_route path (codes "v1") (codes "videos/edits")
    || match_provider_route_prefix path (codes "v1") (codes "videos/")

gemini_route :
    is_gemini_generate_content_path (codes "/api/provider/google/v1beta/models/g:generateContent")
    ≡ true
unfolding is_gemini_generate_content_path
gemini_route = refl

empty_provider : is_chat_completions_path (codes "/api/provider//chat/completions") ≡ false
unfolding is_chat_completions_path
empty_provider = refl
