-- ===== src/Extractor.antt =====
-- internal/extractor/extractor.go: the usage found in a provider's response, and the JSON types of
-- the providers' usage objects. A nil pointer is `none`; json.RawMessage is its bytes, and an absent
-- one is empty. Decoding is encoding/json's: the record `Json` stands for it.
pub mod Tokens
pub mod Errors
pub mod Bounds
pub mod Responses
use metering_proxy.Common.{String, Bool, Option, none, some, List, Bytes}
use metering_proxy.Common.Int64.{ℤ, pos}

pub record UsageInfo : Type 0 where
  pub model : String
  pub input_tokens : ℤ
  pub output_tokens : ℤ
  pub reasoning_tokens : ℤ
  pub cached_tokens : ℤ
  pub cache_creation_tokens : ℤ
  pub total_tokens : ℤ
  pub usage_raw_json : Bytes
  pub input_text_tokens : ℤ
  pub input_image_tokens : ℤ
  pub cached_text_tokens : ℤ
  pub cached_image_tokens : ℤ
  pub image_count : ℤ
  pub partial_image_count : ℤ
  pub input_image_count : ℤ
  pub operation : String
  pub size : String
  pub quality : String
  pub output_format : String
  pub has_mask : Bool

pub record PromptTokensDetails : Type 0 where
  pub cached_tokens : ℤ

pub record CompletionTokensDetails : Type 0 where
  pub reasoning_tokens : ℤ

pub record ChatUsage : Type 0 where
  pub prompt_tokens : ℤ
  pub completion_tokens : ℤ
  pub total_tokens : ℤ
  pub input_tokens : ℤ
  pub prompt_tokens_details : Option PromptTokensDetails
  pub completion_tokens_details : Option CompletionTokensDetails

pub record ResponsesOutputItem : Type 0 where
  pub type : String
  pub status : String

pub record InputTokensDetails : Type 0 where
  pub cached_tokens : ℤ
  pub text_tokens : ℤ
  pub image_tokens : ℤ
  pub cached_text_tokens : ℤ
  pub cached_image_tokens : ℤ

pub record OutputTokensDetails : Type 0 where
  pub reasoning_tokens : ℤ

pub record ResponsesUsage : Type 0 where
  pub input_tokens : ℤ
  pub output_tokens : ℤ
  pub total_tokens : ℤ
  pub input_tokens_details : Option InputTokensDetails
  pub output_tokens_details : Option OutputTokensDetails

pub record AnthropicUsage : Type 0 where
  pub input_tokens : ℤ
  pub output_tokens : ℤ
  pub cache_creation_input_tokens : ℤ
  pub cache_read_input_tokens : ℤ

pub record GeminiUsage : Type 0 where
  pub prompt_token_count : ℤ
  pub candidates_token_count : ℤ
  pub total_token_count : ℤ
  pub cached_content_token_count : ℤ
  pub thoughts_token_count : ℤ
  pub tool_use_prompt_token_count : ℤ

-- &UsageInfo{}
abbrev pub empty_usage : UsageInfo
empty_usage = record {
  model = "";
  input_tokens = pos 0;
  output_tokens = pos 0;
  reasoning_tokens = pos 0;
  cached_tokens = pos 0;
  cache_creation_tokens = pos 0;
  total_tokens = pos 0;
  usage_raw_json = List.[];
  input_text_tokens = pos 0;
  input_image_tokens = pos 0;
  cached_text_tokens = pos 0;
  cached_image_tokens = pos 0;
  image_count = pos 0;
  partial_image_count = pos 0;
  input_image_count = pos 0;
  operation = "";
  size = "";
  quality = "";
  output_format = "";
  has_mask = Bool.false;
}

-- internal/extractor/error.go
pub record ErrorInfo : Type 0 where
  pub class : String
  pub type : String
  pub code : String
  pub param : String
  pub message : String
  pub message_truncated : Bool

-- The event of a responses stream, with its nested objects.
pub record IncompleteDetails : Type 0 where
  pub reason : String

pub record ResponseBody : Type 0 where
  pub model : String
  pub status : String
  pub usage : Bytes
  pub output : List ResponsesOutputItem
  pub incomplete_details : Option IncompleteDetails

pub record ErrorBody : Type 0 where
  pub type : String
  pub code : String
  pub param : String

pub record ResponsesSseEvent : Type 0 where
  pub type : String
  pub response : Option ResponseBody
  pub error : Option ErrorBody

-- encoding/json at the types that the code decodes: `none` is an error.
pub record Json : Type 0 where
  pub valid : Bytes → Bool
  pub compact : Bytes → Option Bytes
  pub responses_event : Bytes → Option ResponsesSseEvent
  pub responses_usage : Bytes → Option ResponsesUsage
