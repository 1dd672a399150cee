-- ===== src/Streamproto.antt =====
-- internal/streamproto/streamproto.go: how a streaming endpoint frames its response.
use metering_proxy.Common.{ℕ, String, Bool, true, false}

pub record Protocol : Type 0 where
  pub name : String
  pub uses_sse : Bool
  pub event_boundary : ℕ  -- byte
  pub completion_marker : String
  pub has_event_field : Bool
  pub max_line_size : ℕ

-- OpenAISSE
abbrev pub openai_sse : Protocol
openai_sse = record {
  name = "openai_sse";
  uses_sse = true;
  event_boundary = b'\n';
  completion_marker = "[DONE]";
  has_event_field = false;
  max_line_size = 262144;
}

-- None
abbrev pub none_protocol : Protocol
none_protocol = record {
  name = "none";
  uses_sse = false;
  event_boundary = 0;
  completion_marker = "";
  has_event_field = false;
  max_line_size = 0;
}

unfoldable pub is_streaming : Protocol → Bool
is_streaming p = p.uses_sse
