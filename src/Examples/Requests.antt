-- ===== src/Examples/Requests.antt =====
-- What is recorded of a finished request, at concrete values.
use metering_proxy.Common.{
  ℕ, ◌≡◌, refl, true, false, none, some, [], ◌∷◌, All, Bytes, codes, replicate, length, ◌++◌,
}
use metering_proxy.Common.Int64.{pos, is_zero}
use metering_proxy.Event.Mapping.{event_to_record}
use metering_proxy.Extractor.{UsageInfo, empty_usage}
use metering_proxy.Profile.Registry.{openai_images_edits}
use metering_proxy.Proxy.Record.{Finished, record_usage}
use metering_proxy.Proxy.Record.Raw.{IsCut, truncate_usage_raw_json, truncate_usage_raw_json-IsCut}
use metering_proxy.Proxy.Record.Stored.{Agrees, record_usage-AllAgree}

-- 4095 letters and the three bytes of U+20AC, of which the cut would split the last.
abbrev long_raw : Bytes
long_raw = replicate 4095 b'a' ++ 0xe2 ∷ 0x82 ∷ 0xac ∷ []

truncate_usage_raw_json-IsCut_example : IsCut long_raw (truncate_usage_raw_json long_raw)
truncate_usage_raw_json-IsCut_example = truncate_usage_raw_json-IsCut long_raw

abbrev edited : UsageInfo
edited = record empty_usage {
  model = "gpt-image-1";
  input_tokens = pos 30;
  output_tokens = pos 50;
  total_tokens = pos 80;
  usage_raw_json = codes "{}";
  input_text_tokens = pos 10;
  input_image_tokens = pos 20;
  image_count = pos 1;
}

abbrev finished : Finished ℕ
finished = record {
  start = 7;
  latency_ms = pos 120;
  ttfb_ms = pos 30;
  prof = some openai_images_edits;
  endpoint = "/v1/images/edits";
  method = "POST";
  request_id = "r1";
  status = pos 200;
  stream = false;
  client_ip_hash = "";
  api_key_hash = "";
  model_requested = "gpt-image";
  request_meta = record {
    size = "1024x1024";
    quality = "";
    output_format = "";
    stream = false;
    input_image_count = pos 1;
    has_mask = true;
  };
  usage = some edited;
  request_bytes = pos 1000;
  response_bytes = pos 2000;
  err_str = "";
  capture_outcome = "captured";
  capture_reason = "";
  err_info = none;
  model_returned = "";
  model_returned_source = "";
  terminal_event = "";
  terminal_reason = "";
}

-- The rows of the text, the image and the output tokens, and of the image.
dimensions_count : length (record_usage (λ n. n) is_zero (pos 0) finished).usage_dimensions ≡ 4
unfolding record_usage
dimensions_count = refl

record_usage-AllAgree_example :
    All
      (Agrees is_zero
        (event_to_record (λ t. "now") (record_usage (λ n. n) is_zero (pos 0) finished)))
      (event_to_record
        (λ t. "now")
        (record_usage (λ n. n) is_zero (pos 0) finished)).usage_dimensions
record_usage-AllAgree_example = record_usage-AllAgree (λ t. "now") (λ n. n) is_zero (pos 0) finished
