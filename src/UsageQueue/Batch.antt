-- ===== src/UsageQueue/Batch.antt =====
-- internal/usagequeue/poller.go: parsePayload, processPayload and pollBatch. What they do to the store
-- is a list of calls in order. The clock's texts and numbers are arguments; locks and the log are left
-- out.
pub mod Replies
use metering_proxy.Common.{
  ℕ, zero, suc, ◌+◌, ◌≤◌, ◌<◌, ◌^◌, ◌≡◌, refl, ap, sym, ◌∙◌, String, Bool, true, false, not, ◌&&◌,
  ◌||◌, Option, none, some, List, [], ◌∷◌, ◌++◌, Bytes, codes, str_eq, length, take, drop, ltb, leb,
  if◌then◌else◌, arith, All, append_assoc,
}
use metering_proxy.Common.Trim.{is_empty}
use metering_proxy.Common.Int64.{ℤ, pos}
use metering_proxy.UsageQueue.Payload.{
  Float, Members, SideUsageEvent, string_field, int64_field, bool_int_field,
}
use metering_proxy.UsageQueue.Payload.Totals.{apply_token_fields}
use metering_proxy.UsageQueue.Resp.{
  Reply, payload, nil_bulk, failed, panics, read_resp, write_bulk, write_resp_command,
}

-- What a payload is read with: the float64 operations, encoding/json into a map, the Hasher, and
-- time.Now.
pub record Reader (F : Type 0) : Type 0 where
  pub float : Float F
  pub decode : Bytes → Option (Members F)
  pub hash : Option (Bytes → Bytes)
  pub now_text : Bytes
  pub now_unix : ℤ

abbrev pub blank_event : SideUsageEvent
blank_event = record {
  id = pos 0;
  received_at = [];
  received_at_unix = pos 0;
  request_id = [];
  matched_request_usage_id = pos 0;
  match_status = "stored_only";
  provider = [];
  model = [];
  alias = [];
  endpoint = [];
  auth_type = [];
  auth_index_hash = [];
  source_hash = [];
  api_key_hash = [];
  input_tokens = pos 0;
  output_tokens = pos 0;
  reasoning_tokens = pos 0;
  cached_tokens = pos 0;
  cache_read_tokens = pos 0;
  cache_creation_tokens = pos 0;
  total_tokens = pos 0;
  latency_ms = pos 0;
  failed = pos 0;
  error_class = [];
}

module _ {F : Type 0} (r : Reader F) where
  unfoldable pub hash_sensitive : Bytes → Members F → String → String → Bytes
  unfolding string_field
  hash_sensitive namespace raw hashed_key raw_key = elim r.hash [
    | none ↦ []
    | some h ↦
        let hashed = string_field r.float raw (hashed_key ∷ []) in
        let plain = string_field r.float raw (raw_key ∷ []) in
        if not (is_empty hashed)
        then h (codes "side_usage:" ++ (namespace ++ (codes ":hash:" ++ hashed)))
        else if not (is_empty plain)
        then h (codes "side_usage:" ++ (namespace ++ (codes ":raw:" ++ plain)))
        else []
  ]

  unfoldable pub event_of : Members F → SideUsageEvent
  unfolding hash_sensitive string_field int64_field bool_int_field apply_token_fields
  event_of raw =
      let named = record blank_event {
        received_at = r.now_text;
        received_at_unix = r.now_unix;
        provider = string_field r.float raw ("provider" ∷ []);
        model = string_field r.float raw ("model" ∷ []);
        alias = string_field r.float raw ("alias" ∷ []);
        endpoint = string_field r.float raw ("endpoint" ∷ "path" ∷ []);
        auth_type = string_field r.float raw ("auth_type" ∷ []);
        request_id = string_field r.float raw ("request_id" ∷ "requestId" ∷ []);
        error_class = string_field r.float raw ("error_class" ∷ []);
        auth_index_hash = hash_sensitive (codes "auth_index") raw "auth_index_hash" "auth_index";
        source_hash = hash_sensitive (codes "source") raw "source_hash" "source";
        api_key_hash = hash_sensitive (codes "api_key") raw "api_key_hash" "api_key";
      } in
      record (apply_token_fields r.float named raw) {
        latency_ms = int64_field r.float raw ("latency_ms" ∷ "duration_ms" ∷ []);
        failed = bool_int_field r.float raw ("failed" ∷ "error" ∷ []);
      }

  unfoldable pub parse_payload : Bytes → SideUsageEvent
  unfolding event_of
  parse_payload body = elim (r.decode body) [
    | none ↦ record blank_event {
      received_at = r.now_text;
      received_at_unix = r.now_unix;
      match_status = "invalid_payload";
      error_class = codes "invalid_payload";
    }
    | some raw ↦ event_of raw
  ]

-- The calls of the store: an event is inserted, and the event that got an id is applied to a request.
pub data Call : Type 0 where
  insert : SideUsageEvent → Call
  apply : ℤ → Call

-- The store's answers: the id of an inserted event, or an error.
pub record Store : Type 0 where
  pub inserted_id : SideUsageEvent → Option ℤ

-- What pollBatch comes to: `processed`, whether it returns an error or panics, the calls, and what is
-- left of the replies.
pub record Polled : Type 0 where
  pub processed : ℕ
  pub in_error : Bool
  pub crashed : Bool
  pub calls : List Call
  pub rest : Bytes

abbrev pub stopped : Bool → Bool → Bytes → Polled
stopped in_error crashed rest = record {
  processed = 0;
  in_error = in_error;
  crashed = crashed;
  calls = [];
  rest = rest;
}

module _ {F : Type 0} (r : Reader F) (store : Store) (allow_request_merge : Bool) where
  unfoldable pub merges : SideUsageEvent → Bool
  merges e =
      allow_request_merge
      && not (str_eq e.match_status "invalid_payload")
      && not (is_empty e.request_id)

  -- processPayload. Its error is only logged.
  unfoldable pub process_payload : Bytes → List Call
  unfolding parse_payload merges
  process_payload body =
      let e = parse_payload r body in
      insert e
      ∷ elim (store.inserted_id e) [ none ↦ [] | some id ↦ if merges e then apply id ∷ [] else [] ]

  unfoldable pub after_payload : Bytes → Polled → Polled
  unfolding process_payload
  after_payload body p = record p {
    processed = p.processed + 1;
    calls = process_payload body ++ p.calls;
  }

  -- What a reply does; `more` are the rounds after it.
  unfoldable pub on_reply : Reply → Bytes → Polled → Polled
  unfolding after_payload
  on_reply (payload body) rest more = after_payload body more
  on_reply nil_bulk rest more = stopped false false rest
  on_reply failed rest more = stopped true false rest
  on_reply panics rest more = stopped true true rest

  -- The loop of pollBatch, on the rounds that are left. `writes k` says that the command of that round
  -- is written.
  unfoldable pub poll_loop : ℕ → (ℕ → Bool) → ℕ → Bytes → Polled
  unfolding on_reply read_resp
  poll_loop max_slice writes zero replies = stopped false false replies
  poll_loop max_slice writes (suc k) replies =
      let (reply, rest) = read_resp max_slice replies in
      let more = poll_loop max_slice writes k rest in
      if writes k then on_reply reply rest more else stopped true false replies

  -- pollBatch: a batch size below 1 is 50.
  unfoldable pub poll_batch : ℕ → (ℕ → Bool) → ℕ → Bytes → Polled
  unfolding poll_loop
  poll_batch max_slice writes batch_size replies =
      poll_loop max_slice writes (if leb batch_size 0 then 50 else batch_size) replies
