-- ===== src/Examples/Queue.antt =====
-- The theorems on the side usage queue at concrete values.
use metering_proxy.Common.{
  ℕ, zero, suc, ◌≡◌, refl, Bool, true, false, none, some, List, [], ◌∷◌, ◌++◌, map, Bytes, codes,
  arith,
}
use metering_proxy.Common.Int64.{pos}
use metering_proxy.UsageQueue.Payload.{Float, Members, end, member, number, object}
use metering_proxy.UsageQueue.Payload.Totals.{
  apply_token_fields, CountsOf, IsTotal, reported_total, apply_token_fields-IsTotal,
}
use metering_proxy.UsageQueue.Resp.{write_resp_command, payload}
use metering_proxy.UsageQueue.Resp.RoundTrip.{read_command, read_command-write_resp_command}
use metering_proxy.UsageQueue.Batch.{Reader, Store, blank_event}

abbrev pop_args : List Bytes
pop_args = codes "LPOP" ∷ codes "queue" ∷ []

read_command-write_resp_command_example :
    read_command 1000 (write_resp_command pop_args ++ codes "*")
    ≡ some (map payload pop_args, codes "*")
read_command-write_resp_command_example =
    read_command-write_resp_command 1000 pop_args (codes "*") (omega arith) (omega arith)
      (omega arith)

-- Floats that are whole numbers.
abbrev whole : Float ℕ
whole = record { to_int64 = λ n. pos n; nonzero = λ n. elim n [ zero ↦ false | suc k ↦ true ] }

abbrev token_members : Members ℕ
token_members =
    member "usage"
      (object (member "input_tokens" (number 5) (member "output_tokens" (number 7) end))) end

some_counts : CountsOf (apply_token_fields whole blank_event token_members)
unfolding apply_token_fields
some_counts = record { not_negative = refl; no_overflow = omega arith }

apply_token_fields-IsTotal_example :
    let r = apply_token_fields whole blank_event token_members in
    IsTotal
      (reported_total whole token_members)
      r.input_tokens
      r.output_tokens
      r.reasoning_tokens
      r.cached_tokens
      r.cache_creation_tokens
      r.total_tokens
apply_token_fields-IsTotal_example =
    apply_token_fields-IsTotal whole blank_event token_members some_counts

abbrev small_reader : Reader ℕ
small_reader = record {
  float = whole;
  decode = λ s. some token_members;
  hash = none;
  now_text = codes "2023";
  now_unix = pos 1700;
}

abbrev ready_store : Store
ready_store = record { inserted_id = λ e. some (pos 1) }

abbrev always : ℕ → Bool
always k = true
