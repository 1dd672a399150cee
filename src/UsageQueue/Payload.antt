-- ===== src/UsageQueue/Payload.antt =====
-- internal/usagequeue/poller.go, parsePayload: a side usage event, from the JSON object of a payload.
-- A decoded object has each key once. encoding/json gives float64 for every number of a
-- map[string]any, so the source's json.Number cases do not arise. The hash is the poller's Hasher.
pub mod Totals
use metering_proxy.Common.{
  ℕ, ◌+◌, ◌≡◌, refl, String, Bool, true, false, not, ◌&&◌, ◌||◌, Option, none, some, List, [], ◌∷◌,
  ◌++◌, map, Bytes, codes, str_eq, leb, if◌then◌else◌,
}
use metering_proxy.Common.Trim.{trim_space, bytes_eq, is_empty}
use metering_proxy.Common.Int64.{ℤ, pos, add64, is_zero, is_pos}
use metering_proxy.Common.Decimal.{print_ℤ, parse_int}

-- What the code does with a float64.
pub record Float (F : Type 0) : Type 0 where
  pub to_int64 : F → ℤ
  pub nonzero : F → Bool

mutual
  pub data Value (F : Type 0) : Type 0 where
    null : Value F
    text : Bytes → Value F
    number : F → Value F
    truth : Bool → Value F
    array : Value F
    object : Members F → Value F

  pub data Members (F : Type 0) : Type 0 where
    end : Members F
    member : String → Value F → Members F → Members F

-- db.SideUsageEvent
pub record SideUsageEvent : Type 0 where
  pub id : ℤ
  pub received_at : Bytes
  pub received_at_unix : ℤ
  pub request_id : Bytes
  pub matched_request_usage_id : ℤ
  pub match_status : String
  pub provider : Bytes
  pub model : Bytes
  pub alias : Bytes
  pub endpoint : Bytes
  pub auth_type : Bytes
  pub auth_index_hash : Bytes
  pub source_hash : Bytes
  pub api_key_hash : Bytes
  pub input_tokens : ℤ
  pub output_tokens : ℤ
  pub reasoning_tokens : ℤ
  pub cached_tokens : ℤ
  pub cache_read_tokens : ℤ
  pub cache_creation_tokens : ℤ
  pub total_tokens : ℤ
  pub latency_ms : ℤ
  pub failed : ℤ
  pub error_class : Bytes

module _ {F : Type 0} (float : Float F) where
  -- raw[key]; a missing key is null, which the code treats alike.
  unfoldable pub lookup : String → Members F → Value F
  lookup key end = null
  lookup key (member k v rest) = if str_eq k key then v else lookup key rest

  -- The cases of stringField: `none` goes on to the next key.
  unfoldable pub string_of : Value F → Option Bytes
  unfolding trim_space print_ℤ
  string_of null = none
  string_of (text s) = let t = trim_space s in if is_empty t then none else some t
  string_of (number x) = some (print_ℤ (float.to_int64 x))
  string_of (truth b) = some (if b then codes "true" else codes "false")
  string_of array = none
  string_of (object m) = none

  unfoldable pub int64_of : Value F → Option ℤ
  unfolding trim_space parse_int
  int64_of null = none
  int64_of (text s) = some (parse_int (trim_space s))
  int64_of (number x) = some (float.to_int64 x)
  int64_of (truth b) = none
  int64_of array = none
  int64_of (object m) = none

  unfoldable pub object_of : Value F → Option (Members F)
  object_of (object m) = some m
  object_of null = none
  object_of (text s) = none
  object_of (number x) = none
  object_of (truth b) = none
  object_of array = none

  -- strings.ToLower, on ASCII: no other letter lowers to one of the words below.
  lower : Bytes → Bytes
  lower [] = []
  lower (c ∷ s) = (if leb b'A' c && leb c b'Z' then c + 32 else c) ∷ lower s

  unfoldable pub says_yes : Bytes → Bool
  unfolding lower trim_space
  says_yes s =
      let t = lower (trim_space s) in
      bytes_eq t (codes "true")
      || bytes_eq t (codes "1")
      || bytes_eq t (codes "yes")
      || bytes_eq t (codes "error")

  unfoldable pub bool_int_of : Value F → Option ℤ
  unfolding says_yes
  bool_int_of null = none
  bool_int_of (truth b) = some (if b then pos 1 else pos 0)
  bool_int_of (number x) = if float.nonzero x then some (pos 1) else none
  bool_int_of (text s) = if says_yes s then some (pos 1) else none
  bool_int_of array = none
  bool_int_of (object m) = none

  -- for _, key := range keys
  unfoldable pub first_field {ℓ} :
      {A : Type ℓ} → (Value F → Option A) → Members F → List String → Option A
  unfolding lookup
  first_field read raw [] = none
  first_field read raw (key ∷ keys) = elim (read (lookup key raw)) [
    | some a ↦ some a
    | none ↦ first_field read raw keys
  ]

  unfoldable pub string_field : Members F → List String → Bytes
  unfolding first_field string_of
  string_field raw keys = elim (first_field string_of raw keys) [ some s ↦ s | none ↦ [] ]

  unfoldable pub int64_field : Members F → List String → ℤ
  unfolding first_field int64_of
  int64_field raw keys = elim (first_field int64_of raw keys) [ some n ↦ n | none ↦ pos 0 ]

  unfoldable pub object_field : Members F → List String → Option (Members F)
  unfolding first_field object_of
  object_field raw keys = first_field object_of raw keys

  unfoldable pub bool_int_field : Members F → List String → ℤ
  unfolding first_field bool_int_of
  bool_int_field raw keys = elim (first_field bool_int_of raw keys) [ some n ↦ n | none ↦ pos 0 ]
