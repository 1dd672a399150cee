-- ===== src/Proxy/Scan/Lookup.antt =====
-- internal/proxy/proxy.go: the values that are looked up at the top level of a request's body.
pub mod Escapes
use metering_proxy.Common.{
  ℕ, zero, suc, ◌-◌, ◌≡◌, refl, Bool, true, false, not, ◌&&◌, ◌||◌, Option, none, some, List, [],
  ◌∷◌, Bytes, codes, length, drop, map, ◌==◌, ◌>>=◌, if◌then◌else◌,
}
use metering_proxy.Common.Trim.{has_prefix}
use metering_proxy.Proxy.Scan.{
  skip_json_whitespace, scan_json_string_end, is_delimiter, skip_json_value_bytes,
  find_top_level_json_value,
}

-- The byte that an escape stands for; \u is among those that are refused.
unfoldable pub escape : ℕ → Option ℕ
escape c =
    if c == b'"' || c == 92 || c == b'/'
    then some c
    else if c == b'b'
    then some 8
    else if c == b'f'
    then some 12
    else if c == b'n'
    then some 10
    else if c == b'r'
    then some 13
    else if c == b't'
    then some 9
    else none

unfoldable cons_byte : ℕ → Option Bytes → Option Bytes
cons_byte c none = none
cons_byte c (some s) = some (c ∷ s)

-- The loop over the content of a string.
unfoldable pub unescape : Bytes → Option Bytes
unfolding escape cons_byte
unescape [] = some []
unescape (c ∷ []) = if c == 92 then none else some (c ∷ [])
unescape (c ∷ e ∷ s) = elim (c == 92) [
  | true ↦ elim (escape e) [ none ↦ none | some b ↦ cons_byte b (unescape s) ]
  | false ↦ cons_byte c (unescape (e ∷ s))
]

-- Without an escape the content is returned as it is.
unfoldable pub has_backslash : Bytes → Bool
has_backslash [] = false
has_backslash (c ∷ s) = c == 92 || has_backslash s

unfoldable pub top_level_json_string : Bytes → Bytes → Option Bytes
unfolding find_top_level_json_value scan_json_string_end unescape has_backslash
top_level_json_string body key = find_top_level_json_value body key >>= λ value.
    scan_json_string_end value >>= λ p. if has_backslash p.0 then unescape p.0 else some p.0

ends_literal : Bytes → Bool
unfolding is_delimiter
ends_literal [] = true
ends_literal (c ∷ s) = is_delimiter c

unfoldable pub has_json_literal_at : Bytes → Bytes → Bool
unfolding has_prefix ends_literal
has_json_literal_at s lit = has_prefix s lit && ends_literal (drop (length lit) s)

unfoldable pub json_bool : Bytes → Option Bool
unfolding has_json_literal_at
json_bool value =
    if has_json_literal_at value (codes "true")
    then some true
    else if has_json_literal_at value (codes "false")
    then some false
    else none

unfoldable pub top_level_json_bool : Bytes → Bytes → Option Bool
unfolding find_top_level_json_value json_bool
top_level_json_bool body key = find_top_level_json_value body key >>= λ value. json_bool value

unfoldable pub stream_from_json : Bytes → Bool
unfolding top_level_json_bool
stream_from_json body = elim (top_level_json_bool body (codes "stream")) [
  | none ↦ false
  | some b ↦ b
]

unfoldable pub top_level_json_field_present : Bytes → Bytes → Bool
unfolding find_top_level_json_value
top_level_json_field_present body key = elim (find_top_level_json_value body key) [
  | none ↦ false
  | some value ↦ true
]

-- Behind an element: a comma, and then what the next round looks at, or the end.
pub data After : Type 0 where
  again : Bytes → After
  done : After
  broken : After

after_element : Bytes → After
unfolding skip_json_whitespace
after_element [] = broken
after_element (c ∷ s) =
    if c == b',' then again (skip_json_whitespace s) else if c == b']' then done else broken

-- The loop of topLevelJSONArrayLen, behind the white space; each round reads a byte or more.
unfoldable pub count_elements : ℕ → ℕ → Bytes → Option ℕ
unfolding skip_json_whitespace skip_json_value_bytes after_element
count_elements zero count s = none
count_elements (suc fuel) count [] = none
count_elements (suc fuel) count (c ∷ s) = elim (c == b']') [
  | true ↦ some count
  | false ↦ skip_json_value_bytes (c ∷ s) >>= λ next.
      elim (after_element (skip_json_whitespace next)) [
        | again rest ↦ count_elements fuel (suc count) rest
        | done ↦ some (suc count)
        | broken ↦ none
      ]
]

array_len : Bytes → Option ℕ
unfolding count_elements skip_json_whitespace
array_len [] = none
array_len (c ∷ s) =
    if c == b'[' then count_elements (suc (length s)) 0 (skip_json_whitespace s) else none

unfoldable pub top_level_json_array_len : Bytes → Bytes → Option ℕ
unfolding find_top_level_json_value array_len skip_json_whitespace
top_level_json_array_len body key =
    find_top_level_json_value body key >>= λ value. array_len (skip_json_whitespace value)

abbrev body : Bytes
body =
    codes
      "{\"a\": [{\"model\": 1}], \"model\":\"g\\/5\", \"stream\" :true,\"images\":[1, [2,3],{}]}"

model_found : top_level_json_string body (codes "model") ≡ some (codes "g/5")
unfolding top_level_json_string
model_found = refl

streams : stream_from_json body ≡ true
unfolding stream_from_json
streams = refl

three_images : top_level_json_array_len body (codes "images") ≡ some 3
unfolding top_level_json_array_len
three_images = refl
