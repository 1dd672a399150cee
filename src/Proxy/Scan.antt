-- ===== src/Proxy/Scan.antt =====
-- internal/proxy/proxy.go: the scanners that look up a field of a request's body without decoding it.
-- A position in the body is what is left of the body from there on, so `i >= len(body)` is the empty
-- list. skipJSONComposite is only called at an opening bracket: here it starts behind it, at depth 1.
pub mod Fuel
pub mod Printed
pub mod Found
pub mod Lookup
use metering_proxy.Common.{
  ℕ, zero, suc, ◌-◌, Bool, true, false, ◌||◌, Option, none, some, List, [], ◌∷◌, Bytes, codes,
  length, ◌==◌, ◌>>=◌, if◌then◌else◌,
}
use metering_proxy.Common.Trim.{bytes_eq, has_prefix}

abbrev pub is_json_space : ℕ → Bool
is_json_space c = c == b' ' || c == 10 || c == 13 || c == 9

unfoldable pub skip_json_whitespace : Bytes → Bytes
skip_json_whitespace [] = []
skip_json_whitespace (c ∷ s) =
    let rest = skip_json_whitespace s in if is_json_space c then rest else c ∷ s

-- The loop of scanJSONStringEnd: what stands before the closing quote, and what is left behind it.
abbrev with_byte : ℕ → Option (Bytes × Bytes) → Option (Bytes × Bytes)
with_byte c none = none
with_byte c (some (raw, rest)) = some (c ∷ raw, rest)

unfoldable pub string_rest : Bool → Bytes → Option (Bytes × Bytes)
string_rest escaped [] = none
string_rest true (c ∷ s) = with_byte c (string_rest false s)
string_rest false (c ∷ s) = elim (c == 92) [
  | true ↦ with_byte c (string_rest true s)
  | false ↦ elim (c == b'"') [ true ↦ some ([], s) | false ↦ with_byte c (string_rest false s) ]
]

unfoldable pub scan_json_string_end : Bytes → Option (Bytes × Bytes)
unfolding string_rest
scan_json_string_end [] = none
scan_json_string_end (c ∷ s) = if c == b'"' then string_rest false s else none

pub data Bracket : Type 0 where
  curly : Bracket
  square : Bracket

abbrev pub open_byte : Bracket → ℕ
open_byte curly = b'{'
open_byte square = b'['

abbrev pub close_byte : Bracket → ℕ
close_byte curly = b'}'
close_byte square = b']'

abbrev pub other : Bracket → Bracket
other curly = square
other square = curly

-- The cases of the switch of skipJSONComposite.
pub data Mark : Type 0 where
  quote : Mark
  opening : Mark
  closing : Mark
  nested : Mark
  plain : Mark

unfoldable pub mark : Bracket → ℕ → Mark
mark b c =
    if c == b'"'
    then quote
    else if c == open_byte b
    then opening
    else if c == close_byte b
    then closing
    else if c == open_byte (other b)
    then nested
    else plain

-- One round of the loop, behind the byte that was looked at.
unfoldable pub composite_step :
    (Bracket → ℕ → Bytes → Option Bytes) → Mark → Bracket → ℕ → Bytes → Option Bytes
unfolding string_rest
composite_step self quote b d s = string_rest false s >>= λ p. self b d p.1
composite_step self opening b d s = self b (suc d) s
composite_step self closing b d s = elim (d == 1) [ true ↦ some s | false ↦ self b (d - 1) s ]
composite_step self nested b d s = self (other b) 1 s >>= λ r. self b d r
composite_step self plain b d s = self b d s

unfoldable pub skip_json_composite : ℕ → Bracket → ℕ → Bytes → Option Bytes
unfolding composite_step mark
skip_json_composite zero b d s = none
skip_json_composite (suc fuel) b d [] = none
skip_json_composite (suc fuel) b d (c ∷ s) =
    composite_step (skip_json_composite fuel) (mark b c) b d s

-- As many rounds as there are bytes, and one more.
unfoldable pub skip_composite : Bracket → ℕ → Bytes → Option Bytes
unfolding skip_json_composite
skip_composite b d s = skip_json_composite (suc (length s)) b d s

unfoldable pub is_delimiter : ℕ → Bool
is_delimiter c = c == b',' || c == b'}' || c == b']' || is_json_space c

unfoldable pub skip_literal : Bytes → Bytes
unfolding is_delimiter
skip_literal [] = []
skip_literal (c ∷ s) = let rest = skip_literal s in if is_delimiter c then c ∷ s else rest

-- skipJSONValueBytes, behind the white space.
unfoldable pub skip_value_at : Bytes → Option Bytes
unfolding string_rest skip_composite skip_literal
skip_value_at [] = none
skip_value_at (c ∷ s) =
    let text = string_rest false s >>= λ p. some p.1 in
    if c == b'"'
    then text
    else if c == b'{'
    then skip_composite curly 1 s
    else if c == b'['
    then skip_composite square 1 s
    else some (skip_literal (c ∷ s))

unfoldable pub skip_json_value_bytes : Bytes → Option Bytes
unfolding skip_json_whitespace skip_value_at
skip_json_value_bytes s = skip_value_at (skip_json_whitespace s)

-- Behind a key: the colon, and the position of the value.
unfoldable pub after_colon : Bytes → Option Bytes
unfolding skip_json_whitespace
after_colon [] = none
after_colon (c ∷ s) = if c == b':' then some (skip_json_whitespace s) else none

-- Behind a value: the comma, and the position of the next key.
unfoldable pub after_comma : Bytes → Option Bytes
unfolding skip_json_whitespace
after_comma [] = none
after_comma (c ∷ s) = if c == b',' then some (skip_json_whitespace s) else none

-- The loop of findTopLevelJSONValue. The closing bracket of the object is no quote.
unfoldable pub find_field : ℕ → Bytes → Bytes → Option Bytes
unfolding scan_json_string_end skip_json_whitespace after_colon after_comma skip_json_value_bytes
    bytes_eq
find_field zero key s = none
find_field (suc fuel) key s = scan_json_string_end s >>= λ p.
    after_colon (skip_json_whitespace p.1) >>= λ value. elim (bytes_eq p.0 key) [
      | true ↦ some value
      | false ↦ skip_json_value_bytes value >>= λ next.
          after_comma (skip_json_whitespace next) >>= λ rest. find_field fuel key rest
    ]

unfoldable pub find_in : Bytes → Bytes → Option Bytes
unfolding find_field skip_json_whitespace
find_in key [] = none
find_in key (c ∷ s) =
    if c == b'{' then find_field (suc (length s)) key (skip_json_whitespace s) else none

unfoldable pub find_top_level_json_value : Bytes → Bytes → Option Bytes
unfolding find_in skip_json_whitespace
find_top_level_json_value body key = find_in key (skip_json_whitespace body)
