-- ===== src/Proxy/Scan/Found.antt =====
-- findTopLevelJSONValue on the text of an object.
pub mod Fields
pub mod Object
use metering_proxy.Common.{
  ℕ, zero, suc, ◌+◌, ◌-◌, ◌<◌, ◌≤◌, ◌≡◌, refl, ap, sym, ◌∙◌, ◌⊎◌, Bool, true, false, not, ◌&&◌,
  Option, none, some, List, [], ◌∷◌, ◌++◌, Bytes, length, ◌==◌, ◌>>=◌, if◌then◌else◌, arith, inl,
  inr, All, length-append,
}
use metering_proxy.Common.Trim.{bytes_eq}
use metering_proxy.Proxy.Scan.{
  is_json_space, skip_json_whitespace, string_rest, scan_json_string_end, Bracket, curly, square,
  open_byte, close_byte, skip_composite, is_delimiter, skip_literal, skip_value_at,
  skip_json_value_bytes, after_colon, after_comma, find_field, find_in, find_top_level_json_value,
}
use metering_proxy.Proxy.Scan.Printed.{
  Items, print_items, IsItems, is_escaped, string_rest-text, skip-items, close_last,
}

pub data Value : Type 0 where
  literal : ℕ → Bytes → Value
  string : Bytes → Value
  composite : Bracket → Items → Value

unfoldable pub print_value : Value → Bytes → Bytes
unfolding print_items
print_value (literal c s) t = c ∷ (s ++ t)
print_value (string raw) t = b'"' ∷ (raw ++ b'"' ∷ t)
print_value (composite b is) t = open_byte b ∷ print_items is (close_byte b ∷ t)

-- A byte that starts a literal: no quote and no opening bracket.
abbrev starts_literal : ℕ → Bool
starts_literal c = not (c == b'"') && not (c == b'{') && not (c == b'[')

not_started :
    (c : ℕ)
    → starts_literal c ≡ true
    → ((c == b'"') ≡ false) × ((c == b'{') ≡ false) × ((c == b'[') ≡ false)
not_started c h = ground arith

unfoldable pub IsValue : Value → Type 0
unfolding IsItems is_delimiter is_escaped
IsValue (literal c s) =
    (starts_literal c ≡ true) × (is_delimiter c ≡ false) × All (λ b. is_delimiter b ≡ false) s
IsValue (string raw) = is_escaped false raw ≡ true
IsValue (composite b is) = IsItems is

-- What may follow a value.
unfoldable pub IsEnd : Bytes → Type 0
unfolding is_delimiter
IsEnd [] = Unit
IsEnd (c ∷ t) = is_delimiter c ≡ true

skip_literal-end : (t : Bytes) → IsEnd t → skip_literal t ≡ t
unfolding skip_literal IsEnd
skip_literal-end [] h = refl
skip_literal-end (c ∷ t) h = rw h refl

skip_literal-append :
    (s t : Bytes) → All (λ b. is_delimiter b ≡ false) s → IsEnd t → skip_literal (s ++ t) ≡ t
unfolding skip_literal
skip_literal-append [] t h e = skip_literal-end t e
skip_literal-append (c ∷ s) t h e = rw h.0 (skip_literal-append s t h.1 e)

pub skip_value_at-print :
    (v : Value) (t : Bytes) → IsValue v → IsEnd t → skip_value_at (print_value v t) ≡ some t
unfolding skip_value_at print_value IsValue
skip_value_at-print (literal c s) t h e =
    let (q, o, a) = not_started c h.0 in rw (q, o, a, h.1) (ap some (skip_literal-append s t h.2 e))
skip_value_at-print (string raw) t h e = rw (string_rest-text false raw t h) refl
skip_value_at-print (composite curly is) t h e =
    skip-items is curly 0 (b'}' ∷ t) h ∙ close_last curly t
skip_value_at-print (composite square is) t h e =
    skip-items is square 0 (b']' ∷ t) h ∙ close_last square t
