-- ===== src/Proxy/Scan/Lookup/Escapes.antt =====
-- topLevelJSONString against a writer of strings that escapes quotes and backslashes.
use metering_proxy.Common.{
  ℕ, ◌≡◌, refl, ap, sym, ◌∙◌, Bool, true, false, ◌||◌, Option, none, some, List, [], ◌∷◌, ◌++◌,
  Bytes, ◌==◌, if◌then◌else◌, arith, All,
}
use metering_proxy.Proxy.Scan.{scan_json_string_end, find_top_level_json_value}
use metering_proxy.Proxy.Scan.Found.{string, print_value}
use metering_proxy.Proxy.Scan.Found.Fields.{Field, IsField, IsSpace, print_fields, first_value}
use metering_proxy.Proxy.Scan.Found.Object.{find_top_level_json_value-first_value}
use metering_proxy.Proxy.Scan.Printed.{is_escaped, string_rest-text}
use metering_proxy.Proxy.Scan.Lookup.{
  escape, cons_byte, unescape, has_backslash, top_level_json_string,
}

abbrev is_special : ℕ → Bool
is_special c = c == b'"' || c == 92

unfoldable pub escape_text : Bytes → Bytes
escape_text [] = []
escape_text (c ∷ s) = let rest = escape_text s in if is_special c then 92 ∷ c ∷ rest else c ∷ rest

special-escape : (c : ℕ) → is_special c ≡ true → escape c ≡ some c
unfolding escape
special-escape c h = rw h refl

unescape_nil : unescape [] ≡ some []
unfolding unescape
unescape_nil = refl

cons_some : (c : ℕ) (s : Bytes) (o : Option Bytes) → o ≡ some s → cons_byte c o ≡ some (c ∷ s)
unfolding cons_byte
cons_some c s o h = ap (cons_byte c) h

neither : (a b : Bool) → (a || b) ≡ false → (a ≡ false) × (b ≡ false)
neither a b h = ground arith

unescape_plain :
    (c : ℕ) (s : Bytes) → (c == 92) ≡ false → unescape (c ∷ s) ≡ cons_byte c (unescape s)
unfolding unescape cons_byte
unescape_plain c [] h = rw h refl
unescape_plain c (e ∷ s) h = rw (unescape, h) refl

unescape_special :
    (c : ℕ) (s : Bytes) → is_special c ≡ true → unescape (92 ∷ c ∷ s) ≡ cons_byte c (unescape s)
unfolding unescape
unescape_special c s h =
    ap (λ o. elim o [ none ↦ none | some b ↦ cons_byte b (unescape s) ]) (special-escape c h)

not_backslash : (c : ℕ) → is_special c ≡ false → ((c == 92) ≡ false) × ((c == b'"') ≡ false)
not_backslash c h = ground arith

unescape-escape_text : (s : Bytes) → unescape (escape_text s) ≡ some s
unfolding escape_text
unescape-escape_text [] = unescape_nil
unescape-escape_text (c ∷ s) = on_byte (is_special c) refl (unescape-escape_text s)
  where
    on_byte :
        (b : Bool)
        → is_special c ≡ b
        → unescape (escape_text s) ≡ some s
        → unescape (if b then 92 ∷ c ∷ escape_text s else c ∷ escape_text s) ≡ some (c ∷ s)
    on_byte true e h =
        unescape_special c (escape_text s) e ∙ cons_some c s (unescape (escape_text s)) h
    on_byte false e h =
        unescape_plain c (escape_text s) (not_backslash c e).0
        ∙ cons_some c s (unescape (escape_text s)) h

plain_byte :
    (c : ℕ) (s : Bytes)
    → (c == 92) ≡ false
    → (c == b'"') ≡ false
    → is_escaped false (c ∷ s) ≡ is_escaped false s
unfolding is_escaped
plain_byte c s h k = passes (c == 92) (c == b'"') h k
  where
    passes :
        (a b : Bool)
        → a ≡ false
        → b ≡ false
        → elim a [
          | true ↦ is_escaped true s
          | false ↦ elim b [ true ↦ false | false ↦ is_escaped false s ]
        ]
          ≡ is_escaped false s
    passes true b e f = absurd (cc e)
    passes false true e f = absurd (cc f)
    passes false false e f = refl

escape_text-is_escaped : (s : Bytes) → is_escaped false (escape_text s) ≡ true
unfolding escape_text is_escaped
escape_text-is_escaped [] = refl
escape_text-is_escaped (c ∷ s) = on_byte (is_special c) refl (escape_text-is_escaped s)
  where
    on_byte :
        (b : Bool)
        → is_special c ≡ b
        → is_escaped false (escape_text s) ≡ true
        → is_escaped false (if b then 92 ∷ c ∷ escape_text s else c ∷ escape_text s) ≡ true
    on_byte true e h = h
    on_byte false e h = plain_byte c (escape_text s) (not_backslash c e).0 (not_backslash c e).1 ∙ h

unescape-no_backslash : (s : Bytes) → has_backslash s ≡ false → unescape s ≡ some s
unfolding has_backslash
unescape-no_backslash [] h = unescape_nil
unescape-no_backslash (c ∷ s) h =
    let (e, f) = neither (c == 92) (has_backslash s) h in
    unescape_plain c s e ∙ cons_some c s (unescape s) (unescape-no_backslash s f)

-- The content that is read where a string is found.
string_found :
    (body key s u : Bytes)
    → find_top_level_json_value body key ≡ some (print_value (string (escape_text s)) u)
    → top_level_json_string body key ≡ some s
unfolding top_level_json_string print_value scan_json_string_end
string_found body key s u h =
    let r = escape_text s in
    rw (h, string_rest-text false r u (escape_text-is_escaped s)) (either (has_backslash r) refl)
  where
    either :
        (b : Bool)
        → has_backslash (escape_text s) ≡ b
        → (if b then unescape (escape_text s) else some (escape_text s)) ≡ some s
    either true e = unescape-escape_text s
    either false e = sym (unescape-no_backslash (escape_text s) e) ∙ unescape-escape_text s

-- A string that is written into a field of an object, with its quotes and backslashes escaped, is what
-- topLevelJSONString returns for the field's key, whatever bytes it holds and whatever the other fields
-- are, where no field before it has the key.
pub top_level_json_string-escape_text :
    (key front gap : Bytes) (f : Field) (fs : List Field) (t s u : Bytes)
    → IsSpace front
    → IsSpace gap
    → IsField f
    → All IsField fs
    → first_value key f fs t ≡ some (print_value (string (escape_text s)) u)
    → top_level_json_string (front ++ b'{' ∷ (gap ++ print_fields f fs t)) key ≡ some s
top_level_json_string-escape_text key front gap f fs t s u d e h hs v =
    string_found (front ++ b'{' ∷ (gap ++ print_fields f fs t)) key s u
      (find_top_level_json_value-first_value key front gap f fs t d e h hs ∙ v)
