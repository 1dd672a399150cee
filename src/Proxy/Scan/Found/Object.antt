-- ===== src/Proxy/Scan/Found/Object.antt =====
-- findTopLevelJSONValue on the text of an object with all its fields.
use metering_proxy.Common.{
  ℕ, zero, suc, ◌<◌, ◌≤◌, ◌≡◌, refl, ap, ◌∙◌, none, some, List, [], ◌∷◌, ◌++◌, Bytes, length, ◌>>=◌,
  if◌then◌else◌, arith, All, length-append,
}
use metering_proxy.Common.Trim.{bytes_eq}
use metering_proxy.Proxy.Scan.{
  close_byte, is_delimiter, after_comma, find_field, find_in, find_top_level_json_value,
}
use metering_proxy.Proxy.Scan.Printed.{Items, end, byte, text, group, print_items}
use metering_proxy.Proxy.Scan.Found.{Value, literal, string, composite, print_value, IsEnd}
use metering_proxy.Proxy.Scan.Found.Fields.{
  Field, IsSpace, IsField, print_field, print_fields, first_value, Solid, skip_space, Solid-cons,
  bind_at, field_round,
}

-- The loop over all fields.
comma_step : (s t : Bytes) → IsSpace s → Solid t → after_comma (b',' ∷ (s ++ t)) ≡ some t
unfolding after_comma
comma_step s t h e = ap some (skip_space s t h e)

field-Solid : (f : Field) (t : Bytes) → Solid (print_field f t)
unfolding print_field
field-Solid f t = Solid-cons b'"' _ refl

fields-Solid : (f : Field) (fs : List Field) (t : Bytes) → Solid (print_fields f fs t)
unfolding print_fields
fields-Solid f [] t = field-Solid f (b'}' ∷ t)
fields-Solid f (g ∷ fs) t = field-Solid f (b',' ∷ (f.behind_comma ++ print_fields g fs t))

brace-IsEnd : (t : Bytes) → IsEnd (b'}' ∷ t)
unfolding IsEnd is_delimiter
brace-IsEnd t = refl

comma-IsEnd : (t : Bytes) → IsEnd (b',' ∷ t)
unfolding IsEnd is_delimiter
comma-IsEnd t = refl

no_comma :
    (fuel : ℕ) (key t : Bytes)
    → (after_comma (b'}' ∷ t) >>= λ rest. find_field fuel key rest) ≡ none
unfolding after_comma
no_comma fuel key t = refl

find_field-first_value :
    (fuel : ℕ) (key : Bytes) (f : Field) (fs : List Field) (t : Bytes)
    → length fs < fuel
    → IsField f
    → All IsField fs
    → find_field fuel key (print_fields f fs t) ≡ first_value key f fs t
unfolding first_value print_fields
find_field-first_value zero key f fs t l h hs = absurd (omega (arith, l))
find_field-first_value (suc fuel) key f [] t l h hs =
    field_round fuel key f (b'}' ∷ t) h (brace-IsEnd t) (Solid-cons b'}' t refl)
    ∙ ap
        (λ o.
          if bytes_eq f.key key then some (print_value f.value (f.behind_value ++ b'}' ∷ t)) else o)
        (no_comma fuel key t)
find_field-first_value (suc fuel) key f (g ∷ fs) t l h hs =
    let u = f.behind_comma ++ print_fields g fs t in
    field_round fuel key f (b',' ∷ u) h (comma-IsEnd u) (Solid-cons b',' u refl)
    ∙ ap
        (λ o.
          if bytes_eq f.key key then some (print_value f.value (f.behind_value ++ b',' ∷ u)) else o)
        (bind_at _ _ _ _
          (comma_step f.behind_comma (print_fields g fs t) h.comma_space (fields-Solid g fs t))
          (find_field-first_value fuel key g fs t (omega (arith, l)) hs.0 hs.1))

-- Each field takes a byte or more.
longer : (s t : Bytes) → length t ≤ length (s ++ t)
longer s t = omega (arith, length-append s t)

items_longer : (is : Items) (t : Bytes) → length t ≤ length (print_items is t)
unfolding print_items
items_longer end t = omega arith
items_longer (byte c is) t = omega (arith, items_longer is t)
items_longer (text raw is) t =
    omega (arith, longer raw (b'"' ∷ print_items is t), items_longer is t)
items_longer (group b inner is) t =
    omega (arith, items_longer inner (close_byte b ∷ print_items is t), items_longer is t)

value_longer : (v : Value) (t : Bytes) → length t ≤ length (print_value v t)
unfolding print_value
value_longer (literal c s) t = omega (arith, longer s t)
value_longer (string raw) t = omega (arith, longer raw (b'"' ∷ t))
value_longer (composite b is) t = omega (arith, items_longer is (close_byte b ∷ t))

field_longer : (f : Field) (t : Bytes) → length t < length (print_field f t)
unfolding print_field
field_longer f t =
    let v = f.behind_value ++ t in
    let u = f.behind_colon ++ print_value f.value v in
    omega (
      arith,
      longer f.key (b'"' ∷ (f.behind_key ++ b':' ∷ u)),
      longer f.behind_key (b':' ∷ u),
      longer f.behind_colon (print_value f.value v),
      value_longer f.value v,
      longer f.behind_value t,
    )

fields_longer : (f : Field) (fs : List Field) (t : Bytes) → length fs < length (print_fields f fs t)
unfolding print_fields
fields_longer f [] t = omega (arith, field_longer f (b'}' ∷ t))
fields_longer f (g ∷ fs) t = omega (
  arith,
  field_longer f (b',' ∷ (f.behind_comma ++ print_fields g fs t)),
  longer f.behind_comma (print_fields g fs t),
  fields_longer g fs t,
)

find_in-fields :
    (key gap : Bytes) (f : Field) (fs : List Field) (t : Bytes)
    → IsSpace gap
    → IsField f
    → All IsField fs
    → find_in key (b'{' ∷ (gap ++ print_fields f fs t)) ≡ first_value key f fs t
unfolding find_in
find_in-fields key gap f fs t e h hs =
    ap (find_field (suc (length (gap ++ print_fields f fs t))) key)
      (skip_space gap (print_fields f fs t) e (fields-Solid f fs t))
    ∙ find_field-first_value (suc (length (gap ++ print_fields f fs t))) key f fs t
        (omega (arith, fields_longer f fs t, longer gap (print_fields f fs t))) h hs

-- In the text of an object with a field or more, with white space wherever JSON allows it, nested
-- values of any depth and whatever follows the object, findTopLevelJSONValue finds the value of the
-- first field whose key has the bytes that are looked for, and no value where no field has them.
pub find_top_level_json_value-first_value :
    (key front gap : Bytes) (f : Field) (fs : List Field) (t : Bytes)
    → IsSpace front
    → IsSpace gap
    → IsField f
    → All IsField fs
    → find_top_level_json_value (front ++ b'{' ∷ (gap ++ print_fields f fs t)) key
      ≡ first_value key f fs t
unfolding find_top_level_json_value
find_top_level_json_value-first_value key front gap f fs t d e h hs =
    ap (find_in key)
      (skip_space front (b'{' ∷ (gap ++ print_fields f fs t)) d (Solid-cons b'{' _ refl))
    ∙ find_in-fields key gap f fs t e h hs
