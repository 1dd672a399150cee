-- ===== src/Proxy/Scan/Found/Fields.antt =====
-- The fields of an object, and which of them findTopLevelJSONValue finds.
use metering_proxy.Common.{
  ℕ, suc, ◌≡◌, refl, ap, ◌∙◌, Bool, true, false, Option, none, some, List, [], ◌∷◌, ◌++◌, Bytes,
  ◌>>=◌, if◌then◌else◌, arith, All,
}
use metering_proxy.Common.Trim.{bytes_eq}
use metering_proxy.Proxy.Scan.{
  is_json_space, skip_json_whitespace, scan_json_string_end, curly, square, is_delimiter,
  skip_value_at, skip_json_value_bytes, after_colon, after_comma, find_field,
}
use metering_proxy.Proxy.Scan.Printed.{is_escaped, string_rest-text}
use metering_proxy.Proxy.Scan.Found.{
  Value, literal, string, composite, print_value, IsValue, IsEnd, skip_value_at-print,
}

-- A field, with the white space behind its key, its colon and its value, and behind the comma that may
-- follow.
pub record Field : Type 0 where
  pub key : Bytes
  pub behind_key : Bytes
  pub behind_colon : Bytes
  pub value : Value
  pub behind_value : Bytes
  pub behind_comma : Bytes

abbrev pub IsSpace : Bytes → Type 0
IsSpace s = All (λ c. is_json_space c ≡ true) s

pub record IsField (f : Field) : Type 0 where
  pub key_escaped : is_escaped false f.key ≡ true
  pub value_whole : IsValue f.value
  pub key_space : IsSpace f.behind_key
  pub colon_space : IsSpace f.behind_colon
  pub value_space : IsSpace f.behind_value
  pub comma_space : IsSpace f.behind_comma

unfoldable pub print_field : Field → Bytes → Bytes
unfolding print_value
print_field f t =
    b'"'
    ∷ (f.key
        ++ b'"'
          ∷ (f.behind_key ++ b':' ∷ (f.behind_colon ++ print_value f.value (f.behind_value ++ t))))

-- The first field and the others, up to the end of the object and what follows it.
unfoldable pub print_fields : Field → List Field → Bytes → Bytes
unfolding print_field
print_fields f [] t = print_field f (b'}' ∷ t)
print_fields f (g ∷ fs) t = print_field f (b',' ∷ (f.behind_comma ++ print_fields g fs t))

-- The value of the first field with the key, with all that follows the value.
unfoldable pub first_value : Bytes → Field → List Field → Bytes → Option Bytes
unfolding print_value print_fields bytes_eq
first_value key f [] t =
    if bytes_eq f.key key then some (print_value f.value (f.behind_value ++ b'}' ∷ t)) else none
first_value key f (g ∷ fs) t =
    let rest = first_value key g fs t in
    if bytes_eq f.key key
    then some
        (print_value f.value (f.behind_value ++ b',' ∷ (f.behind_comma ++ print_fields g fs t)))
    else rest

-- A text that does not start with white space.
abbrev pub Solid : Bytes → Type 0
Solid t = skip_json_whitespace t ≡ t

pub skip_space : (s t : Bytes) → IsSpace s → Solid t → skip_json_whitespace (s ++ t) ≡ t
unfolding skip_json_whitespace
skip_space [] t h e = e
skip_space (c ∷ s) t h e = rw h.0 (skip_space s t h.1 e)

pub Solid-cons : (c : ℕ) (t : Bytes) → is_json_space c ≡ false → Solid (c ∷ t)
unfolding skip_json_whitespace
Solid-cons c t h = rw h refl

not_space : (c : ℕ) → is_delimiter c ≡ false → is_json_space c ≡ false
unfolding is_delimiter
not_space c h = ground arith

value-Solid : (v : Value) (t : Bytes) → IsValue v → Solid (print_value v t)
unfolding print_value IsValue
value-Solid (literal c s) t h = Solid-cons c (s ++ t) (not_space c h.1)
value-Solid (string raw) t h = Solid-cons b'"' (raw ++ b'"' ∷ t) refl
value-Solid (composite curly is) t h = Solid-cons b'{' _ refl
value-Solid (composite square is) t h = Solid-cons b'[' _ refl

space_delimits : (c : ℕ) → is_json_space c ≡ true → is_delimiter c ≡ true
unfolding is_delimiter
space_delimits c h = ground arith

space-IsEnd : (s t : Bytes) → IsSpace s → IsEnd t → IsEnd (s ++ t)
unfolding IsEnd is_delimiter
space-IsEnd [] t h e = e
space-IsEnd (c ∷ s) t h e = space_delimits c h.0

pub bind_at :
    {A B : Type 0} (o : Option A) (a : A) (f : A → Option B) (r : Option B)
    → o ≡ some a
    → f a ≡ r
    → (o >>= f) ≡ r
bind_at o a f r h e = ap (λ x. x >>= f) h ∙ e

scan_key :
    (f : Field) (t : Bytes)
    → IsField f
    → scan_json_string_end (print_field f t)
      ≡ some (
        f.key,
        f.behind_key ++ b':' ∷ (f.behind_colon ++ print_value f.value (f.behind_value ++ t)),
      )
unfolding scan_json_string_end print_field
scan_key f t h =
    string_rest-text false f.key
      (f.behind_key ++ b':' ∷ (f.behind_colon ++ print_value f.value (f.behind_value ++ t)))
      h.key_escaped

colon_step : (s t : Bytes) → IsSpace s → Solid t → after_colon (b':' ∷ (s ++ t)) ≡ some t
unfolding after_colon
colon_step s t h e = ap some (skip_space s t h e)

to_value :
    (f : Field) (t : Bytes)
    → IsField f
    → after_colon (
        skip_json_whitespace
          (f.behind_key ++ b':' ∷ (f.behind_colon ++ print_value f.value (f.behind_value ++ t))))
      ≡ some (print_value f.value (f.behind_value ++ t))
to_value f t h =
    let v = print_value f.value (f.behind_value ++ t) in
    ap after_colon (
      skip_space f.behind_key (b':' ∷ (f.behind_colon ++ v)) h.key_space
        (Solid-cons b':' (f.behind_colon ++ v) refl))
    ∙ colon_step f.behind_colon v h.colon_space
        (value-Solid f.value (f.behind_value ++ t) h.value_whole)

past_value :
    (f : Field) (t : Bytes)
    → IsField f
    → IsEnd t
    → skip_json_value_bytes (print_value f.value (f.behind_value ++ t)) ≡ some (f.behind_value ++ t)
unfolding skip_json_value_bytes
past_value f t h e =
    ap skip_value_at (value-Solid f.value (f.behind_value ++ t) h.value_whole)
    ∙ skip_value_at-print f.value (f.behind_value ++ t) h.value_whole
        (space-IsEnd f.behind_value t h.value_space e)

-- One round of the loop of findTopLevelJSONValue at a field.
pub field_round :
    (fuel : ℕ) (key : Bytes) (f : Field) (t : Bytes)
    → IsField f
    → IsEnd t
    → Solid t
    → find_field (suc fuel) key (print_field f t) ≡ (
        if bytes_eq f.key key
        then some (print_value f.value (f.behind_value ++ t))
        else (after_comma t >>= λ rest. find_field fuel key rest))
unfolding find_field
field_round fuel key f t h e s =
    bind_at _ _ _ _ (scan_key f t h)
      (bind_at _ _ _ _ (to_value f t h) (on_key (bytes_eq f.key key)))
  where
    on_key :
        (same : Bool)
        → elim same [
          | true ↦ some (print_value f.value (f.behind_value ++ t))
          | false ↦ skip_json_value_bytes (print_value f.value (f.behind_value ++ t)) >>= λ next.
              after_comma (skip_json_whitespace next) >>= λ rest. find_field fuel key rest
        ]
          ≡ (if same
              then some (print_value f.value (f.behind_value ++ t))
              else (after_comma t >>= λ rest. find_field fuel key rest))
    on_key true = refl
    on_key false = bind_at _ _ _ _ (past_value f t h e) (
        ap (λ u. after_comma u >>= λ rest. find_field fuel key rest)
          (skip_space f.behind_value t h.value_space s))
