-- ===== src/Proxy/Scan/Printed.antt =====
-- Texts of JSON, as what they are made of, and how the scanners pass over them. Inside a composite only
-- the strings and the brackets matter: all else, white space too, is bytes.
use metering_proxy.Common.{
  ℕ, suc, ◌-◌, ◌≡◌, refl, ap, ◌∙◌, Bool, true, false, not, some, [], ◌∷◌, ◌++◌, Bytes, ◌==◌, ◌>>=◌,
  arith, ne→==,
}
use metering_proxy.Proxy.Scan.{
  string_rest, with_byte, Bracket, curly, square, open_byte, close_byte, other, quote, opening,
  closing, nested, plain, mark, composite_step, skip_composite,
}
use metering_proxy.Proxy.Scan.Fuel.{skip_composite-step}

-- What stands between two brackets.
pub data Items : Type 0 where
  end : Items
  byte : ℕ → Items → Items
  text : Bytes → Items → Items
  group : Bracket → Items → Items → Items

-- The bytes, with those that follow.
unfoldable pub print_items : Items → Bytes → Bytes
print_items end t = t
print_items (byte c is) t = c ∷ print_items is t
print_items (text raw is) t = b'"' ∷ (raw ++ b'"' ∷ print_items is t)
print_items (group b inner is) t = open_byte b ∷ print_items inner (close_byte b ∷ print_items is t)

-- The content of a string: each quote in it is escaped, and its last byte escapes nothing.
unfoldable pub is_escaped : Bool → Bytes → Bool
is_escaped escaped [] = not escaped
is_escaped true (c ∷ s) = is_escaped false s
is_escaped false (c ∷ s) = elim (c == 92) [
  | true ↦ is_escaped true s
  | false ↦ elim (c == b'"') [ true ↦ false | false ↦ is_escaped false s ]
]

unfoldable pub IsItems : Items → Type 0
unfolding is_escaped mark
IsItems end = Unit
IsItems (byte c is) = ((b : Bracket) → mark b c ≡ plain) × IsItems is
IsItems (text raw is) = (is_escaped false raw ≡ true) × IsItems is
IsItems (group b inner is) = IsItems inner × IsItems is

pub string_rest-text :
    (escaped : Bool) (raw t : Bytes)
    → is_escaped escaped raw ≡ true
    → string_rest escaped (raw ++ b'"' ∷ t) ≡ some (raw, t)
unfolding string_rest is_escaped
string_rest-text true [] t h = absurd (cc h)
string_rest-text false [] t h = refl
string_rest-text true (c ∷ raw) t h = ap (with_byte c) (string_rest-text false raw t h)
string_rest-text false (c ∷ raw) t h =
    on_byte (c == 92) (c == b'"') (λ k. string_rest-text true raw t k)
      (λ k. string_rest-text false raw t k) h
  where
    on_byte :
        (b d : Bool)
        → (is_escaped true raw ≡ true → string_rest true (raw ++ b'"' ∷ t) ≡ some (raw, t))
        → (is_escaped false raw ≡ true → string_rest false (raw ++ b'"' ∷ t) ≡ some (raw, t))
        → elim b [
          | true ↦ is_escaped true raw
          | false ↦ elim d [ true ↦ false | false ↦ is_escaped false raw ]
        ]
          ≡ true
        → elim b [
          | true ↦ with_byte c (string_rest true (raw ++ b'"' ∷ t))
          | false ↦ elim d [
            | true ↦ some ([], raw ++ b'"' ∷ t)
            | false ↦ with_byte c (string_rest false (raw ++ b'"' ∷ t))
          ]
        ]
          ≡ some (c ∷ raw, t)
    on_byte true d f g k = ap (with_byte c) (f k)
    on_byte false true f g k = absurd (cc k)
    on_byte false false f g k = ap (with_byte c) (g k)

-- The brackets of a composite of the other kind.
mark-nested : (b : Bracket) → mark b (open_byte (other b)) ≡ nested
unfolding mark
mark-nested curly = refl
mark-nested square = refl

mark-opening : (b : Bracket) → mark b (open_byte b) ≡ opening
unfolding mark
mark-opening curly = refl
mark-opening square = refl

mark-closing : (b : Bracket) → mark b (close_byte b) ≡ closing
unfolding mark
mark-closing curly = refl
mark-closing square = refl

mark-quote : (b : Bracket) → mark b b'"' ≡ quote
unfolding mark
mark-quote b = refl

pub close_last : (b : Bracket) (t : Bytes) → skip_composite b 1 (close_byte b ∷ t) ≡ some t
unfolding composite_step
close_last b t = skip_composite-step b 1 (close_byte b) t ∙ rw (mark-closing b) refl

close_inner :
    (b : Bracket) (d : ℕ) (t : Bytes)
    → skip_composite b (suc (suc d)) (close_byte b ∷ t) ≡ skip_composite b (suc d) t
unfolding composite_step
close_inner b d t =
    skip_composite-step b (suc (suc d)) (close_byte b) t ∙ rw (mark-closing b) (later d)
  where
    later :
        (d : ℕ)
        → elim (suc (suc d) == 1) [ true ↦ some t | false ↦ skip_composite b (suc (suc d) - 1) t ]
          ≡ skip_composite b (suc d) t
    later d =
        let e : (suc (suc d) == 1) ≡ false =
          ne→== (suc (suc d)) 1 (λ k. absurd (omega (arith, k))) in
        let f : suc (suc d) - 1 ≡ suc d = omega arith in rw (e, f) refl

same_kind :
    (b : Bracket) (d : ℕ) (s t : Bytes)
    → ((k : ℕ) → skip_composite b (suc k) s ≡ skip_composite b (suc k) (close_byte b ∷ t))
    → skip_composite b (suc d) (open_byte b ∷ s) ≡ skip_composite b (suc d) t
unfolding composite_step
same_kind b d s t h =
    skip_composite-step b (suc d) (open_byte b) s
    ∙ rw (mark-opening b) (h (suc d) ∙ close_inner b d t)

other_kind :
    (b : Bracket) (d : ℕ) (s t : Bytes)
    → ((k : ℕ)
        → skip_composite (other b) (suc k) s
          ≡ skip_composite (other b) (suc k) (close_byte (other b) ∷ t))
    → skip_composite b (suc d) (open_byte (other b) ∷ s) ≡ skip_composite b (suc d) t
unfolding composite_step
other_kind b d s t h =
    skip_composite-step b (suc d) (open_byte (other b)) s
    ∙ rw (mark-nested b)
        (ap (λ o. o >>= λ r. skip_composite b (suc d) r) (h 0 ∙ close_last (other b) t))

-- A bracketed group, whose inside the scan passes over at every depth.
group_of :
    (b e : Bracket) (d : ℕ) (s t : Bytes)
    → ((k : ℕ) → skip_composite e (suc k) s ≡ skip_composite e (suc k) (close_byte e ∷ t))
    → skip_composite b (suc d) (open_byte e ∷ s) ≡ skip_composite b (suc d) t
group_of curly curly d s t h = same_kind curly d s t h
group_of square square d s t h = same_kind square d s t h
group_of curly square d s t h = other_kind curly d s t h
group_of square curly d s t h = other_kind square d s t h

text_step :
    (b : Bracket) (d : ℕ) (raw u : Bytes)
    → string_rest false (raw ++ b'"' ∷ u) ≡ some (raw, u)
    → skip_composite b (suc d) (b'"' ∷ (raw ++ b'"' ∷ u)) ≡ skip_composite b (suc d) u
unfolding composite_step
text_step b d raw u h =
    skip_composite-step b (suc d) b'"' (raw ++ b'"' ∷ u) ∙ rw (mark-quote b, h) refl

-- The scan of a composite passes over what stands in it.
pub skip-items :
    (is : Items) (b : Bracket) (d : ℕ) (t : Bytes)
    → IsItems is
    → skip_composite b (suc d) (print_items is t) ≡ skip_composite b (suc d) t
unfolding composite_step print_items IsItems
skip-items end b d t h = refl
skip-items (byte c is) b d t h =
    skip_composite-step b (suc d) c (print_items is t) ∙ rw (h.0 b) (skip-items is b d t h.1)
skip-items (text raw is) b d t h =
    text_step b d raw (print_items is t) (string_rest-text false raw (print_items is t) h.0)
    ∙ skip-items is b d t h.1
skip-items (group e inner is) b d t h =
    group_of b e d (print_items inner (close_byte e ∷ print_items is t)) (print_items is t)
      (λ k. skip-items inner e k (close_byte e ∷ print_items is t) h.0)
    ∙ skip-items is b d t h.1
