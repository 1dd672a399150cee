-- ===== src/Proxy/Scan/Fuel.antt =====
-- The scan of a composite does not depend on the fuel, from one more than the length on: it is what one
-- round and the scan of what is left say.
use metering_proxy.Common.{
  ℕ, zero, suc, ◌-◌, ◌<◌, ◌≤◌, ◌≡◌, refl, ap, ◌∙◌, Bool, true, false, Option, none, some, [], ◌∷◌,
  Bytes, length, ◌==◌, ◌>>=◌, arith,
}
use metering_proxy.Proxy.Scan.{
  string_rest, with_byte, Bracket, other, Mark, quote, opening, closing, nested, plain, mark,
  composite_step, skip_json_composite, skip_composite,
}

pub bind-some :
    {A B : Type 0} (o : Option A) (f : A → Option B) (b : B)
    → (o >>= f) ≡ some b
    → (a : A) × (o ≡ some a) × (f a ≡ some b)
bind-some none f b h = absurd (cc h)
bind-some (some a) f b h = (a, refl, h)

some_eq : {A : Type 0} {a b : A} → some a ≡ some b → a ≡ b
some_eq h = cc h

bind-same :
    {A B : Type 0} (o : Option A) (f g : A → Option B)
    → ((a : A) → o ≡ some a → f a ≡ g a)
    → (o >>= f) ≡ (o >>= g)
bind-same none f g h = refl
bind-same (some a) f g h = h a refl

with_byte-rest :
    (c : ℕ) (o : Option (Bytes × Bytes)) (p : Bytes × Bytes)
    → with_byte c o ≡ some p
    → (q : Bytes × Bytes) × (o ≡ some q) × (q.1 ≡ p.1)
with_byte-rest c none p h = absurd (cc h)
with_byte-rest c (some (raw, rest)) p h = ((raw, rest), refl, ap (λ x. x.1) (some_eq h))

pub string_rest-shorter :
    (escaped : Bool) (s : Bytes) (p : Bytes × Bytes)
    → string_rest escaped s ≡ some p
    → length p.1 < length s
unfolding string_rest
string_rest-shorter true [] p h = absurd (cc h)
string_rest-shorter false [] p h = absurd (cc h)
string_rest-shorter true (c ∷ s) p h =
    let (q, e, same) = with_byte-rest c (string_rest false s) p h in
    omega (arith, string_rest-shorter false s q e, ap length same)
string_rest-shorter false (c ∷ s) p h =
    pick (c == 92) (c == b'"') (string_rest-shorter true s) (string_rest-shorter false s) h
  where
    pick :
        (b d : Bool)
        → ((q : Bytes × Bytes) → string_rest true s ≡ some q → length q.1 < length s)
        → ((q : Bytes × Bytes) → string_rest false s ≡ some q → length q.1 < length s)
        → elim b [
          | true ↦ with_byte c (string_rest true s)
          | false ↦ elim d [ true ↦ some ([], s) | false ↦ with_byte c (string_rest false s) ]
        ]
          ≡ some p
        → length p.1 < suc (length s)
    pick true d f g k =
        let (q, e, same) = with_byte-rest c (string_rest true s) p k in
        omega (arith, f q e, ap length same)
    pick false true f g k = omega (arith, ap (λ x. length x.1) (some_eq k))
    pick false false f g k =
        let (q, e, same) = with_byte-rest c (string_rest false s) p k in
        omega (arith, g q e, ap length same)

-- A scan that leaves less than it was given.
abbrev Shortens : (Bracket → ℕ → Bytes → Option Bytes) → Type 0
Shortens self = (b : Bracket) (d : ℕ) (s r : Bytes) → self b d s ≡ some r → length r < length s

step-shorter :
    (self : Bracket → ℕ → Bytes → Option Bytes) (k : Mark) (b : Bracket) (d : ℕ) (s r : Bytes)
    → Shortens self
    → composite_step self k b d s ≡ some r
    → length r ≤ length s
unfolding composite_step
step-shorter self quote b d s r h e =
    let (p, f, g) = bind-some (string_rest false s) (λ p. self b d p.1) r e in
    omega (arith, string_rest-shorter false s p f, h b d p.1 r g)
step-shorter self opening b d s r h e = omega (arith, h b (suc d) s r e)
step-shorter self closing b d s r h e = close_or_on (d == 1) e
  where
    close_or_on :
        (last : Bool)
        → elim last [ true ↦ some s | false ↦ self b (d - 1) s ] ≡ some r
        → length r ≤ length s
    close_or_on true k = omega (arith, ap length (some_eq k))
    close_or_on false k = omega (arith, h b (d - 1) s r k)
step-shorter self nested b d s r h e =
    let (t, f, g) = bind-some (self (other b) 1 s) (λ t. self b d t) r e in
    omega (arith, h (other b) 1 s t f, h b d t r g)
step-shorter self plain b d s r h e = omega (arith, h b d s r e)

pub skip-shorter : (fuel : ℕ) → Shortens (skip_json_composite fuel)
unfolding skip_json_composite
skip-shorter zero b d s r h = absurd (cc h)
skip-shorter (suc fuel) b d [] r h = absurd (cc h)
skip-shorter (suc fuel) b d (c ∷ s) r h =
    omega (arith, step-shorter (skip_json_composite fuel) (mark b c) b d s r (skip-shorter fuel) h)

-- Two scans that agree on all that is no longer than s make the same round.
step-same :
    (f g : Bracket → ℕ → Bytes → Option Bytes) (k : Mark) (b : Bracket) (d : ℕ) (s : Bytes)
    → Shortens f
    → ((b : Bracket) (d : ℕ) (t : Bytes) → length t ≤ length s → f b d t ≡ g b d t)
    → composite_step f k b d s ≡ composite_step g k b d s
unfolding composite_step
step-same f g quote b d s h same =
    bind-same (string_rest false s) (λ p. f b d p.1) (λ p. g b d p.1)
      (λ p e. same b d p.1 (omega (arith, string_rest-shorter false s p e)))
step-same f g opening b d s h same = same b (suc d) s (omega arith)
step-same f g closing b d s h same =
    ap (λ o. elim (d == 1) [ true ↦ some s | false ↦ o ]) (same b (d - 1) s (omega arith))
step-same f g nested b d s h same =
    bind-same (f (other b) 1 s) (λ r. f b d r) (λ r. g b d r)
      (λ r e. same b d r (omega (arith, h (other b) 1 s r e)))
    ∙ ap (λ o. o >>= λ r. g b d r) (same (other b) 1 s (omega arith))
step-same f g plain b d s h same = same b d s (omega arith)

skip-fuel :
    (m n : ℕ) (b : Bracket) (d : ℕ) (s : Bytes)
    → length s < m
    → length s < n
    → skip_json_composite m b d s ≡ skip_json_composite n b d s
unfolding skip_json_composite
skip-fuel zero n b d s h k = absurd (omega (arith, h))
skip-fuel (suc m) zero b d s h k = absurd (omega (arith, k))
skip-fuel (suc m) (suc n) b d [] h k = refl
skip-fuel (suc m) (suc n) b d (c ∷ s) h k =
    step-same (skip_json_composite m) (skip_json_composite n) (mark b c) b d s (skip-shorter m)
      (λ e i t l. skip-fuel m n e i t (omega (arith, h, l)) (omega (arith, k, l)))

skip-round :
    (n : ℕ) (b : Bracket) (d c : ℕ) (s : Bytes)
    → skip_json_composite (suc n) b d (c ∷ s)
      ≡ composite_step (skip_json_composite n) (mark b c) b d s
unfolding skip_json_composite
skip-round n b d c s = refl

pub skip_composite-shorter : Shortens skip_composite
unfolding skip_composite
skip_composite-shorter b d s r h = skip-shorter (suc (length s)) b d s r h

-- The scan of a composite, without fuel.
pub skip_composite-step :
    (b : Bracket) (d c : ℕ) (s : Bytes)
    → skip_composite b d (c ∷ s) ≡ composite_step skip_composite (mark b c) b d s
unfolding skip_composite
skip_composite-step b d c s =
    skip-round (suc (length s)) b d c s
    ∙ step-same (skip_json_composite (suc (length s))) skip_composite (mark b c) b d s
        (skip-shorter (suc (length s)))
        (λ e i t l.
          skip-fuel (suc (length s)) (suc (length t)) e i t (omega (arith, l)) (omega arith))
