-- ===== src/Common/Decimal.antt =====
-- Go's decimal texts: %d of fmt, strconv.FormatInt, strconv.Atoi and strconv.ParseInt in base 10.
use metering_proxy.Common.Tests.{ltb, leb, ◌==◌, if◌then◌else◌, ◌>>=◌, Bool-cases}
use metering_proxy.Common.Lists.{length, length-append, All}
use metering_proxy.Common.Text.{Bytes}
use metering_proxy.Common.Int64.{ℤ, pos, negsuc}
use Prim.Native.Nat.{ℕ, zero, suc, ◌+◌, ◌-◌, ◌*◌, ◌/◌, ◌%◌, ◌^◌, ◌<◌}
use mathlib.Core.Path.{◌≡◌, refl, ap, ◌∙◌}
use mathlib.Core.Logic.{inl, inr}
use mathlib.Core.Bool.{Bool, true, false, ◌&&◌}
use mathlib.Core.Option.{Option, none, some}
use mathlib.Core.List.{[], ◌∷◌, ◌++◌}
use native.Mathlib.Omega.{arith}

-- The digits of a number below the fuel; a round divides it by ten.
digits : ℕ → ℕ → Bytes
digits zero n = []
digits (suc fuel) n =
    let front = digits fuel (n / 10) in
    if ltb n 10 then (n + 48) ∷ [] else front ++ (n % 10 + 48) ∷ []

unfoldable pub print : ℕ → Bytes
unfolding digits
print n = digits (suc n) n

unfoldable pub print_ℤ : ℤ → Bytes
unfolding print
print_ℤ (pos n) = print n
print_ℤ (negsuc n) = b'-' ∷ print (suc n)

abbrev pub is_digit : ℕ → Bool
is_digit c = leb 48 c && leb c 57

-- The value of digits read from the left; `none` where a byte is no digit.
unfoldable pub digits_value : ℕ → Bytes → Option ℕ
digits_value acc [] = some acc
digits_value acc (c ∷ s) =
    let rest = digits_value (acc * 10 + (c - 48)) s in if is_digit c then rest else none

unfoldable pub unsigned_value : Bytes → Option ℕ
unfolding digits_value
unsigned_value [] = none
unsigned_value (c ∷ s) = digits_value 0 (c ∷ s)

unfoldable pub negated : ℕ → ℤ
negated zero = pos 0
negated (suc n) = negsuc n

-- A text read as a number of any size: an optional sign, and digits.
unfoldable pub signed_value : Bytes → Option ℤ
unfolding unsigned_value negated
signed_value [] = none
signed_value (c ∷ s) =
    if c == b'-'
    then (unsigned_value s >>= λ n. some (negated n))
    else if c == b'+'
    then (unsigned_value s >>= λ n. some (pos n))
    else unsigned_value (c ∷ s) >>= λ n. some (pos n)

in_int64 : ℤ → Bool
in_int64 (pos n) = ltb n (2 ^ 63)
in_int64 (negsuc n) = ltb n (2 ^ 63)

-- strconv.Atoi: `none` is an error.
unfoldable pub atoi : Bytes → Option ℤ
unfolding signed_value in_int64
atoi s = signed_value s >>= λ v. if in_int64 v then some v else none

-- strconv.ParseInt where the error is dropped: 0 for no number, and the nearest int64 otherwise.
clamped : ℤ → ℤ
clamped (pos n) = if ltb n (2 ^ 63) then pos n else pos (2 ^ 63 - 1)
clamped (negsuc n) = if ltb n (2 ^ 63) then negsuc n else negsuc (2 ^ 63 - 1)

unfoldable pub parse_int : Bytes → ℤ
unfolding signed_value clamped
parse_int s = elim (signed_value s) [ none ↦ pos 0 | some v ↦ clamped v ]

-- A digit more at the end.
digits_value-append :
    (acc v c : ℕ) (s : Bytes)
    → digits_value acc s ≡ some v
    → is_digit c ≡ true
    → digits_value acc (s ++ c ∷ []) ≡ some (v * 10 + (c - 48))
unfolding digits_value
digits_value-append acc v c [] h d = ground arith
digits_value-append acc v c (b ∷ s) h d =
    ground (arith, digits_value-append (acc * 10 + (b - 48)) v c s)

digits_value-digits : (fuel n : ℕ) → n < fuel → digits_value 0 (digits fuel n) ≡ some n
unfolding digits
digits_value-digits zero n h = absurd (omega arith)
digits_value-digits (suc fuel) n h = elim (Bool-cases (ltb n 10)) [
  | inl e ↦ rw e (unfold digits_value in ground arith)
  | inr e ↦ rw e (
      digits_value-append 0 (n / 10) (n % 10 + 48) (digits fuel (n / 10))
        (digits_value-digits fuel (n / 10) (ground arith)) (ground arith)
      ∙ ap some (ground arith))
]

pub digits_value-print : (n : ℕ) → digits_value 0 (print n) ≡ some n
unfolding print
digits_value-print n = digits_value-digits (suc n) n (omega arith)

abbrev pub IsDigits : Bytes → Type 0
IsDigits = All (λ c. is_digit c ≡ true)

IsDigits-append : (s : Bytes) (c : ℕ) → IsDigits s → is_digit c ≡ true → IsDigits (s ++ c ∷ [])
IsDigits-append [] c h d = (d, tt)
IsDigits-append (b ∷ s) c (e, h) d = (e, IsDigits-append s c h d)

digits-IsDigits : (fuel n : ℕ) → IsDigits (digits fuel n)
unfolding digits
digits-IsDigits zero n = tt
digits-IsDigits (suc fuel) n = elim (Bool-cases (ltb n 10)) [
  | inl e ↦ rw e (ground arith, tt)
  | inr e ↦ rw e (
      IsDigits-append (digits fuel (n / 10)) (n % 10 + 48) (digits-IsDigits fuel (n / 10))
        (ground arith))
]

pub print-IsDigits : (n : ℕ) → IsDigits (print n)
unfolding print
print-IsDigits n = digits-IsDigits (suc n) n

digits_pos : (fuel n : ℕ) → 0 < length (digits (suc fuel) n)
unfolding digits
digits_pos fuel n = elim (Bool-cases (ltb n 10)) [
  | inl e ↦ rw e (omega arith)
  | inr e ↦ rw e (omega (arith, length-append (digits fuel (n / 10)) ((n % 10 + 48) ∷ [])))
]

signed_value-IsDigits :
    (s : Bytes) (n : ℕ)
    → IsDigits s
    → 0 < length s
    → digits_value 0 s ≡ some n
    → signed_value s ≡ some (pos n)
unfolding signed_value
signed_value-IsDigits [] n h p e = absurd (omega arith)
signed_value-IsDigits (c ∷ s) n (d, h) p e =
    let minus : (c == b'-') ≡ false = ground arith in
    let plus : (c == b'+') ≡ false = ground arith in rw (minus, plus, e) refl

pub signed_value-print : (n : ℕ) → signed_value (print n) ≡ some (pos n)
signed_value-print n =
    signed_value-IsDigits (print n) n (print-IsDigits n) (unfold print in digits_pos n n)
      (digits_value-print n)

-- Reading back what %d wrote.
pub atoi-print : (n : ℕ) → n < 2 ^ 63 → atoi (print n) ≡ some (pos n)
unfolding atoi
atoi-print n h = rw (signed_value-print n) (ground arith)
