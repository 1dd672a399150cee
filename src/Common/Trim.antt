-- ===== src/Common/Trim.antt =====
-- Go's bytes.TrimSpace, bytes.TrimLeft, bytes.HasPrefix and bytes.Equal. White space is Unicode's:
-- the ASCII spaces, and the UTF-8 forms of U+0085, U+00A0, U+1680, U+2000 to U+200A, U+2028, U+2029,
-- U+202F, U+205F and U+3000.
use metering_proxy.Common.Tests.{leb, ◌==◌, if◌then◌else◌}
use metering_proxy.Common.Lists.{length}
use metering_proxy.Common.Text.{Bytes, codes}
use Prim.Native.Nat.{ℕ, ◌≤◌, ◌+◌}
use mathlib.Core.Path.{◌≡◌, refl, ◌∙◌}
use mathlib.Core.Bool.{Bool, true, false, ◌&&◌, ◌||◌}
use mathlib.Core.List.{[], ◌∷◌, reverse, reverse_aux}
use native.Mathlib.Omega.{arith}

abbrev is_space1 : ℕ → Bool
is_space1 a = (leb 9 a && leb a 13) || a == 32

abbrev is_space2 : ℕ → ℕ → Bool
is_space2 a b = a == 0xc2 && (b == 0x85 || b == 0xa0)

abbrev is_space3 : ℕ → ℕ → ℕ → Bool
is_space3 a b c =
    (a == 0xe1 && b == 0x9a && c == 0x80)
    || (a == 0xe2
        && b == 0x80
        && ((leb 0x80 c && leb c 0x8a) || c == 0xa8 || c == 0xa9 || c == 0xaf))
    || (a == 0xe2 && b == 0x81 && c == 0x9f)
    || (a == 0xe3 && b == 0x80 && c == 0x80)

module _ (two : ℕ → ℕ → Bool) (three : ℕ → ℕ → ℕ → Bool) where
  -- What is left behind the white space at the front.
  unfoldable pub trim_front : Bytes → Bytes
  trim_front [] = []
  trim_front (a ∷ []) = if is_space1 a then [] else a ∷ []
  trim_front (a ∷ b ∷ []) =
      let rest = trim_front (b ∷ []) in
      if is_space1 a then rest else if two a b then [] else a ∷ b ∷ []
  trim_front (a ∷ b ∷ c ∷ s) =
      let one_off = trim_front (b ∷ c ∷ s) in
      let two_off = trim_front (c ∷ s) in
      let three_off = trim_front s in
      if is_space1 a
      then one_off
      else if two a b
      then two_off
      else if three a b c
      then three_off
      else a ∷ b ∷ c ∷ s

  length-trim_front : (s : Bytes) → length (trim_front s) ≤ length s
  unfolding trim_front
  length-trim_front [] = omega arith
  length-trim_front (a ∷ []) = ground arith
  length-trim_front (a ∷ b ∷ []) = ground (arith, length-trim_front (b ∷ []))
  length-trim_front (a ∷ b ∷ c ∷ s) =
      ground (arith, length-trim_front (b ∷ c ∷ s), length-trim_front (c ∷ s), length-trim_front s)

unfoldable pub trim_space : Bytes → Bytes
unfolding trim_front
trim_space s = reverse (
    trim_front (λ b a. is_space2 a b) (λ c b a. is_space3 a b c)
      (reverse (trim_front is_space2 is_space3 s)))

length-reverse_aux : (s t : Bytes) → length (reverse_aux s t) ≡ length s + length t
length-reverse_aux [] t = omega arith
length-reverse_aux (a ∷ s) t = length-reverse_aux s (a ∷ t) ∙ omega arith

length-reverse : (s : Bytes) → length (reverse s) ≡ length s
length-reverse s = length-reverse_aux s [] ∙ omega arith

pub length-trim_space : (s : Bytes) → length (trim_space s) ≤ length s
unfolding trim_space
length-trim_space s =
    let front = trim_front is_space2 is_space3 s in
    let back = trim_front (λ b a. is_space2 a b) (λ c b a. is_space3 a b c) (reverse front) in
    omega (
      arith,
      length-reverse back,
      length-reverse front,
      length-trim_front (λ b a. is_space2 a b) (λ c b a. is_space3 a b c) (reverse front),
      length-trim_front is_space2 is_space3 s,
    )

unfoldable pub has_prefix : Bytes → Bytes → Bool
has_prefix s [] = true
has_prefix [] (c ∷ p) = false
has_prefix (a ∷ s) (c ∷ p) = a == c && has_prefix s p

unfoldable pub bytes_eq : Bytes → Bytes → Bool
bytes_eq [] [] = true
bytes_eq [] (c ∷ t) = false
bytes_eq (a ∷ s) [] = false
bytes_eq (a ∷ s) (c ∷ t) = a == c && bytes_eq s t

abbrev pub is_empty : Bytes → Bool
is_empty [] = true
is_empty (a ∷ s) = false

trim_example :
    trim_space (32 ∷ 9 ∷ 0xe2 ∷ 0x80 ∷ 0x83 ∷ b'a' ∷ 32 ∷ b'b' ∷ 0xc2 ∷ 0xa0 ∷ 10 ∷ [])
    ≡ codes "a b"
unfolding trim_space
trim_example = refl
