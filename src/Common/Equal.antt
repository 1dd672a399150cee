-- ===== src/Common/Equal.antt =====
-- The equality test of Go strings as the tables and profiles use it, against equality.
use metering_proxy.Common.{
  Bool, true, false, ◌&&◌, ◌≡◌, ◌≢◌, refl, ap, ap₂, [], ◌∷◌, Bytes, ◌==◌, ==→eq, eq→==,
}
use metering_proxy.Common.Trim.{bytes_eq}

pub both : (a b : Bool) → (a && b) ≡ true → (a ≡ true) × (b ≡ true)
both true b h = (refl, h)
both false b h = absurd (cc h)

pub bytes_eq-≡ : (s t : Bytes) → bytes_eq s t ≡ true → s ≡ t
unfolding bytes_eq
bytes_eq-≡ [] [] h = refl
bytes_eq-≡ [] (c ∷ t) h = absurd (cc h)
bytes_eq-≡ (a ∷ s) [] h = absurd (cc h)
bytes_eq-≡ (a ∷ s) (c ∷ t) h =
    let (e, f) = both (a == c) (bytes_eq s t) h in
    ap₂ (λ x y. x ∷ y) (==→eq a c e) (bytes_eq-≡ s t f)

pub bytes_eq_refl : (s : Bytes) → bytes_eq s s ≡ true
unfolding bytes_eq
bytes_eq_refl [] = refl
bytes_eq_refl (a ∷ s) = rw (eq→== a a refl) (bytes_eq_refl s)

pub bytes_eq-≢ : (s t : Bytes) → bytes_eq s t ≡ false → s ≢ t
bytes_eq-≢ s t h e = cc (bytes_eq_refl s, h, ap (bytes_eq s) e)
