-- ===== src/Sample/Limited.antt =====
-- internal/proxy/proxy.go, limitedBuffer: the first `max` bytes of what is written. `max` is a
-- configured size, not negative. The capacity hint of newLimitedBuffer is not state and is left out.
use metering_proxy.Common.{
  ℕ, ◌-◌, ◌≡◌, ap, Bool, true, false, Bool-cases, inl, inr, List, [], ◌∷◌, ◌++◌, Bytes, length,
  take, take-append, take-all, length-append, append-nil, take-none, take-more, append_assoc, ltb,
  arith, if◌then◌else◌,
}

pub record LimitedBuffer : Type 0 where
  pub buf : Bytes
  pub max : ℕ
  pub overflow : Bool

abbrev pub new_limited_buffer : ℕ → LimitedBuffer
new_limited_buffer max = record { buf = []; max = max; overflow = false }

-- Write: the new buffer, and the count that it reports.
unfoldable pub write : LimitedBuffer → Bytes → LimitedBuffer × ℕ
write lb p =
    let need = lb.max - length lb.buf in
    if lb.overflow
    then (lb, length p)
    else if ltb need (length p)
    then (record lb { buf = lb.buf ++ take need p; overflow = true }, length p)
    else (record lb { buf = lb.buf ++ p }, length p)

unfoldable pub write_all : LimitedBuffer → List Bytes → LimitedBuffer
write_all lb [] = lb
write_all lb (p ∷ ps) = write_all (write lb p).0 ps

abbrev pub concat : List Bytes → Bytes
concat [] = []
concat (p ∷ ps) = p ++ concat ps

-- The buffer after the bytes `s`.
abbrev state : ℕ → Bytes → LimitedBuffer
state max s = record { buf = take max s; max = max; overflow = ltb max (length s) }

write-state : (max : ℕ) (s p : Bytes) → (write (state max s) p).0 ≡ state max (s ++ p)
unfolding write
write-state max s p = elim (Bool-cases (ltb max (length s))) [
  | inl over ↦
      let still : ltb max (length (s ++ p)) ≡ true = ground (arith, length-append s p) in
      rw (over, still, take-more max s p (ground arith))
  | inr fits ↦
      let whole : take max s ≡ s = take-all max s (ground arith) in
      rw (fits, whole)
        (elim (Bool-cases (ltb (max - length s) (length p))) [
          | inl cut ↦
              let now : ltb max (length (s ++ p)) ≡ true = ground (arith, length-append s p) in
              rw (cut, now, take-append max s p, whole)
          | inr all ↦
              let still : ltb max (length (s ++ p)) ≡ false = ground (arith, length-append s p) in
              let kept : take max (s ++ p) ≡ s ++ p =
                take-all max (s ++ p) (ground (arith, length-append s p)) in
              rw (all, still, kept)
        ])
]

write_all-state :
    (max : ℕ) (s : Bytes) (ps : List Bytes)
    → write_all (state max s) ps ≡ state max (s ++ concat ps)
unfolding write_all
write_all-state max s [] = rw append-nil
write_all-state max s (p ∷ ps) =
    rw (write-state max s p, write_all-state max (s ++ p) ps, append_assoc)

new-state : (max : ℕ) → new_limited_buffer max ≡ state max []
new-state max = let nothing : ltb max 0 ≡ false = ground arith in rw (take-none max, nothing)

from_new :
    (max : ℕ) (ps : List Bytes) → write_all (new_limited_buffer max) ps ≡ state max (concat ps)
from_new max ps = rw (new-state max) (write_all-state max [] ps)

-- However the body is cut into writes, the buffer holds its first `max` bytes, it has overflowed
-- exactly if the body is longer, and its limit is unchanged.
pub write_all-take :
    (max : ℕ) (ps : List Bytes)
    → let lb = write_all (new_limited_buffer max) ps in
      (lb.buf ≡ take max (concat ps))
      × (lb.overflow ≡ ltb max (length (concat ps)))
      × (lb.max ≡ max)
write_all-take max ps =
    let e : write_all (new_limited_buffer max) ps ≡ state max (concat ps) = from_new max ps in
    (ap (λ lb. lb.buf) e, ap (λ lb. lb.overflow) e, ap (λ lb. lb.max) e)
