-- ===== src/Sample/PrefixTail.antt =====
-- internal/proxy/proxy.go, prefixTailBuffer: the first and the last bytes of what is written, the
-- last ones in a ring. `max` not above 0 is one case in the source, here 0. `total` is an int: a body
-- is shorter than 2^63 bytes, so it does not wrap.
pub mod Rotation
pub mod Fill
pub mod Window
use metering_proxy.Common.{
  ℕ, zero, suc, ◌+◌, ◌-◌, ◌/◌, min, Bool, true, false, ◌&&◌, not, ◌≡◌, refl, Option, none, some,
  List, [], ◌∷◌, ◌++◌, Bytes, length, take, drop, replicate, ltb, leb, ◌==◌, if◌then◌else◌,
}

pub record PrefixTailBuffer : Type 0 where
  pub prefix : Bytes
  pub tail : Option Bytes
  pub wpos : ℕ
  pub full : Bool
  pub max : ℕ
  pub total : ℕ

-- &prefixTailBuffer{max: max}
abbrev pub new_buffer : ℕ → PrefixTailBuffer
new_buffer max = record { prefix = []; tail = none; wpos = 0; full = false; max = max; total = 0 }

-- The tail ring: its cells, the next write position, and whether it has wrapped.
pub record Ring : Type 0 where
  pub cells : Bytes
  pub wpos : ℕ
  pub full : Bool

-- One round of the copy loop: n := copy(tail[wpos:], p), then the position moves on.
unfoldable pub copy_round : Ring → Bytes → Ring
copy_round r p =
    let cap = length r.cells in
    let n = min (cap - r.wpos) (length p) in
    let cells = take r.wpos r.cells ++ (take n p ++ drop (r.wpos + n) r.cells) in
    if r.wpos + n == cap
    then record { cells = cells; wpos = 0; full = true }
    else record { cells = cells; wpos = r.wpos + n; full = r.full }

-- for len(p) > 0: a round copies a byte at least, so the length is enough fuel.
unfoldable pub copy_loop : ℕ → Ring → Bytes → Ring
copy_loop zero r p = r
copy_loop (suc fuel) r [] = r
copy_loop (suc fuel) r (c ∷ p) =
    let n = min (length r.cells - r.wpos) (length (c ∷ p)) in
    copy_loop fuel (copy_round r (c ∷ p)) (drop n (c ∷ p))

-- A write that covers the whole ring keeps only its last bytes.
unfoldable pub ring_write : Ring → Bytes → Ring
ring_write r p =
    let cap = length r.cells in
    if leb cap (length p)
    then record { cells = drop (length p - cap) p; wpos = 0; full = true }
    else copy_loop (length p) r p

-- half := b.max / 2, or b.max where that is 0
unfoldable pub half_of : ℕ → ℕ
half_of max = if max / 2 == 0 then max else max / 2

abbrev pub cells_of : ℕ → Option Bytes → Bytes
cells_of half none = replicate half 0
cells_of half (some cells) = cells

-- b.tail, allocated when it is first needed.
unfoldable pub ring_of : ℕ → PrefixTailBuffer → Ring
ring_of half b = record { cells = cells_of half b.tail; wpos = b.wpos; full = b.full }

unfoldable pub write_tail : ℕ → PrefixTailBuffer → Bytes → PrefixTailBuffer
write_tail half b p =
    let r = ring_write (ring_of half b) p in
    record b { tail = some r.cells; wpos = r.wpos; full = r.full }

-- Write. It always reports the whole length, so only the new buffer is returned.
unfoldable pub write : PrefixTailBuffer → Bytes → PrefixTailBuffer
write b p =
    let half = half_of b.max in
    let need = min (half - length b.prefix) (length p) in
    let counted = record b { total = b.total + length p } in
    let filled = record counted { prefix = b.prefix ++ take need p } in
    if b.max == 0
    then b
    else if ltb (length b.prefix) half
    then (if length (drop need p) == 0 then filled else write_tail half filled (drop need p))
    else write_tail half counted p

unfoldable pub write_all : PrefixTailBuffer → List Bytes → PrefixTailBuffer
write_all b [] = b
write_all b (p ∷ ps) = write_all (write b p) ps

-- tailLen
unfoldable pub tail_len : PrefixTailBuffer → ℕ
tail_len b = if b.full then length (elim b.tail [ some cells ↦ cells | none ↦ [] ]) else b.wpos

-- The ring in the order of writing, without its first `skip` bytes, behind `dst`.
unfoldable pub append_ring : Bytes → Ring → ℕ → Bytes
append_ring dst r skip =
    let first_len = length r.cells - r.wpos in
    if not r.full
    then dst ++ drop skip (take r.wpos r.cells)
    else if ltb skip first_len
    then (dst ++ drop (r.wpos + skip) r.cells) ++ take r.wpos r.cells
    else dst ++ drop (skip - first_len) (take r.wpos r.cells)

-- `valid` bytes of the ring count.
unfoldable pub append_cells : ℕ → ℕ → Bool → Bytes → ℕ → Option Bytes → Bytes
unfolding append_ring
append_cells valid wpos full dst skip none = dst
append_cells valid wpos full dst skip (some cells) =
    if leb valid skip
    then dst
    else append_ring dst (record { cells = cells; wpos = wpos; full = full }) skip

-- appendTail
unfoldable pub append_tail : PrefixTailBuffer → Bytes → ℕ → Bytes
unfolding append_cells
append_tail b dst skip = append_cells (tail_len b) b.wpos b.full dst skip b.tail

-- Bytes
unfoldable pub sample : PrefixTailBuffer → Bytes
sample b =
    let kept = tail_len b in
    if kept == 0
    then b.prefix
    else if leb b.total (length b.prefix)
    then b.prefix
    else if leb b.total b.max && leb b.total (length b.prefix + kept)
    then append_tail b b.prefix (length b.prefix + kept - b.total)
    else append_tail b (b.prefix ++ b'\n' ∷ []) 0

-- Overflow
unfoldable pub overflow : PrefixTailBuffer → Bool
overflow b = ltb b.max b.total

whole_body :
    sample (write_all (new_buffer 8) ((1 ∷ 2 ∷ 3 ∷ []) ∷ (4 ∷ 5 ∷ []) ∷ (6 ∷ 7 ∷ []) ∷ []))
    ≡ 1 ∷ 2 ∷ 3 ∷ 4 ∷ 5 ∷ 6 ∷ 7 ∷ []
unfolding write_all write half_of write_tail ring_of ring_write copy_loop copy_round sample
    append_tail tail_len
whole_body = refl

two_ends :
    sample (write_all (new_buffer 4) ((1 ∷ 2 ∷ 3 ∷ []) ∷ (4 ∷ []) ∷ (5 ∷ []) ∷ []))
    ≡ 1 ∷ 2 ∷ b'\n' ∷ 4 ∷ 5 ∷ []
unfolding write_all write half_of write_tail ring_of ring_write copy_loop copy_round sample
    append_tail tail_len
two_ends = refl
