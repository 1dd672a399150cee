-- ===== src/Sample/PrefixTail/Fill.antt =====
-- What a buffer holds after the bytes written so far.
use metering_proxy.Common.{
  ℕ, ◌+◌, ◌-◌, ◌≤◌, ◌<◌, min, ◌≡◌, refl, sym, ap, ◌∙◌, false, Bool-cases, inl, inr, none, List, [],
  ◌∷◌, ◌++◌, Bytes, length, take, drop, ltb, ◌==◌, arith, length-append, length-take, length-drop,
  take-append, drop-append, drop-all, take-all, append_assoc, append-nil, drop_into, take-more,
  take-min, take-none, drop-none, length-replicate, ltb→lt, ltb-false, ==→eq, ==-false,
}
use metering_proxy.Sample.Limited.{concat}
use metering_proxy.Sample.PrefixTail.{
  PrefixTailBuffer, Ring, new_buffer, ring_write, half_of, ring_of, write_tail, write, write_all,
}
use metering_proxy.Sample.PrefixTail.Rotation.{
  last_n, contents, IsRing, Shifts, ring_write-Shifts, last_n-last_n,
}

-- The buffer after the bytes `s`, where the limit is not 0.
pub record Holds (half : ℕ) (s : Bytes) (b : PrefixTailBuffer) : Type 0 where
  pub half_eq : half_of b.max ≡ half
  pub positive : 0 < half
  pub limited : 0 < b.max
  pub prefix : b.prefix ≡ take half s
  pub total : b.total ≡ length s
  pub ring : IsRing half (ring_of half b)
  pub window : contents (ring_of half b) ≡ last_n half (drop half s)
  pub untouched : b.tail ≡ none → b.full ≡ false × (b.wpos ≡ 0)

-- What a write into the ring makes of the rest of the buffer.
module _ (half : ℕ) (s q t : Bytes) (b : PrefixTailBuffer) where
  tail-Holds :
      half_of b.max ≡ half
      → 0 < half
      → 0 < b.max
      → b.prefix ≡ take half s
      → b.total ≡ length s
      → IsRing half (ring_of half b)
      → contents (ring_of half b) ≡ last_n half t
      → t ++ q ≡ drop half s
      → Holds half s (write_tail half b q)
  unfolding write_tail ring_of
  tail-Holds he hp hl pre tot ring win seen =
      let r : Ring = ring_of half b in
      let done : Shifts half r q (ring_write r q) = ring_write-Shifts half r q ring in
      record {
        half_eq = he;
        positive = hp;
        limited = hl;
        prefix = pre;
        total = tot;
        ring = done.is_ring;
        window =
            done.window
            ∙ (ap (λ k. last_n half (k ++ q)) win
                ∙ (last_n-last_n half t q ∙ ap (last_n half) seen));
        untouched = λ e. cc;
      }

module _ (half : ℕ) (s p : Bytes) (b : PrefixTailBuffer) (h : Holds half s b) where
  total_after : b.total + length p ≡ length (s ++ p)
  total_after = omega (arith, length-append s p, h.total)

  prefix_size : length b.prefix ≡ min half (length s)
  prefix_size = ap length h.prefix ∙ length-take half s

  rest_size :
      length (drop (min (half - length b.prefix) (length p)) p)
      ≡ length p - min (half - length b.prefix) (length p)
  rest_size = length-drop (min (half - length b.prefix) (length p)) p

  -- The prefix was full before.
  late :
      half ≤ length s
      → Holds half (s ++ p) (write_tail half (record b { total = b.total + length p }) p)
  unfolding ring_of
  late full =
      tail-Holds half (s ++ p) p (drop half s) (record b { total = b.total + length p }) h.half_eq
        h.positive h.limited (h.prefix ∙ sym (take-more half s p full)) total_after h.ring h.window
        (sym (drop_into half s p full))

  module _ (short : length s < half) where
    prefix_whole : b.prefix ≡ s
    prefix_whole = h.prefix ∙ take-all half s (omega arith)

    filled_prefix :
        b.prefix ++ take (min (half - length b.prefix) (length p)) p ≡ take half (s ++ p)
    filled_prefix =
        rw (prefix_whole, take-min (half - length s) p)
          (sym (take-append half s p ∙ rw (take-all half s (omega arith))))

    -- The write ends inside the prefix.
    inside :
        length p ≤ half - length s
        → Holds half (s ++ p) (record b {
          prefix = b.prefix ++ take (min (half - length b.prefix) (length p)) p;
          total = b.total + length p;
        })
    unfolding ring_of
    inside fits = record {
      half_eq = h.half_eq;
      positive = h.positive;
      limited = h.limited;
      prefix = filled_prefix;
      total = total_after;
      ring = h.ring;
      window =
          h.window
          ∙ ap (last_n half) (
              drop-all half s (omega arith)
              ∙ sym (drop-all half (s ++ p) (omega (arith, length-append s p))));
      untouched = h.untouched;
    }

    -- The write goes on behind the prefix.
    beyond :
        half - length s < length p
        → Holds half (s ++ p) (
            write_tail half
              (record b {
                prefix = b.prefix ++ take (min (half - length b.prefix) (length p)) p;
                total = b.total + length p;
              })
              (drop (min (half - length b.prefix) (length p)) p))
    unfolding ring_of
    beyond over =
        tail-Holds half (s ++ p) (drop (min (half - length b.prefix) (length p)) p) []
          (record b {
            prefix = b.prefix ++ take (min (half - length b.prefix) (length p)) p;
            total = b.total + length p;
          })
          h.half_eq h.positive h.limited filled_prefix total_after h.ring
          (h.window ∙ ap (last_n half) (drop-all half s (omega arith))) seen
      where
        seen : drop (min (half - length b.prefix) (length p)) p ≡ drop half (s ++ p)
        seen =
            let e : min (half - length s) (length p) ≡ half - length s = omega arith in
            rw (prefix_whole, e) (sym (drop-append half s p ∙ rw (drop-all half s (omega arith))))

  write-Holds : Holds half (s ++ p) (write b p)
  unfolding write
  write-Holds =
      let some_room : b.max == 0 ≡ false = ground (arith, h.limited) in
      rw (some_room, h.half_eq)
        (elim (Bool-cases (ltb (length b.prefix) half)) [
          | inr full ↦ rw full (late (omega (arith, prefix_size, ltb-false _ _ full)))
          | inl room ↦
              let short : length s < half = omega (arith, prefix_size, ltb→lt _ _ room) in
              rw room
                (elim (Bool-cases
                  (length (drop (min (half - length b.prefix) (length p)) p) == 0)) [
                    | inl ends ↦
                        rw ends
                          (inside short (omega (arith, rest_size, prefix_size, ==→eq _ _ ends)))
                    | inr more ↦
                        rw more
                          (beyond short (omega (arith, rest_size, prefix_size, ==-false _ _ more)))
                  ])
        ])

pub write_all-Holds :
    (half : ℕ) (s : Bytes) (ps : List Bytes) (b : PrefixTailBuffer)
    → Holds half s b
    → Holds half (s ++ concat ps) (write_all b ps)
unfolding write_all
write_all-Holds half s [] b h = rw append-nil h
write_all-Holds half s (p ∷ ps) b h =
    rw (← append_assoc s p (concat ps))
      (write_all-Holds half (s ++ p) ps (write b p) (write-Holds half s p b h))

half_of-pos : (max : ℕ) → 0 < max → 0 < half_of max
unfolding half_of
half_of-pos max h = ground arith

pub new-Holds : (max : ℕ) → 0 < max → Holds (half_of max) [] (new_buffer max)
unfolding ring_of contents last_n
new-Holds max h = record {
  half_eq = refl;
  positive = half_of-pos max h;
  limited = h;
  prefix = sym (take-none (half_of max));
  total = refl;
  ring = record { sized = length-replicate (half_of max) 0; inside = half_of-pos max h };
  window = sym (ap (last_n (half_of max)) (drop-none (half_of max)) ∙ drop-none (0 - half_of max));
  untouched = λ e. (refl, refl);
}

max_kept_once : (b : PrefixTailBuffer) (p : Bytes) → (write b p).max ≡ b.max
unfolding write write_tail
max_kept_once b p = ground arith

pub max_kept : (ps : List Bytes) (b : PrefixTailBuffer) → (write_all b ps).max ≡ b.max
unfolding write_all
max_kept [] b = refl
max_kept (p ∷ ps) b = max_kept ps (write b p) ∙ max_kept_once b p
