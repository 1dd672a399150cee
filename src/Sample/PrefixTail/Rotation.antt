-- ===== src/Sample/PrefixTail/Rotation.antt =====
-- The ring refines a window: it holds the last bytes of what was written, in order.
use metering_proxy.Common.{
  ℕ, zero, suc, ◌+◌, ◌-◌, ◌≤◌, ◌<◌, min, ◌≡◌, refl, sym, ap, ◌∙◌, Bool, true, false, Bool-cases,
  inl, inr, [], ◌∷◌, ◌++◌, Bytes, length, take, drop, leb, ◌==◌, if◌then◌else◌, arith,
  length-append, length-take, length-drop, drop-append, drop-drop, drop-all, take-all,
  take-append-drop, append_assoc, append-nil, take-take, take-min, leb→le, take_front, drop_front,
  drop_into,
}
use metering_proxy.Sample.PrefixTail.{Ring, copy_round, copy_loop, ring_write}

-- The last `k` bytes.
unfoldable pub last_n : ℕ → Bytes → Bytes
last_n k s = drop (length s - k) s

-- The bytes of the ring, oldest first.
unfoldable pub contents : Ring → Bytes
contents r = (if r.full then drop r.wpos r.cells else []) ++ take r.wpos r.cells

pub record IsRing (cap : ℕ) (r : Ring) : Type 0 where
  pub sized : length r.cells ≡ cap
  pub inside : r.wpos < cap

-- An older prefix does not show in the window of a longer text.
pub last_n-last_n : (k : ℕ) (s t : Bytes) → last_n k (last_n k s ++ t) ≡ last_n k (s ++ t)
unfolding last_n
last_n-last_n k s t =
    let d = length s - k in
    let e : d + (length (drop d s) + length t - k) ≡ length s + length t - k =
      omega (arith, length-drop d s) in
    rw (length-append (drop d s) t, length-append s t, ← drop_into d s t (omega arith))
      (drop-drop (length (drop d s) + length t - k) d (s ++ t) ∙ rw e)

pub last_n-all : (k : ℕ) (s : Bytes) → length s ≤ k → last_n k s ≡ s
unfolding last_n
last_n-all k s h = let e : length s - k ≡ 0 = omega arith in rw e

if_same : (f : Bool) → ◌≡◌ {A = Bytes} (if f then [] else []) []
if_same true = refl
if_same false = refl

module _ (t q : Bytes) (w : ℕ) (inside : w < length t) (fits : length q ≤ length t - w) where
  -- What the last bytes of the old window and the new ones are, for a ring that has wrapped.
  wrapped-window :
      last_n (length t) ((drop w t ++ take w t) ++ q) ≡ drop (w + length q) t ++ (take w t ++ q)
  unfolding last_n
  wrapped-window =
      let e : length ((drop w t ++ take w t) ++ q) - length t ≡ length q = omega (
        arith,
        length-append (drop w t ++ take w t) q,
        length-append (drop w t) (take w t),
        length-drop w t,
        length-take w t,
      ) in
      rw (e, append_assoc (drop w t) (take w t) q)
        (drop_into (length q) (drop w t) (take w t ++ q) (omega (arith, length-drop w t))
          ∙ rw (drop-drop (length q) w t))

  fresh-window : last_n (length t) (take w t ++ q) ≡ take w t ++ q
  fresh-window =
      last_n-all (length t) (take w t ++ q)
        (omega (arith, length-append (take w t) q, length-take w t))

  old-window :
      (f : Bool)
      → last_n (length t) (((if f then drop w t else []) ++ take w t) ++ q)
        ≡ (if f then drop (w + length q) t else []) ++ (take w t ++ q)
  old-window true = wrapped-window
  old-window false = fresh-window

  copied :
      (f : Bool)
      → contents (copy_round (record { cells = t; wpos = w; full = f }) q)
        ≡ last_n (length t) (((if f then drop w t else []) ++ take w t) ++ q)
  unfolding copy_round contents
  copied f =
      let n : min (length t - w) (length q) ≡ length q = omega arith in
      let front : length (take w t ++ q) ≡ w + length q =
        omega (arith, length-append (take w t) q, length-take w t) in
      rw
        (
          n,
          take-all (length q) q (omega arith),
          old-window f,
          ← append_assoc (take w t) q (drop (w + length q) t),
        )
        (elim (Bool-cases (w + length q == length t)) [
          | inl ends ↦
              rw (ends, drop-all (w + length q) t (ground arith), append-nil, append-nil, if_same f)
          | inr short ↦ rw (
            short,
            take_front (w + length q) (take w t ++ q) (drop (w + length q) t) front,
            drop_front (w + length q) (take w t ++ q) (drop (w + length q) t) front,
          )
        ])

-- One round of the copy loop shifts the window by the bytes that it copies.
round-contents :
    (r : Ring) (q : Bytes)
    → r.wpos < length r.cells
    → length q ≤ length r.cells - r.wpos
    → contents (copy_round r q) ≡ last_n (length r.cells) (contents r ++ q)
unfolding contents
round-contents r q inside fits = copied r.cells q r.wpos inside fits r.full

-- A round sees only the bytes that fit behind the write position.
round-fit :
    (r : Ring) (p : Bytes) → copy_round r p ≡ copy_round r (take (length r.cells - r.wpos) p)
unfolding copy_round
round-fit r p =
    let gap = length r.cells - r.wpos in
    let same : min gap (length (take gap p)) ≡ min gap (length p) =
      omega (arith, length-take gap p) in
    rw (same, take-take (min gap (length p)) gap p (omega arith))

length-round :
    (t p : Bytes) (w n : ℕ)
    → w + n ≤ length t
    → n ≤ length p
    → length (take w t ++ (take n p ++ drop (w + n) t)) ≡ length t
length-round t p w n h k = omega (
  arith,
  length-append (take w t) (take n p ++ drop (w + n) t),
  length-append (take n p) (drop (w + n) t),
  length-take w t,
  length-take n p,
  length-drop (w + n) t,
)

round-IsRing : (cap : ℕ) (r : Ring) (p : Bytes) → IsRing cap r → IsRing cap (copy_round r p)
unfolding copy_round
round-IsRing cap r p h =
    let n = min (length r.cells - r.wpos) (length p) in
    let sized = length-round r.cells p r.wpos n (omega arith) (omega arith) in
    elim (Bool-cases (r.wpos + n == length r.cells)) [
      | inl e ↦ rw e (record { sized = sized ∙ h.sized; inside = omega arith })
      | inr e ↦ rw e (record { sized = sized ∙ h.sized; inside = ground arith })
    ]

length-contents : (cap : ℕ) (r : Ring) → IsRing cap r → length (contents r) ≤ cap
unfolding contents
length-contents cap r h = elim (Bool-cases r.full) [
  | inl e ↦ rw e (
      omega (
        arith,
        length-append (drop r.wpos r.cells) (take r.wpos r.cells),
        length-drop r.wpos r.cells,
        length-take r.wpos r.cells,
      ))
  | inr e ↦ rw e (omega (arith, length-take r.wpos r.cells))
]

-- What writing `p` into a ring must do.
pub record Shifts (cap : ℕ) (r : Ring) (p : Bytes) (r' : Ring) : Type 0 where
  pub is_ring : IsRing cap r'
  pub window : contents r' ≡ last_n cap (contents r ++ p)

nothing : (cap : ℕ) (r : Ring) → IsRing cap r → Shifts cap r [] r
nothing cap r h = record {
  is_ring = h;
  window = rw append-nil (sym (last_n-all cap (contents r) (length-contents cap r h)));
}

-- One round, seen from its whole input.
round-window :
    (cap : ℕ) (r : Ring) (p : Bytes)
    → IsRing cap r
    → contents (copy_round r p)
      ≡ last_n cap (contents r ++ take (min (length r.cells - r.wpos) (length p)) p)
round-window cap r p h =
    let gap = length r.cells - r.wpos in
    rw (round-fit r p, take-min gap p)
      (round-contents r (take gap p) (omega (arith, h.sized)) (omega (arith, length-take gap p))
        ∙ ap (λ k. last_n k (contents r ++ take gap p)) h.sized)

copy_loop-Shifts :
    (cap fuel : ℕ) (r : Ring) (p : Bytes)
    → IsRing cap r
    → length p ≤ fuel
    → Shifts cap r p (copy_loop fuel r p)
unfolding copy_loop
copy_loop-Shifts cap zero r [] h enough = nothing cap r h
copy_loop-Shifts cap zero r (c ∷ p) h enough = absurd (omega arith)
copy_loop-Shifts cap (suc fuel) r [] h enough = nothing cap r h
copy_loop-Shifts cap (suc fuel) r (c ∷ p) h enough =
    let n = min (length r.cells - r.wpos) (length (c ∷ p)) in
    let rest = drop n (c ∷ p) in
    let r' = copy_round r (c ∷ p) in
    let ih =
      copy_loop-Shifts cap fuel r' rest (round-IsRing cap r (c ∷ p) h)
        (omega (arith, length-drop n (c ∷ p))) in
    record { is_ring = ih.is_ring; window = ih.window ∙ joined }
  where
    joined :
        last_n cap (
          contents (copy_round r (c ∷ p))
          ++ drop (min (length r.cells - r.wpos) (suc (length p))) (c ∷ p))
        ≡ last_n cap (contents r ++ (c ∷ p))
    joined =
        let n = min (length r.cells - r.wpos) (suc (length p)) in
        rw
          (
            round-window cap r (c ∷ p) h,
            last_n-last_n cap (contents r ++ take n (c ∷ p)) (drop n (c ∷ p)),
          )
          (rw (
            append_assoc (contents r) (take n (c ∷ p)) (drop n (c ∷ p)),
            take-append-drop n (c ∷ p),
          ))

full-contents : (t : Bytes) → contents (record { cells = t; wpos = 0; full = true }) ≡ t
unfolding contents
full-contents t = append-nil t

covers :
    (cap : ℕ) (r : Ring) (p : Bytes)
    → IsRing cap r
    → cap ≤ length p
    → contents (record { cells = drop (length p - length r.cells) p; wpos = 0; full = true })
      ≡ last_n cap (contents r ++ p)
unfolding last_n
covers cap r p h big =
    let all = contents r in
    let e : length (all ++ p) - cap - length all ≡ length p - cap =
      omega (arith, length-append all p) in
    let past : drop (length (all ++ p) - cap) all ≡ [] =
      drop-all (length (all ++ p) - cap) all (omega (arith, length-append all p)) in
    full-contents (drop (length p - length r.cells) p)
    ∙ (ap (λ k. drop (length p - k) p) h.sized
        ∙ sym (drop-append (length (all ++ p) - cap) all p ∙ rw (past, e)))

-- A write into a ring of cap cells leaves the last cap bytes of its old window and the new bytes, in
-- order, whatever the position and however long the write is.
pub ring_write-Shifts :
    (cap : ℕ) (r : Ring) (p : Bytes) → IsRing cap r → Shifts cap r p (ring_write r p)
unfolding ring_write
ring_write-Shifts cap r p h = elim (Bool-cases (leb (length r.cells) (length p))) [
  | inl e ↦ rw e (record {
    is_ring = record {
      sized = omega (arith, h.sized, length-drop (length p - length r.cells) p, leb→le _ _ e);
      inside = omega (arith, h.inside);
    };
    window = covers cap r p h (omega (arith, h.sized, leb→le _ _ e));
  })
  | inr e ↦ rw e (copy_loop-Shifts cap (length p) r p h (omega arith))
]
