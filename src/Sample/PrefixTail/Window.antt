-- ===== src/Sample/PrefixTail/Window.antt =====
-- The sample of a body: all of it where it fits, else its two ends.
use metering_proxy.Common.{
  ℕ, ◌+◌, ◌-◌, ◌≤◌, ◌<◌, min, ◌≡◌, refl, sym, ap, ap₂, ◌∙◌, Bool, true, false, Bool-cases, inl, inr,
  ◌&&◌, ◌||◌, Option, none, some, List, [], ◌∷◌, ◌++◌, Bytes, length, take, drop, replicate, ltb,
  leb, ◌==◌, if◌then◌else◌, arith, length-append, length-take, length-drop, drop-append, drop-drop,
  drop-all, take-all, take-append-drop, append_assoc, append-nil, drop_into, drop-none, leb→le,
  ltb→lt, ltb-false, eq→==, ne→==, lt→leb-false, leb-false, Option-cases,
}
use metering_proxy.Sample.Limited.{concat}
use metering_proxy.Sample.PrefixTail.{
  PrefixTailBuffer, Ring, new_buffer, half_of, ring_of, write_all, tail_len, append_tail,
  append_ring, append_cells, cells_of, sample,
}
use metering_proxy.Sample.PrefixTail.Rotation.{last_n, contents, last_n-all}
use metering_proxy.Sample.PrefixTail.Fill.{Holds, write_all-Holds, new-Holds, max_kept}

-- The sample that a body should have: the body itself where it fits, else its first and its last
-- `half` bytes with a line break between.
unfoldable pub two_ends : ℕ → ℕ → Bytes → Bytes
two_ends half max s =
    if leb (length s) half || (leb (length s) max && leb (length s) (half + half))
    then s
    else take half s ++ b'\n' ∷ last_n half (drop half s)

append_ring-contents :
    (dst : Bytes) (r : Ring) (skip : ℕ)
    → r.wpos ≤ length r.cells
    → append_ring dst r skip ≡ dst ++ drop skip (contents r)
unfolding append_ring contents
append_ring-contents dst r skip inside = elim (Bool-cases r.full) [
  | inr f ↦ rw f
  | inl f ↦ rw f (elim (Bool-cases (ltb skip (length r.cells - r.wpos))) [
    | inl front ↦ rw front (
        append_assoc dst (drop (r.wpos + skip) r.cells) (take r.wpos r.cells)
        ∙ ap (λ k. dst ++ k)
            (sym (
              drop_into skip (drop r.wpos r.cells) (take r.wpos r.cells)
                (omega (arith, ltb→lt _ _ front, length-drop r.wpos r.cells))
              ∙ rw (drop-drop skip r.wpos r.cells))))
    | inr back ↦ rw back (
        ap (λ k. dst ++ k)
          (sym (
            drop-append skip (drop r.wpos r.cells) (take r.wpos r.cells)
            ∙ rw (
              drop-all skip (drop r.wpos r.cells)
                  (omega (arith, ltb-false _ _ back, length-drop r.wpos r.cells)),
              length-drop r.wpos r.cells,
            ))))
  ])
]

append_cells-contents :
    (half valid wpos : ℕ) (full : Bool) (tail : Option Bytes) (dst : Bytes) (skip : ℕ)
    → valid ≡ length (contents (record { cells = cells_of half tail; wpos = wpos; full = full }))
    → (tail ≡ none → full ≡ false × (wpos ≡ 0))
    → wpos ≤ length (cells_of half tail)
    → append_cells valid wpos full dst skip tail
      ≡ dst
        ++ drop skip (contents (record { cells = cells_of half tail; wpos = wpos; full = full }))
unfolding append_cells
append_cells-contents half valid wpos full none dst skip size fresh inside =
    let (f, w) = fresh refl in
    let empty : contents (record { cells = replicate half 0; wpos = wpos; full = full }) ≡ [] =
      rw (f, w) (unfold contents in refl) in
    rw (empty, drop-none skip) (sym (append-nil dst))
append_cells-contents half valid wpos full (some cells) dst skip size fresh inside =
    let r : Ring = record { cells = cells; wpos = wpos; full = full } in
    elim (Bool-cases (leb valid skip)) [
      | inl past ↦
          rw (past, drop-all skip (contents r) (omega (arith, size, leb→le _ _ past)))
            (sym (append-nil dst))
      | inr within ↦ rw within (append_ring-contents dst r skip inside)
    ]

module _ (half : ℕ) (s : Bytes) (b : PrefixTailBuffer) (h : Holds half s b) where
  window_size : length (contents (ring_of half b)) ≡ min half (length s - half)
  unfolding last_n
  window_size =
      ap length h.window
      ∙ (length-drop (length (drop half s) - half) (drop half s)
          ∙ (rw (length-drop half s) (omega arith)))

  tail_len-contents : tail_len b ≡ length (contents (ring_of half b))
  unfolding tail_len contents ring_of
  tail_len-contents = elim (Option-cases b.tail) [
    | inl e ↦ let (f, w) = h.untouched e in rw (e, f, w)
    | inr (cells, e) ↦
        let sized : length cells ≡ half = rw e at (h.ring.sized) in
        elim (Bool-cases b.full) [
          | inl f ↦
              rw (e, f)
                (omega (
                  arith,
                  h.ring.inside,
                  length-append (drop b.wpos cells) (take b.wpos cells),
                  length-drop b.wpos cells,
                  length-take b.wpos cells,
                ))
          | inr f ↦ rw (e, f) (omega (arith, h.ring.inside, length-take b.wpos cells))
        ]
  ]

  append_tail-contents :
      (dst : Bytes) (skip : ℕ)
      → append_tail b dst skip ≡ dst ++ drop skip (contents (ring_of half b))
  unfolding append_tail ring_of
  append_tail-contents dst skip =
      append_cells-contents half (tail_len b) b.wpos b.full b.tail dst skip tail_len-contents
        h.untouched (omega (arith, h.ring.inside, h.ring.sized))

  kept_size : tail_len b ≡ min half (length s - half)
  kept_size = tail_len-contents ∙ window_size

  prefix_length : length b.prefix ≡ min half (length s)
  prefix_length = ap length h.prefix ∙ length-take half s

  -- The first test of the two definitions, and the last.
  sample-short : length s ≤ half → sample b ≡ s
  unfolding sample
  sample-short short =
      let none_kept : (tail_len b == 0) ≡ true = eq→== _ _ (omega (arith, kept_size)) in
      rw none_kept (h.prefix ∙ take-all half s short)

  fits_twice :
      (leb (length s) b.max && leb (length s) (half + half)) ≡ true → length s ≤ half + half
  fits_twice e = ground arith

  whole :
      half < length s
      → length s ≤ half + half
      → append_tail b b.prefix (length b.prefix + tail_len b - b.total) ≡ s
  whole long fits =
      let k : length b.prefix + tail_len b - b.total ≡ 0 =
        omega (arith, prefix_length, kept_size, h.total) in
      append_tail-contents b.prefix (length b.prefix + tail_len b - b.total)
      ∙ (ap (λ n. b.prefix ++ drop n (contents (ring_of half b))) k
          ∙ (ap₂ (λ u w. u ++ w) h.prefix
                (h.window ∙ last_n-all half (drop half s) (omega (arith, length-drop half s)))
              ∙ take-append-drop half s))

  ends : append_tail b (b.prefix ++ b'\n' ∷ []) 0 ≡ take half s ++ b'\n' ∷ last_n half (drop half s)
  ends =
      append_tail-contents (b.prefix ++ b'\n' ∷ []) 0
      ∙ (append_assoc b.prefix (b'\n' ∷ []) (contents (ring_of half b))
          ∙ ap₂ (λ u w. u ++ b'\n' ∷ w) h.prefix h.window)

  sample-long :
      half < length s
      → sample b ≡ (
          if leb (length s) b.max && leb (length s) (half + half)
          then s
          else take half s ++ b'\n' ∷ last_n half (drop half s))
  unfolding sample
  sample-long long =
      let some_kept : (tail_len b == 0) ≡ false =
        ne→== _ _ (λ e. omega (arith, kept_size, h.positive)) in
      let behind : leb b.total (length b.prefix) ≡ false =
        lt→leb-false _ _ (omega (arith, prefix_length, h.total)) in
      let reach : length b.prefix + tail_len b ≡ half + min half (length s - half) =
        omega (arith, prefix_length, kept_size) in
      let same : leb (length s) (half + min half (length s - half)) ≡ leb (length s) (half + half) =
        ground arith in
      let fit_test : (leb b.total b.max && leb b.total (length b.prefix + tail_len b))
          ≡ (leb (length s) b.max && leb (length s) (half + half)) =
        ap₂ (λ t k. leb t b.max && leb t k) h.total reach
        ∙ ap (λ u. leb (length s) b.max && u) same in
      rw (some_kept, behind, fit_test)
        (elim (Bool-cases (leb (length s) b.max && leb (length s) (half + half))) [
          | inl fits ↦ rw fits (whole long (fits_twice fits))
          | inr large ↦ rw large ends
        ])

  sample-two_ends : sample b ≡ two_ends half b.max s
  unfolding two_ends
  sample-two_ends = elim (Bool-cases (leb (length s) half)) [
    | inl short ↦ rw short (sample-short (leb→le _ _ short))
    | inr long ↦ rw long (sample-long (leb-false _ _ long))
  ]

-- However a body is cut into writes, the sample of a buffer with a positive limit is the whole body
-- where that is at most the limit and at most two halves of it (or one half), and else the first half
-- of bytes, a line break and the last half of the bytes behind it.
pub sample-write_all :
    (max : ℕ) (ps : List Bytes)
    → 0 < max
    → sample (write_all (new_buffer max) ps) ≡ two_ends (half_of max) max (concat ps)
sample-write_all max ps h =
    sample-two_ends (half_of max) (concat ps) (write_all (new_buffer max) ps)
      (write_all-Holds (half_of max) [] ps (new_buffer max) (new-Holds max h))
    ∙ ap (λ m. two_ends (half_of max) m (concat ps)) (max_kept ps (new_buffer max))
