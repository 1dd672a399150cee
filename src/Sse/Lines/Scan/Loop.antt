-- ===== src/Sse/Lines/Scan/Loop.antt =====
-- The loop of handleStream is the scan.
use metering_proxy.Common.{
  ℕ, zero, suc, ◌+◌, ◌≤◌, ◌≡◌, refl, sym, ap, ap₂, ◌∙◌, Bool, true, false, Option, none, some, [],
  ◌∷◌, inl, inr, Bytes, length, take, drop, ◌==◌, if◌then◌else◌, arith, Bool-cases, length-drop,
  ==→eq,
}
use metering_proxy.Sse.Lines.{
  lf_at, next_line_break, LineState, Fed, emit, keep_rest, end_line, fresh_line, feed_loop,
}
use metering_proxy.Sse.Lines.Scan.{
  push, ended, scan, next-lf, next-cr, later, next-other, emit-emit, Fits, push-Fits, end_line-nil,
  end_line-push, keep_rest-push, keep_rest-nil,
}

module _ (max_line : ℕ) where
  suc_plus : (i w : ℕ) → suc i + w ≡ suc (i + w)
  suc_plus i w = omega arith

  -- A round of the loop, by the break that it finds.
  abbrev round : ℕ → LineState → Bytes → Option (ℕ × ℕ) → Fed
  round fuel st chunk o = elim o [
    | none ↦ keep_rest max_line st chunk
    | some (nl, width) ↦
        emit (end_line max_line st (take nl chunk))
          (feed_loop max_line fuel fresh_line (drop (nl + width) chunk))
  ]

  feed_loop_step :
      (fuel : ℕ) (st : LineState) (c : ℕ) (s : Bytes)
      → feed_loop max_line (suc fuel) st (c ∷ s) ≡ round fuel st (c ∷ s) (next_line_break (c ∷ s))
  unfolding feed_loop
  feed_loop_step fuel st c s = refl

  round-nil :
      (fuel : ℕ) (st : LineState)
      → Fits max_line st
      → round fuel st [] (next_line_break []) ≡ feed_loop max_line (suc fuel) st []
  unfolding next_line_break feed_loop
  round-nil fuel st h = keep_rest-nil max_line st h

  round-push :
      (fuel : ℕ) (st : LineState) (c : ℕ) (s : Bytes)
      → Fits max_line st
      → (o : Option (ℕ × ℕ))
      → round fuel st (c ∷ s) (later o)
        ≡ emit (push max_line st c).events (round fuel (push max_line st c).state s o)
  round-push fuel st c s h none = keep_rest-push max_line st c s h
  round-push fuel st c s h (some (i, w)) =
      ap₂ (λ e n. emit e (feed_loop max_line fuel fresh_line (drop n (c ∷ s))))
        (end_line-push max_line st c (take i s) h) (suc_plus i w)
      ∙ sym (
          emit-emit (push max_line st c).events
            (end_line max_line (push max_line st c).state (take i s))
            (feed_loop max_line fuel fresh_line (drop (i + w) s)))

  feed_loop-push :
      (fuel : ℕ) (st : LineState) (c : ℕ) (s : Bytes)
      → Fits max_line st
      → (c == b'\n') ≡ false
      → (c == b'\r') ≡ false
      → feed_loop max_line (suc fuel) st (c ∷ s)
        ≡ emit
            (push max_line st c).events
            (feed_loop max_line (suc fuel) (push max_line st c).state s)
  feed_loop-push fuel st c [] h lf cr =
      feed_loop_step fuel st c []
      ∙ (ap (round fuel st (c ∷ [])) (next-other c [] lf cr)
          ∙ (round-push fuel st c [] h (next_line_break [])
              ∙ ap (emit (push max_line st c).events)
                  (round-nil fuel _ (push-Fits max_line st c h))))
  feed_loop-push fuel st c (d ∷ s) h lf cr =
      feed_loop_step fuel st c (d ∷ s)
      ∙ (ap (round fuel st (c ∷ d ∷ s)) (next-other c (d ∷ s) lf cr)
          ∙ (round-push fuel st c (d ∷ s) h (next_line_break (d ∷ s))
              ∙ ap (emit (push max_line st c).events) (sym (feed_loop_step fuel _ d s))))

  feed_loop-nil :
      (fuel : ℕ) (st : LineState)
      → feed_loop max_line fuel st [] ≡ record { state = st; events = [] }
  unfolding feed_loop
  feed_loop-nil zero st = refl
  feed_loop-nil (suc fuel) st = refl

  pub scan-lf :
      (after_cr : Bool) (st : LineState) (s : Bytes)
      → scan max_line after_cr st (b'\n' ∷ s) ≡ (
          if after_cr
          then scan max_line false st s
          else emit (ended st) (scan max_line false fresh_line s))
  unfolding scan
  scan-lf after_cr st s = refl

  pub scan-cr :
      (after_cr : Bool) (st : LineState) (s : Bytes)
      → scan max_line after_cr st (b'\r' ∷ s) ≡ emit (ended st) (scan max_line true fresh_line s)
  unfolding scan
  scan-cr after_cr st s = refl

  pub scan-other :
      (after_cr : Bool) (st : LineState) (c : ℕ) (s : Bytes)
      → (c == b'\n') ≡ false
      → (c == b'\r') ≡ false
      → scan max_line after_cr st (c ∷ s)
        ≡ emit (push max_line st c).events (scan max_line false (push max_line st c).state s)
  unfolding scan
  scan-other after_cr st c s h k = rw (h, k) refl

  -- Where no line feed comes first, it does not matter whether a carriage return came before.
  pub scan_after_cr :
      (after_cr : Bool) (st : LineState) (s : Bytes)
      → lf_at s 0 ≡ false
      → scan max_line after_cr st s ≡ scan max_line false st s
  unfolding scan lf_at
  scan_after_cr after_cr st [] h = refl
  scan_after_cr after_cr st (c ∷ s) h = rw h refl

  after_lf :
      (st : LineState) (s : Bytes)
      → lf_at s 0 ≡ true
      → scan max_line false st (drop 1 s) ≡ scan max_line true st s
  unfolding scan lf_at
  after_lf st [] h = refl
  after_lf st (c ∷ s) h = rw h refl

  -- What is left after a carriage return, by whether a line feed comes next.
  after_cr-scan :
      (fuel : ℕ) (s : Bytes)
      → ((t : Bytes)
          → length t ≤ fuel
          → feed_loop max_line fuel fresh_line t ≡ scan max_line false fresh_line t)
      → length s ≤ fuel
      → feed_loop max_line fuel fresh_line (drop (0 + (if lf_at s 0 then 2 else 1)) (b'\r' ∷ s))
        ≡ scan max_line true fresh_line s
  after_cr-scan fuel s ih k = elim (Bool-cases (lf_at s 0)) [
    | inl e ↦ rw e (ih (drop 1 s) (ground (arith, length-drop 1 s)) ∙ after_lf fresh_line s e)
    | inr e ↦ rw e (ih s k ∙ sym (scan_after_cr true fresh_line s e))
  ]

  pub fresh-Fits : Fits max_line fresh_line
  fresh-Fits = omega arith

  -- The loop is the scan, for fuel that covers the chunk.
  pub feed_loop-scan :
      (fuel : ℕ) (st : LineState) (s : Bytes)
      → Fits max_line st
      → length s ≤ fuel
      → feed_loop max_line fuel st s ≡ scan max_line false st s
  feed_loop-scan fuel st [] h k = feed_loop-nil fuel st ∙ unfold scan in refl
  feed_loop-scan zero st (c ∷ s) h k = absurd (omega arith)
  feed_loop-scan (suc fuel) st (c ∷ s) h k = elim (Bool-cases (c == b'\n')) [
    | inl lf ↦ rw (==→eq c b'\n' lf) (
        feed_loop_step fuel st b'\n' s
        ∙ (ap (round fuel st (b'\n' ∷ s)) (next-lf s)
            ∙ (ap₂ emit (end_line-nil max_line st h)
                  (feed_loop-scan fuel fresh_line s fresh-Fits (omega arith))
                ∙ sym (scan-lf false st s))))
    | inr lf ↦ elim (Bool-cases (c == b'\r')) [
      | inl cr ↦ rw (==→eq c b'\r' cr) (
          feed_loop_step fuel st b'\r' s
          ∙ (ap (round fuel st (b'\r' ∷ s)) (next-cr s)
              ∙ (ap₂ emit (end_line-nil max_line st h) (
                    after_cr-scan fuel s (λ t q. feed_loop-scan fuel fresh_line t fresh-Fits q)
                      (omega arith))
                  ∙ sym (scan-cr false st s))))
      | inr cr ↦
          feed_loop-push fuel st c s h lf cr
          ∙ (ap (emit (push max_line st c).events) (
                feed_loop-scan (suc fuel) (push max_line st c).state s (push-Fits max_line st c h)
                  (omega arith))
              ∙ sym (scan-other false st c s lf cr))
    ]
  ]
