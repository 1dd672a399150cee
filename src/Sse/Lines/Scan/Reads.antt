-- ===== src/Sse/Lines/Scan/Reads.antt =====
-- How the lines of a stream depend on where the reads of handleStream cut it.
use metering_proxy.Common.{
  ℕ, ◌≡◌, refl, sym, ap, ap₂, ◌∙◌, Bool, true, false, ◌&&◌, List, [], ◌∷◌, ◌++◌, inl, inr, Bytes,
  length, ◌==◌, arith, Bool-cases, append_assoc, ==→eq,
}
use metering_proxy.Sse.Lines.{lf_at, LineEvent, line, LineState, Fed, emit, fresh_line, feed}
use metering_proxy.Sse.Lines.Scan.{push, ended, scan, Fits, push-Fits}
use metering_proxy.Sse.Lines.Scan.Loop.{
  fresh-Fits, scan-lf, scan-cr, scan-other, scan_after_cr, feed_loop-scan,
}

-- Whether the last byte is a carriage return; `after_cr` answers for no byte.
unfoldable pub ends_cr : Bool → Bytes → Bool
ends_cr after_cr [] = after_cr
ends_cr after_cr (c ∷ s) = ends_cr (c == b'\r') s

module _ (max_line : ℕ) where
  -- First `a`, then `s` from the state that `a` leaves.
  abbrev then_scan : Fed → Bool → Bytes → Fed
  then_scan a after_cr s = emit a.events (scan max_line after_cr a.state s)

  emit-then_scan :
      (e : List LineEvent) (a : Fed) (b : Bool) (s : Bytes)
      → emit e (then_scan a b s) ≡ then_scan (emit e a) b s
  unfolding emit
  emit-then_scan e a b s = rw append_assoc

  scan-append :
      (after_cr : Bool) (st : LineState) (s t : Bytes)
      → scan max_line after_cr st (s ++ t)
        ≡ then_scan (scan max_line after_cr st s) (ends_cr after_cr s) t
  unfolding ends_cr
  scan-append after_cr st [] t = unfold scan emit in refl
  scan-append after_cr st (c ∷ s) t = elim (Bool-cases (c == b'\n')) [
    | inl lf ↦ rw (==→eq c b'\n' lf) (lf_case after_cr (λ u. scan-append false u s t))
    | inr lf ↦ elim (Bool-cases (c == b'\r')) [
      | inl cr ↦ rw (==→eq c b'\r' cr) (
          scan-cr max_line after_cr st (s ++ t)
          ∙ (ap (emit (ended st)) (scan-append true fresh_line s t)
              ∙ (emit-then_scan (ended st) (scan max_line true fresh_line s) (ends_cr true s) t
                  ∙ ap (λ a. then_scan a (ends_cr true s) t)
                      (sym (scan-cr max_line after_cr st s)))))
      | inr cr ↦
          let p = push max_line st c in
          rw cr (
            scan-other max_line after_cr st c (s ++ t) lf cr
            ∙ (ap (emit p.events) (scan-append false p.state s t)
                ∙ (emit-then_scan p.events (scan max_line false p.state s) (ends_cr false s) t
                    ∙ ap (λ a. then_scan a (ends_cr false s) t)
                        (sym (scan-other max_line after_cr st c s lf cr)))))
    ]
  ]
    where
      lf_case :
          (b : Bool)
          → ((u : LineState)
              → scan max_line false u (s ++ t)
                ≡ then_scan (scan max_line false u s) (ends_cr false s) t)
          → scan max_line b st (b'\n' ∷ s ++ t)
            ≡ then_scan (scan max_line b st (b'\n' ∷ s)) (ends_cr false s) t
      lf_case true ih =
          scan-lf max_line true st (s ++ t)
          ∙ (ih st ∙ ap (λ a. then_scan a (ends_cr false s) t) (sym (scan-lf max_line true st s)))
      lf_case false ih =
          scan-lf max_line false st (s ++ t)
          ∙ (ap (emit (ended st)) (ih fresh_line)
              ∙ (emit-then_scan (ended st) (scan max_line false fresh_line s) (ends_cr false s) t
                  ∙ ap (λ a. then_scan a (ends_cr false s) t) (sym (scan-lf max_line false st s))))

  scan-Fits :
      (after_cr : Bool) (st : LineState) (s : Bytes)
      → Fits max_line st
      → Fits max_line (scan max_line after_cr st s).state
  unfolding emit
  scan-Fits after_cr st [] h = unfold scan in h
  scan-Fits after_cr st (c ∷ s) h = elim (Bool-cases (c == b'\n')) [
    | inl lf ↦ rw (==→eq c b'\n' lf) (elim (Bool-cases after_cr) [
      | inl e ↦ rw (e, scan-lf max_line true st s) (scan-Fits false st s h)
      | inr e ↦
          rw (e, scan-lf max_line false st s) (scan-Fits false fresh_line s (fresh-Fits max_line))
    ])
    | inr lf ↦ elim (Bool-cases (c == b'\r')) [
      | inl cr ↦
          rw (==→eq c b'\r' cr) (
            rw (scan-cr max_line after_cr st s) (scan-Fits true fresh_line s (fresh-Fits max_line)))
      | inr cr ↦
          rw (scan-other max_line after_cr st c s lf cr)
            (scan-Fits false (push max_line st c).state s (push-Fits max_line st c h))
    ]
  ]

  feed-scan :
      (st : LineState) (s : Bytes)
      → Fits max_line st
      → feed max_line st s ≡ scan max_line false st s
  unfolding feed
  feed-scan st s h = feed_loop-scan max_line (length s) st s h (omega arith)

  -- The read `s` after what `a` has done.
  abbrev pub then_feed : Fed → Bytes → Fed
  then_feed a s = emit a.events (feed max_line a.state s)

  -- Two reads of `s` and `t` do what one read of them together does, from a state whose buffer is
  -- within the limit: they reach the same state and process the same lines in the same order, unless
  -- the cut falls between a carriage return and its line feed.
  pub feed-append :
      (st : LineState) (s t : Bytes)
      → Fits max_line st
      → (ends_cr false s && lf_at t 0) ≡ false
      → feed max_line st (s ++ t) ≡ then_feed (feed max_line st s) t
  feed-append st s t h cut =
      let a = scan max_line false st s in
      let rest = scan-Fits false st s h in
      feed-scan st (s ++ t) h
      ∙ (scan-append false st s t
          ∙ (ap (emit a.events) (same ∙ sym (feed-scan a.state t rest))
              ∙ ap (λ a. then_feed a t) (sym (feed-scan st s h))))
    where
      same :
          scan max_line (ends_cr false s) (scan max_line false st s).state t
          ≡ scan max_line false (scan max_line false st s).state t
      same = elim (Bool-cases (ends_cr false s)) [
        | inl e ↦ scan_after_cr max_line (ends_cr false s) _ t (ground arith)
        | inr e ↦ rw e refl
      ]

  -- The buffer that a read leaves is within the limit when the one before it is.
  feed-Fits :
      (st : LineState) (s : Bytes) → Fits max_line st → Fits max_line (feed max_line st s).state
  feed-Fits st s h = rw (feed-scan st s h) (scan-Fits false st s h)

  ends_cr-cr : (b : Bool) (s : Bytes) → ends_cr b (s ++ b'\r' ∷ []) ≡ true
  unfolding ends_cr
  ends_cr-cr b [] = refl
  ends_cr-cr b (c ∷ s) = ends_cr-cr (c == b'\r') s

  cr_state :
      (st : LineState) (s : Bytes)
      → Fits max_line st
      → (feed max_line st (s ++ b'\r' ∷ [])).state ≡ fresh_line
  unfolding emit
  cr_state st s h =
      let a = scan max_line false st s in
      ap (λ a. a.state) (feed-scan st (s ++ b'\r' ∷ []) h)
      ∙ (ap (λ a. a.state) (scan-append false st s (b'\r' ∷ []))
          ∙ (ap (λ a. a.state) (scan-cr max_line (ends_cr false s) a.state [])
              ∙ unfold scan in refl))

  -- A read that ends in a carriage return, followed by one that starts with its line feed, processes
  -- an empty line between the two that one read of both does not; the rest is the same. The state
  -- before has a buffer within the limit.
  pub feed-cut_crlf :
      (st : LineState) (s t : Bytes)
      → Fits max_line st
      → (then_feed (feed max_line st (s ++ b'\r' ∷ [])) (b'\n' ∷ t)
          ≡ emit
              (feed max_line st (s ++ b'\r' ∷ [])).events
              (emit (line [] ∷ []) (feed max_line fresh_line t)))
        × (feed max_line st (s ++ b'\r' ∷ b'\n' ∷ t)
            ≡ emit (feed max_line st (s ++ b'\r' ∷ [])).events (feed max_line fresh_line t))
  feed-cut_crlf st s t h = (
    ap (λ u. emit a.events (feed max_line u (b'\n' ∷ t))) (cr_state st s h)
        ∙ ap (emit a.events) (
            feed-scan fresh_line (b'\n' ∷ t) ok
            ∙ (scan-lf max_line false fresh_line t
                ∙ ap (emit (line [] ∷ [])) (sym (feed-scan fresh_line t ok)))),
    ap (feed max_line st) (sym (append_assoc s (b'\r' ∷ []) (b'\n' ∷ t)))
        ∙ (feed-scan st ((s ++ b'\r' ∷ []) ++ b'\n' ∷ t) h
            ∙ (scan-append false st (s ++ b'\r' ∷ []) (b'\n' ∷ t)
                ∙ (ap₂ (λ r b. then_scan r b (b'\n' ∷ t)) (sym (feed-scan st (s ++ b'\r' ∷ []) h))
                      (ends_cr-cr false s)
                    ∙ (ap (λ u. emit a.events (scan max_line true u (b'\n' ∷ t))) (cr_state st s h)
                        ∙ ap (emit a.events) (
                            scan-lf max_line true fresh_line t
                            ∙ sym (feed-scan fresh_line t ok)))))),
  )
    where
      a : Fed
      a = feed max_line st (s ++ b'\r' ∷ [])

      ok : Fits max_line fresh_line
      ok = fresh-Fits max_line
