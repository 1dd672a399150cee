-- ===== src/Sse/Lines/Scan.antt =====
-- The loop of handleStream against a scan that takes one byte at a time.
pub mod Loop
pub mod Reads
use metering_proxy.Common.{
  ℕ, zero, suc, ◌+◌, ◌-◌, ◌≤◌, ◌≡◌, ◌≢◌, refl, sym, ap, ap₂, ◌∙◌, Bool, true, false, not, ◌&&◌,
  ◌||◌, Option, none, some, List, [], ◌∷◌, ◌++◌, inl, inr, Bytes, codes, length, take, drop, ltb,
  leb, ◌==◌, if◌then◌else◌, arith, Bool-cases, Option-cases, append_assoc, append-nil,
  length-append, length-drop, ==→eq, ==-false,
}
use metering_proxy.Sse.Lines.{
  index_byte, lf_at, break_at, next_line_break, LineEvent, skip, line, LineState, Fed, emit,
  keep_rest, end_line, fresh_line, feed_loop, feed,
}

-- What one byte that is no line break does.
unfoldable pub push : ℕ → LineState → ℕ → Fed
push max_line st c =
    if st.line_overflow
    then record { state = st; events = [] }
    else if leb (length st.line_buf + 1) max_line
    then record { state = record st { line_buf = st.line_buf ++ c ∷ [] }; events = [] }
    else record { state = record { line_buf = []; line_overflow = true }; events = skip ∷ [] }

-- What a line break does.
abbrev ended : LineState → List LineEvent
ended st = line (if st.line_overflow then [] else st.line_buf) ∷ []

-- `after_cr` says that the byte before was a carriage return, whose line feed belongs to it.
unfoldable pub scan : ℕ → Bool → LineState → Bytes → Fed
scan max_line after_cr st [] = record { state = st; events = [] }
scan max_line after_cr st (c ∷ s) =
    let same = scan max_line false st s in
    let broken = emit (ended st) (scan max_line false fresh_line s) in
    let returned = emit (ended st) (scan max_line true fresh_line s) in
    let pushed =
      emit (push max_line st c).events (scan max_line false (push max_line st c).state s) in
    if c == b'\n'
    then (if after_cr then same else broken)
    else if c == b'\r'
    then returned
    else pushed

-- The first break of a chunk, by its first byte.
next-lf : (s : Bytes) → next_line_break (b'\n' ∷ s) ≡ some (0, 1)
unfolding next_line_break
next-lf s = ground arith

next-cr : (s : Bytes) → next_line_break (b'\r' ∷ s) ≡ some (0, if lf_at s 0 then 2 else 1)
unfolding next_line_break lf_at
next-cr s = ground arith

abbrev later : Option (ℕ × ℕ) → Option (ℕ × ℕ)
later none = none
later (some (i, w)) = some (suc i, w)

next-other :
    (c : ℕ) (s : Bytes)
    → (c == b'\n') ≡ false
    → (c == b'\r') ≡ false
    → next_line_break (c ∷ s) ≡ later (next_line_break s)
unfolding next_line_break lf_at
next-other c s h k = ground arith

emit-emit : (a b : List LineEvent) (r : Fed) → emit a (emit b r) ≡ emit (a ++ b) r
unfolding emit
emit-emit a b r = rw append_assoc

emit-nil : (r : Fed) → emit [] r ≡ r
unfolding emit
emit-nil r = refl

module _ (max_line : ℕ) where
  -- The buffer never holds more than a line may have.
  abbrev pub Fits : LineState → Type 0
  Fits st = length st.line_buf ≤ max_line

  push-Fits : (st : LineState) (c : ℕ) → Fits st → Fits (push max_line st c).state
  unfolding push
  push-Fits st c h = ground (arith, length-append st.line_buf (c ∷ []))

  -- The two branches of `end_line` are one.
  line_end : Bool → Bytes → Bytes → List LineEvent
  line_end overflow buf part =
      if overflow
      then line [] ∷ []
      else if leb (length buf + length part) max_line
      then line (buf ++ part) ∷ []
      else skip ∷ line [] ∷ []

  line_end_lem :
      (overflow : Bool) (buf part : Bytes)
      → end_line max_line (record { line_buf = buf; line_overflow = overflow }) part
        ≡ line_end overflow buf part
  unfolding end_line line_end
  line_end_lem overflow [] part = ground arith
  line_end_lem overflow (x ∷ buf) part = ground arith

  end_line-nil : (st : LineState) → Fits st → end_line max_line st [] ≡ ended st
  unfolding line_end
  end_line-nil st h =
      line_end_lem st.line_overflow st.line_buf [] ∙ ground (arith, append-nil st.line_buf)

  line_end-push :
      (st : LineState) (c : ℕ) (part : Bytes)
      → Fits st
      → line_end st.line_overflow st.line_buf (c ∷ part)
        ≡ (push max_line st c).events
          ++ line_end
              (push max_line st c).state.line_overflow
              (push max_line st c).state.line_buf
              part
  unfolding push line_end
  line_end-push st c part h =
      ground (arith, append_assoc st.line_buf (c ∷ []) part, length-append st.line_buf (c ∷ []))

  end_line-push :
      (st : LineState) (c : ℕ) (part : Bytes)
      → Fits st
      → end_line max_line st (c ∷ part)
        ≡ (push max_line st c).events ++ end_line max_line (push max_line st c).state part
  unfolding push line_end
  end_line-push st c part h =
      let t = (push max_line st c).state in
      line_end_lem st.line_overflow st.line_buf (c ∷ part)
      ∙ (line_end-push st c part h
          ∙ ap (λ e. (push max_line st c).events ++ e)
              (sym (line_end_lem t.line_overflow t.line_buf part)))

  keep_rest-push :
      (st : LineState) (c : ℕ) (s : Bytes)
      → Fits st
      → keep_rest max_line st (c ∷ s)
        ≡ emit (push max_line st c).events (keep_rest max_line (push max_line st c).state s)
  unfolding keep_rest push emit
  keep_rest-push st c s h =
      ground (arith, append_assoc st.line_buf (c ∷ []) s, length-append st.line_buf (c ∷ []))

  keep_rest-nil :
      (st : LineState) → Fits st → keep_rest max_line st [] ≡ record { state = st; events = [] }
  unfolding keep_rest
  keep_rest-nil st h = ground (arith, append-nil st.line_buf)
