-- ===== src/Sse/Lines.antt =====
-- internal/proxy/proxy.go, handleStream and nextLineBreak: the bytes that one read returns are cut
-- into physical lines. What the loop does to the outside, recordLineSkip and processPhysicalLine, is
-- a list of events in order. A nil line is the empty one.
pub mod Scan
use metering_proxy.Common.{
  ℕ, zero, suc, ◌+◌, ◌≡◌, refl, Bool, true, false, ◌&&◌, ◌||◌, Option, none, some, List, [], ◌∷◌,
  ◌++◌, Bytes, codes, length, take, drop, ltb, leb, ◌==◌, if◌then◌else◌,
}

-- bytes.IndexByte
unfoldable pub index_byte : ℕ → Bytes → Option ℕ
index_byte b [] = none
index_byte b (c ∷ s) = elim (index_byte b s) [
  | some i ↦ if c == b then some 0 else some (suc i)
  | none ↦ if c == b then some 0 else none
]

starts_with_lf : Bytes → Bool
starts_with_lf [] = false
starts_with_lf (c ∷ s) = c == b'\n'

-- chunk[cr+1] == '\n', where there is such a byte
unfoldable pub lf_at : Bytes → ℕ → Bool
unfolding starts_with_lf
lf_at chunk i = starts_with_lf (drop i chunk)

-- The switch of nextLineBreak, on the first '\n' and the first '\r'.
unfoldable pub break_at : Bytes → Option ℕ → Option ℕ → Option (ℕ × ℕ)
unfolding lf_at
break_at chunk none none = none
break_at chunk (some nl) none = some (nl, 1)
break_at chunk none (some cr) = some (cr, if lf_at chunk (suc cr) then 2 else 1)
break_at chunk (some nl) (some cr) =
    if ltb cr nl then some (cr, if lf_at chunk (suc cr) then 2 else 1) else some (nl, 1)

-- nextLineBreak: the index and the width of the first line break; `none` is (-1, 0).
unfoldable pub next_line_break : Bytes → Option (ℕ × ℕ)
unfolding index_byte break_at
next_line_break chunk = break_at chunk (index_byte b'\n' chunk) (index_byte b'\r' chunk)

pub data LineEvent : Type 0 where
  skip : LineEvent
  line : Bytes → LineEvent

-- lineBuf and lineOverflow
pub record LineState : Type 0 where
  pub line_buf : Bytes
  pub line_overflow : Bool

pub record Fed : Type 0 where
  pub state : LineState
  pub events : List LineEvent

unfoldable pub emit : List LineEvent → Fed → Fed
emit evs r = record { state = r.state; events = evs ++ r.events }

-- No line break in the rest of the chunk.
unfoldable pub keep_rest : ℕ → LineState → Bytes → Fed
keep_rest max_line st chunk =
    if st.line_overflow
    then record { state = st; events = [] }
    else if leb (length st.line_buf + length chunk) max_line
    then record { state = record st { line_buf = st.line_buf ++ chunk }; events = [] }
    else record { state = record { line_buf = []; line_overflow = true }; events = skip ∷ [] }

-- The events of a line that ends after the bytes `part`. An empty buffer and a full one are two
-- branches in the source.
unfoldable pub end_line : ℕ → LineState → Bytes → List LineEvent
end_line max_line st part =
    if st.line_overflow
    then line [] ∷ []
    else if ltb 0 (length st.line_buf)
    then (if leb (length st.line_buf + length part) max_line
        then line (st.line_buf ++ part) ∷ []
        else skip ∷ line [] ∷ [])
    else if leb (length part) max_line
    then line part ∷ []
    else skip ∷ line [] ∷ []

abbrev pub fresh_line : LineState
fresh_line = record { line_buf = []; line_overflow = false }

-- for len(chunk) > 0. A round with a line break shortens the chunk, so its length is enough fuel.
unfoldable pub feed_loop : ℕ → ℕ → LineState → Bytes → Fed
feed_loop max_line zero st chunk = record { state = st; events = [] }
feed_loop max_line (suc fuel) st [] = record { state = st; events = [] }
feed_loop max_line (suc fuel) st (c ∷ s) = elim (next_line_break (c ∷ s)) [
  | none ↦ keep_rest max_line st (c ∷ s)
  | some (nl, width) ↦
      emit (end_line max_line st (take nl (c ∷ s)))
        (feed_loop max_line fuel fresh_line (drop (nl + width) (c ∷ s)))
]

unfoldable pub feed : ℕ → LineState → Bytes → Fed
feed max_line st chunk = feed_loop max_line (length chunk) st chunk

crlf :
    (feed 10 fresh_line (codes "a\r\nb\n\nc")).events
    ≡ line (codes "a") ∷ line (codes "b") ∷ line [] ∷ []
unfolding feed feed_loop next_line_break end_line emit keep_rest
crlf = refl
