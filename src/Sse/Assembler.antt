-- ===== src/Sse/Assembler.antt =====
-- internal/proxy/proxy.go, sseEventAssembler: the data lines of a stream are put together into
-- events. `valid` is json.Valid. A nil slice is the empty one.
pub mod Bounds
pub mod Multiline
use metering_proxy.Common.{
  ℕ, ◌+◌, Bool, true, false, not, ◌&&◌, ◌||◌, List, [], ◌∷◌, ◌++◌, Bytes, codes, length, drop, ltb,
  leb, ◌==◌, if◌then◌else◌,
}
use metering_proxy.Common.Trim.{trim_space, has_prefix, bytes_eq, is_empty}
use metering_proxy.Sse.Lines.{LineEvent, skip, line}

pub record Assembler : Type 0 where
  pub max_bytes : ℕ
  pub pending : List Bytes  -- data
  pub size : ℕ
  pub overflow : Bool

-- newSSEEventAssembler; a limit below 1 is replaced.
unfoldable pub new_assembler : ℕ → Assembler
new_assembler max_bytes = record {
  max_bytes = if leb max_bytes 0 then 262144 else max_bytes;
  pending = [];
  size = 0;
  overflow = false;
}

-- What a call returns: the state after it, the event, and whether something was left out.
pub record Added : Type 0 where
  pub assembler : Assembler
  pub event : Bytes
  pub skipped : Bool

unfoldable pub join_more : List Bytes → Bytes
join_more [] = []
join_more (p ∷ ps) = b'\n' ∷ p ++ join_more ps

-- The lines with '\n' between them.
unfoldable pub join_lines : List Bytes → Bytes
unfolding join_more
join_lines [] = []
join_lines (p ∷ ps) = p ++ join_more ps

unfoldable pub pending_payload : Assembler → Bytes
pending_payload a = join_lines a.pending

unfoldable pub cleared : Assembler → Assembler
cleared a = record a { pending = []; size = 0; overflow = false }

unfoldable pub flush : Assembler → Added
unfolding cleared
flush a =
    if a.overflow
    then record { assembler = cleared a; event = []; skipped = true }
    else elim a.pending [
      | [] ↦ record { assembler = a; event = []; skipped = false }
      | p ∷ ps ↦ record {
        assembler = record a { pending = []; size = 0 };
        event = codes "data: " ++ join_lines (p ∷ ps);
        skipped = false;
      }
    ]

-- bytes.TrimLeft(line, " \t")
unfoldable pub trim_left : Bytes → Bytes
trim_left [] = []
trim_left (c ∷ s) = let rest = trim_left s in if c == b' ' || c == b'\t' then rest else c ∷ s

-- One space after "data:" is not part of the data.
unfoldable pub drop_space : Bytes → Bytes
drop_space [] = []
drop_space (c ∷ s) = if c == b' ' then s else c ∷ s

-- The data line is kept, where it fits.
unfoldable pub keep_line : Assembler → Bytes → Bytes → Added
keep_line a event payload =
    let size = a.size + (length payload + 1) in
    if ltb a.max_bytes size
    then record {
      assembler = record a { pending = []; size = 0; overflow = true };
      event = event;
      skipped = true;
    }
    else record {
      assembler = record a { pending = a.pending ++ payload ∷ []; size = size };
      event = event;
      skipped = false;
    }

-- What processPhysicalLine does to the outside.
pub data StreamEvent : Type 0 where
  line_skip : StreamEvent
  sse_event : Bytes → StreamEvent

pub record Processed : Type 0 where
  pub assembler : Assembler
  pub events : List StreamEvent

-- processPhysicalLine, after addLine.
unfoldable pub noted : Added → Processed
noted r = record {
  assembler = r.assembler;
  events =
      (if r.skipped then line_skip ∷ [] else [])
      ++ (if is_empty r.event then [] else sse_event r.event ∷ []);
}

-- flushPendingEvent
unfoldable pub flush_pending_event : Assembler → Processed
unfolding flush
flush_pending_event a =
    let r = flush a in
    record {
      assembler = r.assembler;
      events =
          if r.skipped
          then line_skip ∷ []
          else if is_empty r.event
          then []
          else sse_event r.event ∷ [];
    }

module _ (valid : Bytes → Bool) where
  unfoldable pub is_payload : Bytes → Bool
  is_payload trimmed = bytes_eq trimmed (codes "[DONE]") || valid trimmed

  unfoldable pub pending_payload_complete : Assembler → Bool
  unfolding is_payload pending_payload
  pending_payload_complete a = elim a.pending [
    | [] ↦ false
    | p ∷ ps ↦ is_payload (trim_space (join_lines (p ∷ ps)))
  ]

  unfoldable pub single_line_payload_complete : Bytes → Bool
  unfolding is_payload
  single_line_payload_complete payload =
      let trimmed = trim_space payload in is_empty trimmed || is_payload trimmed

  -- addLine, after what was pending was flushed, if it was complete.
  unfoldable pub after_flush : Added → Bytes → Bytes → Added
  unfolding keep_line single_line_payload_complete
  after_flush f trimmed payload =
      if f.skipped
      then record { assembler = f.assembler; event = []; skipped = true }
      else if is_empty f.event && single_line_payload_complete payload
      then record { assembler = f.assembler; event = trimmed; skipped = false }
      else keep_line f.assembler f.event payload

  -- addLine, for a line with data.
  unfoldable pub add_data : Assembler → Bytes → Bytes → Added
  unfolding after_flush pending_payload_complete flush
  add_data a trimmed payload =
      after_flush
        (if pending_payload_complete a
          then flush a
          else record { assembler = a; event = []; skipped = false })
        trimmed payload

  unfoldable pub add_line : Assembler → Bytes → Added
  unfolding add_data flush trim_left drop_space has_prefix
  add_line a [] = flush a
  add_line a (c ∷ s) =
      let trimmed = trim_left (c ∷ s) in
      if not (has_prefix trimmed (codes "data:")) || a.overflow
      then record { assembler = a; event = []; skipped = false }
      else add_data a trimmed (drop_space (drop 5 trimmed))

  -- The list of calls of recordLineSkip and processSSEEvent, in order.
  unfoldable pub process_line : Assembler → LineEvent → Processed
  unfolding add_line noted
  process_line a skip = record { assembler = a; events = line_skip ∷ [] }
  process_line a (line l) = noted (add_line a l)

  unfoldable pub process_lines : Assembler → List LineEvent → Processed
  process_lines a [] = record { assembler = a; events = [] }
  process_lines a (l ∷ ls) =
      let first = process_line a l in
      let rest = process_lines first.assembler ls in
      record { assembler = rest.assembler; events = first.events ++ rest.events }
