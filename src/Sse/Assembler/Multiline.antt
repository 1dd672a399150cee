-- ===== src/Sse/Assembler/Multiline.antt =====
-- sseEventAssembler: an event whose data is spread over lines comes out joined.
use metering_proxy.Common.{
  ℕ, ◌+◌, ◌≤◌, ◌≡◌, refl, ap, ◌∙◌, Bool, true, false, not, ◌&&◌, List, [], ◌∷◌, ◌++◌, Bytes, codes,
  length, ltb, leb, arith, append_assoc, append-nil,
}
use metering_proxy.Common.Trim.{has_prefix}
use metering_proxy.Sse.Lines.{LineEvent, line}
use metering_proxy.Sse.Assembler.{
  Assembler, Added, join_lines, pending_payload_complete, single_line_payload_complete, flush,
  keep_line, after_flush, add_data, add_line, sse_event, trim_left, drop_space, Processed, noted,
  process_line, process_lines,
}
use metering_proxy.Sse.Assembler.Bounds.{total, total-append, with_fields}

unfoldable pub data_line : Bytes → Bytes
data_line p = codes "data: " ++ p

-- The lines of one event, with the blank line that ends it.
unfoldable pub event_lines : List Bytes → List LineEvent
unfolding data_line
event_lines [] = line [] ∷ []
event_lines (p ∷ ps) = line (data_line p) ∷ event_lines ps

module _ (valid : Bytes → Bool) (m : ℕ) where
  abbrev pub holding : List Bytes → Assembler
  holding acc = with_fields m acc (total acc) false

  -- With `acc` pending, the lines `ps` are all kept: what is pending is not yet complete before any
  -- of them, none is complete by itself, and they fit.
  unfoldable pub waits : List Bytes → List Bytes → Bool
  waits acc [] = true
  waits acc (p ∷ ps) =
      not (pending_payload_complete valid (holding acc))
      && not (single_line_payload_complete valid p)
      && leb (total acc + (length p + 1)) m
      && waits (acc ++ p ∷ []) ps

  -- What `waits` says of its first line.
  record Kept (acc : List Bytes) (p : Bytes) : Type 0 where
    pub not_complete : pending_payload_complete valid (holding acc) ≡ false
    pub not_alone : single_line_payload_complete valid p ≡ false
    pub fits : total acc + (length p + 1) ≤ m

  waits-Kept : (acc ps : List Bytes) (p : Bytes) → waits acc (p ∷ ps) ≡ true → Kept acc p
  unfolding waits
  waits-Kept acc ps p h = record {
    not_complete = ground arith;
    not_alone = ground arith;
    fits = ground arith;
  }

  waits-next :
      (acc ps : List Bytes) (p : Bytes)
      → waits acc (p ∷ ps) ≡ true
      → waits (acc ++ p ∷ []) ps ≡ true
  unfolding waits
  waits-next acc ps p h = ground arith

  add_line-data :
      (a : Assembler) (p : Bytes)
      → a.overflow ≡ false
      → add_line valid a (data_line p) ≡ add_data valid a (data_line p) p
  unfolding add_line data_line trim_left has_prefix drop_space
  add_line-data a p h = rw h refl

  fits-ltb :
      (acc : List Bytes) (p : Bytes) → Kept acc p → ltb m (total acc + (length p + 1)) ≡ false
  fits-ltb acc p k = ground (arith, k.fits)

  total-snoc : (acc : List Bytes) (p : Bytes) → total (acc ++ p ∷ []) ≡ total acc + (length p + 1)
  unfolding total
  total-snoc acc p = total-append acc (p ∷ []) ∙ omega arith

  keep_line-Kept :
      (acc : List Bytes) (p : Bytes)
      → Kept acc p
      → keep_line (holding acc) [] p
        ≡ record { assembler = holding (acc ++ p ∷ []); event = []; skipped = false }
  unfolding keep_line
  keep_line-Kept acc p k = rw (fits-ltb acc p k, total-snoc acc p) refl

  add_line-Kept :
      (acc : List Bytes) (p : Bytes)
      → Kept acc p
      → add_line valid (holding acc) (data_line p)
        ≡ record { assembler = holding (acc ++ p ∷ []); event = []; skipped = false }
  unfolding add_data after_flush
  add_line-Kept acc p k =
      add_line-data (holding acc) p refl ∙ rw (k.not_complete, k.not_alone) (keep_line-Kept acc p k)

  flush_holding :
      (p : Bytes) (ps : List Bytes)
      → noted (add_line valid (holding (p ∷ ps)) []) ≡ record {
        assembler = holding [];
        events = sse_event (codes "data: " ++ join_lines (p ∷ ps)) ∷ [];
      }
  unfolding noted add_line flush total
  flush_holding p ps = refl

  -- The lines after a call of add_line.
  abbrev and_then : Added → List LineEvent → Processed
  and_then r ls =
      let rest = process_lines valid (noted r).assembler ls in
      record { assembler = rest.assembler; events = (noted r).events ++ rest.events }

  process_line-first :
      (a : Assembler) (l : Bytes) (ls : List LineEvent)
      → process_lines valid a (line l ∷ ls) ≡ and_then (add_line valid a l) ls
  unfolding process_lines process_line
  process_line-first a l ls = refl

  -- A line that is kept shows nothing.
  process_lines-Kept :
      (acc ps : List Bytes) (p : Bytes)
      → waits acc (p ∷ ps) ≡ true
      → process_lines valid (holding acc) (event_lines (p ∷ ps))
        ≡ process_lines valid (holding (acc ++ p ∷ [])) (event_lines ps)
  unfolding event_lines noted
  process_lines-Kept acc ps p h =
      process_line-first (holding acc) (data_line p) (event_lines ps)
      ∙ ap (λ r. and_then r (event_lines ps)) (add_line-Kept acc p (waits-Kept acc ps p h))

  process_more :
      (p : Bytes) (acc ps : List Bytes)
      → waits (p ∷ acc) ps ≡ true
      → process_lines valid (holding (p ∷ acc)) (event_lines ps) ≡ record {
        assembler = holding [];
        events = sse_event (codes "data: " ++ join_lines (p ∷ acc ++ ps)) ∷ [];
      }
  process_more p acc [] h =
      unfold process_lines process_line event_lines in
      rw (append-nil acc) (
        ap (λ r. record { assembler = r.assembler; events = r.events ++ [] }) (flush_holding p acc))
  process_more p acc (q ∷ ps) h =
      process_lines-Kept (p ∷ acc) ps q h
      ∙ (process_more p (acc ++ q ∷ []) ps (waits-next (p ∷ acc) ps q h)
          ∙ ap
              (λ s. record {
                assembler = holding [];
                events = sse_event (codes "data: " ++ join_lines (p ∷ s)) ∷ [];
              })
              (append_assoc acc (q ∷ []) ps))

  -- The data lines of an event and the blank line after them give one event, "data: " and the lines
  -- joined by '\n', and the assembler is empty again: for at least one line, where no line is a
  -- complete payload by itself, none follows a complete one, and together they fit.
  pub process_lines-join :
      (p : Bytes) (ps : List Bytes)
      → waits [] (p ∷ ps) ≡ true
      → process_lines valid (holding []) (event_lines (p ∷ ps)) ≡ record {
        assembler = holding [];
        events = sse_event (codes "data: " ++ join_lines (p ∷ ps)) ∷ [];
      }
  process_lines-join p ps h =
      process_lines-Kept [] ps p h ∙ process_more p [] ps (waits-next [] ps p h)
