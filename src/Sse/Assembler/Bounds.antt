-- ===== src/Sse/Assembler/Bounds.antt =====
-- sseEventAssembler: what it holds stays within its limit.
use metering_proxy.Common.{
  not, ◌||◌, ◌&&◌, drop, ℕ, ◌+◌, ◌≤◌, ◌≡◌, refl, Bool, true, false, List, [], ◌∷◌, ◌++◌, Bytes,
  codes, length, ltb, arith, Bool-cases, inl, inr, if◌then◌else◌,
}
use metering_proxy.Common.Trim.{is_empty, has_prefix}
use metering_proxy.Sse.Lines.{LineEvent, skip, line}
use metering_proxy.Sse.Assembler.{
  Assembler, new_assembler, Added, pending_payload_complete, single_line_payload_complete, cleared,
  flush, keep_line, after_flush, add_data, add_line, trim_left, drop_space, noted, process_line,
  process_lines,
}

-- What the lines take in the buffer.
unfoldable pub total : List Bytes → ℕ
total [] = 0
total (p ∷ ps) = length p + 1 + total ps

pub total-append : (ps qs : List Bytes) → total (ps ++ qs) ≡ total ps + total qs
unfolding total
total-append [] qs = omega arith
total-append (p ∷ ps) qs = rw (total-append ps qs) (omega arith)

-- The size counts what is pending, is within the limit, and nothing is pending after an overflow.
pub record IsBounded (a : Assembler) : Type 0 where
  pub counted : a.size ≡ total a.pending
  pub within : a.size ≤ a.max_bytes
  pub empty_overflow : a.overflow ≡ true → a.pending ≡ []

new_assembler-IsBounded : (m : ℕ) → IsBounded (new_assembler m)
unfolding new_assembler total
new_assembler-IsBounded m = record {
  counted = refl;
  within = omega arith;
  empty_overflow = λ _. refl;
}

abbrev pub with_fields : ℕ → List Bytes → ℕ → Bool → Assembler
with_fields m ps n o = record { max_bytes = m; pending = ps; size = n; overflow = o }

flush_fields-IsBounded :
    (m : ℕ) (ps : List Bytes) (n : ℕ) (o : Bool)
    → IsBounded (with_fields m ps n o)
    → IsBounded (flush (with_fields m ps n o)).assembler
unfolding flush cleared total
flush_fields-IsBounded m ps n true h = record {
  counted = refl;
  within = omega arith;
  empty_overflow = λ _. refl;
}
flush_fields-IsBounded m [] n false h = h
flush_fields-IsBounded m (p ∷ ps) n false h = record {
  counted = refl;
  within = omega arith;
  empty_overflow = λ _. refl;
}

flush-IsBounded : (a : Assembler) → IsBounded a → IsBounded (flush a).assembler
flush-IsBounded a h = flush_fields-IsBounded a.max_bytes a.pending a.size a.overflow h

flush-no_overflow : (a : Assembler) → a.overflow ≡ false → (flush a).assembler.overflow ≡ false
unfolding flush cleared
flush-no_overflow a h = ground arith

-- The two states that a data line can leave.
gave_up-IsBounded :
    (a : Assembler) → IsBounded (record a { pending = []; size = 0; overflow = true })
unfolding total
gave_up-IsBounded a = record { counted = refl; within = omega arith; empty_overflow = λ _. refl }

grown-IsBounded :
    (a : Assembler) (payload : Bytes)
    → IsBounded a
    → a.overflow ≡ false
    → ltb a.max_bytes (a.size + (length payload + 1)) ≡ false
    → IsBounded
        (record a { pending = a.pending ++ payload ∷ []; size = a.size + (length payload + 1) })
unfolding total
grown-IsBounded a payload h o fits = record {
  counted = rw (total-append a.pending (payload ∷ [])) (omega (arith, h.counted));
  within = ground arith;
  empty_overflow = λ t. ground arith;
}

keep_line-IsBounded :
    (a : Assembler) (event payload : Bytes)
    → IsBounded a
    → a.overflow ≡ false
    → IsBounded (keep_line a event payload).assembler
unfolding keep_line
keep_line-IsBounded a event payload h o =
    elim (Bool-cases (ltb a.max_bytes (a.size + (length payload + 1)))) [
      | inl e ↦ rw e (gave_up-IsBounded a)
      | inr e ↦ rw e (grown-IsBounded a payload h o e)
    ]

module _ (valid : Bytes → Bool) where
  after_flush-IsBounded :
      (f : Added) (trimmed payload : Bytes)
      → IsBounded f.assembler
      → f.assembler.overflow ≡ false
      → IsBounded (after_flush valid f trimmed payload).assembler
  unfolding after_flush
  after_flush-IsBounded f trimmed payload h o = elim (Bool-cases f.skipped) [
    | inl e ↦ rw e h
    | inr e ↦
        rw e (elim (Bool-cases (is_empty f.event && single_line_payload_complete valid payload)) [
          | inl c ↦ rw c h
          | inr c ↦ rw c (keep_line-IsBounded f.assembler f.event payload h o)
        ])
  ]

  add_data-IsBounded :
      (a : Assembler) (trimmed payload : Bytes)
      → IsBounded a
      → a.overflow ≡ false
      → IsBounded (add_data valid a trimmed payload).assembler
  unfolding add_data
  add_data-IsBounded a trimmed payload h o = elim (Bool-cases (pending_payload_complete valid a)) [
    | inl e ↦ rw e (
        after_flush-IsBounded (flush a) trimmed payload (flush-IsBounded a h)
          (flush-no_overflow a o))
    | inr e ↦ rw e (
        after_flush-IsBounded (record { assembler = a; event = []; skipped = false }) trimmed
          payload h o)
  ]

  abbrev ignores : Assembler → Bytes → Bool
  ignores a l = not (has_prefix (trim_left l) (codes "data:")) || a.overflow

  abbrev payload_of : Bytes → Bytes
  payload_of l = drop_space (drop 5 (trim_left l))

  add_line-cons :
      (a : Assembler) (c : ℕ) (s : Bytes)
      → add_line valid a (c ∷ s) ≡ (
          if ignores a (c ∷ s)
          then record { assembler = a; event = []; skipped = false }
          else add_data valid a (trim_left (c ∷ s)) (payload_of (c ∷ s)))
  unfolding add_line
  add_line-cons a c s = refl

  ignores-overflow : (a : Assembler) (l : Bytes) → ignores a l ≡ false → a.overflow ≡ false
  ignores-overflow a l e = ground arith

  add_line-IsBounded :
      (a : Assembler) (l : Bytes) → IsBounded a → IsBounded (add_line valid a l).assembler
  add_line-IsBounded a [] h = unfold add_line in flush-IsBounded a h
  add_line-IsBounded a (c ∷ s) h = elim (Bool-cases (ignores a (c ∷ s))) [
    | inl e ↦ rw (add_line-cons a c s, e) h
    | inr e ↦
        rw (add_line-cons a c s, e)
          (add_data-IsBounded a (trim_left (c ∷ s)) (payload_of (c ∷ s)) h (ignores-overflow a _ e))
  ]

  process_line-IsBounded :
      (a : Assembler) (l : LineEvent) → IsBounded a → IsBounded (process_line valid a l).assembler
  unfolding process_line noted
  process_line-IsBounded a skip h = h
  process_line-IsBounded a (line l) h = add_line-IsBounded a l h

  process_more-IsBounded :
      (a : Assembler) (ls : List LineEvent)
      → IsBounded a
      → IsBounded (process_lines valid a ls).assembler
  unfolding process_lines
  process_more-IsBounded a [] h = h
  process_more-IsBounded a (l ∷ ls) h =
      process_more-IsBounded (process_line valid a l).assembler ls (process_line-IsBounded a l h)

  -- Whatever lines a stream has, the assembler's size counts the bytes of the pending lines and one
  -- more for each, is at most the limit, and no line is pending after an overflow.
  pub process_lines-IsBounded :
      (m : ℕ) (ls : List LineEvent) → IsBounded (process_lines valid (new_assembler m) ls).assembler
  process_lines-IsBounded m ls =
      process_more-IsBounded (new_assembler m) ls (new_assembler-IsBounded m)
