-- ===== src/Pricing/Names/Dated.antt =====
-- canonicalize takes a date off the end of a model's name, and lookup finds the price without it.
use metering_proxy.Common.{
  ℕ, suc, ◌-◌, ◌<◌, ◌≤◌, ◌≡◌, refl, ap, ◌∙◌, ◌⊎◌, inl, inr, Bool, true, false, ◌&&◌, none, some, [],
  ◌∷◌, ◌++◌, Bytes, length, drop, ltb, arith, length-append, take_front, drop_front, drop_into,
  length-drop, ==→eq, lt→ltb, ltb→lt, Bool-cases,
}
use metering_proxy.Common.Trim.{bytes_eq}
use metering_proxy.Pricing.Names.{
  Table, find, lookup, by_alias, by_canonical, or_then, canonicalize, is_date_suffix,
  is_compact_date_suffix, date_chars, starts_dash,
}

-- "-YYYY-MM-DD" or "-YYYYMMDD"
abbrev pub IsDate : Bytes → Type 0
IsDate s = (is_date_suffix s ≡ true) ⊎ (is_compact_date_suffix s ≡ true)

and_first : (a b : Bool) → (a && b) ≡ true → a ≡ true
and_first a b h = ground arith

and_second : (a b : Bool) → (a && b) ≡ true → b ≡ true
and_second a b h = ground arith

length-date : (s : Bytes) → is_date_suffix s ≡ true → length s ≡ 11
unfolding is_date_suffix
length-date s h = ==→eq (length s) 11 (and_first _ _ (and_first _ _ h))

length-compact : (s : Bytes) → is_compact_date_suffix s ≡ true → length s ≡ 9
unfolding is_compact_date_suffix
length-compact s h = ==→eq (length s) 9 (and_first _ _ (and_first _ _ h))

canonicalize-date :
    (m s : Bytes) → 0 < length m → is_date_suffix s ≡ true → canonicalize (m ++ s) ≡ m
unfolding canonicalize
canonicalize-date m s h d =
    let size = length-date s d in
    let total = length-append m s in
    let more : ltb 11 (length (m ++ s)) ≡ true = lt→ltb 11 (length (m ++ s)) (omega arith) in
    let cut = drop_front (length (m ++ s) - 11) m s (omega arith) in
    let kept = take_front (length (m ++ s) - 11) m s (omega arith) in rw (more, cut, d, kept) refl

-- With two bytes in front, the dash of a compact date stands where a digit of the year would.
dash_third : (a b : ℕ) (s : Bytes) → starts_dash s ≡ true → is_date_suffix (a ∷ b ∷ s) ≡ false
unfolding is_date_suffix starts_dash date_chars
dash_third a b [] h = absurd (cc h)
dash_third a b (c ∷ s) h = ground arith

compact-starts_dash : (s : Bytes) → is_compact_date_suffix s ≡ true → starts_dash s ≡ true
unfolding is_compact_date_suffix
compact-starts_dash s h = ground arith

not_dated : (p s : Bytes) → length p ≡ 2 → starts_dash s ≡ true → is_date_suffix (p ++ s) ≡ false
not_dated [] s e h = absurd (omega arith)
not_dated (a ∷ []) s e h = absurd (omega arith)
not_dated (a ∷ b ∷ []) s e h = dash_third a b s h
not_dated (a ∷ b ∷ c ∷ p) s e h = absurd (omega arith)

-- The last eleven bytes of a name with a compact date are no date of the other form.
compact-not_dated :
    (m s : Bytes)
    → is_compact_date_suffix s ≡ true
    → (ltb 11 (length (m ++ s)) && is_date_suffix (drop (length (m ++ s) - 11) (m ++ s))) ≡ false
compact-not_dated m s d = elim (Bool-cases (ltb 11 (length (m ++ s)))) [
  | inr e ↦ rw e refl
  | inl e ↦
      let size = length-compact s d in
      let total = length-append m s in
      let long = ltb→lt 11 (length (m ++ s)) e in
      let reach : length (m ++ s) - 11 ≤ length m = omega arith in
      let front : length (drop (length (m ++ s) - 11) m) ≡ 2 =
        length-drop (length (m ++ s) - 11) m ∙ omega arith in
      rw (e, drop_into (length (m ++ s) - 11) m s reach)
        (not_dated (drop (length (m ++ s) - 11) m) s front (compact-starts_dash s d))
]

canonicalize-compact :
    (m s : Bytes) → 0 < length m → is_compact_date_suffix s ≡ true → canonicalize (m ++ s) ≡ m
unfolding canonicalize
canonicalize-compact m s h d =
    let size = length-compact s d in
    let total = length-append m s in
    let more : ltb 9 (length (m ++ s)) ≡ true = lt→ltb 9 (length (m ++ s)) (omega arith) in
    let cut = drop_front (length (m ++ s) - 9) m s (omega arith) in
    let kept = take_front (length (m ++ s) - 9) m s (omega arith) in
    rw (compact-not_dated m s d, more, cut, d, kept) refl

-- A date of either form, with a name in front of it, is what canonicalize takes off, and all that it
-- takes off.
pub canonicalize-append : (m s : Bytes) → 0 < length m → IsDate s → canonicalize (m ++ s) ≡ m
canonicalize-append m s h (inl d) = canonicalize-date m s h d
canonicalize-append m s h (inr d) = canonicalize-compact m s h d

bytes_eq-length : (s t : Bytes) → bytes_eq s t ≡ true → length s ≡ length t
unfolding bytes_eq
bytes_eq-length [] [] h = refl
bytes_eq-length [] (c ∷ t) h = absurd (cc h)
bytes_eq-length (a ∷ s) [] h = absurd (cc h)
bytes_eq-length (a ∷ s) (c ∷ t) h = ap suc (bytes_eq-length s t (and_second _ _ h))

length-IsDate : (s : Bytes) → IsDate s → 0 < length s
length-IsDate s (inl d) = omega (arith, length-date s d)
length-IsDate s (inr d) = omega (arith, length-compact s d)

differs : (m s : Bytes) → 0 < length s → bytes_eq m (m ++ s) ≡ false
differs m s h = elim (Bool-cases (bytes_eq m (m ++ s))) [
  | inr e ↦ e
  | inl e ↦ absurd (omega (arith, bytes_eq-length m (m ++ s) e, length-append m s, h))
]

by_alias-none :
    {V : Type 0} (t : Table V) (model : Bytes)
    → find model t.alias_index ≡ none
    → by_alias t model ≡ none
unfolding by_alias
by_alias-none t model i = ap (λ o. elim o [ none ↦ none | some name ↦ find name t.models ]) i

by_canonical-dated :
    {V : Type 0} (t : Table V) (m s : Bytes)
    → 0 < length m
    → IsDate s
    → by_canonical t (m ++ s) ≡ find m t.models
unfolding by_canonical
by_canonical-dated t m s h d =
    rw (canonicalize, canonicalize-append m s h d, differs m s (length-IsDate s d)) refl

-- A model's name with a date of either form at the end, which is neither a model nor an alias of its
-- own, finds the price of the name without the date.
pub lookup-dated :
    {V : Type 0} (t : Table V) (m s : Bytes)
    → 0 < length m
    → IsDate s
    → find (m ++ s) t.models ≡ none
    → find (m ++ s) t.alias_index ≡ none
    → lookup t (m ++ s) ≡ find m t.models
unfolding lookup or_then
lookup-dated t m s h d e i = rw (e, by_alias-none t (m ++ s) i, by_canonical-dated t m s h d) refl
