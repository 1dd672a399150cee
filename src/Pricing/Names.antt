-- ===== src/Pricing/Names.antt =====
-- internal/pricing/pricing.go: how a model's name finds its price: lookup, lookupMultimodal, the index
-- of aliases, the checks of aliases, and canonicalize. The text and the multimodal versions are the
-- same code over two tables, here one over a type V of prices with aliases.
pub mod Found
pub mod Aliases
pub mod Dated
use metering_proxy.Common.{
  ℕ, zero, suc, ◌+◌, ◌-◌, Bool, true, false, not, ◌&&◌, ◌||◌, Option, none, some, List, [], ◌∷◌,
  ◌++◌, Bytes, length, take, drop, ltb, leb, ◌==◌, if◌then◌else◌,
}
use metering_proxy.Common.Trim.{trim_space, bytes_eq, is_empty}

abbrev is_digit : ℕ → Bool
is_digit c = leb b'0' c && leb c b'9'

-- The loop of isDateSuffix, from position i.
unfoldable pub date_chars : ℕ → Bytes → Bool
date_chars i [] = true
date_chars i (c ∷ s) = (if i == 5 || i == 8 then c == b'-' else is_digit c) && date_chars (suc i) s

-- s[0] != '-'
unfoldable pub starts_dash : Bytes → Bool
starts_dash [] = false
starts_dash (c ∷ s) = c == b'-'

unfoldable pub is_date_suffix : Bytes → Bool
unfolding date_chars starts_dash
is_date_suffix s = length s == 11 && starts_dash s && date_chars 1 (drop 1 s)

unfoldable pub all_digits : Bytes → Bool
all_digits [] = true
all_digits (c ∷ s) = is_digit c && all_digits s

unfoldable pub is_compact_date_suffix : Bytes → Bool
unfolding all_digits starts_dash
is_compact_date_suffix s = length s == 9 && starts_dash s && all_digits (drop 1 s)

unfoldable pub canonicalize : Bytes → Bytes
unfolding is_date_suffix is_compact_date_suffix
canonicalize model =
    let n = length model in
    if ltb 11 n && is_date_suffix (drop (n - 11) model)
    then take (n - 11) model
    else if ltb 9 n && is_compact_date_suffix (drop (n - 9) model)
    then take (n - 9) model
    else model

-- m[key], over the entries.
unfoldable pub find {ℓ} : {A : Type ℓ} → Bytes → List (Bytes × A) → Option A
unfolding bytes_eq
find key [] = none
find key ((k, a) ∷ m) = if bytes_eq key k then some a else find key m

unfoldable has_key : {A : Type 0} → Bytes → List (Bytes × A) → Bool
has_key key m = elim (find key m) [ none ↦ false | some a ↦ true ]

-- The loop of validateTextAliasNamespace; `seen` has the aliases so far. An error is `false`.
unfoldable pub valid_aliases :
    {V : Type 0} → List (Bytes × V) → List (Bytes × Bytes) → List (Bytes × Bytes) → Bool
unfolding find has_key
valid_aliases models seen [] = true
valid_aliases models seen ((a, name) ∷ rest) =
    not (is_empty a)
    && not (has_key a models)
    && not (has_key a seen)
    && valid_aliases models ((a, name) ∷ seen) rest

-- The assignments of buildAliasIndex: a later one for the same alias stands in front.
unfoldable pub assign_all : List (Bytes × Bytes) → List (Bytes × Bytes) → List (Bytes × Bytes)
assign_all index [] = index
assign_all index ((a, name) ∷ rest) =
    assign_all (if is_empty a then index else (a, name) ∷ index) rest

-- The aliases of a model, each with the model's name, without surrounding space.
unfoldable pub named_aliases : Bytes → List Bytes → List (Bytes × Bytes)
unfolding trim_space
named_aliases name [] = []
named_aliases name (a ∷ as_) = (trim_space a, name) ∷ named_aliases name as_

module _ {V : Type 0} (aliases : V → List Bytes) where
  unfoldable pub all_aliases : List (Bytes × V) → List (Bytes × Bytes)
  unfolding named_aliases
  all_aliases [] = []
  all_aliases ((name, v) ∷ models) = named_aliases name (aliases v) ++ all_aliases models

  -- validateTextAliasNamespace and validateMultimodalAliasNamespace
  unfoldable pub validate_alias_namespace : List (Bytes × V) → Bool
  unfolding valid_aliases all_aliases
  validate_alias_namespace models = valid_aliases models [] (all_aliases models)

  unfoldable pub build_alias_index : List (Bytes × V) → List (Bytes × Bytes)
  unfolding assign_all all_aliases
  build_alias_index models = assign_all [] (all_aliases models)

-- Pricing.Models and aliasIndex, or Multimodal and multimodalAliasIndex.
pub record Table (V : Type 0) : Type 0 where
  pub models : List (Bytes × V)
  pub alias_index : List (Bytes × Bytes)

module _ {V : Type 0} where
  -- The first of two answers.
  unfoldable pub or_then : Option V → Option V → Option V
  or_then none b = b
  or_then (some v) b = some v

  unfoldable pub by_alias : Table V → Bytes → Option V
  unfolding find
  by_alias t model = elim (find model t.alias_index) [
    | none ↦ none
    | some name ↦ find name t.models
  ]

  unfoldable pub by_canonical : Table V → Bytes → Option V
  unfolding find canonicalize bytes_eq
  by_canonical t model =
      let canonical = canonicalize model in
      if bytes_eq canonical model then none else find canonical t.models

  -- lookup and lookupMultimodal
  unfoldable pub lookup : Table V → Bytes → Option V
  unfolding find by_alias by_canonical or_then
  lookup t model = or_then (find model t.models) (or_then (by_alias t model) (by_canonical t model))
