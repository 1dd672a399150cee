-- ===== src/Pricing/Names/Aliases.antt =====
-- The check of aliases against the index that buildAliasIndex makes and lookup uses.
use mathlib.Core.List.{Memᴰ}
use metering_proxy.Common.{
  ◌≡◌, refl, ap, sym, ◌∙◌, inl, inr, Bool, true, false, not, Option, none, some, List, [], ◌∷◌,
  ◌++◌, Bytes, arith, Bool-cases,
}
use metering_proxy.Common.Equal.{both, bytes_eq-≡, bytes_eq_refl}
use metering_proxy.Common.Trim.{bytes_eq, trim_space, is_empty}
use metering_proxy.Pricing.Names.{
  Table, find, lookup, by_alias, or_then, named_aliases, all_aliases, has_key, valid_aliases,
  validate_alias_namespace, assign_all, build_alias_index,
}

not-true : (b : Bool) → not b ≡ true → b ≡ false
not-true b h = ground arith

module _ {A : Type 0} where
  has_key-none :
      (key : Bytes) (m : List (Bytes × A)) → not (has_key key m) ≡ true → find key m ≡ none
  unfolding has_key
  has_key-none key m h = absent (find key m) h
    where
      absent : (o : Option A) → not (elim o [ none ↦ false | some a ↦ true ]) ≡ true → o ≡ none
      absent none k = refl
      absent (some a) k = absurd (cc k)

  find-here : (key : Bytes) (a : A) (m : List (Bytes × A)) → find key ((key, a) ∷ m) ≡ some a
  unfolding find
  find-here key a m = rw (bytes_eq_refl key) refl

  find-past :
      (key k : Bytes) (a : A) (m : List (Bytes × A))
      → bytes_eq key k ≡ false
      → find key ((k, a) ∷ m) ≡ find key m
  unfolding find
  find-past key k a m h = rw h refl

  find-match :
      (key k : Bytes) (a : A) (m : List (Bytes × A))
      → bytes_eq key k ≡ true
      → find key ((k, a) ∷ m) ≡ some a
  unfolding find
  find-match key k a m h = rw h refl

-- A check of an alias that goes on has found no conflict.
record Free {V : Type 0} (models : List (Bytes × V)) (seen rest : List (Bytes × Bytes))
    (a name : Bytes) : Type 0 where
  named : is_empty a ≡ false
  no_model : find a models ≡ none
  unseen : find a seen ≡ none
  others : valid_aliases models ((a, name) ∷ seen) rest ≡ true

module _ {V : Type 0} (models : List (Bytes × V)) where
  valid-Free :
      (seen rest : List (Bytes × Bytes)) (a name : Bytes)
      → valid_aliases models seen ((a, name) ∷ rest) ≡ true
      → Free models seen rest a name
  unfolding valid_aliases
  valid-Free seen rest a name h =
      let (g, others) = both _ _ h in
      let (f, unseen) = both _ _ g in
      let (e, no_model) = both _ _ f in
      record {
        named = not-true (is_empty a) e;
        no_model = has_key-none a models no_model;
        unseen = has_key-none a seen unseen;
        others = others;
      }

  -- The aliases that are left say nothing of one that was seen.
  assign-seen :
      (x n : Bytes) (seen index rest : List (Bytes × Bytes))
      → valid_aliases models seen rest ≡ true
      → find x seen ≡ some n
      → find x (assign_all index rest) ≡ find x index
  unfolding assign_all
  assign-seen x n seen index [] h e = refl
  assign-seen x n seen index ((a, name) ∷ rest) h e =
      let free = valid-Free seen rest a name h in
      let apart = other x a n seen e free.unseen in
      rw free.named (
        assign-seen x n ((a, name) ∷ seen) ((a, name) ∷ index) rest free.others
          (find-past x a name seen apart ∙ e)
        ∙ find-past x a name index apart)
    where
      other :
          (x a n : Bytes) (seen : List (Bytes × Bytes))
          → find x seen ≡ some n
          → find a seen ≡ none
          → bytes_eq x a ≡ false
      other x a n seen e f = elim (Bool-cases (bytes_eq x a)) [
        | inr d ↦ d
        | inl d ↦
            let g : find a seen ≡ find x seen = ap (λ k. find k seen) (sym (bytes_eq-≡ x a d)) in
            absurd (cc (e, f, g))
      ]

  -- Each alias that was checked is in the index, with its model.
  assign-listed :
      (x n : Bytes) (seen index pairs : List (Bytes × Bytes))
      → valid_aliases models seen pairs ≡ true
      → Memᴰ (x, n) pairs
      → (find x (assign_all index pairs) ≡ some n) × (find x models ≡ none)
  unfolding assign_all
  assign-listed x n seen index [] h m = elim m [ ]
  assign-listed x n seen index ((a, name) ∷ rest) h (Memᴰ.head e) =
      let free = valid-Free seen rest a name h in
      let front =
        assign-seen a name ((a, name) ∷ seen) ((a, name) ∷ index) rest free.others
          (find-here a name seen)
        ∙ find-here a name index in
      let x_is : x ≡ a = ap (λ p. p.0) e in
      let n_is : n ≡ name = ap (λ p. p.1) e in rw (free.named, x_is, n_is) (front, free.no_model)
  assign-listed x n seen index ((a, name) ∷ rest) h (Memᴰ.tail m) =
      let free = valid-Free seen rest a name h in
      rw free.named (assign-listed x n ((a, name) ∷ seen) ((a, name) ∷ index) rest free.others m)

module _ {A : Type 0} where
  mem_left : (a : A) (xs ys : List A) → Memᴰ a xs → Memᴰ a (xs ++ ys)
  mem_left a [] ys m = elim m [ ]
  mem_left a (x ∷ xs) ys (Memᴰ.head e) = Memᴰ.head e
  mem_left a (x ∷ xs) ys (Memᴰ.tail m) = Memᴰ.tail (mem_left a xs ys m)

  mem_right : (a : A) (xs ys : List A) → Memᴰ a ys → Memᴰ a (xs ++ ys)
  mem_right a [] ys m = m
  mem_right a (x ∷ xs) ys m = Memᴰ.tail (mem_right a xs ys m)

named_aliases-Mem :
    (name a : Bytes) (as_ : List Bytes)
    → Memᴰ a as_
    → Memᴰ (trim_space a, name) (named_aliases name as_)
unfolding named_aliases
named_aliases-Mem name a [] m = elim m [ ]
named_aliases-Mem name a (b ∷ as_) (Memᴰ.head e) = Memᴰ.head (ap (λ c. (trim_space c, name)) e)
named_aliases-Mem name a (b ∷ as_) (Memᴰ.tail m) = Memᴰ.tail (named_aliases-Mem name a as_ m)

module _ {V : Type 0} (aliases : V → List Bytes) where
  all_aliases-Mem :
      (name a : Bytes) (ms : List (Bytes × V)) (v : V)
      → find name ms ≡ some v
      → Memᴰ a (aliases v)
      → Memᴰ (trim_space a, name) (all_aliases aliases ms)
  unfolding all_aliases find
  all_aliases-Mem name a [] v e m = absurd (cc e)
  all_aliases-Mem name a ((k, w) ∷ ms) v e m = elim (Bool-cases (bytes_eq name k)) [
    | inl d ↦
        let w_is : w ≡ v = cc (find-match name k w ms d, e) in
        mem_left (trim_space a, name) (named_aliases k (aliases w)) (all_aliases aliases ms)
          (rw (sym (bytes_eq-≡ name k d), w_is) (named_aliases-Mem name a (aliases v) m))
    | inr d ↦
        mem_right (trim_space a, name) (named_aliases k (aliases w)) (all_aliases aliases ms)
          (all_aliases-Mem name a ms v (sym (find-past name k w ms d) ∙ e) m)
  ]

by_alias-some :
    {V : Type 0} (t : Table V) (model name : Bytes)
    → find model t.alias_index ≡ some name
    → by_alias t model ≡ find name t.models
unfolding by_alias
by_alias-some t model name i = ap (λ o. elim o [ none ↦ none | some n ↦ find n t.models ]) i

lookup-by_alias :
    {V : Type 0} (t : Table V) (model : Bytes) (v : V)
    → find model t.models ≡ none
    → by_alias t model ≡ some v
    → lookup t model ≡ some v
unfolding lookup or_then
lookup-by_alias t model v e i = rw (e, i) refl

-- Where the check of aliases accepts the models, each alias of a model, without the white space around
-- it, finds the price of its model, in whatever order the map of models is ranged over.
pub lookup-alias :
    {V : Type 0} (aliases : V → List Bytes) (ms : List (Bytes × V)) (name a : Bytes) (v : V)
    → validate_alias_namespace aliases ms ≡ true
    → find name ms ≡ some v
    → Memᴰ a (aliases v)
    → lookup record { models = ms; alias_index = build_alias_index aliases ms } (trim_space a)
      ≡ some v
unfolding validate_alias_namespace build_alias_index
lookup-alias {V = V} aliases ms name a v h e m =
    let (indexed, no_model) =
      assign-listed ms (trim_space a) name [] [] (all_aliases aliases ms) h
        (all_aliases-Mem aliases name a ms v e m) in
    let t : Table V = record { models = ms; alias_index = build_alias_index aliases ms } in
    lookup-by_alias t (trim_space a) v no_model (by_alias-some t (trim_space a) name indexed ∙ e)
