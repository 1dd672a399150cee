-- ===== src/Pricing/Names/Found.antt =====
-- What lookup finds is an entry of the table.
use metering_proxy.Common.{
  Bool, true, false, ◌≡◌, ◌⊎◌, Option, none, some, List, Bytes, if◌then◌else◌, inl, inr,
}
use metering_proxy.Common.Trim.{bytes_eq}
use metering_proxy.Pricing.Names.{
  Table, find, lookup, by_alias, by_canonical, or_then, canonicalize,
}

module _ {V : Type 0} where
  -- An entry of the models.
  abbrev pub Found : List (Bytes × V) → V → Type 0
  Found models v = (key : Bytes) × (find key models ≡ some v)

  or_then-some : (a b : Option V) (v : V) → or_then a b ≡ some v → (a ≡ some v) ⊎ (b ≡ some v)
  unfolding or_then
  or_then-some none b v h = inr h
  or_then-some (some w) b v h = inl h

  named-find :
      (name : Option Bytes) (models : List (Bytes × V)) (v : V)
      → elim name [ none ↦ none | some k ↦ find k models ] ≡ some v
      → Found models v
  named-find none models v h = absurd (cc h)
  named-find (some k) models v h = (k, h)

  unless-find :
      (b : Bool) (key : Bytes) (models : List (Bytes × V)) (v : V)
      → (if b then none else find key models) ≡ some v
      → Found models v
  unless-find true key models v h = absurd (cc h)
  unless-find false key models v h = (key, h)

  by_alias-find :
      (t : Table V) (model : Bytes) (v : V) → by_alias t model ≡ some v → Found t.models v
  unfolding by_alias
  by_alias-find t model v h = named-find (find model t.alias_index) t.models v h

  by_canonical-find :
      (t : Table V) (model : Bytes) (v : V) → by_canonical t model ≡ some v → Found t.models v
  unfolding by_canonical
  by_canonical-find t model v h =
      unless-find (bytes_eq (canonicalize model) model) (canonicalize model) t.models v h

  pub lookup-find :
      (t : Table V) (model : Bytes) (v : V) → lookup t model ≡ some v → Found t.models v
  unfolding lookup
  lookup-find t model v h = elim (or_then-some _ _ v h) [
    | inl e ↦ (model, e)
    | inr e ↦ elim (or_then-some _ _ v e) [
      | inl f ↦ by_alias-find t model v f
      | inr f ↦ by_canonical-find t model v f
    ]
  ]
