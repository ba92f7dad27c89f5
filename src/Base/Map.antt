-- ===== src/Base/Map.antt =====
-- Go maps keyed by strings, as association lists. `insert` keeps keys unique, so every map that
-- is built from the empty one lists each of its keys once; a `for range` visits the entries in
-- the list's order, which is one of the orders that Go allows.
use mathlib.Core.Path.{◌≡◌, refl, subst}
use mathlib.Core.Logic.{inl, inr}
use mathlib.Core.Bool.{Bool, true, false}
use mathlib.Core.Option.{Option, none, some}
use mathlib.Core.List.{List, [], ◌∷◌}
use native.Mathlib.Omega.{arith}
use rules_typescript.Base.Tests.{if◌then◌else◌, Bool-cases}
use rules_typescript.Base.Text.{Text, text_eq, text_eq_iff}

abbrev pub Map {ℓ} : Type ℓ → Type ℓ
Map V = List (Text × V)

module _ {ℓ} {V : Type ℓ} where
  unfoldable pub lookup : Text → Map V → Option V
  lookup k [] = none
  lookup k ((j, v) ∷ m) = if text_eq j k then some v else lookup k m

  unfoldable pub insert : Text → V → Map V → Map V
  insert k v [] = (k, v) ∷ []
  insert k v ((j, w) ∷ m) = if text_eq j k then (k, v) ∷ m else (j, w) ∷ insert k v m

  -- A write through a pointer to the value under a key that is there.
  unfoldable pub update : Text → (V → V) → Map V → Map V
  update k f [] = []
  update k f ((j, w) ∷ m) = if text_eq j k then (j, f w) ∷ m else (j, w) ∷ update k f m

  unfoldable pub has_key : Text → Map V → Bool
  unfolding lookup
  has_key k m = elim (lookup k m) [ none ↦ false | some v ↦ true ]

  unfoldable pub keys : Map V → List Text
  keys [] = []
  keys ((k, v) ∷ m) = k ∷ keys m

  pub lookup-insert :
      (k j : Text) (v : V) (m : Map V)
      → lookup j (insert k v m) ≡ (if text_eq k j then some v else lookup j m)
  unfolding lookup insert
  lookup-insert k j v [] = refl
  lookup-insert k j v ((i, w) ∷ m) =
      ground (arith, text_eq_iff k j, text_eq_iff i k, text_eq_iff i j, lookup-insert k j v m)

-- A set of names, `map[string]bool` with `true` values only.
abbrev pub NameSet : Type 0
NameSet = List Text

unfoldable pub member : Text → NameSet → Bool
member k [] = false
member k (j ∷ s) = if text_eq j k then true else member k s

unfoldable pub add_name : Text → NameSet → NameSet
unfolding member
add_name k s = if member k s then s else k ∷ s

pub member-add_name :
    (k j : Text) (s : NameSet)
    → member j (add_name k s) ≡ (if text_eq k j then true else member j s)
unfolding add_name
member-add_name k j s = ground (arith, text_eq_iff k j)

-- Every value of a map.
module _ {ℓ κ} {V : Type ℓ} where
  abbrev pub AllValues : (V → Type κ) → Map V → Type κ
  AllValues P [] = Unit
  AllValues P ((k, v) ∷ m) = P v × AllValues P m

  pub AllValues-insert :
      (P : V → Type κ) (k : Text) (v : V) (m : Map V)
      → P v
      → AllValues P m
      → AllValues P (insert k v m)
  unfolding insert
  AllValues-insert P k v [] p h = (p, tt)
  AllValues-insert P k v ((j, w) ∷ m) p h = elim (Bool-cases (text_eq j k)) [
    | inl same ↦ rw same (p, h.1)
    | inr other ↦ rw other (h.0, AllValues-insert P k v m p h.1)
  ]

  pub AllValues-update :
      (P : V → Type κ) (k : Text) (f : V → V) (m : Map V)
      → ((v : V) → P v → P (f v))
      → AllValues P m
      → AllValues P (update k f m)
  unfolding update
  AllValues-update P k f [] keep h = tt
  AllValues-update P k f ((j, w) ∷ m) keep h = elim (Bool-cases (text_eq j k)) [
    | inl same ↦ rw same (keep w h.0, h.1)
    | inr other ↦ rw other (h.0, AllValues-update P k f m keep h.1)
  ]

  pub AllValues-lookup :
      (P : V → Type κ) (k : Text) (m : Map V) {v : V} → AllValues P m → lookup k m ≡ some v → P v
  unfolding lookup
  AllValues-lookup P k [] h e = absurd (grind arith)
  AllValues-lookup P k ((j, w) ∷ m) {v} h e = elim (Bool-cases (text_eq j k)) [
    | inl same ↦ let q : some w ≡ some v = rw same at e in subst P (cc) h.0
    | inr other ↦ AllValues-lookup P k m h.1 (rw other at e)
  ]
