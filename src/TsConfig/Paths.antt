-- ===== src/TsConfig/Paths.antt =====
-- compilerOptions.paths in authored order: `Index`, `Get` and `Set` of ts/tools/tsconfig, and the
-- loop of `UnmarshalJSON` over the members of the object.
use rules_typescript.Base.{
  ℕ, zero, suc, Option, none, some, List, [], ◌∷◌, ◌++◌, if◌then◌else◌, ◌≡◌, refl, ◌∙◌, ap, arith,
  map,
}
use rules_typescript.Base.Text.{Text, text_eq, text_eq_iff}
use rules_typescript.Base.Map.{member}
use rules_typescript.TsConfig.{PathEntry, Paths}

-- `none` is Go's -1.
unfoldable pub index : Paths → Text → Option ℕ
index [] key = none
index (e ∷ p) key =
    if text_eq e.key key then some 0 else elim (index p key) [ none ↦ none | some i ↦ some (suc i) ]

unfoldable pub entry_at : Paths → ℕ → Option PathEntry
entry_at [] i = none
entry_at (e ∷ p) zero = some e
entry_at (e ∷ p) (suc i) = entry_at p i

-- `(*p)[i].Values = values`.
unfoldable pub write_at : Paths → ℕ → List Text → Paths
write_at [] i values = []
write_at (e ∷ p) zero values = record e { values = values } ∷ p
write_at (e ∷ p) (suc i) values = e ∷ write_at p i values

abbrev values_of : Option PathEntry → List Text
values_of none = []
values_of (some e) = e.values

-- A nil slice reads as the empty one.
unfoldable pub get : Paths → Text → List Text
unfolding index entry_at
get p key = elim (index p key) [ none ↦ [] | some i ↦ values_of (entry_at p i) ]

unfoldable pub set : Paths → Text → List Text → Paths
unfolding index write_at
set p key values = elim (index p key) [
  | none ↦ p ++ record { key = key; values = values } ∷ []
  | some i ↦ write_at p i values
]

-- The members of the decoded object, in the order of the text.
unfoldable pub decode_members : List (Text × List Text) → Paths → Paths
unfolding set
decode_members [] decoded = decoded
decode_members ((key, values) ∷ members) decoded = decode_members members (set decoded key values)

get-cons :
    (e : PathEntry) (p : Paths) (key : Text)
    → get (e ∷ p) key ≡ (if text_eq e.key key then e.values else get p key)
get-cons e p key = unfold get in ground arith

set-cons :
    (e : PathEntry) (p : Paths) (key : Text) (values : List Text)
    → set (e ∷ p) key values
      ≡ (if text_eq e.key key then record e { values = values } ∷ p else e ∷ set p key values)
set-cons e p key values = unfold set in ground arith

get-set :
    (p : Paths) (key other : Text) (values : List Text)
    → get (set p key values) other ≡ (if text_eq key other then values else get p other)
get-set [] key other values = unfold get set in ground arith
get-set (e ∷ p) key other values =
    let written : PathEntry = record e { values = values } in
    ground (
      arith,
      set-cons e p key values,
      get-cons written p other,
      get-cons e (set p key values) other,
      get-cons e p other,
      get-set p key other values,
      text_eq_iff e.key key,
      text_eq_iff e.key other,
      text_eq_iff key other,
    )

abbrev pub keys : Paths → List Text
keys = map (λ e. e.key)

keys-set :
    (p : Paths) (key : Text) (values : List Text)
    → keys (set p key values) ≡ (if member key (keys p) then keys p else keys p ++ key ∷ [])
unfolding member
keys-set [] key values = unfold set in refl
keys-set (e ∷ p) key values = ground (arith, set-cons e p key values, keys-set p key values)

-- A write sets the values of its key and of no other, and keeps the authored order: a key that is
-- there keeps its place, and a new one goes to the end.
pub set_lem :
    (p : Paths) (key : Text) (values : List Text)
    → ((other : Text)
        → get (set p key values) other ≡ (if text_eq key other then values else get p other))
      × (keys (set p key values) ≡ (if member key (keys p) then keys p else keys p ++ key ∷ []))
set_lem p key values = (λ other. get-set p key other values, keys-set p key values)

-- The values of the last member of a key, or a default.
unfoldable pub last_values : List (Text × List Text) → Text → List Text → List Text
last_values [] key d = d
last_values ((j, values) ∷ members) key d =
    last_values members key (if text_eq j key then values else d)

decode-from :
    (members : List (Text × List Text)) (decoded : Paths) (key : Text)
    → get (decode_members members decoded) key ≡ last_values members key (get decoded key)
unfolding decode_members last_values
decode-from [] decoded key = refl
decode-from ((j, values) ∷ members) decoded key =
    decode-from members (set decoded j values) key
    ∙ ap (last_values members key) (get-set decoded j key values)

-- Of a key that the object repeats, the last member's values are kept.
pub get-decode_members :
    (members : List (Text × List Text)) (key : Text)
    → get (decode_members members []) key ≡ last_values members key []
get-decode_members members key = unfold get in decode-from members [] key
