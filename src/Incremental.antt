-- ===== src/Incremental.antt =====
-- gazelle/incremental/record.go: the record of a run that changed nothing, and the tests that let
-- a later run be skipped. A map lists each path once; the signature of a file is a parameter.
pub mod Unchanged
pub mod Changed
use rules_typescript.Base.{
  ℕ, Bool, true, false, not, ◌&&◌, ◌||◌, Option, none, some, List, [], ◌∷◌, ◌++◌, ◌==◌,
  if◌then◌else◌, length,
}
use rules_typescript.Base.Text.{Text, codes, text_eq, contains}
use rules_typescript.Base.Map.{Map, NameSet, lookup, insert, keys, member}
use rules_typescript.Base.Sort.{sort_strings}
use rules_typescript.Base.GoPath.{base, ext}

pub record Record : Type 0 where
  pub entries : Map Text
  pub signatures : Map Text

abbrev source_extensions : NameSet
source_extensions =
    codes ".ts"
    ∷ codes ".tsx"
    ∷ codes ".mts"
    ∷ codes ".cts"
    ∷ codes ".js"
    ∷ codes ".jsx"
    ∷ codes ".mjs"
    ∷ codes ".cjs"
    ∷ []

unfoldable pub signature_source : Text → Bool
unfolding contains base ext member
signature_source rel =
    if contains rel (codes ":") || contains (base rel) (codes ".config.")
    then false
    else member (ext rel) source_extensions

-- `signFile(root, rel)`: "" when the file cannot be read or scanned.
module _ (sign_file : Text → Text) where
  unfoldable pub sign_sources : Map Text → Map Text
  unfolding signature_source insert
  sign_sources [] = []
  sign_sources ((rel, line) ∷ entries) =
      let rest = sign_sources entries in
      let sig = sign_file rel in
      if signature_source rel && not (text_eq sig []) then insert rel sig rest else rest

  unfoldable pub new_record : Map Text → Record
  unfolding sign_sources
  new_record entries = record { entries = entries; signatures = sign_sources entries }

  -- Whether a source whose line moved kept the signature that was recorded.
  unfoldable pub same_signature : Record → Text → Bool
  unfolding lookup
  same_signature r rel = elim (lookup rel r.signatures) [
    | none ↦ false
    | some sig ↦ text_eq (sign_file rel) sig
  ]

  -- One round of the loop of `Unchanged`: the path may stay as it is.
  unfoldable pub same_entry : Record → Text → Text → Bool
  unfolding lookup same_signature
  same_entry r rel line = elim (lookup rel r.entries) [
    | none ↦ false
    | some was ↦ if text_eq was line then true else same_signature r rel
  ]

  unfoldable pub unchanged_loop : Record → Map Text → Bool
  unfolding same_entry
  unchanged_loop r [] = true
  unchanged_loop r ((rel, line) ∷ now) =
      let rest = unchanged_loop r now in if same_entry r rel line then rest else false

  -- The receiver may be nil.
  unfoldable pub unchanged : Option Record → Map Text → Bool
  unfolding unchanged_loop
  unchanged none now = false
  unchanged (some r) now =
      if not (length now == length r.entries) then false else unchanged_loop r now

-- One round of the loop of `Changed`, by the recorded line; `later` is the rest of the loop.
unfoldable pub changed_entry : Option Text → Text → Text → Option (List Text) → Option (List Text)
changed_entry none rel line later = none
changed_entry (some was) rel line none = none
changed_entry (some was) rel line (some paths) =
    if text_eq was line then some paths else some (rel ∷ paths)

unfoldable pub changed_loop : Record → Map Text → Option (List Text)
unfolding changed_entry lookup
changed_loop r [] = some []
changed_loop r ((rel, line) ∷ now) =
    changed_entry (lookup rel r.entries) rel line (changed_loop r now)

abbrev pub sorted_paths : Option (List Text) → Option (List Text)
sorted_paths none = none
sorted_paths (some paths) = some (sort_strings paths)

-- `none` is its `false`.
unfoldable pub changed : Option Record → Map Text → Option (List Text)
unfolding changed_loop sort_strings
changed none now = none
changed (some r) now =
    if not (length now == length r.entries) then none else sorted_paths (changed_loop r now)
