-- ===== src/Owner.antt =====
-- The store of gazelle/owner.go, gazelle/generate.go and gazelle/manifest.go: which package owns a
-- file, the sources of a package by class, and the metadata at or above a directory. A map entry
-- that is missing reads as Go's zero value. What other files of the extension tell (whether a rule
-- produces a file, whether a codegen writes it, what a metadata file is) is a parameter.
pub mod Data
pub mod Sources
use rules_typescript.Base.{
  ℕ, zero, suc, Bool, true, false, not, ◌&&◌, ◌||◌, Option, none, some, List, [], ◌∷◌, ◌++◌,
  if◌then◌else◌, any, length, map,
}
use rules_typescript.Base.Text.{Text, codes, text_eq}
use rules_typescript.Base.Map.{Map, NameSet, lookup, has_key, keys, member}
use rules_typescript.Base.Sort.{sort_strings}
use rules_typescript.Base.GoPath.{parent_dir, base, join_path}
use rules_typescript.Base.GoPath.Walk.{nearest, above}
use rules_typescript.Files.{
  first_party, FileClass, library_file, test_file, declaration_file, classify, twin_of,
  dir_is_ancestor_of,
}
use rules_typescript.Npm.Importers.{Manifest}

-- The fields of `programStore` that the walks read; `emission_files` holds the keys of each BUILD
-- file's directives.
pub record ProgramStore : Type 0 where
  pub packages : Map NameSet
  pub walked : Map Bool
  pub files : Map (List Text)
  pub foreign : Map Text
  pub emission_files : Option (Map (List Text))

abbrev pub set_at : Option NameSet → NameSet
set_at none = []
set_at (some s) = s

abbrev pub flag_at : Option Bool → Bool
flag_at none = false
flag_at (some b) = b

abbrev pub text_at : Option Text → Text
text_at none = []
text_at (some t) = t

abbrev pub is_package : ProgramStore → Text → Bool
is_package s d = has_key d s.packages

unfoldable pub source_file : ProgramStore → Text → Bool
unfolding first_party member lookup parent_dir base
source_file s f = first_party f && member (base f) (set_at (lookup (parent_dir f) s.files))

-- The keys of the BUILD file of a directory, where there is a graph and a file.
abbrev directives_at : Option (Map (List Text)) → Text → Option (List Text)
directives_at none dir = none
directives_at (some files) dir = lookup dir files

-- One round of the loop of `generationDisabled`: the answer, or none to go on above.
unfoldable pub disabled_at : Option Bool → Option (List Text) → Text → Option Bool
disabled_at (some generated) directives dir = some (not generated)
disabled_at none none dir = if text_eq dir [] then some false else none
disabled_at none (some directives) dir =
    if text_eq dir [] then some false else some (any (λ k. text_eq k (codes "ignore")) directives)

abbrev or_above : Option Bool → Bool → Bool
or_above none rest = rest
or_above (some b) rest = b

-- The fuel is the length of the directory's path.
unfoldable pub disabled_loop : ProgramStore → ℕ → Text → Bool
unfolding disabled_at lookup parent_dir
disabled_loop s zero dir =
    flag_at (disabled_at (lookup dir s.walked) (directives_at s.emission_files dir) dir)
disabled_loop s (suc fuel) dir =
    let rest = disabled_loop s fuel (parent_dir dir) in
    or_above (disabled_at (lookup dir s.walked) (directives_at s.emission_files dir) dir) rest

unfoldable pub generation_disabled : ProgramStore → Text → Bool
unfolding disabled_loop
generation_disabled s dir = disabled_loop s (length dir) dir

-- The package that the loop of `owner` stops at owns the file when it lists it and was walked.
unfoldable pub owned : ProgramStore → Text → Option Text → Option Text
unfolding member lookup
owned s f none = none
owned s f (some dir) =
    if member f (set_at (lookup dir s.packages)) && flag_at (lookup dir s.walked)
    then some dir
    else none

unfoldable pub nearest_package : ProgramStore → Text → Text
unfolding above has_key
nearest_package s dir = above (is_package s) dir

pub data InputIdentity : Type 0 where
  unavailable_input authored_input generated_input unknown_input : InputIdentity

pub record SrcSet : Type 0 where
  pub library : List Text
  pub test : List Text
  pub declaration : List Text

abbrev pub empty_set : SrcSet
empty_set = record { library = []; test = []; declaration = [] }

unfoldable pub add_class : FileClass → Text → SrcSet → SrcSet
add_class declaration_file f set = record set { declaration = f ∷ set.declaration }
add_class test_file f set = record set { test = f ∷ set.test }
add_class library_file f set = record set { library = f ∷ set.library }

unfoldable pub add : Text → SrcSet → SrcSet
unfolding add_class classify
add f set = add_class (classify f) f set

abbrev twin_pairs : List (Text × Text)
twin_pairs =
    (codes ".d.ts", codes ".js")
    ∷ (codes ".d.mts", codes ".mjs")
    ∷ (codes ".d.cts", codes ".cjs")
    ∷ []

unfoldable pub java_script_twin : Text → Text
unfolding twin_of
java_script_twin f = twin_of twin_pairs f

unfoldable pub sorted_set : SrcSet → SrcSet
unfolding sort_strings
sorted_set set = record {
  library = sort_strings set.library;
  test = sort_strings set.test;
  declaration = sort_strings set.declaration;
}

abbrev is_owner : Option Text → Text → Bool
is_owner none pkg = false
is_owner (some o) pkg = text_eq o pkg

-- `has_producer` is `outputProducer`, and `codegen_writes` is `codegenWrites` at the package.
module _ (has_producer codegen_writes : Text → Bool) (s : ProgramStore) where
  unfoldable pub owner : Text → Option Text
  unfolding owned source_file generation_disabled nearest parent_dir lookup has_key
  owner f =
      let dir = parent_dir f in
      if has_producer f
      then none
      else if not (source_file s f)
          || generation_disabled s dir
          || not (text_eq (text_at (lookup dir s.foreign)) [])
      then none
      else owned s f (nearest (is_package s) dir)

  unfoldable pub add_twin : NameSet → Text → SrcSet → SrcSet
  unfolding add source_file member
  add_twin listed twin set =
      if not (text_eq twin [])
        && source_file s twin
        && not (member twin listed)
        && not (codegen_writes twin)
      then add twin set
      else set

  -- The lists are sorted in the end, so the order in which they are filled is not kept.
  unfoldable pub srcs_loop : Text → NameSet → List Text → SrcSet
  unfolding add_twin java_script_twin add owner
  srcs_loop pkg listed [] = empty_set
  srcs_loop pkg listed (f ∷ fs) =
      let rest = srcs_loop pkg listed fs in
      if not (is_owner (owner f) pkg) || codegen_writes f
      then rest
      else add f (add_twin listed (java_script_twin f) rest)

  unfoldable pub srcs : Text → SrcSet
  unfolding sorted_set srcs_loop lookup
  srcs pkg = let listed = set_at (lookup pkg s.packages) in sorted_set (srcs_loop pkg listed listed)

-- `metadataIdentity` and `readManifest`.
module _ (identity : Text → InputIdentity) (read_manifest : Text → Option Manifest) where
  abbrev package_json : Text → Text
  package_json dir = join_path dir (codes "package.json")

  abbrev or_manifest : Option Manifest → Option Manifest → Option Manifest
  or_manifest none rest = rest
  or_manifest (some m) rest = some m

  -- One round of the loop of `findNearestManifest`.
  unfoldable pub manifest_at : InputIdentity → Option Manifest → Option Manifest → Option Manifest
  manifest_at generated_input m rest = none
  manifest_at unknown_input m rest = none
  manifest_at authored_input m rest = or_manifest m rest
  manifest_at unavailable_input m rest = rest

  unfoldable pub manifest_loop : ℕ → Text → Option Manifest
  unfolding manifest_at join_path parent_dir
  manifest_loop zero dir = manifest_at (identity (package_json dir)) (read_manifest dir) none
  manifest_loop (suc fuel) dir =
      let rest = manifest_loop fuel (parent_dir dir) in
      manifest_at (identity (package_json dir)) (read_manifest dir)
        (if text_eq dir [] then none else rest)

  unfoldable pub find_nearest_manifest : Text → Option Manifest
  unfolding manifest_loop
  find_nearest_manifest dir = manifest_loop (length dir) dir

  abbrev is_available : InputIdentity → Bool
  is_available unavailable_input = false
  is_available _ = true

  unfoldable pub package_scope : Text → Text
  unfolding nearest join_path
  package_scope dir = elim (nearest (λ d. is_available (identity (package_json d))) dir) [
    | none ↦ []
    | some d ↦ package_json d
  ]
