-- ===== src/Minimize.antt =====
-- gazelle/resolve.go: `minimizeDependencies`, which drops the dependencies that others supply. What
-- is modelled is a consumer that demands no package scope, once the answers of `sourceOwner` no
-- longer change: a dependency's supply is then a function of its label.
pub mod Counts
pub mod Fixed
use rules_typescript.Base.{
  ℕ, Bool, true, false, not, ◌&&◌, ◌||◌, Option, none, some, List, [], ◌∷◌, ◌++◌, any,
  if◌then◌else◌,
}
use rules_typescript.Base.Text.{Text, codes, text_eq}
use rules_typescript.Base.GoPath.{ext}
use rules_typescript.Base.Map.{Map, NameSet, lookup, keys, member}
use rules_typescript.Base.Sort.{sort_strings}
use rules_typescript.Files.{is_declaration_file}
use rules_typescript.Npm.Names.{npm_package_name}
use rules_typescript.Emission.{Label, Rule}
use rules_typescript.Emission.Runtime.{EmissionMode, source_emission, emitted_emission}
use rules_typescript.ExplainFiles.{Edge}

pub data InputRole : Type 0 where
  source_role scope_role compiler_role : InputRole

pub record Requirement : Type 0 where
  pub edges : List Edge
  pub unconditional : Bool

-- What a map gives for a key that it does not have.
abbrev pub or_nothing : Option Requirement → Requirement
or_nothing none = record { edges = []; unconditional = false }
or_nothing (some r) = r

pub record DirectSupply : Type 0 where
  pub files : List Text
  pub targets : List Text

abbrev pub nothing : DirectSupply
nothing = record { files = []; targets = [] }

abbrev pub has_kind : Option Rule → Text → Bool
has_kind none kind = false
has_kind (some r) kind = text_eq r.kind kind

abbrev is_source_role : InputRole → Bool
is_source_role source_role = true
is_source_role _ = false

abbrev is_source_emission : EmissionMode → Bool
is_source_emission source_emission = true
is_source_emission _ = false

abbrev is_emitted_emission : EmissionMode → Bool
is_emitted_emission emitted_emission = true
is_emitted_emission _ = false

unfoldable pub static_edge_supply : Option Rule → Edge → Bool
unfolding npm_package_name
static_edge_supply owner edge =
    has_kind owner (codes "ts_compile")
    || has_kind owner (codes "node_modules_member")
    || not (text_eq (npm_package_name edge.to) [])

-- The producer of a file, and its label.
pub record Producer : Type 0 where
  pub kind : Text
  pub label : Text

unfoldable pub codegen_edge_unsupplied : (Text → Option Producer) → Text → Edge → Bool
codegen_edge_unsupplied output_producer key edge = elim (output_producer edge.to) [
  | none ↦ true
  | some p ↦ not (text_eq p.kind (codes "ts_codegen")) || not (text_eq p.label key)
]

-- Whether the target of an edge must be supplied as a source.
abbrev pub is_read : Edge → Bool
is_read edge = not (is_declaration_file edge.to || text_eq (ext edge.to) (codes ".json"))

unfoldable pub required_edge_unsupplied :
    (Text → Option Producer) → Text → Option Rule → (Text → Bool) → Edge → Bool
unfolding static_edge_supply codegen_edge_unsupplied is_declaration_file ext
required_edge_unsupplied output_producer key owner supplies edge =
    if not (supplies edge.from)
    then true
    else if static_edge_supply owner edge
    then false
    else if is_read edge && not (supplies edge.to)
    then true
    else codegen_edge_unsupplied output_producer key edge

-- The package of the consumer, and the answers that the memo keeps: the rule behind a label, and
-- the compiler that a label names with its inputs.
pub record Memo : Type 0 where
  pub pkg : Text
  pub target_rule : Text → Text × Option Rule
  pub program_target : Text → Text × Option Rule
  pub parse_label : Text → Option Label
  pub source_owner : Text → EmissionMode
  pub program_inputs : Text → List (Text × InputRole)
  pub source_export_owner : Text → Text
  pub dependency_targets : Text → List Text
  pub output_producer : Text → Option Producer

-- The loop of `directSupply` over the inputs: the files, and whether the rule provides them.
unfoldable pub supplied_files :
    Bool → Bool → (Text → Text) → Text → List (Text × InputRole) → List Text × Bool
unfolding is_declaration_file
supplied_files joined package_emitter export_owner own [] = ([], false)
supplied_files joined package_emitter export_owner own ((file, role) ∷ inputs) =
    let rest = supplied_files joined package_emitter export_owner own inputs in
    if not (is_source_role role)
    then rest
    else if joined || is_declaration_file file
    then (file ∷ rest.0, true)
    else if package_emitter && not (text_eq (export_owner file) own)
    then (file ∷ rest.0, rest.1)
    else rest

module _ (m : Memo) where
  abbrev of_compiler : Text → Text → Label → DirectSupply
  of_compiler dep key own =
      let found =
        supplied_files (is_source_emission (m.source_owner key))
          (text_eq own.pkg m.pkg && is_emitted_emission (m.source_owner key)) m.source_export_owner
          own.pkg (m.program_inputs key) in
      record {
        files = found.0;
        targets =
            if found.1
            then (if text_eq (m.target_rule dep).0 key then [] else key ∷ [])
              ++ m.dependency_targets key
            else [];
      }

  abbrev of_label : Text → Text → Option Label → DirectSupply
  of_label dep key none = nothing
  of_label dep key (some own) = of_compiler dep key own

  -- `directSupply`; nothing stands for its false.
  unfoldable pub direct_supply : Text → DirectSupply
  unfolding supplied_files
  direct_supply dep =
      let found = m.program_target dep in
      if has_kind found.1 (codes "ts_compile")
      then of_label dep found.0 (m.parse_label found.0)
      else nothing

  -- `suppliedProgramInputs`: the files and the targets of the dependencies.
  unfoldable pub all_files : List Text → List Text
  unfolding direct_supply
  all_files [] = []
  all_files (dep ∷ deps) = (direct_supply dep).files ++ all_files deps

  unfoldable pub all_targets : List Text → List Text
  unfolding direct_supply
  all_targets [] = []
  all_targets (dep ∷ deps) = (direct_supply dep).targets ++ all_targets deps

  -- Whether a dependency that is dropped needs more than is supplied, by tests for the targets and
  -- the files that are.
  unfoldable pub lacks : Map Requirement → (Text → Bool) → (Text → Bool) → Text → Bool
  unfolding required_edge_unsupplied lookup
  lacks deps has_target supplies dep =
      let found = m.target_rule dep in
      let required = or_nothing (lookup dep deps) in
      required.unconditional
      || not (has_target found.0)
      || any (required_edge_unsupplied m.output_producer found.0 found.1 supplies) required.edges

  -- The test of `minimizeDependencies`, for the dependencies that it retains.
  unfoldable pub unsupplied_by : Map Requirement → NameSet → List Text → Text → Bool
  unfolding lacks member all_files all_targets
  unsupplied_by deps roots retained dep =
      lacks deps (λ t. member t (all_targets retained))
        (λ file. not (member file roots) && member file (all_files retained)) dep

  -- The loop of `minimizeDependencies` without a fixed supply. The dependencies retained are those
  -- kept so far and those still to try; the rest are dropped.
  unfoldable pub exact_loop :
      Map Requirement → NameSet → List Text → List Text → List Text → List Text × List Text
  unfolding unsupplied_by
  exact_loop deps roots kept dropped [] = (kept, dropped)
  exact_loop deps roots kept dropped (dep ∷ todo) =
      elim (any (unsupplied_by deps roots (kept ++ todo)) (dep ∷ dropped)) [
        | true ↦ exact_loop deps roots (kept ++ dep ∷ []) dropped todo
        | false ↦ exact_loop deps roots kept (dep ∷ dropped) todo
      ]
