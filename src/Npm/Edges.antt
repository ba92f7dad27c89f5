-- ===== src/Npm/Edges.antt =====
-- The labels that gazelle/npm.go gives the edges into node_modules and a manifest's names. What
-- the functions log is not modelled; where they log, the label is "".
use rules_typescript.Base.{
  Bool, true, false, not, ◌&&◌, ◌||◌, Option, none, some, List, [], ◌∷◌, ◌++◌, if◌then◌else◌, ltb,
  length,
}
use rules_typescript.Base.Text.{Text, codes, text_eq}
use rules_typescript.Base.Map.{lookup, has_key, member}
use rules_typescript.Base.GoPath.{parent_dir}
use rules_typescript.ExplainFiles.{Edge, EdgeKind, type_reference, module_specifier}
use rules_typescript.Files.{first_party, is_declaration_file}
use rules_typescript.Npm.Names.{
  npm_package_name, is_bare_specifier, bare_package_name, types_package,
}
use rules_typescript.Npm.Importers.{
  Manifest, NpmLock, importer_above, link_of, npm_label, importer_declaring, declaring, label,
  member_name,
}

abbrev is_type_reference : EdgeKind → Bool
is_type_reference type_reference = true
is_type_reference _ = false

abbrev labelled : Text → Option Text → Text
labelled name none = []
labelled name (some imp) = npm_label imp name

unfoldable pub chain_types_label : NpmLock → Edge → Text → Text
unfolding npm_package_name types_package declaring
chain_types_label l e pkg =
    let name = npm_package_name e.to in
    if not (is_type_reference e.kind) || not (text_eq name (types_package e.specifier))
    then []
    else labelled name (declaring l name pkg)

unfoldable pub edge_name : NpmLock → Edge → Text
unfolding npm_package_name bare_package_name is_bare_specifier module_specifier
edge_name l e =
    let name = npm_package_name e.to in
    let bare = bare_package_name e.specifier in
    if module_specifier e.kind && is_bare_specifier e.specifier
    then (if member bare l.names || not (member name l.names) then bare else name)
    else name

abbrev is_some {ℓ} : {A : Type ℓ} → Option A → Bool
is_some none = false
is_some (some a) = true

unfoldable pub runtime_package : NpmLock → Edge → Option Manifest → Bool → Text × Bool
unfolding module_specifier is_bare_specifier is_declaration_file bare_package_name member_name
    declaring
runtime_package l e m generated =
    if not (module_specifier e.kind)
      || not (is_bare_specifier e.specifier)
      || not (is_declaration_file e.to) && not generated
    then ([], false)
    else let name = bare_package_name e.specifier in
      if has_key name l.members
      then (member_name l e.specifier m, true)
      else if is_some (declaring l name (parent_dir e.from))
      then (name, false)
      else ([], false)

-- The names that `edgeImporter` looks up, each with whether it is a member's.
unfoldable pub edge_lookups : NpmLock → Edge → Option Manifest → Bool → List (Text × Bool)
unfolding npm_package_name member_name runtime_package edge_name
edge_lookups l e m generated =
    let listed = npm_package_name e.to in
    let as_member = member_name l e.specifier m in
    let (name, is_member) = runtime_package l e m generated in
    (listed, false)
    ∷ (if not (text_eq as_member [])
        then (as_member, true) ∷ []
        else if not (text_eq name [])
        then (name, is_member) ∷ []
        else if not (text_eq listed [])
        then (edge_name l e, false) ∷ []
        else [])

abbrev other_supplier : Text → Option Text → Bool
other_supplier dir none = true
other_supplier dir (some consumer) = not (text_eq consumer dir)

-- One round: the deeper scope, and whether the consumer lacks that importer.
abbrev wider : Text → Option Text → Text × Bool → Text × Bool
wider dir consumer (scope, needed) =
    (if ltb (length scope) (length dir) then dir else scope, needed || other_supplier dir consumer)

unfoldable pub lookup_loop : NpmLock → Text → Text → List (Text × Bool) → Text × Bool → Text × Bool
unfolding importer_declaring
lookup_loop l from pkg [] s = s
lookup_loop l from pkg ((name, is_member) ∷ names) s = lookup_loop l from pkg names (
    if text_eq name [] then s else elim (importer_declaring l name (parent_dir from) is_member) [
      | none ↦ s
      | some dir ↦ wider dir (importer_declaring l name pkg is_member) s
    ])

unfoldable pub edge_importer : NpmLock → Edge → Option Manifest → Text → Bool → Text × Bool
unfolding first_party edge_lookups lookup_loop
edge_importer l e m pkg generated =
    if not (first_party e.from)
    then ([], false)
    else lookup_loop l e.from pkg (edge_lookups l e m generated) ([], false)

-- `label.New("", dir, name).Rel("", pkg).String()` of bazel-gazelle.
module _ (rel_label : Text → Text → Text → Text) where
  member_at : NpmLock → Text → Text → Option Text → Text
  unfolding label lookup
  member_at l name pkg none = []
  member_at l name pkg (some dir) =
      if not (text_eq (link_of (lookup dir l.importers) name) [])
      then rel_label dir (codes "node_modules/" ++ name) pkg
      else label l name dir

  unfoldable pub member_label : NpmLock → Text → Text → Text → Text
  unfolding member_at importer_declaring
  member_label l name origin pkg = member_at l name pkg (importer_declaring l name origin true)

  unfoldable pub node_modules_label : NpmLock → Text → Text
  unfolding importer_above
  node_modules_label l pkg = rel_label (importer_above l pkg) (codes "node_modules") pkg

  -- `none` is its `false`.
  unfoldable pub member_view : NpmLock → Text → Text → Text → Option Manifest → Option Text
  unfolding member_name member_label
  member_view l spec file pkg m =
      let name = member_name l spec m in
      let view = member_label l name (parent_dir file) pkg in
      if text_eq name [] || text_eq view [] then none else some view

  unfoldable pub edge_label : NpmLock → Edge → Text → Option Manifest → Text
  unfolding first_party chain_types_label member_view edge_name label
  edge_label l e pkg m =
      if not (first_party e.from)
      then chain_types_label l e pkg
      else elim (member_view l e.specifier e.from pkg m) [
        | some view ↦ view
        | none ↦
            let name = edge_name l e in
            if not (member name l.names) then [] else label l name (parent_dir e.from)
      ]

  unfoldable pub manifest_names : NpmLock → Text → Text → List Text → List Text
  unfolding member_label label
  manifest_names l dir pkg [] = []
  manifest_names l dir pkg (name ∷ names) =
      let rest = manifest_names l dir pkg names in
      if has_key name l.members
      then (let lbl = member_label l name pkg pkg in
          if not (text_eq lbl []) then lbl ∷ rest else rest)
      else if member name l.names
      then label l name dir ∷ rest
      else rest

  unfoldable pub manifest_labels : NpmLock → Option Manifest → Text → List Text
  unfolding manifest_names
  manifest_labels l none pkg = []
  manifest_labels l (some m) pkg = manifest_names l m.dir pkg m.deps
