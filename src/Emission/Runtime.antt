-- ===== src/Emission/Runtime.antt =====
-- gazelle/emission.go: how a rule emits, and what it needs where it runs. An attribute is read as it
-- is written in the BUILD file.
use rules_typescript.Base.{Bool, not, Option, none, some, List, [], ◌∷◌, ◌++◌, if◌then◌else◌}
use rules_typescript.Base.Text.{Text, codes, text_eq, has_prefix}
use rules_typescript.Base.Map.{Map, lookup, insert, has_key, keys, member}
use rules_typescript.Base.Sort.{sort_strings}
use rules_typescript.Files.{package_name}
use rules_typescript.Labels.{
  Element, string_element, other_element, AttrValue, absent, identifier, string, list,
}
use rules_typescript.Npm.Names.{npm_package_to_label_name}

pub data EmissionMode : Type 0 where
  unknown_emission opaque_emission source_emission emitted_emission : EmissionMode

-- `ruleEmission`, by the value of `emit`.
unfoldable pub rule_emission : AttrValue → EmissionMode
rule_emission absent = source_emission
rule_emission (identifier name) =
    if text_eq name (codes "False")
    then source_emission
    else if text_eq name (codes "True")
    then emitted_emission
    else unknown_emission
rule_emission _ = unknown_emission

-- The labels that are written out, and the attribute when some of it is an expression.
unfoldable pub element_labels : Text → List Element → List Text × Text
element_labels attr [] = ([], [])
element_labels attr (string_element s kept ∷ elements) =
    let rest = element_labels attr elements in (s ∷ rest.0, rest.1)
element_labels attr (other_element ∷ elements) =
    let rest = element_labels attr elements in (rest.0, attr)

-- `runtimeLabels`, where the attribute may be repeated, and where it may not.
unfoldable pub repeated_labels : AttrValue → Text → List Text × Text
unfolding element_labels
repeated_labels absent attr = ([], [])
repeated_labels (list elements) attr = element_labels attr elements
repeated_labels _ attr = ([], attr)

unfoldable pub single_label : AttrValue → Text → List Text × Text
single_label absent attr = ([], [])
single_label (string s) attr = (s ∷ [], [])
single_label _ attr = ([], attr)

unfoldable pub runtime_labels : AttrValue → Text → Bool → List Text × Text
unfolding repeated_labels single_label
runtime_labels value attr repeated =
    if repeated then repeated_labels value attr else single_label value attr

-- The attribute that a kind's runtime dependencies stand in; each kind has one at most.
unfoldable pub runtime_attribute : Text → Option Text
unfolding member
runtime_attribute kind =
    if member kind (
      codes "ts_compile"
      ∷ codes "ts_test"
      ∷ codes "ts_proto_library"
      ∷ codes "ts_npm_package"
      ∷ codes "node_modules"
      ∷ [])
    then some (codes "deps")
    else if text_eq kind (codes "node_modules_member")
    then some (codes "member")
    else if text_eq kind (codes "npm_workspace_package")
    then some (codes "target")
    else if text_eq kind (codes "alias")
    then some (codes "actual")
    else if text_eq kind (codes "ts_binary")
    then some (codes "entry_point")
    else none

unfoldable pub dependencies_in : (Text → AttrValue) → Option Text → List Text × Text
unfolding runtime_labels
dependencies_in attrs none = ([], [])
dependencies_in attrs (some attr) = runtime_labels (attrs attr) attr (text_eq attr (codes "deps"))

unfoldable pub runtime_dependencies : Text → (Text → AttrValue) → List Text × Text
unfolding dependencies_in runtime_attribute
runtime_dependencies kind attrs = dependencies_in attrs (runtime_attribute kind)

abbrev dir_of : Option Text → Text
dir_of none = []
dir_of (some dir) = dir

-- The first loop of `memberCompilerTarget`: the label of each member, by names in order; a label
-- that is taken keeps its first member.
unfoldable pub member_labels : List Text → Map Text → Map Text → Map Text
unfolding lookup insert has_key npm_package_to_label_name
member_labels [] members labels = labels
member_labels (name ∷ names) members labels =
    let label = codes "@npm//:" ++ npm_package_to_label_name name in
    member_labels names members
      (if has_key label labels then labels else insert label (dir_of (lookup name members)) labels)

-- `emission_label` is `emissionLabel` in the repository.
module _ (emission_label : Text → Text → Text) where
  unfoldable pub compiler_target : Option Text → Text
  unfolding package_name
  compiler_target none = []
  compiler_target (some dir) = emission_label dir (b':' ∷ package_name dir)

  unfoldable pub member_compiler_target : Map Text → Text → Text
  unfolding compiler_target member_labels has_prefix lookup keys sort_strings
  member_compiler_target members key =
      if not (has_prefix key (codes "@npm//:"))
      then []
      else compiler_target (lookup key (member_labels (sort_strings (keys members)) members []))
