-- ===== src/Npm/Lock/Names.antt =====
-- `parsePnpmLockNames` and `pnpmLinksAndAliases` of gazelle/pnpm_lock.go: the hub gate.
use rules_typescript.Base.{
  ℕ, not, ◌&&◌, Option, none, some, List, [], ◌∷◌, ◌++◌, ◌==◌, if◌then◌else◌,
}
use rules_typescript.Base.Text.{Text, codes, text_eq}
use rules_typescript.Base.Map.{Map, NameSet, keys, insert, add_name}
use rules_typescript.Npm.Names.{pnpm_mapping_key, pnpm_alias_target, parse_pnpm_package_key}
use rules_typescript.Npm.Lock.{Importer, pnpm_content_line, pnpm_section, parse_pnpm_importers}

unfoldable pub add_all : List Text → NameSet → NameSet
unfolding add_name
add_all [] names = names
add_all (n ∷ ns) names = add_all ns (add_name n names)

-- The aliases among an importer's dependencies.
unfoldable pub aliases_of : Map Text → Map Text → Map Text
unfolding pnpm_alias_target insert
aliases_of [] aliases = aliases
aliases_of ((name, version) ∷ deps) aliases = aliases_of deps (
    let target = pnpm_alias_target version in
    if text_eq target [] then aliases else insert name target aliases)

unfoldable pub pnpm_links_and_aliases : Map Importer → List Text × Map Text
unfolding keys aliases_of
pnpm_links_and_aliases [] = ([], [])
pnpm_links_and_aliases ((dir, imp) ∷ importers) =
    let (links, aliases) = pnpm_links_and_aliases importers in
    (keys imp.links ++ links, aliases_of imp.deps aliases)

abbrev add_package : Text × Text → NameSet → NameSet
add_package (name, version) names =
    if not (text_eq name []) && not (text_eq version []) then add_name name names else names

abbrev key_names : Option (ℕ × Text) → NameSet → NameSet
key_names none names = names
key_names (some (indent, stripped)) names =
    if not (indent == 2)
    then names
    else let key = pnpm_mapping_key stripped in
      if text_eq key [] then names else add_package (parse_pnpm_package_key key) names

-- One section's keys.
unfoldable pub section_names : List Text → NameSet → NameSet
unfolding pnpm_content_line pnpm_mapping_key parse_pnpm_package_key add_name
section_names [] names = names
section_names (raw ∷ body) names = section_names body (key_names (pnpm_content_line raw) names)

abbrev body_of : Option (List Text) → List Text
body_of none = []
body_of (some body) = body

unfoldable pub parse_pnpm_lock_names : List Text → NameSet
unfolding section_names pnpm_section pnpm_links_and_aliases parse_pnpm_importers add_all
parse_pnpm_lock_names lines =
    let packages = section_names (body_of (pnpm_section lines (codes "packages"))) [] in
    let snapshots = section_names (body_of (pnpm_section lines (codes "snapshots"))) packages in
    let (links, aliases) = pnpm_links_and_aliases (parse_pnpm_importers lines) in
    add_all (keys aliases) (add_all links snapshots)
