-- ===== src/Npm/Importers.antt =====
-- The lockfile's importers as gazelle/npm.go reads them: `parseNpmLock`, the walks that find the
-- importer of a directory, and the labels of npm packages and workspace members.
pub mod Declaring
use rules_typescript.Base.{
  ℕ, zero, suc, Bool, true, false, not, ◌&&◌, ◌||◌, Option, none, some, List, [], ◌∷◌, ◌++◌, ◌==◌,
  if◌then◌else◌, ltb, length,
}
use rules_typescript.Base.Text.{Text, codes, text_eq}
use rules_typescript.Base.Map.{Map, NameSet, lookup, insert, has_key, member, add_name, keys}
use rules_typescript.Base.GoPath.{parent_dir}
use rules_typescript.Base.GoPath.Walk.{above}
use rules_typescript.ExplainFiles.{Edge, EdgeKind, module_specifier}
use rules_typescript.Files.{first_party, is_declaration_file}
use rules_typescript.Npm.Names.{
  npm_package_name, npm_package_to_label_name, is_bare_specifier, bare_package_name, types_package,
}
use rules_typescript.Npm.Lock.{Importer, parse_pnpm_importers}
use rules_typescript.Npm.Lock.Names.{parse_pnpm_lock_names, add_all}

-- A package.json: gazelle/manifest.go.
pub record Manifest : Type 0 where
  pub dir : Text
  pub name : Text
  pub deps : List Text

pub record NpmLock : Type 0 where
  pub names : NameSet
  pub importers : Map Importer
  pub members : Map Text

-- The first loop of `parseNpmLock`: what it adds to the names, the members and `linked`.
unfoldable pub linked_members : Map Text → Map Text → Map Text
unfolding insert
linked_members [] members = members
linked_members ((name, dir) ∷ links) members = linked_members links (insert name dir members)

unfoldable pub linked_dirs : Map Text → NameSet → NameSet
unfolding add_name
linked_dirs [] linked = linked
linked_dirs ((name, dir) ∷ links) linked = linked_dirs links (add_name dir linked)

unfoldable pub add_links : Map Importer → NpmLock × NameSet → NpmLock × NameSet
unfolding add_all keys linked_members linked_dirs
add_links [] s = s
add_links ((dir, imp) ∷ importers) (l, linked) = add_links importers (
  record l {
    names = add_all (keys imp.deps) l.names;
    members = linked_members imp.links l.members;
  },
  linked_dirs imp.links linked,
)

-- The manifest's member: one that has a name.
abbrev manifest_member : Option Manifest → Text → Map Text → Map Text
manifest_member none dir members = members
manifest_member (some m) dir members =
    if text_eq m.name [] then members else insert m.name dir members

module _ (manifest_at : Text → Option Manifest) where
  -- The second loop: every importer but the root that no link names.
  unfoldable pub add_manifests : List Text → NameSet → Map Text → Map Text
  unfolding member insert
  add_manifests [] linked members = members
  add_manifests (dir ∷ dirs) linked members = add_manifests dirs linked (
      if text_eq dir [] || member dir linked
      then members
      else manifest_member (manifest_at dir) dir members)

  unfoldable pub parse_npm_lock : List Text → NpmLock
  unfolding parse_pnpm_lock_names parse_pnpm_importers add_links add_manifests keys
  parse_npm_lock lines =
      let read : NpmLock = record {
        names = parse_pnpm_lock_names lines;
        importers = parse_pnpm_importers lines;
        members = [];
      } in
      let (l, linked) = add_links read.importers (read, []) in
      record l { members = add_manifests (keys l.importers) linked l.members }

-- The nearest importer at or above a directory; "" is the root.
unfoldable pub importer_above : NpmLock → Text → Text
unfolding above has_key
importer_above l = above (λ d. has_key d l.importers)

-- A `links` entry that is missing reads as "".
abbrev pub link_of : Option Importer → Text → Text
link_of none name = []
link_of (some i) name = elim (lookup name i.links) [ none ↦ [] | some dir ↦ dir ]

abbrev declares_dep : Option Importer → Text → Bool
declares_dep none name = false
declares_dep (some i) name = has_key name i.deps

-- The test of `importerDeclaring` at an importer.
unfoldable pub declares : NpmLock → Text → Bool → Text → Bool
unfolding lookup has_key
declares l name is_member imp =
    let i = lookup imp l.importers in
    is_member && not (text_eq (link_of i name) []) || declares_dep i name

-- The loop of `importerDeclaring`, from importer to importer; the fuel is the length of
-- the directory's path.
unfoldable pub declaring_loop : NpmLock → Text → Bool → ℕ → Text → Option Text
unfolding declares importer_above
declaring_loop l name is_member zero imp = if declares l name is_member imp then some imp else none
declaring_loop l name is_member (suc fuel) imp =
    let rest = declaring_loop l name is_member fuel (importer_above l (parent_dir imp)) in
    if declares l name is_member imp then some imp else if text_eq imp [] then none else rest

unfoldable pub importer_declaring : NpmLock → Text → Text → Bool → Option Text
unfolding declaring_loop
importer_declaring l name dir is_member =
    declaring_loop l name is_member (length dir) (importer_above l dir)

unfoldable pub declaring : NpmLock → Text → Text → Option Text
unfolding importer_declaring
declaring l name dir = importer_declaring l name dir false

-- `imp, _ := l.declaring(...)`: the root where nothing declares the name.
abbrev or_root : Option Text → Text
or_root none = []
or_root (some dir) = dir

abbrev pub npm_label : Text → Text → Text
npm_label imp name = codes "@npm//" ++ (imp ++ (b':' ∷ npm_package_to_label_name name))

unfoldable pub label : NpmLock → Text → Text → Text
unfolding declaring npm_package_to_label_name
label l name dir = npm_label (or_root (declaring l name dir)) name

-- The nearest manifest's own name is a self-reference.
abbrev names_itself : Option Manifest → Text → Bool
names_itself none name = false
names_itself (some m) name = text_eq m.name name

unfoldable pub member_name : NpmLock → Text → Option Manifest → Text
unfolding is_bare_specifier bare_package_name has_key
member_name l spec m =
    if not (is_bare_specifier spec)
    then []
    else let name = bare_package_name spec in
      if not (has_key name l.members) || names_itself m name then [] else name
