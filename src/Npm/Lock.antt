-- ===== src/Npm/Lock.antt =====
-- The lockfile reader of gazelle/pnpm_lock.go, over the lines of pnpm-lock.yaml. The loop of
-- `parsePnpmImporters` is a fold over the section's lines, its variables the record `Scan`.
pub mod Names
pub mod Links
pub mod Lines
use rules_typescript.Base.{
  ℕ, ◌+◌, ◌-◌, Bool, true, false, not, ◌&&◌, ◌||◌, Option, none, some, List, [], ◌∷◌, ◌++◌, ◌==◌,
  if◌then◌else◌, length,
}
use rules_typescript.Base.Text.{
  Text, codes, text_eq, cut_prefix, cut_suffix, has_prefix, has_suffix, trim_suffix, cut, contains,
  trim_space, trim_right, trim_left, trim,
}
use rules_typescript.Base.Map.{Map, NameSet, lookup, insert, update, add_name}
use rules_typescript.Base.GoPath.{clean, join_path, dot, dot_dot}
use rules_typescript.Npm.Names.{
  pnpm_mapping_key, pnpm_file_tarball, pnpm_alias_target, parse_pnpm_package_key,
}

-- One importer: what it declares with the version each name resolved to, and the members its
-- link: entries name.
pub record Importer : Type 0 where
  pub deps : Map Text
  pub links : Map Text

abbrev pub is_blank_end : ℕ → Bool
is_blank_end c = c == b' ' || c == b'\t' || c == b'\r'

unfoldable pub pnpm_content_line : Text → Option (ℕ × Text)
unfolding trim_right trim_left trim_space has_prefix
pnpm_content_line raw =
    let line = trim_right is_blank_end raw in
    let stripped = trim_space line in
    if text_eq stripped [] || has_prefix stripped (codes "#")
    then none
    else some (length line - length (trim_left (λ c. c == b' ') line), stripped)

abbrev at_margin : Option (ℕ × Text) → Bool
at_margin none = false
at_margin (some (indent, stripped)) = indent == 0

-- The lines up to the next content at the left margin.
unfoldable pub section_body : List Text → List Text
unfolding pnpm_content_line
section_body [] = []
section_body (l ∷ ls) =
    let rest = section_body ls in if at_margin (pnpm_content_line l) then [] else l ∷ rest

unfoldable pub pnpm_section : List Text → Text → Option (List Text)
unfolding section_body trim_right
pnpm_section [] name = none
pnpm_section (l ∷ ls) name =
    let rest = pnpm_section ls name in
    if text_eq (trim_right is_blank_end l) (name ++ (b':' ∷ []))
    then some (section_body ls)
    else rest

-- The variables of the loop. `current` is the key of the importer that Go's pointer is to.
pub record Scan : Type 0 where
  pub importers : Map Importer
  pub current : Option Text
  pub dir : Text
  pub section : Text
  pub dep_name : Text

abbrev pub is_quote : ℕ → Bool
is_quote c = c == b'\'' || c == b'"'

unfoldable pub unquoted : Text → Text
unfolding trim
unquoted = trim is_quote

-- A write to `current.links` or `current.deps`.
write : Option Text → (Importer → Importer) → Map Importer → Map Importer
unfolding update
write none f m = m
write (some k) f m = update k f m

abbrev pub add_link : Text → Text → Importer → Importer
add_link name to imp = record imp { links = insert name to imp.links }

abbrev pub add_dep : Text → Text → Importer → Importer
add_dep name value imp = record imp { deps = insert name value imp.deps }

-- Where a link: leads, unless that is the repository's root or begins with "..".
unfoldable pub link_target : Text → Text → Option Text
unfolding clean join_path has_prefix
link_target dir target =
    let to = clean (join_path dir target) in
    if not (text_eq to dot) && not (has_prefix to dot_dot) then some to else none

-- A link: that is left out above is passed over.
linked : Text → Option Text → Scan → Scan
unfolding write
linked name none s = s
linked name (some to) s = record s { importers = write s.current (add_link name to) s.importers }

-- What `record` does with a value that it keeps, by what stands behind its "link:".
recorded : Text → Text → Option Text → Scan → Scan
unfolding linked link_target
recorded name value none s = record s {
  importers = write s.current (add_dep name value) s.importers;
}
recorded name value (some target) s = linked name (link_target s.dir target) s

unfoldable pub record_value : Text → Text → Scan → Scan
unfolding recorded cut_prefix
record_value name value s = recorded name value (cut_prefix value (codes "link:")) s

unfoldable pub record_dep : Text → Text → Scan → Scan
unfolding unquoted trim_space has_prefix pnpm_file_tarball record_value
record_dep name raw s =
    let value = unquoted (trim_space raw) in
    if text_eq name []
      || text_eq value []
      || has_prefix value (codes "file:") && not (pnpm_file_tarball value)
    then s
    else record_value name value s

abbrev empty_importer : Importer
empty_importer = record { deps = []; links = [] }

abbrev importer_dir : Text → Text
importer_dir key = let d = unquoted key in if text_eq d dot then [] else d

-- An importer's own line.
unfoldable pub open_importer : Text → Scan → Scan
unfolding unquoted insert
open_importer key s = if text_eq key [] then s else record {
  importers = insert (importer_dir key) empty_importer s.importers;
  current = some (importer_dir key);
  dir = importer_dir key;
  section = [];
  dep_name = [];
}

abbrev before_of : Text → Text → Text
before_of s sep = elim (cut s sep) [ none ↦ s | some (b, a) ↦ b ]

-- v6's entry on one line: its name, and what stands around "version:".
inlined : Text → Option (Text × Text) → Scan → Scan
unfolding unquoted trim_space record_dep cut
inlined name none s = s
inlined name (some (before, after)) s =
    record_dep (unquoted (trim_space name)) (before_of (before_of after (codes "}")) (codes ",")) s

opened : Option Text → Scan → Scan
unfolding unquoted
opened none s = s
opened (some name) s = record s { dep_name = unquoted name }

-- A line at indent 6, by what stands around its first colon.
dep_entry : Text → Option (Text × Text) → Scan → Scan
unfolding inlined opened contains cut_suffix
dep_entry stripped none s = opened (cut_suffix stripped (codes ":")) s
dep_entry stripped (some (name, rest)) s =
    if contains rest (codes "{")
    then inlined name (cut rest (codes "version:")) s
    else opened (cut_suffix stripped (codes ":")) s

unfoldable pub dep_line : Text → Scan → Scan
unfolding dep_entry
dep_line stripped s = dep_entry stripped (cut stripped (codes ":")) (record s { dep_name = [] })

version_entry : Option (Text × Text) → Scan → Scan
unfolding trim_space record_dep
version_entry none s = s
version_entry (some (key, value)) s =
    if text_eq (trim_space key) (codes "version") then record_dep s.dep_name value s else s

unfoldable pub version_line : Text → Scan → Scan
unfolding version_entry cut
version_line stripped s = version_entry (cut stripped (codes ":")) s

abbrev is_section : Text → Bool
is_section stripped = elim (cut_suffix stripped (codes ":")) [
  | none ↦ false
  | some name ↦ not (contains name (codes ":"))
]

abbrev is_dep_section : Text → Bool
is_dep_section s =
    text_eq s (codes "dependencies")
    || text_eq s (codes "devDependencies")
    || text_eq s (codes "optionalDependencies")

abbrev has_current : Scan → Bool
has_current s = elim s.current [ none ↦ false | some k ↦ true ]

-- The `switch` of the loop.
unfoldable pub content_step : ℕ → Text → Scan → Scan
unfolding open_importer pnpm_mapping_key cut_suffix contains trim_suffix dep_line version_line
content_step indent stripped s =
    if indent == 2
    then open_importer (pnpm_mapping_key stripped) s
    else if not (has_current s)
    then s
    else if indent == 4 && is_section stripped
    then record s { section = trim_suffix stripped (codes ":"); dep_name = [] }
    else if not (is_dep_section s.section)
    then s
    else if indent == 6
    then dep_line stripped s
    else if indent == 8 && not (text_eq s.dep_name [])
    then version_line stripped s
    else s

line_step : Option (ℕ × Text) → Scan → Scan
unfolding content_step
line_step none s = s
line_step (some (indent, stripped)) s = content_step indent stripped s

unfoldable pub importers_loop : List Text → Scan → Scan
unfolding pnpm_content_line line_step
importers_loop [] s = s
importers_loop (raw ∷ lines) s = importers_loop lines (line_step (pnpm_content_line raw) s)

abbrev pub initial_scan : Scan
initial_scan = record { importers = []; current = none; dir = []; section = []; dep_name = [] }

-- A missing section gives Go's nil map, which reads as the empty one.
section_importers : Option (List Text) → Map Importer
unfolding importers_loop
section_importers none = []
section_importers (some body) = (importers_loop body initial_scan).importers

unfoldable pub parse_pnpm_importers : List Text → Map Importer
unfolding section_importers pnpm_section
parse_pnpm_importers lines = section_importers (pnpm_section lines (codes "importers"))
