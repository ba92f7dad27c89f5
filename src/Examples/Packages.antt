-- ===== src/Examples/Packages.antt =====
-- The lockfile at concrete inputs.
use rules_typescript.Base.{true, false, some, List, [], ◌∷◌, all, ◌≡◌, refl}
use rules_typescript.Base.Text.{Text, codes, is_space}
use rules_typescript.Base.Map.{AllValues}
use rules_typescript.Base.GoPath.Dirs.{is_name, root, child, sub}
use rules_typescript.Base.GoPath.Walk.{nearest}
use rules_typescript.Npm.Names.{parse_pnpm_package_key}
use rules_typescript.Npm.Names.Spelling.{
  scoped, with_peers, is_package, is_version, spell, name_text,
}
use rules_typescript.Npm.Names.Keys.{parse-spell}
use rules_typescript.Npm.Lock.{is_blank_end, Importer, parse_pnpm_importers, pnpm_content_line}
use rules_typescript.Npm.Lock.Links.{IsSound, parse_pnpm_importers-IsSound}
use rules_typescript.Npm.Lock.Lines.{is_content, indented, pnpm_content_line-indented}
use rules_typescript.Npm.Importers.{NpmLock, declares, importer_declaring}
use rules_typescript.Npm.Importers.Declaring.{importer_declaring-nearest}

router_package : is_package (scoped (codes "tanstack") (codes "router")) ≡ true
unfolding is_package is_space
router_package = refl

router_version : is_version (codes "1.2.0") ≡ true
unfolding is_version is_space
router_version = refl

parse-spell_example :
    parse_pnpm_package_key (codes "'/@tanstack/router@1.2.0(react@18.3.1)'")
    ≡ (codes "@tanstack/router", codes "1.2.0")
unfolding spell name_text
parse-spell_example =
    parse-spell true true (with_peers (codes "react@18.3.1"))
      (scoped (codes "tanstack") (codes "router")) (codes "1.2.0") router_package router_version

abbrev lock_lines : List Text
lock_lines =
    codes "importers:"
    ∷ codes "  apps/web:"
    ∷ codes "    dependencies:"
    ∷ codes "      react:"
    ∷ codes "        version: 18.3.1"
    ∷ codes "      util:"
    ∷ codes "        version: link:../../packages/util"
    ∷ codes "      self:"
    ∷ codes "        version: link:../.."
    ∷ []

parse_pnpm_importers-IsSound_example : AllValues IsSound (parse_pnpm_importers lock_lines)
parse_pnpm_importers-IsSound_example = parse_pnpm_importers-IsSound lock_lines

content_text : is_content (codes "react@18.3.1:") ≡ true
unfolding is_content is_space
content_text = refl

blank_text : all is_blank_end (codes "  \r") ≡ true
blank_text = refl

pnpm_content_line-indented_example :
    pnpm_content_line (codes "  react@18.3.1:  \r") ≡ some (2, codes "react@18.3.1:")
unfolding indented
pnpm_content_line-indented_example =
    pnpm_content_line-indented 2 (codes "react@18.3.1:") (codes "  \r") content_text blank_text

abbrev web_importer : Importer
web_importer = record {
  deps = (codes "react", codes "18.3.1") ∷ [];
  links = (codes "util", codes "packages/util") ∷ [];
}

abbrev root_importer : Importer
root_importer = record { deps = (codes "vite", codes "5.0.0") ∷ []; links = [] }

abbrev web_lock : NpmLock
web_lock = record {
  names = codes "react" ∷ codes "vite" ∷ [];
  importers = ([], root_importer) ∷ (codes "apps/web", web_importer) ∷ [];
  members = [];
}

abbrev web_dir : Text
web_dir = codes "apps/web/src"

name_apps : is_name (codes "apps") ≡ true
unfolding is_name
name_apps = refl

name_web : is_name (codes "web") ≡ true
unfolding is_name
name_web = refl

name_src : is_name (codes "src") ≡ true
unfolding is_name
name_src = refl

importer_declaring-nearest_example :
    importer_declaring web_lock (codes "vite") web_dir false
    ≡ nearest (declares web_lock (codes "vite") false) web_dir
unfolding sub
importer_declaring-nearest_example = importer_declaring-nearest web_lock (codes "vite") false (
    child (codes "apps/web") (codes "src")
      (child (codes "apps") (codes "web") (child [] (codes "apps") root name_apps) name_web)
      name_src)
