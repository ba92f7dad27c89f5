-- ===== src/Owner/Data.antt =====
-- gazelle/generate.go: the regular files of a package that no listing decides.
use rules_typescript.Base.{
  ◌+◌, Bool, false, not, ◌&&◌, ◌||◌, List, [], ◌∷◌, ◌++◌, if◌then◌else◌, leb,
}
use rules_typescript.Base.Text.{Text, codes, text_eq}
use rules_typescript.Base.Map.{NameSet, lookup, member, keys}
use rules_typescript.Base.Sort.{sort_strings}
use rules_typescript.Base.GoPath.{ext, join_path}
use rules_typescript.Files.{dir_is_ancestor_of}
use rules_typescript.Owner.{ProgramStore, flag_at, set_at, text_at, nearest_package}

-- `strings.ToLower`, on the letters that an extension of a program has.
unfoldable pub lower : Text → Text
lower [] = []
lower (c ∷ s) = let rest = lower s in if leb b'A' c && leb c b'Z' then (c + 32) ∷ rest else c ∷ rest

abbrev program_extensions : NameSet
program_extensions =
    codes ".js"
    ∷ codes ".jsx"
    ∷ codes ".mjs"
    ∷ codes ".cjs"
    ∷ codes ".ts"
    ∷ codes ".tsx"
    ∷ codes ".mts"
    ∷ codes ".cts"
    ∷ []

unfoldable pub program_candidate : Text → Bool
unfolding lower ext member
program_candidate name = member (lower (ext name)) program_extensions

-- `codegen_writes` and `config_path` are the caller's, at the package.
module _ (codegen_writes : Text → Bool) (config_path : Text → Text) (s : ProgramStore) where
  -- The switch: whether a file of a directory is data of the package.
  unfoldable pub is_data : Text → Text → Text → Bool
  unfolding program_candidate join_path
  is_data pkg dir f =
      if text_eq f (codes "BUILD.bazel")
        || text_eq f (codes "BUILD")
        || text_eq f (codes "package.json")
        || program_candidate f
      then false
      else if text_eq (join_path dir f) (config_path pkg)
          || text_eq dir pkg && text_eq f (codes "tsconfig.json")
      then false
      else not (codegen_writes (join_path dir f))

  unfoldable pub data_in : Text → Text → List Text → List Text
  unfolding is_data join_path
  data_in pkg dir [] = []
  data_in pkg dir (f ∷ fs) =
      let rest = data_in pkg dir fs in if is_data pkg dir f then join_path dir f ∷ rest else rest

  -- The directories of the package: walked, its own repository's, at or below it, and no deeper
  -- package's.
  unfoldable pub is_package_dir : Text → Text → Bool
  unfolding lookup dir_is_ancestor_of nearest_package
  is_package_dir pkg dir =
      flag_at (lookup dir s.walked)
      && text_eq (text_at (lookup dir s.foreign)) []
      && (text_eq dir pkg || dir_is_ancestor_of pkg dir)
      && text_eq (nearest_package s dir) pkg

  unfoldable pub data_loop : Text → List Text → List Text
  unfolding is_package_dir data_in lookup
  data_loop pkg [] = []
  data_loop pkg (dir ∷ dirs) =
      let rest = data_loop pkg dirs in
      if is_package_dir pkg dir then data_in pkg dir (set_at (lookup dir s.files)) ++ rest else rest

  unfoldable pub data_files : Text → List Text
  unfolding data_loop keys sort_strings
  data_files pkg = data_loop pkg (sort_strings (keys s.files))
