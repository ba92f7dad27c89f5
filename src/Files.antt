-- ===== src/Files.antt =====
-- The pure file tests of gazelle/owner.go and gazelle/generate.go.
use rules_typescript.Base.{
  Bool, false, not, ◌&&◌, ◌||◌, List, [], ◌∷◌, ◌++◌, none, some, if◌then◌else◌,
}
use rules_typescript.Base.Text.{
  Text, codes, text_eq, has_prefix, has_suffix, cut_suffix, trim_suffix, contains,
}
use rules_typescript.Base.GoPath.{base, ext}

-- The scheme of the libs that the compiler embeds.
abbrev pub embedded_libs : Text
embedded_libs = codes "bundled:///"

unfoldable pub first_party : Text → Bool
unfolding has_prefix has_suffix contains
first_party f =
    if has_prefix f (codes "../") || has_prefix f (codes "/") || has_prefix f embedded_libs
    then false
    else not (text_eq f (codes "node_modules"))
      && not (has_prefix f (codes "node_modules/"))
      && not (has_suffix f (codes "/node_modules"))
      && not (contains f (codes "/node_modules/"))

unfoldable pub is_declaration_file : Text → Bool
unfolding has_suffix
is_declaration_file name =
    has_suffix name (codes ".d.ts")
    || has_suffix name (codes ".d.mts")
    || has_suffix name (codes ".d.cts")

unfoldable pub is_test_file : Text → Bool
unfolding has_suffix trim_suffix ext
is_test_file name =
    let stem = trim_suffix name (ext name) in
    has_suffix stem (codes ".test") || has_suffix stem (codes ".spec")

pub data FileClass : Type 0 where
  library_file test_file declaration_file : FileClass

unfoldable pub classify : Text → FileClass
unfolding is_declaration_file is_test_file base
classify f =
    let name = base f in
    if is_declaration_file name
    then declaration_file
    else if is_test_file name
    then test_file
    else library_file

-- The loop over the three pairs: the first declaration suffix that the name ends in.
unfoldable pub twin_of : List (Text × Text) → Text → Text
unfolding cut_suffix
twin_of [] f = []
twin_of ((declaration, script) ∷ pairs) f =
    let rest = twin_of pairs f in
    elim (cut_suffix f declaration) [ none ↦ rest | some stem ↦ stem ++ script ]

-- gazelle/generate.go
unfoldable pub package_name : Text → Text
unfolding base
package_name [] = codes "root"
package_name (c ∷ s) = base (c ∷ s)

unfoldable pub dev_target_name : Text → Text
dev_target_name name = if text_eq name (codes "dev") then codes "dev_server" else codes "dev"

unfoldable pub dir_is_ancestor_of : Text → Text → Bool
unfolding has_prefix
dir_is_ancestor_of ancestor descendant =
    if text_eq ancestor descendant
    then false
    else text_eq ancestor [] || has_prefix descendant (ancestor ++ (b'/' ∷ []))

unfoldable pub test_target_name : Text → Text
test_target_name lib_name = lib_name ++ codes "_test"
