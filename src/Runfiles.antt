-- ===== src/Runfiles.antt =====
-- ts/tools/runtimeview/stage.go: the lines of a runfiles manifest, and the bindings that contexts
-- share by their index.
pub mod Entries
pub mod Bindings
use rules_typescript.Base.{
  ℕ, zero, suc, Bool, true, false, ◌&&◌, Option, none, some, List, [], ◌∷◌, ◌++◌, ◌==◌,
  if◌then◌else◌,
}
use rules_typescript.Base.Int.{ℤ, pos, negsuc}
use rules_typescript.Base.Text.{Text, codes, has_prefix, trim_prefix, cut}
use rules_typescript.Base.Map.{Map}

pub record PackageScope : Type 0 where
  pub manifest : Text
  pub bindings : Map Text
  pub bindings_set : Option ℤ

-- `module_path` is the field Module.
pub record NpmContext : Type 0 where
  pub module_path : Text
  pub source : Text
  pub bindings : Map Text
  pub bindings_set : Option ℤ
  pub package_scope : Option PackageScope

abbrev pub nth {ℓ} : {A : Type ℓ} → ℕ → List A → Option A
nth n [] = none
nth zero (x ∷ xs) = some x
nth (suc n) (x ∷ xs) = nth n xs

-- `pick`; none is the error that the index is out of range.
abbrev pub pick : Option ℤ → List (Map Text) → Map Text → Option (Map Text)
pick none sets bindings = some bindings
pick (some (negsuc n)) sets bindings = none
pick (some (pos n)) sets bindings = nth n sets

abbrev pub with_bindings : PackageScope → Option (Map Text) → Option PackageScope
with_bindings scope none = none
with_bindings scope (some bindings) = some (record scope { bindings = bindings })

abbrev pub in_scope : NpmContext → Option PackageScope → Option NpmContext
in_scope context none = none
in_scope context (some scope) = some (record context { package_scope = some scope })

abbrev pub resolve_scope : List (Map Text) → Option PackageScope → NpmContext → Option NpmContext
resolve_scope sets none context = some context
resolve_scope sets (some scope) context =
    in_scope context (with_bindings scope (pick scope.bindings_set sets scope.bindings))

abbrev pub resolve_bindings : List (Map Text) → NpmContext → Option (Map Text) → Option NpmContext
resolve_bindings sets context none = none
resolve_bindings sets context (some bindings) =
    resolve_scope sets context.package_scope (record context { bindings = bindings })

abbrev pub and_resolved : Option NpmContext → Option (List NpmContext) → Option (List NpmContext)
and_resolved none rest = none
and_resolved (some context) none = none
and_resolved (some context) (some rest) = some (context ∷ rest)

-- `ResolveNpmBindings`, whose error leaves the contexts of no use.
unfoldable pub resolve_npm_bindings : List NpmContext → List (Map Text) → Option (List NpmContext)
resolve_npm_bindings [] sets = some []
resolve_npm_bindings (context ∷ contexts) sets =
    and_resolved (resolve_bindings sets context (pick context.bindings_set sets context.bindings))
      (resolve_npm_bindings contexts sets)

abbrev unescaped_byte : ℕ → Option ℕ
unescaped_byte c =
    if c == b's'
    then some b' '
    else if c == b'n'
    then some b'\n'
    else if c == b'b'
    then some b'\\'
    else none

abbrev in_place : Option ℕ → Text → Text → Text
in_place none plain rest = plain
in_place (some c) plain rest = c ∷ rest

-- The replacements of an escaped entry.
unfoldable pub unescape : Text → Text
unescape [] = []
unescape (c ∷ []) = c ∷ []
unescape (c ∷ d ∷ s) =
    let plain = c ∷ unescape (d ∷ s) in
    let rest = unescape s in if c == b'\\' then in_place (unescaped_byte d) plain rest else plain

abbrev pub is_empty : Text → Bool
is_empty [] = true
is_empty (c ∷ s) = false

abbrev pub entry_of : Bool → Option (Text × Text) → Option (Text × Text)
entry_of escaped none = none
entry_of escaped (some (rlocation, target)) =
    if is_empty rlocation
    then none
    else if escaped
    then some (unescape rlocation, unescape target)
    else some (rlocation, target)

unfoldable pub manifest_entry : Text → Option (Text × Text)
unfolding has_prefix trim_prefix cut unescape
manifest_entry line =
    entry_of (has_prefix line (codes " ")) (cut (trim_prefix line (codes " ")) (codes " "))
