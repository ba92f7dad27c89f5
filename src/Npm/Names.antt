-- ===== src/Npm/Names.antt =====
-- The pure name functions of gazelle/npm.go and gazelle/pnpm_lock.go.
pub mod Spelling
pub mod Keys
use rules_typescript.Base.{
  ℕ, ◌+◌, Bool, true, false, not, ◌&&◌, ◌||◌, Option, none, some, List, [], ◌∷◌, ◌++◌, ltb,
  if◌then◌else◌, length,
}
use rules_typescript.Base.Text.{
  Text, codes, text_eq, cut_prefix, cut_suffix, has_prefix, has_suffix, trim_prefix, trim_suffix,
  cut, cut_last, contains, split_n, trim_space, trim_right, trim_left, replace_byte,
}

abbrev pub node_modules : Text
node_modules = codes "node_modules"

-- gazelle/npm.go

-- The segments behind the last "/node_modules/", by the `switch` of `npmPackageName`.
abbrev listed_name : List Text → Text
listed_name [] = []
listed_name (first ∷ []) = []
listed_name (first ∷ second ∷ []) = if has_prefix first (codes "@") then [] else first
listed_name (first ∷ second ∷ rest) =
    if has_prefix first (codes "@") then first ++ (b'/' ∷ second) else first

unfoldable pub npm_package_name : Text → Text
unfolding cut_last split_n has_prefix
npm_package_name listed = elim (cut_last (b'/' ∷ listed) (codes "/node_modules/")) [
  | none ↦ []
  | some (before, after) ↦ listed_name (split_n 3 after b'/')
]

unfoldable pub npm_package_to_label_name : Text → Text
unfolding trim_prefix replace_byte
npm_package_to_label_name name = replace_byte (trim_prefix name (codes "@")) b'/' b'_'

unfoldable pub is_bare_specifier : Text → Bool
unfolding has_prefix contains
is_bare_specifier spec =
    not (text_eq spec [])
    && not (has_prefix spec (codes "."))
    && not (has_prefix spec (codes "/"))
    && not (has_prefix spec (codes "#"))
    && not (contains spec (codes ":"))

abbrev scoped_name : Text → List Text → Text
scoped_name spec (scope ∷ name ∷ rest) = b'@' ∷ (scope ++ (b'/' ∷ name))
scoped_name spec _ = spec

abbrev first_piece : List Text → Text
first_piece [] = []
first_piece (w ∷ ws) = w

unfoldable pub bare_package_name : Text → Text
unfolding split_n cut_prefix
bare_package_name spec = elim (cut_prefix spec (codes "@")) [
  | some rest ↦ scoped_name spec (split_n 3 rest b'/')
  | none ↦ first_piece (split_n 2 spec b'/')
]

-- strings.Replace of the first "/" by "__".
unscope : Text → Text
unfolding cut
unscope name = elim (cut name (codes "/")) [
  | none ↦ name
  | some (scope, rest) ↦ scope ++ (codes "__" ++ rest)
]

unfoldable pub types_package : Text → Text
unfolding bare_package_name unscope cut_prefix
types_package spec =
    let name = bare_package_name spec in
    elim (cut_prefix name (codes "@")) [
      | some rest ↦ codes "@types/" ++ unscope rest
      | none ↦ codes "@types/" ++ name
    ]

-- gazelle/pnpm_lock.go

-- `key[1 : len(key)-1]` for a key in single quotes, which has at least two bytes.
unquote : Text → Text
unfolding cut_prefix cut_suffix
unquote key = elim (cut_prefix key (codes "'")) [
  | none ↦ key
  | some rest ↦ elim (cut_suffix rest (codes "'")) [ none ↦ key | some inner ↦ inner ]
]

before_paren : Text → Text
unfolding cut
before_paren key = elim (cut key (codes "(")) [ none ↦ key | some (before, after) ↦ before ]

abbrev neither : Text × Text
neither = ([], [])

-- `at <= 0` is an "@" that is missing or comes first.
scoped_key : Text → Text × Text
unfolding cut cut_last
scoped_key key = elim (cut key (codes "/")) [
  | none ↦ neither
  | some (scope, rest) ↦ elim (cut_last rest (codes "@")) [
    | none ↦ neither
    | some (name, version) ↦ if text_eq name [] then neither else (scope ++ (b'/' ∷ name), version)
  ]
]

plain_key : Text → Text × Text
unfolding cut_last
plain_key key = elim (cut_last key (codes "@")) [
  | none ↦ neither
  | some (name, version) ↦
      if text_eq name [] || text_eq version [] then neither else (name, version)
]

unfoldable pub split_key : Text → Text × Text
unfolding scoped_key plain_key has_prefix
split_key key = if has_prefix key (codes "@") then scoped_key key else plain_key key

unfoldable pub parse_pnpm_package_key : Text → Text × Text
unfolding unquote before_paren split_key trim_space trim_prefix
parse_pnpm_package_key key =
    split_key (before_paren (trim_prefix (unquote (trim_space key)) (codes "/")))

abbrev tail_text : Text → Text
tail_text [] = []
tail_text (c ∷ s) = s

abbrev alias_of : Text × Text → Text
alias_of (name, resolved) =
    if text_eq name [] || text_eq resolved [] then [] else name ++ (b'@' ∷ resolved)

unfoldable pub pnpm_alias_target : Text → Text
unfolding before_paren parse_pnpm_package_key has_prefix contains
pnpm_alias_target version =
    if has_prefix version (codes "file:")
    then []
    else let plain = before_paren version in
      if ltb (length plain) 2 || not (contains (tail_text plain) (codes "@"))
      then []
      else alias_of (parse_pnpm_package_key plain)

unfoldable pub pnpm_file_tarball : Text → Bool
unfolding has_prefix has_suffix
pnpm_file_tarball version =
    has_prefix version (codes "file:")
    && (has_suffix version (codes ".tgz") || has_suffix version (codes ".tar.gz"))

unfoldable pub pnpm_mapping_key : Text → Text
unfolding cut_suffix cut
pnpm_mapping_key stripped = elim (cut_suffix stripped (codes ":")) [
  | some key ↦ key
  | none ↦ elim (cut stripped (codes ": ")) [ none ↦ [] | some (before, after) ↦ before ]
]
