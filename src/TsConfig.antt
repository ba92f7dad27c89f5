-- ===== src/TsConfig.antt =====
-- ts/tools/tsconfig/tsconfig.go: a tsconfig.json and the chain that its extends forms. A pointer
-- that may be nil is an Option. Decoding is the standard library's, so a file is what was decoded.
pub mod Chain
pub mod Admission
pub mod Paths
pub mod Override
pub mod Merged
use rules_typescript.Base.{
  ℕ, zero, suc, Bool, true, false, not, ◌&&◌, ◌||◌, Option, none, some, List, [], ◌∷◌, ◌++◌, ◌==◌,
  if◌then◌else◌,
}
use rules_typescript.Base.Text.{Text, codes, text_eq, has_prefix, has_suffix}
use rules_typescript.Base.Map.{NameSet, member}
use rules_typescript.Base.GoPath.{clean, dir, join_path}

-- An entry of compilerOptions.paths, in its authored place.
pub record PathEntry : Type 0 where
  pub key : Text
  pub values : List Text

abbrev pub Paths : Type 0
Paths = List PathEntry

pub record File : Type 0 where
  pub extends : List Text
  pub include : Option (List Text)
  pub exclude : Option (List Text)
  pub files : Option (List Text)
  pub base_url : Text
  pub paths : Option Paths
  pub types : Option (List Text)
  pub jsx : Text
  pub jsx_import_source : Text
  pub module_kind : Text

pub record Resolved : Type 0 where
  pub extends : List Text
  pub configs : List Text
  pub base_url : Text
  pub base_url_dir : Text
  pub paths : Option Paths
  pub paths_dir : Text
  pub types : Option (List Text)
  pub jsx : Text
  pub jsx_import_source : Text
  pub module_kind : Text
  pub files : Option (List Text)
  pub include : Option (List Text)
  pub exclude : Option (List Text)
  pub files_dir : Text
  pub include_dir : Text
  pub exclude_dir : Text

abbrev pub is_set {ℓ} : {A : Type ℓ} → Option A → Bool
is_set none = false
is_set (some a) = true

abbrev pub nonempty : Text → Bool
nonempty s = not (text_eq s [])

unfoldable pub override : Resolved → Resolved → Resolved
override r other = record r {
  configs = r.configs ++ other.configs;
  base_url = if nonempty other.base_url then other.base_url else r.base_url;
  base_url_dir = if nonempty other.base_url then other.base_url_dir else r.base_url_dir;
  paths = if is_set other.paths then other.paths else r.paths;
  paths_dir = if is_set other.paths then other.paths_dir else r.paths_dir;
  types = if is_set other.types then other.types else r.types;
  jsx = if nonempty other.jsx then other.jsx else r.jsx;
  jsx_import_source =
      if nonempty other.jsx_import_source then other.jsx_import_source else r.jsx_import_source;
  module_kind = if nonempty other.module_kind then other.module_kind else r.module_kind;
  files = if is_set other.files then other.files else r.files;
  include = if is_set other.include then other.include else r.include;
  exclude = if is_set other.exclude then other.exclude else r.exclude;
  files_dir = if is_set other.files then other.files_dir else r.files_dir;
  include_dir = if is_set other.include then other.include_dir else r.include_dir;
  exclude_dir = if is_set other.exclude then other.exclude_dir else r.exclude_dir;
}

-- `&Resolved{Extends: f.Extends}`.
abbrev pub blank : List Text → Resolved
blank extends = record {
  extends = extends;
  configs = [];
  base_url = [];
  base_url_dir = [];
  paths = none;
  paths_dir = [];
  types = none;
  jsx = [];
  jsx_import_source = [];
  module_kind = [];
  files = none;
  include = none;
  exclude = none;
  files_dir = [];
  include_dir = [];
  exclude_dir = [];
}

-- What the leaf itself sets, read at `path`.
abbrev pub leaf : File → Text → Resolved
leaf f path = record {
  extends = [];
  configs = path ∷ [];
  base_url = f.base_url;
  base_url_dir = dir path;
  paths = f.paths;
  paths_dir = dir path;
  types = f.types;
  jsx = f.jsx;
  jsx_import_source = f.jsx_import_source;
  module_kind = f.module_kind;
  files = f.files;
  include = f.include;
  exclude = f.exclude;
  files_dir = dir path;
  include_dir = dir path;
  exclude_dir = dir path;
}

unfoldable pub inputs : Resolved → Bool
inputs r = is_set r.include || is_set r.files

-- A bare specifier is skipped, with a warning that is not modelled.
unfoldable pub resolve_extends : Text → Text → Option Text
unfolding has_prefix has_suffix join_path
resolve_extends directory spec =
    if text_eq spec []
    then none
    else let relative = has_prefix spec (codes "./") || has_prefix spec (codes "../") in
      let file = if not (has_suffix spec (codes ".json")) then spec ++ codes ".json" else spec in
      if not relative && not (has_prefix spec (codes "/"))
      then none
      else if not relative
      then some file
      else some (join_path directory file)

-- `failed` is an error that a config which extends this one skips (a cycle, a file that cannot be
-- read), `rejected` is `ErrAdmission`, which ends the whole chain, and `exhausted` is the model's:
-- the fuel ran out.
pub data Outcome : Type 0 where
  resolved : Resolved → Outcome
  failed rejected exhausted : Outcome

-- One extends, by what its config resolved to: go on, or end the chain.
extended : Resolved → Outcome → Outcome
unfolding override
extended acc (resolved base) = resolved (override acc base)
extended acc failed = resolved acc
extended acc rejected = rejected
extended acc exhausted = exhausted

one_extends : (Text → Outcome) → Resolved → Option Text → Outcome
unfolding extended
one_extends rec acc none = resolved acc
one_extends rec acc (some base_path) = extended acc (rec base_path)

-- The loop over a file's extends; `rec` is the recursive call.
unfoldable pub extends_loop : (Text → Outcome) → Text → List Text → Outcome → Outcome
unfolding one_extends resolve_extends
extends_loop rec directory [] acc = acc
extends_loop rec directory (spec ∷ specs) (resolved acc) =
    extends_loop rec directory specs (one_extends rec acc (resolve_extends directory spec))
extends_loop rec directory (spec ∷ specs) acc = acc

unfoldable pub with_leaf : File → Text → Outcome → Outcome
unfolding override
with_leaf f path (resolved bases) = resolved (override bases (leaf f path))
with_leaf f path o = o

-- `Read` and `admit` are the caller's: the files on disk as decoded, and which of them may be read.
module _ (read : Text → Option File) (admit : Text → Bool) where
  unfoldable pub read_file : (Text → Outcome) → Text → Option File → Outcome
  unfolding extends_loop with_leaf
  read_file rec path none = failed
  read_file rec path (some f) =
      with_leaf f path (extends_loop rec (dir path) f.extends (resolved (blank f.extends)))

  unfoldable pub resolve : ℕ → NameSet → Text → Outcome
  unfolding read_file clean member
  resolve zero ancestors path = exhausted
  resolve (suc fuel) ancestors path =
      let p = clean path in
      let rec = resolve fuel (p ∷ ancestors) in
      if member p ancestors
      then failed
      else if not (admit p)
      then rejected
      else read_file rec p (read p)
