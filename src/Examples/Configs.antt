-- ===== src/Examples/Configs.antt =====
-- Configs and JSON with comments at concrete inputs.
use rules_typescript.Base.{
  Bool, true, Option, none, some, List, [], ◌∷◌, ◌++◌, if◌then◌else◌, all, ◌≡◌, ◌≢◌, refl, In, here,
  there, Bool-cases, inl, inr,
}
use rules_typescript.Base.Text.{Text, codes, text_eq, text_eq_iff}
use rules_typescript.Base.Map.{member}
use rules_typescript.TsConfig.{
  File, Resolved, override, blank, leaf, resolved, exhausted, with_leaf, extends_loop, read_file,
  resolve, Paths,
}
use rules_typescript.TsConfig.Chain.{resolve_ends}
use rules_typescript.TsConfig.Admission.{WasRead, resolve-WasRead}
use rules_typescript.TsConfig.Merged.{IsChain, resolve-IsChain}
use rules_typescript.Base.GoPath.{clean, dir}
use rules_typescript.TsConfig.Paths
use rules_typescript.TsConfig.Paths.{
  get, set, set_lem, decode_members, last_values, get-decode_members,
}
use rules_typescript.Jsonc.{strip, run, code}
use rules_typescript.Jsonc.Lines.{newlines, newlines-strip}
use rules_typescript.Jsonc.Strict.{is_strict, strip-strict}
use rules_typescript.Jsonc.Comments.{only_newlines, no_close, not_newline, run-comments}

-- Two configs that extend each other.
abbrev config : Text → File
config other = record {
  extends = other ∷ [];
  include = none;
  exclude = none;
  files = none;
  base_url = [];
  paths = none;
  types = none;
  jsx = codes "preserve";
  jsx_import_source = [];
  module_kind = [];
}

abbrev path_a : Text
path_a = codes "a.json"

abbrev path_b : Text
path_b = codes "b.json"

abbrev disk_list : List Text
disk_list = path_a ∷ path_b ∷ []

abbrev read_disk : Text → Option File
read_disk p =
    if text_eq p path_a
    then some (config (codes "./b"))
    else if text_eq p path_b
    then some (config (codes "./a"))
    else none

abbrev admit_all : Text → Bool
admit_all p = true

read_disk-In : (p : Text) (f : File) → read_disk p ≡ some f → In p disk_list
read_disk-In p f h = elim (Bool-cases (text_eq p path_a)) [
  | inl a ↦ here ((text_eq_iff p path_a).0 a)
  | inr a ↦ elim (Bool-cases (text_eq p path_b)) [
    | inl b ↦ there (here ((text_eq_iff p path_b).0 b))
    | inr b ↦ (let q : none ≡ some f = rw (a, b) at h in absurd (cc))
  ]
]

resolve_ends_example : resolve read_disk admit_all 3 [] path_a ≢ exhausted
resolve_ends_example = resolve_ends read_disk admit_all disk_list read_disk-In path_a

-- A config over a base that sets other values.
abbrev over_base : File
over_base = record (config (codes "./b")) { types = some (codes "node" ∷ []) }

abbrev base_file : File
base_file = record (config []) { extends = []; base_url = codes "lib"; jsx = codes "react" }

abbrev read_two : Text → Option File
read_two p =
    if text_eq p path_a then some over_base else if text_eq p path_b then some base_file else none

abbrev two_merged : Resolved
two_merged =
    override (override (blank over_base.extends) (override (blank []) (leaf base_file path_b)))
      (leaf over_base path_a)

two_resolved : resolve read_two admit_all 3 [] path_a ≡ resolved two_merged
unfolding resolve read_file with_leaf extends_loop override dir
two_resolved = refl

resolve-IsChain_example :
    (f : File) × (read_two (clean path_a) ≡ some f)
    × IsChain (resolve read_two admit_all 2 (clean path_a ∷ [])) (clean path_a) f two_merged
resolve-IsChain_example = resolve-IsChain read_two admit_all 2 [] path_a two_resolved

-- One config, which extends nothing.
abbrev alone_file : File
alone_file = record (config []) { extends = [] }

abbrev read_one : Text → Option File
read_one p = some alone_file

one_resolved :
    resolve read_one admit_all 2 [] path_a ≡ resolved (override (blank []) (leaf alone_file path_a))
unfolding resolve read_file with_leaf extends_loop override
one_resolved = refl

resolve-WasRead_example : WasRead read_one admit_all path_a
unfolding override
resolve-WasRead_example =
    resolve-WasRead read_one admit_all 2 path_a path_a one_resolved (here refl)

abbrev some_paths : Paths
some_paths = record { key = codes "@/*"; values = codes "src/*" ∷ [] } ∷ []

set_lem_example :
    ((other : Text)
      → get (set some_paths (codes "~/*") []) other
        ≡ (if text_eq (codes "~/*") other then [] else get some_paths other))
    × (Paths.keys (set some_paths (codes "~/*") []) ≡ (
        if member (codes "~/*") (Paths.keys some_paths)
        then Paths.keys some_paths
        else Paths.keys some_paths ++ codes "~/*" ∷ []))
set_lem_example = set_lem some_paths (codes "~/*") []

abbrev repeated : List (Text × List Text)
repeated = (codes "a", codes "1" ∷ []) ∷ (codes "b", []) ∷ (codes "a", codes "2" ∷ []) ∷ []

get-decode_members_example : get (decode_members repeated []) (codes "a") ≡ codes "2" ∷ []
unfolding last_values
get-decode_members_example = get-decode_members repeated (codes "a")

newlines-strip_example :
    newlines (strip (codes "{ // one\n \"a\": 1, /* \n */ }"))
    ≡ newlines (codes "{ // one\n \"a\": 1, /* \n */ }")
newlines-strip_example = newlines-strip (codes "{ // one\n \"a\": 1, /* \n */ }")

strict_text : is_strict (codes "{\"a//b,}\": [1, 2]}") ≡ true
unfolding is_strict
strict_text = refl

strip-strict_example : strip (codes "{\"a//b,}\": [1, 2]}") ≡ codes "{\"a//b,}\": [1, 2]}"
strip-strict_example = strip-strict (codes "{\"a//b,}\": [1, 2]}") strict_text

line_text : all not_newline (codes "a, ]") ≡ true
line_text = refl

block_text : no_close (codes "a*\n") ≡ true
unfolding no_close
block_text = refl

run-comments_example :
    (run code (codes "[") (codes "//a, ]\n]") ≡ run code (codes "[\n") (codes "]"))
    × (run code (codes "[") (codes "/*a*\n*/]") ≡ run code (codes "[\n") (codes "]"))
unfolding only_newlines
run-comments_example =
    run-comments (codes "[") (codes "a, ]") (codes "a*\n") (codes "]") line_text block_text
