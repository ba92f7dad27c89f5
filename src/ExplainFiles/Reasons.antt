-- ===== src/ExplainFiles/Reasons.antt =====
-- ts/tools/explainfiles/explainfiles.go: why a file is in the program. What a pattern matches is
-- Go's: `find` gives the first two groups of a match, empty where there is none.
use rules_typescript.Base.{
  Bool, true, false, not, ◌&&◌, ◌||◌, Option, none, some, List, [], ◌∷◌, ◌++◌, ◌==◌, if◌then◌else◌,
  any, all,
}
use rules_typescript.Base.Int.{ℤ, pos, add_one, sub_one, is_nonnegative, is_zero}
use rules_typescript.Base.Text.{Text, codes, has_prefix, has_suffix, contains}
use rules_typescript.ExplainFiles.{
  EdgeKind, import, reference, type_reference, augmentation, module_specifier, Listing,
}

-- `malformed` is an error, `panics` a slice out of range.
pub data Parsed {ℓ} (A : Type ℓ) : Type ℓ where
  ok : A → Parsed A
  malformed panics : Parsed A

-- `requiredLiterals` at a byte; of `start` only whether it is 0 is read.
pub record Literals : Type 0 where
  pub run : Text
  pub depth : ℤ
  pub at_start : Bool
  pub prefix : Text
  pub suffix : Text
  pub literals : List Text

abbrev pub is_none : Text → Bool
is_none [] = true
is_none (c ∷ s) = false

abbrev pub drop_end : Text → Text
drop_end [] = []
drop_end (c ∷ []) = []
drop_end (c ∷ d ∷ s) = c ∷ drop_end (d ∷ s)

abbrev flush : Bool → Literals → Literals
flush at_end s = if is_none s.run then s else record s {
  run = [];
  prefix = if s.at_start then s.run else s.prefix;
  suffix = if at_end then s.run else s.suffix;
  literals = s.literals ++ s.run ∷ [];
}

abbrev away : Literals → Literals
away s = record s { at_start = false }

abbrev no_literals : Literals
no_literals = record {
  run = [];
  depth = pos 0;
  at_start = true;
  prefix = [];
  suffix = [];
  literals = [];
}

unfoldable pub literals_loop : Text → Literals → Literals
literals_loop [] s = flush true s
literals_loop (ch ∷ pattern) s =
    if ch == b'|' && not (is_nonnegative s.depth && not (is_zero s.depth))
    then no_literals
    else literals_loop pattern (
        if ch == b'('
        then (let f = flush false s in record f { depth = add_one f.depth })
        else if ch == b')'
        then away (record s { depth = sub_one s.depth })
        else if is_nonnegative s.depth && not (is_zero s.depth)
        then s
        else if ch == b'*' || ch == b'?' || ch == b'+'
        then away (flush false (record s { run = drop_end s.run }))
        else if ch == b'.' || ch == b'^' || ch == b'$'
        then away (flush false s)
        else record s { run = s.run ++ ch ∷ [] })

unfoldable pub required_literals : Text → Literals
unfolding literals_loop
required_literals pattern =
    if any (λ c. c == b'\\' || c == b'[' || c == b']' || c == b'{' || c == b'}') pattern
    then no_literals
    else literals_loop pattern no_literals

-- What a form says of its file.
pub data Reading : Type 0 where
  as_edge : EdgeKind → Reading
  as_type_entry as_implicit as_root as_nothing : Reading

pub record ReasonForm : Type 0 where
  pub pattern : Text
  pub reading : Reading
  pub required : Literals

unfoldable pub form : Text → Reading → ReasonForm
unfolding required_literals
form pattern reading = record {
  pattern = pattern;
  reading = reading;
  required = required_literals pattern;
}

unfoldable pub admits : ReasonForm → Text → Bool
unfolding has_prefix has_suffix contains
admits f reason =
    has_prefix reason f.required.prefix
    && has_suffix reason f.required.suffix
    && all (contains reason) f.required.literals

abbrev quoted : Text
quoted = codes "'(.*?)'"

abbrev from_file : Text
from_file = codes " from file " ++ quoted

abbrev specifier : Text
specifier = codes "(\".*?\"|'.*?')"

abbrev package_id : Text
package_id = codes " with packageId '.*?'"

abbrev imported : Text → ReasonForm
imported after =
    form (codes "Imported via " ++ (specifier ++ (from_file ++ after))) (as_edge import)

abbrev jsx : Text
jsx = codes " to import 'jsx' and 'jsxs' factory functions"

abbrev helpers : Text
helpers = codes " to import 'importHelpers' as specified in compilerOptions"

unfoldable pub reason_forms : List ReasonForm
unfolding form
reason_forms =
    imported (package_id ++ jsx)
    ∷ imported (package_id ++ helpers)
    ∷ imported package_id
    ∷ imported jsx
    ∷ imported helpers
    ∷ imported []
    ∷ form (codes "Augmented via " ++ (specifier ++ (from_file ++ package_id)))
        (as_edge augmentation)
    ∷ form (codes "Augmented via " ++ (specifier ++ from_file)) (as_edge augmentation)
    ∷ form (codes "Referenced via " ++ (quoted ++ from_file)) (as_edge reference)
    ∷ form (codes "Type library referenced via " ++ (quoted ++ (from_file ++ package_id)))
        (as_edge type_reference)
    ∷ form (codes "Type library referenced via " ++ (quoted ++ from_file)) (as_edge type_reference)
    ∷ form
        (codes "Entry point of type library "
          ++ (quoted ++ (codes " specified in compilerOptions" ++ package_id)))
        as_type_entry
    ∷ form
        (codes "Entry point of type library " ++ (quoted ++ codes " specified in compilerOptions"))
        as_type_entry
    ∷ form (codes "Entry point for implicit type library " ++ (quoted ++ package_id)) as_implicit
    ∷ form (codes "Entry point for implicit type library " ++ quoted) as_implicit
    ∷ form (codes "Matched by include pattern " ++ (quoted ++ (codes " in " ++ quoted))) as_root
    ∷ form (codes "Matched by default include pattern " ++ quoted) as_root
    ∷ form (codes "Part of 'files' list in tsconfig.json") as_root
    ∷ form (codes "Root file specified for compilation") as_root
    ∷ form (codes "Library referenced via " ++ (quoted ++ from_file)) as_nothing
    ∷ form (codes "Library " ++ (quoted ++ codes " specified in compilerOptions")) as_nothing
    ∷ form (codes "Default library for target " ++ quoted) as_nothing
    ∷ form (codes "Default library") as_nothing
    ∷ form
        (codes "File is ECMAScript module because "
          ++ (quoted ++ codes " has field \"type\" with value \"module\""))
        as_nothing
    ∷ form
        (codes "File is CommonJS module because "
          ++ (quoted ++ codes " has field \"type\" whose value is not \"module\""))
        as_nothing
    ∷ form
        (codes "File is CommonJS module because "
          ++ (quoted ++ codes " does not have field \"type\""))
        as_nothing
    ∷ form (codes "File is CommonJS module because 'package.json' was not found") as_nothing
    ∷ form (codes "File redirects to file " ++ quoted) as_nothing
    ∷ []

abbrev pub add_edge : EdgeKind → Text → Text → Text → Listing → Listing
add_edge kind file spec from l = record l {
  edges = l.edges ++ (record { kind = kind; from = from; to = file; specifier = spec }) ∷ [];
}

-- A module specifier is written with its quotes, which are sliced off.
abbrev pub read_edge : Bool → EdgeKind → Text → Text → Text → Listing → Parsed Listing
read_edge false kind file spec from l = ok (add_edge kind file spec from l)
read_edge true kind file (q ∷ c ∷ spec) from l =
    ok (add_edge kind file (drop_end (c ∷ spec)) from l)
read_edge true kind file (q ∷ []) from l = panics
read_edge true kind file [] from l = panics

unfoldable pub read_form : Reading → Text → Text × Text → Listing → Parsed Listing
unfolding module_specifier
read_form (as_edge kind) file (spec, from) l =
    read_edge (module_specifier kind) kind file spec from l
read_form as_type_entry file (entry, other) l =
    ok (record l { types = l.types ++ (record { entry = entry; file = file }) ∷ [] })
read_form as_implicit file (entry, other) l =
    ok (record l { implicit = l.implicit ++ (record { entry = entry; file = file }) ∷ [] })
read_form as_root file found l = ok (record l { roots = l.roots ++ file ∷ [] })
read_form as_nothing file found l = ok l

module _ (find : Text → Text → Option (Text × Text)) where
  abbrev pub read_found :
      Reading → Text → Listing → Parsed Listing → Option (Text × Text) → Parsed Listing
  read_found reading file l rest none = rest
  read_found reading file l rest (some found) = read_form reading file found l

  -- `readReason` over the forms that are left.
  unfoldable pub read_reason : List ReasonForm → Text → Text → Listing → Parsed Listing
  unfolding admits read_form
  read_reason [] file reason l = malformed
  read_reason (f ∷ forms) file reason l =
      let rest = read_reason forms file reason l in
      if not (admits f reason)
      then rest
      else read_found f.reading file l rest (find f.pattern reason)
