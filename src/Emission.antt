-- ===== src/Emission.antt =====
-- gazelle/emission.go: the versions that tell whether a package's rules may have been stored since
-- they were registered. A rule, like a BUILD file, is a
-- pointer, so it has an identity. Labels are parsed and printed by Gazelle's library.
pub mod Versions
pub mod Targets
pub mod Aliases
pub mod Exports
pub mod Runtime
pub mod Scope
use rules_typescript.Base.{
  ℕ, zero, suc, ◌+◌, Bool, true, false, not, ◌&&◌, ◌||◌, Option, none, some, List, [], ◌∷◌, ◌++◌,
  ◌==◌, if◌then◌else◌,
}
use rules_typescript.Base.Text.{Text, codes, text_eq}
use rules_typescript.Base.Map.{Map, NameSet, lookup, insert, has_key, member, add_name}

-- `label.Label`.
pub record Label : Type 0 where
  pub repo : Text
  pub pkg : Text
  pub name : Text
  pub canonical : Bool

-- What this file reads of a rule; an attribute that is not there is nil.
pub record Rule : Type 0 where
  pub id : ℕ
  pub kind : Text
  pub actual : Text
  pub has_out : Bool
  pub has_outs : Bool
  pub has_out_dir : Bool

pub record BuildFile : Type 0 where
  pub id : ℕ
  pub rules : List ℕ

abbrev pub Version : Type 0
Version = ℕ × ℕ

pub record RegisteredBuild : Type 0 where
  pub file : ℕ
  pub rules : List ℕ
  pub version : Version
  pub epoch : ℕ

-- The fields of `emissionGraph` that the operations below read or write. `none` is a nil map.
pub record EmissionGraph : Type 0 where
  pub rules : Map Rule
  pub versions : Map ℕ
  pub epoch : ℕ
  pub files : Map ℕ
  pub registered : Map RegisteredBuild
  pub list_epoch : ℕ
  pub outputs_generation : ℕ
  pub rules_generation : ℕ
  pub crawled : Option NameSet
  pub crawled_pkgs : NameSet
  pub last_touched : Text

unfoldable pub memo_for : Option NameSet → EmissionGraph → EmissionGraph
memo_for none g = record g { crawled = some []; crawled_pkgs = [] }
memo_for (some seen) g = g

unfoldable pub crawl_memo : EmissionGraph → EmissionGraph
unfolding memo_for
crawl_memo g = memo_for g.crawled g

unfoldable pub touch : Text → EmissionGraph → EmissionGraph
unfolding member
touch pkg g = record g {
  crawled =
      if member pkg g.crawled_pkgs || member g.last_touched g.crawled_pkgs then none else g.crawled;
  last_touched = pkg;
}

unfoldable pub rule_lists_may_change : EmissionGraph → EmissionGraph
rule_lists_may_change g = record g { list_epoch = suc g.list_epoch }

unfoldable pub declares_outputs : Option Rule → Bool
declares_outputs none = false
declares_outputs (some r) = r.has_out || r.has_outs || r.has_out_dir

-- `g.rules[key] == r`, for a rule that is not nil.
abbrev is_rule : Option Rule → Rule → Bool
is_rule none r = false
is_rule (some s) r = s.id == r.id

abbrev count_of : Option ℕ → ℕ
count_of none = 0
count_of (some n) = n

unfoldable pub remove {ℓ} : {V : Type ℓ} → Text → Map V → Map V
remove k [] = []
remove k ((j, v) ∷ m) = let rest = remove k m in if text_eq j k then rest else (j, v) ∷ rest

-- `bump` by the label that the key parses as.
unfoldable pub bumped : Option Label → EmissionGraph → EmissionGraph
unfolding lookup insert member
bumped none g = record g { epoch = suc g.epoch; crawled = none }
bumped (some own) g = record g {
  crawled = if member own.pkg g.crawled_pkgs then none else g.crawled;
  versions = insert own.pkg (suc (count_of (lookup own.pkg g.versions))) g.versions;
}

unfoldable pub version : Text → EmissionGraph → Version
unfolding lookup
version pkg g = (g.epoch, count_of (lookup pkg g.versions))

-- `g.files[pkg] == f`, for a file that is not nil.
abbrev is_file : Option ℕ → BuildFile → Bool
is_file none f = false
is_file (some old) f = old == f.id

unfoldable pub set_file : Text → BuildFile → EmissionGraph → EmissionGraph
unfolding lookup insert
set_file pkg f g =
    let same = is_file (lookup pkg g.files) f in
    record g {
      outputs_generation = if same then g.outputs_generation else suc g.outputs_generation;
      files = insert pkg f.id g.files;
    }

abbrev equal_rules : List ℕ → List ℕ → Bool
equal_rules [] [] = true
equal_rules [] (s ∷ ss) = false
equal_rules (r ∷ rs) [] = false
equal_rules (r ∷ rs) (s ∷ ss) = r == s && equal_rules rs ss

-- The result, and the graph: a registration that still holds is moved to the list epoch.
unfoldable pub still_registered :
    Option RegisteredBuild → Text → BuildFile → EmissionGraph → Bool × EmissionGraph
unfolding version insert
still_registered none pkg f g = (false, g)
still_registered (some r) pkg f g =
    let v = version pkg g in
    if not (r.file == f.id)
      || not (r.version.0 == v.0 && r.version.1 == v.1)
      || not (r.epoch == g.list_epoch) && not (equal_rules r.rules f.rules)
    then (false, g)
    else (
      true,
      record g { registered = insert pkg (record r { epoch = g.list_epoch }) g.registered },
    )

unfoldable pub registered_rules : Text → BuildFile → EmissionGraph → Bool × EmissionGraph
unfolding still_registered lookup
registered_rules pkg f g = still_registered (lookup pkg g.registered) pkg f g

unfoldable pub registration : Text → BuildFile → EmissionGraph → RegisteredBuild
unfolding version
registration pkg f g = record {
  file = f.id;
  rules = f.rules;
  version = version pkg g;
  epoch = g.list_epoch;
}

unfoldable pub record_registered : Text → BuildFile → EmissionGraph → EmissionGraph
unfolding registration insert
record_registered pkg f g = record g { registered = insert pkg (registration pkg f g) g.registered }

module _ (parse_label : Text → Option Label) where
  unfoldable pub bump : Text → EmissionGraph → EmissionGraph
  unfolding bumped
  bump key g = bumped (parse_label key) g

  unfoldable pub store_rule : Text → Rule → EmissionGraph → EmissionGraph
  unfolding bump declares_outputs lookup insert
  store_rule key r g =
      let declares = declares_outputs (lookup key g.rules) || declares_outputs (some r) in
      bump key (record g {
        outputs_generation = if declares then suc g.outputs_generation else g.outputs_generation;
        rules = insert key r g.rules;
      })

  unfoldable pub set_rule : Text → Rule → EmissionGraph → EmissionGraph
  unfolding store_rule
  set_rule key r g = store_rule key r (record g { rules_generation = suc g.rules_generation })

  unfoldable pub set_resolved_rule : Text → Rule → EmissionGraph → EmissionGraph
  unfolding store_rule lookup
  set_resolved_rule key r g = store_rule key r (record g {
    rules_generation =
        if is_rule (lookup key g.rules) r then g.rules_generation else suc g.rules_generation;
  })

  unfoldable pub delete_rule : Text → EmissionGraph → EmissionGraph
  unfolding bump declares_outputs lookup remove
  delete_rule key g = bump key (record g {
    outputs_generation =
        if declares_outputs (lookup key g.rules)
        then suc g.outputs_generation
        else g.outputs_generation;
    rules_generation = suc g.rules_generation;
    rules = remove key g.rules;
  })
