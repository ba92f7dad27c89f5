-- ===== src/Scan/Facts.antt =====
-- gazelle/incremental/signature.go: `Specifiers` and `Signature`.
pub mod Quoted
use rules_typescript.Base.{
  ℕ, Bool, true, false, not, ◌&&◌, ◌||◌, Option, none, some, List, [], ◌∷◌, ◌++◌, if◌then◌else◌,
}
use rules_typescript.Base.Text.{Text, codes, text_eq, cut, contains, join}
use rules_typescript.Base.GoPath.{ext}
use rules_typescript.Base.Sort.{sort_strings}
use rules_typescript.Scan.{Scanner}
use rules_typescript.Scan.Steps.{Outcome, done, unscannable, out_of_fuel, scan_source}

pub record Specs : Type 0 where
  pub specs : List Text
  pub others : List Text

-- `panics` is a slice out of range; `starved` is the model's, for fuel that does not suffice.
pub data Answer {ℓ} (A : Type ℓ) : Type ℓ where
  answer : A → Answer A
  unreadable panics starved : Answer A

abbrev pub and_first : ℕ → Option Text → Option Text
and_first c none = none
and_first c (some s) = some (c ∷ s)

abbrev pub all_but_last : Text → Option Text
all_but_last [] = none
all_but_last (c ∷ []) = some []
all_but_last (c ∷ d ∷ s) = and_first c (all_but_last (d ∷ s))

-- `spec[1:len(spec)-1]`.
unfoldable pub unquoted : Text → Option Text
unquoted [] = none
unquoted (c ∷ s) = all_but_last s

unfoldable pub fact_parts : Text → Text × Text
unfolding cut
fact_parts fact = elim (cut fact (codes " ")) [ none ↦ (fact, []) | some parts ↦ parts ]

abbrev pub with_spec : Text → Option Text → Specs → Option Specs
with_spec kind none acc = none
with_spec kind (some spec) acc = some (record acc { specs = acc.specs ++ (kind ++ spec) ∷ [] })

unfoldable pub add_fact : Bool → Text → Specs → Option Specs
unfolding fact_parts unquoted
add_fact js fact acc =
    let parts = fact_parts fact in
    if text_eq parts.0 (codes "import") || text_eq parts.0 (codes "jsdoc") && js
    then with_spec (codes "import:") (unquoted parts.1) acc
    else if text_eq parts.0 (codes "require")
    then with_spec (codes "require:") (unquoted parts.1) acc
    else some (record acc { others = acc.others ++ fact ∷ [] })

abbrev pub and_add : Bool → Text → Option Specs → Option Specs
and_add js fact none = none
and_add js fact (some acc) = add_fact js fact acc

-- The loop of `Specifiers`; none is its panic.
unfoldable pub specs_loop : Bool → List Text → Option Specs → Option Specs
unfolding add_fact
specs_loop js [] acc = acc
specs_loop js (fact ∷ facts) acc = specs_loop js facts (and_add js fact acc)

abbrev shown : Bool → Text
shown true = codes "true"
shown false = codes "false"

-- The text that both functions digest.
unfoldable pub digested : Scanner → List Text → Text
unfolding sort_strings join
digested s facts =
    codes "jsx="
    ++ (shown s.saw_jsx
        ++ (codes " module=" ++ (shown s.is_module ++ (b'\n' ∷ join (sort_strings facts) b'\n'))))

-- `digest` is the sum in hexadecimal.
module _ (jsx_text : Text → Bool) (jsdoc_import : Text → List Text) (digest : Text → Text) where
  abbrev pub sorted_specs : Scanner → Option Specs → Answer (List Text × Text)
  sorted_specs s none = panics
  sorted_specs s (some acc) = answer (sort_strings acc.specs, digest (digested s acc.others))

  unfoldable pub specifiers_of : Bool → Outcome → Answer (List Text × Text)
  unfolding specs_loop sort_strings digested
  specifiers_of js unscannable = unreadable
  specifiers_of js out_of_fuel = starved
  specifiers_of js (done s) =
      sorted_specs s (specs_loop js s.facts (some (record { specs = []; others = [] })))

  unfoldable pub specifiers : ℕ → Text → Text → Answer (List Text × Text)
  unfolding specifiers_of scan_source contains ext
  specifiers fuel name src =
      specifiers_of (not (contains (ext name) (codes "t")))
        (scan_source jsx_text jsdoc_import fuel name src)

  unfoldable pub signature_of : Outcome → Answer Text
  unfolding digested
  signature_of unscannable = unreadable
  signature_of out_of_fuel = starved
  signature_of (done s) = answer (digest (digested s s.facts))

  unfoldable pub signature : ℕ → Text → Text → Answer Text
  unfolding signature_of scan_source
  signature fuel name src = signature_of (scan_source jsx_text jsdoc_import fuel name src)
