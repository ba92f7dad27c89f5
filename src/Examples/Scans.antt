-- ===== src/Examples/Scans.antt =====
-- Scans of a small source.
use rules_typescript.Base.{suc, Bool, false, List, [], ◌∷◌, ◌≡◌, ◌≢◌, refl, length}
use rules_typescript.Base.Text.{Text, codes}
use rules_typescript.Scan.Steps.{out_of_fuel, scan_source}
use rules_typescript.Scan.Total.{scan_source_ends}
use rules_typescript.Scan.Facts.{answer, specifiers}
use rules_typescript.Scan.Facts.Quoted.{IsSafe, specifiers-IsSafe}

abbrev no_text : Text → Bool
no_text text = false

abbrev no_jsdoc : Text → List Text
no_jsdoc text = []

abbrev same_digest : Text → Text
same_digest text = []

abbrev source : Text
source = codes "import a from \"x\"; const t = <b c={d}>e</b>; require('q') // r\n"

scan_source_ends_example :
    scan_source no_text no_jsdoc (suc (length source)) (codes "a.tsx") source ≢ out_of_fuel
scan_source_ends_example = scan_source_ends no_text no_jsdoc (codes "a.tsx") source

listed :
    specifiers no_text no_jsdoc same_digest (suc (length source)) (codes "a.tsx") source
    ≡ answer (codes "import:x" ∷ codes "require:q" ∷ [], [])
unfolding specifiers
listed = refl

specifiers-IsSafe_example :
    IsSafe (specifiers no_text no_jsdoc same_digest (suc (length source)) (codes "a.tsx") source)
specifiers-IsSafe_example =
    specifiers-IsSafe no_text no_jsdoc same_digest (λ text spec i. elim i [ ]) (codes "a.tsx")
      source
