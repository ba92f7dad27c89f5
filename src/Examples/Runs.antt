-- ===== src/Examples/Runs.antt =====
-- Runs of the definitions on small inputs.
use rules_typescript.Base.{Bool, false, [], ◌∷◌, ◌≡◌, refl}
use rules_typescript.Base.Text.{Text, codes}
use rules_typescript.Changelog.{Fragment}
use rules_typescript.Changelog.Render.{render}
use rules_typescript.Jsonc.{strip}
use rules_typescript.Lcov.{key, merge}
use rules_typescript.Npm.Names.{npm_package_name, types_package, pnpm_alias_target}
use rules_typescript.Files.{classify, test_file}
use rules_typescript.Labels.{derivable_value}

abbrev none_there : Text → Bool
none_there p = false

output_key : key (codes "bazel-out/k8-fastbuild/bin/src/math.js") ≡ codes "src/math"
unfolding key
output_key = refl

source_key : key (codes " src/math.ts ") ≡ codes "src/math"
unfolding key
source_key = refl

merged :
    merge none_there
      (codes "src/a.ts\n")
      (codes "SF:src/a.js\nDA:1,1\nend_of_record\nSF:b.js\nend_of_record\n" ∷ [])
    ≡ codes "SF:src/a.js\nDA:1,1\nend_of_record\n"
unfolding merge
merged = refl

abbrev entry : Text → Text → Fragment
entry section body = record { name = []; section = section; body = body }

rendered :
    render
      (entry (codes "Fixed") (codes "- F")
        ∷ entry (codes "Added") (codes "- A")
        ∷ entry (codes "Breaking — x") (codes "- B")
        ∷ [])
      []
    ≡ codes "## [Unreleased]\n\n### Breaking — x\n\n- B\n\n### Added\n\n- A\n\n### Fixed\n\n- F\n"
unfolding render
rendered = refl

stripped : strip (codes "{\"a\": [1, 2,], // x\n}") ≡ codes "{\"a\": [1, 2] \n}"
unfolding strip
stripped = refl

scoped_types : types_package (codes "@tanstack/router") ≡ codes "@types/tanstack__router"
unfolding types_package
scoped_types = refl

listed_name : npm_package_name (codes "../node_modules/@types/node/fs.d.ts") ≡ codes "@types/node"
unfolding npm_package_name
listed_name = refl

alias_target : pnpm_alias_target (codes "@scope/real@1.0.0(react@18)") ≡ codes "@scope/real@1.0.0"
unfolding pnpm_alias_target
alias_target = refl

test_class : classify (codes "src/math.test.tsx") ≡ test_file
unfolding classify
test_class = refl

missing_file : derivable_value none_there none_there (codes "gone.ts") ≡ false
unfolding derivable_value
missing_file = refl
