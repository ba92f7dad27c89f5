-- ===== src/Examples/Ownership.antt =====
-- The sources of a package at concrete inputs.
use rules_typescript.Base.{Bool, true, false, none, some, [], ◌∷◌, ◌≡◌, refl, In, here}
use rules_typescript.Base.Text.{Text, codes}
use rules_typescript.Base.Map.{lookup}
use rules_typescript.Files.{test_file, classify}
use rules_typescript.Owner.{ProgramStore, set_at, owner, srcs}
use rules_typescript.Owner.Sources.{list_of, IsSource, srcs-In, srcs-IsSource}

-- A package at the root with a library and a test, and a file that a program lists but no walk saw.
abbrev root_store : ProgramStore
root_store = record {
  packages = ([], codes "app.ts" ∷ codes "app.test.ts" ∷ codes "gone.ts" ∷ []) ∷ [];
  walked = ([], true) ∷ [];
  files = ([], codes "app.ts" ∷ codes "app.test.ts" ∷ []) ∷ [];
  foreign = [];
  emission_files = none;
}

abbrev no_file : Text → Bool
no_file f = false

app_listed : In (codes "app.ts") (set_at (lookup [] root_store.packages))
unfolding lookup
app_listed = here refl

app_owner : owner no_file no_file root_store (codes "app.ts") ≡ some []
unfolding owner
app_owner = refl

srcs-In_example :
    In (codes "app.ts") (list_of (classify (codes "app.ts")) (srcs no_file no_file root_store []))
srcs-In_example = srcs-In no_file no_file root_store [] (codes "app.ts") app_listed app_owner refl

test_listed : In (codes "app.test.ts") (list_of test_file (srcs no_file no_file root_store []))
unfolding list_of srcs
test_listed = here refl

srcs-IsSource_example : IsSource no_file no_file root_store test_file (codes "app.test.ts")
srcs-IsSource_example =
    srcs-IsSource no_file no_file root_store [] test_file (codes "app.test.ts") test_listed
