-- ===== src/Examples/Listings.antt =====
-- Listings and records at concrete inputs.
use rules_typescript.Base.{true, some, [], ◌∷◌, ◌≡◌, ◌↔◌, refl, In}
use rules_typescript.Base.Text.{Text, codes}
use rules_typescript.Base.Map.{NameSet, Map, keys, member}
use rules_typescript.ExplainFiles.{Edge, EdgeKind}
use rules_typescript.Program.{Program, reachable}
use rules_typescript.Program.Reach.{Reaches}
use rules_typescript.Program.Rounds.{rounds_needed, reachable_total}
use rules_typescript.Base.Unseen.{IsDistinct}
use rules_typescript.Incremental.{Record, unchanged}
use rules_typescript.Incremental.{changed}
use rules_typescript.Incremental.Changed.{IsChanged, changed-IsChanged}
use rules_typescript.Base.{here}
use rules_typescript.Incremental.Unchanged.{IsKept, unchanged-IsKept}

-- app.ts imports lib.ts; nothing reaches old.ts.
abbrev app_edge : Edge
app_edge = record {
  from = codes "app.ts";
  to = codes "lib.ts";
  kind = EdgeKind.import;
  specifier = codes "./lib";
}

abbrev two_files : Program
two_files = record {
  files = codes "app.ts" ∷ codes "lib.ts" ∷ codes "old.ts" ∷ [];
  roots = codes "app.ts" ∷ [];
  edges = app_edge ∷ [];
  types = [];
  implicit = [];
}

reachable_total_example :
    (found : NameSet) × (reachable two_files (rounds_needed two_files) ≡ some found)
    × ((f : Text) → (member f found ≡ true) ↔ Reaches two_files f)
reachable_total_example = reachable_total two_files

abbrev one_record : Record
one_record = record {
  entries = (codes "a.ts", codes "1") ∷ (codes "BUILD", codes "2") ∷ [];
  signatures = (codes "a.ts", codes "imports") ∷ [];
}

abbrev now_entries : Map Text
now_entries = (codes "BUILD", codes "2") ∷ (codes "a.ts", codes "3") ∷ []

abbrev sign_imports : Text → Text
sign_imports rel = codes "imports"

now-IsDistinct : IsDistinct (keys now_entries)
unfolding keys member
now-IsDistinct = (refl, (refl, tt))

now_unchanged : unchanged sign_imports (some one_record) now_entries ≡ true
unfolding unchanged
now_unchanged = refl

unchanged-IsKept_example :
    ((rel : Text) → In rel (keys now_entries) → IsKept sign_imports one_record now_entries rel)
    × ((rel : Text) → In rel (keys one_record.entries) → member rel (keys now_entries) ≡ true)
unchanged-IsKept_example =
    unchanged-IsKept sign_imports one_record now_entries now-IsDistinct now_unchanged

-- a.ts has another line; BUILD does not.
a_changed : changed (some one_record) now_entries ≡ some (codes "a.ts" ∷ [])
unfolding changed
a_changed = refl

changed-IsChanged_example : IsChanged one_record now_entries (codes "a.ts")
changed-IsChanged_example =
    changed-IsChanged one_record now_entries (codes "a.ts") a_changed (here refl)
