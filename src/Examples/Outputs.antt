-- ===== src/Examples/Outputs.antt =====
-- Export patterns, visibilities and a listing that holds what it reaches, at concrete inputs.
use rules_typescript.Base.{Bool, true, false, Option, some, List, [], ◌∷◌, ◌==◌, ◌≡◌, ◌↔◌, refl}
use rules_typescript.Base.Text.{Text, codes}
use rules_typescript.Base.Map.{member}
use rules_typescript.Emission.{Label}
use rules_typescript.Emission.Exports.{
  count_stars, replace_stars, matches_export_output, matches_export_output-replace_stars,
}
use rules_typescript.Emission.Scope.{identity_of, scope_visibility_denies}
use rules_typescript.Emission.Scope.Admitted.{IsAdmitted, scope_visibility_denies-IsAdmitted}
use rules_typescript.ExplainFiles.{Edge, EdgeKind}
use rules_typescript.Program.{Program, unreached}
use rules_typescript.Program.Reach.{Reaches}
use rules_typescript.Program.Rounds.{rounds_needed}
use rules_typescript.Program.Unreached.{unreached-Reaches}

pattern_stars : (count_stars (codes "dist/*/*.js") == 0) ≡ false
unfolding count_stars
pattern_stars = refl

matches_export_output-replace_stars_example :
    matches_export_output (codes "dist/*/*.js") (codes "dist/a/b/a/b.js") ≡ true
unfolding replace_stars
matches_export_output-replace_stars_example =
    matches_export_output-replace_stars (codes "a/b") (codes "dist/*/*.js") pattern_stars

-- A label of the form that the visibilities below need, in the package web or in none.
abbrev grant_label : Text → Option Label
grant_label t = some (record { repo = []; pkg = codes "visibility"; name = t; canonical = false })

abbrev same_label : Label → Text → Text → Label
same_label l repo pkg = l

abbrev label_name : Label → Text
label_name l = l.name

abbrev in_package : Text → Label
in_package pkg = record {
  repo = codes "repo";
  pkg = pkg;
  name = codes "package.json";
  canonical = false;
}

abbrev denied : List Text → Bool
denied v =
    scope_visibility_denies grant_label same_label label_name v (in_package (codes "lib"))
      (in_package (codes "web"))

denied_by_private : denied (codes "private" ∷ []) ≡ true
unfolding scope_visibility_denies
denied_by_private = refl

scope_visibility_denies-IsAdmitted_example :
    (denied (codes "private" ∷ codes "public" ∷ []) ≡ false)
    ↔ IsAdmitted grant_label same_label label_name
        (codes "private" ∷ codes "public" ∷ [])
        (in_package (codes "lib"))
        (identity_of grant_label same_label label_name
          (in_package (codes "lib"))
          (in_package (codes "web")))
scope_visibility_denies-IsAdmitted_example =
    scope_visibility_denies-IsAdmitted grant_label same_label label_name
      (codes "private" ∷ codes "public" ∷ []) (in_package (codes "lib")) (in_package (codes "web"))

abbrev import_edge : Edge
import_edge = record {
  from = codes "app.ts";
  to = codes "lib.ts";
  kind = EdgeKind.import;
  specifier = codes "./lib";
}

abbrev whole_program : Program
whole_program = record {
  files = codes "app.ts" ∷ codes "lib.ts" ∷ [];
  roots = codes "app.ts" ∷ [];
  edges = import_edge ∷ [];
  types = [];
  implicit = [];
}

nothing_unreached :
    unreached whole_program (rounds_needed whole_program) (codes "app.ts" ∷ codes "lib.ts" ∷ [])
    ≡ some []
unfolding unreached rounds_needed
nothing_unreached = refl

unreached-Reaches_example :
    (member (codes "lib.ts") (codes "app.ts" ∷ codes "lib.ts" ∷ []) ≡ true)
    ↔ Reaches whole_program (codes "lib.ts")
unreached-Reaches_example =
    unreached-Reaches whole_program (codes "app.ts" ∷ codes "lib.ts" ∷ []) (codes "lib.ts")
      nothing_unreached
