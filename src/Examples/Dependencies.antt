-- ===== src/Examples/Dependencies.antt =====
-- Dependencies of one consumer: `:a` reads `p/x.ts`, and what it links supplies `:b`.
use rules_typescript.Base.{
  Bool, true, false, Option, none, some, List, [], ◌∷◌, any, if◌then◌else◌, In, here, ◌⊎◌, ◌≡◌,
  refl,
}
use rules_typescript.Base.Text.{Text, codes, text_eq}
use rules_typescript.Base.Map.{Map, keys}
use rules_typescript.Base.Sort.{sort_strings}
use rules_typescript.Emission.{Label, Rule}
use rules_typescript.Emission.Runtime.{source_emission}
use rules_typescript.ExplainFiles.{import}
use rules_typescript.Minimize.{Memo, Requirement, source_role, unsupplied_by, exact_loop}
use rules_typescript.Minimize.Fixed.{minimize_dependencies}
use rules_typescript.Minimize.Fixed.Loop.{minimize_dependencies_refines}
use rules_typescript.Minimize.Fixed.Minimal.{
  first, minimize_dependencies_sound, minimize_dependencies_minimal,
}

abbrev compiler : Rule
compiler = record {
  id = 1;
  kind = codes "ts_compile";
  actual = [];
  has_out = false;
  has_outs = false;
  has_out_dir = false;
}

abbrev absolute : Text → Text
absolute dep = if text_eq dep (codes ":a") then codes "//p:a" else codes "//q:b"

abbrev label_of : Text → Option Label
label_of key = some (record {
  repo = [];
  pkg = if text_eq key (codes "//p:a") then codes "p" else codes "q";
  name = if text_eq key (codes "//p:a") then codes "a" else codes "b";
  canonical = false;
})

abbrev memo : Memo
memo = record {
  pkg = codes "p";
  target_rule = λ dep. (absolute dep, some compiler);
  program_target = λ dep. (absolute dep, some compiler);
  parse_label = label_of;
  source_owner = λ key. source_emission;
  program_inputs = λ key.
      if text_eq key (codes "//p:a")
      then (codes "p/x.ts", source_role) ∷ []
      else (codes "q/b.ts", source_role) ∷ [];
  source_export_owner = λ file. codes "p";
  dependency_targets = λ key. if text_eq key (codes "//p:a") then codes "//q:b" ∷ [] else [];
  output_producer = λ file. none;
}

abbrev requirements : Map Requirement
requirements =
    (
      codes ":b",
      record {
        edges =
            record {
              kind = import;
              from = codes "p/x.ts";
              to = codes "q/b.ts";
              specifier = codes "../q/b";
            }
            ∷ [];
        unconditional = false;
      },
    )
    ∷ (codes ":a", record { edges = []; unconditional = true })
    ∷ []

-- The owners settle behind the first candidate.
abbrev settles : List Text → List Text → Bool
settles kept (dep ∷ []) = true
settles kept todo = false

minimized : minimize_dependencies memo requirements [] settles ≡ (codes ":a" ∷ [], codes ":b" ∷ [])
unfolding minimize_dependencies
minimized = refl

minimize_dependencies_refines_example :
    minimize_dependencies memo requirements [] settles
    ≡ exact_loop memo requirements [] [] [] (sort_strings (keys requirements))
minimize_dependencies_refines_example = minimize_dependencies_refines memo requirements [] settles

minimize_dependencies_sound_example :
    (In (codes ":b") (minimize_dependencies memo requirements [] settles).0)
    ⊎ (unsupplied_by memo requirements []
          (minimize_dependencies memo requirements [] settles).0
          (codes ":b")
        ≡ false)
unfolding keys
minimize_dependencies_sound_example =
    minimize_dependencies_sound memo requirements [] settles (codes ":b") (here refl)

minimize_dependencies_minimal_example :
    any
      (unsupplied_by memo requirements [] [])
      (codes ":a" ∷ (minimize_dependencies memo requirements [] settles).1)
    ≡ true
unfolding minimize_dependencies
minimize_dependencies_minimal_example =
    minimize_dependencies_minimal memo requirements [] settles (codes ":a") [] first
