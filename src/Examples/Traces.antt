-- ===== src/Examples/Traces.antt =====
-- A listing of two files behind the trace of an import that has a candidate and was not found, by a grammar that
-- matches these lines and the patterns without groups.
use rules_typescript.Base.{false, Option, none, some, [], ◌∷◌, ◌++◌, if◌then◌else◌, ◌≡◌, refl}
use rules_typescript.Base.Text.{Text, codes, text_eq, has_prefix}
use rules_typescript.ExplainFiles.{import}
use rules_typescript.ExplainFiles.Reasons.{ok, malformed}
use rules_typescript.ExplainFiles.Traces.{Grammar}
use rules_typescript.ExplainFiles.Parse.{parse}
use rules_typescript.ExplainFiles.Lines.{Holds}
use rules_typescript.ExplainFiles.Listed.{IsListing, parse-IsListed}
use rules_typescript.ExplainFiles.Absolute.{IsAbsolute, parse-IsAbsolute}

abbrev plain : Text → Text → Option (Text × Text)
plain pattern reason = if text_eq pattern reason then some ([], []) else none

abbrev start_line : Text
start_line = codes "======== Resolving module 'x' from '/a.ts'. ========"

abbrev candidate_line : Text
candidate_line = codes "Loading module as file / folder, candidate module location '/x'."

abbrev end_line : Text
end_line = codes "======== Module name 'x' was not resolved. ========"

abbrev grammar : Grammar
grammar = record {
  resolution_start =
      λ line. if text_eq line start_line then some ((codes "x", codes "/a.ts"), ([], [])) else none;
  resolution_end = λ line.
      if text_eq line end_line
      then some ((codes "Module name", codes "x"), (codes "not resolved", []))
      else none;
  missing_file_probe = λ line. none;
  package_target = λ line. none;
  candidate_location = λ line. if text_eq line candidate_line then some (codes "/x") else none;
  path_substitution = λ line. none;
  diagnostic_line = λ line. false;
  missing_reference = λ line. none;
  find = plain;
  is_abs = λ path. has_prefix path (codes "/");
}

abbrev listed : Text
listed =
    start_line
    ++ (b'\n'
        ∷ (candidate_line
            ++ (b'\n'
                ∷ (end_line
                    ++ codes
                        "\na.ts\n   Root file specified for compilation\nb.ts\r\n   Default library\n"))))

accepted :
    parse grammar listed
    ≡ ok (record {
      files = codes "a.ts" ∷ codes "b.ts" ∷ [];
      roots = codes "a.ts" ∷ [];
      edges = [];
      types = [];
      implicit = [];
      diagnostics = [];
      unresolved =
          record { kind = import; from = codes "/a.ts"; specifier = codes "x"; candidates = [] }
          ∷ [];
      resolutions = [];
      candidates =
          record { kind = import; from = codes "/a.ts"; specifier = codes "x"; path = codes "/x" }
          ∷ [];
      package_targets = [];
    })
unfolding parse
accepted = refl

unknown_reason : parse grammar (codes "a.ts\n   Because\n") ≡ malformed
unfolding parse
unknown_reason = refl

unfinished : parse grammar start_line ≡ malformed
unfolding parse
unfinished = refl

parse-IsListed_example : Holds IsListing (parse grammar listed)
parse-IsListed_example = parse-IsListed grammar listed

parse-IsAbsolute_example : Holds (IsAbsolute grammar) (parse grammar listed)
parse-IsAbsolute_example = parse-IsAbsolute grammar listed
