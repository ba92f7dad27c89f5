-- ===== src/Examples/Manifests.antt =====
-- Lines of a runfiles manifest, contexts that share bindings, and the shards of a test run.
use rules_typescript.Base.{none, some, List, [], ◌∷◌, all, length, ◌≡◌, refl, arith}
use rules_typescript.Base.Int.{pos}
use rules_typescript.Base.Text.{Text, codes}
use rules_typescript.Base.Map.{Map}
use rules_typescript.Launcher.{TestFile}
use rules_typescript.Launcher.Shards.{count_file, count_runs, shard_files-count}
use rules_typescript.Runfiles.{NpmContext, manifest_entry, resolve_npm_bindings}
use rules_typescript.Runfiles.Entries.{escape, manifest_entry-escape, manifest_entry-plain}
use rules_typescript.Runfiles.Bindings.{is_answer, context_in_range, resolve_npm_bindings-in_range}

manifest_entry-escape_example :
    manifest_entry (codes " m/a\\sb.js /x\\b.js") ≡ some (codes "m/a b.js", codes "/x\\.js")
unfolding escape
manifest_entry-escape_example = manifest_entry-escape (codes "m/a b.js") (codes "/x\\.js") refl

plain_line : manifest_entry (codes "m/a.js /x y.js") ≡ some (codes "m/a.js", codes "/x y.js")
plain_line = manifest_entry-plain (codes "m/a.js") (codes "/x y.js") refl refl

abbrev contexts : List NpmContext
contexts =
    record {
      module_path = codes "m/a.js";
      source = codes "m/a.ts";
      bindings = [];
      bindings_set = some (pos 1);
      package_scope = none;
    }
    ∷ []

abbrev sets : List (Map Text)
sets = [] ∷ ((codes "x", codes "store/x") ∷ []) ∷ []

resolve_npm_bindings-in_range_example :
    is_answer (resolve_npm_bindings contexts sets) ≡ all (context_in_range (length sets)) contexts
resolve_npm_bindings-in_range_example = resolve_npm_bindings-in_range contexts sets

abbrev tests : List TestFile
tests =
    record { rlocation = codes "b"; path = codes "/b" }
    ∷ record { rlocation = codes "c"; path = codes "/c" }
    ∷ record { rlocation = codes "a"; path = codes "/a" }
    ∷ []

shard_files-count_example : count_runs (codes "c") 2 2 tests ≡ count_file (codes "c") tests
shard_files-count_example = shard_files-count (codes "c") 2 tests (ground arith)
