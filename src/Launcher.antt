-- ===== src/Launcher.antt =====
-- tools/launcher/plan.go and tools/launcher/vitest.go: the shard of a test run, and the test files
-- that it runs. `strconv.Atoi` is Go's.
pub mod Shards
use rules_typescript.Base.{
  ℕ, zero, suc, ◌%◌, Bool, true, false, not, ◌&&◌, ◌||◌, Option, none, some, List, [], ◌∷◌, ◌==◌,
  ltb, if◌then◌else◌,
}
use rules_typescript.Base.Int.{ℤ, pos, negsuc}
use rules_typescript.Base.Text.{Text}
use rules_typescript.Base.Sort.{text_le}

pub record Shard : Type 0 where
  pub index : ℕ
  pub total : ℕ

abbrev setting : (Text → Option ℤ) → ℤ → Text → Option ℤ
setting atoi default [] = some default
setting atoi default (c ∷ s) = atoi (c ∷ s)

-- A shard in the range; none is the error.
abbrev in_range : ℤ → ℤ → Option Shard
in_range (pos i) (pos t) =
    if not (ltb 0 t) || not (ltb i t) then none else some (record { index = i; total = t })
in_range (negsuc i) total = none
in_range (pos i) (negsuc t) = none

abbrev both : Option ℤ → Option ℤ → Option Shard
both none total = none
both (some i) none = none
both (some i) (some t) = in_range i t

unfoldable pub parse_shard : (Text → Option ℤ) → Text → Text → Option Shard
parse_shard atoi index total = both (setting atoi (pos 0) index) (setting atoi (pos 1) total)

pub record TestFile : Type 0 where
  pub rlocation : Text
  pub path : Text

unfoldable pub insert_file : TestFile → List TestFile → List TestFile
unfolding text_le
insert_file f [] = f ∷ []
insert_file f (g ∷ gs) =
    let rest = insert_file f gs in if text_le f.rlocation g.rlocation then f ∷ g ∷ gs else g ∷ rest

unfoldable pub sort_files : List TestFile → List TestFile
unfolding insert_file
sort_files [] = []
sort_files (f ∷ fs) = insert_file f (sort_files fs)

-- The loop of `shardFiles` from an index on.
unfoldable pub shard_loop : ℕ → List TestFile → Shard → List TestFile
shard_loop i [] shard = []
shard_loop i (f ∷ fs) shard =
    let rest = shard_loop (suc i) fs shard in
    if i % shard.total == shard.index then f ∷ rest else rest

unfoldable pub shard_files : List TestFile → Shard → List TestFile
unfolding shard_loop sort_files
shard_files files shard = shard_loop 0 (sort_files files) shard
