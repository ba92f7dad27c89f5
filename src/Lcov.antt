-- ===== src/Lcov.antt =====
-- tools/lcov_merger/main.go: the records of lcov files, and the report they are merged into. The
-- files of the directory are given by their texts, in the order of the walk, and the patterns of
-- --filter_sources are a test of the caller's.
pub mod Records
use rules_typescript.Base.{
  ℕ, zero, suc, Bool, true, false, not, ◌&&◌, ◌||◌, Option, none, some, List, [], ◌∷◌, ◌++◌, ◌==◌,
  if◌then◌else◌,
}
use rules_typescript.Base.Text.{
  Text, codes, text_eq, cut_prefix, trim_suffix, split, split_n, join, trim_space,
}
use rules_typescript.Base.Map.{NameSet, member, add_name}
use rules_typescript.Base.GoPath.{ext}

abbrev pub end_of_record : Text
end_of_record = codes "end_of_record"

-- The loop of `splitRecords`, with `record`, and what follows it.
unfoldable pub records_loop : List Text → List Text → List Text
unfolding join
records_loop [] [] = []
records_loop (l ∷ ls) [] = join (l ∷ ls) b'\n' ∷ []
records_loop ls (line ∷ lines) =
    let ended = text_eq line end_of_record in
    let rest = records_loop (if ended then [] else ls ++ line ∷ []) lines in
    if ended then join (ls ++ line ∷ []) b'\n' ∷ rest else rest

unfoldable pub split_records : Text → List Text
unfolding records_loop split trim_suffix
split_records text = records_loop [] (split (trim_suffix text (codes "\n")) b'\n')

unfoldable pub source_in : List Text → Text
unfolding cut_prefix
source_in [] = []
source_in (line ∷ lines) =
    let rest = source_in lines in
    elim (cut_prefix line (codes "SF:")) [ none ↦ rest | some file ↦ file ]

unfoldable pub source_file : Text → Text
unfolding source_in split
source_file r = source_in (split r b'\n')

abbrev third_part : Text → List Text → Text
third_part p (a ∷ b ∷ c ∷ []) = c
third_part p _ = p

-- The path below bazel-out's configuration.
under_output : Text → Option Text → Text
unfolding split_n
under_output p none = p
under_output p (some rest) = third_part p (split_n 3 rest b'/')

-- `filepath.ToSlash` changes nothing where the separator is "/".
unfoldable pub key : Text → Text
unfolding under_output trim_space cut_prefix ext trim_suffix
key path =
    let p = trim_space path in
    let q = under_output p (cut_prefix p (codes "bazel-out/")) in
    if text_eq p [] then [] else trim_suffix q (ext q)

unfoldable pub manifest_keys : List Text → NameSet → NameSet
unfolding key add_name
manifest_keys [] selected = selected
manifest_keys (line ∷ lines) selected =
    manifest_keys lines (if text_eq (key line) [] then selected else add_name (key line) selected)

unfoldable pub read_manifest : Text → NameSet
unfolding manifest_keys split
read_manifest text = manifest_keys (split text b'\n') []

module _ (dropping : Text → Bool) where
  unfoldable pub kept_records : NameSet → List Text → List Text
  unfolding member key source_file
  kept_records selected [] = []
  kept_records selected (r ∷ rs) =
      let rest = kept_records selected rs in
      let file = source_file r in
      if member (key file) selected && not (dropping file) then r ∷ rest else rest

  unfoldable pub kept_of : NameSet → List Text → List Text
  unfolding kept_records split_records
  kept_of selected [] = []
  kept_of selected (text ∷ texts) =
      kept_records selected (split_records text) ++ kept_of selected texts

  unfoldable pub report_of : List Text → Text
  unfolding join
  report_of [] = []
  report_of (r ∷ rs) = join (r ∷ rs) b'\n' ++ (b'\n' ∷ [])

  unfoldable pub merge : Text → List Text → Text
  unfolding report_of kept_of read_manifest
  merge manifest texts = report_of (kept_of (read_manifest manifest) texts)
