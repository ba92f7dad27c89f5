-- ===== src/Launcher/Shards.antt =====
-- Each test file is in exactly one of the shards.
use rules_typescript.Base.{
  ℕ, zero, suc, ◌+◌, ◌%◌, ◌≤◌, List, [], ◌∷◌, ltb, if◌then◌else◌, ◌≡◌, refl, ◌∙◌, arith,
}
use rules_typescript.Base.Text.{Text, text_eq}
use rules_typescript.Launcher.{TestFile, insert_file, sort_files, shard_loop, shard_files}

-- How often a file is in a list, by its path in the runfiles.
unfoldable pub count_file : Text → List TestFile → ℕ
count_file x [] = 0
count_file x (f ∷ fs) = if text_eq f.rlocation x then suc (count_file x fs) else count_file x fs

insert_file-count :
    (x : Text) (f : TestFile) (fs : List TestFile)
    → count_file x (insert_file f fs) ≡ count_file x (f ∷ fs)
unfolding insert_file count_file
insert_file-count x f [] = refl
insert_file-count x f (g ∷ gs) = ground (arith, insert_file-count x f gs)

sort_files-count : (x : Text) (fs : List TestFile) → count_file x (sort_files fs) ≡ count_file x fs
unfolding sort_files count_file
sort_files-count x [] = refl
sort_files-count x (f ∷ fs) =
    ground (arith, insert_file-count x f (sort_files fs), sort_files-count x fs)

-- The counts in the first shards of a total.
abbrev pub count_shards : Text → ℕ → ℕ → ℕ → List TestFile → ℕ
count_shards x zero total i fs = 0
count_shards x (suc n) total i fs =
    count_file x (shard_loop i fs (record { index = n; total = total }))
    + count_shards x n total i fs

-- A file adds to the one shard that its place selects.
count_shards-cons :
    (x : Text) (n total i : ℕ) (f : TestFile) (fs : List TestFile)
    → count_shards x n total i (f ∷ fs)
      ≡ (if ltb (i % total) n then (if text_eq f.rlocation x then 1 else 0) else 0)
        + count_shards x n total (suc i) fs
unfolding shard_loop count_file
count_shards-cons x zero total i f fs = ground arith
count_shards-cons x (suc n) total i f fs = ground (arith, count_shards-cons x n total i f fs)

count_shards-nil : (x : Text) (n total i : ℕ) → count_shards x n total i [] ≡ 0
unfolding shard_loop count_file
count_shards-nil x zero total i = refl
count_shards-nil x (suc n) total i = ground (arith, count_shards-nil x n total i)

count_shards-all :
    (x : Text) (total i : ℕ) (fs : List TestFile)
    → 1 ≤ total
    → count_shards x total total i fs ≡ count_file x fs
unfolding count_file
count_shards-all x total i [] h = count_shards-nil x total total i
count_shards-all x total i (f ∷ fs) h =
    ground (arith, count_shards-cons x total total i f fs, count_shards-all x total (suc i) fs h)

-- How often a file is run by the first shards of a total, together.
unfoldable pub count_runs : Text → ℕ → ℕ → List TestFile → ℕ
count_runs x zero total files = 0
count_runs x (suc n) total files =
    count_file x (shard_files files (record { index = n; total = total }))
    + count_runs x n total files

count_runs-count_shards :
    (x : Text) (n total : ℕ) (files : List TestFile)
    → count_runs x n total files ≡ count_shards x n total 0 (sort_files files)
unfolding count_runs shard_files
count_runs-count_shards x zero total files = refl
count_runs-count_shards x (suc n) total files =
    ground (arith, count_runs-count_shards x n total files)

-- Where there is a shard, the shards of a run together run each test file as often as the list of
-- the test files has it: no file is left out and none is run by two shards.
pub shard_files-count :
    (x : Text) (total : ℕ) (files : List TestFile)
    → 1 ≤ total
    → count_runs x total total files ≡ count_file x files
shard_files-count x total files h =
    count_runs-count_shards x total total files
    ∙ count_shards-all x total 0 (sort_files files) h
    ∙ sort_files-count x files
