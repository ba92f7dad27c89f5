-- ===== src/ListingCache.antt =====
-- gazelle/listing_cache.go: the listings that runs keep, `StatCache.Digest` of
-- gazelle/incremental/snapshot.go, and what loading a listing does to the state of a run.
pub mod Kept
pub mod NextRun
use rules_typescript.Base.{
  ℕ, zero, suc, Bool, true, false, not, ◌||◌, Option, none, some, List, [], ◌∷◌, ◌++◌,
  if◌then◌else◌, map,
}
use rules_typescript.Base.Text.{Text, codes, text_eq, has_prefix, join}
use rules_typescript.Base.Map.{Map, NameSet, lookup, insert, member}
use rules_typescript.Base.Sort.{sort_strings}
use rules_typescript.Base.GoPath.{base, ext}
use rules_typescript.Patch.{CachedListing, Listed, Disk, stored, program_from_entry}
use rules_typescript.Patch.Edits.{Patched, patched, refused, no_rounds}
use rules_typescript.Patch.Refresh.{patch_listing}

abbrev listed_extensions : NameSet
listed_extensions =
    codes ".ts"
    ∷ codes ".tsx"
    ∷ codes ".mts"
    ∷ codes ".cts"
    ∷ codes ".js"
    ∷ codes ".jsx"
    ∷ codes ".mjs"
    ∷ codes ".cjs"
    ∷ codes ".json"
    ∷ []

-- Whether a file's name counts, in `newListingNames`.
unfoldable pub is_listed_name : Text → Bool
unfolding ext member
is_listed_name name = member (ext name) listed_extensions

unfoldable pub is_projection : Text → Bool
unfolding has_prefix base
is_projection arg = has_prefix (base arg) (codes ".gazelle-tsconfig-")

unfoldable pub listing_name_skipped : Text → Bool
unfolding is_projection
listing_name_skipped name = text_eq name (codes "node_modules") || is_projection name

abbrev pub stat_line : Disk → Text → Text
stat_line d path = path ++ (codes " " ++ d.line path)

unfoldable pub stat_digest : Disk → List Text → Text
unfolding join sort_strings
stat_digest d paths = d.sha (join (sort_strings (map (stat_line d) paths)) b'\n')

abbrev pub dir_lines : Disk → List Text → Text
dir_lines d [] = []
dir_lines d (dir ∷ dirs) = dir ++ (codes " " ++ (d.names dir ++ (b'\n' ∷ dir_lines d dirs)))

unfoldable pub listing_fingerprint : Disk → List Text → List Text → Text
unfolding stat_digest
listing_fingerprint d reads dirs = d.sha (stat_digest d reads ++ (b'\n' ∷ dir_lines d dirs))

-- The state of a run: the entries in memory, those that the directory of the cache holds and that
-- decode, and the four counts.
pub record Cache : Type 0 where
  pub loaded : Map CachedListing
  pub written : Map CachedListing
  pub hits : ℕ
  pub absent : ℕ
  pub stale : ℕ
  pub patches : ℕ

-- A run's first state, over the directory that another left; pending writes are waited for.
unfoldable pub next_run : Cache → Cache
next_run c = record {
  loaded = [];
  written = c.written;
  hits = 0;
  absent = 0;
  stale = 0;
  patches = 0;
}

-- The entry that `remember` keeps; interning leaves every text as it is.
unfoldable pub remembered : CachedListing → Listed → CachedListing
remembered entry p = record entry { listing = p.listing; candidates = map stored p.candidates }

unfoldable pub remember : Text → CachedListing → Listed → Cache → Cache × Listed
unfolding remembered insert program_from_entry
remember key entry p c =
    let e = remembered entry p in
    (record c { loaded = insert key e c.loaded }, program_from_entry e p.config)

abbrev pub with_program : Cache × Listed → Cache × Option Listed
with_program r = (r.0, some r.1)

-- A stale entry is patched and written again, or listed again by the compiler.
abbrev pub after_patch : Text → Cache → Patched (CachedListing × Listed) → Cache × Option Listed
after_patch key c (patched (entry, p)) = with_program (
    remember key entry p
      (record c { patches = suc c.patches; written = insert key (remembered entry p) c.written }))
after_patch key c (refused why) = (record c { stale = suc c.stale }, none)
after_patch key c no_rounds = (record c { stale = suc c.stale }, none)

-- An entry of the directory.
unfoldable pub validated : Disk → Text → Text → CachedListing → Cache → Cache × Option Listed
unfolding listing_fingerprint patch_listing remember program_from_entry
validated d key subject entry c =
    if not (text_eq (listing_fingerprint d entry.reads entry.dirs) entry.fingerprint)
    then after_patch key c (patch_listing d (listing_fingerprint d) entry subject)
    else with_program
        (remember key entry (program_from_entry entry subject) (record c { hits = suc c.hits }))

abbrev pub from_directory :
    Disk → Text → Text → Cache → Option CachedListing → Cache × Option Listed
from_directory d key subject c none = (record c { absent = suc c.absent }, none)
from_directory d key subject c (some entry) = validated d key subject entry c

abbrev pub from_memory : Disk → Text → Text → Cache → Option CachedListing → Cache × Option Listed
from_memory d key subject c none = from_directory d key subject c (lookup key c.written)
from_memory d key subject c (some entry) =
    (record c { hits = suc c.hits }, some (program_from_entry entry subject))

unfoldable pub load_listing : Disk → Text → Text → Cache → Cache × Option Listed
unfolding lookup validated program_from_entry
load_listing d key subject c = from_memory d key subject c (lookup key c.loaded)
