-- ===== src/Patch.antt =====
-- gazelle/listing_patch.go, and the records of gazelle/listing_cache.go and gazelle/program.go that
-- it works on: a listing that the cache holds, and what a patch of it reads.
pub mod Edits
pub mod Outcomes
pub mod Refresh
pub mod Closed
pub mod Patching
pub mod Precedents
pub mod Tracing
pub mod Origins
use rules_typescript.Base.{
  ℕ, suc, Bool, true, false, not, ◌&&◌, ◌||◌, Option, none, some, List, [], ◌∷◌, ◌++◌,
  if◌then◌else◌, length, map,
}
use rules_typescript.Base.Text.{Text, codes, text_eq, cut, has_prefix, contains, split, join}
use rules_typescript.Base.Map.{Map, lookup, insert}
use rules_typescript.Base.GoPath.{slash, clean, ext, join_path, dot, dot_dot}
use rules_typescript.ExplainFiles.{Listing, EdgeKind}
use rules_typescript.Files.{embedded_libs}
use rules_typescript.Incremental.{signature_source}
use rules_typescript.Program.{Program}
use rules_typescript.Scan.Facts.{Answer, answer, unreadable, panics, starved, specifiers}

pub record CachedSource : Type 0 where
  pub specs : List Text
  pub rest : Text

-- `resolutionCandidate`.
pub record Candidate : Type 0 where
  pub from : Text
  pub specifier : Text
  pub path : Text
  pub file : Bool
  pub metadata : Bool
  pub kind : EdgeKind
  pub block : ℕ
  pub resolved : Text
  pub skipped : Text

pub record CachedCandidate : Type 0 where
  pub from : Text
  pub specifier : Text
  pub path : Text
  pub file : Bool
  pub metadata : Bool
  pub kind : EdgeKind
  pub block : ℕ
  pub resolved : Text
  pub skipped : Text

-- The fields of `program` that the cache keeps or sets.
pub record Listed : Type 0 where
  pub listing : Listing
  pub candidates : List Candidate
  pub config : Text

-- `sources` is none where the map is nil.
pub record CachedListing : Type 0 where
  pub listing : Listing
  pub candidates : List CachedCandidate
  pub reads : List Text
  pub dirs : List Text
  pub fingerprint : Text
  pub root : Text
  pub read_lines : List Text
  pub dir_digests : List Text
  pub sources : Option (Map CachedSource)

-- What a run sees of the disk: the stat line of a path, the digest of the names below a directory,
-- the bytes of a file, and the sum and the two regular expressions that the program calls.
pub record Disk : Type 0 where
  pub line : Text → Text
  pub names : Text → Text
  pub read_file : Text → Option Text
  pub sha : Text → Text
  pub jsx_text : Text → Bool
  pub jsdoc_import : Text → List Text

abbrev pub source_of : Answer (List Text × Text) → Option CachedSource
source_of (answer (specs, rest)) = some (record { specs = specs; rest = rest })
source_of unreadable = none
source_of panics = none
source_of starved = none

-- The scan of a file that was read, with the fuel that its length gives.
abbrev pub scan_read : Disk → Text → Option Text → Option CachedSource
scan_read d abs none = none
scan_read d abs (some src) =
    source_of (specifiers d.jsx_text d.jsdoc_import d.sha (suc (length src)) abs src)

unfoldable pub scan_specs : Disk → Text → Option CachedSource
unfolding specifiers
scan_specs d abs = scan_read d abs (d.read_file abs)

unfoldable pub patchable_source : Text → Bool
unfolding has_prefix contains signature_source
patchable_source rel =
    not (has_prefix rel (codes "../"))
    && not (has_prefix rel embedded_libs)
    && not (contains rel (codes "node_modules/"))
    && signature_source rel

abbrev pub add_source : Text → Option CachedSource → Map CachedSource → Map CachedSource
add_source file none sources = sources
add_source file (some src) sources = insert file src sources

-- The loop over the listed files.
unfoldable pub record_sources : Disk → Text → List Text → Map CachedSource → Map CachedSource
unfolding patchable_source scan_specs insert join_path
record_sources d root [] sources = sources
record_sources d root (file ∷ files) sources = record_sources d root files (
    if patchable_source file
    then add_source file (scan_specs d (join_path root file)) sources
    else sources)

unfoldable pub record_patch_state : Disk → Text → CachedListing → CachedListing
unfolding record_sources
record_patch_state d root entry = record entry {
  root = root;
  read_lines = map d.line entry.reads;
  dir_digests = map d.names entry.dirs;
  sources = some (record_sources d root entry.listing.files []);
}

unfoldable pub extension_class : Text → Text
unfolding ext
extension_class rel =
    let e = ext rel in
    if text_eq e (codes ".mts") || text_eq e (codes ".mjs")
    then codes "m"
    else if text_eq e (codes ".cts") || text_eq e (codes ".cjs")
    then codes "c"
    else codes "x"

-- The two conversions between the records of a candidate.
abbrev pub revived : CachedCandidate → Candidate
revived c = record {
  from = c.from;
  specifier = c.specifier;
  path = c.path;
  file = c.file;
  metadata = c.metadata;
  kind = c.kind;
  block = c.block;
  resolved = c.resolved;
  skipped = c.skipped;
}

abbrev pub stored : Candidate → CachedCandidate
stored c = record {
  from = c.from;
  specifier = c.specifier;
  path = c.path;
  file = c.file;
  metadata = c.metadata;
  kind = c.kind;
  block = c.block;
  resolved = c.resolved;
  skipped = c.skipped;
}

unfoldable pub program_from_entry : CachedListing → Text → Listed
program_from_entry entry subject = record {
  listing = entry.listing;
  candidates = map revived entry.candidates;
  config = subject;
}

-- What reachability reads of a program.
abbrev pub graph : Listing → Program
graph l = record {
  files = l.files;
  roots = l.roots;
  edges = l.edges;
  types = l.types;
  implicit = l.implicit;
}

-- The elements of a clean path; the root has one, which is empty.
abbrev pub path_elements : Text → List Text
path_elements p = if text_eq p dot then [] else if text_eq p slash then [] ∷ [] else split p b'/'

abbrev pub ups : List Text → List Text
ups [] = []
ups (w ∷ ws) = dot_dot ∷ ups ws

abbrev pub up_from : List Text → List Text → Option Text
up_from [] target = some (join target b'/')
up_from (w ∷ ws) target =
    if text_eq w dot_dot then none else some (join (ups (w ∷ ws) ++ target) b'/')

-- Past the elements that two paths share.
unfoldable pub walk_apart : List Text → List Text → Option Text
unfolding join
walk_apart [] target = up_from [] target
walk_apart (w ∷ ws) [] = up_from (w ∷ ws) []
walk_apart (w ∷ ws) (t ∷ ts) =
    let later = walk_apart ws ts in if text_eq w t then later else up_from (w ∷ ws) (t ∷ ts)

abbrev pub same_slash : Bool → Bool → Bool
same_slash true b = b
same_slash false b = not b

-- filepath.Rel on a path and a clean base.
unfoldable pub rel_path : Text → Text → Option Text
unfolding clean walk_apart split has_prefix
rel_path root path =
    let base = clean root in
    let target = clean path in
    if text_eq base target
    then some dot
    else if same_slash (has_prefix base slash) (has_prefix target slash)
    then walk_apart (path_elements base) (path_elements target)
    else none
