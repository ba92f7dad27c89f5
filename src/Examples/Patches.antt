-- ===== src/Examples/Patches.antt =====
-- A listing of three files, patched after one of them gained the import that another has.
use rules_typescript.Base.{false, none, some, List, [], ◌∷◌, if◌then◌else◌, ◌≡◌, refl}
use rules_typescript.Base.Text.{Text, codes, text_eq}
use rules_typescript.Base.Map.{Map, lookup}
use rules_typescript.ExplainFiles.{Edge, EdgeKind, Listing}
use rules_typescript.ListingCache.{Cache, next_run, load_listing, listing_fingerprint}
use rules_typescript.ListingCache.NextRun.{load_listing-next_run}
use rules_typescript.Patch.{CachedSource, CachedListing, Listed, Disk}
use rules_typescript.Patch.Closed.{IsClosed}
use rules_typescript.Patch.Edits.{patched}
use rules_typescript.Patch.Origins.{HasOrigins, patch_listing-HasOrigins}
use rules_typescript.Patch.Patching.{patch_listing-IsClosed}
use rules_typescript.Patch.Refresh.{changed_reads, updated_entry, patch_listing}

abbrev edited_file : Text
edited_file = codes "/r/a.ts"

abbrev disk : Disk
disk = record {
  line = λ path. if text_eq path edited_file then codes "2" else codes "1";
  names = λ dir. [];
  read_file = λ path. if text_eq path edited_file then some (codes "import './b'\n") else none;
  sha = λ text. [];
  jsx_text = λ text. false;
  jsdoc_import = λ text. [];
}

abbrev import_of : Text → Edge
import_of from = record {
  kind = EdgeKind.import;
  from = from;
  to = codes "b.ts";
  specifier = codes "./b";
}

abbrev listing_with : List Edge → Listing
listing_with edges = record {
  files = codes "a.ts" ∷ codes "b.ts" ∷ codes "c.ts" ∷ [];
  roots = codes "a.ts" ∷ codes "c.ts" ∷ [];
  edges = edges;
  types = [];
  implicit = [];
  diagnostics = [];
  unresolved = [];
  resolutions = [];
  candidates = [];
  package_targets = [];
}

abbrev source_with : List Text → CachedSource
source_with specs = record { specs = specs; rest = [] }

abbrev listed_sources : Map CachedSource
listed_sources =
    (codes "a.ts", source_with []) ∷ (codes "c.ts", source_with (codes "import:./b" ∷ [])) ∷ []

abbrev changed_sources : Map CachedSource
changed_sources = (codes "a.ts", source_with (codes "import:./b" ∷ [])) ∷ []

abbrev kept_listing : CachedListing
kept_listing = record {
  listing = listing_with (import_of (codes "c.ts") ∷ []);
  candidates = [];
  reads = edited_file ∷ [];
  dirs = [];
  fingerprint = codes "before";
  root = codes "/r";
  read_lines = codes "1" ∷ [];
  dir_digests = [];
  sources = some listed_sources;
}

abbrev patched_program : Listed
patched_program = record {
  listing = listing_with (import_of (codes "c.ts") ∷ import_of (codes "a.ts") ∷ []);
  candidates = [];
  config = codes "tsconfig.json";
}

abbrev patched_sources : Map CachedSource
patched_sources =
    (codes "a.ts", source_with (codes "import:./b" ∷ []))
    ∷ (codes "c.ts", source_with (codes "import:./b" ∷ []))
    ∷ []

abbrev patched_entry : CachedListing
patched_entry =
    updated_entry disk (listing_fingerprint disk) kept_listing patched_program patched_sources

is_changed :
    changed_reads disk (codes "/r") listed_sources (edited_file ∷ []) (codes "1" ∷ []) []
    ≡ patched changed_sources
unfolding changed_reads
is_changed = refl

is_patched :
    patch_listing disk (listing_fingerprint disk) kept_listing (codes "tsconfig.json")
    ≡ patched (patched_entry, patched_program)
unfolding patch_listing
is_patched = refl

patch_listing-IsClosed_example : IsClosed patched_program.listing
patch_listing-IsClosed_example =
    patch_listing-IsClosed disk (listing_fingerprint disk) kept_listing (codes "tsconfig.json")
      is_patched

patch_listing-HasOrigins_example :
    HasOrigins changed_sources listed_sources kept_listing.listing.edges patched_program.listing
patch_listing-HasOrigins_example =
    patch_listing-HasOrigins disk (listing_fingerprint disk) kept_listing (codes "tsconfig.json")
      listed_sources changed_sources refl is_changed is_patched

abbrev first_run : Cache
first_run = record {
  loaded = [];
  written = (codes "key", kept_listing) ∷ [];
  hits = 0;
  absent = 0;
  stale = 0;
  patches = 0;
}

not_loaded : lookup (codes "key") first_run.loaded ≡ none
unfolding lookup
not_loaded = refl

loads : (load_listing disk (codes "key") (codes "tsconfig.json") first_run).1 ≡ some patched_program
unfolding load_listing
loads = refl

load_listing-next_run_example :
    ((load_listing disk
        (codes "key")
        (codes "tsconfig.json")
        (next_run (load_listing disk (codes "key") (codes "tsconfig.json") first_run).0)).1
      ≡ some patched_program)
    × ((load_listing disk
          (codes "key")
          (codes "tsconfig.json")
          (next_run (load_listing disk (codes "key") (codes "tsconfig.json") first_run).0)).0.hits
        ≡ 1)
load_listing-next_run_example =
    load_listing-next_run disk (codes "key") (codes "tsconfig.json") first_run not_loaded loads
