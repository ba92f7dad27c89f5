-- ===== src/Patch/Refresh.antt =====
-- patchListing: the guards, and the listing that a patch gives.
use rules_typescript.Base.{
  ℕ, zero, suc, Bool, true, false, not, ◌&&◌, Option, none, some, List, [], ◌∷◌, ◌++◌, ◌==◌,
  if◌then◌else◌, length, all, map,
}
use rules_typescript.Base.Text.{Text, codes, text_eq}
use rules_typescript.Base.Map.{Map, NameSet, lookup, insert, member, add_name}
use rules_typescript.Base.Delete.{delete_func}
use rules_typescript.Patch.{
  CachedSource, CachedListing, Listed, Disk, scan_specs, stored, program_from_entry, graph,
  rel_path,
}
use rules_typescript.Patch.Edits.{
  Patched, patched, refused, no_rounds, and_then, Work, edit_sources, next_block,
}
use rules_typescript.Program.{reachable, unreached}
use rules_typescript.Program.Rounds.{rounds_needed}

-- Whether every directory has the digest that was kept; the lists are as long.
unfoldable pub same_digests : Disk → List Text → List Text → Bool
same_digests d [] digests = true
same_digests d (dir ∷ dirs) [] = true
same_digests d (dir ∷ dirs) (was ∷ digests) =
    let rest = same_digests d dirs digests in if text_eq (d.names dir) was then rest else false

abbrev pub changed_more : Patched (Text × CachedSource)
changed_more = refused (codes "a changed source changed more than its imports")

abbrev pub with_rest : Text → CachedSource → Option CachedSource → Patched (Text × CachedSource)
with_rest rel old none = changed_more
with_rest rel old (some now) =
    if text_eq now.rest old.rest then patched (rel, now) else changed_more

abbrev pub not_listed : Patched (Text × CachedSource)
not_listed = refused (codes "a changed read is not a listed source")

abbrev pub with_old :
    Text → Option CachedSource → Option CachedSource → Patched (Text × CachedSource)
with_old rel none now = not_listed
with_old rel (some old) now = with_rest rel old now

-- A read whose stat line moved.
abbrev pub with_rel :
    Map CachedSource → Option CachedSource → Option Text → Patched (Text × CachedSource)
with_rel sources now none = not_listed
with_rel sources now (some rel) = with_old rel (lookup rel sources) now

unfoldable pub changed_read : Disk → Text → Map CachedSource → Text → Patched (Text × CachedSource)
unfolding lookup rel_path scan_specs
changed_read d root sources read = with_rel sources (scan_specs d read) (rel_path root read)

-- The loop over the reads; the two lists are as long.
unfoldable pub changed_reads :
    Disk
    → Text
    → Map CachedSource
    → List Text
    → List Text
    → Map CachedSource
    → Patched (Map CachedSource)
unfolding changed_read insert
changed_reads d root sources [] lines changed = patched changed
changed_reads d root sources (read ∷ reads) [] changed = patched changed
changed_reads d root sources (read ∷ reads) (line ∷ lines) changed =
    let rest = changed_reads d root sources reads lines in
    if text_eq (d.line read) line
    then rest changed
    else and_then (changed_read d root sources read) (λ c. rest (insert c.0 c.1 changed))

unfoldable pub file_set : List Text → NameSet
unfolding add_name
file_set [] = []
file_set (f ∷ fs) = add_name f (file_set fs)

-- `strings.Join(missing[:min(3, len(missing))], ", ")`.
abbrev pub first_names : ℕ → List Text → Text
first_names zero fs = []
first_names (suc n) [] = []
first_names (suc n) (f ∷ []) = f
first_names (suc zero) (f ∷ g ∷ fs) = f
first_names (suc (suc n)) (f ∷ g ∷ fs) = f ++ (codes ", " ++ first_names (suc n) (g ∷ fs))

abbrev pub refuse_missing : Option (List Text) → Patched (List Text)
refuse_missing none = no_rounds
refuse_missing (some []) = patched []
refuse_missing (some (f ∷ fs)) =
    refused
      (codes "the listing has files its edges do not reach, such as " ++ first_names 3 (f ∷ fs))

-- The patched program holds the old files that it still reaches.
abbrev pub keep_reached : NameSet → Listed → Option NameSet → Patched Listed
keep_reached files p none = no_rounds
keep_reached files p (some reached) =
    if all (λ f. member f files) reached
    then patched (record p {
      listing = record p.listing {
        files = delete_func (λ f. not (member f reached)) p.listing.files;
      };
    })
    else refused (codes "a file left or entered the program")

abbrev pub with_work : Listed → Work → Listed
with_work p w = record p {
  listing = record p.listing { edges = w.edges };
  candidates = w.candidates;
}

unfoldable pub settle : NameSet → Listed → Patched Listed
unfolding reachable member delete_func rounds_needed
settle files p =
    keep_reached files p (reachable (graph p.listing) (rounds_needed (graph p.listing)))

unfoldable pub initial_work : Map CachedSource → Listed → Work
unfolding next_block
initial_work sources p = record {
  edges = p.listing.edges;
  candidates = p.candidates;
  block = next_block 0 p.candidates;
  sources = sources;
}

-- The edits of a program, from its changed sources.
unfoldable pub edit_program :
    Map CachedSource → Map CachedSource → Listed → Patched (Listed × Map CachedSource)
unfolding edit_sources initial_work settle file_set
edit_program changed sources p =
    let files = file_set p.listing.files in
    and_then (edit_sources changed files changed (initial_work sources p))
      (λ v. and_then (settle files (with_work p v)) (λ q. patched (q, v.sources)))

unfoldable pub patch_changed :
    Map CachedSource → Map CachedSource → Listed → Patched (Listed × Map CachedSource)
unfolding edit_program unreached rounds_needed file_set
patch_changed [] sources p = refused (codes "nothing changed")
patch_changed (c ∷ changed) sources p =
    let g = graph p.listing in
    and_then (refuse_missing (unreached g (rounds_needed g) (file_set p.listing.files)))
      (λ none_missing. edit_program (c ∷ changed) sources p)

-- The entry after a patch. `fingerprint` is `listingFingerprint` of the run.
unfoldable pub updated_entry :
    Disk
    → (List Text → List Text → Text)
    → CachedListing
    → Listed
    → Map CachedSource
    → CachedListing
updated_entry d fingerprint entry p sources = record entry {
  listing = p.listing;
  candidates = map stored p.candidates;
  sources = some sources;
  read_lines = map d.line entry.reads;
  fingerprint = fingerprint entry.reads entry.dirs;
}

abbrev pub has_state : CachedListing → Bool
has_state entry =
    length entry.read_lines == length entry.reads && length entry.dir_digests == length entry.dirs

-- `patchListing` from the sources on.
unfoldable pub patch_sources :
    Disk
    → (List Text → List Text → Text)
    → CachedListing
    → Text
    → Option (Map CachedSource)
    → Patched (CachedListing × Listed)
unfolding same_digests changed_reads patch_changed updated_entry program_from_entry
patch_sources d fingerprint entry subject none = refused (codes "no patch state")
patch_sources d fingerprint entry subject (some sources) =
    if not (has_state entry)
    then refused (codes "no patch state")
    else if not (same_digests d entry.dirs entry.dir_digests)
    then refused (codes "an include root gained or lost a file")
    else and_then (changed_reads d entry.root sources entry.reads entry.read_lines []) (λ changed.
      and_then (patch_changed changed sources (program_from_entry entry subject))
        (λ r. patched (updated_entry d fingerprint entry r.0 r.1, r.0)))

unfoldable pub patch_listing :
    Disk → (List Text → List Text → Text) → CachedListing → Text → Patched (CachedListing × Listed)
unfolding patch_sources
patch_listing d fingerprint entry subject = patch_sources d fingerprint entry subject entry.sources
