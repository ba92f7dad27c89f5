-- ===== src/Patch/Origins.antt =====
-- Where the edges of a patched listing come from.
use rules_typescript.Base.{
  false, not, none, some, all, List, [], ◌∷◌, if-elim, Option, ◌≡◌, ◌⊎◌, inl, In,
}
use rules_typescript.Base.Text.{Text}
use rules_typescript.Base.Map.{Map, NameSet, has_key, member}
use rules_typescript.ExplainFiles.{Edge, Listing}
use rules_typescript.Patch.{CachedSource, CachedListing, Listed, Disk, program_from_entry}
use rules_typescript.Patch.Edits.{patched, Work}
use rules_typescript.Patch.Outcomes.{
  Holds, holds, refusal, starving, Holds-patched, and_then-Holds, after_any,
}
use rules_typescript.Patch.Patching.{First, Last}
use rules_typescript.Patch.Precedents.{Copied}
use rules_typescript.Patch.Refresh.{
  initial_work, with_work, settle, keep_reached, edit_program, changed_reads, patch_changed,
  patch_sources, patch_listing, has_state, same_digests,
}
use rules_typescript.Patch.Tracing.{Traced, edit_sources-Traced}

-- Each edge was there or is copied from a precedent, and unedited sources lose none of theirs.
pub record HasOrigins (changed sources : Map CachedSource) (old : List Edge) (l : Listing)
    : Type 0 where
  pub sound : (e : Edge) → In e l.edges → (In e old) ⊎ Copied changed sources old e
  pub kept : (e : Edge) → In e old → has_key e.from changed ≡ false → In e l.edges

module _ (changed sources : Map CachedSource) (p : Listed) where
  abbrev Origins : Listing → Type 0
  Origins = HasOrigins changed sources p.listing.edges

  initial-Traced : Traced changed sources p.listing.edges (initial_work sources p)
  unfolding initial_work
  initial-Traced = record { sound = λ e i. inl i; kept = λ e i h. i; untouched = λ k src i h. i }

  Traced-Origins :
      (w : Work) → Traced changed sources p.listing.edges w → Origins (with_work p w).listing
  Traced-Origins w g = record { sound = g.sound; kept = g.kept }

  settle-Origins :
      (files : NameSet) (q : Listed)
      → Origins q.listing
      → Holds (λ (r : Listed). Origins r.listing) (settle files q)
  unfolding settle
  settle-Origins files q o = reached _
    where
      reached :
          (found : Option NameSet)
          → Holds (λ (r : Listed). Origins r.listing) (keep_reached files q found)
      reached none = starving
      reached (some found) =
          if-elim (Holds (λ (r : Listed). Origins r.listing)) (all (λ f. member f files) found) _ _
            (λ e. holds (record { sound = o.sound; kept = o.kept })) (λ e. refusal)

  edit_program-Origins : Holds (First Origins) (edit_program changed sources p)
  unfolding edit_program
  edit_program-Origins =
      and_then-Holds (Traced changed sources p.listing.edges)
        (edit_sources-Traced changed sources p.listing.edges _ changed _ (λ c i. i) initial-Traced)
        (λ w g.
          and_then-Holds (λ (r : Listed). Origins r.listing)
            (settle-Origins _ (with_work p w) (Traced-Origins w g)) (λ q h. holds h))

patch_changed-Origins :
    (changed sources : Map CachedSource) (p : Listed)
    → Holds (First (HasOrigins changed sources p.listing.edges)) (patch_changed changed sources p)
unfolding patch_changed
patch_changed-Origins [] sources p = refusal
patch_changed-Origins (c ∷ changed) sources p =
    after_any _ (λ m. edit_program-Origins (c ∷ changed) sources p)

patch_sources-Origins :
    (d : Disk) (fingerprint : List Text → List Text → Text) (cache : CachedListing) (subject : Text)
    (sources changed : Map CachedSource)
    → changed_reads d cache.root sources cache.reads cache.read_lines [] ≡ patched changed
    → Holds
        (Last (HasOrigins changed sources cache.listing.edges))
        (patch_sources d fingerprint cache subject (some sources))
unfolding patch_sources program_from_entry
patch_sources-Origins d fingerprint cache subject sources changed e =
    let P = Last (HasOrigins changed sources cache.listing.edges) in
    if-elim (Holds P) (not (has_state cache)) _ _ (λ h. refusal)
      (λ h.
        if-elim (Holds P) (not (same_digests d cache.dirs cache.dir_digests)) _ _ (λ h. refusal)
          (λ h. rw e (
            and_then-Holds (First (HasOrigins changed sources cache.listing.edges))
              (patch_changed-Origins changed sources (program_from_entry cache subject))
              (λ r k. holds k))))

-- Where a listing is patched, with the sources that it was listed with and those that changed since:
-- each edge of the patched program was an edge of the listing, or is copied to a changed source, for
-- a specifier that it has now, from an unchanged source of the same directory and module class that
-- has the specifier too; and no edge of an unchanged source is lost.
pub patch_listing-HasOrigins :
    (d : Disk) (fingerprint : List Text → List Text → Text) (cache : CachedListing) (subject : Text)
    (sources changed : Map CachedSource) {updated : CachedListing} {p : Listed}
    → cache.sources ≡ some sources
    → changed_reads d cache.root sources cache.reads cache.read_lines [] ≡ patched changed
    → patch_listing d fingerprint cache subject ≡ patched (updated, p)
    → HasOrigins changed sources cache.listing.edges p.listing
unfolding patch_listing
patch_listing-HasOrigins d fingerprint cache subject sources changed s c e =
    Holds-patched (patch_sources-Origins d fingerprint cache subject sources changed c) (rw s at e)
