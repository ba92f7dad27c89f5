-- ===== src/Patch/Patching.antt =====
-- Patching a listing, from the guards to what it returns.
use rules_typescript.Base.{not, some, none, List, [], ◌∷◌, if-elim, Option, ◌≡◌, refl}
use rules_typescript.Base.Text.{Text}
use rules_typescript.Base.Map.{Map}
use rules_typescript.ExplainFiles.{Listing}
use rules_typescript.Patch.{CachedSource, CachedListing, Listed, Disk, program_from_entry}
use rules_typescript.Patch.Edits.{patched}
use rules_typescript.Patch.Closed.{IsClosed, settle-IsClosed}
use rules_typescript.Patch.Outcomes.{
  Holds, holds, refusal, Holds-patched, and_then-Holds, after_any,
}
use rules_typescript.Patch.Refresh.{
  with_work, edit_program, patch_changed, patch_sources, patch_listing, has_state, same_digests,
}

-- A property of the listing of a program in a pair.
abbrev pub First : (Listing → Type 0) → Listed × Map CachedSource → Type 0
First P r = P r.0.listing

abbrev pub Last : (Listing → Type 0) → CachedListing × Listed → Type 0
Last P r = P r.1.listing

edit_program-IsClosed :
    (changed sources : Map CachedSource) (p : Listed)
    → Holds (First IsClosed) (edit_program changed sources p)
unfolding edit_program
edit_program-IsClosed changed sources p = after_any _ (λ v.
    and_then-Holds (λ (q : Listed). IsClosed q.listing) (settle-IsClosed (with_work p v))
      (λ q h. holds h))

patch_changed-IsClosed :
    (changed sources : Map CachedSource) (p : Listed)
    → Holds (First IsClosed) (patch_changed changed sources p)
unfolding patch_changed
patch_changed-IsClosed [] sources p = refusal
patch_changed-IsClosed (c ∷ changed) sources p =
    after_any _ (λ m. edit_program-IsClosed (c ∷ changed) sources p)

-- What a patch gives, for a property of its listing.
pub patch_sources-Holds :
    (P : Listing → Type 0) (d : Disk) (fingerprint : List Text → List Text → Text)
    (entry : CachedListing) (subject : Text) (sources : Option (Map CachedSource))
    → ((changed ss : Map CachedSource)
        → sources ≡ some ss
        → Holds (First P) (patch_changed changed ss (program_from_entry entry subject)))
    → Holds (Last P) (patch_sources d fingerprint entry subject sources)
unfolding patch_sources
patch_sources-Holds P d fingerprint entry subject none h = refusal
patch_sources-Holds P d fingerprint entry subject (some ss) h =
    if-elim (Holds (Last P)) (not (has_state entry)) _ _ (λ e. refusal)
      (λ e.
        if-elim (Holds (Last P)) (not (same_digests d entry.dirs entry.dir_digests)) _ _
          (λ e. refusal)
          (λ e.
            after_any _ (λ changed. and_then-Holds (First P) (h changed ss refl) (λ r k. holds k))))

-- Where a listing is patched, the files of the patched program are exactly those that its roots,
-- its type entries, its default libraries and its edges reach.
pub patch_listing-IsClosed :
    (d : Disk) (fingerprint : List Text → List Text → Text) (entry : CachedListing) (subject : Text)
    {updated : CachedListing} {p : Listed}
    → patch_listing d fingerprint entry subject ≡ patched (updated, p)
    → IsClosed p.listing
unfolding patch_listing
patch_listing-IsClosed d fingerprint entry subject e =
    Holds-patched
      (patch_sources-Holds IsClosed d fingerprint entry subject entry.sources
        (λ changed ss q. patch_changed-IsClosed changed ss (program_from_entry entry subject)))
      e
