-- ===== src/ListingCache/Kept.antt =====
-- What patching and remembering a listing keep: the fingerprint of the disk, and the program.
use rules_typescript.Base.{
  true, not, Option, none, some, List, [], ◌∷◌, all, if-elim, map, ◌≡◌, refl, ap,
}
use rules_typescript.Base.Text.{Text, text_eq, text_eq_refl}
use rules_typescript.Base.Map.{Map, NameSet, member}
use rules_typescript.ListingCache.{remembered, listing_fingerprint}
use rules_typescript.Patch.{
  CachedSource, CachedListing, Candidate, Listed, Disk, stored, revived, program_from_entry,
}
use rules_typescript.Patch.Outcomes.{Holds, holds, refusal, starving, and_then-Holds, after_any}
use rules_typescript.Patch.Refresh.{
  keep_reached, settle, with_work, edit_program, patch_changed, patch_sources, patch_listing,
  updated_entry, has_state, same_digests,
}

revived-stored : (cs : List Candidate) → map revived (map stored cs) ≡ cs
revived-stored [] = refl
revived-stored (c ∷ cs) = ap (λ ds. c ∷ ds) (revived-stored cs)

pub program_from_entry-remembered :
    (entry : CachedListing) (p : Listed) → program_from_entry (remembered entry p) p.config ≡ p
unfolding program_from_entry remembered
program_from_entry-remembered entry p =
    ap (λ cs. record p { candidates = cs }) (revived-stored p.candidates)

-- An entry whose fingerprint is that of the disk.
abbrev pub IsFresh : Disk → CachedListing → Type 0
IsFresh d entry = text_eq (listing_fingerprint d entry.reads entry.dirs) entry.fingerprint ≡ true

abbrev HasConfig : Text → Listed × Map CachedSource → Type 0
HasConfig subject r = r.0.config ≡ subject

settle-config :
    (files : NameSet) (p : Listed) → Holds (λ (q : Listed). q.config ≡ p.config) (settle files p)
unfolding settle
settle-config files p = reached _
  where
    reached :
        (found : Option NameSet)
        → Holds (λ (q : Listed). q.config ≡ p.config) (keep_reached files p found)
    reached none = starving
    reached (some found) =
        if-elim (Holds (λ (q : Listed). q.config ≡ p.config)) (all (λ f. member f files) found) _ _
          (λ e. holds refl) (λ e. refusal)

edit_program-config :
    (changed sources : Map CachedSource) (p : Listed)
    → Holds (HasConfig p.config) (edit_program changed sources p)
unfolding edit_program
edit_program-config changed sources p = after_any _ (λ w.
    and_then-Holds (λ (q : Listed). q.config ≡ p.config) (settle-config _ (with_work p w))
      (λ q e. holds e))

patch_changed-config :
    (changed sources : Map CachedSource) (p : Listed)
    → Holds (HasConfig p.config) (patch_changed changed sources p)
unfolding patch_changed
patch_changed-config [] sources p = refusal
patch_changed-config (c ∷ changed) sources p =
    after_any _ (λ m. edit_program-config (c ∷ changed) sources p)

-- What a patch leaves in the cache.
abbrev pub IsKept : Disk → Text → CachedListing × Listed → Type 0
IsKept d subject r = IsFresh d r.0 × (r.1.config ≡ subject)

pub patch_listing-IsKept :
    (d : Disk) (entry : CachedListing) (subject : Text)
    → Holds (IsKept d subject) (patch_listing d (listing_fingerprint d) entry subject)
unfolding patch_listing
patch_listing-IsKept d entry subject = from_sources entry.sources
  where
    from_sources :
        (sources : Option (Map CachedSource))
        → Holds (IsKept d subject) (patch_sources d (listing_fingerprint d) entry subject sources)
    from_sources none = unfold patch_sources in refusal
    from_sources (some sources) =
        unfold patch_sources program_from_entry updated_entry in
        if-elim (Holds (IsKept d subject)) (not (has_state entry)) _ _ (λ e. refusal)
          (λ e.
            if-elim (Holds (IsKept d subject)) (not (same_digests d entry.dirs entry.dir_digests)) _
              _ (λ e. refusal)
              (λ e. after_any _ (λ changed.
                and_then-Holds (HasConfig subject)
                  (patch_changed-config changed sources (program_from_entry entry subject))
                  (λ r c. holds (text_eq_refl (listing_fingerprint d entry.reads entry.dirs), c)))))
