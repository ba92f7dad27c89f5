-- ===== src/ListingCache/NextRun.antt =====
-- A listing that a run loads is a hit for the next run over the same files.
use rules_typescript.Base.{
  suc, Bool-cases, Option, none, some, ◌≡◌, refl, ap, ◌∙◌, inl, inr, arith, subst,
}
use rules_typescript.Base.Text.{Text, text_eq, text_eq_refl}
use rules_typescript.Base.Map.{lookup, lookup-insert}
use rules_typescript.ListingCache.{
  Cache, next_run, remembered, remember, after_patch, validated, from_directory, load_listing,
  listing_fingerprint,
}
use rules_typescript.Patch.{CachedListing, Listed, Disk, program_from_entry}
use rules_typescript.Patch.Edits.{Patched}
use rules_typescript.Patch.Outcomes.{Holds, holds, refusal, starving}
use rules_typescript.ListingCache.Kept.{
  IsFresh, IsKept, patch_listing-IsKept, program_from_entry-remembered,
}

-- The directory holds an entry that is fresh and that gives the program.
record Saves (d : Disk) (key subject : Text) (p : Listed) (c : Cache) : Type 0 where
  entry : CachedListing
  held : lookup key c.written ≡ some entry
  fresh : IsFresh d entry
  gives : program_from_entry entry subject ≡ p

after_patch-Saves :
    (d : Disk) (key subject : Text) (c : Cache) {p : Listed} {m : Patched (CachedListing × Listed)}
    → Holds (IsKept d subject) m
    → (after_patch key c m).1 ≡ some p
    → Saves d key subject p (after_patch key c m).0
unfolding remember
after_patch-Saves d key subject c {p} (holds {a} k) e =
    let q = program_from_entry-remembered a.0 a.1 in
    record {
      entry = remembered a.0 a.1;
      held =
          lookup-insert key key (remembered a.0 a.1) c.written ∙ ground (arith, text_eq_refl key);
      fresh = unfold remembered in k.0;
      gives = subst (λ s. program_from_entry (remembered a.0 a.1) s ≡ p) k.1 (cc e);
    }
after_patch-Saves d key subject c refusal e = absurd (cc)
after_patch-Saves d key subject c starving e = absurd (cc)

hit-Saves :
    (d : Disk) (key subject : Text) (entry : CachedListing) (c : Cache) {p : Listed}
    → lookup key c.written ≡ some entry
    → IsFresh d entry
    → program_from_entry entry subject ≡ p
    → Saves d key subject p
        (remember key entry (program_from_entry entry subject) (record c { hits = suc c.hits })).0
unfolding remember
hit-Saves d key subject entry c found fresh e = record {
  entry = entry;
  held = found;
  fresh = fresh;
  gives = e;
}

-- Remembering a program gives it back.
remember-gives :
    (key : Text) (entry : CachedListing) (p : Listed) (c : Cache) → (remember key entry p c).1 ≡ p
unfolding remember
remember-gives key entry p c = program_from_entry-remembered entry p

program_config :
    (entry : CachedListing) (subject : Text) → (program_from_entry entry subject).config ≡ subject
unfolding program_from_entry
program_config entry subject = refl

validated-Saves :
    (d : Disk) (key subject : Text) (entry : CachedListing) (c : Cache) {p : Listed}
    → lookup key c.written ≡ some entry
    → (validated d key subject entry c).1 ≡ some p
    → Saves d key subject p (validated d key subject entry c).0
unfolding validated
validated-Saves d key subject entry c {p} found e =
    elim (Bool-cases (text_eq (listing_fingerprint d entry.reads entry.dirs) entry.fingerprint)) [
      | inr stale ↦
          rw stale (
            after_patch-Saves d key subject c (patch_listing-IsKept d entry subject)
              (rw stale at e))
      | inl fresh ↦ rw fresh (
          hit-Saves d key subject entry c found fresh (
            let q =
              remember-gives key entry (program_from_entry entry subject)
                (record c { hits = suc c.hits }) in
            let g : some _ ≡ some p = rw fresh at e in cc (q, g)))
    ]

load_listing-Saves :
    (d : Disk) (key subject : Text) (c : Cache) {p : Listed}
    → lookup key c.loaded ≡ none
    → (load_listing d key subject c).1 ≡ some p
    → Saves d key subject p (load_listing d key subject c).0
unfolding load_listing
load_listing-Saves d key subject c {p} first e = rw first (from_held _ refl (rw first at e))
  where
    from_held :
        (o : Option CachedListing)
        → lookup key c.written ≡ o
        → (from_directory d key subject c o).1 ≡ some p
        → Saves d key subject p (from_directory d key subject c o).0
    from_held none h q = absurd (cc q)
    from_held (some entry) h q = validated-Saves d key subject entry c h q

-- The next run finds what the directory holds.
next_run-hit :
    (d : Disk) (key subject : Text) (p : Listed) (c : Cache)
    → Saves d key subject p c
    → ((load_listing d key subject (next_run c)).1 ≡ some p)
      × ((load_listing d key subject (next_run c)).0.hits ≡ 1)
unfolding load_listing next_run validated lookup
next_run-hit d key subject p c s =
    rw (s.held, s.fresh)
      (
        (ap some (
              remember-gives key s.entry (program_from_entry s.entry subject)
                (let n = next_run c in record n { hits = suc n.hits }))
            ∙ ap some s.gives),
        unfold remember in refl,
      )

-- A program that a run loads from the directory, whether from an entry that is up to date or from one
-- that it patches, is loaded by the next run over the same files too, the same program, as a hit.
pub load_listing-next_run :
    (d : Disk) (key subject : Text) (c : Cache) {p : Listed}
    → lookup key c.loaded ≡ none
    → (load_listing d key subject c).1 ≡ some p
    → ((load_listing d key subject (next_run (load_listing d key subject c).0)).1 ≡ some p)
      × ((load_listing d key subject (next_run (load_listing d key subject c).0)).0.hits ≡ 1)
load_listing-next_run d key subject c {p} first e =
    next_run-hit d key subject p (load_listing d key subject c).0
      (load_listing-Saves d key subject c first e)
