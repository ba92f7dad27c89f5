-- ===== src/Npm/Lock/Links.antt =====
-- What the reader lets into an importer.
use rules_typescript.Base.{
  if-elim, ||_false, ℕ, Bool, true, false, not, ◌&&◌, Option, none, some, List, [], ◌∷◌, ◌==◌, ◌≡◌,
  refl, arith, ◌||◌, Bool-cases, inl, inr, subst,
}
use rules_typescript.Base.Text.{
  Text, codes, text_eq, cut_prefix, cut, contains, trim_space, has_prefix,
}
use rules_typescript.Base.Map.{Map, AllValues, AllValues-insert, AllValues-update}
use rules_typescript.Base.GoPath.{dot, dot_dot, clean, join_path}
use rules_typescript.Base.GoPath.Inside.{IsBelow, clean-IsBelow}
use rules_typescript.Npm.Names.{pnpm_file_tarball, pnpm_mapping_key}
use rules_typescript.Npm.Lock.{
  Importer, Scan, before_of, importer_dir, has_current, is_section, is_dep_section, line_step,
  empty_importer, unquoted, write, add_link, add_dep, link_target, linked, recorded, record_dep,
  open_importer, inlined, opened, dep_entry, version_entry, content_step, importers_loop,
  initial_scan, pnpm_content_line, pnpm_section, section_importers, parse_pnpm_importers,
}

-- What the importer declares has a version that the hub can fetch: a `file:` only when it is an
-- archive.
unfoldable pub is_fetched : Text → Bool
is_fetched value =
    not (text_eq value [])
    && not (has_prefix value (codes "link:"))
    && not (has_prefix value (codes "file:") && not (pnpm_file_tarball value))

-- The importer's links are absolute or lead down from the repository's root.
pub record IsSound (imp : Importer) : Type 0 where
  pub links : AllValues IsBelow imp.links
  pub deps : AllValues (λ value. is_fetched value ≡ true) imp.deps

record IsSoundScan (s : Scan) : Type 0 where
  importers : AllValues IsSound s.importers

add_link-IsSound :
    (name to : Text) (imp : Importer) → IsBelow to → IsSound imp → IsSound (add_link name to imp)
add_link-IsSound name to imp h s = record {
  links = AllValues-insert IsBelow name to imp.links h s.links;
  deps = s.deps;
}

add_dep-IsSound :
    (name value : Text) (imp : Importer)
    → is_fetched value ≡ true
    → IsSound imp
    → IsSound (add_dep name value imp)
add_dep-IsSound name value imp h s = record {
  links = s.links;
  deps = AllValues-insert (λ t. is_fetched t ≡ true) name value imp.deps h s.deps;
}

write-IsSound :
    (k : Option Text) (f : Importer → Importer) (m : Map Importer)
    → ((imp : Importer) → IsSound imp → IsSound (f imp))
    → AllValues IsSound m
    → AllValues IsSound (write k f m)
unfolding write
write-IsSound none f m keep h = h
write-IsSound (some k) f m keep h = AllValues-update IsSound k f m keep h

link_target-IsBelow : (dir target to : Text) → link_target dir target ≡ some to → IsBelow to
unfolding link_target
link_target-IsBelow dir target to h =
    let p = clean (join_path dir target) in
    elim (Bool-cases (text_eq p dot || has_prefix p dot_dot)) [
      | inl out ↦ let none_some : none ≡ some to = ground arith in absurd (cc)
      | inr f ↦
          let (not_root, not_up) = ||_false (text_eq p dot) (has_prefix p dot_dot) f in
          let e : some p ≡ some to = ground arith in
          let q : p ≡ to = cc in
          subst IsBelow q (clean-IsBelow (join_path dir target) not_root not_up)
    ]

has_prefix-none : (s p : Text) → cut_prefix s p ≡ none → has_prefix s p ≡ false
has_prefix-none s p h = unfold has_prefix in ground arith

linked-IsSound :
    (name : Text) (o : Option Text) (s : Scan)
    → ((to : Text) → o ≡ some to → IsBelow to)
    → IsSoundScan s
    → IsSoundScan (linked name o s)
unfolding linked
linked-IsSound name none s inside h = h
linked-IsSound name (some to) s inside h = record {
  importers =
      write-IsSound s.current (add_link name to) s.importers
        (λ imp. add_link-IsSound name to imp (inside to refl)) h.importers;
}

recorded-IsSound :
    (name value : Text) (o : Option Text) (s : Scan)
    → text_eq value [] ≡ false
    → (has_prefix value (codes "file:") && not (pnpm_file_tarball value)) ≡ false
    → cut_prefix value (codes "link:") ≡ o
    → IsSoundScan s
    → IsSoundScan (recorded name value o s)
unfolding recorded
recorded-IsSound name value none s ne archive e h = record {
  importers =
      write-IsSound s.current (add_dep name value) s.importers
        (λ imp.
          add_dep-IsSound name value imp
            (unfold is_fetched in ground (arith, has_prefix-none value (codes "link:") e)))
        h.importers;
}
recorded-IsSound name value (some target) s ne archive e h =
    linked-IsSound name (link_target s.dir target) s (link_target-IsBelow s.dir target) h

record_dep-IsSound :
    (name raw : Text) (s : Scan) → IsSoundScan s → IsSoundScan (record_dep name raw s)
unfolding record_dep
record_dep-IsSound name raw s h =
    if-elim IsSoundScan _ s _ (λ skip. h)
      (λ keep.
        let (named, archive) = ||_false _ _ keep in
        let ne = (||_false (text_eq name []) _ named).1 in
        recorded-IsSound name (unquoted (trim_space raw)) _ s ne archive refl h)

open_importer-IsSound : (key : Text) (s : Scan) → IsSoundScan s → IsSoundScan (open_importer key s)
unfolding open_importer
open_importer-IsSound key s h =
    if-elim IsSoundScan (text_eq key []) s _ (λ e. h)
      (λ e. record {
        importers =
            AllValues-insert IsSound (importer_dir key) empty_importer s.importers
              (record { links = tt; deps = tt }) h.importers;
      })

inlined-IsSound :
    (name : Text) (o : Option (Text × Text)) (s : Scan)
    → IsSoundScan s
    → IsSoundScan (inlined name o s)
unfolding inlined
inlined-IsSound name none s h = h
inlined-IsSound name (some (b, after)) s h =
    record_dep-IsSound (unquoted (trim_space name))
      (before_of (before_of after (codes "}")) (codes ",")) s h

opened-IsSound : (o : Option Text) (s : Scan) → IsSoundScan s → IsSoundScan (opened o s)
unfolding opened
opened-IsSound none s h = h
opened-IsSound (some name) s h = record { importers = h.importers }

dep_entry-IsSound :
    (stripped : Text) (o : Option (Text × Text)) (s : Scan)
    → IsSoundScan s
    → IsSoundScan (dep_entry stripped o s)
unfolding dep_entry
dep_entry-IsSound stripped none s h = opened-IsSound _ s h
dep_entry-IsSound stripped (some (name, rest)) s h =
    if-elim IsSoundScan (contains rest (codes "{")) _ _ (λ e. inlined-IsSound name _ s h)
      (λ e. opened-IsSound _ s h)

version_entry-IsSound :
    (o : Option (Text × Text)) (s : Scan) → IsSoundScan s → IsSoundScan (version_entry o s)
unfolding version_entry
version_entry-IsSound none s h = h
version_entry-IsSound (some (key, value)) s h =
    if-elim IsSoundScan _ _ s (λ e. record_dep-IsSound s.dep_name value s h) (λ e. h)

content_step-IsSound :
    (indent : ℕ) (stripped : Text) (s : Scan)
    → IsSoundScan s
    → IsSoundScan (content_step indent stripped s)
unfolding content_step
content_step-IsSound indent stripped s h =
    if-elim IsSoundScan (indent == 2) _ _
      (λ e. open_importer-IsSound (pnpm_mapping_key stripped) s h)
      (λ e.
        if-elim IsSoundScan (not (has_current s)) s _ (λ e. h)
          (λ e.
            if-elim IsSoundScan (indent == 4 && is_section stripped) _ _
              (λ e. record { importers = h.importers })
              (λ e.
                if-elim IsSoundScan (not (is_dep_section s.section)) s _ (λ e. h)
                  (λ e.
                    if-elim IsSoundScan (indent == 6) _ _
                      (λ e.
                        dep_entry-IsSound stripped (cut stripped (codes ":"))
                          (record s { dep_name = [] }) (record { importers = h.importers }))
                      (λ e.
                        if-elim IsSoundScan (indent == 8 && not (text_eq s.dep_name [])) _ s
                          (λ e. version_entry-IsSound (cut stripped (codes ":")) s h) (λ e. h))))))

line_step-IsSound : (o : Option (ℕ × Text)) (s : Scan) → IsSoundScan s → IsSoundScan (line_step o s)
unfolding line_step
line_step-IsSound none s h = h
line_step-IsSound (some (indent, stripped)) s h = content_step-IsSound indent stripped s h

importers_loop-IsSound :
    (lines : List Text) (s : Scan) → IsSoundScan s → IsSoundScan (importers_loop lines s)
unfolding importers_loop
importers_loop-IsSound [] s h = h
importers_loop-IsSound (raw ∷ lines) s h =
    importers_loop-IsSound lines (line_step (pnpm_content_line raw) s)
      (line_step-IsSound (pnpm_content_line raw) s h)

section-IsSound : (o : Option (List Text)) → AllValues IsSound (section_importers o)
unfolding section_importers
section-IsSound none = tt
section-IsSound (some body) =
    (importers_loop-IsSound body initial_scan (record { importers = tt })).importers

-- Whatever the lockfile holds, every link of every importer that is read is an absolute path or leads
-- down from the repository's root by one name or more, with no step up, and every version that is
-- read is nonempty, no link:, and a file: only when it is an archive.
pub parse_pnpm_importers-IsSound :
    (lines : List Text) → AllValues IsSound (parse_pnpm_importers lines)
unfolding parse_pnpm_importers
parse_pnpm_importers-IsSound lines = section-IsSound (pnpm_section lines (codes "importers"))
