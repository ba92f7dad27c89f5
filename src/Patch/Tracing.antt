-- ===== src/Patch/Tracing.antt =====
-- The loops of a patch keep the edges of the unedited sources, and copy edges of precedents.
use rules_typescript.Base.{
  true, false, Option, some, none, List, [], ◌∷◌, Bool-cases, if-elim, any, ◌⊎◌, inl, inr, ◌≡◌,
  refl, sym, subst, In, here, there, In-append, In-append_left,
}
use rules_typescript.Base.Text.{Text, text_eq, text_eq_iff}
use rules_typescript.Base.Map.{Map, NameSet, lookup, insert, has_key, member}
use rules_typescript.Base.Delete.{delete_func-In, In-delete_func}
use rules_typescript.ExplainFiles.{Edge}
use rules_typescript.Patch.{CachedSource}
use rules_typescript.Patch.Edits.{
  Work, spec_text, edge_is, drop_spec, drop_specs, is_precedent, first_edge, copied_edge,
  resolves_outside, probes_of, last_resolved, copy_spec, add_spec, add_specs, edit_source,
  edit_sources, specs_of,
}
use rules_typescript.Patch.Outcomes.{Holds, holds, refusal, and_then-Holds}
use rules_typescript.Patch.Precedents.{
  first_edge-In, precedent_in-In, In-insert, In-has_key, Copied, copied, Copied-has_key,
  is_precedent-IsPrecedent,
}

module _ (changed sources : Map CachedSource) (old : List Edge) where
  pub record Traced (w : Work) : Type 0 where
    pub sound : (e : Edge) → In e w.edges → (In e old) ⊎ Copied changed sources old e
    pub kept : (e : Edge) → In e old → has_key e.from changed ≡ false → In e w.edges
    pub untouched :
        (k : Text) (src : CachedSource)
        → In (k, src) w.sources
        → has_key k changed ≡ false
        → In (k, src) sources

-- The loops over one edited source and over all of them.
module _ (changed sources : Map CachedSource) (old : List Edge) (files : NameSet) (rel : Text)
    (now : CachedSource) (edited : In (rel, now) changed) where
  abbrev Good : Work → Type 0
  Good = Traced changed sources old

  other_source :
      (e : Edge) (text : Text) → has_key e.from changed ≡ false → edge_is rel text e ≡ false
  other_source e text h = elim (Bool-cases (text_eq e.from rel)) [
    | inl same ↦ absurd (cc (h, In-has_key edited, (text_eq_iff e.from rel).0 same))
    | inr differs ↦ rw differs
  ]

  drop_spec-Traced : (spec : Text) (w : Work) → Good w → Holds Good (drop_spec rel now.specs spec w)
  unfolding drop_spec
  drop_spec-Traced spec w g =
      if-elim (Holds Good) (member spec now.specs) _ _ (λ e. holds g)
        (λ e.
          if-elim (Holds Good) (any (λ s. text_eq (spec_text s) (spec_text spec)) now.specs) _ _
            (λ e. refusal)
            (λ e. holds (record {
              sound = λ x i. g.sound x (delete_func-In _ w.edges i);
              kept = λ x i h. In-delete_func _ (g.kept x i h) (other_source x (spec_text spec) h);
              untouched = g.untouched;
            })))

  drop_specs-Traced :
      (specs : List Text) (w : Work) → Good w → Holds Good (drop_specs rel now.specs specs w)
  unfolding drop_specs
  drop_specs-Traced [] w g = holds g
  drop_specs-Traced (spec ∷ specs) w g =
      and_then-Holds Good (drop_spec-Traced spec w g) (drop_specs-Traced specs)

  -- A copied edge has an unedited source with the specifier, so it is not itself a copy.
  copy_of :
      (spec : Text) (src : CachedSource) (w : Work) (e : Edge)
      → Good w
      → In e w.edges
      → e.specifier ≡ spec_text spec
      → In spec now.specs
      → In (e.from, src) w.sources
      → is_precedent changed rel spec e.from src ≡ true
      → Copied changed sources old (record e { from = rel })
  copy_of spec src w e g k text m i t =
      let is = is_precedent-IsPrecedent changed rel spec e.from src t in
      elim (g.sound e k) [
        | inl was ↦
            copied e spec now src was refl text edited m (g.untouched e.from src i is.unedited)
              is.imports is.unedited is.directory is.same_class
        | inr c ↦ absurd (cc (is.unedited, Copied-has_key c))
      ]

  copied_edge-Copied :
      (spec precedent : Text) (src : CachedSource) (w : Work) (found : Option Edge)
      → Good w
      → In spec now.specs
      → In (precedent, src) w.sources
      → is_precedent changed rel spec precedent src ≡ true
      → first_edge precedent (spec_text spec) w.edges ≡ found
      → (x : Edge) → In x (copied_edge rel found)
      → Copied changed sources old x
  copied_edge-Copied spec precedent src w none g m i t q x j = elim j [ ]
  copied_edge-Copied spec precedent src w (some e) g m i t q x (there j) = elim j [ ]
  copied_edge-Copied spec precedent src w (some e) g m i t q x (here same) =
      let (k, from, text) = first_edge-In precedent (spec_text spec) w.edges q in
      subst (Copied changed sources old) (sym same) (
        copy_of spec src w e g k text m (subst (λ p. In (p, src) w.sources) (sym from) i)
          (subst (λ p. is_precedent changed rel spec p src ≡ true) (sym from) t))

  copy_spec-Traced :
      (spec precedent : Text) (w : Work)
      → Good w
      → In spec now.specs
      → (precedent ≡ [])
        ⊎ ((src : CachedSource) × In (precedent, src) w.sources
            × (is_precedent changed rel spec precedent src ≡ true))
      → Holds Good (copy_spec files rel (spec_text spec) precedent w)
  unfolding copy_spec
  copy_spec-Traced spec precedent w g m (inl e) = rw e refusal
  copy_spec-Traced spec precedent w g m (inr (src, i, t)) =
      let found = first_edge precedent (spec_text spec) w.edges in
      if-elim (Holds Good) (text_eq precedent []) _ _ (λ e. refusal)
        (λ e.
          if-elim (Holds Good)
            (resolves_outside files
              (last_resolved [] (probes_of precedent (spec_text spec) w.candidates)) found)
            _ _ (λ e. refusal)
            (λ e. holds (record {
              sound = λ x j. elim (In-append w.edges j) [
                | inl a ↦ g.sound x a
                | inr b ↦ inr (copied_edge-Copied spec precedent src w found g m i t refl x b)
              ];
              kept = λ x j h. In-append_left _ (g.kept x j h);
              untouched = g.untouched;
            })))

  add_spec-Traced :
      (was : List Text) (spec : Text) (w : Work)
      → Good w
      → In spec now.specs
      → Holds Good (add_spec changed files rel was spec w)
  unfolding add_spec
  add_spec-Traced was spec w g m =
      if-elim (Holds Good) (member spec was) _ _ (λ e. holds g)
        (λ e. copy_spec-Traced spec _ w g m (precedent_in-In changed rel spec w.sources _ refl))

  add_specs-Traced :
      (was specs : List Text) (w : Work)
      → Good w
      → ((spec : Text) → In spec specs → In spec now.specs)
      → Holds Good (add_specs changed files rel was specs w)
  unfolding add_specs
  add_specs-Traced was [] w g h = holds g
  add_specs-Traced was (spec ∷ specs) w g h =
      and_then-Holds Good (add_spec-Traced was spec w g (h spec (here refl)))
        (λ v k. add_specs-Traced was specs v k (λ s i. h s (there i)))

  with_source-Traced : (w : Work) → Good w → Good (record w { sources = insert rel now w.sources })
  with_source-Traced w g = record {
    sound = g.sound;
    kept = g.kept;
    untouched = λ k src i h. elim (In-insert rel now w.sources i) [
      | inl j ↦ g.untouched k src j h
      | inr e ↦ absurd (cc (h, e, In-has_key edited))
    ];
  }

  pub edit_source-Traced : (w : Work) → Good w → Holds Good (edit_source changed files rel now w)
  unfolding edit_source
  edit_source-Traced w g =
      and_then-Holds Good (drop_specs-Traced (specs_of (lookup rel w.sources)) w g) (λ v k.
        and_then-Holds Good (add_specs-Traced _ now.specs v k (λ s i. i))
          (λ u l. holds (with_source-Traced u l)))

pub edit_sources-Traced :
    (changed sources : Map CachedSource) (old : List Edge) (files : NameSet)
    (more : Map CachedSource) (w : Work)
    → ((c : Text × CachedSource) → In c more → In c changed)
    → Traced changed sources old w
    → Holds (Traced changed sources old) (edit_sources changed files more w)
unfolding edit_sources
edit_sources-Traced changed sources old files [] w h g = holds g
edit_sources-Traced changed sources old files ((rel, now) ∷ more) w h g =
    and_then-Holds (Traced changed sources old)
      (edit_source-Traced changed sources old files rel now (h (rel, now) (here refl)) w g)
      (λ v k. edit_sources-Traced changed sources old files more v (λ c i. h c (there i)) k)
