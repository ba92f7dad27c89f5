-- ===== src/Patch/Precedents.antt =====
-- Precedents: what finding one says, and what an edge that was copied from one is.
use rules_typescript.Base.{
  true, false, &&_true, some, List, [], ◌∷◌, Bool-cases, ◌⊎◌, inl, inr, ◌≡◌, sym, ap, ◌∙◌, subst,
  arith, In, here, there,
}
use rules_typescript.Base.Text.{Text, text_eq, text_eq_iff, text_eq_refl}
use rules_typescript.Base.Map.{Map, lookup, insert, has_key}
use rules_typescript.ExplainFiles.{Edge}
use rules_typescript.Base.GoPath.{dir}
use rules_typescript.Base.Unseen.{member_iff}
use rules_typescript.Patch.{CachedSource, extension_class}
use rules_typescript.Patch.Edits.{spec_text, edge_is, is_precedent, precedent_in, first_edge}

pub first_edge-In :
    (from text : Text) (es : List Edge) {e : Edge}
    → first_edge from text es ≡ some e
    → In e es × (e.from ≡ from) × (e.specifier ≡ text)
unfolding first_edge
first_edge-In from text [] h = absurd (cc)
first_edge-In from text (x ∷ es) {e} h = elim (Bool-cases (edge_is from text x)) [
  | inl t ↦
      let q : x ≡ e = cc (rw t at h) in
      let (a, b) = &&_true _ _ t in
      (
        here (sym q),
        ap (λ (y : Edge). y.from) (sym q) ∙ (text_eq_iff x.from from).0 a,
        ap (λ (y : Edge). y.specifier) (sym q) ∙ (text_eq_iff x.specifier text).0 b,
      )
  | inr n ↦ let (i, a, b) = first_edge-In from text es (rw n at h) in (there i, a, b)
]

pub precedent_in-In :
    (changed : Map CachedSource) (rel spec : Text) (sources : Map CachedSource) (p : Text)
    → precedent_in changed rel spec sources ≡ p
    → (p ≡ [])
      ⊎ ((src : CachedSource) × In (p, src) sources × (is_precedent changed rel spec p src ≡ true))
unfolding precedent_in
precedent_in-In changed rel spec [] p h = inl (sym h)
precedent_in-In changed rel spec ((other, src) ∷ sources) p h =
    elim (Bool-cases (is_precedent changed rel spec other src)) [
      | inl t ↦
          let q : other ≡ p = rw t at h in
          inr (
            src,
            here (ap (λ o. (o, src)) (sym q)),
            subst (λ o. is_precedent changed rel spec o src ≡ true) q t,
          )
      | inr n ↦ elim (precedent_in-In changed rel spec sources p (rw n at h)) [
        | inl e ↦ inl e
        | inr (s, i, t) ↦ inr (s, there i, t)
      ]
    ]

pub In-insert :
    {k : Text} {v : CachedSource} (j : Text) (w : CachedSource) (m : Map CachedSource)
    → In (k, v) (insert j w m)
    → (In (k, v) m) ⊎ (k ≡ j)
unfolding insert
In-insert j w [] (here e) = inr (ap (λ (p : Text × CachedSource). p.0) e)
In-insert j w [] (there m) = elim m [ ]
In-insert {k} {v} j w ((i, u) ∷ m) q = elim (Bool-cases (text_eq i j)) [
  | inl same ↦ over (rw same at q)
  | inr other ↦ past (In-insert j w m) (rw other at q)
]
  where
    over : In (k, v) ((j, w) ∷ m) → (In (k, v) ((i, u) ∷ m)) ⊎ (k ≡ j)
    over (here e) = inr (ap (λ (p : Text × CachedSource). p.0) e)
    over (there r) = inl (there r)

    past :
        (In (k, v) (insert j w m) → (In (k, v) m) ⊎ (k ≡ j))
        → In (k, v) ((i, u) ∷ insert j w m)
        → (In (k, v) ((i, u) ∷ m)) ⊎ (k ≡ j)
    past rec (here e) = inl (here e)
    past rec (there r) = elim (rec r) [ inl a ↦ inl (there a) | inr b ↦ inr b ]

pub In-has_key :
    {k : Text} {v : CachedSource} {m : Map CachedSource} → In (k, v) m → has_key k m ≡ true
unfolding has_key lookup
In-has_key {k} {v} (here {x} {xs} e) =
    subst (λ p. has_key k (p ∷ xs) ≡ true) e (ground (arith, text_eq_refl k))
In-has_key {k} (there {x} {xs} i) = ground (arith, In-has_key i)

-- An edge that was copied: its source is edited and gained a specifier, and an unedited source of
-- the same directory and class, which has that specifier too, had the edge.
pub data Copied (changed sources : Map CachedSource) (old : List Edge) (e : Edge) : Type 0 where
  copied :
      (was : Edge) (spec : Text) (now src : CachedSource)
      → In was old
      → e ≡ record was { from = e.from }
      → was.specifier ≡ spec_text spec
      → In (e.from, now) changed
      → In spec now.specs
      → In (was.from, src) sources
      → In spec src.specs
      → has_key was.from changed ≡ false
      → dir was.from ≡ dir e.from
      → extension_class was.from ≡ extension_class e.from
      → Copied changed sources old e

pub Copied-has_key :
    {changed sources : Map CachedSource} {old : List Edge} {e : Edge}
    → Copied changed sources old e
    → has_key e.from changed ≡ true
Copied-has_key (copied was spec now src i q text edited m j t u f g) = In-has_key edited

-- What the test of a precedent says.
pub record IsPrecedent (changed : Map CachedSource) (rel spec other : Text) (src : CachedSource)
    : Type 0 where
  pub unedited : has_key other changed ≡ false
  pub directory : dir other ≡ dir rel
  pub same_class : extension_class other ≡ extension_class rel
  pub imports : In spec src.specs

pub is_precedent-IsPrecedent :
    (changed : Map CachedSource) (rel spec other : Text) (src : CachedSource)
    → is_precedent changed rel spec other src ≡ true
    → IsPrecedent changed rel spec other src
unfolding is_precedent
is_precedent-IsPrecedent changed rel spec other src t = record {
  unedited = ground arith;
  directory = (text_eq_iff (dir other) (dir rel)).0 (ground arith);
  same_class = (text_eq_iff (extension_class other) (extension_class rel)).0 (ground arith);
  imports = (member_iff spec src.specs).0 (ground arith);
}
