-- ===== src/TsConfig/Merged.antt =====
-- `Resolve`: the configs that a chain is merged from.
use rules_typescript.Base.{
  ℕ, suc, Bool, Option, none, some, List, [], ◌∷◌, ◌++◌, ◌≡◌, refl, ap, ◌∙◌, subst, Bool-cases, inl,
  inr,
}
use rules_typescript.Base.Text.{Text}
use rules_typescript.Base.Map.{NameSet, member}
use rules_typescript.Base.GoPath.{clean, dir}
use rules_typescript.TsConfig.{
  File, Resolved, override, blank, leaf, Outcome, resolved, failed, rejected, exhausted, extended,
  one_extends, resolve_extends, extends_loop, with_leaf, read_file, resolve,
}
use rules_typescript.TsConfig.Override.{IsMerged, override_all, all-IsMerged}

module _ (rec : Text → Outcome) (directory : Text) where
  -- What a config's extends lead to, in their order: the configs that resolve, but for a bare
  -- specifier and a config that fails.
  pub data Bases : List Text → List Resolved → Type 0 where
    no_more : Bases [] []
    bare :
        {spec : Text} {specs : List Text} {bases : List Resolved}
        → resolve_extends directory spec ≡ none
        → Bases specs bases
        → Bases (spec ∷ specs) bases
    skips :
        {spec path : Text} {specs : List Text} {bases : List Resolved}
        → resolve_extends directory spec ≡ some path
        → rec path ≡ failed
        → Bases specs bases
        → Bases (spec ∷ specs) bases
    takes :
        {spec path : Text} {specs : List Text} {base : Resolved} {bases : List Resolved}
        → resolve_extends directory spec ≡ some path
        → rec path ≡ resolved base
        → Bases specs bases
        → Bases (spec ∷ specs) (base ∷ bases)

  abbrev Folds : List Text → Resolved → Resolved → Type 0
  Folds specs acc m = (bases : List Resolved) × Bases specs bases × (override_all acc bases ≡ m)

  stopped :
      (specs : List Text) (o : Outcome) {m : Resolved}
      → ((r : Resolved) → o ≡ resolved r → ⊥)
      → extends_loop rec directory specs o ≡ resolved m
      → ⊥
  unfolding extends_loop
  stopped [] o h e = h _ e
  stopped (spec ∷ specs) (resolved r) h e = h r refl
  stopped (spec ∷ specs) failed h e = cc
  stopped (spec ∷ specs) rejected h e = cc
  stopped (spec ∷ specs) exhausted h e = cc

  module _ (specs : List Text)
      (later : (acc m : Resolved)
        → extends_loop rec directory specs (resolved acc) ≡ resolved m
        → Folds specs acc m)
      (spec : Text) (acc m : Resolved) where
    resolved-Folds :
        (path : Text) (o : Outcome)
        → resolve_extends directory spec ≡ some path
        → rec path ≡ o
        → extends_loop rec directory specs (extended acc o) ≡ resolved m
        → Folds (spec ∷ specs) acc m
    unfolding extended override_all
    resolved-Folds path (resolved base) e q h =
        let (bases, b, f) = later (override acc base) m h in (base ∷ bases, takes e q b, f)
    resolved-Folds path failed e q h = let (bases, b, f) = later acc m h in (bases, skips e q b, f)
    resolved-Folds path rejected e q h = absurd (stopped specs rejected (λ r k. cc) h)
    resolved-Folds path exhausted e q h = absurd (stopped specs exhausted (λ r k. cc) h)

    one-Folds :
        (o : Option Text)
        → resolve_extends directory spec ≡ o
        → extends_loop rec directory specs (one_extends rec acc o) ≡ resolved m
        → Folds (spec ∷ specs) acc m
    unfolding one_extends
    one-Folds none e h = let (bases, b, f) = later acc m h in (bases, bare e b, f)
    one-Folds (some path) e h = resolved-Folds path (rec path) e refl h

  loop-Folds :
      (specs : List Text) (acc m : Resolved)
      → extends_loop rec directory specs (resolved acc) ≡ resolved m
      → Folds specs acc m
  unfolding extends_loop override_all
  loop-Folds [] acc m h = ([], no_more, cc)
  loop-Folds (spec ∷ specs) acc m h =
      one-Folds specs (loop-Folds specs) spec acc m (resolve_extends directory spec) refl h

override_all-last :
    (r x : Resolved) (rs : List Resolved)
    → override_all r (rs ++ x ∷ []) ≡ override (override_all r rs) x
unfolding override_all
override_all-last r x [] = refl
override_all-last r x (y ∷ rs) = override_all-last (override r y) x rs

module _ (rec : Text → Outcome) (path : Text) where
  -- `m` is what the file sets over what its extends resolve to.
  pub record IsChain (f : File) (m : Resolved) : Type 0 where
    pub bases : List Resolved
    pub are_bases : Bases rec (dir path) f.extends bases
    pub merged : IsMerged (blank f.extends) (bases ++ leaf f path ∷ []) m

  with_leaf-IsChain :
      (f : File) (o : Outcome) (m : Resolved)
      → extends_loop rec (dir path) f.extends (resolved (blank f.extends)) ≡ o
      → with_leaf f path o ≡ resolved m
      → IsChain f m
  unfolding with_leaf
  with_leaf-IsChain f (resolved r) m e h =
      let (bases, b, q) = loop-Folds rec (dir path) f.extends (blank f.extends) r e in
      let first : override (override_all (blank f.extends) bases) (leaf f path) ≡ m =
        ap (λ x. override x (leaf f path)) q ∙ cc in
      record {
        bases = bases;
        are_bases = b;
        merged =
            subst (IsMerged (blank f.extends) (bases ++ leaf f path ∷ []))
              (override_all-last (blank f.extends) (leaf f path) bases ∙ first)
              (all-IsMerged (blank f.extends) (bases ++ leaf f path ∷ []));
      }
  with_leaf-IsChain f failed m e h = absurd (cc)
  with_leaf-IsChain f rejected m e h = absurd (cc)
  with_leaf-IsChain f exhausted m e h = absurd (cc)

module _ (read : Text → Option File) (admit : Text → Bool) where
  read_file-IsChain :
      (rec : Text → Outcome) (path : Text) (o : Option File) (m : Resolved)
      → read path ≡ o
      → read_file read admit rec path o ≡ resolved m
      → (f : File) × (read path ≡ some f) × IsChain rec path f m
  unfolding read_file
  read_file-IsChain rec path none m e h = absurd (cc)
  read_file-IsChain rec path (some f) m e h = (f, e, with_leaf-IsChain rec path f _ m refl h)

  -- What a config resolves to is what its file sets over the configs that its extends resolve to, in
  -- their order: every value is that of the last of these which sets it, its directory is of the same
  -- config, and the configs included are those of all of them, the file's own last.
  pub resolve-IsChain :
      (fuel : ℕ) (ancestors : NameSet) (path : Text) {m : Resolved}
      → resolve read admit (suc fuel) ancestors path ≡ resolved m
      → (f : File) × (read (clean path) ≡ some f)
        × IsChain (resolve read admit fuel (clean path ∷ ancestors)) (clean path) f m
  unfolding resolve
  resolve-IsChain fuel ancestors path {m} h =
      let p = clean path in
      elim (Bool-cases (member p ancestors)) [
        | inl t ↦ let q : failed ≡ resolved m = rw t at h in absurd (cc)
        | inr n ↦ elim (Bool-cases (admit p)) [
          | inr u ↦ let q : rejected ≡ resolved m = rw (n, u) at h in absurd (cc)
          | inl t ↦
              read_file-IsChain (resolve read admit fuel (p ∷ ancestors)) p (read p) m refl
                (rw (n, t) at h)
        ]
      ]
