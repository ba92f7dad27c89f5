-- ===== src/Emission/Versions.antt =====
-- What a package's version counts, and what a registration that still holds shows.
use rules_typescript.Base.{
  ℕ, suc, ◌+◌, Bool, true, false, Option, none, some, List, [], ◌∷◌, if◌then◌else◌, ◌≡◌, refl, ◌∙◌,
  ap, arith, subst, Bool-cases, inl, inr,
}
use rules_typescript.Base.Text.{Text, text_eq, text_eq_iff, text_eq_refl}
use rules_typescript.Base.Map.{Map, lookup, insert, lookup-insert}
use rules_typescript.Emission.{
  Label, Rule, BuildFile, RegisteredBuild, EmissionGraph, count_of, memo_for, crawl_memo, touch,
  rule_lists_may_change, set_file, bumped, version, bump, store_rule, set_rule, set_resolved_rule,
  delete_rule, still_registered, registered_rules, registration, record_registered,
}

-- The edits that callbacks make.
pub data Edit : Type 0 where
  store store_resolved : Text → Rule → Edit
  delete : Text → Edit
  store_file : Text → BuildFile → Edit
  touched : Text → Edit
  lists_changed memo_made : Edit

abbrev one_if : Bool → ℕ
one_if b = if b then 1 else 0

-- Whether a write under a key that parses as the label is one of the package's.
abbrev is_own : Text → Option Label → Bool
is_own pkg none = false
is_own pkg (some own) = text_eq own.pkg pkg

abbrev is_unreadable : Option Label → Bool
is_unreadable none = true
is_unreadable (some own) = false

module _ (parse_label : Text → Option Label) where
  unfoldable pub edited : Edit → EmissionGraph → EmissionGraph
  unfolding set_rule set_resolved_rule delete_rule set_file touch rule_lists_may_change crawl_memo
  edited (store key r) g = set_rule parse_label key r g
  edited (store_resolved key r) g = set_resolved_rule parse_label key r g
  edited (delete key) g = delete_rule parse_label key g
  edited (store_file pkg f) g = set_file pkg f g
  edited (touched pkg) g = touch pkg g
  edited lists_changed g = rule_lists_may_change g
  edited memo_made g = crawl_memo g

  unfoldable pub edited_by : List Edit → EmissionGraph → EmissionGraph
  unfolding edited
  edited_by [] g = g
  edited_by (e ∷ es) g = edited_by es (edited e g)

  -- The key of a rule that an edit writes.
  abbrev written : Edit → Option Text
  written (store key r) = some key
  written (store_resolved key r) = some key
  written (delete key) = some key
  written _ = none

  abbrev own_write : Text → Option Text → ℕ
  own_write pkg none = 0
  own_write pkg (some key) = one_if (is_own pkg (parse_label key))

  abbrev unreadable_write : Option Text → ℕ
  unreadable_write none = 0
  unreadable_write (some key) = one_if (is_unreadable (parse_label key))

  -- How many edits write a rule of the package, and how many write under a key that is no label.
  unfoldable pub own_writes : Text → List Edit → ℕ
  own_writes pkg [] = 0
  own_writes pkg (e ∷ es) = own_writes pkg es + own_write pkg (written e)

  unfoldable pub unreadable_writes : List Edit → ℕ
  unreadable_writes [] = 0
  unreadable_writes (e ∷ es) = unreadable_writes es + unreadable_write (written e)

  -- A package's version after so many of its own writes and so many unreadable ones, and the
  -- registrations as they were.
  record Counts (pkg : Text) (own unreadable : ℕ) (g h : EmissionGraph) : Type 0 where
    epochs : h.epoch ≡ unreadable + g.epoch
    versions : count_of (lookup pkg h.versions) ≡ own + count_of (lookup pkg g.versions)
    registered : h.registered ≡ g.registered

  bumped-versions :
      (pkg : Text) (own : Label) (m : Map ℕ)
      → count_of (lookup pkg (insert own.pkg (suc (count_of (lookup own.pkg m))) m))
        ≡ one_if (text_eq own.pkg pkg) + count_of (lookup pkg m)
  bumped-versions pkg own m = elim (Bool-cases (text_eq own.pkg pkg)) [
    | inl t ↦
        rw (lookup-insert own.pkg pkg (suc (count_of (lookup own.pkg m))) m, t)
          (omega (arith, ap (λ k. count_of (lookup k m)) ((text_eq_iff own.pkg pkg).0 t)))
    | inr n ↦ rw (lookup-insert own.pkg pkg (suc (count_of (lookup own.pkg m))) m, n) (omega arith)
  ]

  bumped-Counts :
      (pkg : Text) (g : EmissionGraph) (o : Option Label)
      → Counts pkg (one_if (is_own pkg o)) (one_if (is_unreadable o)) g (bumped o g)
  unfolding bumped
  bumped-Counts pkg g none = record {
    epochs = omega arith;
    versions = omega arith;
    registered = refl;
  }
  bumped-Counts pkg g (some own) = record {
    epochs = omega arith;
    versions = bumped-versions pkg own g.versions;
    registered = refl;
  }

  -- An edit of other fields.
  kept-Counts :
      (pkg : Text) (g h : EmissionGraph)
      → h.epoch ≡ g.epoch
      → h.versions ≡ g.versions
      → h.registered ≡ g.registered
      → Counts pkg 0 0 g h
  kept-Counts pkg g h e v r = record {
    epochs = omega (arith, e);
    versions = omega (arith, ap (λ m. count_of (lookup pkg m)) v);
    registered = r;
  }

  Counts-trans :
      (pkg : Text) {a b c d : ℕ} (g h k : EmissionGraph)
      → Counts pkg a b g h
      → Counts pkg c d h k
      → Counts pkg (c + a) (d + b) g k
  Counts-trans pkg g h k x y = record {
    epochs = omega (arith, x.epochs, y.epochs);
    versions = omega (arith, x.versions, y.versions);
    registered = y.registered ∙ x.registered;
  }

  memo_for-Counts :
      (pkg : Text) (o : Option (List Text)) (g : EmissionGraph) → Counts pkg 0 0 g (memo_for o g)
  unfolding memo_for
  memo_for-Counts pkg none g = kept-Counts pkg g _ refl refl refl
  memo_for-Counts pkg (some seen) g = kept-Counts pkg g g refl refl refl

  -- A write of a rule: other fields of the graph, then the version.
  bump-Counts :
      (pkg key : Text) (g h : EmissionGraph)
      → h.epoch ≡ g.epoch
      → h.versions ≡ g.versions
      → h.registered ≡ g.registered
      → Counts pkg
          (own_write pkg (some key))
          (unreadable_write (some key))
          g
          (bump parse_label key h)
  unfolding bump
  bump-Counts pkg key g h e v r =
      let c = bumped-Counts pkg h (parse_label key) in
      record {
        epochs = omega (arith, c.epochs, e);
        versions = omega (arith, c.versions, ap (λ m. count_of (lookup pkg m)) v);
        registered = c.registered ∙ r;
      }

  edited-Counts :
      (pkg : Text) (e : Edit) (g : EmissionGraph)
      → Counts pkg (own_write pkg (written e)) (unreadable_write (written e)) g (edited e g)
  unfolding edited set_rule set_resolved_rule delete_rule store_rule set_file
  edited-Counts pkg (store key r) g = bump-Counts pkg key g _ refl refl refl
  edited-Counts pkg (store_resolved key r) g = bump-Counts pkg key g _ refl refl refl
  edited-Counts pkg (delete key) g = bump-Counts pkg key g _ refl refl refl
  edited-Counts pkg (store_file p f) g = kept-Counts pkg g _ refl refl refl
  edited-Counts pkg (touched p) g = unfold touch in kept-Counts pkg g _ refl refl refl
  edited-Counts pkg lists_changed g =
      unfold rule_lists_may_change in kept-Counts pkg g _ refl refl refl
  edited-Counts pkg memo_made g = unfold crawl_memo in memo_for-Counts pkg g.crawled g

  edited_by-Counts :
      (pkg : Text) (es : List Edit) (g : EmissionGraph)
      → Counts pkg (own_writes pkg es) (unreadable_writes es) g (edited_by es g)
  unfolding edited_by own_writes unreadable_writes
  edited_by-Counts pkg [] g = kept-Counts pkg g g refl refl refl
  edited_by-Counts pkg (e ∷ es) g =
      Counts-trans pkg g (edited e g) _ (edited-Counts pkg e g)
        (edited_by-Counts pkg es (edited e g))

  -- A registration that a run of edits left valid: no edit wrote a rule of the package, or one
  -- whose package is unknown, and the file is the one that was registered.
  pub record IsCurrent (pkg : Text) (es : List Edit) (f now : BuildFile) : Type 0 where
    pub none_own : own_writes pkg es ≡ 0
    pub none_unreadable : unreadable_writes es ≡ 0
    pub same_file : f.id ≡ now.id

  still_registered-same :
      (r : RegisteredBuild) (pkg : Text) (f : BuildFile) (g : EmissionGraph)
      → (still_registered (some r) pkg f g).0 ≡ true
      → (r.file ≡ f.id) × (r.version.0 ≡ g.epoch) × (r.version.1 ≡ count_of (lookup pkg g.versions))
  still_registered-same r pkg f g h = unfold still_registered version in ground arith

  -- Where `registeredRules` lets a package's rules, registered before a run of edits, be skipped,
  -- no edit of the run stored or deleted a rule of the package, nor one under a key that does not
  -- parse, and the BUILD file is the one that was registered.
  pub registered_rules-IsCurrent :
      (pkg : Text) (es : List Edit) (f now : BuildFile) (g : EmissionGraph)
      → (registered_rules pkg now (edited_by es (record_registered pkg f g))).0 ≡ true
      → IsCurrent pkg es f now
  unfolding registered_rules record_registered registration version
  registered_rules-IsCurrent pkg es f now g h =
      let start = record_registered pkg f g in
      let final = edited_by es start in
      let c = edited_by-Counts pkg es start in
      let made = registration pkg f g in
      let there : lookup pkg final.registered ≡ some made =
        ap (lookup pkg) c.registered
        ∙ lookup-insert pkg pkg made g.registered
        ∙ ap (λ b. if b then some made else lookup pkg g.registered) (text_eq_refl pkg) in
      let (same, epochs, versions) =
        still_registered-same made pkg now final
          (subst (λ o. (still_registered o pkg now final).0 ≡ true) there h) in
      record {
        none_own = omega (arith, c.versions, versions);
        none_unreadable = omega (arith, c.epochs, epochs);
        same_file = same;
      }
