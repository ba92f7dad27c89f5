-- ===== src/Incremental/Changed.antt =====
-- What `Changed` lists.
use rules_typescript.Base.{
  false, Option, none, some, List, [], ◌∷◌, ◌==◌, length, Bool-cases, ◌≡◌, refl, sym, ap, subst,
  inl, inr, In, here, there,
}
use rules_typescript.Base.Text.{Text, text_eq}
use rules_typescript.Base.Map.{Map, lookup}
use rules_typescript.Base.Sort.{sort_strings_iff}
use rules_typescript.Incremental.{Record, changed_entry, changed_loop, sorted_paths, changed}

module _ (r : Record) where
  -- A path that is there now with another line than the recorded one.
  pub record IsChanged (now : Map Text) (rel : Text) : Type 0 where
    pub line : Text
    pub was : Text
    pub listed : In (rel, line) now
    pub recorded : lookup rel r.entries ≡ some was
    pub differs : text_eq was line ≡ false

  abbrev AllChanged : Map Text → Option (List Text) → Type 0
  AllChanged now none = Unit
  AllChanged now (some paths) = (rel : Text) → In rel paths → IsChanged now rel

  later-IsChanged :
      (e : Text × Text) (now : Map Text) {rel : Text} → IsChanged now rel → IsChanged (e ∷ now) rel
  later-IsChanged e now c = record {
    line = c.line;
    was = c.was;
    listed = there c.listed;
    recorded = c.recorded;
    differs = c.differs;
  }

  first-IsChanged :
      (rel line was : Text) (now : Map Text) {other : Text}
      → lookup rel r.entries ≡ some was
      → text_eq was line ≡ false
      → other ≡ rel
      → IsChanged ((rel, line) ∷ now) other
  first-IsChanged rel line was now e d same = record {
    line = line;
    was = was;
    listed = here (ap (λ x. (x, line)) same);
    recorded = subst (λ x. lookup x r.entries ≡ some was) (sym same) e;
    differs = d;
  }

  changed_entry-AllChanged :
      (rel line : Text) (now : Map Text) (o : Option Text) (later : Option (List Text))
      → lookup rel r.entries ≡ o
      → AllChanged now later
      → AllChanged ((rel, line) ∷ now) (changed_entry o rel line later)
  unfolding changed_entry
  changed_entry-AllChanged rel line now none later e h = tt
  changed_entry-AllChanged rel line now (some was) none e h = tt
  changed_entry-AllChanged rel line now (some was) (some paths) e h =
      elim (Bool-cases (text_eq was line)) [
        | inl t ↦ rw t (λ other m. later-IsChanged (rel, line) now (h other m))
        | inr d ↦ rw d (λ other m. elim m [
          | here same ↦ first-IsChanged rel line was now e d same
          | there n ↦ later-IsChanged (rel, line) now (h other n)
        ])
      ]

  changed_loop-AllChanged : (now : Map Text) → AllChanged now (changed_loop r now)
  unfolding changed_loop
  changed_loop-AllChanged [] = λ rel m. elim m [ ]
  changed_loop-AllChanged ((rel, line) ∷ now) =
      changed_entry-AllChanged rel line now (lookup rel r.entries) (changed_loop r now) refl
        (changed_loop-AllChanged now)

  sorted-AllChanged :
      (now : Map Text) (o : Option (List Text)) → AllChanged now o → AllChanged now (sorted_paths o)
  sorted-AllChanged now none h = tt
  sorted-AllChanged now (some paths) h = λ rel m. h rel ((sort_strings_iff paths).0 m)

  -- Every path that `Changed` lists is there now with another line than the recorded one.
  pub changed-IsChanged :
      (now : Map Text) {paths : List Text} (rel : Text)
      → changed (some r) now ≡ some paths
      → In rel paths
      → IsChanged now rel
  unfolding changed
  changed-IsChanged now {paths} rel h m = elim (Bool-cases (length now == length r.entries)) [
    | inr n ↦ let q : none ≡ some paths = rw n at h in absurd (cc)
    | inl t ↦
        let q : sorted_paths (changed_loop r now) ≡ some paths = rw t at h in
        subst (AllChanged now) q
          (sorted-AllChanged now (changed_loop r now) (changed_loop-AllChanged now)) rel m
  ]
