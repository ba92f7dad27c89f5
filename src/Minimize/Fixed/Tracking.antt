-- ===== src/Minimize/Fixed/Tracking.antt =====
-- A fixed supply tracks what the retained dependencies supply.
use rules_typescript.Base.{
  ℕ, suc, ◌+◌, ◌<◌, true, false, not, ◌&&◌, List, [], ◌∷◌, ◌++◌, ◌==◌, ltb, In, here, there,
  In-append_left, In-append_right, Bool-cases, inl, inr, ◌≡◌, refl, sym, ◌∙◌, ap, false≢true, arith,
}
use rules_typescript.Base.Text.{Text, text_eq, text_eq_iff}
use rules_typescript.Base.Map.{Map, NameSet, lookup, keys, member}
use rules_typescript.ExplainFiles.{Edge}
use rules_typescript.Minimize.{
  Memo, Requirement, or_nothing, direct_supply, all_files, all_targets, static_edge_supply, is_read,
  unsupplied_by,
}
use rules_typescript.Minimize.Counts.{
  one_less, count, count-append, member-count, add_each-suc, add_each-one_less, add_each_lost,
}
use rules_typescript.Minimize.Fixed.{
  FixedSupply, edge_files, read_files, read_targets, keep_read, readers_of, dependency_supply, add,
  supplies, unsupplied,
}
use rules_typescript.Minimize.Fixed.Lacks.{
  member_of_In, edges_of, lacks_agrees, lacks_reason, lacks_nothing, edge_lost,
}
use rules_typescript.Minimize.Fixed.Index.{In-readers_of}

pub count-keep_read :
    (x : Text) (read : NameSet) (xs : List Text)
    → member x read ≡ true
    → count x (keep_read read xs) ≡ count x xs
unfolding keep_read count
count-keep_read x read [] h = refl
count-keep_read x read (y ∷ ys) h = elim (Bool-cases (text_eq y x)) [
  | inl e ↦ ground (arith, text_eq_iff y x, count-keep_read x read ys h)
  | inr e ↦ ground (arith, count-keep_read x read ys h)
]

-- What an edge of a dependency names is read.
edge_files_from : {e : Edge} {es : List Edge} → In e es → In e.from (edge_files es)
edge_files_from (here same) = here (ap (λ g. g.from) same)
edge_files_from (there i) = there (there (edge_files_from i))

edge_files_to : {e : Edge} {es : List Edge} → In e es → In e.to (edge_files es)
edge_files_to (here same) = there (here (ap (λ g. g.to) same))
edge_files_to (there i) = there (there (edge_files_to i))

read_files_In :
    (dep x : Text) (deps : Map Requirement)
    → In x (edge_files (or_nothing (lookup dep deps)).edges)
    → In x (read_files deps)
unfolding lookup read_files
read_files_In dep x [] i = elim i [ ]
read_files_In dep x ((j, r) ∷ deps) i = elim (Bool-cases (text_eq j dep)) [
  | inl e ↦ In-append_left (read_files deps) (rw (e, lookup) at i)
  | inr e ↦ In-append_right (edge_files r.edges) (read_files_In dep x deps (rw (e, lookup) at i))
]

read_targets_In :
    (m : Memo) (dep : Text) (deps : Map Requirement)
    → In dep (keys deps)
    → In (m.target_rule dep).0 (read_targets m deps)
unfolding keys read_targets
read_targets_In m dep [] i = elim i [ ]
read_targets_In m dep ((j, r) ∷ deps) (here e) = here (ap (λ k. (m.target_rule k).0) e)
read_targets_In m dep ((j, r) ∷ deps) (there i) = there (read_targets_In m dep deps i)

module _ (m : Memo) (deps : Map Requirement) (roots : NameSet) where
  -- The counts of a supply are those of the files and targets that the retained dependencies
  -- supply, where some edge reads them.
  pub record IsCounting (f : FixedSupply) (retained : List Text) : Type 0 where
    pub files_of :
        (x : Text) → member x (read_files deps) ≡ true → f.files x ≡ count x (all_files m retained)
    pub targets_of :
        (x : Text)
        → member x (read_targets m deps) ≡ true
        → f.targets x ≡ count x (all_targets m retained)

  -- The index has exactly the dropped dependencies, under all that they read.
  pub record IsIndexing (f : FixedSupply) (dropped : List Text) : Type 0 where
    pub readers_only : (x d : Text) → In d (f.readers x) → In d dropped
    pub needs_only : (x d : Text) → In d (f.needs x) → In d dropped
    pub needs_all : (d : Text) → In d dropped → In d (f.needs (m.target_rule d).0)
    pub readers_from :
        (d : Text) → In d dropped → (e : Edge) → In e (edges_of m deps d) → In d (f.readers e.from)
    pub readers_to :
        (d : Text)
        → In d dropped
        → (e : Edge) → In e (edges_of m deps d)
        → not (static_edge_supply (m.target_rule d).1 e) && is_read e ≡ true
        → In d (f.readers e.to)

  -- The fixed supply answers as the exact one does.
  pub unsupplied_agrees :
      (f : FixedSupply) (retained : List Text) (dep : Text)
      → IsCounting f retained
      → In dep (keys deps)
      → unsupplied m deps roots f dep ≡ unsupplied_by m deps roots retained dep
  unfolding unsupplied unsupplied_by
  unsupplied_agrees f retained dep counts known =
      lacks_agrees m deps (λ t. not (f.targets t == 0)) (λ t. member t (all_targets m retained))
        (supplies m deps roots f)
        (λ file. not (member file roots) && member file (all_files m retained)) dep
        (target_agrees (m.target_rule dep).0 (member_of_In (read_targets_In m dep deps known)))
        (λ e i. (
          file_agrees e.from (member_of_In (read_files_In dep e.from deps (edge_files_from i))),
          file_agrees e.to (member_of_In (read_files_In dep e.to deps (edge_files_to i))),
        ))
    where
      target_agrees :
          (x : Text)
          → member x (read_targets m deps) ≡ true
          → not (f.targets x == 0) ≡ member x (all_targets m retained)
      target_agrees x read =
          ground (arith, counts.targets_of x read, member-count x (all_targets m retained))

      file_agrees :
          (x : Text)
          → member x (read_files deps) ≡ true
          → (not (member x roots) && ltb 0 (f.files x))
            ≡ (not (member x roots) && member x (all_files m retained))
      file_agrees x read =
          ground (arith, counts.files_of x read, member-count x (all_files m retained))

  files_between :
      (kept todo : List Text) (c x : Text)
      → count x (all_files m (kept ++ c ∷ todo))
        ≡ count x (all_files m (kept ++ todo)) + count x (direct_supply m c).files
  unfolding all_files
  files_between [] todo c x =
      omega (arith, count-append x (direct_supply m c).files (all_files m todo))
  files_between (k ∷ kept) todo c x = omega (
    arith,
    files_between kept todo c x,
    count-append x (direct_supply m k).files (all_files m (kept ++ c ∷ todo)),
    count-append x (direct_supply m k).files (all_files m (kept ++ todo)),
  )

  targets_between :
      (kept todo : List Text) (c x : Text)
      → count x (all_targets m (kept ++ c ∷ todo))
        ≡ count x (all_targets m (kept ++ todo)) + count x (direct_supply m c).targets
  unfolding all_targets
  targets_between [] todo c x =
      omega (arith, count-append x (direct_supply m c).targets (all_targets m todo))
  targets_between (k ∷ kept) todo c x = omega (
    arith,
    targets_between kept todo c x,
    count-append x (direct_supply m k).targets (all_targets m (kept ++ c ∷ todo)),
    count-append x (direct_supply m k).targets (all_targets m (kept ++ todo)),
  )

  module _ (f : FixedSupply) (kept todo : List Text) (c : Text) where
    pub less-IsCounting :
        IsCounting f (kept ++ c ∷ todo)
        → IsCounting (add m deps roots one_less c f).1 (kept ++ todo)
    unfolding add dependency_supply
    less-IsCounting counts = record {
      files_of = λ x read. omega (
        arith,
        counts.files_of x read,
        files_between kept todo c x,
        add_each-one_less x (keep_read (read_files deps) (direct_supply m c).files) f.files,
        count-keep_read x (read_files deps) (direct_supply m c).files read,
      );
      targets_of = λ x read. omega (
        arith,
        counts.targets_of x read,
        targets_between kept todo c x,
        add_each-one_less x (keep_read (read_targets m deps) (direct_supply m c).targets) f.targets,
        count-keep_read x (read_targets m deps) (direct_supply m c).targets read,
      );
    }

    pub more-IsCounting :
        IsCounting f (kept ++ todo) → IsCounting (add m deps roots suc c f).1 (kept ++ c ∷ todo)
    unfolding add dependency_supply
    more-IsCounting counts = record {
      files_of = λ x read. omega (
        arith,
        counts.files_of x read,
        files_between kept todo c x,
        add_each-suc x (keep_read (read_files deps) (direct_supply m c).files) f.files,
        count-keep_read x (read_files deps) (direct_supply m c).files read,
      );
      targets_of = λ x read. omega (
        arith,
        counts.targets_of x read,
        targets_between kept todo c x,
        add_each-suc x (keep_read (read_targets m deps) (direct_supply m c).targets) f.targets,
        count-keep_read x (read_targets m deps) (direct_supply m c).targets read,
      );
    }

  -- A dropped dependency that the candidate alone supplied is affected.
  pub lost_affects :
      (f : FixedSupply) (dropped : List Text) (c d : Text)
      → IsIndexing f dropped
      → In d dropped
      → unsupplied m deps roots f d ≡ false
      → unsupplied m deps roots (add m deps roots one_less c f).1 d ≡ true
      → In d (
          readers_of f.readers (add m deps roots one_less c f).0.0
          ++ readers_of f.needs (add m deps roots one_less c f).0.1)
  unfolding unsupplied add dependency_supply
  lost_affects f dropped c d indexed i before after =
      let g = (add m deps roots one_less c f).1 in
      let (not_free, had) =
        lacks_nothing m deps (λ t. not (f.targets t == 0)) (supplies m deps roots f) d before in
      elim (lacks_reason m deps (λ t. not (g.targets t == 0)) (supplies m deps roots g) d after) [
        | inl free ↦ absurd (false≢true (sym not_free ∙ free))
        | inr (inl target) ↦
            In-append_right (readers_of f.readers (add m deps roots one_less c f).0.0) (
              In-readers_of f.needs
                (add_each_lost (m.target_rule d).0
                  (keep_read (read_targets m deps) (direct_supply m c).targets) f.targets
                  (was_positive _ had.0) (is_zero_now _ target))
                (indexed.needs_all d i))
        | inr (inr (e, (j, lost))) ↦
            In-append_left (readers_of f.needs (add m deps roots one_less c f).0.1)
              (elim (edge_lost m.output_producer (m.target_rule d).0 (m.target_rule d).1
                (supplies m deps roots g) (supplies m deps roots f) e (had.1 e j) lost) [
                  | inl (was, now) ↦
                      In-readers_of f.readers (file_lost e.from was now)
                        (indexed.readers_from d i e j)
                  | inr (read, (was, now)) ↦
                      In-readers_of f.readers (file_lost e.to was now)
                        (indexed.readers_to d i e j read)
                ])
      ]
    where
      was_positive : (n : ℕ) → not (n == 0) ≡ true → 0 < n
      was_positive n h = ground arith

      is_zero_now : (n : ℕ) → not (n == 0) ≡ false → n ≡ 0
      is_zero_now n h = ground arith

      file_lost :
          (x : Text)
          → (not (member x roots) && ltb 0 (f.files x)) ≡ true
          → (not (member x roots) && ltb 0 ((add m deps roots one_less c f).1.files x)) ≡ false
          → In x (add m deps roots one_less c f).0.0
      file_lost x was now =
          add_each_lost x (keep_read (read_files deps) (direct_supply m c).files) f.files
            (ground arith) (ground arith)
