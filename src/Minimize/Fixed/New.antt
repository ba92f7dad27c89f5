-- ===== src/Minimize/Fixed/New.antt =====
-- A new fixed supply tracks what is retained and dropped.
use rules_typescript.Base.{
  suc, ◌+◌, true, false, ◌||◌, List, [], ◌∷◌, ◌++◌, In, here, there, Bool-cases, ||_true, ||_false,
  ◌⊎◌, inl, inr, ◌≡◌, refl, sym, ◌∙◌, subst, false≢true, arith,
}
use rules_typescript.Base.Text.{Text}
use rules_typescript.Base.Map.{Map, NameSet, keys, member}
use rules_typescript.Minimize.{
  Memo, Requirement, direct_supply, all_files, all_targets, unsupplied_by,
}
use rules_typescript.Minimize.Counts.{count, count-append, add_each-suc}
use rules_typescript.Minimize.Fixed.{
  FixedSupply, read_files, read_targets, keep_read, dependency_supply, add, unsupplied, index,
}
use rules_typescript.Minimize.Fixed.{index_dropped, add_retained, new_fixed_supply, no_supply}
use rules_typescript.Minimize.Fixed.Tracking.{IsIndexing, count-keep_read, unsupplied_agrees}
use rules_typescript.Minimize.Fixed.Preserve.{index-IsIndexing, add-IsIndexing, index-IsCounting}
use rules_typescript.Base.Sort.{insert_sorted, sort_strings, sort_strings_iff, text_le}
use rules_typescript.Minimize.Fixed.Refines.{Tracks}

module _ (m : Memo) (deps : Map Requirement) (roots : NameSet) where
  files-insert :
      (x s : Text) (ts : List Text)
      → count x (all_files m (insert_sorted s ts)) ≡ count x (all_files m (s ∷ ts))
  unfolding insert_sorted all_files
  files-insert x s [] = refl
  files-insert x s (t ∷ ts) = elim (Bool-cases (text_le s t)) [
    | inl le ↦ rw le refl
    | inr gt ↦ rw gt (
        omega (
          arith,
          files-insert x s ts,
          count-append x (direct_supply m t).files (all_files m (insert_sorted s ts)),
          count-append x (direct_supply m t).files (all_files m ts),
          count-append x (direct_supply m s).files (all_files m ts),
          count-append x (direct_supply m s).files ((direct_supply m t).files ++ all_files m ts),
        ))
  ]

  files-sort :
      (x : Text) (ds : List Text)
      → count x (all_files m (sort_strings ds)) ≡ count x (all_files m ds)
  unfolding sort_strings all_files
  files-sort x [] = refl
  files-sort x (d ∷ ds) = omega (
    arith,
    files-insert x d (sort_strings ds),
    files-sort x ds,
    count-append x (direct_supply m d).files (all_files m (sort_strings ds)),
    count-append x (direct_supply m d).files (all_files m ds),
  )

  targets-insert :
      (x s : Text) (ts : List Text)
      → count x (all_targets m (insert_sorted s ts)) ≡ count x (all_targets m (s ∷ ts))
  unfolding insert_sorted all_targets
  targets-insert x s [] = refl
  targets-insert x s (t ∷ ts) = elim (Bool-cases (text_le s t)) [
    | inl le ↦ rw le refl
    | inr gt ↦ rw gt (
        omega (
          arith,
          targets-insert x s ts,
          count-append x (direct_supply m t).targets (all_targets m (insert_sorted s ts)),
          count-append x (direct_supply m t).targets (all_targets m ts),
          count-append x (direct_supply m s).targets (all_targets m ts),
          count-append x (direct_supply m s).targets
              ((direct_supply m t).targets ++ all_targets m ts),
        ))
  ]

  targets-sort :
      (x : Text) (ds : List Text)
      → count x (all_targets m (sort_strings ds)) ≡ count x (all_targets m ds)
  unfolding sort_strings all_targets
  targets-sort x [] = refl
  targets-sort x (d ∷ ds) = omega (
    arith,
    targets-insert x d (sort_strings ds),
    targets-sort x ds,
    count-append x (direct_supply m d).targets (all_targets m (sort_strings ds)),
    count-append x (direct_supply m d).targets (all_targets m ds),
  )

  add_retained_files :
      (x : Text) (ds : List Text) (f : FixedSupply)
      → member x (read_files deps) ≡ true
      → (add_retained m deps roots ds f).files x ≡ f.files x + count x (all_files m ds)
  unfolding add_retained all_files add dependency_supply
  add_retained_files x [] f read = unfold count in omega arith
  add_retained_files x (d ∷ ds) f read = omega (
    arith,
    add_retained_files x ds (add m deps roots suc d f).1 read,
    add_each-suc x (keep_read (read_files deps) (direct_supply m d).files) f.files,
    count-keep_read x (read_files deps) (direct_supply m d).files read,
    count-append x (direct_supply m d).files (all_files m ds),
  )

  add_retained_targets :
      (x : Text) (ds : List Text) (f : FixedSupply)
      → member x (read_targets m deps) ≡ true
      → (add_retained m deps roots ds f).targets x ≡ f.targets x + count x (all_targets m ds)
  unfolding add_retained all_targets add dependency_supply
  add_retained_targets x [] f read = unfold count in omega arith
  add_retained_targets x (d ∷ ds) f read = omega (
    arith,
    add_retained_targets x ds (add m deps roots suc d f).1 read,
    add_each-suc x (keep_read (read_targets m deps) (direct_supply m d).targets) f.targets,
    count-keep_read x (read_targets m deps) (direct_supply m d).targets read,
    count-append x (direct_supply m d).targets (all_targets m ds),
  )

  add_retained-IsIndexing :
      (ds dropped : List Text) (f : FixedSupply)
      → IsIndexing m deps roots f dropped
      → IsIndexing m deps roots (add_retained m deps roots ds f) dropped
  unfolding add_retained
  add_retained-IsIndexing [] dropped f h = h
  add_retained-IsIndexing (d ∷ ds) dropped f h =
      add_retained-IsIndexing ds dropped _ (add-IsIndexing m deps roots f dropped suc d h)

  add_retained-blocked :
      (ds : List Text) (f : FixedSupply) → (add_retained m deps roots ds f).blocked ≡ f.blocked
  unfolding add_retained add
  add_retained-blocked [] f = refl
  add_retained-blocked (d ∷ ds) f = add_retained-blocked ds _

  retained_Tracks :
      (retained : List Text)
      → Tracks m deps roots
          (add_retained m deps roots (sort_strings retained) (no_supply m deps roots))
          retained
          []
  retained_Tracks retained = record {
    counts = record {
      files_of = λ x read. omega (
        arith,
        add_retained_files x (sort_strings retained) (no_supply m deps roots) read,
        files-sort x retained,
      );
      targets_of = λ x read. omega (
        arith,
        add_retained_targets x (sort_strings retained) (no_supply m deps roots) read,
        targets-sort x retained,
      );
    };
    indexed = add_retained-IsIndexing (sort_strings retained) [] (no_supply m deps roots) (record {
      readers_only = λ x d i. i;
      needs_only = λ x d i. i;
      needs_all = λ d i. elim i [ ];
      readers_from = λ d i. elim i [ ];
      readers_to = λ d i. elim i [ ];
    });
    stuck = λ h. absurd (
        false≢true
          (sym (add_retained-blocked (sort_strings retained) (no_supply m deps roots)) ∙ h));
    free = λ h d i. elim i [ ];
  }

  -- One round of `newFixedSupply` over the dropped dependencies.
  indexed_Tracks :
      (f : FixedSupply) (retained dropped : List Text) (c : Text)
      → In c (keys deps)
      → Tracks m deps roots f retained dropped
      → Tracks m deps roots
          (record (index m deps roots c f) {
            blocked =
                (index m deps roots c f).blocked
                || unsupplied m deps roots (index m deps roots c f) c;
          })
          retained
          (c ∷ dropped)
  unfolding index
  indexed_Tracks f retained dropped c known w =
      let i = index-IsIndexing m deps roots f dropped c w.indexed in
      let agrees =
        unsupplied_agrees m deps roots (index m deps roots c f) retained c
          (index-IsCounting m deps roots f retained c w.counts) known in
      record {
        counts = record { files_of = w.counts.files_of; targets_of = w.counts.targets_of };
        indexed = record {
          readers_only = i.readers_only;
          needs_only = i.needs_only;
          needs_all = i.needs_all;
          readers_from = i.readers_from;
          readers_to = i.readers_to;
        };
        stuck = λ h.
            elim (||_true f.blocked (unsupplied m deps roots (index m deps roots c f) c) h) [
              | inl stops ↦ let (d, (j, lost)) = w.stuck stops in (d, (there j, lost))
              | inr lost ↦ (c, (here refl, sym agrees ∙ lost))
            ];
        free = λ h d j. freed agrees h d j;
      }
    where
      freed :
          unsupplied m deps roots (index m deps roots c f) c ≡ unsupplied_by m deps roots retained c
          → (f.blocked || unsupplied m deps roots (index m deps roots c f) c) ≡ false
          → (d : Text) → In d (c ∷ dropped)
          → unsupplied_by m deps roots retained d ≡ false
      freed agrees h d (here e) =
          subst (λ k. unsupplied_by m deps roots retained k ≡ false) (sym e)
            (sym agrees ∙ (||_false f.blocked _ h).1)
      freed agrees h d (there j) = w.free (||_false f.blocked _ h).0 d j

  -- The dropped dependencies in the order that the index takes them.
  abbrev pushed : List Text → List Text → List Text
  pushed [] dropped = dropped
  pushed (c ∷ cs) dropped = pushed cs (c ∷ dropped)

  pushed_In :
      {d : Text} (cs dropped : List Text) → In d (pushed cs dropped) → (In d cs) ⊎ (In d dropped)
  pushed_In [] dropped i = inr i
  pushed_In (c ∷ cs) dropped i = elim (pushed_In cs (c ∷ dropped) i) [
    | inl j ↦ inl (there j)
    | inr (here e) ↦ inl (here e)
    | inr (there j) ↦ inr j
  ]

  In-pushed_old : {d : Text} (cs dropped : List Text) → In d dropped → In d (pushed cs dropped)
  In-pushed_old [] dropped i = i
  In-pushed_old (c ∷ cs) dropped i = In-pushed_old cs (c ∷ dropped) (there i)

  In-pushed : {d : Text} (cs dropped : List Text) → In d cs → In d (pushed cs dropped)
  In-pushed [] dropped i = elim i [ ]
  In-pushed (c ∷ cs) dropped (here e) = In-pushed_old cs (c ∷ dropped) (here e)
  In-pushed (c ∷ cs) dropped (there i) = In-pushed cs (c ∷ dropped) i

  index_dropped-Tracks :
      (cs dropped retained : List Text) (f : FixedSupply)
      → ((d : Text) → In d cs → In d (keys deps))
      → Tracks m deps roots f retained dropped
      → Tracks m deps roots (index_dropped m deps roots cs f) retained (pushed cs dropped)
  unfolding index_dropped
  index_dropped-Tracks [] dropped retained f known w = w
  index_dropped-Tracks (c ∷ cs) dropped retained f known w =
      index_dropped-Tracks cs (c ∷ dropped) retained _ (λ d i. known d (there i))
        (indexed_Tracks f retained dropped c (known c (here refl)) w)

  Tracks-same :
      (f : FixedSupply) (retained these those : List Text)
      → ((d : Text) → In d these → In d those)
      → ((d : Text) → In d those → In d these)
      → Tracks m deps roots f retained these
      → Tracks m deps roots f retained those
  Tracks-same f retained these those to from w = record {
    counts = w.counts;
    indexed = record {
      readers_only = λ x d i. to d (w.indexed.readers_only x d i);
      needs_only = λ x d i. to d (w.indexed.needs_only x d i);
      needs_all = λ d i. w.indexed.needs_all d (from d i);
      readers_from = λ d i. w.indexed.readers_from d (from d i);
      readers_to = λ d i. w.indexed.readers_to d (from d i);
    };
    stuck = λ h. let (d, (i, lost)) = w.stuck h in (d, (to d i, lost));
    free = λ h d i. w.free h d (from d i);
  }

  pub new_fixed_supply-Tracks :
      (retained dropped : List Text)
      → ((d : Text) → In d dropped → In d (keys deps))
      → Tracks m deps roots (new_fixed_supply m deps roots retained dropped) retained dropped
  unfolding new_fixed_supply
  new_fixed_supply-Tracks retained dropped known =
      Tracks-same _ retained (pushed (sort_strings dropped) []) dropped
        (λ d i. elim (pushed_In (sort_strings dropped) [] i) [
          | inl j ↦ (sort_strings_iff dropped).0 j
          | inr j ↦ elim j [ ]
        ])
        (λ d i. In-pushed (sort_strings dropped) [] ((sort_strings_iff dropped).1 i))
        (index_dropped-Tracks (sort_strings dropped) [] retained _
          (λ d i. known d ((sort_strings_iff dropped).0 i)) (retained_Tracks retained))
