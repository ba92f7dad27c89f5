-- ===== src/Minimize/Fixed/Antitone.antt =====
-- Fewer dependencies supply less.
use rules_typescript.Base.{
  Bool, true, false, not, ◌&&◌, List, [], ◌∷◌, ◌++◌, In, here, there, In-append, In-append_left,
  In-append_right, inl, inr, ◌≡◌, refl, subst,
}
use rules_typescript.Base.Text.{Text}
use rules_typescript.Base.Map.{Map, NameSet, member}
use rules_typescript.Minimize.{
  Memo, Requirement, direct_supply, all_files, all_targets, unsupplied_by,
}
use rules_typescript.Minimize.Fixed.Lacks.{member_of_In, In_of_member, lacks_antitone}

module _ (m : Memo) (deps : Map Requirement) (roots : NameSet) where
  files_of :
      {x d : Text} (ds : List Text)
      → In d ds
      → In x (direct_supply m d).files
      → In x (all_files m ds)
  unfolding all_files
  files_of [] i j = elim i [ ]
  files_of {x} (e ∷ ds) (here same) j =
      In-append_left (all_files m ds) (subst (λ k. In x (direct_supply m k).files) same j)
  files_of (e ∷ ds) (there i) j = In-append_right (direct_supply m e).files (files_of ds i j)

  files_subset :
      {x : Text} (small big : List Text)
      → ((d : Text) → In d small → In d big)
      → In x (all_files m small)
      → In x (all_files m big)
  unfolding all_files
  files_subset [] big sub i = elim i [ ]
  files_subset (d ∷ small) big sub i = elim (In-append (direct_supply m d).files i) [
    | inl mine ↦ files_of big (sub d (here refl)) mine
    | inr other ↦ files_subset small big (λ e j. sub e (there j)) other
  ]

  targets_of :
      {x d : Text} (ds : List Text)
      → In d ds
      → In x (direct_supply m d).targets
      → In x (all_targets m ds)
  unfolding all_targets
  targets_of [] i j = elim i [ ]
  targets_of {x} (e ∷ ds) (here same) j =
      In-append_left (all_targets m ds) (subst (λ k. In x (direct_supply m k).targets) same j)
  targets_of (e ∷ ds) (there i) j = In-append_right (direct_supply m e).targets (targets_of ds i j)

  targets_subset :
      {x : Text} (small big : List Text)
      → ((d : Text) → In d small → In d big)
      → In x (all_targets m small)
      → In x (all_targets m big)
  unfolding all_targets
  targets_subset [] big sub i = elim i [ ]
  targets_subset (d ∷ small) big sub i = elim (In-append (direct_supply m d).targets i) [
    | inl mine ↦ targets_of big (sub d (here refl)) mine
    | inr other ↦ targets_subset small big (λ e j. sub e (there j)) other
  ]

  -- Fewer dependencies supply less.
  pub unsupplied_antitone :
      (small big : List Text) (dep : Text)
      → ((d : Text) → In d small → In d big)
      → unsupplied_by m deps roots big dep ≡ true
      → unsupplied_by m deps roots small dep ≡ true
  unfolding unsupplied_by
  unsupplied_antitone small big dep sub h =
      lacks_antitone m deps (λ t. member t (all_targets m small))
        (λ t. member t (all_targets m big))
        (λ file. not (member file roots) && member file (all_files m small))
        (λ file. not (member file roots) && member file (all_files m big)) dep
        (λ t i.
          member_of_In (targets_subset small big sub (In_of_member t (all_targets m small) i)))
        (λ file i.
          and_then_more (not (member file roots)) _ _
            (λ j.
              member_of_In (files_subset small big sub (In_of_member file (all_files m small) j)))
            i)
        h
    where
      and_then_more : (b p q : Bool) → (p ≡ true → q ≡ true) → (b && p) ≡ true → (b && q) ≡ true
      and_then_more true p q k l = k l
      and_then_more false p q k l = l

  pub without_In :
      (kept todo : List Text) (c d : Text) → In d (kept ++ todo) → In d (kept ++ c ∷ todo)
  without_In [] todo c d i = there i
  without_In (k ∷ kept) todo c d (here e) = here e
  without_In (k ∷ kept) todo c d (there i) = there (without_In kept todo c d i)
