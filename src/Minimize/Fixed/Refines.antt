-- ===== src/Minimize/Fixed/Refines.antt =====
-- A drop of the fixed supply is one of the exact loop.
use rules_typescript.Base.{
  suc, Bool, true, false, List, ◌∷◌, ◌++◌, any, In, here, there, In-append, inl, inr, ◌≡◌, refl,
  sym, ◌∙◌, false≢true, arith,
}
use rules_typescript.Base.Text.{Text}
use rules_typescript.Base.Map.{Map, NameSet, keys}
use rules_typescript.Minimize.{Memo, Requirement, unsupplied_by}
use rules_typescript.Minimize.Counts.{one_less}
use rules_typescript.Minimize.Fixed.{
  FixedSupply, readers_of, add, unsupplied, index, drop_when, drop,
}
use rules_typescript.Minimize.Fixed.Lacks.{any-In, any_of_In}
use rules_typescript.Minimize.Fixed.Index.{readers_of_In}
use rules_typescript.Minimize.Fixed.Tracking.{
  IsCounting, IsIndexing, unsupplied_agrees, less-IsCounting, more-IsCounting, lost_affects,
}
use rules_typescript.Minimize.Fixed.Lacks.{none_In}
use rules_typescript.Minimize.Fixed.Preserve.{index-IsIndexing, add-IsIndexing, index-IsCounting}
use rules_typescript.Minimize.Fixed.Antitone.{unsupplied_antitone, without_In}

module _ (m : Memo) (deps : Map Requirement) (roots : NameSet) where
  -- What a fixed supply knows of the dependencies that are retained and of those that are dropped.
  pub record Tracks (f : FixedSupply) (retained dropped : List Text) : Type 0 where
    pub counts : IsCounting m deps roots f retained
    pub indexed : IsIndexing m deps roots f dropped
    pub stuck :
        f.blocked ≡ true
        → (d : Text) × ((In d dropped) × (unsupplied_by m deps roots retained d ≡ true))
    pub free :
        f.blocked ≡ false
        → (d : Text) → In d dropped
        → unsupplied_by m deps roots retained d ≡ false

  -- The test of the exact loop.
  abbrev pub is_needed : List Text → List Text → List Text → Text → Bool
  is_needed kept todo dropped c = any (unsupplied_by m deps roots (kept ++ todo)) (c ∷ dropped)

  module _ (f : FixedSupply) (kept todo dropped : List Text) (c : Text)
      (known : (d : Text) → In d (c ∷ dropped) → In d (keys deps))
      (w : Tracks f (kept ++ c ∷ todo) dropped) where
    blocked_needs : f.blocked ≡ true → is_needed kept todo dropped c ≡ true
    blocked_needs stops =
        let (d, (i, lost)) = w.stuck stops in
        any_of_In (unsupplied_by m deps roots (kept ++ todo)) (there i) (
          unsupplied_antitone m deps roots (kept ++ todo) (kept ++ c ∷ todo) d
            (without_In m deps roots kept todo c) lost)

    less_agrees :
        (d : Text)
        → In d (c ∷ dropped)
        → unsupplied m deps roots (add m deps roots one_less c f).1 d
          ≡ unsupplied_by m deps roots (kept ++ todo) d
    less_agrees d i =
        unsupplied_agrees m deps roots (add m deps roots one_less c f).1 (kept ++ todo) d
          (less-IsCounting m deps roots f kept todo c w.counts) (known d i)

    abbrev affected : List Text
    affected =
        c
        ∷ (readers_of f.readers (add m deps roots one_less c f).0.0
            ++ readers_of f.needs (add m deps roots one_less c f).0.1)

    affected_only : (d : Text) → In d affected → In d (c ∷ dropped)
    affected_only d (here e) = here e
    affected_only d (there i) =
        there (elim (In-append (readers_of f.readers (add m deps roots one_less c f).0.0) i) [
          | inl r ↦ let (x, j) = readers_of_In f.readers _ r in w.indexed.readers_only x d j
          | inr n ↦ let (x, j) = readers_of_In f.needs _ n in w.indexed.needs_only x d j
        ])

    needed_affects :
        f.blocked ≡ false
        → is_needed kept todo dropped c ≡ true
        → any (unsupplied m deps roots (add m deps roots one_less c f).1) affected ≡ true
    needed_affects moves h =
        let (d, (i, lost)) = any-In (unsupplied_by m deps roots (kept ++ todo)) (c ∷ dropped) h in
        any_of_In (unsupplied m deps roots (add m deps roots one_less c f).1)
          (place d i (less_agrees d i ∙ lost)) (less_agrees d i ∙ lost)
      where
        place :
            (d : Text)
            → In d (c ∷ dropped)
            → unsupplied m deps roots (add m deps roots one_less c f).1 d ≡ true
            → In d affected
        place d (here e) lost = here e
        place d (there i) lost = there (
            lost_affects m deps roots f dropped c d w.indexed i
              (unsupplied_agrees m deps roots f (kept ++ c ∷ todo) d w.counts (known d (there i))
                ∙ w.free moves d i)
              lost)

    affected_needs :
        any (unsupplied m deps roots (add m deps roots one_less c f).1) affected ≡ true
        → is_needed kept todo dropped c ≡ true
    affected_needs h =
        let (d, (i, lost)) =
          any-In (unsupplied m deps roots (add m deps roots one_less c f).1) affected h in
        any_of_In (unsupplied_by m deps roots (kept ++ todo)) (affected_only d i)
          (sym (less_agrees d (affected_only d i)) ∙ lost)

    affected_agrees :
        f.blocked ≡ false
        → any (unsupplied m deps roots (add m deps roots one_less c f).1) affected
          ≡ is_needed kept todo dropped c
    affected_agrees moves = same_truth _ _ affected_needs (needed_affects moves)
      where
        same_truth : (a b : Bool) → (a ≡ true → b ≡ true) → (b ≡ true → a ≡ true) → a ≡ b
        same_truth a b h k = ground arith

    kept_Tracks :
        f.blocked ≡ false
        → Tracks
            (add m deps roots suc c (add m deps roots one_less c f).1).1
            (kept ++ c ∷ todo)
            dropped
    unfolding add
    kept_Tracks moves = record {
      counts =
          more-IsCounting m deps roots (add m deps roots one_less c f).1 kept todo c
            (less-IsCounting m deps roots f kept todo c w.counts);
      indexed =
          add-IsIndexing m deps roots (add m deps roots one_less c f).1 dropped suc c
            (add-IsIndexing m deps roots f dropped one_less c w.indexed);
      stuck = w.stuck;
      free = w.free;
    }

    dropped_Tracks :
        f.blocked ≡ false
        → is_needed kept todo dropped c ≡ false
        → Tracks
            (index m deps roots c (add m deps roots one_less c f).1)
            (kept ++ todo)
            (c ∷ dropped)
    unfolding add index
    dropped_Tracks moves spare = record {
      counts =
          index-IsCounting m deps roots (add m deps roots one_less c f).1 (kept ++ todo) c
            (less-IsCounting m deps roots f kept todo c w.counts);
      indexed =
          index-IsIndexing m deps roots (add m deps roots one_less c f).1 dropped c
            (add-IsIndexing m deps roots f dropped one_less c w.indexed);
      stuck = λ stops. absurd (false≢true (sym moves ∙ stops));
      free = λ moves' d i. none_In (unsupplied_by m deps roots (kept ++ todo)) i spare;
    }

    abbrev less : FixedSupply
    less = (add m deps roots one_less c f).1

    when_needed :
        (b a : Bool)
        → f.blocked ≡ b
        → any (unsupplied m deps roots less) affected ≡ a
        → is_needed kept todo dropped c ≡ true
        → ((drop_when m deps roots b a c f less).0 ≡ false)
          × Tracks (drop_when m deps roots b a c f less).1 (kept ++ c ∷ todo) dropped
    when_needed true a stops lost h = (refl, w)
    when_needed false true moves lost h = (refl, kept_Tracks moves)
    when_needed false false moves lost h =
        absurd (false≢true (sym lost ∙ (affected_agrees moves ∙ h)))

    when_spare :
        (b a : Bool)
        → f.blocked ≡ b
        → any (unsupplied m deps roots less) affected ≡ a
        → is_needed kept todo dropped c ≡ false
        → ((drop_when m deps roots b a c f less).0 ≡ true)
          × Tracks (drop_when m deps roots b a c f less).1 (kept ++ todo) (c ∷ dropped)
    when_spare true a stops lost h = absurd (false≢true (sym h ∙ blocked_needs stops))
    when_spare false true moves lost h =
        absurd (false≢true (sym h ∙ (sym (affected_agrees moves) ∙ lost)))
    when_spare false false moves lost h = (refl, dropped_Tracks moves h)

    -- A candidate that is needed is kept, and the supply is as it was.
    pub drop_needed :
        is_needed kept todo dropped c ≡ true
        → ((drop m deps roots c f).0 ≡ false)
          × Tracks (drop m deps roots c f).1 (kept ++ c ∷ todo) dropped
    unfolding drop
    drop_needed h = when_needed f.blocked _ refl refl h

    pub drop_spare :
        is_needed kept todo dropped c ≡ false
        → ((drop m deps roots c f).0 ≡ true)
          × Tracks (drop m deps roots c f).1 (kept ++ todo) (c ∷ dropped)
    unfolding drop
    drop_spare h = when_spare f.blocked _ refl refl h
