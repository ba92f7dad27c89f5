-- ===== src/Minimize/Fixed/Loop.antt =====
-- The loop over a fixed supply is the exact loop.
use rules_typescript.Base.{
  Bool, true, false, Option, none, some, List, [], ◌∷◌, ◌++◌, if◌then◌else◌, In, here, there,
  Bool-cases, Option-cases, inl, inr, ◌≡◌, refl, sym, ◌∙◌, subst,
}
use rules_typescript.Base.Text.{Text}
use rules_typescript.Base.Map.{Map, NameSet, keys}
use rules_typescript.Minimize.{Memo, Requirement}
use rules_typescript.Minimize.Fixed.{FixedSupply, drop}
use rules_typescript.Minimize.Fixed.{new_fixed_supply}
use rules_typescript.Base.Sort.{sort_strings, sort_strings_iff}
use rules_typescript.Base.{append_assoc}
use rules_typescript.Minimize.{exact_loop}
use rules_typescript.Minimize.Fixed.{minimize_loop, supply_at, minimize_dependencies}
use rules_typescript.Minimize.Fixed.Refines.{Tracks, is_needed, drop_needed, drop_spare}
use rules_typescript.Minimize.Fixed.New.{new_fixed_supply-Tracks}

module _ (m : Memo) (deps : Map Requirement) (roots : NameSet) where
  abbrev TracksAny : Option FixedSupply → List Text → List Text → Type 0
  TracksAny none retained dropped = Unit
  TracksAny (some f) retained dropped = Tracks m deps roots f retained dropped

  abbrev AreKeys : List Text → Type 0
  AreKeys ds = (d : Text) → In d ds → In d (keys deps)

  pub exact_kept :
      (kept dropped todo : List Text) (c : Text)
      → is_needed m deps roots kept todo dropped c ≡ true
      → exact_loop m deps roots kept dropped (c ∷ todo)
        ≡ exact_loop m deps roots (kept ++ c ∷ []) dropped todo
  unfolding exact_loop
  exact_kept kept dropped todo c h = rw (h, exact_loop) refl

  pub exact_dropped :
      (kept dropped todo : List Text) (c : Text)
      → is_needed m deps roots kept todo dropped c ≡ false
      → exact_loop m deps roots kept dropped (c ∷ todo)
        ≡ exact_loop m deps roots kept (c ∷ dropped) todo
  unfolding exact_loop
  exact_dropped kept dropped todo c h = rw (h, exact_loop) refl

  module _ (settled : List Text → List Text → Bool) where
    fixed_kept :
        (supply : Option FixedSupply) (kept dropped todo : List Text) (c : Text) (f : FixedSupply)
        → supply_at m deps roots settled supply kept dropped (c ∷ todo) ≡ some f
        → (drop m deps roots c f).0 ≡ false
        → minimize_loop m deps roots settled supply kept dropped (c ∷ todo)
          ≡ minimize_loop m deps roots settled
              (some (drop m deps roots c f).1)
              (kept ++ c ∷ [])
              dropped
              todo
    unfolding minimize_loop
    fixed_kept supply kept dropped todo c f e h = rw (e, h, minimize_loop) refl

    fixed_dropped :
        (supply : Option FixedSupply) (kept dropped todo : List Text) (c : Text) (f : FixedSupply)
        → supply_at m deps roots settled supply kept dropped (c ∷ todo) ≡ some f
        → (drop m deps roots c f).0 ≡ true
        → minimize_loop m deps roots settled supply kept dropped (c ∷ todo)
          ≡ minimize_loop m deps roots settled
              (some (drop m deps roots c f).1)
              kept
              (c ∷ dropped)
              todo
    unfolding minimize_loop
    fixed_dropped supply kept dropped todo c f e h = rw (e, h, minimize_loop) refl

    unsettled_kept :
        (supply : Option FixedSupply) (kept dropped todo : List Text) (c : Text)
        → supply_at m deps roots settled supply kept dropped (c ∷ todo) ≡ none
        → is_needed m deps roots kept todo dropped c ≡ true
        → minimize_loop m deps roots settled supply kept dropped (c ∷ todo)
          ≡ minimize_loop m deps roots settled none (kept ++ c ∷ []) dropped todo
    unfolding minimize_loop
    unsettled_kept supply kept dropped todo c e h = rw (e, h, minimize_loop) refl

    unsettled_dropped :
        (supply : Option FixedSupply) (kept dropped todo : List Text) (c : Text)
        → supply_at m deps roots settled supply kept dropped (c ∷ todo) ≡ none
        → is_needed m deps roots kept todo dropped c ≡ false
        → minimize_loop m deps roots settled supply kept dropped (c ∷ todo)
          ≡ minimize_loop m deps roots settled none kept (c ∷ dropped) todo
    unfolding minimize_loop
    unsettled_dropped supply kept dropped todo c e h = rw (e, h, minimize_loop) refl

    supply_at_Tracks :
        (supply : Option FixedSupply) (kept dropped todo : List Text)
        → AreKeys dropped
        → TracksAny supply (kept ++ todo) dropped
        → TracksAny (supply_at m deps roots settled supply kept dropped todo) (kept ++ todo) dropped
    supply_at_Tracks (some f) kept dropped todo known w = w
    supply_at_Tracks none kept dropped todo known w = either (settled kept todo)
      where
        either :
            (b : Bool)
            → TracksAny
                (if b then some (new_fixed_supply m deps roots (kept ++ todo) dropped) else none)
                (kept ++ todo)
                dropped
        either true = new_fixed_supply-Tracks m deps roots (kept ++ todo) dropped known
        either false = tt

    shifted :
        (supply : Option FixedSupply) (kept dropped todo : List Text) (c : Text)
        → TracksAny supply (kept ++ c ∷ todo) dropped
        → TracksAny supply ((kept ++ c ∷ []) ++ todo) dropped
    shifted supply kept dropped todo c w =
        subst (λ ds. TracksAny supply ds dropped) (sym (append_assoc kept (c ∷ []) todo)) w

    also_known :
        (dropped todo : List Text) (c : Text)
        → AreKeys (c ∷ todo)
        → AreKeys dropped
        → AreKeys (c ∷ dropped)
    also_known dropped todo c known gone d (here e) = known d (here e)
    also_known dropped todo c known gone d (there i) = gone d i

    loop_refines :
        (supply : Option FixedSupply) (kept dropped todo : List Text)
        → AreKeys todo
        → AreKeys dropped
        → TracksAny supply (kept ++ todo) dropped
        → minimize_loop m deps roots settled supply kept dropped todo
          ≡ exact_loop m deps roots kept dropped todo
    unfolding minimize_loop exact_loop
    loop_refines supply kept dropped [] known gone w = refl
    loop_refines supply kept dropped (c ∷ todo) known gone w =
        let u = supply_at_Tracks supply kept dropped (c ∷ todo) gone w in
        let later : AreKeys todo = λ d i. known d (there i) in
        let more = also_known dropped todo c known gone in
        elim (Option-cases (supply_at m deps roots settled supply kept dropped (c ∷ todo))) [
          | inl e ↦ elim (Bool-cases (is_needed m deps roots kept todo dropped c)) [
            | inl h ↦
                unsettled_kept supply kept dropped todo c e h
                ∙ (loop_refines none (kept ++ c ∷ []) dropped todo later gone tt
                    ∙ sym (exact_kept kept dropped todo c h))
            | inr h ↦
                unsettled_dropped supply kept dropped todo c e h
                ∙ (loop_refines none kept (c ∷ dropped) todo later more tt
                    ∙ sym (exact_dropped kept dropped todo c h))
          ]
          | inr (f, e) ↦
              let v : Tracks m deps roots f (kept ++ c ∷ todo) dropped =
                subst (λ o. TracksAny o (kept ++ c ∷ todo) dropped) e u in
              elim (Bool-cases (is_needed m deps roots kept todo dropped c)) [
                | inl h ↦
                    let step = drop_needed m deps roots f kept todo dropped c more v h in
                    fixed_kept supply kept dropped todo c f e step.0
                    ∙ (loop_refines (some (drop m deps roots c f).1) (kept ++ c ∷ []) dropped todo
                          later gone
                          (shifted (some (drop m deps roots c f).1) kept dropped todo c step.1)
                        ∙ sym (exact_kept kept dropped todo c h))
                | inr h ↦
                    let step = drop_spare m deps roots f kept todo dropped c more v h in
                    fixed_dropped supply kept dropped todo c f e step.0
                    ∙ (loop_refines (some (drop m deps roots c f).1) kept (c ∷ dropped) todo later
                          more step.1
                        ∙ sym (exact_dropped kept dropped todo c h))
              ]
        ]

-- Whenever the owners settle, the counts and the index of the fixed supply decide as the exact test
-- does: the dependencies that are kept and those that are dropped are those of the loop that sums
-- up, for each candidate, all that the others supply.
pub minimize_dependencies_refines :
    (m : Memo) (deps : Map Requirement) (roots : NameSet) (settled : List Text → List Text → Bool)
    → minimize_dependencies m deps roots settled
      ≡ exact_loop m deps roots [] [] (sort_strings (keys deps))
unfolding minimize_dependencies
minimize_dependencies_refines m deps roots settled =
    loop_refines m deps roots settled none [] [] (sort_strings (keys deps))
      (λ d i. (sort_strings_iff (keys deps)).0 i) (λ d i. elim i [ ]) tt
