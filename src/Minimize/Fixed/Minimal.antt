-- ===== src/Minimize/Fixed/Minimal.antt =====
-- What `minimizeDependencies` keeps suffices, and none of it can be spared.
use rules_typescript.Base.{
  Bool, true, false, List, [], ◌∷◌, ◌++◌, any, In, here, there, In-append, In-append_left,
  In-append_right, Bool-cases, ◌⊎◌, inl, inr, ◌≡◌, refl, sym, ◌∙◌, ap, subst,
}
use rules_typescript.Base.Text.{Text}
use rules_typescript.Base.Map.{Map, NameSet, keys}
use rules_typescript.Minimize.{Memo, Requirement, unsupplied_by}
use rules_typescript.Minimize.Fixed.Lacks.{any-In, any_of_In}
use rules_typescript.Minimize.Fixed.Lacks.{none_In}
use rules_typescript.Minimize.Fixed.Antitone.{unsupplied_antitone, without_In}
use rules_typescript.Base.Sort.{sort_strings, sort_strings_iff}
use rules_typescript.Base.{append_assoc, append-nil}
use rules_typescript.Minimize.{exact_loop}
use rules_typescript.Minimize.Fixed.{minimize_dependencies}
use rules_typescript.Minimize.Fixed.Refines.{is_needed}
use rules_typescript.Minimize.Fixed.Antitone.{unsupplied_antitone, without_In}
use rules_typescript.Minimize.Fixed.Loop.{exact_kept, exact_dropped, minimize_dependencies_refines}

-- A list with one of its members taken out.
pub data Without : List Text → Text → List Text → Type 0 where
  first : {c : Text} {ks : List Text} → Without (c ∷ ks) c ks
  later : {k c : Text} {ks rest : List Text} → Without ks c rest → Without (k ∷ ks) c (k ∷ rest)

last_Without :
    (kept : List Text) (c d : Text) (rest : List Text)
    → Without (kept ++ c ∷ []) d rest
    → ((less : List Text) × (Without kept d less × (rest ≡ less ++ c ∷ [])))
      ⊎ ((d ≡ c) × (rest ≡ kept))
last_Without [] c d rest first = inr (refl, refl)
last_Without [] c d rest (later w) = elim w [ ]
last_Without (k ∷ kept) c d rest first = inl (kept, (first, refl))
last_Without (k ∷ kept) c d rest (later w) = elim (last_Without kept c d _ w) [
  | inl (less, (v, e)) ↦ inl (k ∷ less, (later v, ap (λ ds. k ∷ ds) e))
  | inr (same, e) ↦ inr (same, ap (λ ds. k ∷ ds) e)
]

module _ (m : Memo) (deps : Map Requirement) (roots : NameSet) where
  exact_loop_supplies :
      (kept dropped todo : List Text)
      → ((d : Text) → In d dropped → unsupplied_by m deps roots (kept ++ todo) d ≡ false)
      → (d : Text) → In d (exact_loop m deps roots kept dropped todo).1
      → unsupplied_by m deps roots (exact_loop m deps roots kept dropped todo).0 d ≡ false
  unfolding exact_loop
  exact_loop_supplies kept dropped [] h =
      λ d i. subst (λ ds. unsupplied_by m deps roots ds d ≡ false) (append-nil kept) (h d i)
  exact_loop_supplies kept dropped (c ∷ todo) h =
      elim (Bool-cases (is_needed m deps roots kept todo dropped c)) [
        | inl needed ↦
            subst
              (λ (r : List Text × List Text).
                (d : Text) → In d r.1 → unsupplied_by m deps roots r.0 d ≡ false)
              (sym (exact_kept m deps roots kept dropped todo c needed))
              (exact_loop_supplies (kept ++ c ∷ []) dropped todo (λ d i.
                subst (λ ds. unsupplied_by m deps roots ds d ≡ false)
                  (sym (append_assoc kept (c ∷ []) todo)) (h d i)))
        | inr spare ↦
            subst
              (λ (r : List Text × List Text).
                (d : Text) → In d r.1 → unsupplied_by m deps roots r.0 d ≡ false)
              (sym (exact_dropped m deps roots kept dropped todo c spare))
              (exact_loop_supplies kept (c ∷ dropped) todo
                (λ d i. none_In (unsupplied_by m deps roots (kept ++ todo)) i spare))
      ]

  -- Each candidate is kept or dropped.
  exact_loop_covers :
      (kept dropped todo : List Text) (d : Text)
      → (In d (kept ++ todo)) ⊎ (In d dropped)
      → (In d (exact_loop m deps roots kept dropped todo).0)
        ⊎ (In d (exact_loop m deps roots kept dropped todo).1)
  unfolding exact_loop
  exact_loop_covers kept dropped [] d h =
      subst (λ ds. (In d ds) ⊎ (In d dropped)) (append-nil kept) h
  exact_loop_covers kept dropped (c ∷ todo) d h =
      elim (Bool-cases (is_needed m deps roots kept todo dropped c)) [
        | inl needed ↦
            subst (λ (r : List Text × List Text). (In d r.0) ⊎ (In d r.1))
              (sym (exact_kept m deps roots kept dropped todo c needed))
              (exact_loop_covers (kept ++ c ∷ []) dropped todo d (
                subst (λ ds. (In d ds) ⊎ (In d dropped)) (sym (append_assoc kept (c ∷ []) todo)) h))
        | inr spare ↦
            subst (λ (r : List Text × List Text). (In d r.0) ⊎ (In d r.1))
              (sym (exact_dropped m deps roots kept dropped todo c spare))
              (exact_loop_covers kept (c ∷ dropped) todo d (moved h))
      ]
    where
      moved :
          (In d (kept ++ c ∷ todo)) ⊎ (In d dropped) → (In d (kept ++ todo)) ⊎ (In d (c ∷ dropped))
      moved (inr i) = inr (there i)
      moved (inl i) = elim (In-append kept i) [
        | inl k ↦ inl (In-append_left todo k)
        | inr (here e) ↦ inr (here e)
        | inr (there t) ↦ inl (In-append_right kept t)
      ]

  -- No member of a list can be taken out: a dropped dependency or the member itself would lack
  -- something.
  abbrev pub NoneSpare : List Text → List Text → List Text → Type 0
  NoneSpare kept dropped todo =
      (d : Text) (rest : List Text)
      → Without kept d rest
      → any (unsupplied_by m deps roots (rest ++ todo)) (d ∷ dropped) ≡ true

  kept-NoneSpare :
      (kept dropped todo : List Text) (c : Text)
      → any (unsupplied_by m deps roots (kept ++ todo)) (c ∷ dropped) ≡ true
      → NoneSpare kept dropped (c ∷ todo)
      → NoneSpare (kept ++ c ∷ []) dropped todo
  kept-NoneSpare kept dropped todo c needed h d rest w = elim (last_Without kept c d rest w) [
    | inl (less, (v, e)) ↦
        subst (λ ds. any (unsupplied_by m deps roots ds) (d ∷ dropped) ≡ true)
          (sym (ap (λ ds. ds ++ todo) e ∙ append_assoc less (c ∷ []) todo)) (h d less v)
    | inr (same, e) ↦
        subst (λ k. any (unsupplied_by m deps roots (rest ++ todo)) (k ∷ dropped) ≡ true) (sym same)
          (subst (λ ds. any (unsupplied_by m deps roots (ds ++ todo)) (c ∷ dropped) ≡ true) (sym e)
            needed)
  ]

  dropped-NoneSpare :
      (kept dropped todo : List Text) (c : Text)
      → NoneSpare kept dropped (c ∷ todo)
      → NoneSpare kept (c ∷ dropped) todo
  dropped-NoneSpare kept dropped todo c h d rest w =
      let (e, (i, lost)) =
        any-In (unsupplied_by m deps roots (rest ++ c ∷ todo)) (d ∷ dropped) (h d rest w) in
      any_of_In (unsupplied_by m deps roots (rest ++ todo)) (longer i) (
        unsupplied_antitone m deps roots (rest ++ todo) (rest ++ c ∷ todo) e
          (without_In m deps roots rest todo c) lost)
    where
      longer : {e : Text} → In e (d ∷ dropped) → In e (d ∷ c ∷ dropped)
      longer (here same) = here same
      longer (there i) = there (there i)

  exact_loop-NoneSpare :
      (kept dropped todo : List Text)
      → NoneSpare kept dropped todo
      → NoneSpare
          (exact_loop m deps roots kept dropped todo).0
          (exact_loop m deps roots kept dropped todo).1
          []
  unfolding exact_loop
  exact_loop-NoneSpare kept dropped [] h = h
  exact_loop-NoneSpare kept dropped (c ∷ todo) h =
      elim (Bool-cases (is_needed m deps roots kept todo dropped c)) [
        | inl needed ↦
            subst (λ (r : List Text × List Text). NoneSpare r.0 r.1 [])
              (sym (exact_kept m deps roots kept dropped todo c needed))
              (exact_loop-NoneSpare (kept ++ c ∷ []) dropped todo
                (kept-NoneSpare kept dropped todo c needed h))
        | inr spare ↦
            subst (λ (r : List Text × List Text). NoneSpare r.0 r.1 [])
              (sym (exact_dropped m deps roots kept dropped todo c spare))
              (exact_loop-NoneSpare kept (c ∷ dropped) todo
                (dropped-NoneSpare kept dropped todo c h))
      ]

-- Each dependency is kept or lacks nothing: those kept supply its target and what its edges read,
-- and nothing requires it unconditionally.
pub minimize_dependencies_sound :
    (m : Memo) (deps : Map Requirement) (roots : NameSet) (settled : List Text → List Text → Bool)
    (d : Text)
    → In d (keys deps)
    → (In d (minimize_dependencies m deps roots settled).0)
      ⊎ (unsupplied_by m deps roots (minimize_dependencies m deps roots settled).0 d ≡ false)
minimize_dependencies_sound m deps roots settled d i =
    subst (λ (r : List Text × List Text). (In d r.0) ⊎ (unsupplied_by m deps roots r.0 d ≡ false))
      (sym (minimize_dependencies_refines m deps roots settled))
      (elim (exact_loop_covers m deps roots [] [] (sort_strings (keys deps)) d
        (inl ((sort_strings_iff (keys deps)).1 i))) [
          | inl kept ↦ inl kept
          | inr dropped ↦ inr (
              exact_loop_supplies m deps roots [] [] (sort_strings (keys deps)) (λ e j. elim j [ ])
                d dropped)
        ])

-- No dependency that minimization keeps can be spared: without it, it or one that was dropped
-- lacks something.
pub minimize_dependencies_minimal :
    (m : Memo) (deps : Map Requirement) (roots : NameSet) (settled : List Text → List Text → Bool)
    (d : Text) (rest : List Text)
    → Without (minimize_dependencies m deps roots settled).0 d rest
    → any (unsupplied_by m deps roots rest) (d ∷ (minimize_dependencies m deps roots settled).1)
      ≡ true
minimize_dependencies_minimal m deps roots settled d rest w =
    subst
      (λ ds.
        any (unsupplied_by m deps roots ds) (d ∷ (minimize_dependencies m deps roots settled).1)
        ≡ true)
      (append-nil rest)
      (subst (λ (r : List Text × List Text). NoneSpare m deps roots r.0 r.1 [])
        (sym (minimize_dependencies_refines m deps roots settled))
        (exact_loop-NoneSpare m deps roots [] [] (sort_strings (keys deps)) (λ e r v. elim v [ ])) d
        rest w)
