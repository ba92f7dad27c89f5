-- ===== src/Minimize/Fixed/Lacks.antt =====
-- What a dependency lacks, by what is supplied.
use rules_typescript.Base.{
  Bool, true, false, not, ◌&&◌, ◌||◌, Option, List, [], ◌∷◌, any, if◌then◌else◌, In, here, there,
  Bool-cases, ||_true, ||_false, ◌⊎◌, inl, inr, ◌≡◌, refl, sym, false≢true, arith,
}
use rules_typescript.Base.Text.{Text, text_eq, text_eq_iff, eq_of_text_eq}
use rules_typescript.Base.Map.{Map, NameSet, lookup, member}
use rules_typescript.Emission.{Rule}
use rules_typescript.ExplainFiles.{Edge}
use rules_typescript.Minimize.{
  Memo, Producer, Requirement, or_nothing, required_edge_unsupplied, codegen_edge_unsupplied,
  static_edge_supply, is_read, lacks,
}

module _ {ℓ} {A : Type ℓ} where
  pub any-In : (p : A → Bool) (xs : List A) → any p xs ≡ true → (x : A) × ((In x xs) × (p x ≡ true))
  any-In p [] h = absurd (false≢true h)
  any-In p (x ∷ xs) h = elim (||_true (p x) (any p xs) h) [
    | inl now ↦ (x, (here refl, now))
    | inr later ↦ let (y, (m, q)) = any-In p xs later in (y, (there m, q))
  ]

  pub any_of_In : (p : A → Bool) {x : A} {xs : List A} → In x xs → p x ≡ true → any p xs ≡ true
  any_of_In p {x} (here {x = y} {xs = ys} e) h = ground arith
  any_of_In p {x} (there {x = y} {xs = ys} m) h = ground (arith, any_of_In p m h)

  pub none_In : (p : A → Bool) {x : A} {xs : List A} → In x xs → any p xs ≡ false → p x ≡ false
  none_In p {x} (here {x = y} {xs = ys} e) h = ground arith
  none_In p {x} (there {x = y} {xs = ys} i) h = none_In p i (||_false (p y) (any p ys) h).1

  pub any_agrees :
      (p q : A → Bool) (xs : List A) → ((x : A) → In x xs → p x ≡ q x) → any p xs ≡ any q xs
  any_agrees p q [] h = refl
  any_agrees p q (x ∷ xs) h = cc (h x (here refl), any_agrees p q xs (λ y m. h y (there m)))

pub member_of_In : {x : Text} {xs : NameSet} → In x xs → member x xs ≡ true
unfolding member
member_of_In {x} (here {x = y} {xs = ys} e) = ground (arith, text_eq_iff y x)
member_of_In {x} (there {x = y} {xs = ys} m) = ground (arith, member_of_In m)

pub In_of_member : (x : Text) (xs : NameSet) → member x xs ≡ true → In x xs
unfolding member
In_of_member x [] h = absurd (false≢true h)
In_of_member x (y ∷ ys) h = elim (Bool-cases (text_eq y x)) [
  | inl e ↦ here (sym (eq_of_text_eq y x e))
  | inr e ↦ there (In_of_member x ys (rw e at h))
]

or_true : (a b : Bool) → b ≡ true → (a || b) ≡ true
or_true a b h = ground arith

was_true : (b : Bool) → not b ≡ false → b ≡ true
was_true b h = ground arith

was_false : (b : Bool) → not b ≡ true → b ≡ false
was_false b h = ground arith

-- The shape of the test of one edge.
abbrev verdict : Bool → Bool → Bool → Bool → Bool → Bool
verdict from static read to generated =
    if not from then true else if static then false else if read && not to then true else generated

verdict_antitone :
    (a a' b b' s r c : Bool)
    → (a ≡ true → a' ≡ true)
    → (b ≡ true → b' ≡ true)
    → verdict a' s r b' c ≡ true
    → verdict a s r b c ≡ true
verdict_antitone a a' b b' s r c h k l = ground arith

verdict_from : (a b s r c : Bool) → verdict a s r b c ≡ false → a ≡ true
verdict_from a b s r c h = ground arith

verdict_lost :
    (a' b b' s r c : Bool) {a : Bool}
    → a ≡ true
    → verdict a' s r b' c ≡ false
    → verdict a s r b c ≡ true
    → (not s && r ≡ true) × ((b' ≡ true) × (b ≡ false))
verdict_lost a' b b' s r c e h l = (ground arith, (ground arith, ground arith))

module _ (output_producer : Text → Option Producer) (key : Text) (owner : Option Rule)
    (supplies supplies' : Text → Bool) (e : Edge) where
  edge_agrees :
      supplies e.from ≡ supplies' e.from
      → supplies e.to ≡ supplies' e.to
      → required_edge_unsupplied output_producer key owner supplies e
        ≡ required_edge_unsupplied output_producer key owner supplies' e
  unfolding required_edge_unsupplied
  edge_agrees h k = cc

  edge_antitone :
      (supplies e.from ≡ true → supplies' e.from ≡ true)
      → (supplies e.to ≡ true → supplies' e.to ≡ true)
      → required_edge_unsupplied output_producer key owner supplies' e ≡ true
      → required_edge_unsupplied output_producer key owner supplies e ≡ true
  unfolding required_edge_unsupplied
  edge_antitone h k l =
      verdict_antitone (supplies e.from) (supplies' e.from) (supplies e.to) (supplies' e.to)
        (static_edge_supply owner e) (is_read e) (codegen_edge_unsupplied output_producer key e) h k
        l

  -- An edge that is no longer supplied lost its file, or its target where that is read.
  pub edge_lost :
      required_edge_unsupplied output_producer key owner supplies' e ≡ false
      → required_edge_unsupplied output_producer key owner supplies e ≡ true
      → ((supplies' e.from ≡ true) × (supplies e.from ≡ false))
        ⊎ ((not (static_edge_supply owner e) && is_read e ≡ true)
            × ((supplies' e.to ≡ true) × (supplies e.to ≡ false)))
  unfolding required_edge_unsupplied
  edge_lost h l = elim (Bool-cases (supplies e.from)) [
    | inl from ↦ inr (
        verdict_lost (supplies' e.from) (supplies e.to) (supplies' e.to)
          (static_edge_supply owner e) (is_read e) (codegen_edge_unsupplied output_producer key e)
          from h l)
    | inr from ↦ inl (
      verdict_from (supplies' e.from) (supplies' e.to) (static_edge_supply owner e) (is_read e)
          (codegen_edge_unsupplied output_producer key e) h,
      from,
    )
  ]

module _ (m : Memo) (deps : Map Requirement) where
  abbrev pub edges_of : Text → List Edge
  edges_of dep = (or_nothing (lookup dep deps)).edges

  -- Tests that agree on what a dependency reads.
  pub lacks_agrees :
      (has has' supplies supplies' : Text → Bool) (dep : Text)
      → has (m.target_rule dep).0 ≡ has' (m.target_rule dep).0
      → ((e : Edge)
          → In e (edges_of dep)
          → (supplies e.from ≡ supplies' e.from) × (supplies e.to ≡ supplies' e.to))
      → lacks m deps has supplies dep ≡ lacks m deps has' supplies' dep
  unfolding lacks
  lacks_agrees has has' supplies supplies' dep target files = cc (
    target,
    any_agrees
        (required_edge_unsupplied m.output_producer (m.target_rule dep).0 (m.target_rule dep).1
          supplies)
        (required_edge_unsupplied m.output_producer (m.target_rule dep).0 (m.target_rule dep).1
          supplies')
        (edges_of dep)
        (λ e i.
          edge_agrees m.output_producer (m.target_rule dep).0 (m.target_rule dep).1 supplies
            supplies' e (files e i).0 (files e i).1),
  )

  -- Why a dependency lacks something.
  pub lacks_reason :
      (has supplies : Text → Bool) (dep : Text)
      → lacks m deps has supplies dep ≡ true
      → ((or_nothing (lookup dep deps)).unconditional ≡ true)
        ⊎ ((has (m.target_rule dep).0 ≡ false)
            ⊎ ((e : Edge) × ((In e (edges_of dep))
                  × (required_edge_unsupplied m.output_producer
                        (m.target_rule dep).0
                        (m.target_rule dep).1
                        supplies
                        e
                      ≡ true))))
  unfolding lacks
  lacks_reason has supplies dep h =
      let required = or_nothing (lookup dep deps) in
      elim (||_true (required.unconditional || not (has (m.target_rule dep).0)) _ h) [
        | inr edge ↦ inr (inr (any-In _ (edges_of dep) edge))
        | inl k ↦ elim (||_true required.unconditional _ k) [
          | inl free ↦ inl free
          | inr target ↦ inr (inl (was_false _ target))
        ]
      ]

  -- What a dependency that lacks nothing has.
  pub lacks_nothing :
      (has supplies : Text → Bool) (dep : Text)
      → lacks m deps has supplies dep ≡ false
      → ((or_nothing (lookup dep deps)).unconditional ≡ false)
        × ((has (m.target_rule dep).0 ≡ true)
            × ((e : Edge)
                → In e (edges_of dep)
                → required_edge_unsupplied m.output_producer
                    (m.target_rule dep).0
                    (m.target_rule dep).1
                    supplies
                    e
                  ≡ false))
  unfolding lacks
  lacks_nothing has supplies dep h =
      let required = or_nothing (lookup dep deps) in
      let (free, none_lost) =
        ||_false (required.unconditional || not (has (m.target_rule dep).0)) _ h in
      let (not_free, target) =
        ||_false required.unconditional (not (has (m.target_rule dep).0)) free in
      (not_free, (was_true _ target, λ e i. none_In _ i none_lost))

  edge_lacks :
      (has supplies : Text → Bool) (dep : Text) (e : Edge)
      → In e (edges_of dep)
      → required_edge_unsupplied m.output_producer
          (m.target_rule dep).0
          (m.target_rule dep).1
          supplies
          e
        ≡ true
      → lacks m deps has supplies dep ≡ true
  unfolding lacks
  edge_lacks has supplies dep e i h = or_true _ _ (
      any_of_In
        (required_edge_unsupplied m.output_producer (m.target_rule dep).0 (m.target_rule dep).1
          supplies)
        i h)

  -- More supplied is less lacked.
  pub lacks_antitone :
      (has has' supplies supplies' : Text → Bool) (dep : Text)
      → ((t : Text) → has t ≡ true → has' t ≡ true)
      → ((f : Text) → supplies f ≡ true → supplies' f ≡ true)
      → lacks m deps has' supplies' dep ≡ true
      → lacks m deps has supplies dep ≡ true
  unfolding lacks
  lacks_antitone has has' supplies supplies' dep more_targets more_files h =
      elim (lacks_reason has' supplies' dep h) [
        | inl free ↦ ground arith
        | inr (inl target) ↦ ground (arith, more_targets (m.target_rule dep).0)
        | inr (inr (e, (i, lost))) ↦ edge_lacks has supplies dep e i (
            edge_antitone m.output_producer (m.target_rule dep).0 (m.target_rule dep).1 supplies
              supplies' e (more_files e.from) (more_files e.to) lost)
      ]
