-- ===== src/Emission/Scope/Admitted.antt =====
-- Whom the visibility of a package scope lets in.
use rules_typescript.Base.{
  Bool, true, false, not, ◌&&◌, &&_true, Bool-cases, Option, none, some, List, [], ◌∷◌, ◌++◌, ◌≡◌,
  ◌≢◌, ◌↔◌, refl, sym, ap, ◌∙◌, inl, inr, subst, arith, false≢true, In, here, there,
}
use rules_typescript.Base.Text.{
  Text, codes, text_eq, text_eq_iff, text_eq_refl, has_prefix, cut_prefix,
}
use rules_typescript.Base.Text.Laws.{cut_prefix-eq, cut_prefix-append}
use rules_typescript.Emission.{Label}
use rules_typescript.Emission.Scope.{
  within, equal_flags, same_repo, grants, identity_of, entry_grants, denies_loop,
  scope_visibility_denies,
}

-- A directory at or below another; the empty one is the root.
pub data IsBelow : Text → Text → Type 0 where
  same : {dir : Text} → IsBelow dir dir
  top : {dir : Text} → IsBelow dir []
  under : {dir root : Text} (rest : Text) → dir ≡ (root ++ codes "/") ++ rest → IsBelow dir root

pub record SamePackage (a b : Label) : Type 0 where
  pub repo : a.repo ≡ b.repo
  pub canonical : a.canonical ≡ b.canonical
  pub pkg : a.pkg ≡ b.pkg

-- The consumers that a label of a visibility lets in: those of its package, those at or below its
-- package in its repository, or, where it is another label than private, any.
pub data Admits (consumer grant : Label) : Type 0 where
  own_package : grant.name ≡ codes "__pkg__" → SamePackage grant consumer → Admits consumer grant
  subpackages :
      grant.name ≡ codes "__subpackages__"
      → grant.repo ≡ consumer.repo
      → grant.canonical ≡ consumer.canonical
      → IsBelow consumer.pkg grant.pkg
      → Admits consumer grant
  anyone :
      grant.name ≢ codes "__pkg__"
      → grant.name ≢ codes "__subpackages__"
      → ¬ ((grant.pkg ≡ codes "visibility") × (grant.name ≡ codes "private"))
      → Admits consumer grant

has_prefix-rest : (s p : Text) → has_prefix s p ≡ true → (r : Text) × (s ≡ p ++ r)
has_prefix-rest s p h = rest _ refl (unfold has_prefix in h)
  where
    rest :
        (o : Option Text)
        → cut_prefix s p ≡ o
        → (elim o [ none ↦ false | some r ↦ true ]) ≡ true
        → (r : Text) × (s ≡ p ++ r)
    rest none e h = absurd (cc h)
    rest (some r) e h = (r, cut_prefix-eq s p e)

within-IsBelow : (dir root : Text) → within dir root ≡ true → IsBelow dir root
unfolding within
within-IsBelow dir root h = elim (Bool-cases (text_eq dir root)) [
  | inl a ↦ subst (IsBelow dir) ((text_eq_iff dir root).0 a) same
  | inr na ↦ elim (Bool-cases (text_eq root [])) [
    | inl b ↦ subst (IsBelow dir) (sym ((text_eq_iff root []).0 b)) top
    | inr nb ↦ let (r, e) = has_prefix-rest dir (root ++ codes "/") (ground arith) in under r e
  ]
]

IsBelow-within : {dir root : Text} → IsBelow dir root → within dir root ≡ true
unfolding within
IsBelow-within (same {dir}) = rw (text_eq_refl dir)
IsBelow-within (top {dir}) = ground arith
IsBelow-within (under {dir} {root} rest e) =
    let p : has_prefix dir (root ++ codes "/") ≡ true =
      rw e (unfold has_prefix in rw (cut_prefix-append (root ++ codes "/") rest) refl) in
    ground arith

equal_flags-eq : (a b : Bool) → equal_flags a b ≡ true → a ≡ b
equal_flags-eq true b h = sym h
equal_flags-eq false b h = ground arith

equal_flags_refl : (a : Bool) → equal_flags a a ≡ true
equal_flags_refl true = refl
equal_flags_refl false = refl

same_repo-eq :
    (a b : Label) → same_repo a b ≡ true → (a.repo ≡ b.repo) × (a.canonical ≡ b.canonical)
unfolding same_repo
same_repo-eq a b h =
    let (r, c) = &&_true _ _ h in
    ((text_eq_iff a.repo b.repo).0 r, equal_flags-eq a.canonical b.canonical c)

same_repo-true : (a b : Label) → a.repo ≡ b.repo → a.canonical ≡ b.canonical → same_repo a b ≡ true
unfolding same_repo
same_repo-true a b r c =
    rw (r, c) (ground (arith, text_eq_refl b.repo, equal_flags_refl b.canonical))

identified-SamePackage :
    (a b : Label) → (same_repo a b && text_eq a.pkg b.pkg) ≡ true → SamePackage a b
identified-SamePackage a b h =
    let (s, p) = &&_true _ _ h in
    let (r, c) = same_repo-eq a b s in
    record { repo = r; canonical = c; pkg = (text_eq_iff a.pkg b.pkg).0 p }

SamePackage-true : (a b : Label) → SamePackage a b → (same_repo a b && text_eq a.pkg b.pkg) ≡ true
SamePackage-true a b s =
    ground (arith, same_repo-true a b s.repo s.canonical, text_eq_iff a.pkg b.pkg, s.pkg)

text_ne : (s t : Text) → text_eq s t ≡ false → s ≢ t
text_ne s t h e = false≢true (sym h ∙ (text_eq_iff s t).1 e)

ne_text : (s t : Text) → s ≢ t → text_eq s t ≡ false
ne_text s t n = elim (Bool-cases (text_eq s t)) [
  | inl e ↦ absurd (n ((text_eq_iff s t).0 e))
  | inr e ↦ e
]

-- What each case of the switch asks, by the grant's name.
grants_package :
    (consumer grant : Label)
    → grant.name ≡ codes "__pkg__"
    → grants consumer grant ≡ (same_repo grant consumer && text_eq grant.pkg consumer.pkg)
unfolding grants
grants_package consumer grant e = rw e (ground arith)

grants_subpackages :
    (consumer grant : Label)
    → grant.name ≡ codes "__subpackages__"
    → grants consumer grant ≡ (same_repo grant consumer && within consumer.pkg grant.pkg)
unfolding grants
grants_subpackages consumer grant e = rw e (ground arith)

grants_other :
    (consumer grant : Label)
    → text_eq grant.name (codes "__pkg__") ≡ false
    → text_eq grant.name (codes "__subpackages__") ≡ false
    → grants consumer grant
      ≡ not (text_eq grant.pkg (codes "visibility") && text_eq grant.name (codes "private"))
unfolding grants
grants_other consumer grant p s = elim (Bool-cases (text_eq grant.name (codes "public"))) [
  | inl public ↦
      let not_private : text_eq grant.name (codes "private") ≡ false =
        ap (λ n. text_eq n (codes "private"))
          ((text_eq_iff grant.name (codes "public")).0 public) in
      ground arith
  | inr other ↦ ground arith
]

grants-Admits : (consumer grant : Label) → grants consumer grant ≡ true → Admits consumer grant
grants-Admits consumer grant h = elim (Bool-cases (text_eq grant.name (codes "__pkg__"))) [
  | inl p ↦
      let e = (text_eq_iff grant.name (codes "__pkg__")).0 p in
      own_package e
        (identified-SamePackage grant consumer (sym (grants_package consumer grant e) ∙ h))
  | inr np ↦ elim (Bool-cases (text_eq grant.name (codes "__subpackages__"))) [
    | inl s ↦
        let e = (text_eq_iff grant.name (codes "__subpackages__")).0 s in
        let (one_repo, below) = &&_true _ _ (sym (grants_subpackages consumer grant e) ∙ h) in
        let (r, c) = same_repo-eq grant consumer one_repo in
        subpackages e r c (within-IsBelow consumer.pkg grant.pkg below)
    | inr ns ↦
        let q = sym (grants_other consumer grant np ns) ∙ h in
        anyone (text_ne _ _ np) (text_ne _ _ ns)
          (λ (a, b). both_false _ _ q ((text_eq_iff _ _).1 a) ((text_eq_iff _ _).1 b))
  ]
]
  where
    both_false : (a b : Bool) → not (a && b) ≡ true → a ≡ true → b ≡ true → ⊥
    both_false a b q x y = ground arith

Admits-grants : {consumer grant : Label} → Admits consumer grant → grants consumer grant ≡ true
Admits-grants {consumer} {grant} (own_package e s) =
    grants_package consumer grant e ∙ SamePackage-true grant consumer s
Admits-grants {consumer} {grant} (subpackages e r c below) =
    grants_subpackages consumer grant e
    ∙ ground (arith, same_repo-true grant consumer r c, IsBelow-within below)
Admits-grants {consumer} {grant} (anyone p s q) =
    elim (Bool-cases
      (text_eq grant.pkg (codes "visibility") && text_eq grant.name (codes "private"))) [
        | inl t ↦
            let (a, b) = &&_true _ _ t in absurd (q ((text_eq_iff _ _).0 a, (text_eq_iff _ _).0 b))
        | inr f ↦ grants_other consumer grant (ne_text _ _ p) (ne_text _ _ s) ∙ ap not f
      ]

module _ (parse_label : Text → Option Label) (abs : Label → Text → Text → Label)
    (print_label : Label → Text) where
  abbrev identity : Label → Label → Label
  identity = identity_of parse_label abs print_label

  -- An entry of a visibility that lets a consumer in: Bazel judges one that does not parse.
  pub data Lets (owner consumer : Label) : Option Label → Type 0 where
    unread : Lets owner consumer none
    grants_it :
        {grant : Label} → Admits consumer (identity owner grant) → Lets owner consumer (some grant)

  -- A consumer of the owner's package, or one that an entry lets in.
  pub data IsAdmitted (visibility : List Text) (owner consumer : Label) : Type 0 where
    at_home : SamePackage owner consumer → IsAdmitted visibility owner consumer
    by_entry :
        {text : Text}
        → In text visibility
        → Lets owner consumer (parse_label text)
        → IsAdmitted visibility owner consumer

  entry-Lets :
      (owner consumer : Label) (o : Option Label)
      → entry_grants parse_label abs print_label owner consumer o ≡ true
      → Lets owner consumer o
  unfolding entry_grants
  entry-Lets owner consumer none h = unread
  entry-Lets owner consumer (some grant) h =
      grants_it (grants-Admits consumer (identity owner grant) h)

  Lets-entry :
      {owner consumer : Label} {o : Option Label}
      → Lets owner consumer o
      → entry_grants parse_label abs print_label owner consumer o ≡ true
  unfolding entry_grants
  Lets-entry unread = refl
  Lets-entry (grants_it a) = Admits-grants a

  abbrev denies : Label → Label → List Text → Bool
  denies = denies_loop parse_label abs print_label

  denies-Lets :
      (owner consumer : Label) (v : List Text)
      → denies owner consumer v ≡ false
      → (text : Text) × In text v × Lets owner consumer (parse_label text)
  unfolding denies_loop
  denies-Lets owner consumer [] h = absurd (cc h)
  denies-Lets owner consumer (text ∷ v) h =
      elim (Bool-cases
        (entry_grants parse_label abs print_label owner consumer (parse_label text))) [
          | inl t ↦ (text, here refl, entry-Lets owner consumer (parse_label text) t)
          | inr f ↦ let (t, i, l) = denies-Lets owner consumer v (rw f at h) in (t, there i, l)
        ]

  Lets-denies :
      {text : Text} (owner consumer : Label) {v : List Text}
      → In text v
      → Lets owner consumer (parse_label text)
      → denies owner consumer v ≡ false
  unfolding denies_loop
  Lets-denies owner consumer (here {x} {xs} e) l =
      rw (Lets-entry (subst (λ t. Lets owner consumer (parse_label t)) e l))
  Lets-denies owner consumer (there {x} {xs} i) l = ground (arith, Lets-denies owner consumer i l)

  -- A visibility does not deny a consumer exactly when the consumer is of the owner's package or an
  -- entry lets it in: one that does not parse, one for its package, one for a package at or above
  -- its own in its repository, or any other but private.
  pub scope_visibility_denies-IsAdmitted :
      (visibility : List Text) (owner consumer : Label)
      → (scope_visibility_denies parse_label abs print_label visibility owner consumer ≡ false)
        ↔ IsAdmitted visibility owner (identity owner consumer)
  unfolding scope_visibility_denies
  scope_visibility_denies-IsAdmitted visibility owner consumer = (admitted, let_in)
    where
      admitted :
          scope_visibility_denies parse_label abs print_label visibility owner consumer ≡ false
          → IsAdmitted visibility owner (identity owner consumer)
      admitted h =
          elim (Bool-cases (
            same_repo owner (identity owner consumer)
            && text_eq owner.pkg (identity owner consumer).pkg)) [
              | inl t ↦ at_home (identified-SamePackage owner (identity owner consumer) t)
              | inr f ↦
                  let (text, i, l) =
                    denies-Lets owner (identity owner consumer) visibility (rw f at h) in
                  by_entry i l
            ]

      let_in :
          IsAdmitted visibility owner (identity owner consumer)
          → scope_visibility_denies parse_label abs print_label visibility owner consumer ≡ false
      let_in (at_home s) = rw (SamePackage-true owner (identity owner consumer) s)
      let_in (by_entry i l) = ground (arith, Lets-denies owner (identity owner consumer) i l)
