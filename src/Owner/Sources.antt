-- ===== src/Owner/Sources.antt =====
-- The sources of a package: each in the list of its class, and none that the package owns left out.
use rules_typescript.Base.{
  Bool, true, false, not, ◌&&◌, ◌||◌, some, List, [], ◌∷◌, if-elim, Bool-cases, ◌≡◌, refl, sym, ◌∙◌,
  ap, subst, ◌⊎◌, inl, inr, arith, In, here, there, false≢true,
}
use rules_typescript.Base.Text.{Text, text_eq, text_eq_refl}
use rules_typescript.Base.Map.{lookup, member}
use rules_typescript.Base.Sort.{sort_strings, sort_strings_iff}
use rules_typescript.Files.{FileClass, library_file, test_file, declaration_file, classify}
use rules_typescript.Owner.{
  ProgramStore, set_at, source_file, owner, SrcSet, empty_set, add_class, add, java_script_twin,
  add_twin, is_owner, srcs_loop, sorted_set, srcs,
}

unfoldable pub list_of : FileClass → SrcSet → List Text
list_of library_file set = set.library
list_of test_file set = set.test
list_of declaration_file set = set.declaration

In-add_class :
    (c d : FileClass) {g : Text} (f : Text) (set : SrcSet)
    → In g (list_of c (add_class d f set))
    → ((g ≡ f) × (c ≡ d)) ⊎ (In g (list_of c set))
unfolding list_of add_class
In-add_class library_file library_file f set (here e) = inl (e, refl)
In-add_class library_file library_file f set (there m) = inr m
In-add_class test_file test_file f set (here e) = inl (e, refl)
In-add_class test_file test_file f set (there m) = inr m
In-add_class declaration_file declaration_file f set (here e) = inl (e, refl)
In-add_class declaration_file declaration_file f set (there m) = inr m
In-add_class library_file test_file f set m = inr m
In-add_class library_file declaration_file f set m = inr m
In-add_class test_file library_file f set m = inr m
In-add_class test_file declaration_file f set m = inr m
In-add_class declaration_file library_file f set m = inr m
In-add_class declaration_file test_file f set m = inr m

add_class-In : (c : FileClass) (f : Text) (set : SrcSet) → In f (list_of c (add_class c f set))
unfolding list_of add_class
add_class-In library_file f set = here refl
add_class-In test_file f set = here refl
add_class-In declaration_file f set = here refl

add_class-keeps :
    (c d : FileClass) {g : Text} (f : Text) (set : SrcSet)
    → In g (list_of c set)
    → In g (list_of c (add_class d f set))
unfolding list_of add_class
add_class-keeps library_file library_file f set m = there m
add_class-keeps test_file test_file f set m = there m
add_class-keeps declaration_file declaration_file f set m = there m
add_class-keeps library_file test_file f set m = m
add_class-keeps library_file declaration_file f set m = m
add_class-keeps test_file library_file f set m = m
add_class-keeps test_file declaration_file f set m = m
add_class-keeps declaration_file library_file f set m = m
add_class-keeps declaration_file test_file f set m = m

list_of-sorted :
    (c : FileClass) (set : SrcSet) → list_of c (sorted_set set) ≡ sort_strings (list_of c set)
unfolding list_of sorted_set
list_of-sorted library_file set = refl
list_of-sorted test_file set = refl
list_of-sorted declaration_file set = refl

no_sources : (c : FileClass) → list_of c empty_set ≡ []
unfolding list_of
no_sources library_file = refl
no_sources test_file = refl
no_sources declaration_file = refl

In-none : {f : Text} (xs : List Text) → xs ≡ [] → In f xs → (A : Type 0) → A
In-none [] e m A = elim m [ ]
In-none (x ∷ xs) e m A = absurd (cc)

twin_tests : (a b c d : Bool) → (not a && b && not c && not d) ≡ true → (b ≡ true) × (d ≡ false)
twin_tests a b c d h = ground arith

source_tests : (a b : Bool) → (not a || b) ≡ false → (a ≡ true) × (b ≡ false)
source_tests a b h = ground arith

module _ (has_producer codegen_writes : Text → Bool) (s : ProgramStore) where
  -- A file in the list of its class, which the walk saw and no codegen writes.
  pub record IsSource (c : FileClass) (f : Text) : Type 0 where
    pub class : classify f ≡ c
    pub seen : source_file s f ≡ true
    pub authored : codegen_writes f ≡ false

  pub record AreSources (set : SrcSet) : Type 0 where
    pub sources : (c : FileClass) (f : Text) → In f (list_of c set) → IsSource c f

  add-AreSources :
      (f : Text) (set : SrcSet)
      → source_file s f ≡ true
      → codegen_writes f ≡ false
      → AreSources set
      → AreSources (add f set)
  unfolding add
  add-AreSources f set seen authored h = record {
    sources = λ c g m. elim (In-add_class c (classify f) f set m) [
      | inr old ↦ h.sources c g old
      | inl (same, class) ↦
          subst (IsSource c) (sym same)
            (record { class = sym class; seen = seen; authored = authored })
    ];
  }

  owner-source_file :
      (f : Text) (pkg : Text)
      → is_owner (owner has_producer codegen_writes s f) pkg ≡ true
      → source_file s f ≡ true
  unfolding owner
  owner-source_file f pkg h = elim (Bool-cases (source_file s f)) [
    | inl t ↦ t
    | inr n ↦ elim (Bool-cases (has_producer f)) [
      | inl p ↦ absurd (false≢true (rw p at h))
      | inr p ↦ absurd (false≢true (rw (p, n) at h))
    ]
  ]

  add_twin-AreSources :
      (listed : List Text) (twin : Text) (set : SrcSet)
      → AreSources set
      → AreSources (add_twin has_producer codegen_writes s listed twin set)
  unfolding add_twin
  add_twin-AreSources listed twin set h =
      if-elim AreSources _ (add twin set) set
        (λ t.
          let (seen, authored) = twin_tests (text_eq twin []) _ (member twin listed) _ t in
          add-AreSources twin set seen authored h)
        (λ f. h)

  srcs_loop-AreSources :
      (pkg : Text) (listed fs : List Text)
      → AreSources (srcs_loop has_producer codegen_writes s pkg listed fs)
  unfolding srcs_loop
  srcs_loop-AreSources pkg listed [] = record {
    sources = λ c f m. In-none (list_of c empty_set) (no_sources c) m (IsSource c f);
  }
  srcs_loop-AreSources pkg listed (f ∷ fs) =
      let rest = srcs_loop-AreSources pkg listed fs in
      if-elim AreSources _ (srcs_loop has_producer codegen_writes s pkg listed fs) _ (λ t. rest)
        (λ n.
          let (own, authored) =
            source_tests (is_owner (owner has_producer codegen_writes s f) pkg) _ n in
          add-AreSources f _ (owner-source_file f pkg own) authored
            (add_twin-AreSources listed (java_script_twin f) _ rest))

  -- Every file that `srcs` lists for a package is in the list of its class, is a first-party file
  -- that the walk saw in its directory, and is written by no codegen.
  pub srcs-IsSource :
      (pkg : Text) (c : FileClass) (f : Text)
      → In f (list_of c (srcs has_producer codegen_writes s pkg))
      → IsSource c f
  unfolding srcs
  srcs-IsSource pkg c f m =
      let listed = set_at (lookup pkg s.packages) in
      let loop = srcs_loop has_producer codegen_writes s pkg listed listed in
      let unsorted : In f (list_of c loop) =
        (sort_strings_iff (list_of c loop)).0 (subst (In f) (list_of-sorted c loop) m) in
      (srcs_loop-AreSources pkg listed listed).sources c f unsorted

  add_twin-keeps :
      (c : FileClass) {f : Text} (listed : List Text) (twin : Text) (set : SrcSet)
      → In f (list_of c set)
      → In f (list_of c (add_twin has_producer codegen_writes s listed twin set))
  unfolding add_twin add
  add_twin-keeps c {f} listed twin set m =
      if-elim (λ t. In f (list_of c t)) _ (add twin set) set
        (λ t. add_class-keeps c (classify twin) twin set m) (λ e. m)

  srcs_loop-In :
      (pkg : Text) (listed : List Text) {f : Text} {fs : List Text}
      → In f fs
      → is_owner (owner has_producer codegen_writes s f) pkg ≡ true
      → codegen_writes f ≡ false
      → In f (list_of (classify f) (srcs_loop has_producer codegen_writes s pkg listed fs))
  unfolding srcs_loop add
  srcs_loop-In pkg listed {f} (here {x} {xs} e) own authored =
      subst
        (λ x.
          In f (list_of (classify f) (srcs_loop has_producer codegen_writes s pkg listed (x ∷ xs))))
        e (rw (own, authored) (add_class-In (classify f) f _))
  srcs_loop-In pkg listed {f} (there {x} {xs} m) own authored =
      let before = srcs_loop-In pkg listed m own authored in
      let rest = srcs_loop has_producer codegen_writes s pkg listed xs in
      let twinned = add_twin has_producer codegen_writes s listed (java_script_twin x) rest in
      if-elim (λ t. In f (list_of (classify f) t))
        (not (is_owner (owner has_producer codegen_writes s x) pkg) || codegen_writes x) rest
        (add x twinned) (λ t. before)
        (λ n.
          add_class-keeps (classify f) (classify x) x twinned
            (add_twin-keeps (classify f) listed (java_script_twin x) rest before))

  -- A file that a package's program lists, that the package owns and that no codegen writes is among
  -- the package's sources, in the list of its class.
  pub srcs-In :
      (pkg f : Text)
      → In f (set_at (lookup pkg s.packages))
      → owner has_producer codegen_writes s f ≡ some pkg
      → codegen_writes f ≡ false
      → In f (list_of (classify f) (srcs has_producer codegen_writes s pkg))
  unfolding srcs
  srcs-In pkg f m own authored =
      let listed = set_at (lookup pkg s.packages) in
      let loop = srcs_loop has_producer codegen_writes s pkg listed listed in
      subst (In f) (sym (list_of-sorted (classify f) loop)) (
        (sort_strings_iff (list_of (classify f) loop)).1
          (srcs_loop-In pkg listed m (ap (λ o. is_owner o pkg) own ∙ text_eq_refl pkg) authored))
