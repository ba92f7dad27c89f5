-- ===== src/TsConfig/Admission.antt =====
-- What a resolved chain was read from.
use rules_typescript.Base.{
  ℕ, zero, suc, Bool, true, not, Option, none, some, List, [], ◌∷◌, ◌++◌, if-elim, ◌≡◌, refl, sym,
  subst, arith, In, here, there, In-append, inl, inr,
}
use rules_typescript.Base.Text.{Text}
use rules_typescript.Base.Map.{NameSet, member}
use rules_typescript.Base.GoPath.{clean, dir}
use rules_typescript.TsConfig.{
  File, Resolved, blank, Outcome, resolved, failed, rejected, exhausted, extended, one_extends,
  resolve_extends, extends_loop, with_leaf, read_file, resolve,
}

module _ (read : Text → Option File) (admit : Text → Bool) where
  -- Admitted, and read.
  pub record WasRead (c : Text) : Type 0 where
    pub admitted : admit c ≡ true
    pub file : File
    pub contents : read c ≡ some file

  abbrev FromDisk : Outcome → Type 0
  FromDisk (resolved r) = (c : Text) → In c r.configs → WasRead c
  FromDisk failed = Unit
  FromDisk rejected = Unit
  FromDisk exhausted = Unit

  extended-FromDisk :
      (acc : Resolved) (o : Outcome)
      → FromDisk (resolved acc)
      → FromDisk o
      → FromDisk (extended acc o)
  unfolding extended
  extended-FromDisk acc (resolved base) h k =
      λ c i. elim (In-append acc.configs i) [ inl l ↦ h c l | inr r ↦ k c r ]
  extended-FromDisk acc failed h k = h
  extended-FromDisk acc rejected h k = tt
  extended-FromDisk acc exhausted h k = tt

  one_extends-FromDisk :
      (rec : Text → Outcome) (acc : Resolved) (o : Option Text)
      → ((base : Text) → FromDisk (rec base))
      → FromDisk (resolved acc)
      → FromDisk (one_extends rec acc o)
  unfolding one_extends
  one_extends-FromDisk rec acc none h k = k
  one_extends-FromDisk rec acc (some base) h k = extended-FromDisk acc (rec base) k (h base)

  extends_loop-FromDisk :
      (rec : Text → Outcome) (directory : Text) (specs : List Text) (acc : Outcome)
      → ((base : Text) → FromDisk (rec base))
      → FromDisk acc
      → FromDisk (extends_loop rec directory specs acc)
  unfolding extends_loop
  extends_loop-FromDisk rec d [] acc h k = k
  extends_loop-FromDisk rec d (spec ∷ specs) (resolved acc) h k =
      extends_loop-FromDisk rec d specs (one_extends rec acc (resolve_extends d spec)) h
        (one_extends-FromDisk rec acc (resolve_extends d spec) h k)
  extends_loop-FromDisk rec d (spec ∷ specs) failed h k = k
  extends_loop-FromDisk rec d (spec ∷ specs) rejected h k = k
  extends_loop-FromDisk rec d (spec ∷ specs) exhausted h k = k

  leaf_or_base :
      (path : Text) (bases : Resolved)
      → WasRead path
      → FromDisk (resolved bases)
      → (c : Text) → In c (bases.configs ++ path ∷ [])
      → WasRead c
  leaf_or_base path bases w h c i = elim (In-append bases.configs i) [
    | inl l ↦ h c l
    | inr r ↦ only r
  ]
    where
      only : In c (path ∷ []) → WasRead c
      only (here e) = subst (λ d. WasRead d) (sym e) w
      only (there m) = elim m [ ]

  with_leaf-FromDisk :
      (f : File) (path : Text) (o : Outcome)
      → WasRead path
      → FromDisk o
      → FromDisk (with_leaf f path o)
  unfolding with_leaf
  with_leaf-FromDisk f path (resolved r) w h = leaf_or_base path r w h
  with_leaf-FromDisk f path failed w h = tt
  with_leaf-FromDisk f path rejected w h = tt
  with_leaf-FromDisk f path exhausted w h = tt

  read_file-FromDisk :
      (rec : Text → Outcome) (path : Text) (o : Option File)
      → admit path ≡ true
      → read path ≡ o
      → ((base : Text) → FromDisk (rec base))
      → FromDisk (read_file read admit rec path o)
  unfolding read_file
  read_file-FromDisk rec path none a e h = tt
  read_file-FromDisk rec path (some f) a e h =
      with_leaf-FromDisk f path (extends_loop rec (dir path) f.extends (resolved (blank f.extends)))
        (record { admitted = a; file = f; contents = e })
        (extends_loop-FromDisk rec (dir path) f.extends (resolved (blank f.extends)) h no_config)
    where
      no_config : (c : Text) → In c [] → WasRead c
      no_config c i = elim i [ ]

  resolve-FromDisk :
      (fuel : ℕ) (ancestors : NameSet) (path : Text)
      → FromDisk (resolve read admit fuel ancestors path)
  unfolding resolve
  resolve-FromDisk zero ancestors path = tt
  resolve-FromDisk (suc fuel) ancestors path =
      let p = clean path in
      if-elim FromDisk (member p ancestors) failed _ (λ e. tt)
        (λ new.
          if-elim FromDisk (not (admit p)) rejected _ (λ e. tt)
            (λ e.
              read_file-FromDisk (resolve read admit fuel (p ∷ ancestors)) p (read p) (ground arith)
                refl (resolve-FromDisk fuel (p ∷ ancestors))))

  -- Every file that a resolved chain names was admitted, and was read from the disk.
  pub resolve-WasRead :
      (fuel : ℕ) (path : Text) {r : Resolved} (c : Text)
      → resolve read admit fuel [] path ≡ resolved r
      → In c r.configs
      → WasRead c
  resolve-WasRead fuel path c e i = subst FromDisk e (resolve-FromDisk fuel [] path) c i
