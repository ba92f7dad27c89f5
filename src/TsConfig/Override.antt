-- ===== src/TsConfig/Override.antt =====
-- ts/tools/tsconfig/tsconfig.go: `override` along a list of configs, value by value.
use rules_typescript.Base.{
  Bool, true, false, List, [], ◌∷◌, ◌++◌, if◌then◌else◌, any, ◌≡◌, refl, sym, ap, ◌∙◌, append_assoc,
  append-nil, Bool-cases, inl, inr,
}
use rules_typescript.Base.Text.{Text}
use rules_typescript.TsConfig.{Resolved, nonempty, is_set, override}

-- The last of the configs that sets a value, or the first config of all where none of them does.
pub data Latest (set : Resolved → Bool) (r : Resolved) (rs : List Resolved) (x : Resolved)
    : Type 0 where
  none_set : any set rs ≡ false → x ≡ r → Latest set r rs x
  last_set :
      (before later : List Resolved)
      → rs ≡ before ++ x ∷ later
      → set x ≡ true
      → any set later ≡ false
      → Latest set r rs x

-- A value of the result, by the test that a config sets it, is that of the last one that does.
abbrev Takes :
    {A : Type 0} → (Resolved → Bool) → (Resolved → A) → Resolved → List Resolved → Resolved → Type 0
Takes set get r rs m = (x : Resolved) × Latest set r rs x × (get m ≡ get x)

-- And the directory that its paths are relative to is of the same config.
abbrev TakesWith :
    {A : Type 0}
    → (Resolved → Bool)
    → (Resolved → A)
    → (Resolved → Text)
    → Resolved
    → List Resolved
    → Resolved
    → Type 0
TakesWith set get directory r rs m =
    (x : Resolved) × Latest set r rs x × (get m ≡ get x) × (directory m ≡ directory x)

abbrev configs_of : List Resolved → List Text
configs_of [] = []
configs_of (x ∷ rs) = x.configs ++ configs_of rs

-- `m` is `r` overridden by the configs `rs`, the last of them first.
pub record IsMerged (r : Resolved) (rs : List Resolved) (m : Resolved) : Type 0 where
  pub extends : m.extends ≡ r.extends
  pub configs : m.configs ≡ r.configs ++ configs_of rs
  pub base_url : TakesWith (λ x. nonempty x.base_url) (λ x. x.base_url) (λ x. x.base_url_dir) r rs m
  pub paths : TakesWith (λ x. is_set x.paths) (λ x. x.paths) (λ x. x.paths_dir) r rs m
  pub types : Takes (λ x. is_set x.types) (λ x. x.types) r rs m
  pub jsx : Takes (λ x. nonempty x.jsx) (λ x. x.jsx) r rs m
  pub jsx_import_source :
      Takes (λ x. nonempty x.jsx_import_source) (λ x. x.jsx_import_source) r rs m
  pub module_kind : Takes (λ x. nonempty x.module_kind) (λ x. x.module_kind) r rs m
  pub files : TakesWith (λ x. is_set x.files) (λ x. x.files) (λ x. x.files_dir) r rs m
  pub include : TakesWith (λ x. is_set x.include) (λ x. x.include) (λ x. x.include_dir) r rs m
  pub exclude : TakesWith (λ x. is_set x.exclude) (λ x. x.exclude) (λ x. x.exclude_dir) r rs m

unfoldable pub override_all : Resolved → List Resolved → Resolved
override_all r [] = r
override_all r (x ∷ rs) = override_all (override r x) rs

latest : (Resolved → Bool) → Resolved → List Resolved → Resolved
latest set r [] = r
latest set r (x ∷ rs) = latest set (if set x then x else r) rs

latest-Latest :
    (set : Resolved → Bool) (r : Resolved) (rs : List Resolved) → Latest set r rs (latest set r rs)
unfolding latest
latest-Latest set r [] = none_set refl refl
latest-Latest set r (x ∷ rs) = elim (Bool-cases (set x)) [
  | inl t ↦ elim (latest-Latest set x rs) [
    | none_set n e ↦ rw t (last_set [] rs (ap (λ y. y ∷ rs) (sym e)) (rw (e, t) refl) n)
    | last_set before later e s n ↦ rw t (last_set (x ∷ before) later (ap (λ l. x ∷ l) e) s n)
  ]
  | inr f ↦ elim (latest-Latest set r rs) [
    | none_set n e ↦ rw f (none_set (rw (f, n) refl) e)
    | last_set before later e s n ↦ rw f (last_set (x ∷ before) later (ap (λ l. x ∷ l) e) s n)
  ]
]

module _ {A : Type 0} (set : Resolved → Bool) (get : Resolved → A)
    (step : (r x : Resolved) → get (override r x) ≡ (if set x then get x else get r)) where
  all-latest :
      (r s : Resolved) (rs : List Resolved)
      → get r ≡ get s
      → get (override_all r rs) ≡ get (latest set s rs)
  unfolding override_all latest
  all-latest r s [] e = e
  all-latest r s (x ∷ rs) e =
      all-latest (override r x) (if set x then x else s) rs (elim (Bool-cases (set x)) [
        | inl t ↦ step r x ∙ rw t refl
        | inr f ↦ step r x ∙ rw (f, e) refl
      ])

  all-Takes : (r : Resolved) (rs : List Resolved) → Takes set get r rs (override_all r rs)
  all-Takes r rs = (latest set r rs, latest-Latest set r rs, all-latest r r rs refl)

all-TakesWith :
    {A : Type 0} (set : Resolved → Bool) (get : Resolved → A) (directory : Resolved → Text)
    → ((r x : Resolved) → get (override r x) ≡ (if set x then get x else get r))
    → ((r x : Resolved) → directory (override r x) ≡ (if set x then directory x else directory r))
    → (r : Resolved) (rs : List Resolved) → TakesWith set get directory r rs (override_all r rs)
all-TakesWith set get directory step step_dir r rs = (
  latest set r rs,
  latest-Latest set r rs,
  all-latest set get step r r rs refl,
  all-latest set directory step_dir r r rs refl,
)

all-extends : (r : Resolved) (rs : List Resolved) → (override_all r rs).extends ≡ r.extends
unfolding override_all override
all-extends r [] = refl
all-extends r (x ∷ rs) = all-extends (override r x) rs

all-configs :
    (r : Resolved) (rs : List Resolved) → (override_all r rs).configs ≡ r.configs ++ configs_of rs
unfolding override_all override
all-configs r [] = sym (append-nil r.configs)
all-configs r (x ∷ rs) =
    all-configs (override r x) rs ∙ append_assoc r.configs x.configs (configs_of rs)

pub all-IsMerged : (r : Resolved) (rs : List Resolved) → IsMerged r rs (override_all r rs)
unfolding override
all-IsMerged r rs = record {
  extends = all-extends r rs;
  configs = all-configs r rs;
  base_url = all-TakesWith _ _ _ (λ r x. refl) (λ r x. refl) r rs;
  paths = all-TakesWith _ _ _ (λ r x. refl) (λ r x. refl) r rs;
  types = all-Takes _ _ (λ r x. refl) r rs;
  jsx = all-Takes _ _ (λ r x. refl) r rs;
  jsx_import_source = all-Takes _ _ (λ r x. refl) r rs;
  module_kind = all-Takes _ _ (λ r x. refl) r rs;
  files = all-TakesWith _ _ _ (λ r x. refl) (λ r x. refl) r rs;
  include = all-TakesWith _ _ _ (λ r x. refl) (λ r x. refl) r rs;
  exclude = all-TakesWith _ _ _ (λ r x. refl) (λ r x. refl) r rs;
}
