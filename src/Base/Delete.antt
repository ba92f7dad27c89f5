-- ===== src/Base/Delete.antt =====
-- slices.DeleteFunc.
use rules_typescript.Base.Tests.{if◌then◌else◌, Bool-cases}
use rules_typescript.Base.Lists.{In, here, there}
use mathlib.Core.Path.{◌≡◌, sym, ap, ◌∙◌}
use mathlib.Core.Logic.{inl, inr}
use mathlib.Core.Bool.{Bool, false}
use mathlib.Core.List.{List, [], ◌∷◌}

module _ {ℓ} {A : Type ℓ} (p : A → Bool) where
  unfoldable pub delete_func : List A → List A
  delete_func [] = []
  delete_func (x ∷ xs) = let rest = delete_func xs in if p x then rest else x ∷ rest

  kept_in : {a x : A} {xs ys : List A} → (In a ys → In a xs) → In a (x ∷ ys) → In a (x ∷ xs)
  kept_in f (here e) = here e
  kept_in f (there m) = there (f m)

  -- What is left was there.
  pub delete_func-In : {a : A} (xs : List A) → In a (delete_func xs) → In a xs
  unfolding delete_func
  delete_func-In [] m = m
  delete_func-In (x ∷ xs) m = elim (Bool-cases (p x)) [
    | inl e ↦ there (delete_func-In xs (rw e at m))
    | inr e ↦ kept_in (delete_func-In xs) (rw e at m)
  ]

  -- What the test spares is left.
  pub In-delete_func : {a : A} {xs : List A} → In a xs → p a ≡ false → In a (delete_func xs)
  unfolding delete_func
  In-delete_func (here {x} {xs} e) h = rw (sym (ap p e) ∙ h) (here e)
  In-delete_func (there {x} {xs} m) h = elim (Bool-cases (p x)) [
    | inl e ↦ rw e (In-delete_func m h)
    | inr e ↦ rw e (there (In-delete_func m h))
  ]
