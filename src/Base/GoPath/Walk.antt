-- ===== src/Base/GoPath/Walk.antt =====
-- Walks from a directory towards the root, by `parent_dir`. The fuel is the length of the path,
-- which each step shortens.
use mathlib.Core.Path.{◌≡◌, refl, ap, ◌∙◌}
use mathlib.Core.Bool.{Bool, true}
use mathlib.Core.Option.{Option, none, some}
use mathlib.Core.List.{[]}
use native.Mathlib.Omega.{arith}
use Prim.Native.Nat.{ℕ, zero, suc, ◌≤◌}
use rules_typescript.Base.Tests.{if◌then◌else◌}
use rules_typescript.Base.Lists.{length}
use rules_typescript.Base.Text.{Text, text_eq}
use rules_typescript.Base.GoPath.{parent_dir}
use rules_typescript.Base.GoPath.Dirs.{
  sub, is_name, IsDir, root, child, parent_dir-sub, length-lt-sub, sub-nonempty,
}

module _ (p : Text → Bool) where
  -- `for ; dir != ""; dir = parentDir(dir) { if p(dir) { return dir } }; return ""`
  unfoldable pub walk_up : ℕ → Text → Text
  walk_up zero d = []
  walk_up (suc fuel) d =
      let rest = walk_up fuel (parent_dir d) in if text_eq d [] then [] else if p d then d else rest

  unfoldable pub above : Text → Text
  unfolding walk_up
  above d = walk_up (length d) d

  -- `for ; ; dir = parentDir(dir) { if p(dir) { return dir, true }; if dir == "" { return "", false } }`
  unfoldable pub nearest_loop : ℕ → Text → Option Text
  nearest_loop zero d = if p d then some d else none
  nearest_loop (suc fuel) d =
      let rest = nearest_loop fuel (parent_dir d) in
      if p d then some d else if text_eq d [] then none else rest

  unfoldable pub nearest : Text → Option Text
  unfolding nearest_loop
  nearest d = nearest_loop (length d) d

  walk_up-fuel :
      (f g : ℕ) {d : Text} → IsDir d → length d ≤ f → length d ≤ g → walk_up f d ≡ walk_up g d
  unfolding walk_up
  walk_up-fuel zero zero w h k = refl
  walk_up-fuel zero (suc g) root h k = refl
  walk_up-fuel (suc f) zero root h k = refl
  walk_up-fuel (suc f) (suc g) root h k = refl
  walk_up-fuel zero (suc g) (child d n w e) h k = absurd (omega (arith, length-lt-sub d n e))
  walk_up-fuel (suc f) zero (child d n w e) h k = absurd (omega (arith, length-lt-sub d n e))
  walk_up-fuel (suc f) (suc g) (child d n w e) h k =
      rw (sub-nonempty d n e, parent_dir-sub n w e)
        (ap (λ r. if p (sub d n) then sub d n else r)
          (walk_up-fuel f g w (omega (arith, length-lt-sub d n e))
            (omega (arith, length-lt-sub d n e))))

  walk_up-suc :
      (f : ℕ) (d n : Text)
      → IsDir d
      → is_name n ≡ true
      → walk_up (suc f) (sub d n) ≡ (if p (sub d n) then sub d n else walk_up f d)
  unfolding walk_up
  walk_up-suc f d n w e = rw (sub-nonempty d n e, parent_dir-sub n w e)

  -- One round of the loop, at every directory: the fuel is enough.
  pub above-sub :
      (d n : Text)
      → IsDir d
      → is_name n ≡ true
      → above (sub d n) ≡ (if p (sub d n) then sub d n else above d)
  above-sub d n w e =
      let l = length (sub d n) in
      let lt = length-lt-sub d n e in
      unfold above in
      walk_up-fuel l (suc l) (child d n w e) (omega arith) (omega arith)
      ∙ walk_up-suc l d n w e
      ∙ ap (λ r. if p (sub d n) then sub d n else r)
          (walk_up-fuel l (length d) w (omega arith) (omega arith))

  nearest_loop-fuel :
      (f g : ℕ) {d : Text}
      → IsDir d
      → length d ≤ f
      → length d ≤ g
      → nearest_loop f d ≡ nearest_loop g d
  unfolding nearest_loop
  nearest_loop-fuel zero zero w h k = refl
  nearest_loop-fuel zero (suc g) root h k = ground arith
  nearest_loop-fuel (suc f) zero root h k = ground arith
  nearest_loop-fuel (suc f) (suc g) root h k = refl
  nearest_loop-fuel zero (suc g) (child d n w e) h k = absurd (omega (arith, length-lt-sub d n e))
  nearest_loop-fuel (suc f) zero (child d n w e) h k = absurd (omega (arith, length-lt-sub d n e))
  nearest_loop-fuel (suc f) (suc g) (child d n w e) h k =
      rw (sub-nonempty d n e, parent_dir-sub n w e)
        (ap (λ r. if p (sub d n) then some (sub d n) else r)
          (nearest_loop-fuel f g w (omega (arith, length-lt-sub d n e))
            (omega (arith, length-lt-sub d n e))))

  nearest_loop-suc :
      (f : ℕ) (d n : Text)
      → IsDir d
      → is_name n ≡ true
      → nearest_loop (suc f) (sub d n) ≡ (if p (sub d n) then some (sub d n) else nearest_loop f d)
  unfolding nearest_loop
  nearest_loop-suc f d n w e = rw (sub-nonempty d n e, parent_dir-sub n w e)

  pub nearest-sub :
      (d n : Text)
      → IsDir d
      → is_name n ≡ true
      → nearest (sub d n) ≡ (if p (sub d n) then some (sub d n) else nearest d)
  nearest-sub d n w e =
      let l = length (sub d n) in
      let lt = length-lt-sub d n e in
      unfold nearest in
      nearest_loop-fuel l (suc l) (child d n w e) (omega arith) (omega arith)
      ∙ nearest_loop-suc l d n w e
      ∙ ap (λ r. if p (sub d n) then some (sub d n) else r)
          (nearest_loop-fuel l (length d) w (omega arith) (omega arith))

  pub above-root : above [] ≡ []
  unfolding above
  above-root = refl

  pub nearest-root : nearest [] ≡ (if p [] then some [] else none)
  unfolding nearest
  nearest-root = refl
