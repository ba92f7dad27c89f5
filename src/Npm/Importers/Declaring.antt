-- ===== src/Npm/Importers/Declaring.antt =====
-- The walk from importer to importer against the plain walk over the directories.
use rules_typescript.Base.{
  ℕ, zero, suc, ◌≤◌, Bool, true, false, none, some, [], if◌then◌else◌, Bool-cases, length, ◌≡◌,
  refl, sym, ◌∙◌, ap, inl, inr, arith,
}
use rules_typescript.Base.Text.{Text}
use rules_typescript.Base.Map.{has_key}
use rules_typescript.Base.GoPath.Dirs.{
  sub, is_name, IsDir, root, child, parent_dir-sub, length-lt-sub, sub-nonempty,
}
use rules_typescript.Base.GoPath.Walk.{above-sub, above-root, nearest, nearest-sub, nearest-root}
use rules_typescript.Npm.Importers.{
  NpmLock, importer_above, declares, declaring_loop, importer_declaring,
}

-- A directory that declares a name is an importer.
declares-has_key :
    (l : NpmLock) (name : Text) (is_member : Bool) (d : Text)
    → has_key d l.importers ≡ false
    → declares l name is_member d ≡ false
declares-has_key l name is_member d h = unfold declares has_key in ground arith

module _ (l : NpmLock) (name : Text) (is_member : Bool) where
  abbrev imp : Text → Bool
  imp d = has_key d l.importers

  abbrev q : Text → Bool
  q = declares l name is_member

  above-sub_importer :
      (d n : Text)
      → IsDir d
      → is_name n ≡ true
      → importer_above l (sub d n) ≡ (if imp (sub d n) then sub d n else importer_above l d)
  above-sub_importer d n w e = unfold importer_above in above-sub imp d n w e

  above-root_importer : importer_above l [] ≡ []
  above-root_importer = unfold importer_above in above-root imp

  loop-empty : (f : ℕ) → declaring_loop l name is_member f [] ≡ (if q [] then some [] else none)
  unfolding declaring_loop
  loop-empty zero = refl
  loop-empty (suc f) = ground arith

  loop-root : (f : ℕ) → declaring_loop l name is_member f (importer_above l []) ≡ nearest q []
  loop-root f =
      ap (declaring_loop l name is_member f) above-root_importer
      ∙ loop-empty f
      ∙ sym (nearest-root q)

  -- At an importer that lies below `d` by one name.
  loop-importer :
      (f : ℕ) (d n : Text)
      → IsDir d
      → is_name n ≡ true
      → declaring_loop l name is_member (suc f) (sub d n) ≡ (
          if q (sub d n)
          then some (sub d n)
          else declaring_loop l name is_member f (importer_above l d))
  loop-importer f d n w e = unfold declaring_loop in rw (sub-nonempty d n e, parent_dir-sub n w e)

  loop-nearest :
      (f : ℕ) {d : Text}
      → IsDir d
      → length d ≤ f
      → declaring_loop l name is_member f (importer_above l d) ≡ nearest q d
  loop-nearest f root h = loop-root f
  loop-nearest zero (child d n w e) h = absurd (omega (arith, length-lt-sub d n e))
  loop-nearest (suc f) (child d n w e) h =
      let shorter = length-lt-sub d n e in
      elim (Bool-cases (imp (sub d n))) [
        | inl t ↦
            ap (declaring_loop l name is_member (suc f)) (above-sub_importer d n w e ∙ rw t)
            ∙ loop-importer f d n w e
            ∙ ap (λ r. if q (sub d n) then some (sub d n) else r) (loop-nearest f w (omega arith))
            ∙ sym (nearest-sub q d n w e)
        | inr no_importer ↦
            ap (declaring_loop l name is_member (suc f))
              (above-sub_importer d n w e ∙ rw no_importer)
            ∙ loop-nearest (suc f) w (omega arith)
            ∙ sym (
                nearest-sub q d n w e
                ∙ rw (declares-has_key l name is_member (sub d n) no_importer))
      ]

-- Stepping from importer to importer finds what a walk over every directory finds: the nearest
-- directory at or above, the root included, whose importer declares the name or, for a member,
-- links it.
pub importer_declaring-nearest :
    (l : NpmLock) (name : Text) (is_member : Bool) {dir : Text}
    → IsDir dir
    → importer_declaring l name dir is_member ≡ nearest (declares l name is_member) dir
unfolding importer_declaring
importer_declaring-nearest l name is_member w = loop-nearest l name is_member _ w (omega arith)
