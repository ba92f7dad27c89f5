-- ===== src/Jsonc/Lines.antt =====
-- `Strip` preserves the newlines, so that a parse error keeps its line.
use mathlib.Core.List.{reverse-append}
use native.Mathlib.Nat.{zero-add}
use rules_typescript.Base.{
  ◌⊎◌, inl, inr, ℕ, ◌+◌, true, [], ◌∷◌, ◌++◌, ◌==◌, if◌then◌else◌, reverse, ◌≡◌, refl, ◌∙◌, arith,
}
use rules_typescript.Base.Text.{Text}
use rules_typescript.Jsonc.{
  Mode, code, block_start, block_end, next_is, drop_comma_back, drop_trailing_comma, step, run,
  strip,
}

-- How many newlines a text holds.
unfoldable pub newlines : Text → ℕ
newlines [] = 0
newlines (c ∷ s) = (if c == b'\n' then 1 else 0) + newlines s

newlines-append : (s t : Text) → newlines (s ++ t) ≡ newlines s + newlines t
unfolding newlines
newlines-append [] t = omega arith
newlines-append (c ∷ s) t = omega (arith, newlines-append s t)

newlines-reverse : (s : Text) → newlines (reverse s) ≡ newlines s
unfolding newlines
newlines-reverse [] = refl
newlines-reverse (c ∷ s) =
    rw (reverse-append (c ∷ []) s)
      (omega (arith, newlines-append (reverse s) (c ∷ []), newlines-reverse s))

newlines-drop_comma_back : (s : Text) → newlines (drop_comma_back s) ≡ newlines s
unfolding newlines drop_comma_back
newlines-drop_comma_back [] = refl
newlines-drop_comma_back (c ∷ s) = ground (arith, newlines-drop_comma_back s)

newlines-drop_trailing_comma : (s : Text) → newlines (drop_trailing_comma s) ≡ newlines s
unfolding drop_trailing_comma
newlines-drop_trailing_comma s =
    newlines-reverse (drop_comma_back (reverse s))
    ∙ newlines-drop_comma_back (reverse s)
    ∙ newlines-reverse s

-- The modes in which the next byte is known not to be a newline.
abbrev Expects : Mode → Text → Type 0
Expects block_start s = next_is b'*' s ≡ true
Expects block_end s = next_is b'/' s ≡ true
Expects _ s = Unit {0}

step-newlines :
    (m : Mode) (out : Text) (c : ℕ) (rest : Text)
    → Expects m (c ∷ rest)
    → newlines (step m out c rest).1 ≡ newlines out + newlines (c ∷ [])
unfolding newlines step
step-newlines code out c rest h = ground (
  arith,
  newlines-append out (c ∷ []),
  newlines-append (drop_trailing_comma out) (c ∷ []),
  newlines-drop_trailing_comma out,
)
step-newlines _ out c rest h = ground (arith, newlines-append out (c ∷ []))

step-Expects : (m : Mode) (out : Text) (c : ℕ) (rest : Text) → Expects (step m out c rest).0 rest
unfolding step
step-Expects code out c rest = ground arith
step-Expects _ out c rest = ground arith

run-newlines :
    (m : Mode) (out s : Text)
    → (s ≡ []) ⊎ Expects m s
    → newlines (run m out s) ≡ newlines out + newlines s
unfolding run
run-newlines m out [] h = unfold newlines in omega arith
run-newlines m out (c ∷ s) (inl e) = cc
run-newlines m out (c ∷ s) (inr h) = omega (
  arith,
  run-newlines (step m out c s).0 (step m out c s).1 s (inr (step-Expects m out c s)),
  step-newlines m out c s h,
  newlines-append (c ∷ []) s,
)

-- Stripping comments and trailing commas keeps the number of newlines, whatever the text, so a
-- later parse error is at its own line.
pub newlines-strip : (data_ : Text) → newlines (strip data_) ≡ newlines data_
unfolding strip
newlines-strip data_ = run-newlines code [] data_ (inr tt) ∙ unfold newlines in rw zero-add
