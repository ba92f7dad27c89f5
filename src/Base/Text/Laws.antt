-- ===== src/Base/Text/Laws.antt =====
-- Laws of the string functions at a separator of one byte, and of trimming.
use mathlib.Core.Path.{◌≡◌, refl}
use mathlib.Core.Bool.{Bool, true, false, not}
use mathlib.Core.Logic.{inl, inr}
use mathlib.Core.Option.{none, some}
use mathlib.Core.List.{List, [], ◌∷◌, ◌++◌, reverse, reverse-append, reverse-reverse}
use native.Mathlib.Omega.{arith}
use Prim.Native.Nat.{ℕ}
use rules_typescript.Base.Tests.{◌==◌, Bool-cases}
use rules_typescript.Base.Lists.{all}
use rules_typescript.Base.Text.{
  Text, cut_prefix, cut, cut_last, cut_suffix, trim_left, trim_right, trim, split, join,
}

-- The byte does not occur.
abbrev pub no_byte : ℕ → Text → Bool
no_byte b s = all (λ c. not (c == b)) s

module _ (b : ℕ) where
  pub cut-append : (s t : Text) → no_byte b s ≡ true → cut (s ++ (b ∷ t)) (b ∷ []) ≡ some (s, t)
  unfolding cut cut_prefix
  cut-append [] t h = ground arith
  cut-append (c ∷ s) t h = ground (arith, cut-append s t)

  pub cut-no_byte : (s : Text) → no_byte b s ≡ true → cut s (b ∷ []) ≡ none
  unfolding cut cut_prefix
  cut-no_byte [] h = refl
  cut-no_byte (c ∷ s) h = ground (arith, cut-no_byte s)

  pub cut_last-no_byte : (s : Text) → no_byte b s ≡ true → cut_last s (b ∷ []) ≡ none
  unfolding cut_last cut_prefix
  cut_last-no_byte [] h = refl
  cut_last-no_byte (c ∷ s) h = ground (arith, cut_last-no_byte s)

  pub cut_last-append :
      (s t : Text) → no_byte b t ≡ true → cut_last (s ++ (b ∷ t)) (b ∷ []) ≡ some (s, t)
  unfolding cut_last cut_prefix
  cut_last-append [] t h = ground (arith, cut_last-no_byte t)
  cut_last-append (c ∷ s) t h = rw (cut_last-append s t h)

  pub split-no_byte : (s : Text) → no_byte b s ≡ true → split s b ≡ s ∷ []
  unfolding split
  split-no_byte [] h = refl
  split-no_byte (c ∷ s) h = ground (arith, split-no_byte s)

  -- A split has a first piece.
  pub split_cons : (s : Text) → (w : Text) × (ws : List Text) × (split s b ≡ w ∷ ws)
  unfolding split
  split_cons [] = ([], [], refl)
  split_cons (c ∷ s) =
      let (w, ws, e) = split_cons s in
      elim (Bool-cases (c == b)) [ inl t ↦ ([], split s b, rw t) | inr f ↦ (c ∷ w, ws, rw (f, e)) ]

  pub split-append : (s t : Text) → split (s ++ (b ∷ t)) b ≡ split s b ++ split t b
  unfolding split
  split-append [] t = ground arith
  split-append (c ∷ s) t = ground (arith, split-append s t, split_cons s)

  -- Splitting a text and joining the pieces gives it back.
  pub join-split : (s : Text) → join (split s b) b ≡ s
  unfolding split join
  join-split [] = refl
  join-split (c ∷ s) = ground (arith, join-split s, split_cons s)

pub cut_prefix-append : (p s : Text) → cut_prefix (p ++ s) p ≡ some s
unfolding cut_prefix
cut_prefix-append [] s = refl
cut_prefix-append (c ∷ p) s = ground (arith, cut_prefix-append p s)

pub cut_suffix-append : (s p : Text) → cut_suffix (s ++ p) p ≡ some s
unfolding cut_suffix
cut_suffix-append s p =
    ground (arith, reverse-append s p, cut_prefix-append (reverse p) (reverse s), reverse-reverse s)

-- A prefix that is cut off is the beginning.
pub cut_prefix-eq : (s p : Text) {r : Text} → cut_prefix s p ≡ some r → s ≡ p ++ r
unfolding cut_prefix
cut_prefix-eq s [] h = cc
cut_prefix-eq [] (d ∷ p) h = cc
cut_prefix-eq (c ∷ s) (d ∷ p) {r} h =
    ground (arith, λ (e : cut_prefix s p ≡ some r). cut_prefix-eq s p e)

module _ (p : ℕ → Bool) where
  -- The last byte, if there is one, is not in the cut set.
  abbrev pub last_kept : Text → Bool
  last_kept [] = true
  last_kept (c ∷ []) = not (p c)
  last_kept (c ∷ d ∷ s) = last_kept (d ∷ s)

  pub last_kept-append :
      (s : Text) (c : ℕ) (t : Text) → last_kept (s ++ (c ∷ t)) ≡ last_kept (c ∷ t)
  last_kept-append [] c t = refl
  last_kept-append (d ∷ []) c t = refl
  last_kept-append (d ∷ e ∷ s) c t = last_kept-append (e ∷ s) c t

  pub all-last_kept : (s : Text) → all (λ c. not (p c)) s ≡ true → last_kept s ≡ true
  all-last_kept [] h = refl
  all-last_kept (c ∷ []) h = ground arith
  all-last_kept (c ∷ d ∷ s) h = ground (arith, all-last_kept (d ∷ s))

  pub trim_right-last_kept : (s : Text) → last_kept s ≡ true → trim_right p s ≡ s
  unfolding trim_right
  trim_right-last_kept [] h = refl
  trim_right-last_kept (c ∷ []) h = ground arith
  trim_right-last_kept (c ∷ d ∷ s) h = ground (arith, trim_right-last_kept (d ∷ s))

  -- A text whose two ends are not in the cut set is trimmed to itself.
  pub trim-ends :
      (c : ℕ) (s : Text) → p c ≡ false → last_kept (c ∷ s) ≡ true → trim p (c ∷ s) ≡ c ∷ s
  unfolding trim trim_left
  trim-ends c s h k = ground (arith, trim_right-last_kept (c ∷ s) k)
