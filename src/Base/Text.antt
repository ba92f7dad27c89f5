-- ===== src/Base/Text.antt =====
-- Go's strings as lists of code points, and the functions of the package `strings` that the
-- program calls on them. The sources of the program compare, cut and trim at ASCII bytes only,
-- apart from `TrimSpace`, whose Unicode spaces are written out.
pub mod Laws
use Prim.Native.Char.{code}
use mathlib.Core.Path.{◌≡◌, refl, ap}
use mathlib.Core.Logic.{◌↔◌}
use rules_typescript.Base.Tests.{leb, ◌==◌, if◌then◌else◌}
use Prim.Native.Nat.{ℕ, zero, suc}
use Prim.Native.String.{String}
use mathlib.Core.Bool.{Bool, true, false, ◌&&◌, ◌||◌}
use mathlib.Core.Option.{Option, none, some}
use mathlib.Core.List.{List, [], ◌∷◌, ◌++◌, reverse}
use native.Mathlib.Omega.{arith}

abbrev pub Text : Type 0
Text = List ℕ

-- The code points of a literal.
abbrev pub codes : String → Text
codes String.[] = []
codes (String.◌∷◌ c s) = code c ∷ codes s

abbrev pub text_eq : Text → Text → Bool
text_eq [] [] = true
text_eq [] (d ∷ t) = false
text_eq (c ∷ s) [] = false
text_eq (c ∷ s) (d ∷ t) = c == d && text_eq s t

pub eq_of_text_eq : (s t : Text) → text_eq s t ≡ true → s ≡ t
eq_of_text_eq [] [] h = refl
eq_of_text_eq [] (d ∷ t) h = cc
eq_of_text_eq (c ∷ s) [] h = cc
eq_of_text_eq (c ∷ s) (d ∷ t) h = ground (arith, eq_of_text_eq s t)

pub text_eq_refl : (s : Text) → text_eq s s ≡ true
text_eq_refl [] = refl
text_eq_refl (c ∷ s) = ground (arith, text_eq_refl s)

pub text_eq_iff : (s t : Text) → (text_eq s t ≡ true) ↔ (s ≡ t)
text_eq_iff s t = (eq_of_text_eq s t, λ e. cc (text_eq_refl s, ap (text_eq s) e))

-- strings.CutPrefix; `none` is its `false`.
unfoldable pub cut_prefix : Text → Text → Option Text
cut_prefix s [] = some s
cut_prefix [] (p ∷ ps) = none
cut_prefix (c ∷ s) (p ∷ ps) = if c == p then cut_prefix s ps else none

abbrev is_some {ℓ} : {A : Type ℓ} → Option A → Bool
is_some none = false
is_some (some a) = true

abbrev or_else {ℓ} : {A : Type ℓ} → Option A → A → A
or_else none a = a
or_else (some b) a = b

unfoldable pub has_prefix : Text → Text → Bool
unfolding cut_prefix
has_prefix s p = is_some (cut_prefix s p)

unfoldable pub trim_prefix : Text → Text → Text
unfolding cut_prefix
trim_prefix s p = or_else (cut_prefix s p) s

unfoldable pub cut_suffix : Text → Text → Option Text
unfolding cut_prefix
cut_suffix s p = elim (cut_prefix (reverse s) (reverse p)) [
  | none ↦ none
  | some r ↦ some (reverse r)
]

unfoldable pub has_suffix : Text → Text → Bool
unfolding cut_suffix
has_suffix s p = is_some (cut_suffix s p)

unfoldable pub trim_suffix : Text → Text → Text
unfolding cut_suffix
trim_suffix s p = or_else (cut_suffix s p) s

-- Around the first occurrence of a separator: strings.Cut.
unfoldable pub cut : Text → Text → Option (Text × Text)
unfolding cut_prefix
cut [] sep = elim (cut_prefix [] sep) [ none ↦ none | some r ↦ some ([], r) ]
cut (c ∷ s) sep =
    let later = cut s sep in
    elim (cut_prefix (c ∷ s) sep) [
      | some r ↦ some ([], r)
      | none ↦ elim later [ none ↦ none | some (b, a) ↦ some (c ∷ b, a) ]
    ]

-- Around the last occurrence: the slices before and after strings.LastIndex.
unfoldable pub cut_last : Text → Text → Option (Text × Text)
unfolding cut_prefix
cut_last [] sep = elim (cut_prefix [] sep) [ none ↦ none | some r ↦ some ([], r) ]
cut_last (c ∷ s) sep = elim (cut_last s sep) [
  | some (b, a) ↦ some (c ∷ b, a)
  | none ↦ elim (cut_prefix (c ∷ s) sep) [ none ↦ none | some r ↦ some ([], r) ]
]

unfoldable pub contains : Text → Text → Bool
unfolding cut
contains s sub = is_some (cut s sub)

-- strings.Split at one byte: never empty.
unfoldable pub split : Text → ℕ → List Text
split [] sep = [] ∷ []
split (c ∷ s) sep =
    if c == sep
    then [] ∷ split s sep
    else elim (split s sep) [ [] ↦ (c ∷ []) ∷ [] | w ∷ ws ↦ (c ∷ w) ∷ ws ]

-- strings.SplitN at one byte.
unfoldable pub split_n : ℕ → Text → ℕ → List Text
unfolding cut
split_n zero s sep = []
split_n (suc zero) s sep = s ∷ []
split_n (suc (suc n)) s sep = elim (cut s (sep ∷ [])) [
  | none ↦ s ∷ []
  | some (b, a) ↦ b ∷ split_n (suc n) a sep
]

unfoldable pub join : List Text → ℕ → Text
join [] sep = []
join (w ∷ []) sep = w
join (w ∷ v ∷ ws) sep = w ++ (sep ∷ join (v ∷ ws) sep)

-- strings.TrimLeft, TrimRight and Trim, over a test for the cut set.
unfoldable pub trim_left : (ℕ → Bool) → Text → Text
trim_left p [] = []
trim_left p (c ∷ s) = let rest = trim_left p s in if p c then rest else c ∷ s

unfoldable pub trim_right : (ℕ → Bool) → Text → Text
trim_right p [] = []
trim_right p (c ∷ s) = elim (trim_right p s) [
  | [] ↦ (if p c then [] else c ∷ [])
  | d ∷ r ↦ c ∷ d ∷ r
]

unfoldable pub trim : (ℕ → Bool) → Text → Text
unfolding trim_left trim_right
trim p s = trim_right p (trim_left p s)

-- unicode.IsSpace.
unfoldable pub is_space : ℕ → Bool
is_space c =
    (leb 9 c && leb c 13)
    || c == 32
    || c == 0x85
    || c == 0xa0
    || c == 0x1680
    || (leb 0x2000 c && leb c 0x200a)
    || c == 0x2028
    || c == 0x2029
    || c == 0x202f
    || c == 0x205f
    || c == 0x3000

unfoldable pub trim_space : Text → Text
unfolding trim is_space
trim_space = trim is_space

-- strings.ReplaceAll of one byte by another.
unfoldable pub replace_byte : Text → ℕ → ℕ → Text
replace_byte [] old new = []
replace_byte (c ∷ s) old new = (if c == old then new else c) ∷ replace_byte s old new
