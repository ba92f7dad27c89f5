-- ===== src/Base/Sort.antt =====
-- `sort.Strings`: insertion sort by the order of the code points. What the program relies on is
-- that the result is sorted and has the same members.
use mathlib.Core.Path.{◌≡◌, refl, sym, subst}
use mathlib.Core.Logic.{inl, inr, ◌↔◌}
use mathlib.Core.Bool.{Bool, true, false}
use mathlib.Core.List.{List, [], ◌∷◌}
use native.Mathlib.Omega.{arith}
use rules_typescript.Base.Tests.{if◌then◌else◌, ltb, ◌==◌, Bool-cases}
use rules_typescript.Base.Lists.{In, here, there}
use rules_typescript.Base.Text.{Text}

unfoldable pub text_le : Text → Text → Bool
text_le [] t = true
text_le (c ∷ s) [] = false
text_le (c ∷ s) (d ∷ t) =
    let rest = text_le s t in if ltb c d then true else if c == d then rest else false

text_le_total : (s t : Text) → text_le s t ≡ false → text_le t s ≡ true
unfolding text_le
text_le_total [] t h = cc
text_le_total (c ∷ s) [] h = refl
text_le_total (c ∷ s) (d ∷ t) h = ground (arith, text_le_total s t)

unfoldable pub insert_sorted : Text → List Text → List Text
unfolding text_le
insert_sorted s [] = s ∷ []
insert_sorted s (t ∷ ts) = if text_le s t then s ∷ t ∷ ts else t ∷ insert_sorted s ts

unfoldable pub sort_strings : List Text → List Text
unfolding insert_sorted
sort_strings [] = []
sort_strings (s ∷ ss) = insert_sorted s (sort_strings ss)

-- Each string is at most the next.
abbrev pub IsSorted : List Text → Type 0
IsSorted [] = Unit
IsSorted (s ∷ []) = Unit
IsSorted (s ∷ t ∷ ts) = (text_le s t ≡ true) × IsSorted (t ∷ ts)

insert_sorted-IsSorted : (s : Text) (ts : List Text) → IsSorted ts → IsSorted (insert_sorted s ts)
unfolding insert_sorted
insert_sorted-IsSorted s [] h = tt
insert_sorted-IsSorted s (t ∷ []) h = elim (Bool-cases (text_le s t)) [
  | inl e ↦ rw e (e, tt)
  | inr e ↦ rw e (text_le_total s t e, tt)
]
insert_sorted-IsSorted s (t ∷ u ∷ ts) h = elim (Bool-cases (text_le s t)) [
  | inl e ↦ rw e (e, h)
  | inr e ↦ rw e (behind s t u ts e h (insert_sorted-IsSorted s (u ∷ ts) h.1))
]
  where
    behind :
        (s t u : Text) (ts : List Text)
        → text_le s t ≡ false
        → IsSorted (t ∷ u ∷ ts)
        → IsSorted (insert_sorted s (u ∷ ts))
        → IsSorted (t ∷ insert_sorted s (u ∷ ts))
    behind s t u ts e h k = elim (Bool-cases (text_le s u)) [
      | inl f ↦ rw f (text_le_total s t e, rw f at k)
      | inr f ↦ rw f (h.0, rw f at k)
    ]

pub sort_strings-IsSorted : (ss : List Text) → IsSorted (sort_strings ss)
unfolding sort_strings
sort_strings-IsSorted [] = tt
sort_strings-IsSorted (s ∷ ss) =
    insert_sorted-IsSorted s (sort_strings ss) (sort_strings-IsSorted ss)

swap_heads : {a s t : Text} {ts : List Text} → In a (t ∷ s ∷ ts) → In a (s ∷ t ∷ ts)
swap_heads (here e) = there (here e)
swap_heads (there (here e)) = here e
swap_heads (there (there m)) = there (there m)

under : {a t : Text} {xs ys : List Text} → (In a xs → In a ys) → In a (t ∷ xs) → In a (t ∷ ys)
under f (here e) = here e
under f (there m) = there (f m)

insert_sorted-In :
    {a : Text} (s : Text) (ts : List Text) → In a (insert_sorted s ts) → In a (s ∷ ts)
unfolding insert_sorted
insert_sorted-In s [] m = m
insert_sorted-In {a} s (t ∷ ts) m = elim (Bool-cases (text_le s t)) [
  | inl e ↦ subst (λ b. In a (if b then s ∷ t ∷ ts else t ∷ insert_sorted s ts)) e m
  | inr e ↦ swap_heads (
      under (insert_sorted-In s ts)
        (subst (λ b. In a (if b then s ∷ t ∷ ts else t ∷ insert_sorted s ts)) e m))
]

In-insert_sorted :
    {a : Text} (s : Text) (ts : List Text) → In a (s ∷ ts) → In a (insert_sorted s ts)
unfolding insert_sorted
In-insert_sorted s [] m = m
In-insert_sorted {a} s (t ∷ ts) m = elim (Bool-cases (text_le s t)) [
  | inl e ↦ subst (λ b. In a (if b then s ∷ t ∷ ts else t ∷ insert_sorted s ts)) (sym e) m
  | inr e ↦
      subst (λ b. In a (if b then s ∷ t ∷ ts else t ∷ insert_sorted s ts)) (sym e)
        (under (In-insert_sorted s ts) (swap_heads m))
]

sort_strings-In : {a : Text} (ss : List Text) → In a (sort_strings ss) → In a ss
unfolding sort_strings
sort_strings-In [] m = m
sort_strings-In (s ∷ ss) m = under (sort_strings-In ss) (insert_sorted-In s (sort_strings ss) m)

In-sort_strings : {a : Text} (ss : List Text) → In a ss → In a (sort_strings ss)
unfolding sort_strings
In-sort_strings [] m = m
In-sort_strings (s ∷ ss) m = In-insert_sorted s (sort_strings ss) (under (In-sort_strings ss) m)

-- Sorting keeps the members.
pub sort_strings_iff : {a : Text} (ss : List Text) → (In a (sort_strings ss)) ↔ (In a ss)
sort_strings_iff ss = (sort_strings-In ss, In-sort_strings ss)
