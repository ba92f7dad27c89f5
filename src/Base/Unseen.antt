-- ===== src/Base/Unseen.antt =====
-- Counting down the names of a list that a growing set does not hold yet: the measure of a search
-- that visits no name twice.
use rules_typescript.Base.Tests.{if◌then◌else◌, Bool-cases}
use rules_typescript.Base.Lists.{length, In, here, there}
use Prim.Native.Nat.{ℕ, ◌+◌, ◌≤◌, ◌<◌}
use mathlib.Core.Path.{◌≡◌, refl, ap, sym}
use mathlib.Core.Logic.{◌↔◌, inl, inr}
use mathlib.Core.Bool.{true, false}
use mathlib.Core.List.{List, [], ◌∷◌}
use native.Mathlib.Omega.{arith}
use rules_typescript.Base.Text.{Text, text_eq, text_eq_iff}
use rules_typescript.Base.Map.{NameSet, member}

pub member-cons :
    (f g : Text) (s : NameSet) → member f (g ∷ s) ≡ (if text_eq g f then true else member f s)
unfolding member
member-cons f g s = refl

member-In : (f : Text) (fs : NameSet) → member f fs ≡ true → In f fs
unfolding member
member-In f [] h = absurd (cc)
member-In f (g ∷ fs) h = elim (Bool-cases (text_eq g f)) [
  | inl e ↦ here (sym ((text_eq_iff g f).0 e))
  | inr e ↦ there (member-In f fs (rw e at h))
]

In-member : {f : Text} {fs : NameSet} → In f fs → member f fs ≡ true
unfolding member
In-member {f} (here {x} {xs} e) = ground (arith, text_eq_iff x f, sym e)
In-member {f} (there {x} {xs} m) = ground (arith, In-member m)

pub member_iff : (f : Text) (fs : NameSet) → (member f fs ≡ true) ↔ In f fs
member_iff f fs = (member-In f fs, λ m. In-member m)

-- How many names of a list are not in a set.
unfoldable pub unseen : List Text → NameSet → ℕ
unseen [] seen = 0
unseen (f ∷ fs) seen = (if member f seen then 0 else 1) + unseen fs seen

pub unseen-cons :
    (fs : List Text) (f : Text) (seen : NameSet) → unseen fs (f ∷ seen) ≤ unseen fs seen
unfolding unseen
unseen-cons [] f seen = omega arith
unseen-cons (g ∷ fs) f seen = ground (arith, unseen-cons fs f seen, member-cons g f seen)

pub unseen-In :
    {f : Text} {fs : List Text} (seen : NameSet)
    → In f fs
    → member f seen ≡ false
    → unseen fs (f ∷ seen) < unseen fs seen
unfolding unseen
unseen-In {f} seen (here {x} {xs} e) h = ground (
  arith,
  unseen-cons xs f seen,
  member-cons x f seen,
  (text_eq_iff f x).1 e,
  ap (λ g. member g seen) e,
)
unseen-In {f} seen (there {x} {xs} m) h = ground (arith, unseen-In seen m h, member-cons x f seen)

pub unseen-le-length : (fs : List Text) (seen : NameSet) → unseen fs seen ≤ length fs
unfolding unseen
unseen-le-length [] seen = omega arith
unseen-le-length (f ∷ fs) seen = ground (arith, unseen-le-length fs seen)

-- No name twice.
abbrev pub IsDistinct : List Text → Type 0
IsDistinct [] = Unit
IsDistinct (x ∷ xs) = (member x xs ≡ false) × IsDistinct xs

unseen-distinct :
    (xs ys : List Text)
    → IsDistinct xs
    → ((x : Text) → In x xs → In x ys)
    → unseen ys xs + length xs ≤ length ys
unseen-distinct [] ys d h = omega (arith, unseen-le-length ys [])
unseen-distinct (x ∷ xs) ys d h =
    omega
      (arith, unseen-distinct xs ys d.1 (λ y m. h y (there m)), unseen-In xs (h x (here refl)) d.0)

unseen_none :
    {y : Text} {ys : List Text} (s : NameSet) → In y ys → unseen ys s ≡ 0 → member y s ≡ true
unfolding unseen
unseen_none {y} s (here {x} {xs} e) h = ground (arith, ap (λ z. member z s) e)
unseen_none s (there {x} {xs} m) h = unseen_none s m (omega arith)

-- Distinct names among as many names are all of them.
pub pigeonhole :
    (xs ys : List Text)
    → IsDistinct xs
    → ((x : Text) → In x xs → In x ys)
    → length xs ≡ length ys
    → (y : Text) → In y ys
    → member y xs ≡ true
pigeonhole xs ys d h e y m = unseen_none xs m (omega (arith, unseen-distinct xs ys d h))

pub unseen_mono :
    (fs : List Text) (s t : NameSet)
    → ((f : Text) → member f s ≡ true → member f t ≡ true)
    → unseen fs t ≤ unseen fs s
unfolding unseen
unseen_mono [] s t h = omega arith
unseen_mono (f ∷ fs) s t h = ground (arith, unseen_mono fs s t h, h f)
