-- ===== src/Program/Unreached.antt =====
-- What `unreached` answers when it finds no difference.
use rules_typescript.Base.{true, some, List, [], ◌∷◌, ◌++◌, ◌≡◌, ◌↔◌, refl, subst, arith, In, here}
use rules_typescript.Base.Text.{Text, text_eq_iff}
use rules_typescript.Base.Map.{NameSet, member}
use rules_typescript.Base.Sort.{sort_strings, sort_strings_iff}
use rules_typescript.Program.{Program, not_in, unlisted, difference, unreached}
use rules_typescript.Program.Reach.{Reaches}
use rules_typescript.Program.Rounds.{rounds_needed, reachable_total}

In-empty : {f : Text} (xs : List Text) → xs ≡ [] → In f xs → (A : Type 0) → A
In-empty [] e m A = elim m [ ]
In-empty (x ∷ xs) e m A = absurd (cc)

sorted_empty : (xs : List Text) → sort_strings xs ≡ [] → xs ≡ []
sorted_empty [] e = refl
sorted_empty (x ∷ xs) e =
    In-empty (sort_strings (x ∷ xs)) e ((sort_strings_iff (x ∷ xs)).1 (here refl)) (x ∷ xs ≡ [])

not_in_empty :
    (seen : NameSet) (fs : List Text) (f : Text)
    → not_in seen fs ≡ []
    → member f fs ≡ true
    → member f seen ≡ true
unfolding not_in member
not_in_empty seen [] f e m = cc
not_in_empty seen (g ∷ fs) f e m = ground (
  arith,
  text_eq_iff g f,
  λ (q : not_in seen fs ≡ []) (k : member f fs ≡ true). not_in_empty seen fs f q k,
)

unlisted_empty : (xs : List Text) → unlisted xs ≡ [] → xs ≡ []
unfolding unlisted
unlisted_empty [] e = refl
unlisted_empty (x ∷ xs) e = cc

append_empty : (xs ys : List Text) → xs ++ ys ≡ [] → (xs ≡ []) × (ys ≡ [])
append_empty [] ys e = (refl, e)
append_empty (x ∷ xs) ys e = cc

same_files :
    (files found : NameSet)
    → difference files (some found) ≡ some []
    → (f : Text) → (member f files ≡ true) ↔ (member f found ≡ true)
unfolding difference
same_files files found h f =
    let e : sort_strings (not_in found files ++ unlisted (not_in files found)) ≡ [] = cc in
    let (a, b) = append_empty _ _ (sorted_empty _ e) in
    (not_in_empty found files f a, not_in_empty files found f (unlisted_empty _ b))

-- A listing with nothing unreached holds exactly the files that its entries and edges reach.
pub unreached-Reaches :
    (p : Program) (files : List Text) (f : Text)
    → unreached p (rounds_needed p) files ≡ some []
    → (member f files ≡ true) ↔ Reaches p f
unfolding unreached
unreached-Reaches p files f h =
    let (found, e, reaches) = reachable_total p in
    let same = same_files files found (subst (λ o. difference files o ≡ some []) e h) f in
    (λ m. (reaches f).0 (same.0 m), λ r. same.1 ((reaches f).1 r))
