-- ===== src/Patch/Outcomes.antt =====
-- What holds of a patch where there is one, through a chain of steps.
use rules_typescript.Base.{◌≡◌, subst}
use rules_typescript.Base.Text.{Text}
use rules_typescript.Patch.Edits.{Patched, patched, refused, no_rounds, and_then}

-- Nothing is asked of a refusal.
pub data Holds {A : Type 0} (P : A → Type 0) : Patched A → Type 0 where
  holds : {a : A} → P a → Holds P (patched a)
  refusal : {why : Text} → Holds P (refused why)
  starving : Holds P no_rounds

pub Holds-patched :
    {A : Type 0} {P : A → Type 0} {m : Patched A} {a : A} → Holds P m → m ≡ patched a → P a
Holds-patched {P} (holds {a} p) e = subst_patched P e p
  where
    subst_patched : {A : Type 0} (P : A → Type 0) {a b : A} → patched a ≡ patched b → P a → P b
    subst_patched P e p = subst P (cc) p
Holds-patched refusal e = absurd (cc)
Holds-patched starving e = absurd (cc)

pub Holds-trivial : {A : Type 0} (m : Patched A) → Holds (λ a. Unit {0}) m
Holds-trivial (patched a) = holds tt
Holds-trivial (refused why) = refusal
Holds-trivial no_rounds = starving

pub and_then-Holds :
    {A B : Type 0} (P : A → Type 0) {Q : B → Type 0} {m : Patched A} {f : A → Patched B}
    → Holds P m
    → ((a : A) → P a → Holds Q (f a))
    → Holds Q (and_then m f)
and_then-Holds P (holds {a} p) k = k a p
and_then-Holds P refusal k = refusal
and_then-Holds P starving k = starving

-- A step of which nothing is asked.
pub after_any :
    {A B : Type 0} {Q : B → Type 0} (m : Patched A) {f : A → Patched B}
    → ((a : A) → Holds Q (f a))
    → Holds Q (and_then m f)
after_any m k = and_then-Holds (λ a. Unit {0}) (Holds-trivial m) (λ a u. k a)
