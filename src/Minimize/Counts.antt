-- ===== src/Minimize/Counts.antt =====
-- Counts by name, Go's `map[string]int`.
use rules_typescript.Base.{
  ℕ, suc, ◌+◌, ◌-◌, ◌<◌, Bool, true, false, List, [], ◌∷◌, ◌++◌, ◌==◌, ltb, if◌then◌else◌, In, here,
  there, Bool-cases, ◌⊎◌, inl, inr, ◌≡◌, refl, sym, arith,
}
use rules_typescript.Base.Text.{Text, text_eq, text_eq_iff, eq_of_text_eq}
use rules_typescript.Base.Map.{member}

abbrev pub Counts : Type 0
Counts = Text → ℕ

unfoldable pub set_count : Text → ℕ → Counts → Counts
set_count k n counts x = if text_eq k x then n else counts x

-- `+=` for each name, and the names whose count is 0 behind it.
unfoldable pub add_each : (ℕ → ℕ) → List Text → Counts → List Text × Counts
unfolding set_count
add_each delta [] counts = ([], counts)
add_each delta (k ∷ ks) counts =
    let n = delta (counts k) in
    let rest = add_each delta ks (set_count k n counts) in
    (if n == 0 then k ∷ rest.0 else rest.0, rest.1)

abbrev pub one_less : ℕ → ℕ
one_less n = n - 1

-- How often a name is in a list.
unfoldable pub count : Text → List Text → ℕ
count x [] = 0
count x (k ∷ ks) = if text_eq k x then suc (count x ks) else count x ks

pub count-append : (x : Text) (ks js : List Text) → count x (ks ++ js) ≡ count x ks + count x js
unfolding count
count-append x [] js = omega arith
count-append x (k ∷ ks) js = ground (arith, count-append x ks js)

pub member-count : (x : Text) (ks : List Text) → member x ks ≡ ltb 0 (count x ks)
unfolding member count
member-count x [] = refl
member-count x (k ∷ ks) = ground (arith, member-count x ks)

pub add_each-suc :
    (x : Text) (ks : List Text) (counts : Counts)
    → (add_each suc ks counts).1 x ≡ counts x + count x ks
unfolding add_each count
add_each-suc x [] counts = omega arith
add_each-suc x (k ∷ ks) counts =
    ground (arith, text_eq_iff k x, add_each-suc x ks (set_count k (suc (counts k)) counts))

pub add_each-one_less :
    (x : Text) (ks : List Text) (counts : Counts)
    → (add_each one_less ks counts).1 x ≡ counts x - count x ks
unfolding add_each count
add_each-one_less x [] counts = omega arith
add_each-one_less x (k ∷ ks) counts =
    ground (arith, text_eq_iff k x, add_each-one_less x ks (set_count k (counts k - 1) counts))

reported :
    (b : Bool) (x k : Text) (rest : List Text)
    → (b ≡ true → (x ≡ k) ⊎ (In x rest))
    → (b ≡ false → In x rest)
    → In x (if b then k ∷ rest else rest)
reported true x k rest h g = elim (h refl) [ inl e ↦ here e | inr m ↦ there m ]
reported false x k rest h g = g refl

-- A count that falls to 0 is reported.
pub add_each_lost :
    (x : Text) (ks : List Text) (counts : Counts)
    → 0 < counts x
    → (add_each one_less ks counts).1 x ≡ 0
    → In x (add_each one_less ks counts).0
unfolding add_each
add_each_lost x [] counts positive none_left = absurd (omega arith)
add_each_lost x (k ∷ ks) counts positive none_left =
    let n = one_less (counts k) in
    let after = set_count k n counts in
    let inner : 0 < after x → In x (add_each one_less ks after).0 =
      λ p. add_each_lost x ks after p none_left in
    elim (Bool-cases (text_eq k x)) [
      | inl same ↦
          reported (n == 0) x k _ (λ z. inl (sym (eq_of_text_eq k x same)))
            (λ z. inner (unfold set_count in ground arith))
      | inr other ↦
          let p : 0 < after x = unfold set_count in ground arith in
          reported (n == 0) x k _ (λ z. inr (inner p)) (λ z. inner p)
    ]
