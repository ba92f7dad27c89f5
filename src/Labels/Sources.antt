-- ===== src/Labels/Sources.antt =====
-- What `srcLabel` makes of a name: a label that Bazel reads as that target of the package.
use rules_typescript.Base.{
  ℕ, true, false, ◌||◌, Bool-cases, none, some, Option, [], ◌∷◌, ◌==◌, ◌≡◌, sym, ◌∙◌, false≢true,
  arith, ||_false, inl, inr, In, here, there, ==_iff,
}
use rules_typescript.Base.Text.{Text, codes, contains, has_prefix, cut_prefix, cut}
use rules_typescript.Labels.{src_label}

-- How Bazel reads a label of the package that it stands in: a bare target, which neither "@" nor
-- "//" opens, or one behind a colon. A target has no colon.
pub data ReadsAs : Text → Text → Type 0 where
  bare :
      {target : Text}
      → ¬ In b':' target
      → has_prefix target (codes "@") ≡ false
      → has_prefix target (codes "//") ≡ false
      → ReadsAs target target
  pinned : {target : Text} → ¬ In b':' target → ReadsAs (b':' ∷ target) target

-- A label of a name, or that there is none.
pub data Answers (name : Text) : Option Text → Type 0 where
  spelled : {label : Text} → ReadsAs label name → Answers name (some label)
  unspellable : ((label : Text) → ¬ ReadsAs label name) → Answers name none

contains-cons : (b c : ℕ) (s : Text) → contains (c ∷ s) (b ∷ []) ≡ (c == b || contains s (b ∷ []))
contains-cons b c s = unfold contains cut cut_prefix in ground arith

contains-In : (b : ℕ) (s : Text) → contains s (b ∷ []) ≡ true → In b s
contains-In b [] h = absurd (unfold contains cut cut_prefix in cc h)
contains-In b (c ∷ s) h = elim (Bool-cases (c == b)) [
  | inl e ↦ here (sym ((==_iff c b).0 e))
  | inr e ↦ there (contains-In b s (ground (arith, contains-cons b c s)))
]

In-contains : {b : ℕ} {s : Text} → In b s → contains s (b ∷ []) ≡ true
In-contains {b} (here {x} {xs} e) = ground (arith, contains-cons b x xs)
In-contains {b} (there {x} {xs} m) = ground (arith, contains-cons b x xs, In-contains m)

reads_no_colon : {label name : Text} → ReadsAs label name → ¬ In b':' name
reads_no_colon (bare n a s) = n
reads_no_colon (pinned n) = n

-- A source gets a label that Bazel reads as the source's name in the package that is generated,
-- whatever the name begins with; it gets none exactly where no label reads as the name.
pub src_label-Answers : (name : Text) → Answers name (src_label name)
unfolding src_label
src_label-Answers name = elim (Bool-cases (contains name (codes ":"))) [
  | inl t ↦ rw t (unspellable (λ label r. reads_no_colon r (contains-In b':' name t)))
  | inr n ↦
      let no_colon : ¬ In b':' name = λ i. false≢true (sym n ∙ In-contains i) in
      elim (Bool-cases (has_prefix name (codes "@") || has_prefix name (codes "//"))) [
        | inl t ↦ rw (n, t) (spelled (pinned no_colon))
        | inr f ↦
            let (no_at, no_slashes) = ||_false _ _ f in
            rw (n, f) (spelled (bare no_colon no_at no_slashes))
      ]
]
