-- ===== src/Scan/Lengths.antt =====
-- A piece of a source leaves no more than the source it was read from.
use rules_typescript.Base.{
  ℕ, ◌≤◌, Bool, false, not, ◌&&◌, ◌||◌, some, [], ◌∷◌, ◌==◌, if◌then◌else◌, inl, inr, Option-cases,
  length, ◌≡◌, arith,
}
use rules_typescript.Base.Text.{Text, codes, cut, cut_prefix}
use rules_typescript.Scan.Pieces.{
  tail_text, is_ident_part, span, quoted_body, template_body, regex_body, past_angle,
}
use rules_typescript.Scan.Steps.{operator_at}

pub length-span : (p : ℕ → Bool) (s : Text) → length (span p s).1 ≤ length s
unfolding span
length-span p [] = omega arith
length-span p (c ∷ s) = ground (arith, length-span p s)

pub length-tail_text : (s : Text) → length (tail_text s) ≤ length s
length-tail_text [] = omega arith
length-tail_text (c ∷ s) = omega arith

length-cut_prefix : (s p r : Text) → cut_prefix s p ≡ some r → length r ≤ length s
unfolding cut_prefix
length-cut_prefix s [] r h = ground arith
length-cut_prefix [] (d ∷ p) r h = ground arith
length-cut_prefix (c ∷ s) (d ∷ p) r h = ground (arith, length-cut_prefix s p r)

pub length-cut : (s sep b a : Text) → cut s sep ≡ some (b, a) → length a ≤ length s
unfolding cut
length-cut [] sep b a h = ground (arith, length-cut_prefix [] sep a)
length-cut (c ∷ s) sep b a h = elim (Option-cases (cut s sep)) [
  | inl none_left ↦ ground (arith, length-cut_prefix (c ∷ s) sep a)
  | inr ((b', a'), more) ↦
      ground (arith, length-cut_prefix (c ∷ s) sep a, length-cut s sep b' a' more)
]

pub length-quoted_body :
    (q : ℕ) (e : Bool) (s text r : Text) → quoted_body q e s ≡ some (text, r) → length r ≤ length s
unfolding quoted_body
length-quoted_body q e [] text r h = ground arith
length-quoted_body q e (c ∷ s) text r h =
    elim (Option-cases (quoted_body q (not e && c == b'\\') s)) [
      | inl none_left ↦ ground arith
      | inr ((text', r'), more) ↦
          ground (arith, length-quoted_body q (not e && c == b'\\') s text' r' more)
    ]

pub length-template_body :
    (e : Bool) (s : Text) (b : Bool) (r : Text)
    → template_body e s ≡ some (b, r)
    → length r ≤ length s
unfolding template_body
length-template_body e [] b r h = ground arith
length-template_body e (c ∷ s) b r h =
    ground (arith, length-template_body (not e && c == b'\\') s b r, length-tail_text s)

pub length-regex_body : (e k : Bool) (s r : Text) → regex_body e k s ≡ some r → length r ≤ length s
unfolding regex_body
length-regex_body e k [] r h = ground arith
length-regex_body e k (c ∷ s) r h = ground (
  arith,
  length-regex_body (not e && c == b'\\')
      (if e || c == b'\\' then k else (k || c == b'[') && not (c == b']')) s r,
  length-span is_ident_part s,
)

pub length-past_angle : (s r : Text) → past_angle s ≡ some r → length r ≤ length s
unfolding past_angle
length-past_angle [] r h = ground arith
length-past_angle (c ∷ s) r h = ground (arith, length-past_angle s r)

pub length-operator_at : (c : ℕ) (s : Text) → length (operator_at c s).1 ≤ length s
unfolding operator_at
length-operator_at c [] = omega arith
length-operator_at c (d ∷ s) = ground (arith, length-tail_text s)

-- A string ends with its quote.
complete_quoted_body :
    (q : ℕ) (e : Bool) (s text r : Text) → quoted_body q e s ≡ some (text, r) → 1 ≤ length text
unfolding quoted_body
complete_quoted_body q e [] text r h = ground arith
complete_quoted_body q e (c ∷ s) text r h =
    elim (Option-cases (quoted_body q (not e && c == b'\\') s)) [
      | inl none_left ↦ ground arith
      | inr ((text', r'), more) ↦ ground arith
    ]

-- The same, for what follows a text of at most a given length.
module _ (n : ℕ) (r : Text) (small : length r ≤ n) where
  pub span_within : (p : ℕ → Bool) → length (span p r).1 ≤ n
  span_within p = omega (arith, length-span p r)

  pub string_within :
      (c : ℕ) (text a : Text)
      → quoted_body c false r ≡ some (text, a)
      → (1 ≤ length text) × (length a ≤ n)
  string_within c text a e = (
    complete_quoted_body c false r text a e,
    omega (arith, length-quoted_body c false r text a e),
  )

  pub template_within : (b : Bool) (a : Text) → template_body false r ≡ some (b, a) → length a ≤ n
  template_within b a e = omega (arith, length-template_body false r b a e)

  pub regex_within : (a : Text) → regex_body false false r ≡ some a → length a ≤ n
  regex_within a e = omega (arith, length-regex_body false false r a e)

  pub comment_within : (b a : Text) → cut (tail_text r) (codes "*/") ≡ some (b, a) → length a ≤ n
  comment_within b a e =
      omega (arith, length-tail_text r, length-cut (tail_text r) (codes "*/") b a e)

  pub angle_within : (a : Text) → past_angle r ≡ some a → length a ≤ n
  angle_within a e = omega (arith, length-past_angle r a e)

  pub operator_within : (c : ℕ) → length (operator_at c r).1 ≤ n
  operator_within c = omega (arith, length-operator_at c r)

  pub tail_within : length (tail_text r) ≤ n
  tail_within = omega (arith, length-tail_text r)
