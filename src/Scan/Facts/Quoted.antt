-- ===== src/Scan/Facts/Quoted.antt =====
-- Every specifier that a scan finds has its quotes.
use rules_typescript.Base.{
  ℕ, suc, ◌≤◌, Bool, true, false, not, ◌&&◌, ◌||◌, Option, none, some, List, [], ◌∷◌, ◌++◌,
  if◌then◌else◌, if-elim, inl, inr, Option-cases, &&_true, ||_true, length, In, here, there,
  In-append, ◌≡◌, refl, sym, subst, arith,
}
use rules_typescript.Base.Text.{Text, codes, text_eq, eq_of_text_eq, cut, has_prefix, contains}
use rules_typescript.Base.GoPath.{ext}
use rules_typescript.Scan.{
  Token, TokenKind, identifier, is_string, string, number, punctuation, template, no_kind, Scanner,
  fact_of, with_fact, is_word, emit, recognize,
}
use rules_typescript.Scan.Pieces.{pragma_in, jsdoc_facts, comment_facts}
use rules_typescript.Scan.Steps.{Outcome, done, unscannable, out_of_fuel, comment}
use rules_typescript.Scan.Rounds.{IsComplete, Ends, ends_at, fails}
use rules_typescript.Scan.Total.{scan_source-Ends}
use rules_typescript.Scan.Facts.{
  Specs, Answer, answer, unreadable, and_first, all_but_last, unquoted, and_add, with_spec,
  add_fact, specs_loop, sorted_specs, specifiers_of, specifiers,
}

-- What a scan adds to the facts.
data IsFact : Text → Type 0 where
  imports : (t : Text) → 2 ≤ length t → IsFact (codes "import " ++ t)
  requires : (t : Text) → 2 ≤ length t → IsFact (codes "require " ++ t)
  in_jsdoc : (t : Text) → 2 ≤ length t → IsFact (codes "jsdoc " ++ t)
  augments : (t : Text) → IsFact (codes "augment " ++ t)
  directs : (t : Text) → IsFact (codes "directive " ++ t)
  has_pragma : (t : Text) → IsFact (codes "pragma " ++ t)

abbrev AreFacts : List Text → Type 0
AreFacts facts = (f : Text) → In f facts → IsFact f

data IsFactOrNone : Option Text → Type 0 where
  no_fact : IsFactOrNone none
  one_fact : {f : Text} → IsFact f → IsFactOrNone (some f)

AreFacts-append : (xs ys : List Text) → AreFacts xs → AreFacts ys → AreFacts (xs ++ ys)
AreFacts-append xs ys h k f m = elim (In-append xs m) [ inl l ↦ h f l | inr r ↦ k f r ]

one-AreFacts : (g : Text) → IsFact g → AreFacts (g ∷ [])
one-AreFacts g h f (here e) = subst IsFact (sym e) h
one-AreFacts g h f (there m) = elim m [ ]

nil-AreFacts : AreFacts []
nil-AreFacts f m = elim m [ ]

call-IsFact :
    (text word : Text)
    → 2 ≤ length text
    → text_eq word (codes "require") || text_eq word (codes "import") ≡ true
    → IsFact (word ++ (b' ' ∷ text))
call-IsFact text word enough h = elim (||_true _ _ h) [
  | inl r ↦
      subst (λ w. IsFact (w ++ (b' ' ∷ text))) (sym (eq_of_text_eq word (codes "require") r))
        (requires text enough)
  | inr i ↦
      subst (λ w. IsFact (w ++ (b' ' ∷ text))) (sym (eq_of_text_eq word (codes "import") i))
        (imports text enough)
]

fact_of-IsFactOrNone :
    (text : Text) (older : List Token) → 2 ≤ length text → IsFactOrNone (fact_of text older)
unfolding fact_of
fact_of-IsFactOrNone text [] enough = no_fact
fact_of-IsFactOrNone text (a ∷ []) enough =
    if-elim IsFactOrNone (is_word a (codes "from") (codes "import")) _ _
      (λ _. one_fact (imports text enough)) (λ _. no_fact)
fact_of-IsFactOrNone text (a ∷ b ∷ older) enough =
    if-elim IsFactOrNone (is_word a (codes "from") (codes "import")) _ _
      (λ _. one_fact (imports text enough))
      (λ _.
        if-elim IsFactOrNone
          (text_eq a.text (codes "(") && is_word b (codes "require") (codes "import")) _ _
          (λ call. one_fact (call-IsFact text b.text enough (&&_true _ _ (&&_true _ _ call).1).1))
          (λ _.
            if-elim IsFactOrNone
              (text_eq b.text (codes "declare") && text_eq a.text (codes "module")) _ _
              (λ _. one_fact (augments text)) (λ _. no_fact)))

with_fact-AreFacts :
    (o : Option Text) (facts : List Text)
    → IsFactOrNone o
    → AreFacts facts
    → AreFacts (with_fact o facts)
with_fact-AreFacts none facts h k = k
with_fact-AreFacts (some f) facts (one_fact h) k =
    AreFacts-append facts (f ∷ []) k (one-AreFacts f h)

by_kind-AreFacts :
    (kind : TokenKind) (text : Text) (older : List Token) (facts : List Text)
    → IsComplete kind text
    → AreFacts facts
    → AreFacts (if is_string kind then with_fact (fact_of text older) facts else facts)
by_kind-AreFacts string text older facts complete good =
    with_fact-AreFacts _ facts (fact_of-IsFactOrNone text older complete) good
by_kind-AreFacts no_kind text older facts complete good = good
by_kind-AreFacts identifier text older facts complete good = good
by_kind-AreFacts number text older facts complete good = good
by_kind-AreFacts punctuation text older facts complete good = good
by_kind-AreFacts template text older facts complete good = good

emit-AreFacts :
    (t : Token) (s : Scanner)
    → IsComplete t.kind t.text
    → AreFacts s.facts
    → AreFacts (emit t s).facts
unfolding emit recognize
emit-AreFacts t s complete good = by_kind-AreFacts t.kind t.text s.toks s.facts complete good

pragma_in-AreFacts : (text pragma : Text) → AreFacts (pragma_in text pragma)
unfolding pragma_in
pragma_in-AreFacts text pragma = elim (Option-cases (cut text pragma)) [
  | inl e ↦ rw (e, pragma_in) nil-AreFacts
  | inr (p, e) ↦ rw (e, pragma_in) (one-AreFacts _ (has_pragma _))
]

module _ (jsdoc_import : Text → List Text)
    (quotes : (text spec : Text) → In spec (jsdoc_import text) → 2 ≤ length spec) where
  jsdoc_facts-AreFacts :
      (specs : List Text)
      → ((spec : Text) → In spec specs → 2 ≤ length spec)
      → AreFacts (jsdoc_facts specs)
  unfolding jsdoc_facts
  jsdoc_facts-AreFacts [] h = nil-AreFacts
  jsdoc_facts-AreFacts (spec ∷ specs) h =
      AreFacts-append ((codes "jsdoc " ++ spec) ∷ []) (jsdoc_facts specs)
        (one-AreFacts _ (in_jsdoc spec (h spec (here refl))))
        (jsdoc_facts-AreFacts specs (λ t m. h t (there m)))

  comment_facts-AreFacts : (text : Text) → AreFacts (comment_facts jsdoc_import text)
  unfolding comment_facts
  comment_facts-AreFacts text =
      AreFacts-append _ _
        (if-elim AreFacts (has_prefix text (codes "///")) _ _ (λ _. one-AreFacts _ (directs _))
          (λ _. nil-AreFacts))
        (AreFacts-append _ _ (jsdoc_facts-AreFacts (jsdoc_import text) (quotes text)) (
          AreFacts-append _ _ (pragma_in-AreFacts text (codes "@jsx")) (
            AreFacts-append _ _ (pragma_in-AreFacts text (codes "@ts-nocheck"))
              (pragma_in-AreFacts text (codes "@flow")))))

  comment-AreFacts :
      (jsx_text : Text → Bool) (text : Text) (s : Scanner)
      → AreFacts s.facts
      → AreFacts (comment jsx_text jsdoc_import text s).facts
  unfolding comment
  comment-AreFacts jsx_text text s good = AreFacts-append _ _ good (comment_facts-AreFacts text)

-- A slice within its bounds.
data IsSome {ℓ} {A : Type ℓ} : Option A → Type ℓ where
  is_some : (a : A) → IsSome (some a)

and_first-IsSome : (c : ℕ) (o : Option Text) → IsSome o → IsSome (and_first c o)
and_first-IsSome c (some s) h = is_some _
and_first-IsSome c none h = elim h [ ]

unquoted-IsSome : (t : Text) → 2 ≤ length t → IsSome (unquoted t)
unfolding unquoted
unquoted-IsSome [] enough = absurd (omega arith)
unquoted-IsSome (c ∷ []) enough = absurd (omega arith)
unquoted-IsSome (c ∷ d ∷ s) enough = all_but_last-IsSome d s
  where
    all_but_last-IsSome : (d : ℕ) (s : Text) → IsSome (all_but_last (d ∷ s))
    all_but_last-IsSome d [] = is_some []
    all_but_last-IsSome d (e ∷ s) = and_first-IsSome d _ (all_but_last-IsSome e s)

with_spec-IsSome :
    (kind : Text) (o : Option Text) (acc : Specs) → IsSome o → IsSome (with_spec kind o acc)
with_spec-IsSome kind (some spec) acc h = is_some _
with_spec-IsSome kind none acc h = elim h [ ]

add_fact-IsSome : (js : Bool) (f : Text) (acc : Specs) → IsFact f → IsSome (add_fact js f acc)
unfolding add_fact cut
add_fact-IsSome js f acc (imports t enough) =
    with_spec-IsSome (codes "import:") _ acc (unquoted-IsSome t enough)
add_fact-IsSome js f acc (requires t enough) =
    with_spec-IsSome (codes "require:") _ acc (unquoted-IsSome t enough)
add_fact-IsSome true f acc (in_jsdoc t enough) =
    with_spec-IsSome (codes "import:") _ acc (unquoted-IsSome t enough)
add_fact-IsSome false f acc (in_jsdoc t enough) = is_some _
add_fact-IsSome js f acc (augments t) = is_some _
add_fact-IsSome js f acc (directs t) = is_some _
add_fact-IsSome js f acc (has_pragma t) = is_some _

and_add-IsSome :
    (js : Bool) (f : Text) (o : Option Specs) → IsFact f → IsSome o → IsSome (and_add js f o)
and_add-IsSome js f (some acc) h k = add_fact-IsSome js f acc h
and_add-IsSome js f none h k = elim k [ ]

specs_loop-IsSome :
    (js : Bool) (facts : List Text) (acc : Option Specs)
    → AreFacts facts
    → IsSome acc
    → IsSome (specs_loop js facts acc)
unfolding specs_loop
specs_loop-IsSome js [] acc h k = k
specs_loop-IsSome js (f ∷ facts) acc h k =
    specs_loop-IsSome js facts (and_add js f acc) (λ g m. h g (there m))
      (and_add-IsSome js f acc (h f (here refl)) k)

-- An answer or an error: neither a slice out of range nor a run out of fuel.
pub data IsSafe {ℓ} {A : Type ℓ} : Answer A → Type ℓ where
  answers : (a : A) → IsSafe (answer a)
  errs : IsSafe unreadable

module _ (jsx_text : Text → Bool) (jsdoc_import : Text → List Text) (digest : Text → Text) where
  sorted_specs-IsSafe :
      (s : Scanner) (o : Option Specs)
      → IsSome o
      → IsSafe (sorted_specs jsx_text jsdoc_import digest s o)
  sorted_specs-IsSafe s (some acc) h = answers _
  sorted_specs-IsSafe s none h = elim h [ ]

  specifiers_of-IsSafe :
      (js : Bool) (n : ℕ) (o : Outcome)
      → Ends AreFacts n o
      → IsSafe (specifiers_of jsx_text jsdoc_import digest js o)
  unfolding specifiers_of
  specifiers_of-IsSafe js n (done s) (ends_at t w) =
      sorted_specs-IsSafe s _ (specs_loop-IsSome js s.facts _ w.good (is_some _))
  specifiers_of-IsSafe js n unscannable fails = errs
  specifiers_of-IsSafe js n out_of_fuel h = elim h [ ]

-- The specifiers of any source are listed, or the source is reported as unscannable: where each
-- match of the JSDoc expression gives a text with its two quotes, no fact is sliced out of its
-- range, and one unit of fuel more than the source has code points suffices.
pub specifiers-IsSafe :
    (jsx_text : Text → Bool) (jsdoc_import : Text → List Text) (digest : Text → Text)
    → ((text spec : Text) → In spec (jsdoc_import text) → 2 ≤ length spec)
    → (name src : Text)
    → IsSafe (specifiers jsx_text jsdoc_import digest (suc (length src)) name src)
unfolding specifiers
specifiers-IsSafe jsx_text jsdoc_import digest quotes name src =
    specifiers_of-IsSafe jsx_text jsdoc_import digest (not (contains (ext name) (codes "t")))
      (length src) _
      (scan_source-Ends AreFacts jsx_text jsdoc_import emit-AreFacts
        (comment-AreFacts jsdoc_import quotes jsx_text) name src nil-AreFacts)
