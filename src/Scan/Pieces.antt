-- ===== src/Scan/Pieces.antt =====
-- gazelle/incremental/signature.go: the parts of a source that are read as one piece. Each gives
-- what follows it, and none where the source ends first.
use rules_typescript.Base.{
  ℕ, Bool, true, false, not, ◌&&◌, ◌||◌, Option, none, some, List, [], ◌∷◌, ◌++◌, ◌==◌,
  if◌then◌else◌, leb,
}
use rules_typescript.Base.Text.{Text, codes, text_eq, has_prefix, cut, is_space, trim_space}

abbrev pub next_is : ℕ → Text → Bool
next_is b [] = false
next_is b (c ∷ s) = c == b

abbrev pub tail_text : Text → Text
tail_text [] = []
tail_text (c ∷ s) = s

abbrev pub is_ident_start : ℕ → Bool
is_ident_start c =
    c == b'_' || c == b'$' || leb b'a' c && leb c b'z' || leb b'A' c && leb c b'Z' || leb 0x80 c

abbrev pub is_digit : ℕ → Bool
is_digit c = leb b'0' c && leb c b'9'

abbrev pub is_ident_part : ℕ → Bool
is_ident_part c = is_ident_start c || is_digit c

abbrev pub is_blank : ℕ → Bool
is_blank c = c == b' ' || c == b'\t' || c == b'\n' || c == b'\r' || c == 12 || c == 11

-- The longest run of bytes that pass a test, and what follows it.
unfoldable pub span : (ℕ → Bool) → Text → Text × Text
span p [] = ([], [])
span p (c ∷ s) = let more = span p s in if p c then (c ∷ more.0, more.1) else ([], c ∷ s)

abbrev pub not_newline : ℕ → Bool
not_newline c = not (c == b'\n')

abbrev and_byte : ℕ → Option (Text × Text) → Option (Text × Text)
and_byte c none = none
and_byte c (some (text, after)) = some (c ∷ text, after)

-- `quoted` behind the opening quote; the flag says that a backslash has just been read.
unfoldable pub quoted_body : ℕ → Bool → Text → Option (Text × Text)
quoted_body q escaped [] = none
quoted_body q escaped (c ∷ s) =
    let more = and_byte c (quoted_body q (not escaped && c == b'\\') s) in
    if escaped || c == b'\\'
    then more
    else if c == q
    then some (c ∷ [], s)
    else if c == b'\n'
    then none
    else more

-- `templateBody`: whether the template ended, rather than opening a substitution.
unfoldable pub template_body : Bool → Text → Option (Bool × Text)
template_body escaped [] = none
template_body escaped (c ∷ s) =
    let more = template_body (not escaped && c == b'\\') s in
    if escaped || c == b'\\'
    then more
    else if c == b'`'
    then some (true, s)
    else if c == b'$' && next_is b'{' s
    then some (false, tail_text s)
    else more

-- `regex` behind the opening slash.
unfoldable pub regex_body : Bool → Bool → Text → Option Text
unfolding span
regex_body escaped in_class [] = none
regex_body escaped in_class (c ∷ s) =
    let more =
      regex_body (not escaped && c == b'\\')
        (if escaped || c == b'\\' then in_class else (in_class || c == b'[') && not (c == b']'))
        s in
    if escaped || c == b'\\'
    then more
    else if c == b'\n'
    then none
    else if c == b'/' && not in_class
    then some (span is_ident_part s).1
    else more

abbrev is_arrow_blank : ℕ → Bool
is_arrow_blank c = c == b' ' || c == b'\t' || c == b'\r' || c == b'\n'

-- `genericArrow` behind the `<`.
unfoldable pub generic_arrow : Text → Bool
unfolding span has_prefix
generic_arrow s =
    let name = span is_ident_part (span is_arrow_blank s).1 in
    let after = (span is_arrow_blank name.1).1 in
    not (text_eq name.0 []) && (has_prefix after (codes ",") || has_prefix after (codes "extends "))

-- The text up to a `>`, which is read too.
unfoldable pub past_angle : Text → Option Text
past_angle [] = none
past_angle (c ∷ s) = let more = past_angle s in if c == b'>' then some s else more

-- The facts of one pragma: its first word, and its second where there is one.
unfoldable pub pragma_in : Text → Text → List Text
unfolding cut span
pragma_in text pragma = elim (cut text pragma) [
  | none ↦ []
  | some parts ↦
      let first = span (λ c. not (is_space c)) (pragma ++ parts.1) in
      let second = span (λ c. not (is_space c)) (span is_space first.1).1 in
      (codes "pragma " ++ (first.0 ++ (b' ' ∷ second.0))) ∷ []
]

unfoldable pub jsdoc_facts : List Text → List Text
jsdoc_facts [] = []
jsdoc_facts (spec ∷ specs) = (codes "jsdoc " ++ spec) ∷ jsdoc_facts specs

-- What `comment` adds; `jsdoc_import` gives the first group of each match of the regular
-- expression of that name.
unfoldable pub comment_facts : (Text → List Text) → Text → List Text
unfolding has_prefix jsdoc_facts pragma_in trim_space
comment_facts jsdoc_import text =
    (if has_prefix text (codes "///") then (codes "directive " ++ trim_space text) ∷ [] else [])
    ++ (jsdoc_facts (jsdoc_import text)
        ++ (pragma_in text (codes "@jsx")
            ++ (pragma_in text (codes "@ts-nocheck") ++ pragma_in text (codes "@flow"))))
