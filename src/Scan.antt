-- ===== src/Scan.antt =====
-- gazelle/incremental/signature.go: the tokens of a source and the facts that they complete. A text
-- is the list of its code points: the bytes of one past ASCII are all read alike. The position of a
-- scanner is the rest of the source from it on.
pub mod Pieces
pub mod Steps
pub mod Lengths
pub mod Rounds
pub mod Total
pub mod Facts
use rules_typescript.Base.{
  ℕ, zero, suc, Bool, true, false, not, ◌&&◌, ◌||◌, Option, none, some, List, [], ◌∷◌, ◌++◌, ◌==◌,
  if◌then◌else◌,
}
use rules_typescript.Base.Int.{ℤ, pos, is_zero}
use rules_typescript.Base.Text.{Text, codes, text_eq}
use rules_typescript.Base.Map.{NameSet, member}

pub data TokenKind : Type 0 where
  no_kind identifier string number punctuation template : TokenKind

pub record Token : Type 0 where
  pub kind : TokenKind
  pub text : Text

-- `toks` has the newest token first; at most eight are kept.
pub record Scanner : Type 0 where
  pub rest : Text
  pub jsx : Bool
  pub prev : Token
  pub toks : List Token
  pub facts : List Text
  pub saw_jsx : Bool
  pub is_module : Bool
  pub depth : ℤ

abbrev keywords_before_expression : NameSet
keywords_before_expression =
    codes "return"
    ∷ codes "yield"
    ∷ codes "await"
    ∷ codes "case"
    ∷ codes "typeof"
    ∷ codes "void"
    ∷ codes "delete"
    ∷ codes "throw"
    ∷ codes "new"
    ∷ codes "in"
    ∷ codes "of"
    ∷ codes "instanceof"
    ∷ codes "else"
    ∷ codes "do"
    ∷ codes "default"
    ∷ codes "extends"
    ∷ []

abbrev value_keywords : NameSet
value_keywords = codes "this" ∷ codes "super" ∷ codes "null" ∷ codes "true" ∷ codes "false" ∷ []

-- `afterOperand`, by the kind of the previous token.
unfoldable pub ends_operand : TokenKind → Text → Bool
unfolding member
ends_operand no_kind text = false
ends_operand identifier text =
    not (member text keywords_before_expression) || member text value_keywords
ends_operand string text = true
ends_operand number text = true
ends_operand template text = true
ends_operand punctuation text = text_eq text (codes ")") || text_eq text (codes "]")

unfoldable pub after_operand : Scanner → Bool
unfolding ends_operand
after_operand s = ends_operand s.prev.kind s.prev.text

abbrev is_identifier : TokenKind → Bool
is_identifier identifier = true
is_identifier _ = false

abbrev pub is_string : TokenKind → Bool
is_string string = true
is_string _ = false

-- A word of one of two spellings.
abbrev pub is_word : Token → Text → Text → Bool
is_word t a b = is_identifier t.kind && (text_eq t.text a || text_eq t.text b)

-- The fact that a string completes, by the tokens before it, the newest first.
unfoldable pub fact_of : Text → List Token → Option Text
fact_of text [] = none
fact_of text (a ∷ []) =
    if is_word a (codes "from") (codes "import") then some (codes "import " ++ text) else none
fact_of text (a ∷ b ∷ older) =
    if is_word a (codes "from") (codes "import")
    then some (codes "import " ++ text)
    else if text_eq a.text (codes "(") && is_word b (codes "require") (codes "import")
    then some (b.text ++ (b' ' ∷ text))
    else if text_eq b.text (codes "declare") && text_eq a.text (codes "module")
    then some (codes "augment " ++ text)
    else none

abbrev pub with_fact : Option Text → List Text → List Text
with_fact none facts = facts
with_fact (some f) facts = facts ++ f ∷ []

abbrev pub take {ℓ} : {A : Type ℓ} → ℕ → List A → List A
take zero xs = []
take (suc n) [] = []
take (suc n) (x ∷ xs) = x ∷ take n xs

-- `recognize`, for the newest token and those before it.
unfoldable pub recognize : Token → List Token → Scanner → Scanner
unfolding fact_of
recognize t older s = record s {
  is_module = s.is_module || is_word t (codes "import") (codes "export") && is_zero s.depth;
  facts = if is_string t.kind then with_fact (fact_of t.text older) s.facts else s.facts;
}

unfoldable pub emit : Token → Scanner → Scanner
unfolding recognize
emit t s = recognize t s.toks (record s { prev = t; toks = take 8 (t ∷ s.toks) })

abbrev pub token : TokenKind → Text → Token
token kind text = record { kind = kind; text = text }
