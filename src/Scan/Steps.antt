-- ===== src/Scan/Steps.antt =====
-- gazelle/incremental/signature.go: `scanJS`, `jsxElement` and `jsxChildren`. Each round of their
-- loops is one step, and they call one another through the same function on fuel.
use rules_typescript.Base.{
  ℕ, zero, suc, ◌-◌, Bool, true, false, not, ◌&&◌, ◌||◌, Option, none, some, List, [], ◌∷◌, ◌++◌,
  ◌==◌, if◌then◌else◌,
}
use rules_typescript.Base.Int.{ℤ, pos, negsuc, add_one, sub_one, same, is_nonnegative, is_zero}
use rules_typescript.Base.Text.{Text, codes, text_eq, cut}
use rules_typescript.Base.GoPath.{ext}
use rules_typescript.Scan.{
  no_kind, identifier, string, number, punctuation, template, token, Scanner, after_operand, emit,
}
use rules_typescript.Scan.Pieces.{
  next_is, tail_text, is_ident_start, is_ident_part, is_digit, is_blank, span, not_newline,
  quoted_body, template_body, regex_body, generic_arrow, past_angle, comment_facts,
}

-- What is being read: JavaScript up to the brace that closes a depth, with the depths at which
-- templates resume, the innermost first; a JSX tag behind its `<`; or the children of an element,
-- with the text since the last of them.
pub data Task : Type 0 where
  js : ℤ → List ℤ → Task
  element : Bool → ℕ → Task
  children : Text → Task

-- `unscannable` is `errUnscannable`; `out_of_fuel` is the model's.
pub data Outcome : Type 0 where
  done : Scanner → Outcome
  unscannable out_of_fuel : Outcome

abbrev pub and_then : Outcome → (Scanner → Outcome) → Outcome
and_then (done s) f = f s
and_then unscannable f = unscannable
and_then out_of_fuel f = out_of_fuel

abbrev pub at_rest : Text → Scanner → Scanner
at_rest r s = record s { rest = r }

abbrev pub is_empty : List ℤ → Bool
is_empty [] = true
is_empty (t ∷ ts) = false

abbrev pub resumes : List ℤ → ℤ → Bool
resumes [] depth = false
resumes (t ∷ ts) depth = same t (sub_one depth)

abbrev tail_depths : List ℤ → List ℤ
tail_depths [] = []
tail_depths (t ∷ ts) = ts

-- The operator at the position: `=>`, `...`, `?.`, `++`, `--`, or one byte.
unfoldable pub operator_at : ℕ → Text → Text × Text
operator_at c (d ∷ s) =
    if c == b'=' && d == b'>'
      || c == b'?' && d == b'.'
      || c == b'+' && d == b'+'
      || c == b'-' && d == b'-'
    then (c ∷ d ∷ [], s)
    else if c == b'.' && d == b'.' && next_is b'.' s
    then (c ∷ d ∷ b'.' ∷ [], tail_text s)
    else (c ∷ [], d ∷ s)
operator_at c [] = (c ∷ [], [])

abbrev pub starts_digit : Text → Bool
starts_digit [] = false
starts_digit (d ∷ t) = is_digit d

abbrev pub depth_after : Text → ℤ → ℤ
depth_after text depth =
    if text_eq text (codes "{")
    then add_one depth
    else if text_eq text (codes "}")
    then sub_one depth
    else depth

-- `jsx_text` and `jsdoc_import` are the matches of the regular expressions of those names.
module _ (jsx_text : Text → Bool) (jsdoc_import : Text → List Text) where
  unfoldable pub comment : Text → Scanner → Scanner
  unfolding comment_facts
  comment text s = record s { facts = s.facts ++ comment_facts jsdoc_import text }

  -- The functions below take the rest of the run, on less fuel, as `rec`.
  module _ (rec : Task → Scanner → Outcome) where
    unfoldable pub jsx_expression : Text → Scanner → Outcome
    jsx_expression r s =
        let inner =
          rec (js s.depth [])
            (record s { rest = r; depth = add_one s.depth; prev = token no_kind [] }) in
        and_then inner (λ t. done (record t { prev = s.prev }))

    -- The cases of `scanJS`, each by what its piece gave.
    unfoldable pub after_string : ℤ → List ℤ → ℕ → Option (Text × Text) → Scanner → Outcome
    unfolding emit
    after_string stop templates q none s = unscannable
    after_string stop templates q (some (text, r)) s =
        rec (js stop templates) (emit (token string (q ∷ text)) (at_rest r s))

    unfoldable pub after_template : ℤ → List ℤ → Option (Bool × Text) → Scanner → Outcome
    unfolding emit
    after_template stop templates none s = unscannable
    after_template stop templates (some (true, r)) s =
        rec (js stop templates) (emit (token template (codes "`")) (at_rest r s))
    after_template stop templates (some (false, r)) s =
        rec (js stop (s.depth ∷ templates))
          (emit (token punctuation (codes "${")) (record s { rest = r; depth = add_one s.depth }))

    unfoldable pub after_regex : ℤ → List ℤ → Option Text → Scanner → Outcome
    unfolding emit
    after_regex stop templates none s = unscannable
    after_regex stop templates (some r) s =
        rec (js stop templates) (emit (token string (codes "/regex/")) (at_rest r s))

    unfoldable pub after_block_comment : Task → Bool → Option (Text × Text) → Scanner → Outcome
    unfolding comment
    after_block_comment task read none s = unscannable
    after_block_comment task read (some (text, r)) s =
        rec task
          (if read then comment (codes "/*" ++ (text ++ codes "*/")) (at_rest r s) else at_rest r s)

    unfoldable pub js_jsx : ℤ → List ℤ → Text → Scanner → Outcome
    unfolding generic_arrow emit
    js_jsx stop templates r s =
        if generic_arrow r
        then rec (js stop templates) (emit (token punctuation (codes "<")) (at_rest r s))
        else and_then (rec (element false 0) (record s { rest = r; saw_jsx = true }))
            (λ t. rec (js stop templates) (emit (token number (codes "jsx")) t))

    unfoldable pub js_default : ℤ → List ℤ → Text × Text → Scanner → Outcome
    unfolding emit
    js_default stop templates (text, r) s =
        rec (js stop templates)
          (emit (token punctuation text) (record s { rest = r; depth = depth_after text s.depth }))

    -- One round of `scanJS` at the byte `c`, with `r` behind it.
    unfoldable pub js_step : ℤ → List ℤ → ℕ → Text → Scanner → Outcome
    unfolding comment span after_string quoted_body after_template template_body after_block_comment
        cut after_operand after_regex regex_body js_jsx js_default operator_at emit
    js_step stop templates c r s =
        if is_nonnegative stop && c == b'}' && same s.depth (add_one stop) && is_empty templates
        then done
            (emit (token punctuation (codes "}")) (record s { rest = r; depth = sub_one s.depth }))
        else if is_blank c
        then rec (js stop templates) (at_rest r s)
        else if c == b'/' && next_is b'/' r
        then rec (js stop templates)
            (comment (c ∷ (span not_newline r).0) (at_rest (span not_newline r).1 s))
        else if c == b'/' && next_is b'*' r
        then after_block_comment (js stop templates) true (cut (tail_text r) (codes "*/")) s
        else if c == b'\'' || c == b'"'
        then after_string stop templates c (quoted_body c false r) s
        else if c == b'`'
        then after_template stop templates (template_body false r) s
        else if c == b'}' && resumes templates s.depth
        then after_template stop (tail_depths templates) (template_body false r)
            (record s { depth = sub_one s.depth })
        else if c == b'/' && not (after_operand s)
        then after_regex stop templates (regex_body false false r) s
        else if c == b'<' && s.jsx && not (after_operand s)
        then js_jsx stop templates r s
        else if is_ident_start c
        then rec (js stop templates) (
            emit (token identifier (c ∷ (span is_ident_part r).0))
              (at_rest (span is_ident_part r).1 s))
        else if is_digit c || c == b'.' && starts_digit r
        then rec (js stop templates) (
            emit (token number (codes "0"))
              (at_rest (span (λ d. is_ident_part d || d == b'.') r).1 s))
        else js_default stop templates (operator_at c r) s

    unfoldable pub after_attribute : Bool → ℕ → Option (Text × Text) → Scanner → Outcome
    after_attribute closing angles none s = unscannable
    after_attribute closing angles (some (text, r)) s = rec (element closing angles) (at_rest r s)

    -- A line comment in a tag must be followed by a line.
    unfoldable pub after_tag_line : Bool → ℕ → Text → Scanner → Outcome
    after_tag_line closing angles [] s = unscannable
    after_tag_line closing angles (c ∷ r) s = rec (element closing angles) (at_rest (c ∷ r) s)

    -- One round of `jsxElement`.
    unfoldable pub element_step : Bool → ℕ → ℕ → Text → Scanner → Outcome
    unfolding jsx_expression after_attribute quoted_body after_tag_line span after_block_comment cut
    element_step closing angles c r s =
        if c == b'<'
        then rec (element closing (suc angles)) (at_rest r s)
        else if c == b'>' && not (angles == 0)
        then rec (element closing (angles - 1)) (at_rest r s)
        else if c == b'{'
        then and_then (jsx_expression r s) (rec (element closing angles))
        else if c == b'"' || c == b'\''
        then after_attribute closing angles (quoted_body c false r) s
        else if c == b'/' && next_is b'/' r
        then after_tag_line closing angles (span not_newline r).1 s
        else if c == b'/' && next_is b'*' r
        then after_block_comment (element closing angles) false (cut (tail_text r) (codes "*/")) s
        else if c == b'/' && next_is b'>' r
        then done (at_rest (tail_text r) s)
        else if c == b'>'
        then (if closing then done (at_rest r s) else rec (children []) (at_rest r s))
        else if c == b'/'
        then rec (element true angles) (at_rest r s)
        else rec (element closing angles) (at_rest r s)

    unfoldable pub after_closing_tag : Option Text → Scanner → Outcome
    after_closing_tag none s = unscannable
    after_closing_tag (some r) s = done (at_rest r s)

    -- One round of `jsxChildren`.
    unfoldable pub children_step : Text → ℕ → Text → Scanner → Outcome
    unfolding jsx_expression after_closing_tag past_angle
    children_step text c r s =
        if (c == b'<' || c == b'{') && jsx_text text
        then unscannable
        else if c == b'<' && next_is b'/' r
        then after_closing_tag (past_angle r) s
        else if c == b'<'
        then and_then (rec (element false 0) (at_rest r s)) (rec (children []))
        else if c == b'{'
        then and_then (jsx_expression r s) (rec (children []))
        else rec (children (text ++ c ∷ [])) (at_rest r s)

    -- The loops at the end of the source.
    unfoldable pub at_end : Task → Scanner → Outcome
    at_end (js stop templates) s =
        if not (is_empty templates) || is_nonnegative stop then unscannable else done s
    at_end (element closing angles) s = unscannable
    at_end (children text) s = unscannable

    unfoldable pub at_byte : Task → ℕ → Text → Scanner → Outcome
    unfolding js_step element_step children_step
    at_byte (js stop templates) c r s = js_step stop templates c r s
    at_byte (element closing angles) c r s = element_step closing angles c r s
    at_byte (children text) c r s = children_step text c r s

    unfoldable pub step : Task → Text → Scanner → Outcome
    unfolding at_end at_byte
    step task [] s = at_end task s
    step task (c ∷ r) s = at_byte task c r s

  unfoldable pub read : ℕ → Task → Scanner → Outcome
  unfolding step
  read zero task s = out_of_fuel
  read (suc fuel) task s = step (read fuel) task s.rest s

  abbrev pub closed : Scanner → Outcome
  closed s = if is_zero s.depth then done s else unscannable

  unfoldable pub scan : ℕ → Scanner → Outcome
  unfolding read
  scan fuel s = and_then (read fuel (js (negsuc 0) []) s) closed

  unfoldable pub new_scanner : Text → Text → Scanner
  unfolding ext
  new_scanner name src =
      let e = ext name in
      record {
        rest = src;
        jsx =
            text_eq e (codes ".tsx")
            || text_eq e (codes ".jsx")
            || text_eq e (codes ".js")
            || text_eq e (codes ".mjs")
            || text_eq e (codes ".cjs");
        prev = token no_kind [];
        toks = [];
        facts = [];
        saw_jsx = false;
        is_module = false;
        depth = pos 0;
      }

  unfoldable pub scan_source : ℕ → Text → Text → Outcome
  unfolding scan new_scanner
  scan_source fuel name src = scan fuel (new_scanner name src)
