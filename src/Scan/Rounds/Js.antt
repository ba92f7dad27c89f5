-- ===== src/Scan/Rounds/Js.antt =====
-- The rounds of `scanJS`.
use rules_typescript.Base.{
  ℕ, ◌≤◌, Bool, true, false, not, ◌&&◌, ◌||◌, Option, none, some, List, ◌∷◌, ◌++◌, ◌==◌, if-elim,
  length, ◌≡◌, refl, arith,
}
use rules_typescript.Base.Int.{ℤ, add_one, sub_one, same, is_nonnegative}
use rules_typescript.Base.Text.{Text, codes}
use rules_typescript.Scan.{
  string, number, template, punctuation, identifier, Token, token, Scanner, emit, recognize,
  after_operand,
}
use rules_typescript.Scan.Pieces.{
  next_is, is_ident_start, is_ident_part, is_digit, is_blank, span, not_newline, generic_arrow,
}
use rules_typescript.Scan.Steps.{
  Task, Outcome, at_rest, depth_after, is_empty, resumes, starts_digit, comment, after_string,
  after_template, after_regex, after_block_comment, js_jsx, js_default, js_step,
}
use rules_typescript.Scan.Lengths.{
  span_within, string_within, template_within, regex_within, comment_within, operator_within,
}
use rules_typescript.Scan.Rounds.{IsComplete, IsWithin, Ends, ends_at, fails, within, and_then-Ends}

module _ (Good : List Text → Type 0) (jsx_text : Text → Bool) (jsdoc_import : Text → List Text)
    (emit-Good : (t : Token) (s : Scanner)
      → IsComplete t.kind t.text
      → Good s.facts
      → Good (emit t s).facts)
    (comment-Good : (text : Text) (s : Scanner)
      → Good s.facts
      → Good (comment jsx_text jsdoc_import text s).facts) where
  emit-IsWithin :
      (n : ℕ) (t : Token) (s : Scanner)
      → IsComplete t.kind t.text
      → IsWithin Good n s
      → IsWithin Good n (emit t s)
  unfolding emit recognize
  emit-IsWithin n t s complete w = within Good w.left (emit-Good t s complete w.good)

  comment-IsWithin :
      (n : ℕ) (text : Text) (s : Scanner)
      → IsWithin Good n s
      → IsWithin Good n (comment jsx_text jsdoc_import text s)
  unfolding comment
  comment-IsWithin n text s w = within Good w.left (comment-Good text s w.good)

  module _ (n : ℕ) (rec : Task → Scanner → Outcome)
      (rec-Ends : (task : Task) (s : Scanner) → IsWithin Good n s → Ends Good n (rec task s)) where
    emit-Ends :
        (task : Task) (t : Token) (s : Scanner)
        → IsComplete t.kind t.text
        → length s.rest ≤ n
        → Good s.facts
        → Ends Good n (rec task (emit t s))
    emit-Ends task t s complete small good =
        rec-Ends task (emit t s) (emit-IsWithin n t s complete (within Good small good))

    after_string-Ends :
        (stop : ℤ) (ts : List ℤ) (q : ℕ) (o : Option (Text × Text)) (s : Scanner)
        → ((text r : Text) → o ≡ some (text, r) → (1 ≤ length text) × (length r ≤ n))
        → Good s.facts
        → Ends Good n (after_string jsx_text jsdoc_import rec stop ts q o s)
    unfolding after_string
    after_string-Ends stop ts q none s small good = fails
    after_string-Ends stop ts q (some (text, r)) s small good =
        emit-Ends _ (token string (q ∷ text)) (at_rest r s) (omega (arith, (small text r refl).0))
          (small text r refl).1 good

    after_template-Ends :
        (stop : ℤ) (ts : List ℤ) (o : Option (Bool × Text)) (s : Scanner)
        → ((b : Bool) (r : Text) → o ≡ some (b, r) → length r ≤ n)
        → Good s.facts
        → Ends Good n (after_template jsx_text jsdoc_import rec stop ts o s)
    unfolding after_template
    after_template-Ends stop ts none s small good = fails
    after_template-Ends stop ts (some (true, r)) s small good =
        emit-Ends _ (token template (codes "`")) (at_rest r s) tt (small true r refl) good
    after_template-Ends stop ts (some (false, r)) s small good =
        emit-Ends _ (token punctuation (codes "${"))
          (record s { rest = r; depth = add_one s.depth }) tt (small false r refl) good

    after_regex-Ends :
        (stop : ℤ) (ts : List ℤ) (o : Option Text) (s : Scanner)
        → ((r : Text) → o ≡ some r → length r ≤ n)
        → Good s.facts
        → Ends Good n (after_regex jsx_text jsdoc_import rec stop ts o s)
    unfolding after_regex
    after_regex-Ends stop ts none s small good = fails
    after_regex-Ends stop ts (some r) s small good =
        emit-Ends _ (token string (codes "/regex/")) (at_rest r s) (omega arith) (small r refl) good

    after_block_comment-Ends :
        (task : Task) (b : Bool) (o : Option (Text × Text)) (s : Scanner)
        → ((text r : Text) → o ≡ some (text, r) → length r ≤ n)
        → Good s.facts
        → Ends Good n (after_block_comment jsx_text jsdoc_import rec task b o s)
    unfolding after_block_comment
    after_block_comment-Ends task b none s small good = fails
    after_block_comment-Ends task true (some (text, r)) s small good = rec-Ends _ _ (
        comment-IsWithin n (codes "/*" ++ (text ++ codes "*/")) (at_rest r s)
          (within Good (small text r refl) good))
    after_block_comment-Ends task false (some (text, r)) s small good =
        rec-Ends _ _ (within Good (small text r refl) good)

    js_jsx-Ends :
        (stop : ℤ) (ts : List ℤ) (r : Text) (s : Scanner)
        → length r ≤ n
        → Good s.facts
        → Ends Good n (js_jsx jsx_text jsdoc_import rec stop ts r s)
    unfolding js_jsx
    js_jsx-Ends stop ts r s small good =
        if-elim (Ends Good n) (generic_arrow r) _ _
          (λ arrow. emit-Ends _ (token punctuation (codes "<")) (at_rest r s) tt small good)
          (λ jsx.
            and_then-Ends Good n _ _ (rec-Ends _ _ (within Good small good))
              (λ t w. emit-Ends _ (token number (codes "jsx")) t tt w.left w.good))

    js_default-Ends :
        (stop : ℤ) (ts : List ℤ) (p : Text × Text) (s : Scanner)
        → length p.1 ≤ n
        → Good s.facts
        → Ends Good n (js_default jsx_text jsdoc_import rec stop ts p s)
    unfolding js_default
    js_default-Ends stop ts (text, r) s small good =
        emit-Ends _ (token punctuation text)
          (record s { rest = r; depth = depth_after text s.depth }) tt small good

    pub js_step-Ends :
        (stop : ℤ) (ts : List ℤ) (c : ℕ) (r : Text) (s : Scanner)
        → length r ≤ n
        → Good s.facts
        → Ends Good n (js_step jsx_text jsdoc_import rec stop ts c r s)
    unfolding js_step
    js_step-Ends stop ts c r s small good =
        if-elim (Ends Good n)
          (is_nonnegative stop && c == b'}' && same s.depth (add_one stop) && is_empty ts) _ _
          (λ closes. ends_at _ (
            emit-IsWithin n (token punctuation (codes "}"))
              (record s { rest = r; depth = sub_one s.depth }) tt (within Good small good)))
          (λ _.
            if-elim (Ends Good n) (is_blank c) _ _ (λ blank. rec-Ends _ _ (within Good small good))
              (λ _.
                if-elim (Ends Good n) (c == b'/' && next_is b'/' r) _ _
                  (λ line. rec-Ends _ _ (
                    comment-IsWithin n (c ∷ (span not_newline r).0)
                      (at_rest (span not_newline r).1 s)
                      (within Good (span_within n r small _) good)))
                  (λ _.
                    if-elim (Ends Good n) (c == b'/' && next_is b'*' r) _ _
                      (λ block. after_block_comment-Ends _ true _ s (comment_within n r small) good)
                      (λ _.
                        if-elim (Ends Good n) (c == b'\'' || c == b'"') _ _
                          (λ quote. after_string-Ends _ _ _ _ s (string_within n r small c) good)
                          (λ _.
                            if-elim (Ends Good n) (c == b'`') _ _
                              (λ tick. after_template-Ends _ _ _ s (template_within n r small) good)
                              (λ _.
                                if-elim (Ends Good n) (c == b'}' && resumes ts s.depth) _ _
                                  (λ resume.
                                    after_template-Ends _ _ _ _ (template_within n r small) good)
                                  (λ _.
                                    if-elim (Ends Good n) (c == b'/' && not (after_operand s)) _ _
                                      (λ slash.
                                        after_regex-Ends _ _ _ s (regex_within n r small) good)
                                      (λ _.
                                        if-elim (Ends Good n)
                                          (c == b'<' && s.jsx && not (after_operand s)) _ _
                                          (λ jsx. js_jsx-Ends _ _ r s small good)
                                          (λ _.
                                            if-elim (Ends Good n) (is_ident_start c) _ _
                                              (λ word.
                                                emit-Ends _
                                                  (token identifier (c ∷ (span is_ident_part r).0))
                                                  (at_rest (span is_ident_part r).1 s) tt
                                                  (span_within n r small _) good)
                                              (λ _.
                                                if-elim (Ends Good n)
                                                  (is_digit c || c == b'.' && starts_digit r) _ _
                                                  (λ digit.
                                                    emit-Ends _ (token number (codes "0"))
                                                      (at_rest
                                                        (span (λ d. is_ident_part d || d == b'.')
                                                          r).1
                                                        s)
                                                      tt (span_within n r small _) good)
                                                  (λ _.
                                                    js_default-Ends _ _ _ s
                                                      (operator_within n r small c) good)))))))))))
