-- ===== src/Scan/Rounds/Jsx.antt =====
-- The rounds of `jsxElement` and `jsxChildren`.
use rules_typescript.Base.{
  ℕ, ◌≤◌, Bool, false, not, ◌&&◌, ◌||◌, Option, none, some, List, [], ◌∷◌, ◌==◌, if-elim, length,
  ◌≡◌, refl,
}
use rules_typescript.Base.Text.{Text}
use rules_typescript.Scan.{Scanner}
use rules_typescript.Scan.Pieces.{next_is, not_newline}
use rules_typescript.Scan.Steps.{
  Task, Outcome, jsx_expression, after_block_comment, after_attribute, after_tag_line, element_step,
  after_closing_tag, children_step,
}
use rules_typescript.Scan.Lengths.{
  span_within, string_within, comment_within, angle_within, tail_within,
}
use rules_typescript.Scan.Rounds.{IsWithin, Ends, ends_at, fails, within, and_then-Ends}

module _ (Good : List Text → Type 0) (jsx_text : Text → Bool)
    (jsdoc_import : Text → List Text) where
  module _ (n : ℕ) (rec : Task → Scanner → Outcome)
      (rec-Ends : (task : Task) (s : Scanner) → IsWithin Good n s → Ends Good n (rec task s)) where
    jsx_expression-Ends :
        (r : Text) (s : Scanner)
        → length r ≤ n
        → Good s.facts
        → Ends Good n (jsx_expression jsx_text jsdoc_import rec r s)
    unfolding jsx_expression
    jsx_expression-Ends r s small good =
        and_then-Ends Good n _ _ (rec-Ends _ _ (within Good small good))
          (λ t w. ends_at _ (within Good w.left w.good))

    after_attribute-Ends :
        (closing : Bool) (angles : ℕ) (o : Option (Text × Text)) (s : Scanner)
        → ((text r : Text) → o ≡ some (text, r) → length r ≤ n)
        → Good s.facts
        → Ends Good n (after_attribute jsx_text jsdoc_import rec closing angles o s)
    unfolding after_attribute
    after_attribute-Ends closing angles none s small good = fails
    after_attribute-Ends closing angles (some (text, r)) s small good =
        rec-Ends _ _ (within Good (small text r refl) good)

    after_tag_line-Ends :
        (closing : Bool) (angles : ℕ) (r : Text) (s : Scanner)
        → length r ≤ n
        → Good s.facts
        → Ends Good n (after_tag_line jsx_text jsdoc_import rec closing angles r s)
    unfolding after_tag_line
    after_tag_line-Ends closing angles [] s small good = fails
    after_tag_line-Ends closing angles (c ∷ r) s small good = rec-Ends _ _ (within Good small good)

    skip_comment-Ends :
        (task : Task) (o : Option (Text × Text)) (s : Scanner)
        → ((text r : Text) → o ≡ some (text, r) → length r ≤ n)
        → Good s.facts
        → Ends Good n (after_block_comment jsx_text jsdoc_import rec task false o s)
    unfolding after_block_comment
    skip_comment-Ends task none s small good = fails
    skip_comment-Ends task (some (text, r)) s small good =
        rec-Ends _ _ (within Good (small text r refl) good)

    pub element_step-Ends :
        (closing : Bool) (angles c : ℕ) (r : Text) (s : Scanner)
        → length r ≤ n
        → Good s.facts
        → Ends Good n (element_step jsx_text jsdoc_import rec closing angles c r s)
    unfolding element_step
    element_step-Ends closing angles c r s small good =
        if-elim (Ends Good n) (c == b'<') _ _ (λ opens. rec-Ends _ _ (within Good small good))
          (λ _.
            if-elim (Ends Good n) (c == b'>' && not (angles == 0)) _ _
              (λ closes. rec-Ends _ _ (within Good small good))
              (λ _.
                if-elim (Ends Good n) (c == b'{') _ _
                  (λ brace.
                    and_then-Ends Good n _ _ (jsx_expression-Ends r s small good)
                      (λ t w. rec-Ends _ _ w))
                  (λ _.
                    if-elim (Ends Good n) (c == b'"' || c == b'\'') _ _
                      (λ quote.
                        after_attribute-Ends _ _ _ s
                          (λ text a e. (string_within n r small c text a e).1) good)
                      (λ _.
                        if-elim (Ends Good n) (c == b'/' && next_is b'/' r) _ _
                          (λ line.
                            after_tag_line-Ends _ _ _ s (span_within n r small not_newline) good)
                          (λ _.
                            if-elim (Ends Good n) (c == b'/' && next_is b'*' r) _ _
                              (λ block. skip_comment-Ends _ _ s (comment_within n r small) good)
                              (λ _.
                                if-elim (Ends Good n) (c == b'/' && next_is b'>' r) _ _
                                  (λ empty. ends_at _ (within Good (tail_within n r small) good))
                                  (λ _.
                                    if-elim (Ends Good n) (c == b'>') _ _
                                      (λ ends.
                                        if-elim (Ends Good n) closing _ _
                                          (λ _. ends_at _ (within Good small good))
                                          (λ _. rec-Ends _ _ (within Good small good)))
                                      (λ _.
                                        if-elim (Ends Good n) (c == b'/') _ _
                                          (λ slash. rec-Ends _ _ (within Good small good))
                                          (λ _. rec-Ends _ _ (within Good small good))))))))))

    after_closing_tag-Ends :
        (o : Option Text) (s : Scanner)
        → ((r : Text) → o ≡ some r → length r ≤ n)
        → Good s.facts
        → Ends Good n (after_closing_tag jsx_text jsdoc_import rec o s)
    unfolding after_closing_tag
    after_closing_tag-Ends none s small good = fails
    after_closing_tag-Ends (some r) s small good = ends_at _ (within Good (small r refl) good)

    pub children_step-Ends :
        (text : Text) (c : ℕ) (r : Text) (s : Scanner)
        → length r ≤ n
        → Good s.facts
        → Ends Good n (children_step jsx_text jsdoc_import rec text c r s)
    unfolding children_step
    children_step-Ends text c r s small good =
        if-elim (Ends Good n) ((c == b'<' || c == b'{') && jsx_text text) _ _ (λ bad. fails)
          (λ _.
            if-elim (Ends Good n) (c == b'<' && next_is b'/' r) _ _
              (λ closes. after_closing_tag-Ends _ s (angle_within n r small) good)
              (λ _.
                if-elim (Ends Good n) (c == b'<') _ _
                  (λ opens.
                    and_then-Ends Good n _ _ (rec-Ends _ _ (within Good small good))
                      (λ t w. rec-Ends _ _ w))
                  (λ _.
                    if-elim (Ends Good n) (c == b'{') _ _
                      (λ brace.
                        and_then-Ends Good n _ _ (jsx_expression-Ends r s small good)
                          (λ t w. rec-Ends _ _ w))
                      (λ _. rec-Ends _ _ (within Good small good)))))
