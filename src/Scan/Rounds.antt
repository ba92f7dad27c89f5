-- ===== src/Scan/Rounds.antt =====
-- An invariant of the facts through the rounds of the scanner, each of which reads at least one
-- byte.
pub mod Js
pub mod Jsx
use rules_typescript.Base.{
  ℕ, zero, suc, ◌+◌, ◌-◌, ◌≤◌, ◌<◌, Bool, true, false, not, ◌&&◌, ◌||◌, Option, none, some, List,
  [], ◌∷◌, ◌++◌, ◌==◌, if◌then◌else◌, if-elim, length, ◌≡◌, ◌≢◌, refl, subst, arith,
}
use rules_typescript.Base.Int.{ℤ, pos, negsuc, add_one, sub_one, same, is_nonnegative, is_zero}
use rules_typescript.Base.Text.{Text, codes, cut, cut_prefix}
use rules_typescript.Scan.{
  TokenKind, string, number, template, punctuation, identifier, Token, token, Scanner, emit,
  recognize, after_operand,
}
use rules_typescript.Scan.Pieces.{
  next_is, tail_text, is_ident_start, is_ident_part, is_digit, is_blank, span, not_newline,
  quoted_body, template_body, regex_body, generic_arrow, past_angle,
}
use rules_typescript.Scan.Steps.{
  Task, js, element, children, Outcome, done, unscannable, out_of_fuel, and_then, at_rest, is_empty,
  resumes, starts_digit, closed, operator_at, comment, jsx_expression, after_string, after_template,
  after_regex, after_block_comment, js_jsx, js_default, js_step, after_attribute, after_tag_line,
  element_step, after_closing_tag, children_step, at_end, at_byte, step, read, scan, new_scanner,
  scan_source,
}
use rules_typescript.Scan.Lengths.{
  span_within, string_within, template_within, regex_within, comment_within, angle_within,
  operator_within, tail_within,
}

-- What a complete token is: a string has its quotes.
abbrev pub IsComplete : TokenKind → Text → Type 0
IsComplete string text = 2 ≤ length text
IsComplete _ text = Unit

pub record IsWithin (Good : List Text → Type 0) (n : ℕ) (s : Scanner) : Type 0 where
  pub left : length s.rest ≤ n
  pub good : Good s.facts

-- An outcome within the fuel, which leaves at most a given length of source and good facts.
pub data Ends (Good : List Text → Type 0) (n : ℕ) : Outcome → Type 0 where
  ends_at : (s : Scanner) → IsWithin Good n s → Ends Good n (done s)
  fails : Ends Good n unscannable

module _ (Good : List Text → Type 0) where
  pub within : {n : ℕ} {s : Scanner} → length s.rest ≤ n → Good s.facts → IsWithin Good n s
  within small good = record { left = small; good = good }

  pub weaken-Ends : (m n : ℕ) (o : Outcome) → m ≤ n → Ends Good m o → Ends Good n o
  weaken-Ends m n (done s) le (ends_at t w) = ends_at t (within (omega (arith, w.left)) w.good)
  weaken-Ends m n unscannable le fails = fails
  weaken-Ends m n out_of_fuel le h = elim h [ ]

  pub and_then-Ends :
      (n : ℕ) (o : Outcome) (f : Scanner → Outcome)
      → Ends Good n o
      → ((s : Scanner) → IsWithin Good n s → Ends Good n (f s))
      → Ends Good n (and_then o f)
  and_then-Ends n (done s) f (ends_at t w) k = k t w
  and_then-Ends n unscannable f fails k = fails
  and_then-Ends n out_of_fuel f h k = elim h [ ]
