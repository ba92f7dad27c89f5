-- ===== src/Scan/Total.antt =====
-- The scanner ends, and keeps an invariant of its facts.
use rules_typescript.Base.{
  ℕ, zero, suc, ◌≤◌, ◌<◌, Bool, not, ◌||◌, List, [], ◌∷◌, if-elim, length, ◌≢◌, arith,
}
use rules_typescript.Base.Int.{negsuc, is_nonnegative, is_zero}
use rules_typescript.Base.Text.{Text}
use rules_typescript.Scan.{Token, Scanner, emit}
use rules_typescript.Scan.Steps.{
  Task, js, element, children, Outcome, done, unscannable, out_of_fuel, is_empty, closed, comment,
  at_end, at_byte, step, read, scan, new_scanner, scan_source,
}
use rules_typescript.Scan.Rounds.{
  IsComplete, IsWithin, Ends, ends_at, fails, within, and_then-Ends, weaken-Ends,
}
use rules_typescript.Scan.Rounds.Js.{js_step-Ends}
use rules_typescript.Scan.Rounds.Jsx.{element_step-Ends, children_step-Ends}

module _ (Good : List Text → Type 0) (jsx_text : Text → Bool) (jsdoc_import : Text → List Text)
    (emit-Good : (t : Token) (s : Scanner)
      → IsComplete t.kind t.text
      → Good s.facts
      → Good (emit t s).facts)
    (comment-Good : (text : Text) (s : Scanner)
      → Good s.facts
      → Good (comment jsx_text jsdoc_import text s).facts) where
  at_byte-Ends :
      (n : ℕ) (rec : Task → Scanner → Outcome)
      → ((task : Task) (s : Scanner) → IsWithin Good n s → Ends Good n (rec task s))
      → (task : Task) (c : ℕ) (r : Text) (s : Scanner) → length r ≤ n
      → Good s.facts
      → Ends Good n (at_byte jsx_text jsdoc_import rec task c r s)
  unfolding at_byte
  at_byte-Ends n rec rec-Ends (js stop ts) c r s small good =
      js_step-Ends Good jsx_text jsdoc_import emit-Good comment-Good n rec rec-Ends stop ts c r s
        small good
  at_byte-Ends n rec rec-Ends (element closing angles) c r s small good =
      element_step-Ends Good jsx_text jsdoc_import n rec rec-Ends closing angles c r s small good
  at_byte-Ends n rec rec-Ends (children text) c r s small good =
      children_step-Ends Good jsx_text jsdoc_import n rec rec-Ends text c r s small good

  at_end-Ends :
      (n : ℕ) (rec : Task → Scanner → Outcome) (task : Task) (s : Scanner)
      → IsWithin Good n s
      → Ends Good n (at_end jsx_text jsdoc_import rec task s)
  unfolding at_end
  at_end-Ends n rec (js stop ts) s w =
      if-elim (Ends Good n) (not (is_empty ts) || is_nonnegative stop) _ _ (λ _. fails)
        (λ _. ends_at s w)
  at_end-Ends n rec (element closing angles) s w = fails
  at_end-Ends n rec (children text) s w = fails

  step-Ends :
      (n : ℕ) (rec : Task → Scanner → Outcome)
      → ((m : ℕ) (task : Task) (s : Scanner) → IsWithin Good m s → m < n → Ends Good m (rec task s))
      → (task : Task) (r : Text) (s : Scanner) → length r ≤ n
      → IsWithin Good n s
      → Ends Good n (step jsx_text jsdoc_import rec task r s)
  unfolding step
  step-Ends n rec rec-Ends task [] s small w = at_end-Ends n rec task s w
  step-Ends n rec rec-Ends task (c ∷ r) s small w = weaken-Ends Good (length r) n _ (omega arith) (
      at_byte-Ends (length r) rec (λ t u v. rec-Ends (length r) t u v (omega arith)) task c r s
        (omega arith) w.good)

  read-Ends :
      (fuel n : ℕ) (task : Task) (s : Scanner)
      → IsWithin Good n s
      → n < fuel
      → Ends Good n (read jsx_text jsdoc_import fuel task s)
  unfolding read
  read-Ends zero n task s w enough = absurd (omega arith)
  read-Ends (suc fuel) n task s w enough =
      step-Ends n (read jsx_text jsdoc_import fuel)
        (λ m t u v lt. read-Ends fuel m t u v (omega arith)) task s.rest s w.left w

  closed-Ends :
      (n : ℕ) (s : Scanner) → IsWithin Good n s → Ends Good n (closed jsx_text jsdoc_import s)
  closed-Ends n s w = if-elim (Ends Good n) (is_zero s.depth) _ _ (λ _. ends_at s w) (λ _. fails)

  pub scan_source-Ends :
      (name src : Text)
      → Good []
      → Ends Good (length src) (scan_source jsx_text jsdoc_import (suc (length src)) name src)
  unfolding scan_source scan new_scanner
  scan_source-Ends name src good =
      and_then-Ends Good (length src) _ _
        (read-Ends (suc (length src)) (length src) (js (negsuc 0) [])
          (new_scanner jsx_text jsdoc_import name src) (within Good (omega arith) good)
          (omega arith))
        (closed-Ends (length src))

Ends-in_fuel : {Good : List Text → Type 0} (n : ℕ) (o : Outcome) → Ends Good n o → o ≢ out_of_fuel
Ends-in_fuel n (done s) h = λ e. cc
Ends-in_fuel n unscannable h = λ e. cc
Ends-in_fuel n out_of_fuel h = elim h [ ]

-- With one unit of fuel more than the source has code points, the scan of a source ends: it
-- gives a scanner at its end or reports the source as unscannable, whatever the two regular
-- expressions match.
pub scan_source_ends :
    (jsx_text : Text → Bool) (jsdoc_import : Text → List Text) (name src : Text)
    → scan_source jsx_text jsdoc_import (suc (length src)) name src ≢ out_of_fuel
scan_source_ends jsx_text jsdoc_import name src = Ends-in_fuel (length src) _ (
    scan_source-Ends (λ facts. Unit) jsx_text jsdoc_import (λ t s complete good. tt)
      (λ text s good. tt) name src tt)
