-- ===== src/Jsonc/Strict.antt =====
-- `Strip` leaves strict JSON alone, and takes a comment out of its surroundings.
use mathlib.Core.List.{reverse-append, reverse-reverse}
use rules_typescript.Base.{
  ℕ, Bool, true, false, not, ◌&&◌, ◌||◌, [], ◌∷◌, ◌++◌, ◌==◌, if◌then◌else◌, reverse, ◌≡◌, refl,
  sym, ap, ◌∙◌, arith, append-nil, append_assoc,
}
use rules_typescript.Base.Text.{Text}
use rules_typescript.Jsonc.{
  Mode, code, in_string, escaped, line_comment, block_start, block_comment, block_end,
  drop_comma_back, drop_trailing_comma, step, run, strip,
}

abbrev is_json_space : ℕ → Bool
is_json_space c = c == b' ' || c == b'\t' || c == b'\r' || c == b'\n'

-- No slash and no trailing comma outside the strings. The flag says that a comma, with white space
-- only behind it, has just been read.
unfoldable pub strict_from : Mode → Bool → Text → Bool
strict_from code after_comma [] = true
strict_from code after_comma (c ∷ s) =
    not (c == b'/')
    && not (after_comma && (c == b'}' || c == b']'))
    && strict_from (if c == b'"' then in_string else code)
        (if is_json_space c then after_comma else c == b',') s
strict_from in_string after_comma [] = true
strict_from in_string after_comma (c ∷ s) =
    strict_from (if c == b'\\' then escaped else if c == b'"' then code else in_string) false s
strict_from escaped after_comma [] = true
strict_from escaped after_comma (c ∷ s) = strict_from in_string false s
strict_from _ after_comma s = false

unfoldable pub is_strict : Text → Bool
unfolding strict_from
is_strict s = strict_from code false s

-- Nothing is dropped from the end of what is written so far.
abbrev Settled : Text → Type 0
Settled out = drop_comma_back (reverse out) ≡ reverse out

abbrev Ready : Mode → Bool → Text → Type 0
Ready m after_comma out = m ≡ code → after_comma ≡ false → Settled out

reverse-concat : (out : Text) (c : ℕ) → reverse (out ++ c ∷ []) ≡ c ∷ reverse out
reverse-concat out c = reverse-append out (c ∷ [])

Settled-concat :
    (out : Text) (c : ℕ) → is_json_space c ≡ false → (c == b',') ≡ false → Settled (out ++ c ∷ [])
unfolding drop_comma_back
Settled-concat out c h k = rw (reverse-concat out c) (ground arith)

Settled-space :
    (out : Text) (c : ℕ) → is_json_space c ≡ true → Settled out → Settled (out ++ c ∷ [])
unfolding drop_comma_back
Settled-space out c h k = rw (reverse-concat out c) (ground arith)

drop-Settled : (out : Text) → Settled out → drop_trailing_comma out ≡ out
unfolding drop_trailing_comma
drop-Settled out h = ap reverse h ∙ reverse-reverse out

abbrev next_mode : ℕ → Mode
next_mode c = if c == b'"' then in_string else code

abbrev still_comma : Bool → ℕ → Bool
still_comma after_comma c = if is_json_space c then after_comma else c == b','

strict_code :
    (after_comma : Bool) (c : ℕ) (s : Text)
    → strict_from code after_comma (c ∷ s) ≡ true
    → ((c == b'/') ≡ false)
      × ((after_comma && (c == b'}' || c == b']')) ≡ false)
      × (strict_from (next_mode c) (still_comma after_comma c) s ≡ true)
unfolding strict_from
strict_code after_comma c s h = ground arith

step-strict :
    (after_comma : Bool) (out : Text) (c : ℕ) (s : Text)
    → (c == b'/') ≡ false
    → (after_comma && (c == b'}' || c == b']')) ≡ false
    → Ready code after_comma out
    → step code out c s ≡ (next_mode c, out ++ c ∷ [])
unfolding step
step-strict after_comma out c s h k r =
    ground (arith, λ (e : after_comma ≡ false). drop-Settled out (r refl e))

Ready-concat :
    (after_comma : Bool) (out : Text) (c : ℕ)
    → Ready code after_comma out
    → Ready (next_mode c) (still_comma after_comma c) (out ++ c ∷ [])
Ready-concat after_comma out c r e f = ground (
  arith,
  Settled-concat out c,
  λ (g : after_comma ≡ false) (w : is_json_space c ≡ true). Settled-space out c w (r refl g),
)

run-strict :
    (m : Mode) (after_comma : Bool) (out s : Text)
    → strict_from m after_comma s ≡ true
    → Ready m after_comma out
    → run m out s ≡ out ++ s
unfolding run strict_from
run-strict code a out [] h r = sym (append-nil out)
run-strict code a out (c ∷ s) h r =
    let (slash, close, later) = strict_code a c s h in
    rw (step-strict a out c s slash close r) (
      run-strict (next_mode c) (still_comma a c) (out ++ c ∷ []) s later (Ready-concat a out c r)
      ∙ append_assoc out (c ∷ []) s)
run-strict in_string a out [] h r = sym (append-nil out)
run-strict in_string a out (c ∷ s) h r =
    run-strict (if c == b'\\' then escaped else if c == b'"' then code else in_string) false
      (out ++ c ∷ []) s h (λ e f. ground (arith, Settled-concat out c))
    ∙ append_assoc out (c ∷ []) s
run-strict escaped a out [] h r = sym (append-nil out)
run-strict escaped a out (c ∷ s) h r =
    run-strict in_string false (out ++ c ∷ []) s h (λ e f. cc) ∙ append_assoc out (c ∷ []) s
run-strict line_comment a out s h r = cc
run-strict block_start a out s h r = cc
run-strict block_comment a out s h r = cc
run-strict block_end a out s h r = cc

-- A text with no slash and no trailing comma outside its strings, such as any strict JSON
-- document, is left as it is.
pub strip-strict : (s : Text) → is_strict s ≡ true → strip s ≡ s
unfolding strip is_strict drop_comma_back
strip-strict s h = run-strict code false [] s h (λ e f. refl)
