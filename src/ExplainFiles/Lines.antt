-- ===== src/ExplainFiles/Lines.antt =====
-- A property of the reader through the lines of a listing, by what starts and ends a resolution,
-- what a candidate and a trace add to it, and what a line says outside of one.
use rules_typescript.Base.{
  Option, none, some, List, [], ◌∷◌, ◌++◌, ◌==◌, if-elim, In, here, there, In-append, inl, inr, ◌≡◌,
  refl, sym, subst,
}
use rules_typescript.Base.Text.{Text, codes, has_prefix, split, trim_right}
use rules_typescript.ExplainFiles.{Listing, Attempt}
use rules_typescript.ExplainFiles.Reasons.{Parsed, ok, malformed, panics}
use rules_typescript.ExplainFiles.Parse.{
  on_line, in_resolution, and_in_resolution, on_body, line_step, lines_loop, empty_reader,
  completed, finish, parse,
}
use rules_typescript.ExplainFiles.Traces.{
  Frame, Grammar, Reader, parse_resolution_frame, on_start, on_end, on_frame, forget_previous,
  on_candidate, on_trace,
}

-- What is accepted has a property.
pub data Holds {ℓ κ} {A : Type ℓ} (P : A → Type κ) : Parsed A → Type (ℓ ⊔ κ) where
  held : {a : A} → P a → Holds P (ok a)
  errs : Holds P malformed
  breaks : Holds P panics

pub snoc {ℓ} :
    {A : Type ℓ} (P : A → Type 0) (xs : List A) (y : A)
    → ((x : A) → In x xs → P x)
    → P y
    → (x : A) → In x (xs ++ y ∷ [])
    → P x
snoc P xs y h p x i = elim (In-append xs i) [
  | inl old ↦ h x old
  | inr (here e) ↦ subst P (sym e) p
  | inr (there m) ↦ elim m [ ]
]

module _ (g : Grammar) (P : Reader → Type 0)
    (previous_keeps : (line : Text) (s : Reader) → P s → P (record s { previous = line }))
    (start_keeps : (frame : Frame) (s : Reader) → P s → Holds P (on_start g frame s.resolution s))
    (end_keeps : (frame : Frame) (s : Reader) → P s → Holds P (on_end g frame s.resolution s))
    (candidate_keeps : (found : Option Text) (s : Reader)
      → P s
      → Holds P (on_candidate g s.resolution found s))
    (trace_keeps : (line : Text) (a : Attempt) (s : Reader)
      → s.resolution ≡ some a
      → P s
      → P (record s { resolution = some (on_trace g line a) }))
    (line_keeps : (line : Text) (s : Reader) → P s → Holds P (on_line g line s)) where
  on_frame-Holds : (o : Option Frame) (s : Reader) → P s → Holds P (on_frame g o s)
  unfolding on_frame
  on_frame-Holds none s w = errs
  on_frame-Holds (some frame) s w =
      if-elim (Holds P) frame.start _ _ (λ _. start_keeps frame s w) (λ _. end_keeps frame s w)

  forget_previous-Holds : (r : Parsed Reader) → Holds P r → Holds P (forget_previous g r)
  forget_previous-Holds (ok s) (held w) = held (previous_keeps [] s w)
  forget_previous-Holds malformed h = errs
  forget_previous-Holds panics h = breaks

  in_resolution-Holds :
      (o : Option Attempt) (line : Text) (s : Reader)
      → s.resolution ≡ o
      → P s
      → Holds P (in_resolution g o line s)
  unfolding in_resolution
  in_resolution-Holds (some a) line s e w = held (trace_keeps line a s e w)
  in_resolution-Holds none line s e w = line_keeps line s w

  and_in_resolution-Holds :
      (line : Text) (r : Parsed Reader) → Holds P r → Holds P (and_in_resolution g line r)
  and_in_resolution-Holds line (ok s) (held w) = in_resolution-Holds s.resolution line s refl w
  and_in_resolution-Holds line malformed h = errs
  and_in_resolution-Holds line panics h = breaks

  on_body-Holds : (line : Text) (s : Reader) → P s → Holds P (on_body g line s)
  unfolding on_body
  on_body-Holds line s w =
      let v = previous_keeps line s w in
      and_in_resolution-Holds line _ (
        if-elim (Holds P) (has_prefix line (codes "Loading module as file / folder")) _ _
          (λ _. candidate_keeps (g.candidate_location line) (record s { previous = line }) v)
          (λ _. held v))

  line_step-Holds : (line : Text) (s : Reader) → P s → Holds P (line_step g line s)
  unfolding line_step
  line_step-Holds line s w =
      if-elim (Holds P) (has_prefix line (codes "========")) _ _
        (λ _. forget_previous-Holds _ (on_frame-Holds (parse_resolution_frame g line) s w))
        (λ _. on_body-Holds line s w)

  lines_loop-Holds :
      (lines : List Text) (r : Parsed Reader) → Holds P r → Holds P (lines_loop g lines r)
  unfolding lines_loop
  lines_loop-Holds [] r h = h
  lines_loop-Holds (line ∷ lines) malformed h = errs
  lines_loop-Holds (line ∷ lines) panics h = breaks
  lines_loop-Holds (line ∷ lines) (ok s) (held w) =
      lines_loop-Holds lines _ (line_step-Holds (trim_right (λ c. c == b'\r') line) s w)

  module _ (Q : Listing → Type 0) (listing_has : (s : Reader) → P s → Q s.listing) where
    completed-Holds : (o : Option Attempt) (l : Listing) → Q l → Holds Q (completed g o l)
    completed-Holds none l w = held w
    completed-Holds (some a) l w = errs

    finish-Holds : (r : Parsed Reader) → Holds P r → Holds Q (finish g r)
    finish-Holds (ok s) (held w) = completed-Holds s.resolution s.listing (listing_has s w)
    finish-Holds malformed h = errs
    finish-Holds panics h = breaks

    -- What each line keeps, and the first reader has, an accepted listing has.
    pub parse-Holds_of : P (empty_reader g) → (text : Text) → Holds Q (parse g text)
    unfolding parse
    parse-Holds_of w text = finish-Holds _ (lines_loop-Holds (split text b'\n') _ (held w))
