-- ===== src/Changelog/Splice.antt =====
-- tools/changelog/main.go: where `Splice` puts a section in the file.
use rules_typescript.Base.{
  Bool, true, false, Option, none, some, List, [], ◌∷◌, ◌++◌, if◌then◌else◌,
}
use rules_typescript.Base.Text.{Text, codes, has_prefix, split, join, trim_right}
use rules_typescript.Base.{◌≡◌, refl, ap, ◌∙◌, all, any, ℕ, Bool-cases, inl, inr}
use rules_typescript.Base.Text.Laws.{join-split, last_kept}
use rules_typescript.Changelog.{is_newline}

-- The lines above the first heading of a release, and those from it on.
unfoldable pub at_release : List Text → Option (List Text × List Text)
unfolding has_prefix
at_release [] = none
at_release (line ∷ lines) =
    let later = at_release lines in
    if has_prefix line (codes "## ")
    then some ([], line ∷ lines)
    else elim later [ none ↦ none | some parts ↦ some (line ∷ parts.0, parts.1) ]

abbrev pub spliced : Text → List Text → List Text → Text
spliced section head tail =
    trim_right is_newline (join head b'\n')
    ++ (codes "\n\n" ++ (section ++ (b'\n' ∷ join tail b'\n')))

unfoldable pub placed : Text → Option (List Text × List Text) → Option Text
unfolding join trim_right
placed section none = none
placed section (some (head, tail)) = some (spliced section head tail)

-- `none` is the error that there is no heading to insert above.
unfoldable pub splice : Text → Text → Option Text
unfolding placed at_release split
splice changelog section = placed section (at_release (split changelog b'\n'))

abbrev pub is_release : Text → Bool
is_release line = has_prefix line (codes "## ")

-- The lines `head` hold no heading of a release, and `tail` starts with one.
pub record IsFirstRelease (lines head tail : List Text) : Type 0 where
  pub whole : head ++ tail ≡ lines
  pub above : any is_release head ≡ false
  pub heading : Text
  pub below : List Text
  pub first : tail ≡ heading ∷ below
  pub is_heading : is_release heading ≡ true

at_release-IsFirstRelease :
    (lines : List Text)
    → any is_release lines ≡ true
    → (head : List Text) × (tail : List Text) × (at_release lines ≡ some (head, tail))
      × IsFirstRelease lines head tail
unfolding at_release
at_release-IsFirstRelease [] h = cc
at_release-IsFirstRelease (line ∷ lines) h = elim (Bool-cases (is_release line)) [
  | inl t ↦ (
    [],
    line ∷ lines,
    rw t refl,
    record {
      whole = refl;
      above = refl;
      heading = line;
      below = lines;
      first = refl;
      is_heading = t;
    },
  )
  | inr n ↦
      let (head, tail, e, first) = at_release-IsFirstRelease lines (rw n at h) in
      (
        line ∷ head,
        tail,
        rw (n, e) refl,
        record {
          whole = ap (λ ls. line ∷ ls) first.whole;
          above = rw (n, first.above) refl;
          heading = first.heading;
          below = first.below;
          first = first.first;
          is_heading = first.is_heading;
        },
      )
]

-- A text is what is left of it by trimming at the end, and then bytes of the cut set.
trimmed_parts :
    (p : ℕ → Bool) (s : Text)
    → (cut : Text) × (s ≡ trim_right p s ++ cut)
      × (all p cut ≡ true)
      × (last_kept p (trim_right p s) ≡ true)
unfolding trim_right
trimmed_parts p [] = ([], refl, refl, refl)
trimmed_parts p (c ∷ s) =
    let (cut, e, a, k) = trimmed_parts p s in go (trim_right p s) refl cut e a k
  where
    go :
        (r : Text)
        → trim_right p s ≡ r
        → (cut : Text) → s ≡ trim_right p s ++ cut
        → all p cut ≡ true
        → last_kept p (trim_right p s) ≡ true
        → (rest : Text) × (c ∷ s ≡ trim_right p (c ∷ s) ++ rest)
          × (all p rest ≡ true)
          × (last_kept p (trim_right p (c ∷ s)) ≡ true)
    go [] q cut e a k = elim (Bool-cases (p c)) [
      | inl t ↦ (
        c ∷ cut,
        rw (q, t) (ap (λ r. c ∷ r) (e ∙ ap (λ r. r ++ cut) q)),
        rw (t, a) refl,
        rw (q, t) refl,
      )
      | inr n ↦
          (cut, rw (q, n) (ap (λ r. c ∷ r) (e ∙ ap (λ r. r ++ cut) q)), a, rw (q, n) (rw n refl))
    ]
    go (d ∷ r) q cut e a k =
        (cut, rw q (ap (λ t. c ∷ t) (e ∙ ap (λ t. t ++ cut) q)), a, rw q (rw q at k))

-- In a changelog with the heading of a release the section is inserted above the first of them: what
-- is above it is kept but for the newlines that end it, two newlines take their place, and the lines
-- from that heading on are kept as they are.
pub splice_lem :
    (changelog section : Text)
    → any is_release (split changelog b'\n') ≡ true
    → (head : List Text) × (tail : List Text) × (above : Text) × (ending : Text) × (join
          (head ++ tail)
          b'\n'
        ≡ changelog)
      × IsFirstRelease (split changelog b'\n') head tail
      × (join head b'\n' ≡ above ++ ending)
      × (all is_newline ending ≡ true)
      × (last_kept is_newline above ≡ true)
      × (splice changelog section
          ≡ some (above ++ (codes "\n\n" ++ (section ++ (b'\n' ∷ join tail b'\n')))))
splice_lem changelog section h =
    let (head, tail, e, first) = at_release-IsFirstRelease (split changelog b'\n') h in
    let (ending, parts, newlines, kept) = trimmed_parts is_newline (join head b'\n') in
    (
      head,
      tail,
      trim_right is_newline (join head b'\n'),
      ending,
      ap (λ ls. join ls b'\n') first.whole ∙ join-split b'\n' changelog,
      first,
      parts,
      newlines,
      kept,
      unfold splice in ap (placed section) e,
    )
