-- ===== src/Changelog/Entries.antt =====
-- What `ParseFragment` accepts.
use rules_typescript.Base.{
  true, false, Option, none, some, List, [], ◌∷◌, ◌++◌, all, ◌≡◌, refl, sym, ap, ◌∙◌, subst,
  Bool-cases, inl, inr, ◌↔◌, &&_true,
}
use rules_typescript.Base.Text.{
  Text, codes, text_eq, split, join, trim, trim_space, has_prefix, cut_prefix, trim_prefix,
}
use rules_typescript.Base.Text.Laws.{cut_prefix-eq}
use rules_typescript.Changelog.{
  Fragment, parsed, no_entry, second_section, is_newline, is_blank, section_heading, stray_heading,
  stray_loop, skip_blank, with_body, with_heading, from_lines, unix_lines, parse_fragment,
}
use rules_typescript.Changelog.Headings.{AllFenced, hash-unblank, stray_loop-none}

-- A fragment that is written in these lines: blank ones, the heading of its section, and an entry
-- that is not blank, in which whatever begins with "###" is in a fenced block.
pub record IsEntry (name : Text) (lines : List Text) (f : Fragment) : Type 0 where
  pub blanks : List Text
  pub heading : Text
  pub rest : List Text
  pub written : lines ≡ blanks ++ (codes "### " ++ heading) ∷ rest
  pub all_blank : all is_blank blanks ≡ true
  pub named : f.name ≡ name
  pub section : f.section ≡ trim_space heading
  pub has_section : text_eq f.section [] ≡ false
  pub body : f.body ≡ trim is_newline (join rest b'\n')
  pub has_entry : is_blank f.body ≡ false
  pub one_section : AllFenced (split f.body b'\n')

skipped :
    (lines : List Text)
    → (blanks : List Text) × (lines ≡ blanks ++ skip_blank lines) × (all is_blank blanks ≡ true)
unfolding skip_blank
skipped [] = ([], refl, refl)
skipped (line ∷ lines) = elim (Bool-cases (is_blank line)) [
  | inl t ↦
      let (blanks, e, h) = skipped lines in
      (line ∷ blanks, rw t (ap (λ l. line ∷ l) e), rw (t, h) refl)
  | inr f ↦ ([], rw f refl, refl)
]

skip_blank-append :
    (blanks : List Text) (line : Text) (rest : List Text)
    → all is_blank blanks ≡ true
    → is_blank line ≡ false
    → skip_blank (blanks ++ line ∷ rest) ≡ line ∷ rest
unfolding skip_blank
skip_blank-append [] line rest h n = rw n refl
skip_blank-append (b ∷ blanks) line rest h n =
    let (t, k) = &&_true (is_blank b) (all is_blank blanks) h in
    rw t (skip_blank-append blanks line rest k n)

section_heading-eq :
    (line : Text) {section : Text}
    → section_heading line ≡ some section
    → (heading : Text) × (line ≡ codes "### " ++ heading)
      × (section ≡ trim_space heading)
      × (text_eq section [] ≡ false)
unfolding section_heading has_prefix trim_prefix
section_heading-eq line {section} h = go (cut_prefix line (codes "### ")) refl
  where
    go :
        (o : Option Text)
        → cut_prefix line (codes "### ") ≡ o
        → (heading : Text) × (line ≡ codes "### " ++ heading)
          × (section ≡ trim_space heading)
          × (text_eq section [] ≡ false)
    go none e = let q : none ≡ some section = rw e at h in absurd (cc)
    go (some heading) e = elim (Bool-cases (text_eq (trim_space heading) [])) [
      | inl t ↦ let q : none ≡ some section = rw (e, t) at h in absurd (cc)
      | inr n ↦
          let q : some (trim_space heading) ≡ some section = rw (e, n) at h in
          let p : trim_space heading ≡ section = cc in
          (heading, cut_prefix-eq line (codes "### ") e, sym p, rw (sym p) n)
    ]

section_heading-some :
    (heading : Text)
    → text_eq (trim_space heading) [] ≡ false
    → section_heading (codes "### " ++ heading) ≡ some (trim_space heading)
unfolding section_heading has_prefix trim_prefix cut_prefix
section_heading-some heading n = rw n refl

module _ (name : Text) (lines : List Text) where
  -- What is read behind the blank lines and the heading.
  read-IsEntry :
      (blanks rest : List Text) (heading : Text) (o : Option Text) (f : Fragment)
      → lines ≡ blanks ++ (codes "### " ++ heading) ∷ rest
      → all is_blank blanks ≡ true
      → text_eq (trim_space heading) [] ≡ false
      → stray_heading (trim is_newline (join rest b'\n')) ≡ o
      → with_body name (trim_space heading) (trim is_newline (join rest b'\n')) o ≡ parsed f
      → IsEntry name lines f
  unfolding with_body stray_heading
  read-IsEntry blanks rest heading (some line) f w b s e h =
      elim (Bool-cases (is_blank (trim is_newline (join rest b'\n')))) [
        | inl t ↦ let q : no_entry name ≡ parsed f = rw t at h in absurd (cc)
        | inr n ↦ let q : second_section name line ≡ parsed f = rw n at h in absurd (cc)
      ]
  read-IsEntry blanks rest heading none f w b s e h =
      elim (Bool-cases (is_blank (trim is_newline (join rest b'\n')))) [
        | inl t ↦ let q : no_entry name ≡ parsed f = rw t at h in absurd (cc)
        | inr n ↦
            let g : Fragment = record {
              name = name;
              section = trim_space heading;
              body = trim is_newline (join rest b'\n');
            } in
            let q : parsed g ≡ parsed f = rw n at h in
            let p : g ≡ f = cc in
            subst (IsEntry name lines) p (record {
              blanks = blanks;
              heading = heading;
              rest = rest;
              written = w;
              all_blank = b;
              named = refl;
              section = refl;
              has_section = s;
              body = refl;
              has_entry = n;
              one_section = (stray_loop-none (split (trim is_newline (join rest b'\n')) b'\n')).0 e;
            })
      ]

  heading-IsEntry :
      (blanks : List Text) (line : Text) (rest : List Text) (o : Option Text) (f : Fragment)
      → lines ≡ blanks ++ line ∷ rest
      → all is_blank blanks ≡ true
      → section_heading line ≡ o
      → with_heading name line rest o ≡ parsed f
      → IsEntry name lines f
  unfolding with_heading
  heading-IsEntry blanks line rest none f w b e h = absurd (cc)
  heading-IsEntry blanks line rest (some section) f w b e h =
      let (heading, q, p, n) = section_heading-eq line e in
      let body = trim is_newline (join rest b'\n') in
      read-IsEntry blanks rest heading (stray_heading body) f (w ∙ ap (λ l. blanks ++ l ∷ rest) q) b
        (ap (λ t. text_eq t []) (sym p) ∙ n) refl
        (ap (λ t. with_body name t body (stray_heading body)) (sym p) ∙ h)

  lines-IsEntry :
      (blanks later : List Text) (f : Fragment)
      → lines ≡ blanks ++ later
      → all is_blank blanks ≡ true
      → from_lines name later ≡ parsed f
      → IsEntry name lines f
  unfolding from_lines
  lines-IsEntry blanks [] f w b h = absurd (cc)
  lines-IsEntry blanks (line ∷ rest) f w b h =
      heading-IsEntry blanks line rest (section_heading line) f w b refl h

  IsEntry-read :
      (f : Fragment) → IsEntry name lines f → from_lines name (skip_blank lines) ≡ parsed f
  unfolding from_lines with_heading with_body stray_heading
  IsEntry-read f w =
      let line = codes "### " ++ w.heading in
      let body = trim is_newline (join w.rest b'\n') in
      let first : skip_blank lines ≡ line ∷ w.rest =
        ap skip_blank w.written
        ∙ skip_blank-append w.blanks line w.rest w.all_blank
            (hash-unblank (codes "## " ++ w.heading)) in
      let heading : section_heading line ≡ some (trim_space w.heading) =
        section_heading-some w.heading (ap (λ t. text_eq t []) (sym w.section) ∙ w.has_section) in
      let none_stray : stray_loop false (split body b'\n') ≡ none =
        ap (λ t. stray_loop false (split t b'\n')) (sym w.body)
        ∙ (stray_loop-none (split f.body b'\n')).1 w.one_section in
      let entry : is_blank body ≡ false = ap is_blank (sym w.body) ∙ w.has_entry in
      let same_fragment : record { name = name; section = trim_space w.heading; body = body } ≡ f =
        λ i. record { name = sym w.named i; section = sym w.section i; body = sym w.body i } in
      ap (from_lines name) first ∙ rw (heading, none_stray, entry) (ap parsed same_fragment)

-- A fragment is accepted exactly when its lines are blank ones, "### " with the name of a section,
-- and an entry that is not blank and in which every line that begins with "###" stands behind an odd
-- number of fences; what is read is then the file's name, the section and the entry, without the
-- newlines around it.
pub parse_fragment-IsEntry :
    (name text : Text) (f : Fragment)
    → (parse_fragment name text ≡ parsed f) ↔ IsEntry name (split (unix_lines text) b'\n') f
unfolding parse_fragment
parse_fragment-IsEntry name text f =
    let lines = split (unix_lines text) b'\n' in
    let (blanks, w, b) = skipped lines in
    ((λ h. lines-IsEntry name lines blanks (skip_blank lines) f w b h), IsEntry-read name lines f)
