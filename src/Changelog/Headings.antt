-- ===== src/Changelog/Headings.antt =====
-- What `strayHeading` looks for: a heading that is in no fenced block.
use rules_typescript.Base.{
  ℕ, Bool, true, false, not, ◌&&◌, none, some, List, [], ◌∷◌, ◌++◌, ◌+◌, ◌%◌, if◌then◌else◌, ◌≡◌,
  refl, sym, ap, ◌∙◌, arith, Bool-cases, inl, inr, ◌↔◌, &&_true, false≢true,
}
use rules_typescript.Base.Text.{
  Text, codes, has_prefix, cut_prefix, trim, trim_left, trim_right, trim_space, is_space,
}
use rules_typescript.Changelog.{is_blank, stray_loop}

pub is_fence : Text → Bool
unfolding has_prefix trim_space
is_fence line = has_prefix (trim_space line) (codes "```")

pub fences : List Text → ℕ
unfolding is_fence
fences [] = 0
fences (line ∷ lines) = if is_fence line then 1 + fences lines else fences lines

-- Every line that begins with "###" stands behind an odd number of fences, the last of which opens
-- the block that it is in.
abbrev pub AllFenced : List Text → Type 0
AllFenced lines =
    (above : List Text) (line : Text) (below : List Text)
    → lines ≡ above ++ line ∷ below
    → has_prefix line (codes "###") ≡ true
    → fences above % 2 ≡ 1

-- A line that begins with "#" is trimmed to one that does.
trim_hash : (s : Text) → (t : Text) × (trim_space (b'#' ∷ s) ≡ b'#' ∷ t)
unfolding trim_space trim trim_left trim_right is_space
trim_hash s = go (trim_right is_space s) refl
  where
    go : (r : Text) → trim_right is_space s ≡ r → (t : Text) × (trim_space (b'#' ∷ s) ≡ b'#' ∷ t)
    go [] e = ([], rw e refl)
    go (d ∷ r) e = (d ∷ r, rw e refl)

pub hash-unblank : (s : Text) → is_blank (b'#' ∷ s) ≡ false
hash-unblank s = let (t, e) = trim_hash s in rw e refl

heading_hash : (line : Text) → has_prefix line (codes "###") ≡ true → (s : Text) × (line ≡ b'#' ∷ s)
unfolding has_prefix cut_prefix
heading_hash [] h = absurd (false≢true h)
heading_hash (c ∷ s) h = (s, ap (λ d. d ∷ s) (ground arith))

heading-no_fence : (line : Text) → has_prefix line (codes "###") ≡ true → is_fence line ≡ false
unfolding is_fence has_prefix cut_prefix
heading-no_fence line h =
    let (s, e) = heading_hash line h in let (t, f) = trim_hash s in rw (e, f) refl

-- Whether the line behind these is in a block.
in_block : Bool → List Text → Bool
unfolding is_fence
in_block b [] = b
in_block b (line ∷ lines) = in_block (if is_fence line then not b else b) lines

in_block-fences :
    (b : Bool) (lines : List Text)
    → (in_block b lines ≡ true) ↔ ((fences lines + (if b then 1 else 0)) % 2 ≡ 1)
unfolding in_block fences
in_block-fences true [] = ((λ e. refl), (λ e. refl))
in_block-fences false [] = ((λ e. cc), (λ e. cc))
in_block-fences true (line ∷ lines) = elim (Bool-cases (is_fence line)) [
  | inl t ↦
      let (there_on, back) = in_block-fences false lines in
      let q : (1 + fences lines + 1) % 2 ≡ (fences lines + 0) % 2 = omega arith in
      rw t ((λ e. q ∙ there_on e), (λ e. back (sym q ∙ e)))
  | inr f ↦ rw f (in_block-fences true lines)
]
in_block-fences false (line ∷ lines) = elim (Bool-cases (is_fence line)) [
  | inl t ↦
      let (there_on, back) = in_block-fences true lines in
      let q : (1 + fences lines + 0) % 2 ≡ (fences lines + 1) % 2 = omega arith in
      rw t ((λ e. q ∙ there_on e), (λ e. back (sym q ∙ e)))
  | inr f ↦ rw f (in_block-fences false lines)
]

-- The same, with the state of the loop.
abbrev AllIn : Bool → List Text → Type 0
AllIn b lines =
    (above : List Text) (line : Text) (below : List Text)
    → lines ≡ above ++ line ∷ below
    → has_prefix line (codes "###") ≡ true
    → in_block b above ≡ true

later-AllIn :
    (b : Bool) (line : Text) (lines : List Text)
    → AllIn b (line ∷ lines)
    → AllIn (if is_fence line then not b else b) lines
unfolding in_block
later-AllIn b line lines h above l below e k = h (line ∷ above) l below (ap (λ r. line ∷ r) e) k

stray_later :
    (b : Bool) (a : Text) (lines : List Text)
    → stray_loop b (a ∷ lines) ≡ none
    → stray_loop (if is_fence a then not b else b) lines ≡ none
unfolding stray_loop is_fence
stray_later b a lines h = elim (Bool-cases (is_fence a)) [
  | inl t ↦ rw t (rw t at h)
  | inr f ↦ elim (Bool-cases (not b && has_prefix a (codes "###"))) [
    | inl u ↦ let q : some a ≡ none = rw (f, u) at h in absurd (cc)
    | inr n ↦ rw f (rw (f, n) at h)
  ]
]

stray_loop-AllIn : (b : Bool) (lines : List Text) → stray_loop b lines ≡ none → AllIn b lines
unfolding stray_loop in_block is_fence
stray_loop-AllIn b lines h [] line below e k =
    let f : has_prefix (trim_space line) (codes "```") ≡ false =
      unfold is_fence in heading-no_fence line k in
    let g : stray_loop b (line ∷ below) ≡ none = ap (stray_loop b) (sym e) ∙ h in
    elim (Bool-cases b) [
      | inl t ↦ t
      | inr n ↦ let q : some line ≡ none = rw (f, n, k) at g in absurd (cc)
    ]
stray_loop-AllIn b lines h (a ∷ above) line below e k =
    let g : stray_loop b (a ∷ (above ++ line ∷ below)) ≡ none = ap (stray_loop b) (sym e) ∙ h in
    stray_loop-AllIn (if is_fence a then not b else b) (above ++ line ∷ below)
      (stray_later b a (above ++ line ∷ below) g) above line below refl k

AllIn-stray_loop : (b : Bool) (lines : List Text) → AllIn b lines → stray_loop b lines ≡ none
unfolding stray_loop in_block is_fence
AllIn-stray_loop b [] h = refl
AllIn-stray_loop b (line ∷ lines) h =
    let rest =
      AllIn-stray_loop (if is_fence line then not b else b) lines (later-AllIn b line lines h) in
    elim (Bool-cases (is_fence line)) [
      | inl t ↦ rw t (rw t at rest)
      | inr f ↦ elim (Bool-cases (not b && has_prefix line (codes "###"))) [
        | inr n ↦ rw (f, n) (rw f at rest)
        | inl u ↦
            let (outside, k) = &&_true (not b) (has_prefix line (codes "###")) u in
            let inside : b ≡ true = h [] line lines refl k in
            let q : false ≡ true = ap not (sym inside) ∙ outside in absurd (false≢true q)
      ]
    ]

-- There is no stray heading exactly when every line that begins with "###" is in a fenced block.
pub stray_loop-none : (lines : List Text) → (stray_loop false lines ≡ none) ↔ AllFenced lines
stray_loop-none lines = (
  (λ h above line below e k.
      (fenced above).0 (stray_loop-AllIn false lines h above line below e k)),
  (λ h.
      AllIn-stray_loop false lines
        (λ above line below e k. (fenced above).1 (h above line below e k))),
)
  where
    fenced : (above : List Text) → (in_block false above ≡ true) ↔ (fences above % 2 ≡ 1)
    fenced above =
        let (there_on, back) = in_block-fences false above in
        let q : (fences above + 0) % 2 ≡ fences above % 2 = omega arith in
        ((λ e. sym q ∙ there_on e), (λ e. back (q ∙ e)))
