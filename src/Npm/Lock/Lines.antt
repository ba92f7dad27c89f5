-- ===== src/Npm/Lock/Lines.antt =====
-- `pnpmContentLine` and `pnpmSection` on lines as pnpm writes them.
use rules_typescript.Base.{
  ℕ, zero, suc, ◌+◌, Bool, true, false, not, ◌&&◌, some, [], ◌∷◌, ◌++◌, ◌==◌, ◌≡◌, refl, ap, ◌∙◌,
  arith, length, all,
}
use rules_typescript.Base.Text.{Text, is_space, trim_left, trim_right, trim_space, has_prefix}
use rules_typescript.Base.Text.Laws.{last_kept, trim_right-last_kept, trim-ends}
use rules_typescript.Npm.Lock.{is_blank_end, pnpm_content_line}

-- Indentation by `n` spaces.
unfoldable pub indented : ℕ → Text → Text
indented zero s = s
indented (suc n) s = b' ' ∷ indented n s

length-indented : (n : ℕ) (s : Text) → length (indented n s) ≡ n + length s
unfolding indented
length-indented zero s = omega arith
length-indented (suc n) s = omega (arith, length-indented n s)

-- A text of a line: it begins neither with white space nor with "#", and does not end in white space.
unfoldable pub is_content : Text → Bool
is_content [] = false
is_content (c ∷ s) = not (is_space c) && not (c == b'#') && last_kept is_space (c ∷ s)

trim_left-indented :
    (p : ℕ → Bool) (n : ℕ) (s : Text) → p b' ' ≡ true → trim_left p (indented n s) ≡ trim_left p s
unfolding trim_left indented
trim_left-indented p zero s h = refl
trim_left-indented p (suc n) s h = ground (arith, trim_left-indented p n s)

trim_right-blanks : (p : ℕ → Bool) (b : Text) → all p b ≡ true → trim_right p b ≡ []
unfolding trim_right
trim_right-blanks p [] h = refl
trim_right-blanks p (c ∷ b) h = ground (arith, trim_right-blanks p b)

trim_right-append :
    (p : ℕ → Bool) (s b : Text) → all p b ≡ true → trim_right p (s ++ b) ≡ trim_right p s
unfolding trim_right
trim_right-append p [] b h = trim_right-blanks p b h
trim_right-append p (c ∷ s) b h = ground (arith, trim_right-append p s b h)

blank-space : (c : ℕ) → is_space c ≡ false → is_blank_end c ≡ false
unfolding is_space
blank-space c h = ground arith

last_kept-blank : (s : Text) → last_kept is_space s ≡ true → last_kept is_blank_end s ≡ true
last_kept-blank [] h = refl
last_kept-blank (c ∷ []) h = ground (arith, blank-space c)
last_kept-blank (c ∷ d ∷ s) h = last_kept-blank (d ∷ s) h

last_kept-indented :
    (p : ℕ → Bool) (n : ℕ) (c : ℕ) (s : Text)
    → last_kept p (c ∷ s) ≡ true
    → last_kept p (indented n (c ∷ s)) ≡ true
unfolding indented
last_kept-indented p zero c s h = h
last_kept-indented p (suc zero) c s h = h
last_kept-indented p (suc (suc n)) c s h = last_kept-indented p (suc n) c s h

content-parts :
    (c : ℕ) (s : Text)
    → is_content (c ∷ s) ≡ true
    → (is_space c ≡ false) × ((c == b'#') ≡ false) × (last_kept is_space (c ∷ s) ≡ true)
unfolding is_content
content-parts c s h = ground arith

space-space : is_space b' ' ≡ true
unfolding is_space
space-space = refl

line-indented :
    (n c : ℕ) (s blanks : Text)
    → is_content (c ∷ s) ≡ true
    → all is_blank_end blanks ≡ true
    → trim_right is_blank_end (indented n (c ∷ s) ++ blanks) ≡ indented n (c ∷ s)
line-indented n c s blanks h k =
    trim_right-append is_blank_end (indented n (c ∷ s)) blanks k
    ∙ trim_right-last_kept is_blank_end (indented n (c ∷ s))
        (last_kept-indented is_blank_end n c s (last_kept-blank (c ∷ s) (content-parts c s h).2))

stripped-indented :
    (n c : ℕ) (s : Text) → is_content (c ∷ s) ≡ true → trim_space (indented n (c ∷ s)) ≡ c ∷ s
stripped-indented n c s h =
    let (first, mark, last) = content-parts c s h in
    unfold trim_space in
    ap (trim_right is_space) (trim_left-indented is_space n (c ∷ s) space-space)
    ∙ trim-ends is_space c s first last

spaces-indented :
    (n c : ℕ) (s : Text)
    → is_content (c ∷ s) ≡ true
    → trim_left (λ d. d == b' ') (indented n (c ∷ s)) ≡ c ∷ s
spaces-indented n c s h =
    trim_left-indented (λ d. d == b' ') n (c ∷ s) refl
    ∙ unfold trim_left is_space is_content in ground arith

-- A content line is read as its indentation and its text, whatever blanks end it.
pub pnpm_content_line-indented :
    (n : ℕ) (s blanks : Text)
    → is_content s ≡ true
    → all is_blank_end blanks ≡ true
    → pnpm_content_line (indented n s ++ blanks) ≡ some (n, s)
unfolding is_content
pnpm_content_line-indented n [] blanks h k = cc
pnpm_content_line-indented n (c ∷ s) blanks h k =
    unfold pnpm_content_line in
    rw (line-indented n c s blanks h k) (
      rw (stripped-indented n c s h, spaces-indented n c s h)
        (unfold has_prefix in ground (arith, content-parts c s h, length-indented n (c ∷ s))))
