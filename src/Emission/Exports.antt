-- ===== src/Emission/Exports.antt =====
-- gazelle/emission.go: the output files that a pattern of a package.json's exports names. A text is
-- the list of its bytes here.
use rules_typescript.Base.{
  ℕ, zero, suc, ◌+◌, ◌-◌, ◌*◌, ◌/◌, ◌%◌, ◌≤◌, ◌<◌, Bool, true, false, not, [], ◌∷◌, ◌++◌, ◌==◌,
  if◌then◌else◌, ltb, length, length-append, ◌≡◌, refl, ap, arith, Bool-cases, inl, inr,
}
use native.Mathlib.Nat.{mul-suc, mul-div_cancel, mul-mod_left}
use rules_typescript.Base.Text.{Text, text_eq, text_eq_refl}

-- `strings.Count(pattern, "*")`.
unfoldable pub count_stars : Text → ℕ
count_stars [] = 0
count_stars (c ∷ s) = let rest = count_stars s in if c == b'*' then suc rest else rest

-- `strings.IndexByte(pattern, '*')`, where there is one.
unfoldable pub star_index : Text → ℕ
star_index [] = 0
star_index (c ∷ s) = let rest = star_index s in if c == b'*' then 0 else suc rest

-- `strings.ReplaceAll(pattern, "*", capture)`.
unfoldable pub replace_stars : Text → Text → Text
replace_stars capture [] = []
replace_stars capture (c ∷ s) =
    let rest = replace_stars capture s in if c == b'*' then capture ++ rest else c ∷ rest

-- `file[start:start+width]`.
unfoldable pub slice : ℕ → ℕ → Text → Text
slice zero zero s = []
slice zero (suc n) [] = []
slice zero (suc n) (c ∷ s) = c ∷ slice zero n s
slice (suc k) n [] = []
slice (suc k) n (c ∷ s) = slice k n s

unfoldable pub matches_export_output : Text → Text → Bool
unfolding count_stars star_index replace_stars slice
matches_export_output pattern file =
    let stars = count_stars pattern in
    let fixed = length pattern - stars in
    let width = length file - fixed in
    if stars == 0
    then text_eq pattern file
    else if ltb (length file) fixed
    then false
    else if not (width % stars == 0)
    then false
    else text_eq (replace_stars (slice (star_index pattern) (width / stars) file) pattern) file

slice-prefix : (s t : Text) → slice 0 (length s) (s ++ t) ≡ s
unfolding slice
slice-prefix [] t = refl
slice-prefix (c ∷ s) t = ap (λ r. c ∷ r) (slice-prefix s t)

-- What stands at the first star is what replaced it.
slice-replace_stars :
    (capture pattern : Text)
    → (count_stars pattern == 0) ≡ false
    → slice (star_index pattern) (length capture) (replace_stars capture pattern) ≡ capture
unfolding slice star_index replace_stars count_stars
slice-replace_stars capture [] h = cc
slice-replace_stars capture (c ∷ s) h = elim (Bool-cases (c == b'*')) [
  | inl t ↦ rw t (slice-prefix capture (replace_stars capture s))
  | inr n ↦ rw n (slice-replace_stars capture s (rw n at h))
]

length-replace_stars :
    (capture pattern : Text)
    → length (replace_stars capture pattern) + count_stars pattern
      ≡ length pattern + length capture * count_stars pattern
unfolding replace_stars count_stars
length-replace_stars capture [] = omega arith
length-replace_stars capture (c ∷ s) = elim (Bool-cases (c == b'*')) [
  | inl t ↦ rw t omega (
    arith,
    length-append capture (replace_stars capture s),
    length-replace_stars capture s,
    mul-suc (length capture) (count_stars s),
  )
  | inr n ↦ rw n (omega (arith, length-replace_stars capture s))
]

count_stars-length : (pattern : Text) → count_stars pattern ≤ length pattern
unfolding count_stars
count_stars-length [] = omega arith
count_stars-length (c ∷ s) = ground (arith, count_stars-length s)

-- A pattern with a star matches every file that it makes by putting one subpath in the place of each
-- star.
pub matches_export_output-replace_stars :
    (capture pattern : Text)
    → (count_stars pattern == 0) ≡ false
    → matches_export_output pattern (replace_stars capture pattern) ≡ true
unfolding matches_export_output
matches_export_output-replace_stars capture pattern h =
    let n = count_stars pattern in
    let file = replace_stars capture pattern in
    let le = count_stars-length pattern in
    let len = length-replace_stars capture pattern in
    let positive : 0 < n = ground (arith, h) in
    let width : length file - (length pattern - n) ≡ length capture * n = omega (arith, le, len) in
    let enough : ltb (length file) (length pattern - n) ≡ false = ground (arith, le, len) in
    rw
      (
        h,
        enough,
        width,
        mul-mod_left (length capture) n,
        mul-div_cancel (length capture) positive,
        slice-replace_stars capture pattern h,
      )
      (text_eq_refl file)
