-- ===== src/Jsonc.antt =====
-- ts/tools/jsonc/jsonc.go: `Strip` and `dropTrailingComma`. A `[]byte` is the list of its bytes.
-- The `for` loop over `i` is a recursion on the bytes that are left; the two inner loops over a
-- comment and the flag `inString` are the modes of that recursion.
pub mod Lines
pub mod Strict
pub mod Comments
use rules_typescript.Base.{
  ℕ, Bool, true, false, ◌&&◌, ◌||◌, List, [], ◌∷◌, ◌++◌, ◌==◌, if◌then◌else◌, reverse,
}
use rules_typescript.Base.Text.{Text}

-- The backwards scan of `dropTrailingComma`, over the reversed output: `none` is its last return,
-- where nothing is dropped.
unfoldable pub drop_comma_back : Text → Text
drop_comma_back [] = []
drop_comma_back (c ∷ before) =
    let rest = drop_comma_back before in
    if c == b' ' || c == b'\t' || c == b'\r' || c == b'\n'
    then c ∷ rest
    else if c == b','
    then before
    else c ∷ before

-- The text without a comma at its end; the white space behind the comma stays.
unfoldable pub drop_trailing_comma : Text → Text
unfolding drop_comma_back
drop_trailing_comma out = reverse (drop_comma_back (reverse out))

pub data Mode : Type 0 where
  code in_string escaped line_comment block_start block_comment block_end : Mode

-- What the text behind a byte begins with.
abbrev pub next_is : ℕ → Text → Bool
next_is c [] = false
next_is c (d ∷ s) = d == c

-- One round of a loop: the mode that follows, and what `out` becomes.
unfoldable pub step : Mode → Text → ℕ → Text → Mode × Text
unfolding drop_trailing_comma
step in_string out c rest =
    (if c == b'\\' then escaped else if c == b'"' then code else in_string, out ++ c ∷ [])
step escaped out c rest = (in_string, out ++ c ∷ [])
step code out c rest =
    if c == b'"'
    then (in_string, out ++ c ∷ [])
    else if c == b'/' && next_is b'/' rest
    then (line_comment, out)
    else if c == b'/' && next_is b'*' rest
    then (block_start, out)
    else if c == b'}' || c == b']'
    then (code, drop_trailing_comma out ++ c ∷ [])
    else (code, out ++ c ∷ [])
step line_comment out c rest = if c == b'\n' then (code, out ++ c ∷ []) else (line_comment, out)
step block_start out c rest = (block_comment, out)
step block_comment out c rest =
    if c == b'*' && next_is b'/' rest
    then (block_end, out)
    else (block_comment, if c == b'\n' then out ++ c ∷ [] else out)
step block_end out c rest = (code, out)

unfoldable pub run : Mode → Text → Text → Text
unfolding step
run m out [] = out
run m out (c ∷ rest) = let (m', out') = step m out c rest in run m' out' rest

unfoldable pub strip : Text → Text
unfolding run
strip = run code []
