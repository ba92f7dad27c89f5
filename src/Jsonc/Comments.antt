-- ===== src/Jsonc/Comments.antt =====
-- What `Strip` writes for a comment, in any surroundings.
use rules_typescript.Base.{
  ℕ, Bool, true, not, ◌&&◌, [], ◌∷◌, ◌++◌, ◌==◌, if◌then◌else◌, ◌≡◌, refl, arith, all, append-nil,
  append_assoc,
}
use rules_typescript.Base.Text.{Text}
use rules_typescript.Jsonc.{code, line_comment, block_comment, next_is, run}

abbrev pub not_newline : ℕ → Bool
not_newline c = not (c == b'\n')

-- The newlines of a text, and no other byte of it.
unfoldable pub only_newlines : Text → Text
only_newlines [] = []
only_newlines (c ∷ s) = let rest = only_newlines s in if c == b'\n' then c ∷ rest else rest

-- The text does not hold the two bytes that close a comment.
unfoldable pub no_close : Text → Bool
no_close [] = true
no_close (c ∷ s) = not (c == b'*' && next_is b'/' s) && no_close s

run-line_comment :
    (out w rest : Text)
    → all not_newline w ≡ true
    → run line_comment out (w ++ (b'\n' ∷ rest)) ≡ run code (out ++ b'\n' ∷ []) rest
unfolding run
run-line_comment out [] rest h = refl
run-line_comment out (c ∷ w) rest h = ground (arith, run-line_comment out w rest)

next_is-append : (w rest : Text) → next_is b'/' (w ++ (b'*' ∷ rest)) ≡ next_is b'/' w
next_is-append [] rest = refl
next_is-append (c ∷ w) rest = refl

run-block_comment :
    (out w rest : Text)
    → no_close w ≡ true
    → run block_comment out (w ++ (b'*' ∷ b'/' ∷ rest)) ≡ run code (out ++ only_newlines w) rest
unfolding run no_close only_newlines
run-block_comment out [] rest h = rw append-nil
run-block_comment out (c ∷ w) rest h = ground (
  arith,
  next_is-append w (b'/' ∷ rest),
  run-block_comment (out ++ c ∷ []) w rest,
  run-block_comment out w rest,
  append_assoc out (c ∷ []) (only_newlines w),
)

-- Outside a string, `Strip` goes on after a line comment, whose text `w` holds no newline, having
-- written the newline that ends it, and after a block comment, whose text `v` does not close it,
-- having written the newlines inside it.
pub run-comments :
    (out w v rest : Text)
    → all not_newline w ≡ true
    → no_close v ≡ true
    → (run code out (b'/' ∷ b'/' ∷ (w ++ (b'\n' ∷ rest))) ≡ run code (out ++ b'\n' ∷ []) rest)
      × (run code out (b'/' ∷ b'*' ∷ (v ++ (b'*' ∷ b'/' ∷ rest)))
          ≡ run code (out ++ only_newlines v) rest)
unfolding run
run-comments out w v rest line block =
    (run-line_comment out w rest line, run-block_comment out v rest block)
