-- ===== src/Base/GoPath.antt =====
-- Go's package `path`: `Clean`, `Join`, `Dir`, `Base` and `Ext`, over slash-separated texts, and
-- `parentDir` of gazelle/owner.go, the step of every walk towards the repository's root.
pub mod Dirs
pub mod Walk
pub mod Inside
use mathlib.Core.Bool.{Bool, true, false, ◌||◌, ◌&&◌}
use mathlib.Core.Option.{Option, none, some}
use mathlib.Core.List.{List, [], ◌∷◌, ◌++◌, reverse}
use rules_typescript.Base.Tests.{◌==◌, if◌then◌else◌}
use rules_typescript.Base.Text.{Text, codes, text_eq, has_prefix, cut_last, split, join, trim_right}

abbrev pub slash : Text
slash = b'/' ∷ []

abbrev pub dot : Text
dot = b'.' ∷ []

abbrev pub dot_dot : Text
dot_dot = b'.' ∷ b'.' ∷ []

-- One path element, over the elements kept so far, the last of them first.
unfoldable pub clean_step : Bool → List Text → Text → List Text
clean_step rooted kept [] = kept
clean_step rooted [] (c ∷ s) =
    if text_eq (c ∷ s) dot
    then []
    else if text_eq (c ∷ s) dot_dot && rooted
    then []
    else (c ∷ s) ∷ []
clean_step rooted (k ∷ kept) (c ∷ s) =
    if text_eq (c ∷ s) dot
    then k ∷ kept
    else if text_eq (c ∷ s) dot_dot
    then (if text_eq k dot_dot then (c ∷ s) ∷ k ∷ kept else kept)
    else (c ∷ s) ∷ k ∷ kept

unfoldable pub clean_loop : Bool → List Text → List Text → List Text
unfolding clean_step
clean_loop rooted kept [] = kept
clean_loop rooted kept (w ∷ ws) = clean_loop rooted (clean_step rooted kept w) ws

abbrev pub or_dot : Text → Text
or_dot [] = dot
or_dot (c ∷ s) = c ∷ s

-- The kept elements of a path, joined.
unfoldable pub cleaned : Bool → Text → Text
unfolding clean_loop split join
cleaned rooted p = join (reverse (clean_loop rooted [] (split p b'/'))) b'/'

unfoldable pub clean : Text → Text
unfolding cleaned has_prefix
clean p = if has_prefix p slash then b'/' ∷ cleaned true p else or_dot (cleaned false p)

-- `path.Join` of two elements; an empty one is left out.
unfoldable pub join_path : Text → Text → Text
unfolding clean
join_path [] [] = []
join_path [] (d ∷ b) = clean (d ∷ b)
join_path (c ∷ a) [] = clean (c ∷ a)
join_path (c ∷ a) (d ∷ b) = clean ((c ∷ a) ++ (b'/' ∷ d ∷ b))

unfoldable pub dir : Text → Text
unfolding clean cut_last
dir p = elim (cut_last p slash) [ none ↦ dot | some (before, after) ↦ clean (before ++ slash) ]

after_slash : Text → Text
unfolding cut_last
after_slash p = elim (cut_last p slash) [ none ↦ p | some (before, after) ↦ after ]

abbrev or_slash : Text → Text
or_slash [] = slash
or_slash (c ∷ s) = c ∷ s

unfoldable pub base : Text → Text
unfolding after_slash trim_right
base [] = dot
base (c ∷ s) = or_slash (after_slash (trim_right (λ d. d == b'/') (c ∷ s)))

unfoldable pub ext : Text → Text
unfolding after_slash
ext p = elim (cut_last (after_slash p) dot) [ none ↦ [] | some (before, after) ↦ b'.' ∷ after ]

-- gazelle/owner.go
unfoldable pub parent_dir : Text → Text
unfolding dir
parent_dir p = let d = dir p in if text_eq d dot then [] else d
