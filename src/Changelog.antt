-- ===== src/Changelog.antt =====
-- tools/changelog/main.go: the fragments of changelog.d. An error is its kind; the words of its message are left out.
pub mod Render
pub mod Splice
pub mod Headings
pub mod Entries
use rules_typescript.Base.{
  ℕ, zero, suc, Bool, true, false, not, ◌&&◌, ◌||◌, Option, none, some, List, [], ◌∷◌, ◌++◌, ◌==◌,
  if◌then◌else◌, leb,
}
use rules_typescript.Base.Text.{
  Text, codes, text_eq, has_prefix, has_suffix, trim_prefix, split, join, trim, trim_right,
  trim_space,
}
use rules_typescript.Base.Map.{Map, lookup, insert, keys}
use rules_typescript.Base.Sort.{sort_strings}

pub record Fragment : Type 0 where
  pub name : Text
  pub section : Text
  pub body : Text

-- A result, or what `fmt.Errorf` tells.
pub data Parsed {ℓ} (A : Type ℓ) : Type ℓ where
  parsed : A → Parsed A
  empty_file no_entry unreadable : Text → Parsed A
  no_section second_section : Text → Text → Parsed A

abbrev pub is_newline : ℕ → Bool
is_newline c = c == b'\n'

abbrev starts_newline : Text → Bool
starts_newline [] = false
starts_newline (c ∷ s) = c == b'\n'

-- `strings.ReplaceAll(text, "\r\n", "\n")`.
unfoldable pub unix_lines : Text → Text
unix_lines [] = []
unix_lines (c ∷ s) =
    let rest = unix_lines s in if c == b'\r' && starts_newline s then rest else c ∷ rest

abbrev is_blank : Text → Bool
is_blank line = text_eq (trim_space line) []

unfoldable pub section_heading : Text → Option Text
unfolding has_prefix trim_prefix trim_space
section_heading line =
    if not (has_prefix line (codes "### "))
    then none
    else let name = trim_space (trim_prefix line (codes "### ")) in
      if text_eq name [] then none else some name

-- The loop of `strayHeading`, with `fenced`.
unfoldable pub stray_loop : Bool → List Text → Option Text
unfolding has_prefix trim_space
stray_loop fenced [] = none
stray_loop fenced (line ∷ lines) =
    let fence = has_prefix (trim_space line) (codes "```") in
    let rest = stray_loop (if fence then not fenced else fenced) lines in
    if fence then rest else if not fenced && has_prefix line (codes "###") then some line else rest

unfoldable pub stray_heading : Text → Option Text
unfolding stray_loop split
stray_heading body = stray_loop false (split body b'\n')

unfoldable pub skip_blank : List Text → List Text
unfolding trim_space
skip_blank [] = []
skip_blank (line ∷ lines) =
    let rest = skip_blank lines in if is_blank line then rest else line ∷ lines

-- `ParseFragment` from the test of the body on.
unfoldable pub with_body : Text → Text → Text → Option Text → Parsed Fragment
unfolding trim_space
with_body name heading body (some line) =
    if is_blank body then no_entry name else second_section name line
with_body name heading body none =
    if is_blank body
    then no_entry name
    else parsed (record { name = name; section = heading; body = body })

unfoldable pub with_heading : Text → Text → List Text → Option Text → Parsed Fragment
unfolding with_body stray_heading trim join
with_heading name line rest none = no_section name line
with_heading name line rest (some heading) =
    let body = trim is_newline (join rest b'\n') in with_body name heading body (stray_heading body)

unfoldable pub from_lines : Text → List Text → Parsed Fragment
unfolding with_heading section_heading
from_lines name [] = empty_file name
from_lines name (line ∷ rest) = with_heading name line rest (section_heading line)

unfoldable pub parse_fragment : Text → Text → Parsed Fragment
unfolding from_lines skip_blank split unix_lines
parse_fragment name text = from_lines name (skip_blank (split (unix_lines text) b'\n'))

-- An entry of the directory.
pub record DirEntry : Type 0 where
  pub name : Text
  pub is_dir : Bool

unfoldable pub fragment_names : List DirEntry → List Text
unfolding has_suffix
fragment_names [] = []
fragment_names (e ∷ entries) =
    let rest = fragment_names entries in
    if e.is_dir || not (has_suffix e.name (codes ".md")) || text_eq e.name (codes "README.md")
    then rest
    else e.name ∷ rest

abbrev followed : Fragment → Parsed (List Fragment) → Parsed (List Fragment)
followed f (parsed fs) = parsed (f ∷ fs)
followed f (empty_file n) = empty_file n
followed f (no_entry n) = no_entry n
followed f (unreadable n) = unreadable n
followed f (no_section n l) = no_section n l
followed f (second_section n l) = second_section n l

abbrev and_then : Parsed Fragment → Parsed (List Fragment) → Parsed (List Fragment)
and_then (parsed f) rest = followed f rest
and_then (empty_file n) rest = empty_file n
and_then (no_entry n) rest = no_entry n
and_then (unreadable n) rest = unreadable n
and_then (no_section n l) rest = no_section n l
and_then (second_section n l) rest = second_section n l

-- `os.ReadFile` is a parameter; a directory that is not there holds no entries.
module _ (read_file : Text → Option Text) where
  unfoldable pub read_named : List Text → Parsed (List Fragment)
  unfolding parse_fragment
  read_named [] = parsed []
  read_named (name ∷ names) =
      let rest = read_named names in
      elim (read_file name) [
        | none ↦ unreadable name
        | some text ↦ and_then (parse_fragment name text) rest
      ]

  unfoldable pub read_fragments : List DirEntry → Parsed (List Fragment)
  unfolding read_named fragment_names sort_strings
  read_fragments entries = read_named (sort_strings (fragment_names entries))
