-- ===== src/Program.antt =====
-- A compiler listing and the files that its roots, type entries and edges reach:
-- gazelle/listing_patch.go.
pub mod Reach
pub mod Search
pub mod Rounds
pub mod Unreached
use rules_typescript.Base.{
  ℕ, zero, suc, ◌+◌, Bool, true, false, not, ◌&&◌, ◌||◌, Option, none, some, List, [], ◌∷◌, ◌++◌,
  ◌==◌, if◌then◌else◌, length, map,
}
use rules_typescript.Base.Text.{Text, codes, text_eq, has_prefix}
use rules_typescript.Base.Map.{NameSet, member}
use rules_typescript.Base.Sort.{sort_strings}
use rules_typescript.ExplainFiles.{Edge, TypeEntry}
use rules_typescript.Files.{embedded_libs}

-- The part of `program` that reachability reads.
pub record Program : Type 0 where
  pub files : List Text
  pub roots : List Text
  pub edges : List Edge
  pub types : List TypeEntry
  pub implicit : List TypeEntry

-- `seen` and `queue`.
pub record Frontier : Type 0 where
  pub seen : NameSet
  pub queue : List Text

unfoldable pub push : Text → Frontier → Frontier
unfolding member
push f s =
    if not (text_eq f []) && not (member f s.seen)
    then record { seen = f ∷ s.seen; queue = s.queue ++ f ∷ [] }
    else s

unfoldable pub push_all : List Text → Frontier → Frontier
unfolding push
push_all [] s = s
push_all (f ∷ fs) s = push_all fs (push f s)

abbrev pub type_files : List TypeEntry → List Text
type_files = map (λ t. t.file)

-- Default libs enter by compiler option, not by an edge or a root.
unfoldable pub default_libs : List Text → List Text
unfolding has_prefix
default_libs [] = []
default_libs (f ∷ fs) =
    let rest = default_libs fs in
    if has_prefix f embedded_libs || has_prefix f (codes "../") then f ∷ rest else rest

unfoldable pub entry_files : Program → List Text
unfolding default_libs
entry_files p = p.roots ++ (type_files p.types ++ (type_files p.implicit ++ default_libs p.files))

-- `next[f]`, in the order of the edges.
unfoldable pub next : List Edge → Text → List Text
next [] f = []
next (e ∷ es) f = let rest = next es f in if text_eq e.from f then e.to ∷ rest else rest

-- The loop over the queue, on fuel: one round for each file that was ever pushed.
unfoldable pub drain : List Edge → ℕ → Frontier → Option NameSet
unfolding push_all next
drain es zero s = elim s.queue [ [] ↦ some s.seen | f ∷ rest ↦ none ]
drain es (suc fuel) s = elim s.queue [
  | [] ↦ some s.seen
  | f ∷ rest ↦ drain es fuel (push_all (next es f) (record s { queue = rest }))
]

abbrev empty_frontier : Frontier
empty_frontier = record { seen = []; queue = [] }

unfoldable pub reachable : Program → ℕ → Option NameSet
unfolding drain push_all entry_files
reachable p fuel = drain p.edges fuel (push_all (entry_files p) empty_frontier)

-- The names of a list that a set does not hold.
unfoldable pub not_in : NameSet → List Text → List Text
unfolding member
not_in seen [] = []
not_in seen (f ∷ fs) = let rest = not_in seen fs in if member f seen then rest else f ∷ rest

unfoldable pub unlisted : List Text → List Text
unlisted [] = []
unlisted (f ∷ fs) = (f ++ codes " (unlisted)") ∷ unlisted fs

unfoldable pub difference : List Text → Option NameSet → Option (List Text)
unfolding not_in unlisted sort_strings
difference files none = none
difference files (some reached) =
    some (sort_strings (not_in reached files ++ unlisted (not_in files reached)))

unfoldable pub unreached : Program → ℕ → List Text → Option (List Text)
unfolding difference reachable
unreached p fuel files = difference files (reachable p fuel)
