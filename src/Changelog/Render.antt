-- ===== src/Changelog/Render.antt =====
-- tools/changelog/main.go: the section of CHANGELOG.md that the fragments add up to.
use rules_typescript.Base.{
  ℕ, suc, Bool, true, false, not, ◌&&◌, Option, none, some, List, [], ◌∷◌, ◌++◌, if◌then◌else◌, leb,
}
use rules_typescript.Base.Text.{Text, codes, text_eq, has_prefix}
use rules_typescript.Base.Map.{Map, lookup, insert, keys}
use rules_typescript.Base.Sort.{sort_strings}
use rules_typescript.Changelog.{Fragment}

abbrev pub known_sections : List Text
known_sections =
    codes "Added"
    ∷ codes "Changed"
    ∷ codes "Deprecated"
    ∷ codes "Removed"
    ∷ codes "Fixed"
    ∷ codes "Security"
    ∷ []

rank_in : List Text → Text → Option ℕ
rank_in [] section = none
rank_in (known ∷ sections) section =
    if text_eq section known
    then some 0
    else elim (rank_in sections section) [ none ↦ none | some i ↦ some (suc i) ]

-- `none` is Go's -1.
unfoldable pub section_rank : Text → Option ℕ
unfolding rank_in
section_rank section = rank_in known_sections section

abbrev rank_le : Option ℕ → Option ℕ → Bool
rank_le none n = true
rank_le (some m) none = false
rank_le (some m) (some n) = leb m n

-- `sort.Slice` by rank.
unfoldable pub insert_ranked : Text → List Text → List Text
unfolding section_rank
insert_ranked s [] = s ∷ []
insert_ranked s (t ∷ ts) =
    let rest = insert_ranked s ts in
    if rank_le (section_rank s) (section_rank t) then s ∷ t ∷ ts else t ∷ rest

unfoldable pub sort_ranked : List Text → List Text
unfolding insert_ranked
sort_ranked [] = []
sort_ranked (s ∷ ss) = insert_ranked s (sort_ranked ss)

-- `breaking`, `known` and `other`.
unfoldable pub breaking_sections : List Text → List Text
unfolding has_prefix
breaking_sections [] = []
breaking_sections (s ∷ ss) =
    let rest = breaking_sections ss in if has_prefix s (codes "Breaking") then s ∷ rest else rest

abbrev is_ranked : Option ℕ → Bool
is_ranked none = false
is_ranked (some i) = true

unfoldable pub ranked_sections : Bool → List Text → List Text
unfolding has_prefix section_rank
ranked_sections wanted [] = []
ranked_sections wanted (s ∷ ss) =
    let rest = ranked_sections wanted ss in
    let known = is_ranked (section_rank s) in
    if not (has_prefix s (codes "Breaking")) && (if wanted then known else not known)
    then s ∷ rest
    else rest

abbrev group_of : Option (List Fragment) → List Fragment
group_of none = []
group_of (some fs) = fs

unfoldable pub grouped : List Fragment → Map (List Fragment) → Map (List Fragment)
unfolding insert lookup
grouped [] m = m
grouped (f ∷ fs) m = grouped fs (insert f.section (group_of (lookup f.section m) ++ f ∷ []) m)

unfoldable pub section_order : List Text → List Text
unfolding sort_strings breaking_sections ranked_sections sort_ranked
section_order names =
    sort_strings (breaking_sections names)
    ++ (sort_ranked (ranked_sections true names) ++ sort_strings (ranked_sections false names))

unfoldable pub bodies : List Fragment → Text
bodies [] = []
bodies (f ∷ fs) = f.body ++ (b'\n' ∷ bodies fs)

unfoldable pub sections_text : Map (List Fragment) → List Text → Text
unfolding bodies lookup
sections_text m [] = []
sections_text m (s ∷ ss) =
    codes "\n### "
    ++ (s ++ (codes "\n\n" ++ (bodies (group_of (lookup s m)) ++ sections_text m ss)))

unfoldable pub render : List Fragment → Text → Text
unfolding sections_text section_order grouped keys
render fragments version =
    let m = grouped fragments [] in
    let title =
      if text_eq version [] then codes "[Unreleased]" else b'[' ∷ (version ++ (b']' ∷ [])) in
    codes "## " ++ (title ++ (b'\n' ∷ sections_text m (section_order (keys m))))
