-- ===== src/Patch/Edits.antt =====
-- The edges and candidates of a patched listing: the loops of patchListing over the changed sources.
use rules_typescript.Base.{
  ℕ, suc, Bool, false, not, ◌&&◌, Option, none, some, List, [], ◌∷◌, ◌++◌, if◌then◌else◌, any, map,
  ltb,
}
use rules_typescript.Base.Text.{Text, codes, text_eq, cut}
use rules_typescript.Base.Map.{Map, NameSet, lookup, insert, has_key, member}
use rules_typescript.Base.Delete.{delete_func}
use rules_typescript.Base.GoPath.{dir}
use rules_typescript.ExplainFiles.{Edge}
use rules_typescript.Patch.{CachedSource, Candidate, extension_class}

-- A patch or why the compiler lists again. `no_rounds` is the model's, for a search without fuel.
pub data Patched {ℓ} (A : Type ℓ) : Type ℓ where
  patched : A → Patched A
  refused : Text → Patched A
  no_rounds : Patched A

abbrev pub and_then {ℓ κ} : {A : Type ℓ} {B : Type κ} → Patched A → (A → Patched B) → Patched B
and_then (patched a) f = f a
and_then (refused why) f = refused why
and_then no_rounds f = no_rounds

-- What the loops change.
pub record Work : Type 0 where
  pub edges : List Edge
  pub candidates : List Candidate
  pub block : ℕ
  pub sources : Map CachedSource

-- What follows the first colon.
unfoldable pub spec_text : Text → Text
unfolding cut
spec_text spec = elim (cut spec (codes ":")) [ none ↦ [] | some (mode, text) ↦ text ]

abbrev pub edge_is : Text → Text → Edge → Bool
edge_is rel text e = text_eq e.from rel && text_eq e.specifier text

abbrev pub candidate_is : Text → Text → Candidate → Bool
candidate_is rel text c = text_eq c.from rel && text_eq c.specifier text

-- One specifier that the source had.
unfoldable pub drop_spec : Text → List Text → Text → Work → Patched Work
unfolding spec_text member delete_func
drop_spec rel now spec w =
    if member spec now
    then patched w
    else if any (λ s. text_eq (spec_text s) (spec_text spec)) now
    then refused (codes "an import text kept in another mode")
    else patched (record w {
      edges = delete_func (edge_is rel (spec_text spec)) w.edges;
      candidates = delete_func (candidate_is rel (spec_text spec)) w.candidates;
    })

unfoldable pub drop_specs : Text → List Text → List Text → Work → Patched Work
unfolding drop_spec
drop_specs rel now [] w = patched w
drop_specs rel now (spec ∷ specs) w = and_then (drop_spec rel now spec w) (drop_specs rel now specs)

-- Whether an unedited source resolves a specifier as `rel` does.
unfoldable pub is_precedent : Map CachedSource → Text → Text → Text → CachedSource → Bool
unfolding has_key dir extension_class member
is_precedent changed rel spec other src =
    not (has_key other changed)
    && not (text_eq other rel)
    && text_eq (dir other) (dir rel)
    && text_eq (extension_class other) (extension_class rel)
    && member spec src.specs

-- The first such source; the empty name where there is none.
unfoldable pub precedent_in : Map CachedSource → Text → Text → Map CachedSource → Text
unfolding is_precedent
precedent_in changed rel spec [] = []
precedent_in changed rel spec ((other, src) ∷ sources) =
    let later = precedent_in changed rel spec sources in
    if is_precedent changed rel spec other src then other else later

unfoldable pub first_edge : Text → Text → List Edge → Option Edge
first_edge from text [] = none
first_edge from text (e ∷ es) =
    let later = first_edge from text es in if edge_is from text e then some e else later

abbrev pub copied_edge : Text → Option Edge → List Edge
copied_edge rel none = []
copied_edge rel (some e) = record e { from = rel } ∷ []

unfoldable pub probes_of : Text → Text → List Candidate → List Candidate
probes_of from text [] = []
probes_of from text (c ∷ cs) =
    let rest = probes_of from text cs in if candidate_is from text c then c ∷ rest else rest

-- `resolved` after the loop over the probes.
unfoldable pub last_resolved : Text → List Candidate → Text
last_resolved resolved [] = resolved
last_resolved resolved (c ∷ cs) = last_resolved c.resolved cs

abbrev pub copied_candidate : Text → ℕ → Candidate → Candidate
copied_candidate rel block c = record c { from = rel; block = block }

abbrev pub is_listed_edge : NameSet → Text → Option Edge → Bool
is_listed_edge files resolved none = false
is_listed_edge files resolved (some e) = member resolved files

abbrev pub resolves_outside : NameSet → Text → Option Edge → Bool
resolves_outside files resolved found =
    not (text_eq resolved []) && not (is_listed_edge files resolved found)

-- A specifier that the source gained, with its precedent.
unfoldable pub copy_spec : NameSet → Text → Text → Text → Work → Patched Work
unfolding probes_of first_edge last_resolved member
copy_spec files rel text precedent w =
    let probes = probes_of precedent text w.candidates in
    let found = first_edge precedent text w.edges in
    if text_eq precedent []
    then refused (codes "no precedent in the directory")
    else if resolves_outside files (last_resolved [] probes) found
    then refused (codes "the precedent resolution is not a listed edge")
    else patched (record w {
      edges = w.edges ++ copied_edge rel found;
      candidates = w.candidates ++ map (copied_candidate rel w.block) probes;
      block = suc w.block;
    })

unfoldable pub add_spec : Map CachedSource → NameSet → Text → List Text → Text → Work → Patched Work
unfolding copy_spec precedent_in spec_text member
add_spec changed files rel old spec w =
    if member spec old
    then patched w
    else copy_spec files rel (spec_text spec) (precedent_in changed rel spec w.sources) w

unfoldable pub add_specs :
    Map CachedSource → NameSet → Text → List Text → List Text → Work → Patched Work
unfolding add_spec
add_specs changed files rel old [] w = patched w
add_specs changed files rel old (spec ∷ specs) w =
    and_then (add_spec changed files rel old spec w) (add_specs changed files rel old specs)

-- `entry.Sources[rel]`.
abbrev pub specs_of : Option CachedSource → List Text
specs_of none = []
specs_of (some src) = src.specs

abbrev pub with_source : Text → CachedSource → Work → Patched Work
with_source rel now w = patched (record w { sources = insert rel now w.sources })

-- One round of the loop over the changed sources.
unfoldable pub edit_source : Map CachedSource → NameSet → Text → CachedSource → Work → Patched Work
unfolding drop_specs add_specs lookup insert
edit_source changed files rel now w =
    let old = specs_of (lookup rel w.sources) in
    and_then (drop_specs rel now.specs old w)
      (λ v. and_then (add_specs changed files rel old now.specs v) (with_source rel now))

unfoldable pub edit_sources : Map CachedSource → NameSet → Map CachedSource → Work → Patched Work
unfolding edit_source
edit_sources changed files [] w = patched w
edit_sources changed files ((rel, now) ∷ more) w =
    and_then (edit_source changed files rel now w) (edit_sources changed files more)

-- The first block that no candidate has.
unfoldable pub next_block : ℕ → List Candidate → ℕ
next_block block [] = block
next_block block (c ∷ cs) = next_block (if ltb block (suc c.block) then suc c.block else block) cs
