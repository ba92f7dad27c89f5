-- ===== src/Minimize/Fixed.antt =====
-- gazelle/resolve.go: `fixedSupply`, what the retained dependencies supply, as counts, and the
-- readers of each file and target, so that a drop looks only at what it can change.
pub mod Lacks
pub mod Index
pub mod Tracking
pub mod Preserve
pub mod Antitone
pub mod Refines
pub mod New
pub mod Loop
pub mod Minimal
use rules_typescript.Base.{
  ℕ, suc, Bool, true, false, not, ◌&&◌, ◌||◌, Option, none, some, List, [], ◌∷◌, ◌++◌, ◌==◌, any,
  ltb, if◌then◌else◌,
}
use rules_typescript.Base.Text.{Text, text_eq}
use rules_typescript.Base.Map.{Map, NameSet, lookup, keys, member}
use rules_typescript.Base.Sort.{sort_strings}
use rules_typescript.Emission.{Rule}
use rules_typescript.ExplainFiles.{Edge}
use rules_typescript.Minimize.{
  Memo, Requirement, or_nothing, DirectSupply, direct_supply, static_edge_supply, is_read, lacks,
  unsupplied_by,
}
use rules_typescript.Minimize.Counts.{Counts, add_each, one_less}

pub record FixedSupply : Type 0 where
  pub files : Counts
  pub targets : Counts
  pub readers : Text → List Text
  pub needs : Text → List Text
  pub blocked : Bool

abbrev pub edge_files : List Edge → List Text
edge_files [] = []
edge_files (e ∷ es) = e.from ∷ e.to ∷ edge_files es

-- The files that the edges read, and the targets behind the labels.
unfoldable pub read_files : Map Requirement → NameSet
read_files [] = []
read_files ((dep, required) ∷ deps) = edge_files required.edges ++ read_files deps

unfoldable pub read_targets : Memo → Map Requirement → NameSet
read_targets m [] = []
read_targets m ((dep, required) ∷ deps) = (m.target_rule dep).0 ∷ read_targets m deps

unfoldable pub keep_read : NameSet → List Text → List Text
unfolding member
keep_read read [] = []
keep_read read (x ∷ xs) = let rest = keep_read read xs in if member x read then x ∷ rest else rest

abbrev pub append_at : Text → Text → (Text → List Text) → Text → List Text
append_at k dep index x = if text_eq k x then index x ++ dep ∷ [] else index x

abbrev pub append_if : Bool → Text → Text → (Text → List Text) → Text → List Text
append_if true k dep index = append_at k dep index
append_if false k dep index = index

unfoldable pub index_edges : Text → Option Rule → List Edge → (Text → List Text) → Text → List Text
unfolding static_edge_supply
index_edges dep owner [] readers = readers
index_edges dep owner (e ∷ es) readers = index_edges dep owner es (
    append_if (not (static_edge_supply owner e) && is_read e) e.to dep
      (append_at e.from dep readers))

abbrev pub readers_of : (Text → List Text) → List Text → List Text
readers_of index [] = []
readers_of index (x ∷ xs) = index x ++ readers_of index xs

module _ (m : Memo) (deps : Map Requirement) (roots : NameSet) where
  unfoldable pub dependency_supply : Text → DirectSupply
  unfolding direct_supply keep_read read_files read_targets
  dependency_supply dep = record {
    files = keep_read (read_files deps) (direct_supply m dep).files;
    targets = keep_read (read_targets m deps) (direct_supply m dep).targets;
  }

  -- `add`: what is lost of the files and of the targets, and the supply behind it.
  unfoldable pub add : (ℕ → ℕ) → Text → FixedSupply → (List Text × List Text) × FixedSupply
  unfolding dependency_supply add_each
  add delta dep f =
      let supply = dependency_supply dep in
      let files = add_each delta supply.files f.files in
      let targets = add_each delta supply.targets f.targets in
      ((files.0, targets.0), record f { files = files.1; targets = targets.1 })

  abbrev pub supplies : FixedSupply → Text → Bool
  supplies f file = not (member file roots) && ltb 0 (f.files file)

  unfoldable pub unsupplied : FixedSupply → Text → Bool
  unfolding lacks member
  unsupplied f dep = lacks m deps (λ t. not (f.targets t == 0)) (supplies f) dep

  unfoldable pub index : Text → FixedSupply → FixedSupply
  unfolding index_edges lookup
  index dep f =
      let found = m.target_rule dep in
      record f {
        needs = append_at found.0 dep f.needs;
        readers = index_edges dep found.1 (or_nothing (lookup dep deps)).edges f.readers;
      }

  -- By whether the supply is blocked and whether something is lost.
  abbrev pub drop_when : Bool → Bool → Text → FixedSupply → FixedSupply → Bool × FixedSupply
  drop_when true lost dep f less = (false, f)
  drop_when false true dep f less = (false, (add suc dep less).1)
  drop_when false false dep f less = (true, index dep less)

  unfoldable pub drop : Text → FixedSupply → Bool × FixedSupply
  unfolding add unsupplied index
  drop dep f =
      let less = add one_less dep f in
      let affected = dep ∷ (readers_of f.readers less.0.0 ++ readers_of f.needs less.0.1) in
      drop_when f.blocked (any (unsupplied less.1) affected) dep f less.1

  unfoldable pub add_retained : List Text → FixedSupply → FixedSupply
  unfolding add
  add_retained [] f = f
  add_retained (dep ∷ retained) f = add_retained retained (add suc dep f).1

  unfoldable pub index_dropped : List Text → FixedSupply → FixedSupply
  unfolding index unsupplied
  index_dropped [] f = f
  index_dropped (dep ∷ dropped) f =
      let g = index dep f in
      index_dropped dropped (record g { blocked = g.blocked || unsupplied g dep })

  abbrev pub no_supply : FixedSupply
  no_supply = record {
    files = λ x. 0;
    targets = λ x. 0;
    readers = λ x. [];
    needs = λ x. [];
    blocked = false;
  }

  -- `newFixedSupply`.
  unfoldable pub new_fixed_supply : List Text → List Text → FixedSupply
  unfolding index_dropped add_retained sort_strings
  new_fixed_supply retained dropped =
      index_dropped (sort_strings dropped) (add_retained (sort_strings retained) no_supply)

  -- `settled` by the dependencies kept and those to try: which owners have answered by then.
  module _ (settled : List Text → List Text → Bool) where
    abbrev pub supply_at :
        Option FixedSupply → List Text → List Text → List Text → Option FixedSupply
    supply_at (some f) kept dropped todo = some f
    supply_at none kept dropped todo =
        if settled kept todo then some (new_fixed_supply (kept ++ todo) dropped) else none

    -- The loop of `minimizeDependencies`.
    unfoldable pub minimize_loop :
        Option FixedSupply → List Text → List Text → List Text → List Text × List Text
    unfolding new_fixed_supply drop unsupplied_by
    minimize_loop supply kept dropped [] = (kept, dropped)
    minimize_loop supply kept dropped (dep ∷ todo) =
        elim (supply_at supply kept dropped (dep ∷ todo)) [
          | some f ↦
              let tried = drop dep f in
              elim tried.0 [
                | true ↦ minimize_loop (some tried.1) kept (dep ∷ dropped) todo
                | false ↦ minimize_loop (some tried.1) (kept ++ dep ∷ []) dropped todo
              ]
          | none ↦ elim (any (unsupplied_by m deps roots (kept ++ todo)) (dep ∷ dropped)) [
            | true ↦ minimize_loop none (kept ++ dep ∷ []) dropped todo
            | false ↦ minimize_loop none kept (dep ∷ dropped) todo
          ]
        ]

    unfoldable pub minimize_dependencies : List Text × List Text
    unfolding minimize_loop sort_strings keys
    minimize_dependencies = minimize_loop none [] [] (sort_strings (keys deps))
