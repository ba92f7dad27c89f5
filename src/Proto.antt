-- ===== src/Proto.antt =====
-- gazelle/proto_graph.go: the graph of the external ts_proto_library targets. Decoding its JSON,
-- reading labels and looking overrides up are Gazelle's and the standard library's.
pub mod Loaded
pub mod Visits
pub mod Visiting
pub mod Owners
use rules_typescript.Base.{
  ℕ, zero, suc, Bool, true, false, not, ◌&&◌, ◌||◌, Option, none, some, List, [], ◌∷◌, ◌++◌,
  if◌then◌else◌, any, length,
}
use rules_typescript.Base.Text.{Text, codes, text_eq}
use rules_typescript.Base.Map.{Map, NameSet, lookup, insert, has_key, member}
use rules_typescript.Base.Delete.{delete_func}
use rules_typescript.Emission.{Label}

-- `protoGraphNode`.
pub record Node : Type 0 where
  pub label : Text
  pub sources : List Text
  pub deps : List Text

pub record Graph : Type 0 where
  pub nodes : Map Node
  pub sources : Map (List Node)
  pub labels : Map Label

-- What a call comes to, other than its value: log.Fatalf, a read through nil, and no fuel.
pub data Ran {ℓ} (A : Type ℓ) : Type ℓ where
  ran : A → Ran A
  fatal reads_nil starved : Ran A

abbrev pub and_run {ℓ κ} : {A : Type ℓ} {B : Type κ} → Ran A → (A → Ran B) → Ran B
and_run (ran a) f = f a
and_run fatal f = fatal
and_run reads_nil f = reads_nil
and_run starved f = starved

abbrev or_none : Option (List Node) → List Node
or_none none = []
or_none (some nodes) = nodes

unfoldable pub add_sources : Node → List Text → Map (List Node) → Map (List Node)
unfolding insert lookup
add_sources node [] m = m
add_sources node (s ∷ ss) m = add_sources node ss (insert s (or_none (lookup s m) ++ node ∷ []) m)

abbrev pub with_label : Graph → Node → Option Label → Option Graph
with_label g node none = none
with_label g node (some l) =
    if not l.canonical || text_eq l.repo []
    then none
    else if has_key node.label g.nodes
    then none
    else some (record {
      nodes = insert node.label node g.nodes;
      labels = insert node.label l g.labels;
      sources = add_sources node node.sources g.sources;
    })

abbrev pub and_graph : Option Graph → (Graph → Option Graph) → Option Graph
and_graph none f = none
and_graph (some g) f = f g

unfoldable pub has_deps : Map Node → List Text → Bool
unfolding has_key
has_deps m [] = true
has_deps m (dep ∷ deps) = let rest = has_deps m deps in if has_key dep m then rest else false

unfoldable pub all_deps : Map Node → List Node → Bool
unfolding has_deps
all_deps m [] = true
all_deps m (node ∷ nodes) =
    let rest = all_deps m nodes in if has_deps m node.deps then rest else false

module _ (parse_label : Text → Option Label) where
  unfoldable pub add_nodes : List Node → Graph → Option Graph
  unfolding insert has_key add_sources
  add_nodes [] g = some g
  add_nodes (node ∷ nodes) g =
      and_graph (with_label g node (parse_label node.label)) (add_nodes nodes)

  module _ (label_text : Label → Text) where
    abbrev pub with_target : Graph → Option Label → Option Label → Option Graph
    with_target g none target = none
    with_target g (some l) none = none
    with_target g (some l) (some target) =
        some (record g { labels = insert (label_text l) target g.labels })

    unfoldable pub add_roots : Map Text → Graph → Option Graph
    unfolding insert lookup
    add_roots [] g = some g
    add_roots ((spelling, native) ∷ roots) g =
        and_graph (with_target g (parse_label spelling) (lookup native g.labels)) (add_roots roots)

    -- The roots are read once every dependency is known to be a node.
    unfoldable pub with_roots : List Node → Map Text → Graph → Option Graph
    unfolding all_deps add_roots
    with_roots nodes roots g = if all_deps g.nodes nodes then add_roots roots g else none

    -- `loadProtoGraph` after decoding; none is the error.
    unfoldable pub load_proto_graph : List Node → Map Text → Option Graph
    unfolding add_nodes with_roots
    load_proto_graph nodes roots =
        and_graph (add_nodes nodes (record { nodes = []; sources = []; labels = [] }))
          (with_roots nodes roots)

unfoldable pub normalize : (Label → Text) → Option Graph → Label → Label
unfolding lookup
normalize label_text none l = l
normalize label_text (some g) l = elim (lookup (label_text l) g.labels) [
  | none ↦ l
  | some target ↦ target
]

-- `seen` and `result`.
pub record Visit : Type 0 where
  pub seen : NameSet
  pub result : List Node

abbrev pub is_empty : List Text → Bool
is_empty [] = true
is_empty (s ∷ ss) = false

-- A dependency's node.
abbrev pub visit_node : (Node → Visit → Ran Visit) → Visit → Option Node → Ran Visit
visit_node visit s none = reads_nil
visit_node visit s (some node) = visit node s

unfoldable pub visit_deps : Map Node → (Node → Visit → Ran Visit) → List Text → Visit → Ran Visit
unfolding lookup
visit_deps m visit [] s = ran s
visit_deps m visit (dep ∷ deps) s =
    and_run (visit_node visit s (lookup dep m)) (visit_deps m visit deps)

-- `visit`, on fuel for the depth of the calls.
unfoldable pub visit : Map Node → ℕ → Node → Visit → Ran Visit
unfolding member visit_deps
visit m zero node s = starved
visit m (suc fuel) node s =
    let into = visit_deps m (visit m fuel) node.deps (record s { seen = node.label ∷ s.seen }) in
    if member node.label s.seen
    then ran s
    else if not (is_empty node.sources)
    then ran (record { seen = node.label ∷ s.seen; result = s.result ++ node ∷ [] })
    else into

abbrev pub result_of : Ran Visit → Ran (List Node)
result_of r = and_run r (λ s. ran s.result)

unfoldable pub direct_owners : Graph → Node → Ran (List Node)
unfolding visit
direct_owners g node =
    result_of (visit g.nodes (suc (length g.nodes)) node (record { seen = []; result = [] }))

-- The owners that have the import among their sources.
abbrev pub owning : Text → Ran (List Node) → Ran (List Node)
owning imp r =
    and_run r (λ nodes. ran (delete_func (λ (n : Node). not (member imp n.sources)) nodes))

abbrev pub of_node : Graph → Text → Option Node → Ran (List Node)
of_node g imp none = ran []
of_node g imp (some node) = owning imp (direct_owners g node)

-- `providers`, by what resolve.FindRuleWithOverride answers.
unfoldable pub providers :
    (Label → Text) → Text → Option Graph → Option Label → Text → Ran (List Node)
unfolding direct_owners normalize lookup delete_func member
providers label_text repo none override imp = ran []
providers label_text repo (some g) none imp = ran (or_none (lookup imp g.sources))
providers label_text repo (some g) (some o) imp =
    let normalized = normalize label_text (some g) o in
    if not (text_eq o.repo []) && not (text_eq o.repo repo) && not normalized.canonical
    then fatal
    else of_node g imp (lookup (label_text normalized) g.nodes)

abbrev or_empty : Option Text → Text
or_empty none = []
or_empty (some t) = t

unfoldable pub needs_wrapper : Map Text → List Text → Node → Bool
unfolding lookup member
needs_wrapper runtime_imports options node =
    any
      (λ source.
        text_eq (or_empty (lookup source runtime_imports)) []
        || member (codes "bootstrap_wkt=true") options)
      node.sources
