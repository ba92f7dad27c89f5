-- ===== src/Proto/Loaded.antt =====
-- What loading a graph checks: the label of each node, and that every dependency is a node.
use rules_typescript.Base.{
  true, not, ◌||◌, Bool-cases, Option, none, some, List, [], ◌∷◌, if-elim, ◌≡◌, refl, sym, ap,
  subst, ◌∙◌, inl, inr, ◌⊎◌, arith, In, here, there,
}
use rules_typescript.Base.Text.{Text, text_eq, text_eq_iff}
use rules_typescript.Base.Map.{Map, lookup, insert, lookup-insert, has_key}
use rules_typescript.Emission.{Label}
use rules_typescript.Proto.{
  Node, Graph, and_graph, with_label, add_nodes, with_roots, with_target, add_roots, has_deps,
  all_deps, load_proto_graph,
}

-- Each node stands under its label, and its dependencies are nodes.
pub record IsLoaded (m : Map Node) : Type 0 where
  pub named : (k : Text) (node : Node) → lookup k m ≡ some node → node.label ≡ k
  pub complete :
      (k : Text) (node : Node) (dep : Text)
      → lookup k m ≡ some node
      → In dep node.deps
      → has_key dep m ≡ true

-- The nodes of a map are listed and stand under their labels.
record Listed (nodes : List Node) (m : Map Node) : Type 0 where
  named : (k : Text) (node : Node) → lookup k m ≡ some node → node.label ≡ k
  given : (k : Text) (node : Node) → lookup k m ≡ some node → In node nodes

-- The node that a lookup after an insertion finds is the new one, or was there.
lookup_either :
    (node : Node) (m : Map Node) (k : Text) (n : Node)
    → lookup k (insert node.label node m) ≡ some n
    → ((node ≡ n) × (node.label ≡ k)) ⊎ (lookup k m ≡ some n)
lookup_either node m k n e = elim (Bool-cases (text_eq node.label k)) [
  | inl same ↦
      let q : some node ≡ some n = rw same at (sym (lookup-insert node.label k node m) ∙ e) in
      inl (cc q, (text_eq_iff node.label k).0 same)
  | inr other ↦ inr (rw other at (sym (lookup-insert node.label k node m) ∙ e))
]

insert-Listed :
    (nodes : List Node) (node : Node) (m : Map Node)
    → In node nodes
    → Listed nodes m
    → Listed nodes (insert node.label node m)
insert-Listed nodes node m i h = record {
  named = λ k n e. elim (lookup_either node m k n e) [
    | inl (q, l) ↦ subst (λ (x : Node). x.label ≡ k) q l
    | inr old ↦ h.named k n old
  ];
  given = λ k n e. elim (lookup_either node m k n e) [
    | inl (q, l) ↦ subst (λ x. In x nodes) q i
    | inr old ↦ h.given k n old
  ];
}

-- What holds of a graph, where there is one.
pub data Gives (P : Graph → Type 0) : Option Graph → Type 0 where
  gives : {g : Graph} → P g → Gives P (some g)
  refusal : Gives P none

pub Gives-some : (P : Graph → Type 0) {o : Option Graph} {g : Graph} → Gives P o → o ≡ some g → P g
Gives-some P (gives {g} p) e = subst (of_some P g) e p
  where
    of_some : (Graph → Type 0) → Graph → Option Graph → Type 0
    of_some P g none = P g
    of_some P g (some h) = P h
Gives-some P refusal e = absurd (cc)

and_graph-Gives :
    (P : Graph → Type 0) {Q : Graph → Type 0} {o : Option Graph} {f : Graph → Option Graph}
    → Gives P o
    → ((g : Graph) → P g → Gives Q (f g))
    → Gives Q (and_graph o f)
and_graph-Gives P (gives {g} p) k = k g p
and_graph-Gives P refusal k = refusal

abbrev Lists : List Node → Graph → Type 0
Lists nodes g = Listed nodes g.nodes

with_label-Lists :
    (nodes : List Node) (g : Graph) (node : Node) (l : Option Label)
    → In node nodes
    → Lists nodes g
    → Gives (Lists nodes) (with_label g node l)
with_label-Lists nodes g node none i k = refusal
with_label-Lists nodes g node (some l) i k =
    if-elim (Gives (Lists nodes)) (not l.canonical || text_eq l.repo []) _ _ (λ e. refusal)
      (λ e.
        if-elim (Gives (Lists nodes)) (has_key node.label g.nodes) _ _ (λ e. refusal)
          (λ e. gives (insert-Listed nodes node g.nodes i k)))

has_deps-In :
    (m : Map Node) {dep : Text} {deps : List Text}
    → In dep deps
    → has_deps m deps ≡ true
    → has_key dep m ≡ true
unfolding has_deps
has_deps-In m (here {x} {xs} e) h = ap (λ t. has_key t m) e ∙ ground arith
has_deps-In m (there {x} {xs} i) h = has_deps-In m i (ground arith)

all_deps-In :
    (m : Map Node) {node : Node} {nodes : List Node}
    → In node nodes
    → all_deps m nodes ≡ true
    → has_deps m node.deps ≡ true
unfolding all_deps
all_deps-In m (here {x} {xs} e) h = ap (λ (n : Node). has_deps m n.deps) e ∙ ground arith
all_deps-In m (there {x} {xs} i) h = all_deps-In m i (ground arith)

Listed-IsLoaded :
    (nodes : List Node) (m : Map Node) → Listed nodes m → all_deps m nodes ≡ true → IsLoaded m
Listed-IsLoaded nodes m k h = record {
  named = k.named;
  complete = λ j node dep e i. has_deps-In m i (all_deps-In m (k.given j node e) h);
}

module _ (parse_label : Text → Option Label) where
  add_nodes-Lists :
      (nodes more : List Node) (g : Graph)
      → ((n : Node) → In n more → In n nodes)
      → Lists nodes g
      → Gives (Lists nodes) (add_nodes parse_label more g)
  unfolding add_nodes
  add_nodes-Lists nodes [] g i k = gives k
  add_nodes-Lists nodes (node ∷ more) g i k =
      and_graph-Gives (Lists nodes)
        (with_label-Lists nodes g node (parse_label node.label) (i node (here refl)) k)
        (λ h j. add_nodes-Lists nodes more h (λ n q. i n (there q)) j)

  module _ (label_text : Label → Text) where
    abbrev Loads : Graph → Type 0
    Loads g = IsLoaded g.nodes

    with_target-Loads :
        (g : Graph) (l target : Option Label)
        → Loads g
        → Gives Loads (with_target parse_label label_text g l target)
    with_target-Loads g none target k = refusal
    with_target-Loads g (some l) none k = refusal
    with_target-Loads g (some l) (some target) k = gives k

    add_roots-Loads :
        (roots : Map Text) (g : Graph)
        → Loads g
        → Gives Loads (add_roots parse_label label_text roots g)
    unfolding add_roots
    add_roots-Loads [] g k = gives k
    add_roots-Loads ((spelling, native) ∷ roots) g k =
        and_graph-Gives Loads
          (with_target-Loads g (parse_label spelling) (lookup native g.labels) k)
          (add_roots-Loads roots)

    with_roots-Loads :
        (nodes : List Node) (roots : Map Text) (g : Graph)
        → Lists nodes g
        → Gives Loads (with_roots parse_label label_text nodes roots g)
    unfolding with_roots
    with_roots-Loads nodes roots g k =
        if-elim (Gives Loads) (all_deps g.nodes nodes) _ _
          (λ e. add_roots-Loads roots g (Listed-IsLoaded nodes g.nodes k e)) (λ e. refusal)

    -- A graph that is loaded has each node under its label, and all of the dependencies.
    pub load_proto_graph-IsLoaded :
        (nodes : List Node) (roots : Map Text)
        → Gives Loads (load_proto_graph parse_label label_text nodes roots)
    unfolding load_proto_graph
    load_proto_graph-IsLoaded nodes roots =
        and_graph-Gives (Lists nodes)
          (add_nodes-Lists nodes nodes _ (λ n i. i)
            (unfold lookup in
              record { named = λ k n e. absurd (cc e); given = λ k n e. absurd (cc e) }))
          (with_roots-Loads nodes roots)
