-- ===== src/Examples/Protos.antt =====
-- A target without sources that depends on itself and on one with sources.
use rules_typescript.Base.{true, Option, some, List, [], ◌∷◌, ◌≡◌, ◌↔◌, refl, In}
use rules_typescript.Base.Text.{Text, codes}
use rules_typescript.Base.Map.{lookup}
use rules_typescript.Emission.{Label}
use rules_typescript.Proto.{Node, Graph, ran, load_proto_graph, direct_owners}
use rules_typescript.Proto.Owners.{direct_owners_total}
use rules_typescript.Proto.Visits.{Owns}

abbrev read_label : Text → Option Label
read_label t = some (record { repo = codes "r"; pkg = []; name = t; canonical = true })

abbrev spell_label : Label → Text
spell_label l = l.name

abbrev alias_node : Node
alias_node = record { label = codes "a"; sources = []; deps = codes "a" ∷ codes "b" ∷ [] }

abbrev source_node : Node
source_node = record { label = codes "b"; sources = codes "x.proto" ∷ []; deps = [] }

abbrev read_label_of : Node → Label
read_label_of n = record { repo = codes "r"; pkg = []; name = n.label; canonical = true }

abbrev native_graph : Graph
native_graph = record {
  nodes = (codes "a", alias_node) ∷ (codes "b", source_node) ∷ [];
  sources = (codes "x.proto", source_node ∷ []) ∷ [];
  labels = (codes "a", read_label_of alias_node) ∷ (codes "b", read_label_of source_node) ∷ [];
}

native_graph_loaded :
    load_proto_graph read_label spell_label (alias_node ∷ source_node ∷ []) [] ≡ some native_graph
unfolding load_proto_graph
native_graph_loaded = refl

alias_found : lookup (codes "a") native_graph.nodes ≡ some alias_node
unfolding lookup
alias_found = refl

alias_owners : direct_owners native_graph alias_node ≡ ran (source_node ∷ [])
unfolding direct_owners
alias_owners = refl

direct_owners_total_example :
    (owners : List Node) × (direct_owners native_graph alias_node ≡ ran owners)
    × ((o : Node) → In o owners ↔ Owns native_graph.nodes alias_node o)
direct_owners_total_example =
    direct_owners_total read_label spell_label (alias_node ∷ source_node ∷ []) [] native_graph
      (codes "a") alias_node native_graph_loaded alias_found
