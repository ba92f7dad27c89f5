-- ===== src/Proto/Owners.antt =====
-- The owners of a node, on a graph that was loaded.
use rules_typescript.Base.{
  suc, true, Option, some, List, [], length, ◌≡◌, ◌↔◌, sym, subst, inl, inr, ◌⊎◌, arith, In,
}
use rules_typescript.Base.Text.{Text}
use rules_typescript.Base.Map.{Map, lookup, member, keys}
use rules_typescript.Base.Unseen.{unseen-le-length}
use rules_typescript.Emission.{Label}
use rules_typescript.Proto.{Node, Graph, Visit, ran, direct_owners, load_proto_graph}
use rules_typescript.Proto.Loaded.{IsLoaded, Gives-some, load_proto_graph-IsLoaded}
use rules_typescript.Proto.Visits.{Owns, itself, through, listed, waits, passed, IsClosed}
use rules_typescript.Proto.Visiting.{length-keys, visit-Visited}

module _ (m : Map Node) (loaded : IsLoaded m) where
  -- Once nothing waits, what a seen node owns is listed.
  owned-In :
      {node o : Node} (t : Visit)
      → IsClosed m [] t
      → lookup node.label m ≡ some node
      → member node.label t.seen ≡ true
      → Owns m node o
      → In o t.result
  unfolding member
  owned-In t c found seen (itself {node} e) = elim (c node.label node found seen) [
    | listed a i ↦ i
    | waits a w ↦ absurd (cc (a, e))
    | passed a h ↦ absurd (cc (a, e))
  ]
  owned-In t c found seen (through {node} dep next e i q owns) =
      elim (c node.label node found seen) [
        | listed a j ↦ absurd (cc (a, e))
        | waits a w ↦ absurd (cc w)
        | passed a h ↦
            let label = loaded.named dep next q in
            owned-In t c (subst (λ l. lookup l m ≡ some next) (sym label) q)
              (subst (λ l. member l t.seen ≡ true) (sym label) (h dep i)) owns
      ]

  abbrev unvisited : Visit
  unvisited = record { seen = []; result = [] }

  nothing_seen : IsClosed m [] unvisited
  unfolding member
  nothing_seen k node e h = absurd (cc h)

  none_listed : {o owner : Node} → (In o []) ⊎ Owns m owner o → Owns m owner o
  none_listed (inl i) = elim i [ ]
  none_listed (inr w) = w

-- On a graph that is loaded, the search for the owners of any node ends, with a depth of calls of
-- one for each node and one more and no dependency that is nil, and finds exactly the nodes with
-- sources that the node is or reaches through nodes without.
pub direct_owners_total :
    (parse_label : Text → Option Label) (label_text : Label → Text) (nodes : List Node)
    (roots : Map Text) (g : Graph) (l : Text) (node : Node)
    → load_proto_graph parse_label label_text nodes roots ≡ some g
    → lookup l g.nodes ≡ some node
    → (owners : List Node) × (direct_owners g node ≡ ran owners)
      × ((o : Node) → In o owners ↔ Owns g.nodes node o)
unfolding direct_owners
direct_owners_total parse_label label_text nodes roots g l node e f =
    let loaded =
      Gives-some (λ (h : Graph). IsLoaded h.nodes)
        (load_proto_graph-IsLoaded parse_label label_text nodes roots) e in
    let found : lookup node.label g.nodes ≡ some node =
      subst (λ k. lookup k g.nodes ≡ some node) (sym (loaded.named l node f)) f in
    let v =
      visit-Visited g.nodes loaded (suc (length g.nodes)) node (unvisited g.nodes loaded) found
        (omega (arith, unseen-le-length (keys g.nodes) [], length-keys g.nodes)) in
    (
      v.after.result,
      rw v.answers,
      λ o. (
        λ i. none_listed g.nodes loaded (v.sound o i),
        owned-In g.nodes loaded v.after (v.later.closed [] (nothing_seen g.nodes loaded)) found
            v.seen,
      ),
    )
