-- ===== src/Minimize/Fixed/Preserve.antt =====
-- The index and the counts through an operation.
use rules_typescript.Base.{
  ℕ, true, not, ◌&&◌, List, ◌∷◌, In, here, there, inl, inr, ◌≡◌, sym, subst,
}
use rules_typescript.Base.Text.{Text}
use rules_typescript.Base.Map.{Map, NameSet}
use rules_typescript.ExplainFiles.{Edge}
use rules_typescript.Minimize.{Memo, Requirement, static_edge_supply, is_read}
use rules_typescript.Minimize.Fixed.{FixedSupply, index_edges, append_at, add, index}
use rules_typescript.Minimize.Fixed.Lacks.{edges_of}
use rules_typescript.Minimize.Fixed.Index.{
  index_edges_keeps, index_edges_only, index_edges_from, index_edges_to, append_at_keeps,
  append_at_only, append_at_adds,
}
use rules_typescript.Minimize.Fixed.Tracking.{IsCounting, IsIndexing}

module _ (m : Memo) (deps : Map Requirement) (roots : NameSet) where
  pub index-IsIndexing :
      (f : FixedSupply) (dropped : List Text) (c : Text)
      → IsIndexing m deps roots f dropped
      → IsIndexing m deps roots (index m deps roots c f) (c ∷ dropped)
  unfolding index
  index-IsIndexing f dropped c h = record {
    readers_only = λ x d i.
        elim (index_edges_only c (m.target_rule c).1 (edges_of m deps c) f.readers x i) [
          | inl old ↦ there (h.readers_only x d old)
          | inr same ↦ here same
        ];
    needs_only = λ x d i. elim (append_at_only (m.target_rule c).0 c f.needs x i) [
      | inl old ↦ there (h.needs_only x d old)
      | inr same ↦ here same
    ];
    needs_all = λ d i. needed d i;
    readers_from = λ d i e j. from d i e j;
    readers_to = λ d i e j read. to d i e j read;
  }
    where
      needed :
          (d : Text)
          → In d (c ∷ dropped)
          → In d (append_at (m.target_rule c).0 c f.needs (m.target_rule d).0)
      needed d (here same) =
          subst (λ k. In k (append_at (m.target_rule c).0 c f.needs (m.target_rule k).0)) (sym same)
            (append_at_adds (m.target_rule c).0 c f.needs)
      needed d (there i) = append_at_keeps (m.target_rule c).0 c f.needs _ (h.needs_all d i)

      from :
          (d : Text)
          → In d (c ∷ dropped)
          → (e : Edge) → In e (edges_of m deps d)
          → In d (index_edges c (m.target_rule c).1 (edges_of m deps c) f.readers e.from)
      from d (here same) e j =
          subst (λ k. In k (index_edges c (m.target_rule c).1 (edges_of m deps c) f.readers e.from))
            (sym same)
            (index_edges_from c (m.target_rule c).1 (edges_of m deps c) f.readers
              (subst (λ k. In e (edges_of m deps k)) same j))
      from d (there i) e j =
          index_edges_keeps c (m.target_rule c).1 (edges_of m deps c) f.readers _
            (h.readers_from d i e j)

      to :
          (d : Text)
          → In d (c ∷ dropped)
          → (e : Edge) → In e (edges_of m deps d)
          → not (static_edge_supply (m.target_rule d).1 e) && is_read e ≡ true
          → In d (index_edges c (m.target_rule c).1 (edges_of m deps c) f.readers e.to)
      to d (here same) e j read =
          subst (λ k. In k (index_edges c (m.target_rule c).1 (edges_of m deps c) f.readers e.to))
            (sym same)
            (index_edges_to c (m.target_rule c).1 (edges_of m deps c) f.readers
              (subst (λ k. In e (edges_of m deps k)) same j)
              (subst (λ k. not (static_edge_supply (m.target_rule k).1 e) && is_read e ≡ true) same
                read))
      to d (there i) e j read =
          index_edges_keeps c (m.target_rule c).1 (edges_of m deps c) f.readers _
            (h.readers_to d i e j read)

  pub add-IsIndexing :
      (f : FixedSupply) (dropped : List Text) (delta : ℕ → ℕ) (c : Text)
      → IsIndexing m deps roots f dropped
      → IsIndexing m deps roots (add m deps roots delta c f).1 dropped
  unfolding add
  add-IsIndexing f dropped delta c h = record {
    readers_only = h.readers_only;
    needs_only = h.needs_only;
    needs_all = h.needs_all;
    readers_from = h.readers_from;
    readers_to = h.readers_to;
  }

  pub index-IsCounting :
      (f : FixedSupply) (retained : List Text) (c : Text)
      → IsCounting m deps roots f retained
      → IsCounting m deps roots (index m deps roots c f) retained
  unfolding index
  index-IsCounting f retained c h = record { files_of = h.files_of; targets_of = h.targets_of }
