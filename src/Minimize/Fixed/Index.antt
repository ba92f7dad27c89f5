-- ===== src/Minimize/Fixed/Index.antt =====
-- The index of a fixed supply: who reads a file or needs a target.
use rules_typescript.Base.{
  Bool, true, false, not, ◌&&◌, Option, List, [], ◌∷◌, ◌++◌, if◌then◌else◌, In, here, there,
  In-append, In-append_left, In-append_right, ◌⊎◌, inl, inr, ◌≡◌, refl, sym, subst, false≢true,
}
use rules_typescript.Base.Text.{Text, text_eq, text_eq_refl}
use rules_typescript.Emission.{Rule}
use rules_typescript.ExplainFiles.{Edge}
use rules_typescript.Minimize.{static_edge_supply, is_read}
use rules_typescript.Minimize.Fixed.{append_at, append_if, index_edges, readers_of}

module _ {d : Text} where
  in_if :
      (b : Bool) (dep : Text) (xs : List Text) → In d xs → In d (if b then xs ++ dep ∷ [] else xs)
  in_if true dep xs i = In-append_left (dep ∷ []) i
  in_if false dep xs i = i

  pub append_at_keeps :
      (k dep : Text) (index : Text → List Text) (x : Text)
      → In d (index x)
      → In d (append_at k dep index x)
  append_at_keeps k dep index x i = in_if (text_eq k x) dep (index x) i

  of_if :
      (b : Bool) (dep : Text) (xs : List Text)
      → In d (if b then xs ++ dep ∷ [] else xs)
      → (In d xs) ⊎ (d ≡ dep)
  of_if true dep xs i = elim (In-append xs i) [
    | inl old ↦ inl old
    | inr (here e) ↦ inr e
    | inr (there m) ↦ elim m [ ]
  ]
  of_if false dep xs i = inl i

  pub append_at_only :
      (k dep : Text) (index : Text → List Text) (x : Text)
      → In d (append_at k dep index x)
      → (In d (index x)) ⊎ (d ≡ dep)
  append_at_only k dep index x i = of_if (text_eq k x) dep (index x) i

pub append_at_adds : (k dep : Text) (index : Text → List Text) → In dep (append_at k dep index k)
append_at_adds k dep index =
    subst (λ b. In dep (if b then index k ++ dep ∷ [] else index k)) (sym (text_eq_refl k))
      (In-append_right (index k) (here refl))

append_if_keeps :
    {d : Text} (b : Bool) (k dep : Text) (index : Text → List Text) (x : Text)
    → In d (index x)
    → In d (append_if b k dep index x)
append_if_keeps true k dep index x i = append_at_keeps k dep index x i
append_if_keeps false k dep index x i = i

append_if_only :
    {d : Text} (b : Bool) (k dep : Text) (index : Text → List Text) (x : Text)
    → In d (append_if b k dep index x)
    → (In d (index x)) ⊎ (d ≡ dep)
append_if_only true k dep index x i = append_at_only k dep index x i
append_if_only false k dep index x i = inl i

append_if_adds :
    (b : Bool) (k dep : Text) (index : Text → List Text)
    → b ≡ true
    → In dep (append_if b k dep index k)
append_if_adds true k dep index h = append_at_adds k dep index
append_if_adds false k dep index h = absurd (false≢true h)

module _ (dep : Text) (owner : Option Rule) where
  pub index_edges_keeps :
      {d : Text} (es : List Edge) (readers : Text → List Text) (x : Text)
      → In d (readers x)
      → In d (index_edges dep owner es readers x)
  unfolding index_edges
  index_edges_keeps [] readers x i = i
  index_edges_keeps (e ∷ es) readers x i = index_edges_keeps es _ x (
      append_if_keeps (not (static_edge_supply owner e) && is_read e) e.to dep
        (append_at e.from dep readers) x (append_at_keeps e.from dep readers x i))

  pub index_edges_only :
      {d : Text} (es : List Edge) (readers : Text → List Text) (x : Text)
      → In d (index_edges dep owner es readers x)
      → (In d (readers x)) ⊎ (d ≡ dep)
  unfolding index_edges
  index_edges_only [] readers x i = inl i
  index_edges_only (e ∷ es) readers x i = elim (index_edges_only es _ x i) [
    | inr same ↦ inr same
    | inl old ↦
        elim (append_if_only (not (static_edge_supply owner e) && is_read e) e.to dep
          (append_at e.from dep readers) x old) [
            | inr same ↦ inr same
            | inl older ↦ append_at_only e.from dep readers x older
          ]
  ]

  pub index_edges_from :
      {e : Edge} (es : List Edge) (readers : Text → List Text)
      → In e es
      → In dep (index_edges dep owner es readers e.from)
  unfolding index_edges
  index_edges_from [] readers i = elim i [ ]
  index_edges_from (f ∷ es) readers (here same) = index_edges_keeps es _ _ (
      append_if_keeps (not (static_edge_supply owner f) && is_read f) f.to dep
        (append_at f.from dep readers) _
        (subst (λ g. In dep (append_at f.from dep readers g.from)) (sym same)
          (append_at_adds f.from dep readers)))
  index_edges_from (f ∷ es) readers (there i) = index_edges_from es _ i

  pub index_edges_to :
      {e : Edge} (es : List Edge) (readers : Text → List Text)
      → In e es
      → not (static_edge_supply owner e) && is_read e ≡ true
      → In dep (index_edges dep owner es readers e.to)
  unfolding index_edges
  index_edges_to {e = e} [] readers i read = elim i [ ]
  index_edges_to {e} (f ∷ es) readers (here same) read = index_edges_keeps es _ _ (
      subst
        (λ g. In dep (
          append_if (not (static_edge_supply owner f) && is_read f) f.to dep
            (append_at f.from dep readers) g.to))
        (sym same)
        (append_if_adds (not (static_edge_supply owner f) && is_read f) f.to dep
          (append_at f.from dep readers)
          (subst (λ g. not (static_edge_supply owner g) && is_read g ≡ true) same read)))
  index_edges_to (f ∷ es) readers (there i) read = index_edges_to es _ i read

module _ {d : Text} (index : Text → List Text) where
  pub In-readers_of :
      {x : Text} {xs : List Text} → In x xs → In d (index x) → In d (readers_of index xs)
  In-readers_of {xs = []} m i = elim m [ ]
  In-readers_of {xs = y ∷ ys} (here e) i = In-append_left _ (subst (λ z. In d (index z)) e i)
  In-readers_of {xs = y ∷ ys} (there m) i = In-append_right (index y) (In-readers_of m i)

  pub readers_of_In : (xs : List Text) → In d (readers_of index xs) → (x : Text) × (In d (index x))
  readers_of_In [] i = elim i [ ]
  readers_of_In (y ∷ ys) i = elim (In-append (index y) i) [
    | inl l ↦ (y, l)
    | inr r ↦ readers_of_In ys r
  ]
