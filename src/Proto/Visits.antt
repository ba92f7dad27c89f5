-- ===== src/Proto/Visits.antt =====
-- Where a visit of the graph leads, and what it leaves seen.
use rules_typescript.Base.{
  true, false, Bool-cases, some, [], ◌∷◌, ◌++◌, ◌≡◌, refl, ap, subst, inl, inr, ◌⊎◌, arith, In,
  here, In-append_left, In-append_right,
}
use rules_typescript.Base.Text.{Text, text_eq, text_eq_iff, text_eq_refl}
use rules_typescript.Base.Map.{Map, NameSet, lookup, member}
use rules_typescript.Base.Unseen.{member-cons}
use rules_typescript.Proto.{Node, Visit, is_empty}

-- A node with sources is its own owner; one without has those of its dependencies.
pub data Owns (m : Map Node) : Node → Node → Type 0 where
  itself : {node : Node} → is_empty node.sources ≡ false → Owns m node node
  through :
      {node owner : Node} (dep : Text) (next : Node)
      → is_empty node.sources ≡ true
      → In dep node.deps
      → lookup dep m ≡ some next
      → Owns m next owner
      → Owns m node owner

-- The state after a node itself is listed, and the one before its dependencies are visited.
abbrev pub with_owner : Node → Visit → Visit
with_owner node s = record { seen = node.label ∷ s.seen; result = s.result ++ node ∷ [] }

abbrev pub marked : Node → Visit → Visit
marked node s = record s { seen = node.label ∷ s.seen }

module _ (m : Map Node) where
  -- A node that was seen is listed, waits for its dependencies, or has had them all seen.
  pub data Settled (waiting : NameSet) (s : Visit) (k : Text) (node : Node) : Type 0 where
    listed : is_empty node.sources ≡ false → In node s.result → Settled waiting s k node
    waits : is_empty node.sources ≡ true → member k waiting ≡ true → Settled waiting s k node
    passed :
        is_empty node.sources ≡ true
        → ((dep : Text) → In dep node.deps → member dep s.seen ≡ true)
        → Settled waiting s k node

  abbrev pub IsClosed : NameSet → Visit → Type 0
  IsClosed waiting s =
      (k : Text) (node : Node)
      → lookup k m ≡ some node
      → member k s.seen ≡ true
      → Settled waiting s k node

  -- From one state to a later one.
  pub record Later (s t : Visit) : Type 0 where
    pub seen : (k : Text) → member k s.seen ≡ true → member k t.seen ≡ true
    pub result : (node : Node) → In node s.result → In node t.result
    pub closed : (waiting : NameSet) → IsClosed waiting s → IsClosed waiting t

  pub Later-refl : (s : Visit) → Later s s
  Later-refl s = record { seen = λ k h. h; result = λ n i. i; closed = λ w h. h }

  pub Later-trans : {s t u : Visit} → Later s t → Later t u → Later s u
  Later-trans a b = record {
    seen = λ k h. b.seen k (a.seen k h);
    result = λ n i. b.result n (a.result n i);
    closed = λ w h. b.closed w (a.closed w h);
  }

  Settled-mono :
      {waiting : NameSet} {k : Text} {node : Node} (s t : Visit)
      → ((j : Text) → member j s.seen ≡ true → member j t.seen ≡ true)
      → ((n : Node) → In n s.result → In n t.result)
      → Settled waiting s k node
      → Settled waiting t k node
  Settled-mono s t f g (listed e i) = listed e (g _ i)
  Settled-mono s t f g (waits e w) = waits e w
  Settled-mono s t f g (passed e h) = passed e (λ dep i. f dep (h dep i))

  member-tail : (k j : Text) (s : NameSet) → member k s ≡ true → member k (j ∷ s) ≡ true
  member-tail k j s h = ground (arith, member-cons k j s)

  pub member-head : (k : Text) (s : NameSet) → member k (k ∷ s) ≡ true
  member-head k s = ground (arith, member-cons k k s, text_eq_refl k)

  same_node :
      {k j : Text} {node other : Node}
      → lookup j m ≡ some node
      → lookup k m ≡ some other
      → j ≡ k
      → node ≡ other
  same_node e f q = cc (e, f, ap (λ l. lookup l m) q)

  module _ (node : Node) (s : Visit) (found : lookup node.label m ≡ some node) where
    -- A name that is seen after the mark is the node's, or was seen.
    mark_cases :
        (k : Text)
        → member k (node.label ∷ s.seen) ≡ true
        → (node.label ≡ k) ⊎ (member k s.seen ≡ true)
    mark_cases k h = elim (Bool-cases (text_eq node.label k)) [
      | inl same ↦ inl ((text_eq_iff node.label k).0 same)
      | inr other ↦ inr (ground (arith, member-cons k node.label s.seen))
    ]

    pub with_owner-Later : is_empty node.sources ≡ false → Later s (with_owner node s)
    with_owner-Later e = record {
      seen = λ k h. member-tail k node.label s.seen h;
      result = λ n i. In-append_left _ i;
      closed = λ w h k n f i. elim (mark_cases k i) [
        | inl q ↦
            subst (λ x. Settled w (with_owner node s) k x) (same_node found f q)
              (listed e (In-append_right s.result (here refl)))
        | inr old ↦
            Settled-mono s (with_owner node s) (λ j. member-tail j node.label s.seen)
              (λ x j. In-append_left _ j) (h k n f old)
      ];
    }

    marked-IsClosed :
        is_empty node.sources ≡ true
        → (waiting : NameSet) → IsClosed waiting s
        → IsClosed (node.label ∷ waiting) (marked node s)
    marked-IsClosed e waiting h k n f i = elim (mark_cases k i) [
      | inl q ↦
          subst (λ x. Settled (node.label ∷ waiting) (marked node s) k x) (same_node found f q)
            (waits e (
              subst (λ j. member j (node.label ∷ waiting) ≡ true) q
                (member-head node.label waiting)))
      | inr old ↦ more (h k n f old)
    ]
      where
        more : Settled waiting s k n → Settled (node.label ∷ waiting) (marked node s) k n
        more (listed a b) = listed a b
        more (waits a b) = waits a (member-tail k node.label waiting b)
        more (passed a b) = passed a (λ dep j. member-tail dep node.label s.seen (b dep j))

    -- Once its dependencies are seen, the node no longer waits.
    pub passed-Later :
        (t : Visit)
        → is_empty node.sources ≡ true
        → Later (marked node s) t
        → ((dep : Text) → In dep node.deps → member dep t.seen ≡ true)
        → Later s t
    passed-Later t e l deps = record {
      seen = λ k h. l.seen k (member-tail k node.label s.seen h);
      result = l.result;
      closed =
          λ w h k n f i. settle w k n f (l.closed (node.label ∷ w) (marked-IsClosed e w h) k n f i);
    }
      where
        settle :
            (w : NameSet) (k : Text) (n : Node)
            → lookup k m ≡ some n
            → Settled (node.label ∷ w) t k n
            → Settled w t k n
        settle w k n f (listed a b) = listed a b
        settle w k n f (passed a b) = passed a b
        settle w k n f (waits a b) = elim (Bool-cases (text_eq node.label k)) [
          | inl same ↦
              subst (λ x. Settled w t k x) (same_node found f ((text_eq_iff node.label k).0 same))
                (passed e deps)
          | inr other ↦ waits a (ground (arith, member-cons k node.label w))
        ]
