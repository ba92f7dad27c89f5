-- ===== src/Proto/Visiting.antt =====
-- A visit of a node ends, with the node seen.
use rules_typescript.Base.{
  ℕ, zero, suc, ◌≤◌, ◌<◌, true, false, Bool-cases, Option, none, some, List, [], ◌∷◌, length, ◌≡◌,
  refl, sym, ◌∙◌, subst, inl, inr, ◌⊎◌, arith, In, here, there, In-append,
}
use rules_typescript.Base.Text.{Text, text_eq, text_eq_iff}
use rules_typescript.Base.Map.{Map, lookup, member, keys, has_key}
use rules_typescript.Base.Unseen.{unseen, unseen-In, unseen_mono}
use rules_typescript.Proto.{Node, Visit, Ran, ran, is_empty, visit_deps, visit}
use rules_typescript.Proto.Loaded.{IsLoaded}
use rules_typescript.Proto.Visits.{
  Owns, itself, through, Later, Later-refl, Later-trans, with_owner, marked, with_owner-Later,
  passed-Later, member-head,
}

pub length-keys : (m : Map Node) → length (keys m) ≡ length m
unfolding keys
length-keys [] = refl
length-keys ((k, v) ∷ m) = omega (arith, length-keys m)

lookup-keys : (k : Text) (m : Map Node) {node : Node} → lookup k m ≡ some node → In k (keys m)
unfolding lookup keys
lookup-keys k [] e = absurd (cc e)
lookup-keys k ((j, v) ∷ m) e = elim (Bool-cases (text_eq j k)) [
  | inl same ↦ here (sym ((text_eq_iff j k).0 same))
  | inr other ↦ there (lookup-keys k m (rw other at e))
]

has_key-lookup :
    (k : Text) (m : Map Node) → has_key k m ≡ true → (node : Node) × (lookup k m ≡ some node)
unfolding has_key
has_key-lookup k m h = found _ refl h
  where
    found :
        (o : Option Node)
        → lookup k m ≡ o
        → (elim o [ none ↦ false | some v ↦ true ]) ≡ true
        → (node : Node) × (lookup k m ≡ some node)
    found none e h = absurd (cc h)
    found (some node) e h = (node, e)

module _ (m : Map Node) (loaded : IsLoaded m) where
  -- The nodes that are not seen yet.
  abbrev pub rest : Visit → ℕ
  rest s = unseen (keys m) s.seen

  rest-Later : {s t : Visit} → Later m s t → rest t ≤ rest s
  rest-Later {s} {t} l = unseen_mono (keys m) s.seen t.seen l.seen

  -- A visit ends, with the node seen, and adds only what the node owns.
  pub record Visited (node : Node) (s : Visit) (r : Ran Visit) : Type 0 where
    pub after : Visit
    pub answers : r ≡ ran after
    pub later : Later m s after
    pub seen : member node.label after.seen ≡ true
    pub sound : (o : Node) → In o after.result → (In o s.result) ⊎ Owns m node o

  abbrev OwnedBy : List Text → Node → Type 0
  OwnedBy deps o =
      (dep : Text) × (next : Node) × In dep deps × (lookup dep m ≡ some next) × Owns m next o

  record VisitedAll (deps : List Text) (s : Visit) (r : Ran Visit) : Type 0 where
    after : Visit
    answers : r ≡ ran after
    later : Later m s after
    seen : (dep : Text) → In dep deps → member dep after.seen ≡ true
    sound : (o : Node) → In o after.result → (In o s.result) ⊎ OwnedBy deps o

  widen : {dep : Text} {deps : List Text} {o : Node} → OwnedBy deps o → OwnedBy (dep ∷ deps) o
  widen (d, n, i, e, w) = (d, n, there i, e, w)

  module _ (call : Node → Visit → Ran Visit) (fuel : ℕ)
      (good : (node : Node) (s : Visit)
        → lookup node.label m ≡ some node
        → rest s < fuel
        → Visited node s (call node s)) where
    visit_deps-Visited :
        (deps : List Text) (s : Visit)
        → ((dep : Text) → In dep deps → has_key dep m ≡ true)
        → rest s < fuel
        → VisitedAll deps s (visit_deps m call deps s)
    unfolding visit_deps
    visit_deps-Visited [] s h k = record {
      after = s;
      answers = refl;
      later = Later-refl m s;
      seen = λ d i. elim i [ ];
      sound = λ o i. inl i;
    }
    visit_deps-Visited (dep ∷ deps) s h k =
        let (next, e) = has_key-lookup dep m (h dep (here refl)) in
        let label = loaded.named dep next e in
        let v = good next s (subst (λ l. lookup l m ≡ some next) (sym label) e) k in
        let w =
          visit_deps-Visited deps v.after (λ d i. h d (there i))
            (omega (arith, rest-Later v.later)) in
        record {
          after = w.after;
          answers = rw (e, v.answers) w.answers;
          later = Later-trans m v.later w.later;
          seen = λ d i. later_seen next label e v w d i;
          sound = λ o i. elim (w.sound o i) [
            | inr owned ↦ inr (widen owned)
            | inl j ↦ elim (v.sound o j) [
              | inl q ↦ inl q
              | inr owns ↦ inr (dep, next, here refl, e, owns)
            ]
          ];
        }
      where
        later_seen :
            (next : Node)
            → next.label ≡ dep
            → lookup dep m ≡ some next
            → (v : Visited next s (call next s))
            → (w : VisitedAll deps v.after (visit_deps m call deps v.after)) → (d : Text)
            → In d (dep ∷ deps)
            → member d w.after.seen ≡ true
        later_seen next label e v w d (here q) =
            w.later.seen d (subst (λ l. member l v.after.seen ≡ true) (label ∙ sym q) v.seen)
        later_seen next label e v w d (there i) = w.seen d i

  -- A visit of a node that was not seen and has no sources.
  through_deps :
      (node : Node) (s : Visit) {r : Ran Visit}
      → lookup node.label m ≡ some node
      → is_empty node.sources ≡ true
      → VisitedAll node.deps (marked node s) r
      → Visited node s r
  through_deps node s found e w = record {
    after = w.after;
    answers = w.answers;
    later = passed-Later m node s found w.after e w.later w.seen;
    seen = w.later.seen node.label (member-head m node.label s.seen);
    sound = λ o i. elim (w.sound o i) [
      | inl j ↦ inl j
      | inr (dep, next, j, f, owns) ↦ inr (through dep next e j f owns)
    ];
  }

  list_owner :
      (node : Node) (s : Visit)
      → lookup node.label m ≡ some node
      → is_empty node.sources ≡ false
      → Visited node s (ran (with_owner node s))
  list_owner node s found e = record {
    after = with_owner node s;
    answers = refl;
    later = with_owner-Later m node s found e;
    seen = member-head m node.label s.seen;
    sound = λ o i. elim (In-append s.result i) [ inl j ↦ inl j | inr j ↦ inr (only o j) ];
  }
    where
      only : (o : Node) → In o (node ∷ []) → Owns m node o
      only o (here q) = subst (Owns m node) (sym q) (itself e)
      only o (there i) = elim i [ ]

  pub visit-Visited :
      (fuel : ℕ) (node : Node) (s : Visit)
      → lookup node.label m ≡ some node
      → rest s < fuel
      → Visited node s (visit m fuel node s)
  unfolding visit
  visit-Visited zero node s found k = absurd (omega arith)
  visit-Visited (suc fuel) node s found k = elim (Bool-cases (member node.label s.seen)) [
    | inl again ↦ rw again (record {
      after = s;
      answers = refl;
      later = Later-refl m s;
      seen = again;
      sound = λ o i. inl i;
    })
    | inr fresh ↦ elim (Bool-cases (is_empty node.sources)) [
      | inr full ↦ rw (fresh, full) (list_owner node s found full)
      | inl empty ↦
          rw (fresh, empty)
            (through_deps node s found empty (
              visit_deps-Visited (visit m fuel) fuel (visit-Visited fuel) node.deps (marked node s)
                (λ dep i. loaded.complete node.label node dep found i)
                (omega (arith, unseen-In s.seen (lookup-keys node.label m found) fresh))))
    ]
  ]
