-- ===== src/Program/Rounds.antt =====
-- The search ends: it takes at most one round for each entry and each edge.
use rules_typescript.Base.{
  ℕ, zero, suc, ◌+◌, ◌≤◌, true, some, List, [], ◌∷◌, ◌++◌, length, length-append, map, ◌≡◌, ◌↔◌,
  refl, ap, subst, arith, In, here, there, In-append_left, In-append_right,
}
use rules_typescript.Base.Text.{Text}
use rules_typescript.Base.Map.{NameSet, member}
use rules_typescript.Base.Unseen.{unseen, unseen-In, unseen-le-length}
use rules_typescript.ExplainFiles.{Edge}
use rules_typescript.Program.{
  Program, Frontier, push, push_all, entry_files, next, drain, empty_frontier, reachable,
}
use rules_typescript.Program.Search.{reachable-Reaches}
use rules_typescript.Program.Reach.{Reaches, next-In}

abbrev edge_targets : List Edge → List Text
edge_targets = map (λ e. e.to)

module _ (universe : List Text) where
  -- The rounds that are still to come.
  abbrev rounds : Frontier → ℕ
  rounds s = unseen universe s.seen + length s.queue

  push-rounds : (f : Text) (s : Frontier) → In f universe → rounds (push f s) ≤ rounds s
  push-rounds f s i =
      unfold push in ground (arith, unseen-In s.seen i, length-append s.queue (f ∷ []))

  push_all-rounds :
      (fs : List Text) (s : Frontier)
      → ((f : Text) → In f fs → In f universe)
      → rounds (push_all fs s) ≤ rounds s
  unfolding push_all
  push_all-rounds [] s h = omega arith
  push_all-rounds (f ∷ fs) s h = omega (
    arith,
    push_all-rounds fs (push f s) (λ g i. h g (there i)),
    push-rounds f s (h f (here refl)),
  )

  drain_total :
      (es : List Edge) (fuel : ℕ) (seen : NameSet) (queue : List Text)
      → ((f g : Text) → In g (next es f) → In g universe)
      → rounds (record { seen = seen; queue = queue }) ≤ fuel
      → (found : NameSet) × (drain es fuel (record { seen = seen; queue = queue }) ≡ some found)
  unfolding drain
  drain_total es zero seen [] h k = (seen, refl)
  drain_total es zero seen (f ∷ rest) h k = absurd (omega arith)
  drain_total es (suc fuel) seen [] h k = (seen, refl)
  drain_total es (suc fuel) seen (f ∷ rest) h k =
      let t = push_all (next es f) (record { seen = seen; queue = rest }) in
      drain_total es fuel t.seen t.queue h
        (omega (arith, push_all-rounds (next es f) (record { seen = seen; queue = rest }) (h f)))

In-targets : {e : Edge} {es : List Edge} → In e es → In e.to (edge_targets es)
In-targets (here q) = here (ap (λ (y : Edge). y.to) q)
In-targets (there m) = there (In-targets m)

length-edge_targets : (es : List Edge) → length (edge_targets es) ≡ length es
length-edge_targets [] = refl
length-edge_targets (e ∷ es) = omega (arith, length-edge_targets es)

abbrev universe_of : Program → List Text
universe_of p = entry_files p ++ edge_targets p.edges

next-universe : (p : Program) (f g : Text) → In g (next p.edges f) → In g (universe_of p)
next-universe p f g i =
    let (e, m, from, to) = next-In p.edges f i in
    subst (λ h. In h (universe_of p)) to (In-append_right (entry_files p) (In-targets m))

-- One round for each entry and each edge.
unfoldable pub rounds_needed : Program → ℕ
rounds_needed p = length (entry_files p) + length p.edges

initial-rounds :
    (p : Program)
    → rounds (universe_of p) (push_all (entry_files p) empty_frontier) ≤ rounds_needed p
initial-rounds p =
    unfold rounds_needed in
    omega (
      arith,
      push_all-rounds (universe_of p) (entry_files p) empty_frontier
          (λ g i. In-append_left (edge_targets p.edges) i),
      unseen-le-length (universe_of p) [],
      length-append (entry_files p) (edge_targets p.edges),
      length-edge_targets p.edges,
    )

-- With one round for each entry and each edge the search ends, and what it returns is exactly the
-- set of the files that a root, a type entry or a default library names, or that an edge leads to
-- from such a file.
pub reachable_total :
    (p : Program)
    → (found : NameSet) × (reachable p (rounds_needed p) ≡ some found)
      × ((f : Text) → (member f found ≡ true) ↔ Reaches p f)
reachable_total p =
    let t = push_all (entry_files p) empty_frontier in
    let (found, e) =
      drain_total (universe_of p) p.edges (rounds_needed p) t.seen t.queue (next-universe p)
        (initial-rounds p) in
    let r : reachable p (rounds_needed p) ≡ some found = unfold reachable in e in
    (found, r, λ f. reachable-Reaches p (rounds_needed p) f r)
