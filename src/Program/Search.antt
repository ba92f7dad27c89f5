-- ===== src/Program/Search.antt =====
-- The search finds exactly the files that are reached.
use rules_typescript.Base.{
  ℕ, zero, suc, true, some, List, [], ◌∷◌, Bool-cases, ◌≡◌, ◌↔◌, sym, ◌∙◌, subst, ◌⊎◌, inl, inr,
  arith, In,
}
use rules_typescript.Base.Text.{Text, text_eq, text_eq_iff, text_eq_refl}
use rules_typescript.Base.Map.{NameSet, member}
use rules_typescript.ExplainFiles.{Edge}
use rules_typescript.Program.{
  Program, Frontier, push_all, entry_files, next, drain, empty_frontier, reachable,
}
use rules_typescript.Program.Reach.{
  Reaches, entry, edge, Seen, push_all-Grows, push_all-Seen, Only, push_all-Only, Queued,
  push_all-Queued, Seen-mono, In-next, next-In, member-cons,
}

not_member : (f : Text) → member f [] ≡ true → ⊥
unfolding member
not_member f h = cc

module _ (p : Program) where
  -- Every file that was taken from the queue has its edges followed.
  abbrev Followed : Frontier → Type 0
  Followed s =
      (e : Edge)
      → In e p.edges
      → member e.from s.seen ≡ true
      → (member e.from s.queue ≡ true) ⊎ Seen s.seen e.to

  record Inv (s : Frontier) : Type 0 where
    sound : Only (Reaches p) s
    followed : Followed s
    entries : (f : Text) → In f (entry_files p) → Seen s.seen f
    queued : Queued s

  abbrev at : NameSet → List Text → Frontier
  at seen queue = record { seen = seen; queue = queue }

  head_or_rest :
      (g f : Text) (rest : List Text)
      → member g (f ∷ rest) ≡ true
      → (f ≡ g) ⊎ (member g rest ≡ true)
  head_or_rest g f rest m = elim (Bool-cases (text_eq f g)) [
    | inl t ↦ inl ((text_eq_iff f g).0 t)
    | inr n ↦ inr (ground (arith, member-cons g f rest))
  ]

  member_head : (f : Text) (rest : List Text) → member f (f ∷ rest) ≡ true
  member_head f rest = ground (arith, member-cons f f rest, text_eq_refl f)

  -- Following the edges of the file at the head of the queue.
  follow_sound :
      (seen : NameSet) (f : Text) (rest : List Text)
      → Inv (at seen (f ∷ rest))
      → Only (Reaches p) (push_all (next p.edges f) (at seen rest))
  follow_sound seen f rest h =
      push_all-Only (Reaches p) (next p.edges f) (at seen rest)
        (λ g m ne.
          let (e, i, from, to) = next-In p.edges f m in
          subst (Reaches p) to (
            edge e (subst (Reaches p) (sym from) (h.sound f (h.queued f (member_head f rest)))) i
              (λ q. ne (sym to ∙ q))))
        h.sound

  follow-followed :
      (seen : NameSet) (f : Text) (rest : List Text)
      → Inv (at seen (f ∷ rest))
      → Followed (push_all (next p.edges f) (at seen rest))
  follow-followed seen f rest h e i m =
      let grows = push_all-Grows (next p.edges f) (at seen rest) in
      elim (grows.fresh e.from m) [
        | inr new ↦ inl new
        | inl old ↦ elim (h.followed e i old) [
          | inr s ↦ inr (Seen-mono e.to grows s)
          | inl q ↦ elim (head_or_rest e.from f rest q) [
            | inl same ↦ inr (push_all-Seen (at seen rest) (In-next f i (sym same)))
            | inr later ↦ inl (grows.queue e.from later)
          ]
        ]
      ]

  rest-Queued :
      (seen : NameSet) (f : Text) (rest : List Text)
      → Queued (at seen (f ∷ rest))
      → Queued (at seen rest)
  rest-Queued seen f rest h g m = h g (ground (arith, member-cons g f rest))

  follow-Inv :
      (seen : NameSet) (f : Text) (rest : List Text)
      → Inv (at seen (f ∷ rest))
      → Inv (push_all (next p.edges f) (at seen rest))
  follow-Inv seen f rest h = record {
    sound = follow_sound seen f rest h;
    followed = follow-followed seen f rest h;
    entries = λ g i. Seen-mono g (push_all-Grows (next p.edges f) (at seen rest)) (h.entries g i);
    queued = push_all-Queued (next p.edges f) (at seen rest) (rest-Queued seen f rest h.queued);
  }

  drain-Inv :
      (fuel : ℕ) (seen : NameSet) (queue : List Text) {found : NameSet}
      → Inv (at seen queue)
      → drain p.edges fuel (at seen queue) ≡ some found
      → Inv (at found [])
  unfolding drain
  drain-Inv zero seen [] {found} h e =
      let same : seen ≡ found = cc in subst (λ n. Inv (at n [])) same h
  drain-Inv zero seen (f ∷ rest) h e = absurd (ground arith)
  drain-Inv (suc fuel) seen [] {found} h e =
      let same : seen ≡ found = cc in subst (λ n. Inv (at n [])) same h
  drain-Inv (suc fuel) seen (f ∷ rest) h e =
      let t = push_all (next p.edges f) (at seen rest) in
      drain-Inv fuel t.seen t.queue (follow-Inv seen f rest h) e

  initial-Inv : Inv (push_all (entry_files p) empty_frontier)
  initial-Inv = record {
    sound =
        push_all-Only (Reaches p) (entry_files p) empty_frontier (λ f i ne. entry i ne)
          (λ f m. absurd (not_member f m));
    followed = λ e i m. elim ((push_all-Grows (entry_files p) empty_frontier).fresh e.from m) [
      | inl none_yet ↦ absurd (not_member e.from none_yet)
      | inr q ↦ inl q
    ];
    entries = λ f i. push_all-Seen empty_frontier i;
    queued = push_all-Queued (entry_files p) empty_frontier (λ f m. m);
  }

  found-Inv : (fuel : ℕ) {found : NameSet} → reachable p fuel ≡ some found → Inv (at found [])
  unfolding reachable
  found-Inv fuel e =
      let t = push_all (entry_files p) empty_frontier in drain-Inv fuel t.seen t.queue initial-Inv e

  complete :
      {found : NameSet} → Inv (at found []) → {f : Text} → Reaches p f → member f found ≡ true
  complete h (entry {f} i ne) = elim (h.entries f i) [ inl e ↦ absurd (ne e) | inr m ↦ m ]
  complete h (edge e r i ne) = elim (h.followed e i (complete h r)) [
    | inl q ↦ absurd (not_member e.from q)
    | inr s ↦ elim s [ inl x ↦ absurd (ne x) | inr m ↦ m ]
  ]

  pub reachable-Reaches :
      (fuel : ℕ) {found : NameSet} (f : Text)
      → reachable p fuel ≡ some found
      → (member f found ≡ true) ↔ Reaches p f
  reachable-Reaches fuel f e = let inv = found-Inv fuel e in (inv.sound f, λ r. complete inv r)
