-- ===== src/Program/Reach.antt =====
-- What reaching a file means, and what `push` and `push_all` do to `seen` and `queue`.
use rules_typescript.Base.{
  true, false, ◌||◌, List, [], ◌∷◌, ◌++◌, if◌then◌else◌, Bool-cases, ◌≡◌, ◌≢◌, refl, sym, ◌∙◌, ap,
  subst, ◌⊎◌, inl, inr, arith, In, here, there,
}
use rules_typescript.Base.Text.{Text, text_eq, text_eq_iff, text_eq_refl}
use rules_typescript.Base.Map.{NameSet, member}
use rules_typescript.ExplainFiles.{Edge}
use rules_typescript.Program.{Program, Frontier, push, push_all, entry_files, next}

-- A file that an entry names, or that an edge leads to from a file that is reached.
pub data Reaches (p : Program) : Text → Type 0 where
  entry : {f : Text} → In f (entry_files p) → f ≢ [] → Reaches p f
  edge : (e : Edge) → Reaches p e.from → In e p.edges → e.to ≢ [] → Reaches p e.to

pub member-append : (f : Text) (s t : NameSet) → member f (s ++ t) ≡ (member f s || member f t)
unfolding member
member-append f [] t = refl
member-append f (g ∷ s) t = ground (arith, member-append f s t)

pub member-cons :
    (f g : Text) (s : NameSet) → member f (g ∷ s) ≡ (if text_eq g f then true else member f s)
unfolding member
member-cons f g s = refl

-- The empty name is never looked for: an entry that resolved to no file.
abbrev pub Seen : NameSet → Text → Type 0
Seen seen f = (f ≡ []) ⊎ (member f seen ≡ true)

-- What pushing may change.
pub record Grows (s t : Frontier) : Type 0 where
  pub seen : (f : Text) → member f s.seen ≡ true → member f t.seen ≡ true
  pub queue : (f : Text) → member f s.queue ≡ true → member f t.queue ≡ true
  pub fresh :
      (f : Text) → member f t.seen ≡ true → (member f s.seen ≡ true) ⊎ (member f t.queue ≡ true)

Grows-refl : (s : Frontier) → Grows s s
Grows-refl s = record { seen = λ f h. h; queue = λ f h. h; fresh = λ f h. inl h }

Grows-trans : {s t u : Frontier} → Grows s t → Grows t u → Grows s u
Grows-trans g h = record {
  seen = λ f m. h.seen f (g.seen f m);
  queue = λ f m. h.queue f (g.queue f m);
  fresh = λ f m. elim (h.fresh f m) [
    | inr q ↦ inr q
    | inl t ↦ elim (g.fresh f t) [ inl s ↦ inl s | inr q ↦ inr (h.queue f q) ]
  ];
}

push_fresh :
    (f g : Text) (s : Frontier)
    → member g (push f s).seen ≡ true
    → (member g s.seen ≡ true) ⊎ (member g (push f s).queue ≡ true)
unfolding push
push_fresh f g s h =
    ground (arith, member-cons g f s.seen, member-cons g f [], member-append g s.queue (f ∷ []))

push-Grows : (f : Text) (s : Frontier) → Grows s (push f s)
push-Grows f s = record {
  seen = λ g h. unfold push in ground (arith, member-cons g f s.seen);
  queue = λ g h. unfold push in ground (arith, member-append g s.queue (f ∷ []));
  fresh = λ g h. push_fresh f g s h;
}

push-Seen : (f : Text) (s : Frontier) → Seen (push f s).seen f
unfolding push
push-Seen f s = elim (Bool-cases (text_eq f [])) [
  | inl e ↦ inl ((text_eq_iff f []).0 e)
  | inr ne ↦ inr (ground (arith, member-cons f f s.seen, text_eq_refl f))
]

pub push_all-Grows : (fs : List Text) (s : Frontier) → Grows s (push_all fs s)
unfolding push_all
push_all-Grows [] s = Grows-refl s
push_all-Grows (f ∷ fs) s = Grows-trans (push-Grows f s) (push_all-Grows fs (push f s))

pub Seen-mono : {s t : Frontier} (f : Text) → Grows s t → Seen s.seen f → Seen t.seen f
Seen-mono f g (inl e) = inl e
Seen-mono f g (inr m) = inr (g.seen f m)

pub push_all-Seen :
    {f : Text} {fs : List Text} (s : Frontier) → In f fs → Seen (push_all fs s).seen f
unfolding push_all
push_all-Seen {f} s (here {x} {xs} e) =
    Seen-mono f (push_all-Grows xs (push x s))
      (subst (λ g. Seen (push x s).seen g) (sym e) (push-Seen x s))
push_all-Seen s (there {x} {xs} m) = push_all-Seen (push x s) m

-- Whatever `push_all` adds is one of the files, and not the empty name.
module _ (P : Text → Type 0) where
  abbrev pub Only : Frontier → Type 0
  Only s = (f : Text) → member f s.seen ≡ true → P f

  push-Only : (f : Text) (s : Frontier) → (f ≢ [] → P f) → Only s → Only (push f s)
  push-Only f s pf h g m = elim (Bool-cases (text_eq f [])) [
    | inl e ↦ h g (unfold push in ground arith)
    | inr ne ↦ elim (Bool-cases (text_eq f g)) [
      | inl same ↦ subst P ((text_eq_iff f g).0 same) (pf (λ e. cc (ne, ap (λ t. text_eq t []) e)))
      | inr other ↦ h g (unfold push in ground (arith, member-cons g f s.seen))
    ]
  ]

  pub push_all-Only :
      (fs : List Text) (s : Frontier)
      → ((f : Text) → In f fs → f ≢ [] → P f)
      → Only s
      → Only (push_all fs s)
  unfolding push_all
  push_all-Only [] s pf h = h
  push_all-Only (f ∷ fs) s pf h =
      push_all-Only fs (push f s) (λ g m. pf g (there m)) (push-Only f s (pf f (here refl)) h)

-- What is queued has been seen.
abbrev pub Queued : Frontier → Type 0
Queued s = (f : Text) → member f s.queue ≡ true → member f s.seen ≡ true

push-Queued : (f : Text) (s : Frontier) → Queued s → Queued (push f s)
push-Queued f s h g m =
    unfold push in
    ground
      (arith, member-cons g f s.seen, member-cons g f [], member-append g s.queue (f ∷ []), h g)

pub push_all-Queued : (fs : List Text) (s : Frontier) → Queued s → Queued (push_all fs s)
unfolding push_all
push_all-Queued [] s h = h
push_all-Queued (f ∷ fs) s h = push_all-Queued fs (push f s) (push-Queued f s h)

-- The edges out of a file.
next-match :
    (e : Edge) (es : List Edge) (f : Text) → e.from ≡ f → next (e ∷ es) f ≡ e.to ∷ next es f
unfolding next
next-match e es f h = rw ((text_eq_iff e.from f).1 h)

next-other :
    (e : Edge) (es : List Edge) (f : Text) → text_eq e.from f ≡ false → next (e ∷ es) f ≡ next es f
unfolding next
next-other e es f h = rw h

pub In-next : {e : Edge} {es : List Edge} (f : Text) → In e es → e.from ≡ f → In e.to (next es f)
In-next {e} f (here {x} {xs} q) h =
    rw (next-match x xs f (ap (λ (y : Edge). y.from) (sym q) ∙ h))
      (here (ap (λ (y : Edge). y.to) q))
In-next {e} f (there {x} {xs} m) h = elim (Bool-cases (text_eq x.from f)) [
  | inl t ↦ rw (next-match x xs f ((text_eq_iff x.from f).0 t)) (there (In-next f m h))
  | inr n ↦ rw (next-other x xs f n) (In-next f m h)
]

-- An edge of the list that leads from `f` to `g`.
abbrev pub EdgeTo : List Edge → Text → Text → Type 0
EdgeTo es f g = (e : Edge) × In e es × (e.from ≡ f) × (e.to ≡ g)

later : {x : Edge} {es : List Edge} {f g : Text} → EdgeTo es f g → EdgeTo (x ∷ es) f g
later (e, i, p, q) = (e, there i, p, q)

first_or_later :
    (x : Edge) (es : List Edge) (f g : Text)
    → x.from ≡ f
    → (In g (next es f) → EdgeTo es f g)
    → In g (x.to ∷ next es f)
    → EdgeTo (x ∷ es) f g
first_or_later x es f g from rec (here q) = (x, here refl, from, sym q)
first_or_later x es f g from rec (there m) = later (rec m)

pub next-In : (es : List Edge) (f : Text) {g : Text} → In g (next es f) → EdgeTo es f g
unfolding next
next-In [] f i = no_member i
  where
    no_member : {h : Text} → In h [] → EdgeTo [] f h
    no_member j = elim j [ ]
next-In (x ∷ es) f {g} i = elim (Bool-cases (text_eq x.from f)) [
  | inl t ↦
      first_or_later x es f g ((text_eq_iff x.from f).0 t) (next-In es f)
        (subst (In g) (next-match x es f ((text_eq_iff x.from f).0 t)) i)
  | inr n ↦ later (next-In es f (subst (In g) (next-other x es f n) i))
]
