-- ===== src/Base/GoPath/Inside.antt =====
-- The names that `Clean` leaves of a path, and the steps up before them.
use rules_typescript.Base.Tests.{◌==◌, Bool-cases, ==_iff}
use rules_typescript.Base.Lists.{In, here, there, In-append}
use Prim.Native.Nat.{ℕ}
use mathlib.Core.Path.{◌≡◌, refl, sym, ap, ◌∙◌, subst}
use mathlib.Core.Logic.{◌≢◌, inl, inr}
use mathlib.Core.Bool.{true, false, false≢true}
use mathlib.Core.List.{List, [], ◌∷◌, ◌++◌, reverse, reverse-append}
use rules_typescript.Base.Text.{Text, text_eq, text_eq_iff, has_prefix, cut_prefix, split, join}
use rules_typescript.Base.Text.Laws.{split_cons}
use rules_typescript.Base.GoPath.{
  slash, dot, dot_dot, clean_step, clean_loop, cleaned, clean, or_dot,
}

-- The name of a file or a directory.
pub record IsName (n : Text) : Type 0 where
  pub nonempty : n ≢ []
  pub not_dot : n ≢ dot
  pub not_up : n ≢ dot_dot
  pub no_slash : ¬ In b'/' n

-- An absolute path, or one that leads down from where it starts by one name or more.
pub data IsBelow (path : Text) : Type 0 where
  absolute : has_prefix path slash ≡ true → IsBelow path
  down :
      (first : Text) (names : List Text)
      → path ≡ join (first ∷ names) b'/'
      → ((n : Text) → In n (first ∷ names) → IsName n)
      → IsBelow path

-- The words that a text is split into do not hold the separator.
word-no_sep : (b c : ℕ) (w v : Text) → c == b ≡ false → ¬ In b v → w ≡ c ∷ v → ¬ In b w
word-no_sep b c w v n free e i = elim (subst (In b) e i) [
  | here q ↦ absurd (false≢true (sym n ∙ (==_iff c b).1 (sym q)))
  | there k ↦ free k
]

split-no_sep : (b : ℕ) (s w : Text) → In w (split s b) → ¬ In b w
unfolding split
split-no_sep b [] w (here e) i = elim (subst (In b) e i) [ ]
split-no_sep b [] w (there m) i = elim m [ ]
split-no_sep b (c ∷ s) w m i =
    let rec = split-no_sep b s in
    elim (Bool-cases (c == b)) [
      | inl t ↦
          let m' : In w ([] ∷ split s b) = rw t at m in
          elim m' [ here e ↦ elim (subst (In b) e i) [ ] | there k ↦ rec w k i ]
      | inr n ↦
          let (v, vs, e) = split_cons b s in
          let m' : In w ((c ∷ v) ∷ vs) = rw (n, e) at m in
          elim m' [
            | here q ↦ word-no_sep b c w v n (rec v (subst (In v) (sym e) (here refl))) q i
            | there k ↦ rec w (subst (In w) (sym e) (there k)) i
          ]
    ]

-- What is kept of a relative path: names, or a step up before all else.
data Kept (ks : List Text) : Type 0 where
  names : ((n : Text) → In n ks → IsName n) → Kept ks
  climbs : (xs : List Text) → ks ≡ xs ++ dot_dot ∷ [] → Kept ks

push : (w : Text) (ks : List Text) → IsName w → Kept ks → Kept (w ∷ ks)
push w ks h (names all) =
    names (λ n i. elim i [ here e ↦ subst IsName (sym e) h | there k ↦ all n k ])
push w ks h (climbs xs e) = climbs (w ∷ xs) (ap (λ l. w ∷ l) e)

climb : (ks : List Text) → Kept (dot_dot ∷ ks) → Kept (dot_dot ∷ dot_dot ∷ ks)
climb ks (names all) = absurd ((all dot_dot (here refl)).not_up refl)
climb ks (climbs xs e) = climbs (dot_dot ∷ xs) (ap (λ l. dot_dot ∷ l) e)

pop : (k : Text) (ks : List Text) → k ≢ dot_dot → Kept (k ∷ ks) → Kept ks
pop k ks ne (names all) = names (λ n i. all n (there i))
pop k ks ne (climbs [] e) = absurd (ne cc)
pop k ks ne (climbs (x ∷ xs) e) = climbs xs cc

not_text : (s t : Text) → text_eq s t ≡ false → s ≢ t
not_text s t h e = false≢true (sym h ∙ (text_eq_iff s t).1 e)

word-IsName :
    (c : ℕ) (s : Text)
    → text_eq (c ∷ s) dot ≡ false
    → text_eq (c ∷ s) dot_dot ≡ false
    → ¬ In b'/' (c ∷ s)
    → IsName (c ∷ s)
word-IsName c s n u free = record {
  nonempty = λ e. cc;
  not_dot = not_text (c ∷ s) dot n;
  not_up = not_text (c ∷ s) dot_dot u;
  no_slash = free;
}

step-Kept : (ks : List Text) (w : Text) → ¬ In b'/' w → Kept ks → Kept (clean_step false ks w)
unfolding clean_step
step-Kept ks [] free h = h
step-Kept [] (c ∷ s) free h = elim (Bool-cases (text_eq (c ∷ s) dot)) [
  | inl t ↦ rw t h
  | inr n ↦ elim (Bool-cases (text_eq (c ∷ s) dot_dot)) [
    | inl t ↦
        let e : c ∷ s ≡ dot_dot = (text_eq_iff (c ∷ s) dot_dot).0 t in
        rw (n, t) (climbs [] (ap (λ x. x ∷ []) e))
    | inr u ↦ rw (n, u) (push (c ∷ s) [] (word-IsName c s n u free) h)
  ]
]
step-Kept (k ∷ ks) (c ∷ s) free h = elim (Bool-cases (text_eq (c ∷ s) dot)) [
  | inl t ↦ rw t h
  | inr n ↦ elim (Bool-cases (text_eq (c ∷ s) dot_dot)) [
    | inl t ↦ elim (Bool-cases (text_eq k dot_dot)) [
      | inl up ↦
          let e : c ∷ s ≡ dot_dot = (text_eq_iff (c ∷ s) dot_dot).0 t in
          let f : k ≡ dot_dot = (text_eq_iff k dot_dot).0 up in
          rw (n, t, up)
            (subst (λ w. Kept (w ∷ k ∷ ks)) (sym e)
              (subst (λ x. Kept (dot_dot ∷ x ∷ ks)) (sym f)
                (climb ks (subst (λ x. Kept (x ∷ ks)) f h))))
      | inr kn ↦ rw (n, t, kn) (pop k ks (not_text k dot_dot kn) h)
    ]
    | inr u ↦ rw (n, u) (push (c ∷ s) (k ∷ ks) (word-IsName c s n u free) h)
  ]
]

loop-Kept :
    (ks ws : List Text)
    → ((w : Text) → In w ws → ¬ In b'/' w)
    → Kept ks
    → Kept (clean_loop false ks ws)
unfolding clean_loop
loop-Kept ks [] free h = h
loop-Kept ks (w ∷ ws) free h =
    loop-Kept (clean_step false ks w) ws (λ v i. free v (there i))
      (step-Kept ks w (free w (here refl)) h)

In-reverse : {x : Text} (xs : List Text) → In x (reverse xs) → In x xs
In-reverse [] i = i
In-reverse (y ∷ xs) i =
    elim (In-append (reverse xs) (subst (In _) (reverse-append (y ∷ []) xs) i)) [
      | inl l ↦ there (In-reverse xs l)
      | inr (here e) ↦ here e
      | inr (there m) ↦ elim m [ ]
    ]

up-dot_dot : (ws : List Text) → has_prefix (join (dot_dot ∷ ws) b'/') dot_dot ≡ true
unfolding has_prefix cut_prefix join
up-dot_dot [] = refl
up-dot_dot (w ∷ ws) = refl

below_join :
    (c : ℕ) (t : Text) (ws : List Text)
    → join ws b'/' ≡ c ∷ t
    → ((n : Text) → In n ws → IsName n)
    → IsBelow (c ∷ t)
unfolding join
below_join c t [] q named = absurd (cc)
below_join c t (w ∷ ws) q named = down w ws (sym q) named

kept-IsBelow :
    (ks : List Text) (joined : Text)
    → Kept ks
    → join (reverse ks) b'/' ≡ joined
    → text_eq (or_dot joined) dot ≡ false
    → has_prefix (or_dot joined) dot_dot ≡ false
    → IsBelow (or_dot joined)
kept-IsBelow ks [] h e not_root not_up = absurd (false≢true (sym not_root))
kept-IsBelow ks (c ∷ t) (climbs xs f) e not_root not_up =
    let r : reverse ks ≡ dot_dot ∷ reverse xs = ap reverse f ∙ reverse-append xs (dot_dot ∷ []) in
    let j : join (dot_dot ∷ reverse xs) b'/' ≡ c ∷ t = ap (λ l. join l b'/') (sym r) ∙ e in
    absurd
      (false≢true (sym not_up ∙ ap (λ p. has_prefix p dot_dot) (sym j) ∙ up-dot_dot (reverse xs)))
kept-IsBelow ks (c ∷ t) (names all) e not_root not_up =
    below_join c t (reverse ks) e (λ n i. all n (In-reverse ks i))

begins-slash : (t : Text) → has_prefix (b'/' ∷ t) slash ≡ true
unfolding has_prefix cut_prefix
begins-slash t = refl

-- A cleaned path that is neither "." nor begins with ".." is absolute or leads down by names.
pub clean-IsBelow :
    (p : Text)
    → text_eq (clean p) dot ≡ false
    → has_prefix (clean p) dot_dot ≡ false
    → IsBelow (clean p)
unfolding clean cleaned
clean-IsBelow p not_root not_up = elim (Bool-cases (has_prefix p slash)) [
  | inl t ↦ rw t (absolute (begins-slash (join (reverse (clean_loop true [] (split p b'/'))) b'/')))
  | inr n ↦ rw n (
      kept-IsBelow (clean_loop false [] (split p b'/')) _
        (loop-Kept [] (split p b'/') (λ w i. split-no_sep b'/' p w i) (names (λ x i. elim i [ ])))
        refl (rw n at not_root) (rw n at not_up))
]
