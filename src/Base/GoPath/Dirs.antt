-- ===== src/Base/GoPath/Dirs.antt =====
-- Directories inside the repository, as Gazelle names them: "" is the root, and every other one
-- is a clean relative path. `parent_dir` takes off the last element.
use mathlib.Core.Path.{subst, ◌≡◌, refl}
use mathlib.Core.Logic.{◌⊎◌, inl, inr}
use mathlib.Core.Bool.{Bool, true, false, not, ◌&&◌}
use mathlib.Core.List.{
  List, [], ◌∷◌, ◌++◌, reverse, append-nil, append_assoc, reverse-append, reverse-reverse,
}
use native.Mathlib.Omega.{arith}
use Prim.Native.Nat.{ℕ, ◌<◌}
use rules_typescript.Base.Tests.{Bool-cases, ◌==◌}
use rules_typescript.Base.Lists.{length, all, length-append}
use rules_typescript.Base.Text.{Text, text_eq, text_eq_iff, has_prefix, split}
use rules_typescript.Base.Text.Laws.{
  no_byte, cut_last-no_byte, cut_last-append, split-no_byte, split-append, join-split,
}
use rules_typescript.Base.GoPath.{
  slash, dot, dot_dot, clean_step, clean_loop, cleaned, clean, dir, parent_dir,
}

abbrev pub no_slash : Text → Bool
no_slash = no_byte b'/'

-- A name in a directory.
unfoldable pub is_name : Text → Bool
is_name n = no_slash n && not (text_eq n []) && not (text_eq n dot) && not (text_eq n dot_dot)

-- The path of `n` in `d`.
unfoldable pub sub : Text → Text → Text
sub [] n = n
sub (c ∷ d) n = (c ∷ d) ++ (b'/' ∷ n)

pub data IsDir : Text → Type 0 where
  root : IsDir []
  child : (d n : Text) → IsDir d → is_name n ≡ true → IsDir (sub d n)

-- An element that `clean` keeps.
is_kept : Text → Bool
is_kept n = not (text_eq n []) && not (text_eq n dot) && not (text_eq n dot_dot)

clean_step-kept :
    (stack : List Text) (w : Text) → is_kept w ≡ true → clean_step false stack w ≡ w ∷ stack
unfolding clean_step is_kept
clean_step-kept stack [] h = cc
clean_step-kept [] (c ∷ w) h = ground arith
clean_step-kept (k ∷ stack) (c ∷ w) h = ground arith

split_nil : split [] b'/' ≡ [] ∷ []
unfolding split
split_nil = refl

clean_loop-kept :
    (stack ws : List Text)
    → all is_kept ws ≡ true
    → clean_loop false stack (ws ++ [] ∷ []) ≡ reverse ws ++ stack
unfolding clean_loop
clean_loop-kept stack [] h = ground arith
clean_loop-kept stack (w ∷ ws) h = ground (
  arith,
  clean_step-kept stack w,
  clean_loop-kept (w ∷ stack) ws,
  append_assoc (reverse ws) (w ∷ []) stack,
  reverse-append (w ∷ []) ws,
)

all-append : (p : Text → Bool) (xs ys : List Text) → all p (xs ++ ys) ≡ (all p xs && all p ys)
all-append p [] ys = refl
all-append p (x ∷ xs) ys = ground (arith, all-append p xs ys)

is_kept_of_name : (n : Text) → is_name n ≡ true → (is_kept n ≡ true) × (no_slash n ≡ true)
unfolding is_kept is_name
is_kept_of_name n h = ground arith

sub-kept :
    (d n : Text)
    → is_name n ≡ true
    → (d ≡ []) ⊎ (all is_kept (split d b'/') ≡ true)
    → all is_kept (split (sub d n) b'/') ≡ true
unfolding sub
sub-kept [] n h i = let (k, s) = is_kept_of_name n h in rw (split-no_byte b'/' n s) (ground arith)
sub-kept (c ∷ d) n h i =
    let (k, s) = is_kept_of_name n h in
    ground (
      arith,
      split-append b'/' (c ∷ d) n,
      split-no_byte b'/' n s,
      all-append is_kept (split (c ∷ d) b'/') (n ∷ []),
    )

-- Every element of a directory other than the root is kept.
IsDir-kept : {d : Text} → IsDir d → (d ≡ []) ⊎ (all is_kept (split d b'/') ≡ true)
IsDir-kept root = inl refl
IsDir-kept (child d n h k) = inr (sub-kept d n k (IsDir-kept h))

abbrev not_rooted : Text → Bool
not_rooted [] = true
not_rooted (c ∷ s) = not (c == b'/')

IsDir-not_rooted : {d : Text} → IsDir d → not_rooted d ≡ true
unfolding sub is_name
IsDir-not_rooted root = refl
IsDir-not_rooted (child [] [] h k) = refl
IsDir-not_rooted (child [] (c ∷ n) h k) = ground arith
IsDir-not_rooted (child (c ∷ d) n h k) = IsDir-not_rooted h

cleaned-kept : (d : Text) → all is_kept (split d b'/') ≡ true → cleaned false (d ++ slash) ≡ d
unfolding cleaned
cleaned-kept d k =
    rw
      (
        split-append b'/' d [],
        split_nil,
        clean_loop-kept [] (split d b'/') k,
        append-nil,
        reverse-reverse,
      )
      (join-split b'/' d)

has_prefix-slash : (c : ℕ) (s : Text) → has_prefix (c ∷ s) slash ≡ (c == b'/')
unfolding has_prefix
has_prefix-slash c s = ground arith

clean-kept :
    (c : ℕ) (d : Text)
    → (c == b'/') ≡ false
    → all is_kept (split (c ∷ d) b'/') ≡ true
    → clean ((c ∷ d) ++ slash) ≡ c ∷ d
clean-kept c d r k =
    unfold clean in ground (arith, has_prefix-slash c (d ++ slash), cleaned-kept (c ∷ d) k)

-- A directory that is not the root is not ".".
dot_not_kept : (all is_kept (split dot b'/') ≡ true) → ⊥
unfolding is_kept split
dot_not_kept h = cc

IsDir-ne-dot : (c : ℕ) (d : Text) → IsDir (c ∷ d) → text_eq (c ∷ d) dot ≡ false
IsDir-ne-dot c d h = elim (IsDir-kept h) [
  | inl e ↦ cc
  | inr k ↦ elim (Bool-cases (text_eq (c ∷ d) dot)) [
    | inr f ↦ f
    | inl t ↦ absurd (
        dot_not_kept
          (subst (λ e. all is_kept (split e b'/') ≡ true) ((text_eq_iff (c ∷ d) dot).0 t) k))
  ]
]

kept_of_dir : (c : ℕ) (d : Text) → IsDir (c ∷ d) → all is_kept (split (c ∷ d) b'/') ≡ true
kept_of_dir c d h = elim (IsDir-kept h) [ inl e ↦ cc | inr k ↦ k ]

dir-no_slash : (n : Text) → no_slash n ≡ true → dir n ≡ dot
dir-no_slash n k = unfold dir in ground (arith, cut_last-no_byte b'/' n k)

dir-sub :
    (c : ℕ) (d n : Text) → IsDir (c ∷ d) → no_slash n ≡ true → dir ((c ∷ d) ++ (b'/' ∷ n)) ≡ c ∷ d
dir-sub c d n h k =
    unfold dir in
    rw (cut_last-append b'/' (c ∷ d) n k)
      (clean-kept c d (not_rooted_lem c d (IsDir-not_rooted h)) (kept_of_dir c d h))
  where
    not_rooted_lem : (e : ℕ) (f : Text) → not_rooted (e ∷ f) ≡ true → (e == b'/') ≡ false
    not_rooted_lem e f x = ground arith

-- A walk towards the root takes the last element off.
pub parent_dir-sub : {d : Text} (n : Text) → IsDir d → is_name n ≡ true → parent_dir (sub d n) ≡ d
parent_dir-sub {d} n h k = go d h (is_kept_of_name n k).1
  where
    go : (e : Text) → IsDir e → no_slash n ≡ true → parent_dir (sub e n) ≡ e
    go [] x s = unfold parent_dir sub in ground (arith, dir-no_slash n s)
    go (c ∷ e) x s = unfold parent_dir sub in ground (arith, dir-sub c e n x s, IsDir-ne-dot c e x)

-- A walk towards the root ends: each step takes a shorter path.
pub length-lt-sub : (d n : Text) → is_name n ≡ true → length d < length (sub d n)
unfolding sub is_name
length-lt-sub [] [] h = cc
length-lt-sub [] (c ∷ n) h = omega arith
length-lt-sub (c ∷ d) n h = omega (arith, length-append d (b'/' ∷ n))

pub sub-nonempty : (d n : Text) → is_name n ≡ true → text_eq (sub d n) [] ≡ false
unfolding sub is_name
sub-nonempty [] [] h = cc
sub-nonempty [] (c ∷ n) h = refl
sub-nonempty (c ∷ d) n h = refl
