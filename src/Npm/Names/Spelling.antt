-- ===== src/Npm/Names/Spelling.antt =====
-- The spellings of a package's key in pnpm's lockfile, and the key without its decoration.
use rules_typescript.Base.{
  ℕ, Bool, true, false, not, ◌&&◌, ◌||◌, [], ◌∷◌, ◌++◌, ◌==◌, if◌then◌else◌, ◌≡◌, refl, arith, all,
  append_assoc,
}
use rules_typescript.Base.Text.{Text, text_eq, is_space}
use rules_typescript.Base.Text.Laws.{no_byte, cut-append, cut_last-append}
use rules_typescript.Npm.Names.{scoped_key, plain_key, split_key}

-- A byte of a package's name; a version may hold "/" too.
unfoldable pub is_name_byte : ℕ → Bool
is_name_byte c = not (is_space c || c == b'@' || c == b'/' || c == b'(' || c == b'\'')

unfoldable pub is_version_byte : ℕ → Bool
is_version_byte c = not (is_space c || c == b'@' || c == b'(')

pub data Package : Type 0 where
  plain : Text → Package
  scoped : Text → Text → Package

unfoldable pub name_text : Package → Text
name_text (plain n) = n
name_text (scoped s n) = b'@' ∷ (s ++ (b'/' ∷ n))

abbrev pub nonempty : Text → Bool
nonempty [] = false
nonempty (c ∷ s) = true

abbrev pub word : (ℕ → Bool) → Text → Bool
word p s = nonempty s && all p s

unfoldable pub is_package : Package → Bool
unfolding is_name_byte
is_package (plain n) = word is_name_byte n
is_package (scoped s n) = word is_name_byte s && word is_name_byte n

unfoldable pub is_version : Text → Bool
unfolding is_version_byte
is_version v = word is_version_byte v

-- The spellings: v6 with a leading slash, in single quotes, and with a suffix of peers.
pub data Peers : Type 0 where
  alone : Peers
  with_peers : Text → Peers

unfoldable pub peers_text : Peers → Text
peers_text alone = []
peers_text (with_peers w) = b'(' ∷ (w ++ (b')' ∷ []))

abbrev pub rooted : Bool → Text → Text
rooted slashed key = if slashed then b'/' ∷ key else key

abbrev pub decorated : Bool → Text → Text
decorated quoted key = if quoted then b'\'' ∷ (key ++ (b'\'' ∷ [])) else key

unfoldable pub spell : Bool → Bool → Peers → Package → Text → Text
unfolding peers_text name_text
spell quoted slashed peers p version =
    decorated quoted (rooted slashed (name_text p ++ (b'@' ∷ (version ++ peers_text peers))))

pub all-imp :
    (p q : ℕ → Bool)
    → ((c : ℕ) → p c ≡ true → q c ≡ true)
    → (s : Text) → all p s ≡ true
    → all q s ≡ true
all-imp p q f [] h = refl
all-imp p q f (c ∷ s) h = ground (arith, f c, all-imp p q f s)

name-no_at : (c : ℕ) → is_name_byte c ≡ true → not (c == b'@') ≡ true
unfolding is_name_byte
name-no_at c h = ground arith

name-no_slash : (c : ℕ) → is_name_byte c ≡ true → not (c == b'/') ≡ true
unfolding is_name_byte
name-no_slash c h = ground arith

pub name-no_paren : (c : ℕ) → is_name_byte c ≡ true → not (c == b'(') ≡ true
unfolding is_name_byte
name-no_paren c h = ground arith

version-no_at : (c : ℕ) → is_version_byte c ≡ true → not (c == b'@') ≡ true
unfolding is_version_byte
version-no_at c h = ground arith

pub version-no_paren : (c : ℕ) → is_version_byte c ≡ true → not (c == b'(') ≡ true
unfolding is_version_byte
version-no_paren c h = ground arith

pub version-no_space : (c : ℕ) → is_version_byte c ≡ true → not (is_space c) ≡ true
unfolding is_version_byte
version-no_space c h = ground arith

pub no_byte-append : (b : ℕ) (s t : Text) → no_byte b (s ++ t) ≡ (no_byte b s && no_byte b t)
no_byte-append b [] t = refl
no_byte-append b (c ∷ s) t = ground (arith, no_byte-append b s t)

pub word-all :
    (p : ℕ → Bool) (s : Text) → word p s ≡ true → (text_eq s [] ≡ false) × (all p s ≡ true)
word-all p [] h = cc
word-all p (c ∷ s) h = ground arith

plain_key-lem :
    (n v : Text)
    → text_eq n [] ≡ false
    → text_eq v [] ≡ false
    → no_byte b'@' v ≡ true
    → plain_key (n ++ (b'@' ∷ v)) ≡ (n, v)
unfolding plain_key
plain_key-lem n v h k l = ground (arith, cut_last-append b'@' n v l)

scoped_key-lem :
    (s n v : Text)
    → no_byte b'/' s ≡ true
    → text_eq n [] ≡ false
    → no_byte b'@' v ≡ true
    → scoped_key ((b'@' ∷ s) ++ (b'/' ∷ (n ++ (b'@' ∷ v)))) ≡ (b'@' ∷ (s ++ (b'/' ∷ n)), v)
unfolding scoped_key
scoped_key-lem s n v h k l =
    ground (arith, cut-append b'/' (b'@' ∷ s) (n ++ (b'@' ∷ v)), cut_last-append b'@' n v l)

-- The two shapes of a key, without its decoration.
pub split_key-lem :
    (p : Package) (version : Text)
    → is_package p ≡ true
    → is_version version ≡ true
    → split_key (name_text p ++ (b'@' ∷ version)) ≡ (name_text p, version)
unfolding name_text is_package is_version
split_key-lem (plain []) version h k = cc
split_key-lem (plain (c ∷ n)) version h k =
    let (ne, vs) = word-all is_version_byte version k in
    unfold split_key in
    ground (
      arith,
      name-no_at c,
      plain_key-lem (c ∷ n) version,
      all-imp is_version_byte (λ d. not (d == b'@')) version-no_at version,
    )
split_key-lem (scoped s n) version h k =
    let (ne, vs) = word-all is_version_byte version k in
    unfold split_key in
    ground (
      arith,
      word-all is_name_byte n,
      word-all is_name_byte s,
      all-imp is_name_byte (λ d. not (d == b'/')) name-no_slash s,
      append_assoc s (b'/' ∷ n) (b'@' ∷ version),
      scoped_key-lem s n version,
      all-imp is_version_byte (λ d. not (d == b'@')) version-no_at version,
    )
