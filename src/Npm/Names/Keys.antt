-- ===== src/Npm/Names/Keys.antt =====
-- `parsePnpmPackageKey` reads back every spelling of a lockfile key.
use rules_typescript.Base.{
  ℕ, Bool, true, false, not, [], ◌∷◌, ◌++◌, ◌==◌, if◌then◌else◌, ◌≡◌, refl, sym, ap, ◌∙◌, arith,
  append_assoc, append-nil,
}
use rules_typescript.Base.Text.{Text, codes, is_space, trim_prefix, trim_space}
use rules_typescript.Base.Text.Laws.{
  no_byte, cut-append, cut-no_byte, cut_suffix-append, last_kept, last_kept-append, all-last_kept,
  trim-ends,
}
use rules_typescript.Npm.Names.{unquote, before_paren, split_key, parse_pnpm_package_key}
use rules_typescript.Npm.Names.Spelling.{
  is_name_byte, is_version_byte, Package, plain, scoped, name_text, is_package, is_version, Peers,
  alone, with_peers, peers_text, rooted, decorated, spell, all-imp, word-all, no_byte-append,
  version-no_space, version-no_paren, name-no_paren, split_key-lem,
}

-- How a name begins.
record Head (s : Text) : Type 0 where
  first : ℕ
  rest : Text
  shape : s ≡ first ∷ rest
  no_root : (first == b'/') ≡ false
  no_quote : (first == b'\'') ≡ false
  no_space : is_space first ≡ false

name-Head : (p : Package) → is_package p ≡ true → Head (name_text p)
unfolding name_text is_package
name-Head (plain []) h = cc
name-Head (plain (c ∷ n)) h = record {
  first = c;
  rest = n;
  shape = refl;
  no_root = unfold is_name_byte in ground arith;
  no_quote = unfold is_name_byte in ground arith;
  no_space = unfold is_name_byte in ground arith;
}
name-Head (scoped s n) h = record {
  first = b'@';
  rest = s ++ (b'/' ∷ n);
  shape = refl;
  no_root = refl;
  no_quote = refl;
  no_space = unfold is_space in refl;
}

before_paren-peers :
    (peers : Peers) (core : Text)
    → no_byte b'(' core ≡ true
    → before_paren (core ++ peers_text peers) ≡ core
unfolding before_paren peers_text
before_paren-peers alone core h = ground (arith, append-nil core, cut-no_byte b'(' core h)
before_paren-peers (with_peers w) core h = ground (arith, cut-append b'(' core (w ++ b')' ∷ []) h)

trim_prefix-rooted :
    (slashed : Bool) (c : ℕ) (t : Text)
    → (c == b'/') ≡ false
    → trim_prefix (if slashed then b'/' ∷ c ∷ t else c ∷ t) (codes "/") ≡ c ∷ t
unfolding trim_prefix
trim_prefix-rooted true c t h = refl
trim_prefix-rooted false c t h = ground arith

unquote-quoted :
    (quoted : Bool) (c : ℕ) (t : Text)
    → (c == b'\'') ≡ false
    → unquote (if quoted then b'\'' ∷ ((c ∷ t) ++ (b'\'' ∷ [])) else c ∷ t) ≡ c ∷ t
unfolding unquote
unquote-quoted true c t h = ground (arith, cut_suffix-append (c ∷ t) (b'\'' ∷ []))
unquote-quoted false c t h = ground arith

at_no_space : is_space b'@' ≡ false
unfolding is_space
at_no_space = refl

last_kept-version :
    (peers : Peers) (v : Text)
    → is_version v ≡ true
    → last_kept is_space (b'@' ∷ (v ++ peers_text peers)) ≡ true
unfolding peers_text is_version
last_kept-version alone v h = ground (
  arith,
  append-nil v,
  word-all is_version_byte v h,
  all-imp is_version_byte (λ d. not (is_space d)) version-no_space v,
  all-last_kept is_space (b'@' ∷ v),
  at_no_space,
)
last_kept-version (with_peers w) v h =
    last_kept-append is_space (b'@' ∷ v) b'(' (w ++ b')' ∷ [])
    ∙ last_kept-append is_space (b'(' ∷ w) b')' []
    ∙ unfold is_space in refl

trim_space-plain :
    (c : ℕ) (t : Text)
    → is_space c ≡ false
    → last_kept is_space (c ∷ t) ≡ true
    → trim_space (c ∷ t) ≡ c ∷ t
trim_space-plain c t h k = unfold trim_space in trim-ends is_space c t h k

trim_space-quote : (s : Text) → trim_space (b'\'' ∷ (s ++ b'\'' ∷ [])) ≡ b'\'' ∷ (s ++ b'\'' ∷ [])
trim_space-quote s =
    trim_space-plain b'\'' (s ++ b'\'' ∷ []) (unfold is_space in refl)
      (last_kept-append is_space (b'\'' ∷ s) b'\'' [] ∙ unfold is_space in refl)

trim_space-spelled :
    (quoted slashed : Bool) (c : ℕ) (t : Text)
    → is_space c ≡ false
    → last_kept is_space (c ∷ t) ≡ true
    → trim_space (decorated quoted (rooted slashed (c ∷ t)))
      ≡ decorated quoted (rooted slashed (c ∷ t))
trim_space-spelled true slashed c t h k = trim_space-quote (rooted slashed (c ∷ t))
trim_space-spelled false true c t h k = trim_space-plain b'/' (c ∷ t) (unfold is_space in refl) k
trim_space-spelled false false c t h k = trim_space-plain c t h k

unquote-spelled :
    (quoted slashed : Bool) (c : ℕ) (t : Text)
    → (c == b'\'') ≡ false
    → unquote (decorated quoted (rooted slashed (c ∷ t))) ≡ rooted slashed (c ∷ t)
unquote-spelled quoted true c t h = unquote-quoted quoted b'/' (c ∷ t) refl
unquote-spelled quoted false c t h = unquote-quoted quoted c t h

-- Every spelling of a key is undone but for the peers.
parse-undecorated :
    (quoted slashed : Bool) (c : ℕ) (t : Text)
    → is_space c ≡ false
    → (c == b'/') ≡ false
    → (c == b'\'') ≡ false
    → last_kept is_space (c ∷ t) ≡ true
    → parse_pnpm_package_key (decorated quoted (rooted slashed (c ∷ t)))
      ≡ split_key (before_paren (c ∷ t))
parse-undecorated quoted slashed c t h r q k =
    unfold parse_pnpm_package_key in
    ap (λ s. split_key (before_paren (trim_prefix (unquote s) (codes "/"))))
      (trim_space-spelled quoted slashed c t h k)
    ∙ ap (λ s. split_key (before_paren (trim_prefix s (codes "/"))))
        (unquote-spelled quoted slashed c t q)
    ∙ ap (λ s. split_key (before_paren s)) (trim_prefix-rooted slashed c t r)

name-no_paren_all : (p : Package) → is_package p ≡ true → no_byte b'(' (name_text p) ≡ true
unfolding name_text is_package
name-no_paren_all (plain n) h =
    ground
      (arith, word-all is_name_byte n, all-imp is_name_byte (λ c. not (c == b'(')) name-no_paren n)
name-no_paren_all (scoped s n) h = ground (
  arith,
  word-all is_name_byte n,
  word-all is_name_byte s,
  no_byte-append b'(' s (b'/' ∷ n),
  all-imp is_name_byte (λ c. not (c == b'(')) name-no_paren s,
  all-imp is_name_byte (λ c. not (c == b'(')) name-no_paren n,
)

core-no_paren :
    (p : Package) (v : Text)
    → is_package p ≡ true
    → is_version v ≡ true
    → no_byte b'(' (name_text p ++ (b'@' ∷ v)) ≡ true
core-no_paren p v h k = ground (
  arith,
  name-no_paren_all p h,
  no_byte-append b'(' (name_text p) (b'@' ∷ v),
  word-all is_version_byte v (unfold is_version in k),
  all-imp is_version_byte (λ c. not (c == b'(')) version-no_paren v,
)

-- Every spelling that pnpm has for a package's key (with or without v6's leading slash, quoted or
-- not, with or without peers) is read back as the package's name and version.
pub parse-spell :
    (quoted slashed : Bool) (peers : Peers) (p : Package) (version : Text)
    → is_package p ≡ true
    → is_version version ≡ true
    → parse_pnpm_package_key (spell quoted slashed peers p version) ≡ (name_text p, version)
parse-spell quoted slashed peers p v h k =
    let hd = name-Head p h in
    let behind : Text = b'@' ∷ (v ++ peers_text peers) in
    let e : name_text p ++ behind ≡ hd.first ∷ (hd.rest ++ behind) =
      ap (λ s. s ++ behind) hd.shape in
    let end : last_kept is_space (hd.first ∷ (hd.rest ++ behind)) ≡ true =
      ap (last_kept is_space) (sym e)
      ∙ last_kept-append is_space (name_text p) b'@' (v ++ peers_text peers)
      ∙ last_kept-version peers v k in
    unfold spell in
    ap (λ s. parse_pnpm_package_key (decorated quoted (rooted slashed s))) e
    ∙ parse-undecorated quoted slashed hd.first (hd.rest ++ behind) hd.no_space hd.no_root
        hd.no_quote end
    ∙ ap (λ s. split_key (before_paren s))
        (sym e ∙ sym (append_assoc (name_text p) (b'@' ∷ v) (peers_text peers)))
    ∙ ap split_key (before_paren-peers peers (name_text p ++ (b'@' ∷ v)) (core-no_paren p v h k))
    ∙ split_key-lem p v h k
