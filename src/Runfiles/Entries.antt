-- ===== src/Runfiles/Entries.antt =====
-- A line of a manifest is read back.
use rules_typescript.Base.{
  ℕ, true, false, some, [], ◌∷◌, ◌++◌, ◌==◌, if◌then◌else◌, ◌≡◌, refl, ap, ◌∙◌, arith,
}
use rules_typescript.Base.Text.{Text, codes, cut_prefix, has_prefix, trim_prefix}
use rules_typescript.Base.Text.Laws.{no_byte, cut-append}
use rules_typescript.Runfiles.{is_empty, unescape, entry_of, manifest_entry}

-- The escapes of the bytes that an entry cannot hold.
abbrev pub escape_byte : ℕ → Text
escape_byte c =
    if c == b' '
    then codes "\\s"
    else if c == b'\n'
    then codes "\\n"
    else if c == b'\\'
    then codes "\\b"
    else c ∷ []

unfoldable pub escape : Text → Text
escape [] = []
escape (c ∷ s) = escape_byte c ++ escape s

unescape-escape : (s : Text) → unescape (escape s) ≡ s
unfolding unescape escape
unescape-escape [] = refl
unescape-escape (c ∷ s) = ground (arith, unescape-escape s)

escape-no_byte : (s : Text) → no_byte b' ' (escape s) ≡ true
unfolding escape
escape-no_byte [] = refl
escape-no_byte (c ∷ s) = ground (arith, escape-no_byte s)

is_empty-escape : (s : Text) → is_empty (escape s) ≡ is_empty s
unfolding escape
is_empty-escape [] = refl
is_empty-escape (c ∷ s) = ground arith

-- A line with a space before it, and with its path and its target escaped, is read as that path
-- and that target, where the path is not empty.
pub manifest_entry-escape :
    (rlocation target : Text)
    → is_empty rlocation ≡ false
    → manifest_entry (b' ' ∷ (escape rlocation ++ (b' ' ∷ escape target)))
      ≡ some (rlocation, target)
unfolding manifest_entry has_prefix trim_prefix cut_prefix
manifest_entry-escape rlocation target h =
    ap (entry_of true)
      (cut-append b' ' (escape rlocation) (escape target) (escape-no_byte rlocation))
    ∙ cc (is_empty-escape rlocation, h, unescape-escape rlocation, unescape-escape target)

-- A line without a space before it is read as it is, where the path is not empty and holds no
-- space.
pub manifest_entry-plain :
    (rlocation target : Text)
    → is_empty rlocation ≡ false
    → no_byte b' ' rlocation ≡ true
    → manifest_entry (rlocation ++ (b' ' ∷ target)) ≡ some (rlocation, target)
unfolding manifest_entry has_prefix trim_prefix cut_prefix
manifest_entry-plain [] target h k = ground arith
manifest_entry-plain (c ∷ r) target h k = ground (arith, cut-append b' ' (c ∷ r) target k)
