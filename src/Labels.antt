-- ===== src/Labels.antt =====
-- gazelle/labels.go, and the part of gazelle/keep.go that decides which of a rule's values a merge
-- takes away. Labels are parsed, and made absolute and relative, by Gazelle's own library.
pub mod Sources
use rules_typescript.Base.{
  ℕ, Bool, true, false, not, ◌&&◌, ◌||◌, Option, none, some, List, [], ◌∷◌, ◌++◌, ◌==◌,
  if◌then◌else◌, all, leb, ltb, length,
}
use rules_typescript.Base.Text.{
  Text, codes, text_eq, has_prefix, trim_prefix, trim_space, contains, cut, cut_last,
}
use rules_typescript.Base.Map.{NameSet, member}

unfoldable pub src_label : Text → Option Text
unfolding contains has_prefix
src_label name =
    if contains name (codes ":")
    then none
    else if has_prefix name (codes "@") || has_prefix name (codes "//")
    then some (b':' ∷ name)
    else some name

abbrev with_label : Option Text → List Text → List Text
with_label none labels = labels
with_label (some label) labels = label ∷ labels

unfoldable pub src_labels : List Text → List Text
unfolding src_label
src_labels [] = []
src_labels (name ∷ names) = with_label (src_label name) (src_labels names)

unfoldable pub or_repo_root : Text → Text
or_repo_root rel = if text_eq rel [] then codes "the workspace root" else rel

-- An element of a list expression: a string, kept or not, or another expression.
pub data Element : Type 0 where
  string_element : Text → Bool → Element
  other_element : Element

-- The value of an attribute as it is written; `absent` is nil.
pub data AttrValue : Type 0 where
  absent : AttrValue
  identifier string : Text → AttrValue
  list : List Element → AttrValue
  expression : AttrValue

abbrev is_string : Element → Bool
is_string (string_element s kept) = true
is_string other_element = false

unfoldable pub is_literal_attr_value : AttrValue → Bool
is_literal_attr_value absent = true
is_literal_attr_value (identifier name) =
    text_eq name (codes "True") || text_eq name (codes "False")
is_literal_attr_value (string s) = true
is_literal_attr_value (list elements) = all is_string elements
is_literal_attr_value expression = false

unfoldable pub is_keep_comment : Text → Bool
unfolding trim_space trim_prefix has_prefix
is_keep_comment token =
    let text = trim_space (trim_prefix token (codes "#")) in
    text_eq text (codes "keep") || has_prefix text (codes "keep: ")

-- `Before`, then `Suffix`.
unfoldable pub attr_kept : Option (List Text × List Text) → Bool
unfolding is_keep_comment
attr_kept none = false
attr_kept (some (before, suffix)) = not (all (λ t. not (is_keep_comment t)) (before ++ suffix))

abbrev is_alphanumeric : ℕ → Bool
is_alphanumeric c = leb b'0' c && leb c b'9' || leb b'A' c && leb c b'Z' || leb b'a' c && leb c b'z'

-- `\.[A-Za-z0-9]{1,6}$`; the text behind the last dot is the only one that can match.
unfoldable pub file_extension : Text → Bool
unfolding cut_last
file_extension value = elim (cut_last value (codes ".")) [
  | none ↦ false
  | some parts ↦ all is_alphanumeric parts.1 && not (text_eq parts.1 []) && leb (length parts.1) 6
]

abbrev before_colon : Text → Text
before_colon s = elim (cut s (codes ":")) [ none ↦ s | some parts ↦ parts.0 ]

-- `pathExists` of a path below the repository's root, and below the package's directory.
module _ (in_repo in_package : Text → Bool) where
  unfoldable pub derivable_value : Text → Bool
  unfolding has_prefix trim_prefix contains file_extension cut
  derivable_value value =
      if text_eq value [] || has_prefix value (codes "@") || has_prefix value (codes ":")
      then true
      else if has_prefix value (codes "//")
      then (let pkg = before_colon (trim_prefix value (codes "//")) in
          text_eq pkg [] || in_repo pkg)
      else if contains value (codes ":")
      then true
      else if contains value (codes "/") || file_extension value
      then in_package value
      else true

  -- The loop of `droppedAttrValues`; `carried` is what the new rule has.
  unfoldable pub dropped_elements : NameSet → List Element → List Text
  unfolding member derivable_value
  dropped_elements carried [] = []
  dropped_elements carried (other_element ∷ elements) = dropped_elements carried elements
  dropped_elements carried (string_element s kept ∷ elements) =
      let rest = dropped_elements carried elements in
      if kept || member s carried || not (derivable_value s) then rest else s ∷ rest

  abbrev list_elements : AttrValue → List Element
  list_elements (list elements) = elements
  list_elements _ = []

  -- `have.AttrString` is "" but for a string.
  abbrev attr_string : AttrValue → Text
  attr_string (string s) = s
  attr_string _ = []

  abbrev element_strings : List Element → List Text
  element_strings [] = []
  element_strings (string_element s kept ∷ elements) = s ∷ element_strings elements
  element_strings (other_element ∷ elements) = element_strings elements

  unfoldable pub dropped_attr_values : AttrValue → AttrValue → List Text
  unfolding dropped_elements derivable_value
  dropped_attr_values old new =
      let s = attr_string old in
      if not (text_eq s [])
      then (if text_eq (attr_string new) s || not (derivable_value s) then [] else s ∷ [])
      else dropped_elements (element_strings (list_elements new)) (list_elements old)
