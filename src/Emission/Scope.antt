-- ===== src/Emission/Scope.antt =====
-- gazelle/emission.go: whether the visibility of a package scope denies a consumer. Labels are
-- parsed and made absolute by Gazelle's library.
pub mod Admitted
use rules_typescript.Base.{
  Bool, true, false, not, ◌&&◌, ◌||◌, Option, none, some, List, [], ◌∷◌, ◌++◌, if◌then◌else◌, ◌≡◌,
  refl, arith,
}
use rules_typescript.Base.Text.{Text, codes, text_eq, has_prefix}
use rules_typescript.Emission.{Label}
use rules_typescript.Emission.Targets.{label_identity}

-- gazelle/proto.go
unfoldable pub within : Text → Text → Bool
unfolding has_prefix
within dir root = text_eq dir root || text_eq root [] || has_prefix dir (root ++ (codes "/"))

abbrev equal_flags : Bool → Bool → Bool
equal_flags a b = if a then b else not b

-- The same repository, spelled the same way.
unfoldable pub same_repo : Label → Label → Bool
same_repo a b = text_eq a.repo b.repo && equal_flags a.canonical b.canonical

-- One case of the switch: whether the grant lets the consumer in. A package_group's members are
-- Bazel's to know, so any other label does.
unfoldable pub grants : Label → Label → Bool
unfolding same_repo within
grants consumer grant =
    if text_eq grant.pkg (codes "visibility") && text_eq grant.name (codes "public")
    then true
    else if text_eq grant.pkg (codes "visibility") && text_eq grant.name (codes "private")
    then false
    else if text_eq grant.name (codes "__pkg__")
    then same_repo grant consumer && text_eq grant.pkg consumer.pkg
    else if text_eq grant.name (codes "__subpackages__")
    then same_repo grant consumer && within consumer.pkg grant.pkg
    else true

module _ (parse_label : Text → Option Label) (abs : Label → Text → Text → Label)
    (print_label : Label → Text) where
  abbrev pub identity_of : Label → Label → Label
  identity_of owner l = label_identity parse_label abs print_label l owner.repo owner.pkg

  -- A label that does not parse lets every consumer in.
  unfoldable pub entry_grants : Label → Label → Option Label → Bool
  unfolding grants label_identity
  entry_grants owner consumer none = true
  entry_grants owner consumer (some grant) = grants consumer (identity_of owner grant)

  unfoldable pub denies_loop : Label → Label → List Text → Bool
  unfolding entry_grants
  denies_loop owner consumer [] = true
  denies_loop owner consumer (text ∷ texts) =
      let rest = denies_loop owner consumer texts in
      if entry_grants owner consumer (parse_label text) then false else rest

  unfoldable pub scope_visibility_denies : List Text → Label → Label → Bool
  unfolding denies_loop same_repo label_identity
  scope_visibility_denies visibility owner consumer =
      let c = identity_of owner consumer in
      if same_repo owner c && text_eq owner.pkg c.pkg then false else denies_loop owner c visibility
