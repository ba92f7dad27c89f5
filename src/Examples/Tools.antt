-- ===== src/Examples/Tools.antt =====
-- Labels, rules and the tools at concrete inputs.
use rules_typescript.Base.{
  ℕ, true, false, Option, none, some, List, [], ◌∷◌, ◌++◌, if◌then◌else◌, any, all, ◌↔◌, ◌≡◌, ◌≢◌,
  refl, In, here, there, Bool-cases, inl, inr,
}
use rules_typescript.Base.Text.{Text, codes, text_eq, text_eq_iff}
use rules_typescript.Changelog.{Fragment, parsed, unix_lines, is_newline, parse_fragment}
use rules_typescript.Base.Text.Laws.{last_kept}
use rules_typescript.Changelog.Splice.{splice, is_release, IsFirstRelease, splice_lem}
use rules_typescript.Changelog.Entries.{IsEntry, parse_fragment-IsEntry}
use rules_typescript.Lcov.{split_records}
use rules_typescript.Lcov.Records.{join-split_records}
use rules_typescript.Labels.{src_label}
use rules_typescript.Labels.Sources.{Answers, src_label-Answers}
use rules_typescript.Emission.{
  Label, Rule, BuildFile, EmissionGraph, registered_rules, record_registered,
}
use rules_typescript.Emission.Targets.{out_of_fuel, rule_target}
use rules_typescript.Emission.Versions.{
  Edit, edited_by, store, touched, IsCurrent, registered_rules-IsCurrent,
}
use rules_typescript.Emission.Aliases.{rule_target_ends}
use rules_typescript.Base.Text.{split, join, trim_suffix, has_prefix, cut_prefix}

abbrev changelog_text : Text
changelog_text = codes "# Changelog\n\n## [0.2.0]\n\n### Added\n"

has_release : any is_release (split changelog_text b'\n') ≡ true
unfolding split has_prefix cut_prefix
has_release = refl

splice_lem_example :
    (head : List Text) × (tail : List Text) × (above : Text) × (ending : Text) × (join
        (head ++ tail)
        b'\n'
      ≡ changelog_text)
    × IsFirstRelease (split changelog_text b'\n') head tail
    × (join head b'\n' ≡ above ++ ending)
    × (all is_newline ending ≡ true)
    × (last_kept is_newline above ≡ true)
    × (splice changelog_text (codes "## [0.3.0]\n")
        ≡ some (above ++ (codes "\n\n" ++ (codes "## [0.3.0]\n" ++ (b'\n' ∷ join tail b'\n')))))
splice_lem_example = splice_lem changelog_text (codes "## [0.3.0]\n") has_release

abbrev fragment_text : Text
fragment_text = codes "\n### Fixed\n\n- One.\n```\n### in a block\n```\n"

abbrev fixed_fragment : Fragment
fixed_fragment = record {
  name = codes "a.md";
  section = codes "Fixed";
  body = codes "- One.\n```\n### in a block\n```";
}

fragment_read : parse_fragment (codes "a.md") fragment_text ≡ parsed fixed_fragment
unfolding parse_fragment
fragment_read = refl

parse_fragment-IsEntry_example :
    (parse_fragment (codes "a.md") fragment_text ≡ parsed fixed_fragment)
    ↔ IsEntry (codes "a.md") (split (unix_lines fragment_text) b'\n') fixed_fragment
parse_fragment-IsEntry_example = parse_fragment-IsEntry (codes "a.md") fragment_text fixed_fragment

join-split_records_example :
    join (split_records (codes "SF:a.js\nend_of_record\nSF:b.js\n")) b'\n'
    ≡ codes "SF:a.js\nend_of_record\nSF:b.js"
unfolding trim_suffix
join-split_records_example = join-split_records (codes "SF:a.js\nend_of_record\nSF:b.js\n")

pinned_label : src_label (codes "@{$username}.tsx") ≡ some (codes ":@{$username}.tsx")
unfolding src_label
pinned_label = refl

src_label-Answers_example :
    Answers (codes "@{$username}.tsx") (src_label (codes "@{$username}.tsx"))
src_label-Answers_example = src_label-Answers (codes "@{$username}.tsx")

-- Two aliases that refer to each other, in labels that are printed as they are read.
abbrev read_label : Text → Option Label
read_label t = some (record { repo = []; pkg = []; name = t; canonical = false })

abbrev as_read : Label → Text → Text → Label
as_read l repo pkg = l

abbrev print_name : Label → Text
print_name l = l.name

abbrev alias_to : ℕ → Text → Rule
alias_to id actual = record {
  id = id;
  kind = codes "alias";
  actual = actual;
  has_out = false;
  has_outs = false;
  has_out_dir = false;
}

abbrev two_aliases : Text → Option Rule
two_aliases k =
    if text_eq k (codes "a")
    then some (alias_to 1 (codes "b"))
    else if text_eq k (codes "b")
    then some (alias_to 2 (codes "a"))
    else none

two_aliases-In : (k : Text) (r : Rule) → two_aliases k ≡ some r → In k (codes "a" ∷ codes "b" ∷ [])
two_aliases-In k r h = elim (Bool-cases (text_eq k (codes "a"))) [
  | inl a ↦ here ((text_eq_iff k (codes "a")).0 a)
  | inr a ↦ elim (Bool-cases (text_eq k (codes "b"))) [
    | inl b ↦ there (here ((text_eq_iff k (codes "b")).0 b))
    | inr b ↦ let q : none ≡ some r = rw (a, b) at h in absurd (cc)
  ]
]

rule_target_ends_example :
    rule_target read_label as_read print_name two_aliases (codes "repo") 3 (codes "a") ≢ out_of_fuel
rule_target_ends_example =
    rule_target_ends read_label as_read print_name two_aliases (codes "a" ∷ codes "b" ∷ [])
      two_aliases-In (codes "repo") (codes "a")

-- An empty graph; every key is in the package that it spells.
abbrev no_rules : EmissionGraph
no_rules = record {
  rules = [];
  versions = [];
  epoch = 0;
  files = [];
  registered = [];
  list_epoch = 0;
  outputs_generation = 0;
  rules_generation = 0;
  crawled = none;
  crawled_pkgs = [];
  last_touched = [];
}

abbrev own_package : Text → Option Label
own_package t = some (record { repo = []; pkg = t; name = t; canonical = false })

abbrev some_file : BuildFile
some_file = record { id = 7; rules = 1 ∷ [] }

abbrev other_edits : List Edit
other_edits = store (codes "other") (alias_to 3 []) ∷ touched (codes "web") ∷ []

web_registered :
    (registered_rules
      (codes "web")
      some_file
      (edited_by own_package other_edits (record_registered (codes "web") some_file no_rules))).0
    ≡ true
unfolding registered_rules edited_by record_registered
web_registered = refl

registered_rules-IsCurrent_example :
    IsCurrent own_package (codes "web") other_edits some_file some_file
registered_rules-IsCurrent_example =
    registered_rules-IsCurrent own_package (codes "web") other_edits some_file some_file no_rules
      web_registered
