-- ===== src/Emission/Targets.antt =====
-- gazelle/emission.go: the labels of the graph's rules, and the aliases that lead to a target.
-- Labels are parsed, made absolute and printed by Gazelle's library.
use rules_typescript.Base.{
  ℕ, zero, suc, Bool, false, not, ◌&&◌, ◌||◌, Option, none, some, [], ◌∷◌, if◌then◌else◌,
}
use rules_typescript.Base.Text.{Text, codes, text_eq}
use rules_typescript.Base.Map.{NameSet, member}
use rules_typescript.Emission.{Label, Rule}

-- A target that was found, if any: its key and its rule.
pub data Target : Type 0 where
  target : Text → Option Rule → Target
  no_target out_of_fuel : Target

abbrev pub is_alias : Rule → Bool
is_alias r = text_eq r.kind (codes "alias")

module _ (parse_label : Text → Option Label) where
  -- `lbl.Abs` is Gazelle's, and so is `String`.
  module _ (abs : Label → Text → Text → Label) (print_label : Label → Text) where
    unfoldable pub label_identity : Label → Text → Text → Label
    label_identity lbl repo pkg =
        let l = abs lbl repo pkg in
        if text_eq l.repo [] || text_eq l.repo (codes "@")
        then record l { repo = repo; canonical = false }
        else l

    unfoldable pub resolve_emission_label : Text → Text → Text → Text
    unfolding label_identity
    resolve_emission_label repo pkg name = elim (parse_label name) [
      | none ↦ []
      | some parsed ↦
          let l = label_identity parsed repo pkg in
          print_label (if not l.canonical && text_eq l.repo repo then record l { repo = [] } else l)
    ]

    -- The cache gives what was computed.
    unfoldable pub emission_label : Text → Text → Text → Text
    unfolding resolve_emission_label
    emission_label repo pkg name =
        if text_eq name [] then [] else resolve_emission_label repo pkg name

    -- Where an alias leads; "" when its own label does not parse, which ends the loop.
    unfoldable pub alias_target : Text → Option Label → Rule → Text
    unfolding emission_label
    alias_target repo none r = []
    alias_target repo (some own) r = emission_label repo own.pkg r.actual

    -- `semantic_rule` is `semanticRule`, whose kind is the canonical one.
    module _ (semantic_rule : Text → Option Rule) where
      -- One round of the loop, by the rule of the key; `rec` goes on at the next key.
      unfoldable pub alias_step : (Text → Target) → Text → Text → Option Rule → Target
      unfolding alias_target
      alias_step rec repo key none = target key none
      alias_step rec repo key (some r) =
          if is_alias r then rec (alias_target repo (parse_label key) r) else target key (some r)

      unfoldable pub target_loop : Text → ℕ → NameSet → Text → Target
      unfolding alias_step member
      target_loop repo zero seen key = out_of_fuel
      target_loop repo (suc fuel) seen key =
          let rec = target_loop repo fuel (key ∷ seen) in
          if text_eq key [] || member key seen
          then no_target
          else alias_step rec repo key (semantic_rule key)

      unfoldable pub rule_target : Text → ℕ → Text → Target
      unfolding target_loop
      rule_target repo fuel key = target_loop repo fuel [] key
