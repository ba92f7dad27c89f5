-- ===== src/Emission/Aliases.antt =====
-- Following aliases ends.
use rules_typescript.Base.{
  ℕ, zero, suc, ◌+◌, ◌<◌, ◌||◌, Option, none, some, List, [], ◌∷◌, if-elim, ||_false, ◌≡◌, ◌≢◌,
  refl, arith, In, length,
}
use rules_typescript.Base.Text.{Text, text_eq}
use rules_typescript.Base.Map.{NameSet, member}
use rules_typescript.Base.Unseen.{unseen, unseen-In, unseen-le-length}
use rules_typescript.Emission.{Label, Rule}
use rules_typescript.Emission.Targets.{
  Target, target, no_target, out_of_fuel, is_alias, alias_step, target_loop, rule_target,
}

module _ (parse_label : Text → Option Label) (abs : Label → Text → Text → Label)
    (print_label : Label → Text) (semantic_rule : Text → Option Rule) where
  record Ended (t : Target) : Type 0 where
    ended : t ≢ out_of_fuel

  alias_step-Ended :
      (rec : Text → Target) (repo key : Text) (o : Option Rule)
      → ((r : Rule) → o ≡ some r → (next : Text) → Ended (rec next))
      → Ended (alias_step parse_label abs print_label semantic_rule rec repo key o)
  unfolding alias_step
  alias_step-Ended rec repo key none h = record { ended = λ e. cc }
  alias_step-Ended rec repo key (some r) h =
      if-elim Ended (is_alias r) _ (target key (some r)) (λ a. h r refl _)
        (λ a. record { ended = λ e. cc })

  target_loop-Ended :
      (keys : List Text)
      → ((k : Text) (r : Rule) → semantic_rule k ≡ some r → In k keys)
      → (repo : Text) (fuel : ℕ) (seen : NameSet) (key : Text) → unseen keys seen < fuel
      → Ended (target_loop parse_label abs print_label semantic_rule repo fuel seen key)
  unfolding target_loop
  target_loop-Ended keys known repo zero seen key h = absurd (omega arith)
  target_loop-Ended keys known repo (suc fuel) seen key h =
      if-elim Ended (text_eq key [] || member key seen) no_target _
        (λ t. record { ended = λ e. cc })
        (λ f.
          alias_step-Ended
            (target_loop parse_label abs print_label semantic_rule repo fuel (key ∷ seen)) repo key
            (semantic_rule key)
            (λ r e next.
              target_loop-Ended keys known repo fuel (key ∷ seen) next
                (omega (arith, unseen-In seen (known key r e) (||_false _ _ f).1))))

  -- However aliases refer to one another, one round for each rule and one more are enough to find
  -- the target of a key or that it has none.
  pub rule_target_ends :
      (keys : List Text)
      → ((k : Text) (r : Rule) → semantic_rule k ≡ some r → In k keys)
      → (repo key : Text)
      → rule_target parse_label abs print_label semantic_rule repo (length keys + 1) key
        ≢ out_of_fuel
  unfolding rule_target
  rule_target_ends keys known repo key =
      (target_loop-Ended keys known repo (length keys + 1) [] key
        (omega (arith, unseen-le-length keys []))).ended
