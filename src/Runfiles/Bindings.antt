-- ===== src/Runfiles/Bindings.antt =====
-- Resolving bindings fails exactly when an index is out of range.
use rules_typescript.Base.{
  ℕ, zero, suc, Bool, true, false, ◌&&◌, Option, none, some, List, [], ◌∷◌, ltb, all, length, ◌≡◌,
  refl, ◌∙◌, arith,
}
use rules_typescript.Base.Int.{ℤ, pos, negsuc}
use rules_typescript.Base.Text.{Text}
use rules_typescript.Base.Map.{Map}
use rules_typescript.Runfiles.{
  PackageScope, NpmContext, nth, pick, with_bindings, in_scope, resolve_scope, resolve_bindings,
  and_resolved, resolve_npm_bindings,
}

abbrev pub is_answer {ℓ} : {A : Type ℓ} → Option A → Bool
is_answer none = false
is_answer (some a) = true

-- An index of a set, or none.
abbrev pub in_range : ℕ → Option ℤ → Bool
in_range n none = true
in_range n (some (negsuc i)) = false
in_range n (some (pos i)) = ltb i n

abbrev pub scope_in_range : ℕ → Option PackageScope → Bool
scope_in_range n none = true
scope_in_range n (some scope) = in_range n scope.bindings_set

abbrev pub context_in_range : ℕ → NpmContext → Bool
context_in_range n context =
    in_range n context.bindings_set && scope_in_range n context.package_scope

nth-length {ℓ} : {A : Type ℓ} (i : ℕ) (xs : List A) → is_answer (nth i xs) ≡ ltb i (length xs)
nth-length i [] = ground arith
nth-length zero (x ∷ xs) = ground arith
nth-length (suc i) (x ∷ xs) = nth-length i xs ∙ ground arith

pick-in_range :
    (o : Option ℤ) (sets : List (Map Text)) (b : Map Text)
    → is_answer (pick o sets b) ≡ in_range (length sets) o
pick-in_range none sets b = refl
pick-in_range (some (negsuc i)) sets b = refl
pick-in_range (some (pos i)) sets b = nth-length i sets

with_bindings-answer :
    (scope : PackageScope) (o : Option (Map Text)) (context : NpmContext)
    → is_answer (in_scope context (with_bindings scope o)) ≡ is_answer o
with_bindings-answer scope none context = refl
with_bindings-answer scope (some b) context = refl

resolve_scope-in_range :
    (sets : List (Map Text)) (o : Option PackageScope) (context : NpmContext)
    → is_answer (resolve_scope sets o context) ≡ scope_in_range (length sets) o
resolve_scope-in_range sets none context = refl
resolve_scope-in_range sets (some scope) context =
    with_bindings-answer scope (pick scope.bindings_set sets scope.bindings) context
    ∙ pick-in_range scope.bindings_set sets scope.bindings

resolve_bindings-in_range :
    (sets : List (Map Text)) (context : NpmContext) (o : Option (Map Text))
    → is_answer (resolve_bindings sets context o)
      ≡ (is_answer o && scope_in_range (length sets) context.package_scope)
resolve_bindings-in_range sets context none = refl
resolve_bindings-in_range sets context (some b) =
    resolve_scope-in_range sets context.package_scope (record context { bindings = b })

and_resolved-answer :
    (o : Option NpmContext) (rest : Option (List NpmContext))
    → is_answer (and_resolved o rest) ≡ (is_answer o && is_answer rest)
and_resolved-answer none rest = refl
and_resolved-answer (some c) none = refl
and_resolved-answer (some c) (some cs) = refl

-- Resolving the bindings of contexts succeeds exactly when each index of a set, of a context and of
-- its package scope, is at least 0 and less than the number of the sets.
pub resolve_npm_bindings-in_range :
    (contexts : List NpmContext) (sets : List (Map Text))
    → is_answer (resolve_npm_bindings contexts sets) ≡ all (context_in_range (length sets)) contexts
unfolding resolve_npm_bindings
resolve_npm_bindings-in_range [] sets = refl
resolve_npm_bindings-in_range (context ∷ contexts) sets =
    let own =
      resolve_bindings-in_range sets context (pick context.bindings_set sets context.bindings) in
    let picked = pick-in_range context.bindings_set sets context.bindings in
    let rest = resolve_npm_bindings-in_range contexts sets in
    and_resolved-answer
      (resolve_bindings sets context (pick context.bindings_set sets context.bindings))
      (resolve_npm_bindings contexts sets)
    ∙ cc (own, picked, rest)
