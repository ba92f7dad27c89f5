-- ===== src/TsConfig/Chain.antt =====
-- Resolving an extends chain ends, and reads only what was admitted.
use rules_typescript.Base.{
  ℕ, zero, suc, ◌+◌, ◌<◌, Bool, not, Option, none, some, List, [], ◌∷◌, if-elim, ◌≡◌, ◌≢◌, refl,
  arith, length, In,
}
use rules_typescript.Base.Text.{Text}
use rules_typescript.Base.Map.{NameSet, member}
use rules_typescript.Base.Unseen.{unseen, unseen-In, unseen-le-length}
use rules_typescript.Base.GoPath.{clean, dir}
use rules_typescript.TsConfig.{
  File, Resolved, blank, Outcome, resolved, failed, rejected, exhausted, extended, one_extends,
  resolve_extends, extends_loop, with_leaf, read_file, resolve,
}

-- The fuel did not run out.
abbrev Ended : Outcome → Type 0
Ended o = o ≢ exhausted

extended-Ended : (acc : Resolved) (o : Outcome) → Ended o → Ended (extended acc o)
unfolding extended
extended-Ended acc (resolved base) h e = cc
extended-Ended acc failed h e = cc
extended-Ended acc rejected h e = cc
extended-Ended acc exhausted h e = h e

one_extends-Ended :
    (rec : Text → Outcome) (acc : Resolved) (o : Option Text)
    → ((base : Text) → Ended (rec base))
    → Ended (one_extends rec acc o)
unfolding one_extends
one_extends-Ended rec acc none h = λ e. cc
one_extends-Ended rec acc (some base) h = extended-Ended acc (rec base) (h base)

extends_loop-Ended :
    (rec : Text → Outcome) (directory : Text) (specs : List Text) (acc : Outcome)
    → ((base : Text) → Ended (rec base))
    → Ended acc
    → Ended (extends_loop rec directory specs acc)
unfolding extends_loop
extends_loop-Ended rec d [] acc h k = k
extends_loop-Ended rec d (spec ∷ specs) (resolved acc) h k =
    extends_loop-Ended rec d specs (one_extends rec acc (resolve_extends d spec)) h
      (one_extends-Ended rec acc (resolve_extends d spec) h)
extends_loop-Ended rec d (spec ∷ specs) failed h k = k
extends_loop-Ended rec d (spec ∷ specs) rejected h k = k
extends_loop-Ended rec d (spec ∷ specs) exhausted h k = k

with_leaf-Ended : (f : File) (path : Text) (o : Outcome) → Ended o → Ended (with_leaf f path o)
unfolding with_leaf
with_leaf-Ended f path (resolved r) h e = cc
with_leaf-Ended f path failed h e = cc
with_leaf-Ended f path rejected h e = cc
with_leaf-Ended f path exhausted h e = h e

module _ (read : Text → Option File) (admit : Text → Bool) where
  read_file-Ended :
      (rec : Text → Outcome) (path : Text) (o : Option File)
      → ((base : Text) → (f : File) → o ≡ some f → Ended (rec base))
      → Ended (read_file read admit rec path o)
  unfolding read_file
  read_file-Ended rec path none h = λ e. cc
  read_file-Ended rec path (some f) h = with_leaf-Ended f path _ (
      extends_loop-Ended rec (dir path) f.extends (resolved (blank f.extends))
        (λ base. h base f refl) (λ e. cc))

  -- The ancestors are files of the disk, each of them once: a chain is no longer than the disk.
  resolve-Ended :
      (disk : List Text)
      → ((p : Text) (f : File) → read p ≡ some f → In p disk)
      → (fuel : ℕ) (ancestors : NameSet) (path : Text) → unseen disk ancestors < fuel
      → Ended (resolve read admit fuel ancestors path)
  unfolding resolve
  resolve-Ended disk on_disk zero ancestors path h = absurd (omega arith)
  resolve-Ended disk on_disk (suc fuel) ancestors path h =
      let p = clean path in
      if-elim Ended (member p ancestors) failed _ (λ e q. cc)
        (λ new.
          if-elim Ended (not (admit p)) rejected _ (λ e q. cc)
            (λ e. read_file-Ended (resolve read admit fuel (p ∷ ancestors)) p (read p) (λ base f r.
              resolve-Ended disk on_disk fuel (p ∷ ancestors) base
                (omega (arith, unseen-In ancestors (on_disk p f r) new)))))

  -- Resolving ends, on any disk: however the files extend one another, one round for each file and
  -- one more are enough, and the result is a resolved chain, an error, or a rejection.
  pub resolve_ends :
      (disk : List Text)
      → ((p : Text) (f : File) → read p ≡ some f → In p disk)
      → (path : Text) → resolve read admit (length disk + 1) [] path ≢ exhausted
  resolve_ends disk on_disk path =
      resolve-Ended disk on_disk (length disk + 1) [] path (omega (arith, unseen-le-length disk []))
