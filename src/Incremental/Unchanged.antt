-- ===== src/Incremental/Unchanged.antt =====
-- What `Unchanged` and `Changed` say of two sets of entries.
use rules_typescript.Base.{
  true, false, Option-cases, false≢true, some, List, [], ◌∷◌, ◌==◌, if◌then◌else◌, length,
  Bool-cases, ==_iff, ◌≡◌, ◌⊎◌, inl, inr, refl, sym, ◌∙◌, ap, subst, arith, In, here, there,
}
use rules_typescript.Base.Text.{Text, text_eq, text_eq_iff}
use rules_typescript.Base.Map.{Map, lookup, keys, member}
use rules_typescript.Base.Unseen.{IsDistinct, pigeonhole}
use rules_typescript.Incremental.{Record, same_signature, same_entry, unchanged_loop, unchanged}

length-keys : (m : Map Text) → length (keys m) ≡ length m
unfolding keys
length-keys [] = refl
length-keys ((k, v) ∷ m) = omega (arith, length-keys m)

lookup-In : (k : Text) (m : Map Text) {v : Text} → lookup k m ≡ some v → In k (keys m)
unfolding lookup keys
lookup-In k [] h = cc
lookup-In k ((j, w) ∷ m) {v} h = elim (Bool-cases (text_eq j k)) [
  | inl t ↦ here (sym ((text_eq_iff j k).0 t))
  | inr n ↦ there (lookup-In k m (rw n at h))
]

first-In : {x : Text} {xs : List Text} (k : Text) → text_eq k x ≡ false → In x (k ∷ xs) → In x xs
first-In k n (here e) = absurd (false≢true (sym n ∙ (text_eq_iff k _).1 (sym e)))
first-In k n (there m) = m

In-lookup :
    (rel : Text) (now : Map Text) → In rel (keys now) → (line : Text) × (lookup rel now ≡ some line)
unfolding lookup keys
In-lookup rel [] m = elim m [ ]
In-lookup rel ((k, v) ∷ now) m = elim (Bool-cases (text_eq k rel)) [
  | inl q ↦ (v, rw q)
  | inr n ↦ rw n (In-lookup rel now (first-In k n m))
]

module _ (sign_file : Text → Text) (r : Record) where
  -- A path that both runs have, with its line or its signature kept.
  pub record IsKept (now : Map Text) (rel : Text) : Type 0 where
    pub line : Text
    pub was : Text
    pub there_now : lookup rel now ≡ some line
    pub recorded : lookup rel r.entries ≡ some was
    pub same : (was ≡ line) ⊎ (lookup rel r.signatures ≡ some (sign_file rel))

  loop-entry :
      (now : Map Text) (rel line : Text)
      → unchanged_loop sign_file r now ≡ true
      → lookup rel now ≡ some line
      → same_entry sign_file r rel line ≡ true
  unfolding unchanged_loop lookup
  loop-entry [] rel line h e = absurd (cc)
  loop-entry ((k, v) ∷ now) rel line h e = elim (Bool-cases (same_entry sign_file r k v)) [
    | inr n ↦ absurd (false≢true (rw n at h))
    | inl t ↦ elim (Bool-cases (text_eq k rel)) [
      | inr n ↦ loop-entry now rel line (rw t at h) (rw n at e)
      | inl q ↦
          let same : some v ≡ some line = rw q at e in
          let there_v : v ≡ line = cc in
          subst (λ z. same_entry sign_file r rel z ≡ true) there_v
            (subst (λ z. same_entry sign_file r z v ≡ true) ((text_eq_iff k rel).0 q) t)
    ]
  ]

  entry-IsKept :
      (now : Map Text) (rel line : Text)
      → lookup rel now ≡ some line
      → same_entry sign_file r rel line ≡ true
      → IsKept now rel
  unfolding same_entry same_signature
  entry-IsKept now rel line e h = elim (Option-cases (lookup rel r.entries)) [
    | inl n ↦ absurd (false≢true (rw (n, same_entry) at h))
    | inr (was, recorded) ↦
        let said : (if text_eq was line then true else same_signature sign_file r rel) ≡ true =
          rw (recorded, same_entry) at h in
        elim (Bool-cases (text_eq was line)) [
          | inl q ↦ record {
            line = line;
            was = was;
            there_now = e;
            recorded = recorded;
            same = inl ((text_eq_iff was line).0 q);
          }
          | inr n ↦ elim (Option-cases (lookup rel r.signatures)) [
            | inl none_there ↦ absurd (false≢true (rw (n, none_there, same_signature) at said))
            | inr (sig, signed) ↦
                let now_same : text_eq (sign_file rel) sig ≡ true =
                  rw (n, signed, same_signature) at said in
                record {
                  line = line;
                  was = was;
                  there_now = e;
                  recorded = recorded;
                  same =
                      inr (signed ∙ ap some (sym ((text_eq_iff (sign_file rel) sig).0 now_same)));
                }
          ]
        ]
  ]

  all-IsKept :
      (now : Map Text)
      → unchanged_loop sign_file r now ≡ true
      → (rel : Text) → In rel (keys now)
      → IsKept now rel
  all-IsKept now h rel m =
      let found = In-lookup rel now m in
      entry-IsKept now rel found.0 found.1 (loop-entry now rel found.0 h found.1)

  -- When `Unchanged` lets a run be skipped, every path that is there now was there in the record
  -- with the same line or with the signature it has now, and no path of the record is gone: the
  -- two listings, each with distinct paths, name the same files.
  pub unchanged-IsKept :
      (now : Map Text)
      → IsDistinct (keys now)
      → unchanged sign_file (some r) now ≡ true
      → ((rel : Text) → In rel (keys now) → IsKept now rel)
        × ((rel : Text) → In rel (keys r.entries) → member rel (keys now) ≡ true)
  unfolding unchanged
  unchanged-IsKept now d h = elim (Bool-cases (length now == length r.entries)) [
    | inr n ↦ absurd (false≢true (rw n at h))
    | inl q ↦
        let looped : unchanged_loop sign_file r now ≡ true = rw q at h in
        let kept = all-IsKept now looped in
        (
          kept,
          pigeonhole (keys now) (keys r.entries) d
              (λ rel m. lookup-In rel r.entries (kept rel m).recorded)
              (length-keys now
                ∙ (==_iff (length now) (length r.entries)).0 q
                ∙ sym (length-keys r.entries)),
        )
  ]
