-- ===== src/Patch/Closed.antt =====
-- A patched listing holds the files that it reaches.
use rules_typescript.Base.{
  Bool, true, not, ◌||◌, some, List, [], ◌∷◌, Bool-cases, all, all-In, inl, inr, ◌≡◌, ◌↔◌, refl,
  sym, ap, ◌∙◌, arith, In, here, there, In-append, In-append_left, In-append_right,
}
use rules_typescript.Base.Text.{Text, codes, has_prefix}
use rules_typescript.Base.Map.{NameSet, member, member-add_name}
use rules_typescript.Base.Delete.{delete_func, delete_func-In, In-delete_func}
use rules_typescript.Base.Unseen.{member_iff}
use rules_typescript.ExplainFiles.{Listing}
use rules_typescript.Files.{embedded_libs}
use rules_typescript.Patch.{Listed, graph}
use rules_typescript.Patch.Outcomes.{Holds, holds, refusal}
use rules_typescript.Patch.Refresh.{file_set, settle, keep_reached}
use rules_typescript.Program.{Program, default_libs, entry_files, type_files}
use rules_typescript.Program.Reach.{Reaches, entry, edge}
use rules_typescript.Program.Rounds.{reachable_total}

abbrev is_lib : Text → Bool
is_lib f = has_prefix f embedded_libs || has_prefix f (codes "../")

default_libs-In :
    {f : Text} (fs : List Text) → In f (default_libs fs) → (In f fs) × (is_lib f ≡ true)
unfolding default_libs
default_libs-In [] m = elim m [ ]
default_libs-In {f} (g ∷ fs) m = elim (Bool-cases (is_lib g)) [
  | inl e ↦ head_or_later g fs e (default_libs-In fs) (rw e at m)
  | inr e ↦ let (i, l) = default_libs-In fs (rw e at m) in (there i, l)
]
  where
    head_or_later :
        {h : Text} (g : Text) (fs : List Text)
        → is_lib g ≡ true
        → (In h (default_libs fs) → (In h fs) × (is_lib h ≡ true))
        → In h (g ∷ default_libs fs)
        → (In h (g ∷ fs)) × (is_lib h ≡ true)
    head_or_later g fs e rec (here q) = (here q, ap is_lib q ∙ e)
    head_or_later g fs e rec (there i) = (there (rec i).0, (rec i).1)

In-default_libs : {f : Text} {fs : List Text} → In f fs → is_lib f ≡ true → In f (default_libs fs)
unfolding default_libs
In-default_libs (here {x} {xs} e) l = rw (sym (ap is_lib e) ∙ l) (here e)
In-default_libs (there {x} {xs} m) l = elim (Bool-cases (is_lib x)) [
  | inl e ↦ rw e (there (In-default_libs m l))
  | inr e ↦ rw e (In-default_libs m l)
]

-- A listing with other files.
abbrev holding : Listing → List Text → Program
holding l fs = graph (record l { files = fs })

entry_files-mono :
    {f : Text} (l : Listing) (fs gs : List Text)
    → (In f (default_libs fs) → In f (default_libs gs))
    → In f (entry_files (holding l fs))
    → In f (entry_files (holding l gs))
unfolding entry_files
entry_files-mono l fs gs h m = elim (In-append l.roots m) [
  | inl r ↦ In-append_left _ r
  | inr m1 ↦ In-append_right l.roots (elim (In-append (type_files l.types) m1) [
    | inl t ↦ In-append_left _ t
    | inr m2 ↦ In-append_right (type_files l.types) (elim (In-append (type_files l.implicit) m2) [
      | inl t ↦ In-append_left _ t
      | inr d ↦ In-append_right (type_files l.implicit) (h d)
    ])
  ])
]

Reaches-holding :
    (l : Listing) (fs gs : List Text) {f : Text}
    → ((g : Text) → Reaches (holding l fs) g → In g (default_libs fs) → In g (default_libs gs))
    → Reaches (holding l fs) f
    → Reaches (holding l gs) f
Reaches-holding l fs gs h (entry {f} i ne) =
    entry (entry_files-mono l fs gs (h f (entry i ne)) i) ne
Reaches-holding l fs gs h (edge e r m ne) = edge e (Reaches-holding l fs gs h r) m ne

member-file_set : (f : Text) (fs : List Text) → member f (file_set fs) ≡ member f fs
unfolding file_set member
member-file_set f [] = refl
member-file_set f (g ∷ fs) =
    member-add_name g f (file_set fs) ∙ ground (arith, member-file_set f fs)

-- A program whose files are exactly those that it reaches.
abbrev pub IsClosed : Listing → Type 0
IsClosed l = (f : Text) → (member f l.files ≡ true) ↔ Reaches (graph l) f

-- The files that were found, where they are all among those that were listed.
module _ (l : Listing) (found : NameSet)
    (reaches : (f : Text) → (member f found ≡ true) ↔ Reaches (graph l) f) where
  abbrev left : List Text
  left = delete_func (λ f. not (member f found)) l.files

  left-In : {f : Text} → In f l.files → Reaches (graph l) f → In f left
  left-In {f} i r = In-delete_func _ i (rw ((reaches f).1 r))

  to_left : {f : Text} → Reaches (graph l) f → Reaches (holding l left) f
  to_left r =
      Reaches-holding l l.files left
        (λ g s i. let (j, e) = default_libs-In l.files i in In-default_libs (left-In j s) e) r

  from_left : {f : Text} → Reaches (holding l left) f → Reaches (graph l) f
  from_left r =
      Reaches-holding l left l.files
        (λ g s i.
          let (j, e) = default_libs-In left i in In-default_libs (delete_func-In _ l.files j) e)
        r

  left_was_found :
      (f : Text) (fs : List Text)
      → In f (delete_func (λ g. not (member g found)) fs)
      → member f found ≡ true
  unfolding delete_func
  left_was_found f [] m = elim m [ ]
  left_was_found f (g ∷ fs) m = elim (Bool-cases (member g found)) [
    | inl e ↦ first_or_rest g fs e (left_was_found f fs) (rw e at m)
    | inr e ↦ left_was_found f fs (rw e at m)
  ]
    where
      first_or_rest :
          {f : Text} (g : Text) (fs : List Text)
          → member g found ≡ true
          → (In f (delete_func (λ g. not (member g found)) fs) → member f found ≡ true)
          → In f (g ∷ delete_func (λ g. not (member g found)) fs)
          → member f found ≡ true
      first_or_rest g fs e rec (here q) = ap (λ h. member h found) q ∙ e
      first_or_rest g fs e rec (there i) = rec i

  left-IsClosed :
      all (λ f. member f (file_set l.files)) found ≡ true → IsClosed (record l { files = left })
  left-IsClosed h f = (
    λ m. to_left ((reaches f).0 (left_was_found f l.files ((member_iff f left).0 m))),
    λ r.
        let s = from_left r in
        let i = (member_iff f found).0 ((reaches f).1 s) in
        let j =
          (member_iff f l.files).0
            (sym (member-file_set f l.files) ∙ all-In (λ g. member g (file_set l.files)) i h) in
        (member_iff f left).1 (left-In j s),
  )

kept-IsClosed :
    (p : Listed) (found : NameSet)
    → ((f : Text) → (member f found ≡ true) ↔ Reaches (graph p.listing) f)
    → Holds (λ q. IsClosed q.listing) (keep_reached (file_set p.listing.files) p (some found))
kept-IsClosed p found reaches =
    elim (Bool-cases (all (λ f. member f (file_set p.listing.files)) found)) [
      | inl t ↦ rw t (holds (left-IsClosed p.listing found reaches t))
      | inr t ↦ rw t refusal
    ]

-- Settling a program over the files that it lists leaves it closed.
pub settle-IsClosed :
    (p : Listed) → Holds (λ q. IsClosed q.listing) (settle (file_set p.listing.files) p)
unfolding settle
settle-IsClosed p =
    let (found, r, reaches) = reachable_total (graph p.listing) in
    rw r (kept-IsClosed p found reaches)
