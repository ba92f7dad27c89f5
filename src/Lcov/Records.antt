-- ===== src/Lcov/Records.antt =====
-- `splitRecords` cuts a file without losing a byte of it.
use rules_typescript.Base.{
  List, [], ◌∷◌, ◌++◌, ◌≡◌, refl, sym, ap, ◌∙◌, append_assoc, append-nil, Bool-cases, inl, inr,
}
use rules_typescript.Base.Text.{Text, codes, text_eq, split, join, trim_suffix}
use rules_typescript.Base.Text.Laws.{join-split}
use rules_typescript.Lcov.{end_of_record, records_loop, split_records}

-- Joining is not sensitive to how the lines are grouped.
join-group :
    (ls : List Text) (line : Text) (rest : List Text)
    → join (join (ls ++ line ∷ []) b'\n' ∷ rest) b'\n' ≡ join (ls ++ line ∷ rest) b'\n'
unfolding join
join-group [] line [] = refl
join-group [] line (r ∷ rest) = refl
join-group (l ∷ []) line [] = refl
join-group (l ∷ []) line (r ∷ rest) = append_assoc l (b'\n' ∷ line) (b'\n' ∷ join (r ∷ rest) b'\n')
join-group (l ∷ m ∷ ls) line [] = refl
join-group (l ∷ m ∷ ls) line (r ∷ rest) =
    append_assoc l (b'\n' ∷ join (m ∷ (ls ++ line ∷ [])) b'\n') (b'\n' ∷ join (r ∷ rest) b'\n')
    ∙ ap (λ s. l ++ (b'\n' ∷ s)) (join-group (m ∷ ls) line (r ∷ rest))

-- What is joined from the second element on.
join-tail :
    (w a b : Text) (ws vs : List Text)
    → join (a ∷ ws) b'\n' ≡ join (b ∷ vs) b'\n'
    → join (w ∷ a ∷ ws) b'\n' ≡ join (w ∷ b ∷ vs) b'\n'
unfolding join
join-tail w a b ws vs e = ap (λ s. w ++ (b'\n' ∷ s)) e

-- Some record.
record IsNonempty (rs : List Text) : Type 0 where
  first : Text
  rest : List Text
  shape : rs ≡ first ∷ rest

records_loop_last : (ls : List Text) (line : Text) → IsNonempty (records_loop (ls ++ line ∷ []) [])
unfolding records_loop
records_loop_last [] line = record { first = _; rest = _; shape = refl }
records_loop_last (l ∷ ls) line = record { first = _; rest = _; shape = refl }

-- A line that is read makes a record.
records_loop-IsNonempty :
    (lines ls : List Text) (line : Text) → IsNonempty (records_loop ls (line ∷ lines))
unfolding records_loop
records_loop-IsNonempty [] ls line = elim (Bool-cases (text_eq line end_of_record)) [
  | inl t ↦ rw t (record { first = join (ls ++ line ∷ []) b'\n'; rest = []; shape = refl })
  | inr n ↦ rw n (records_loop_last ls line)
]
records_loop-IsNonempty (next ∷ lines) ls line = elim (Bool-cases (text_eq line end_of_record)) [
  | inl t ↦ rw t (record {
    first = join (ls ++ line ∷ []) b'\n';
    rest = records_loop [] (next ∷ lines);
    shape = refl;
  })
  | inr n ↦ rw n (records_loop-IsNonempty lines (ls ++ line ∷ []) next)
]

join-ended :
    (ls lines : List Text) (line : Text)
    → join (records_loop [] lines) b'\n' ≡ join lines b'\n'
    → join (join (ls ++ line ∷ []) b'\n' ∷ records_loop [] lines) b'\n'
      ≡ join (ls ++ line ∷ lines) b'\n'
join-ended ls [] line h = unfold records_loop in join-group ls line []
join-ended ls (next ∷ lines) line h =
    let n = records_loop-IsNonempty lines [] next in
    let joined = join (ls ++ line ∷ []) b'\n' in
    ap (λ rs. join (joined ∷ rs) b'\n') n.shape
    ∙ join-tail joined n.first next n.rest lines (ap (λ rs. join rs b'\n') (sym n.shape) ∙ h)
    ∙ join-group ls line (next ∷ lines)

join-records_loop :
    (ls lines : List Text) → join (records_loop ls lines) b'\n' ≡ join (ls ++ lines) b'\n'
unfolding records_loop
join-records_loop [] [] = refl
join-records_loop (l ∷ ls) [] = ap (λ s. join s b'\n') (sym (append-nil (l ∷ ls)))
join-records_loop ls (line ∷ lines) =
    let after_end = join-records_loop [] lines in
    let further = join-records_loop (ls ++ line ∷ []) lines in
    elim (Bool-cases (text_eq line end_of_record)) [
      | inl t ↦ rw t (join-ended ls lines line after_end)
      | inr n ↦ rw n (further ∙ ap (λ s. join s b'\n') (append_assoc ls (line ∷ []) lines))
    ]

-- Joined by newlines, the records that an lcov file is cut into are the file, but for the newline
-- that ends it.
pub join-split_records :
    (text : Text) → join (split_records text) b'\n' ≡ trim_suffix text (codes "\n")
unfolding split_records
join-split_records text =
    join-records_loop [] (split (trim_suffix text (codes "\n")) b'\n')
    ∙ join-split b'\n' (trim_suffix text (codes "\n"))
