-- ===== src/ExplainFiles/Absolute.antt =====
-- Imports in the traces of an accepted listing have absolute paths.
use rules_typescript.Base.{
  Bool, true, false, not, ◌&&◌, ◌||◌, Option, none, some, List, [], ◌∷◌, ◌++◌, if◌then◌else◌,
  if-elim, In, ◌≡◌, refl, sym, ◌∙◌, ap, subst, false≢true,
}
use rules_typescript.Base.Text.{Text, codes, text_eq, has_prefix, contains}
use rules_typescript.ExplainFiles.{
  EdgeKind, module_specifier, Unresolved, Resolution, ResolutionCandidate, Listing, Attempt,
}
use rules_typescript.ExplainFiles.Reasons.{
  Parsed, ok, malformed, panics, is_none, Reading, as_edge, as_type_entry, as_implicit, as_root,
  as_nothing, ReasonForm, admits, read_edge, read_form, read_found, reason_forms, read_reason,
}
use rules_typescript.ExplainFiles.Parse.{with_missing, with_listing, rest_of, on_line, parse}
use rules_typescript.ExplainFiles.Traces.{
  Frame, Grammar, Reader, is_import, same_kind, redirects, on_start, opened, settled, on_end,
  on_candidate, on_trace, probed, substituted, is_match,
}
use rules_typescript.ExplainFiles.Lines.{Holds, held, errs, breaks, snoc, parse-Holds_of}

-- What the traces of a listing say of imports.
pub record IsTraced (g : Grammar) (o : Option Attempt) (resolutions : List Resolution)
    (unresolved : List Unresolved) (candidates : List ResolutionCandidate) : Type 0 where
  pub opened_absolute :
      (a : Attempt)
      → o ≡ some a
      → is_import a.unresolved.kind ≡ true
      → g.is_abs a.unresolved.from ≡ true
  pub resolutions_absolute :
      (r : Resolution)
      → In r resolutions
      → is_import r.edge.kind ≡ true
      → g.is_abs r.edge.from ≡ true
  pub unresolved_absolute :
      (u : Unresolved) → In u unresolved → is_import u.kind ≡ true → g.is_abs u.from ≡ true
  pub candidates_absolute :
      (c : ResolutionCandidate)
      → In c candidates
      → is_import c.kind ≡ true
      → (g.is_abs c.from ≡ true) × (g.is_abs c.path ≡ true)

-- The imports that are resolved, missed or given a candidate are those of files with absolute
-- paths, and the candidates' paths are absolute.
abbrev pub IsAbsolute : Grammar → Listing → Type 0
IsAbsolute g l = IsTraced g none l.resolutions l.unresolved l.candidates

implied : (a b : Bool) → (a && not b) ≡ false → a ≡ true → b ≡ true
implied true true h e = refl
implied true false h e = absurd (false≢true (sym h))
implied false b h e = absurd (false≢true e)

record SameOrigin (a b : Attempt) : Type 0 where
  same_kinds : b.unresolved.kind ≡ a.unresolved.kind
  same_froms : b.unresolved.from ≡ a.unresolved.from

module _ (g : Grammar) where
  abbrev IsReading : Reader → Type 0
  IsReading s =
      IsTraced g s.resolution s.listing.resolutions s.listing.unresolved s.listing.candidates

  -- Another attempt, of the same import.
  with_attempt :
      (o o' : Option Attempt) (rs : List Resolution) (us : List Unresolved)
      (cs : List ResolutionCandidate)
      → ((a : Attempt)
          → o' ≡ some a
          → is_import a.unresolved.kind ≡ true
          → g.is_abs a.unresolved.from ≡ true)
      → IsTraced g o rs us cs
      → IsTraced g o' rs us cs
  with_attempt o o' rs us cs h w = record {
    opened_absolute = h;
    resolutions_absolute = w.resolutions_absolute;
    unresolved_absolute = w.unresolved_absolute;
    candidates_absolute = w.candidates_absolute;
  }

  of_same :
      (a b c : Attempt)
      → (is_import a.unresolved.kind ≡ true → g.is_abs a.unresolved.from ≡ true)
      → SameOrigin a b
      → some b ≡ some c
      → is_import c.unresolved.kind ≡ true
      → g.is_abs c.unresolved.from ≡ true
  of_same a b c h same e k =
      let q : b ≡ c = cc in
      let kind : c.unresolved.kind ≡ a.unresolved.kind =
        ap (λ x. x.unresolved.kind) (sym q) ∙ same.same_kinds in
      let from : c.unresolved.from ≡ a.unresolved.from =
        ap (λ x. x.unresolved.from) (sym q) ∙ same.same_froms in
      subst (λ f. g.is_abs f ≡ true) (sym from) (h (subst (λ x. is_import x ≡ true) kind k))

  on_start-Holds :
      (frame : Frame) (o : Option Attempt) (s : Reader)
      → IsReading s
      → Holds IsReading (on_start g frame o s)
  unfolding on_start
  on_start-Holds frame (some a) s w =
      if-elim (Holds IsReading) (redirects g (g.package_target s.previous) a frame) _ _
        (λ _. held w) (λ _. errs)
  on_start-Holds frame none s w =
      if-elim (Holds IsReading) (is_import frame.kind && not (g.is_abs frame.from)) _ _ (λ _. errs)
        (λ checked. held (
          with_attempt s.resolution _ _ _ _
            (λ c e.
              of_same (opened g frame) (opened g frame) c (implied _ _ checked)
                (record { same_kinds = refl; same_froms = refl }) e)
            w))

  settled-IsTraced :
      (b : Bool) (to : Text) (a : Attempt) (o : Option Attempt) (l : Listing)
      → (is_import a.unresolved.kind ≡ true → g.is_abs a.unresolved.from ≡ true)
      → IsTraced g o l.resolutions l.unresolved l.candidates
      → IsTraced g none
          (settled g b to a l).resolutions
          (settled g b to a l).unresolved
          (settled g b to a l).candidates
  settled-IsTraced true to a o l h w = record {
    opened_absolute = λ c e. absurd (cc);
    resolutions_absolute =
        snoc (λ (r : Resolution). is_import r.edge.kind ≡ true → g.is_abs r.edge.from ≡ true)
          l.resolutions _ w.resolutions_absolute h;
    unresolved_absolute = w.unresolved_absolute;
    candidates_absolute = w.candidates_absolute;
  }
  settled-IsTraced false to a o l h w = record {
    opened_absolute = λ c e. absurd (cc);
    resolutions_absolute = w.resolutions_absolute;
    unresolved_absolute =
        snoc (λ (u : Unresolved). is_import u.kind ≡ true → g.is_abs u.from ≡ true) l.unresolved _
          w.unresolved_absolute h;
    candidates_absolute = w.candidates_absolute;
  }

  on_end-Holds :
      (frame : Frame) (o : Option Attempt) (s : Reader)
      → s.resolution ≡ o
      → IsReading s
      → Holds IsReading (on_end g frame o s)
  unfolding on_end
  on_end-Holds frame none s e w = errs
  on_end-Holds frame (some a) s e w =
      if-elim (Holds IsReading)
        (not (same_kind frame.kind a.unresolved.kind)
          || not (text_eq frame.specifier a.unresolved.specifier))
        _ _ (λ _. errs)
        (λ _. held (
          settled-IsTraced frame.resolved frame.to a s.resolution s.listing (w.opened_absolute a e)
            w))

  on_candidate-Holds :
      (o : Option Attempt) (found : Option Text) (s : Reader)
      → s.resolution ≡ o
      → IsReading s
      → Holds IsReading (on_candidate g o found s)
  unfolding on_candidate
  on_candidate-Holds none found s e w = errs
  on_candidate-Holds (some a) none s e w = errs
  on_candidate-Holds (some a) (some path) s e w =
      if-elim (Holds IsReading) (is_import a.unresolved.kind && not (g.is_abs path)) _ _ (λ _. errs)
        (λ checked. held (record {
          opened_absolute = λ c f.
              of_same a (record a { candidate = path }) c (w.opened_absolute a e)
                (record { same_kinds = refl; same_froms = refl }) f;
          resolutions_absolute = w.resolutions_absolute;
          unresolved_absolute = w.unresolved_absolute;
          candidates_absolute =
              snoc
                (λ (c : ResolutionCandidate).
                  is_import c.kind ≡ true → (g.is_abs c.from ≡ true) × (g.is_abs c.path ≡ true))
                s.listing.candidates _ w.candidates_absolute
                (λ k. (w.opened_absolute a e k, implied _ _ checked k));
        }))

  probed-SameOrigin :
      (probe : Option Text) (a b : Attempt) → SameOrigin a b → SameOrigin a (probed g probe b)
  probed-SameOrigin none a b w = w
  probed-SameOrigin (some file) a b w = record {
    same_kinds = w.same_kinds;
    same_froms = w.same_froms;
  }

  substituted-SameOrigin :
      (o : Option (Text × Text)) (probe : Option Text) (a b : Attempt)
      → SameOrigin a b
      → SameOrigin a (substituted g o probe b)
  substituted-SameOrigin none probe a b w = probed-SameOrigin probe a b w
  substituted-SameOrigin (some (pattern, path)) probe a b w = record {
    same_kinds = w.same_kinds;
    same_froms = w.same_froms;
  }

  on_trace-SameOrigin : (line : Text) (a : Attempt) → SameOrigin a (on_trace g line a)
  unfolding on_trace
  on_trace-SameOrigin line a =
      let b =
        if has_prefix line (codes "Loading module '") then record a { candidate = [] } else a in
      let w =
        if-elim (SameOrigin a) (has_prefix line (codes "Loading module '"))
          (record a { candidate = [] }) a (λ _. record { same_kinds = refl; same_froms = refl })
          (λ _. record { same_kinds = refl; same_froms = refl }) in
      if-elim (SameOrigin a)
        (module_specifier b.unresolved.kind && is_match g (g.package_target line)) _ _
        (λ _. record { same_kinds = w.same_kinds; same_froms = w.same_froms })
        (λ _. substituted-SameOrigin (g.path_substitution line) (g.missing_file_probe line) a b w)

  module _ (o : Option Attempt) (l : Listing) where
    abbrev Traced : Listing → Type 0
    Traced m = IsTraced g o m.resolutions m.unresolved m.candidates

    read_edge-Holds :
        (b : Bool) (kind : EdgeKind) (file spec from : Text)
        → Traced l
        → Holds Traced (read_edge b kind file spec from l)
    read_edge-Holds false kind file spec from w = held w
    read_edge-Holds true kind file (q ∷ c ∷ spec) from w = held w
    read_edge-Holds true kind file (q ∷ []) from w = breaks
    read_edge-Holds true kind file [] from w = breaks

    read_form-Holds :
        (reading : Reading) (file : Text) (found : Text × Text)
        → Traced l
        → Holds Traced (read_form reading file found l)
    unfolding read_form
    read_form-Holds (as_edge kind) file (spec, from) w =
        read_edge-Holds (module_specifier kind) kind file spec from w
    read_form-Holds as_type_entry file (entry, other) w = held w
    read_form-Holds as_implicit file (entry, other) w = held w
    read_form-Holds as_root file found w = held w
    read_form-Holds as_nothing file found w = held w

    read_found-Holds :
        (reading : Reading) (file : Text) (rest : Parsed Listing) (found : Option (Text × Text))
        → Traced l
        → Holds Traced rest
        → Holds Traced (read_found g.find reading file l rest found)
    read_found-Holds reading file rest none w h = h
    read_found-Holds reading file rest (some found) w h = read_form-Holds reading file found w

    read_reason-Holds :
        (forms : List ReasonForm) (file reason : Text)
        → Traced l
        → Holds Traced (read_reason g.find forms file reason l)
    unfolding read_reason
    read_reason-Holds [] file reason w = errs
    read_reason-Holds (f ∷ forms) file reason w =
        let h = read_reason-Holds forms file reason w in
        if-elim (Holds Traced) (not (admits f reason)) _ _ (λ _. h)
          (λ _.
            read_found-Holds f.reading file (read_reason g.find forms file reason l)
              (g.find f.pattern reason) w h)

  with_listing-Holds :
      (r : Parsed Listing) (s : Reader)
      → Holds (Traced s.resolution s.listing) r
      → Holds IsReading (with_listing g r s)
  with_listing-Holds (ok l) s (held h) = held h
  with_listing-Holds malformed s h = errs
  with_listing-Holds panics s h = breaks

  with_missing-IsTraced :
      (o : Option Attempt) (missing : Option (Text × (Text × Text))) (l : Listing)
      → IsTraced g o l.resolutions l.unresolved l.candidates
      → IsTraced g o
          (with_missing g missing l).resolutions
          (with_missing g missing l).unresolved
          (with_missing g missing l).candidates
  unfolding with_missing
  with_missing-IsTraced o none l w = w
  with_missing-IsTraced o (some (from, (path, extensions))) l w = record {
    opened_absolute = w.opened_absolute;
    resolutions_absolute = w.resolutions_absolute;
    unresolved_absolute =
        snoc (λ (u : Unresolved). is_import u.kind ≡ true → g.is_abs u.from ≡ true) l.unresolved _
          w.unresolved_absolute (λ k. absurd (false≢true k));
    candidates_absolute = w.candidates_absolute;
  }

  on_line-Holds : (line : Text) (s : Reader) → IsReading s → Holds IsReading (on_line g line s)
  unfolding on_line
  on_line-Holds line s w =
      if-elim (Holds IsReading) (is_none line) _ _ (λ _. held w)
        (λ _.
          if-elim (Holds IsReading) (s.in_diagnostic && has_prefix line (codes "  ")) _ _
            (λ _. held w)
            (λ _.
              if-elim (Holds IsReading) (has_prefix line (codes "   ")) _ _
                (λ _.
                  if-elim (Holds IsReading) (is_none s.file) _ _ (λ _. errs)
                    (λ named. with_listing-Holds _ s (
                      read_reason-Holds s.resolution s.listing reason_forms s.file
                        (rest_of g 3 line) w)))
                (λ _.
                  if-elim (Holds IsReading)
                    (contains line (codes "error TS") && g.diagnostic_line line) _ _
                    (λ _. held (
                      with_missing-IsTraced s.resolution (g.missing_reference line)
                        (record s.listing { diagnostics = s.listing.diagnostics ++ line ∷ [] }) w))
                    (λ _. held w))))

-- In a listing that is accepted, whatever the regular expressions match, every import that a trace
-- resolves, misses or gives a candidate location is of a file with an absolute path, and the paths
-- of the candidate locations of imports are absolute.
pub parse-IsAbsolute : (g : Grammar) (text : Text) → Holds (IsAbsolute g) (parse g text)
parse-IsAbsolute g text =
    parse-Holds_of g (IsReading g) (λ line s w. w)
      (λ frame s w. on_start-Holds g frame s.resolution s w)
      (λ frame s w. on_end-Holds g frame s.resolution s refl w)
      (λ found s w. on_candidate-Holds g s.resolution found s refl w)
      (λ line a s e w.
        with_attempt g s.resolution _ _ _ _
          (λ c f.
            of_same g a (on_trace g line a) c (w.opened_absolute a e) (on_trace-SameOrigin g line a)
              f)
          w)
      (on_line-Holds g) (IsAbsolute g)
      (λ s w. with_attempt g s.resolution none _ _ _ (λ c e. absurd (cc)) w)
      (record {
        opened_absolute = λ c e. absurd (cc);
        resolutions_absolute = λ r i. elim i [ ];
        unresolved_absolute = λ u i. elim i [ ];
        candidates_absolute = λ c i. elim i [ ];
      })
      text
