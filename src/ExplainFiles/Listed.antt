-- ===== src/ExplainFiles/Listed.antt =====
-- What an accepted listing says of a file it says of one of its files.
use rules_typescript.Base.{
  Bool, true, false, not, ◌&&◌, ◌||◌, Option, none, some, List, [], ◌∷◌, ◌++◌, if-elim, In, here,
  In-append_left, In-append_right, ◌≡◌, refl, sym, subst, false≢true,
}
use rules_typescript.Base.Text.{Text, codes, text_eq, has_prefix, contains}
use rules_typescript.ExplainFiles.{EdgeKind, module_specifier, Edge, TypeEntry, Listing, Attempt}
use rules_typescript.ExplainFiles.Reasons.{
  Parsed, ok, malformed, panics, is_none, Reading, as_edge, as_type_entry, as_implicit, as_root,
  as_nothing, ReasonForm, admits, read_edge, read_form, read_found, reason_forms, read_reason,
}
use rules_typescript.ExplainFiles.Parse.{with_missing, with_listing, rest_of, on_line, parse}
use rules_typescript.ExplainFiles.Traces.{
  Frame, Grammar, Reader, is_import, same_kind, redirects, on_start, settled, on_end, on_candidate,
}
use rules_typescript.ExplainFiles.Lines.{Holds, held, errs, breaks, snoc, parse-Holds_of}

pub record IsListed (files : List Text) (edges : List Edge) (roots : List Text)
    (types implicit : List TypeEntry) : Type 0 where
  pub edges_listed : (e : Edge) → In e edges → In e.to files
  pub roots_listed : (f : Text) → In f roots → In f files
  pub types_listed : (t : TypeEntry) → In t types → In t.file files
  pub implicit_listed : (t : TypeEntry) → In t implicit → In t.file files

-- The files of the edges, the roots and the entries are files of the listing.
abbrev pub IsListing : Listing → Type 0
IsListing l = IsListed l.files l.edges l.roots l.types l.implicit

record IsAt (file : Text) (l : Listing) : Type 0 where
  listing : IsListed l.files l.edges l.roots l.types l.implicit
  current : is_none file ≡ false → In file l.files

abbrev IsReading : Reader → Type 0
IsReading s = IsAt s.file s.listing

module _ (file : Text) (l : Listing) (named : In file l.files) (w : IsListing l) where
  abbrev Kept : Listing → Type 0
  Kept m = IsListing m × (m.files ≡ l.files)

  read_edge-Holds :
      (b : Bool) (kind : EdgeKind) (spec from : Text)
      → Holds Kept (read_edge b kind file spec from l)
  read_edge-Holds false kind spec from = held (
    record {
      edges_listed = snoc (λ e. In e.to l.files) l.edges _ w.edges_listed named;
      roots_listed = w.roots_listed;
      types_listed = w.types_listed;
      implicit_listed = w.implicit_listed;
    },
    refl,
  )
  read_edge-Holds true kind (q ∷ c ∷ spec) from = held (
    record {
      edges_listed = snoc (λ e. In e.to l.files) l.edges _ w.edges_listed named;
      roots_listed = w.roots_listed;
      types_listed = w.types_listed;
      implicit_listed = w.implicit_listed;
    },
    refl,
  )
  read_edge-Holds true kind (q ∷ []) from = breaks
  read_edge-Holds true kind [] from = breaks

  read_form-Holds :
      (reading : Reading) (found : Text × Text) → Holds Kept (read_form reading file found l)
  unfolding read_form
  read_form-Holds (as_edge kind) (spec, from) =
      read_edge-Holds (module_specifier kind) kind spec from
  read_form-Holds as_type_entry (entry, other) = held (
    record {
      edges_listed = w.edges_listed;
      roots_listed = w.roots_listed;
      types_listed = snoc (λ t. In t.file l.files) l.types _ w.types_listed named;
      implicit_listed = w.implicit_listed;
    },
    refl,
  )
  read_form-Holds as_implicit (entry, other) = held (
    record {
      edges_listed = w.edges_listed;
      roots_listed = w.roots_listed;
      types_listed = w.types_listed;
      implicit_listed = snoc (λ t. In t.file l.files) l.implicit _ w.implicit_listed named;
    },
    refl,
  )
  read_form-Holds as_root found = held (
    record {
      edges_listed = w.edges_listed;
      roots_listed = snoc (λ f. In f l.files) l.roots _ w.roots_listed named;
      types_listed = w.types_listed;
      implicit_listed = w.implicit_listed;
    },
    refl,
  )
  read_form-Holds as_nothing found = held (w, refl)

  module _ (find : Text → Text → Option (Text × Text)) where
    read_found-Holds :
        (reading : Reading) (rest : Parsed Listing) (o : Option (Text × Text))
        → Holds Kept rest
        → Holds Kept (read_found find reading file l rest o)
    read_found-Holds reading rest none h = h
    read_found-Holds reading rest (some found) h = read_form-Holds reading found

    read_reason-Holds :
        (forms : List ReasonForm) (reason : Text)
        → Holds Kept (read_reason find forms file reason l)
    unfolding read_reason
    read_reason-Holds [] reason = errs
    read_reason-Holds (f ∷ forms) reason =
        let h = read_reason-Holds forms reason in
        if-elim (Holds Kept) (not (admits f reason)) _ _ (λ _. h)
          (λ _.
            read_found-Holds f.reading (read_reason find forms file reason l)
              (find f.pattern reason) h)

settled-IsAt :
    (b : Bool) (to file : Text) (a : Attempt) (l : Listing) (g : Grammar)
    → IsAt file l
    → IsAt file (settled g b to a l)
settled-IsAt true to file a l g w = record { listing = w.listing; current = w.current }
settled-IsAt false to file a l g w = record { listing = w.listing; current = w.current }

with_missing-IsAt :
    (g : Grammar) (file : Text) (o : Option (Text × (Text × Text))) (l : Listing)
    → IsAt file l
    → IsAt file (with_missing g o l)
unfolding with_missing
with_missing-IsAt g file none l w = w
with_missing-IsAt g file (some (from, (path, extensions))) l w = record {
  listing = w.listing;
  current = w.current;
}

module _ (g : Grammar) where
  on_start-Holds :
      (frame : Frame) (o : Option Attempt) (s : Reader)
      → IsReading s
      → Holds IsReading (on_start g frame o s)
  unfolding on_start
  on_start-Holds frame (some a) s w =
      if-elim (Holds IsReading) (redirects g (g.package_target s.previous) a frame) _ _
        (λ _. held w) (λ _. errs)
  on_start-Holds frame none s w =
      if-elim (Holds IsReading) (is_import frame.kind && not (g.is_abs frame.from)) _ _ (λ _. errs)
        (λ _. held w)

  on_end-Holds :
      (frame : Frame) (o : Option Attempt) (s : Reader)
      → IsReading s
      → Holds IsReading (on_end g frame o s)
  unfolding on_end
  on_end-Holds frame none s w = errs
  on_end-Holds frame (some a) s w =
      let t = settled-IsAt frame.resolved frame.to s.file a s.listing g w in
      if-elim (Holds IsReading)
        (not (same_kind frame.kind a.unresolved.kind)
          || not (text_eq frame.specifier a.unresolved.specifier))
        _ _ (λ _. errs) (λ _. held (record { listing = t.listing; current = t.current }))

  on_candidate-Holds :
      (o : Option Attempt) (found : Option Text) (s : Reader)
      → IsReading s
      → Holds IsReading (on_candidate g o found s)
  unfolding on_candidate
  on_candidate-Holds none found s w = errs
  on_candidate-Holds (some a) none s w = errs
  on_candidate-Holds (some a) (some path) s w =
      if-elim (Holds IsReading) (is_import a.unresolved.kind && not (g.is_abs path)) _ _ (λ _. errs)
        (λ _. held (record { listing = w.listing; current = w.current }))

  with_listing-Holds :
      (r : Parsed Listing) (s : Reader)
      → Holds (λ l. IsListing l × (l.files ≡ s.listing.files)) r
      → IsReading s
      → Holds IsReading (with_listing g r s)
  with_listing-Holds (ok l) s (held h) w =
      held (record {
        listing = h.0;
        current = λ n. subst (λ fs. In s.file fs) (sym h.1) (w.current n);
      })
  with_listing-Holds malformed s h w = errs
  with_listing-Holds panics s h w = breaks

  on_reason-Holds :
      (line : Text) (s : Reader)
      → is_none s.file ≡ false
      → IsReading s
      → Holds IsReading (with_listing g (read_reason g.find reason_forms s.file line s.listing) s)
  on_reason-Holds line s named w =
      with_listing-Holds _ s
        (read_reason-Holds s.file s.listing (w.current named) w.listing g.find reason_forms line) w

  on_file-IsAt :
      (line : Text) (l : Listing)
      → IsListing l
      → IsAt line (record l { files = l.files ++ line ∷ [] })
  on_file-IsAt line l w = record {
    listing = record {
      edges_listed = λ e i. In-append_left (line ∷ []) (w.edges_listed e i);
      roots_listed = λ f i. In-append_left (line ∷ []) (w.roots_listed f i);
      types_listed = λ t i. In-append_left (line ∷ []) (w.types_listed t i);
      implicit_listed = λ t i. In-append_left (line ∷ []) (w.implicit_listed t i);
    };
    current = λ n. In-append_right l.files (here refl);
  }

  on_line-Holds : (line : Text) (s : Reader) → IsReading s → Holds IsReading (on_line g line s)
  unfolding on_line
  on_line-Holds line s w =
      if-elim (Holds IsReading) (is_none line) _ _ (λ _. held w)
        (λ _.
          if-elim (Holds IsReading) (s.in_diagnostic && has_prefix line (codes "  ")) _ _
            (λ _. held (record { listing = w.listing; current = w.current }))
            (λ _.
              if-elim (Holds IsReading) (has_prefix line (codes "   ")) _ _
                (λ _.
                  if-elim (Holds IsReading) (is_none s.file) _ _ (λ _. errs)
                    (λ named. on_reason-Holds (rest_of g 3 line) s named w))
                (λ _.
                  if-elim (Holds IsReading)
                    (contains line (codes "error TS") && g.diagnostic_line line) _ _
                    (λ _. held (
                      with_diagnostic (
                        with_missing-IsAt g s.file (g.missing_reference line)
                          (record s.listing { diagnostics = s.listing.diagnostics ++ line ∷ [] })
                          (record { listing = w.listing; current = w.current }))))
                    (λ _. held (with_diagnostic (on_file-IsAt line s.listing w.listing))))))
    where
      with_diagnostic : {file : Text} {l : Listing} → IsAt file l → IsAt file l
      with_diagnostic v = record { listing = v.listing; current = v.current }

-- In a listing that is accepted, whatever the regular expressions match, every edge leads to a file
-- of the listing, and every root and every type entry is one.
pub parse-IsListed : (g : Grammar) (text : Text) → Holds IsListing (parse g text)
parse-IsListed g text =
    parse-Holds_of g IsReading (λ line s w. record { listing = w.listing; current = w.current })
      (λ frame s w. on_start-Holds g frame s.resolution s w)
      (λ frame s w. on_end-Holds g frame s.resolution s w)
      (λ found s w. on_candidate-Holds g s.resolution found s w)
      (λ line a s e w. record { listing = w.listing; current = w.current }) (on_line-Holds g)
      IsListing (λ s w. w.listing)
      (record {
        listing = record {
          edges_listed = λ e i. elim i [ ];
          roots_listed = λ f i. elim i [ ];
          types_listed = λ t i. elim i [ ];
          implicit_listed = λ t i. elim i [ ];
        };
        current = λ n. absurd (false≢true (sym n));
      })
      text
