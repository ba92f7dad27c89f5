-- ===== src/ExplainFiles/Parse.antt =====
-- ts/tools/explainfiles/explainfiles.go: `Parse`, one step for each line.
use rules_typescript.Base.{
  ℕ, zero, suc, true, false, ◌&&◌, ◌||◌, Option, none, some, List, [], ◌∷◌, ◌++◌, ◌==◌,
  if◌then◌else◌, length,
}
use rules_typescript.Base.Text.{
  Text, codes, text_eq, has_prefix, contains, split, cut, trim, trim_right,
}
use rules_typescript.ExplainFiles.{reference, FailedLookup, Listing, Attempt}
use rules_typescript.ExplainFiles.Reasons.{
  Parsed, ok, malformed, panics, is_none, reason_forms, read_reason,
}
use rules_typescript.ExplainFiles.Traces.{
  parse_resolution_frame, drop_first, on_frame, forget_previous, on_candidate, on_trace, Grammar,
  Reader,
}

-- `strings.Split`; each part but the last takes at least one byte.
unfoldable split_text : ℕ → Text → Text → List Text
unfolding cut
split_text zero s sep = s ∷ []
split_text (suc n) s sep = elim (cut s sep) [ none ↦ s ∷ [] | some (b, a) ↦ b ∷ split_text n a sep ]

module _ (g : Grammar) where
  abbrev with_extensions : Text → List Text → List FailedLookup
  with_extensions path [] = []
  with_extensions path (part ∷ parts) =
      let extension = trim (λ c. c == b'\'') part in
      let rest = with_extensions path parts in
      if text_eq extension (codes ".ts")
        || text_eq extension (codes ".tsx")
        || text_eq extension (codes ".d.ts")
        || text_eq extension (codes ".js")
        || text_eq extension (codes ".jsx")
      then (record { file = path ++ extension; candidate = [] }) ∷ rest
      else rest

  unfoldable pub with_missing : Option (Text × (Text × Text)) → Listing → Listing
  unfolding split_text
  with_missing none l = l
  with_missing (some (from, (path, extensions))) l = record l {
    unresolved =
        l.unresolved
        ++ (record {
          kind = reference;
          from = from;
          specifier = path;
          candidates =
              if is_none extensions
              then (record { file = path; candidate = [] }) ∷ []
              else with_extensions path (split_text (length extensions) extensions (codes ", "));
        })
          ∷ [];
  }

  abbrev pub continue_last : List Text → Text → List Text
  continue_last [] line = []
  continue_last (d ∷ []) line = (d ++ (b'\n' ∷ line)) ∷ []
  continue_last (d ∷ e ∷ ds) line = d ∷ continue_last (e ∷ ds) line

  abbrev pub with_listing : Parsed Listing → Reader → Parsed Reader
  with_listing (ok l) s = ok (record s { listing = l })
  with_listing malformed s = malformed
  with_listing panics s = panics

  abbrev pub rest_of : ℕ → Text → Text
  rest_of n line = drop_first g n line

  -- A line outside a resolution.
  unfoldable pub on_line : Text → Reader → Parsed Reader
  unfolding has_prefix contains read_reason reason_forms with_missing
  on_line line s =
      if is_none line
      then ok s
      else if s.in_diagnostic && has_prefix line (codes "  ")
      then ok (record s {
        listing = record s.listing { diagnostics = continue_last s.listing.diagnostics line };
      })
      else if has_prefix line (codes "   ")
      then (if is_none s.file
          then malformed
          else with_listing (read_reason g.find reason_forms s.file (rest_of 3 line) s.listing) s)
      else if contains line (codes "error TS") && g.diagnostic_line line
      then ok (record s {
        listing =
            with_missing (g.missing_reference line)
              (record s.listing { diagnostics = s.listing.diagnostics ++ line ∷ [] });
        in_diagnostic = true;
      })
      else ok (record s {
        file = line;
        listing = record s.listing { files = s.listing.files ++ line ∷ [] };
        in_diagnostic = false;
      })

  unfoldable pub in_resolution : Option Attempt → Text → Reader → Parsed Reader
  unfolding on_trace on_line
  in_resolution (some a) line s = ok (record s { resolution = some (on_trace g line a) })
  in_resolution none line s = on_line line s

  abbrev pub and_in_resolution : Text → Parsed Reader → Parsed Reader
  and_in_resolution line (ok s) = in_resolution s.resolution line s
  and_in_resolution line malformed = malformed
  and_in_resolution line panics = panics

  -- A line that is no frame.
  unfoldable pub on_body : Text → Reader → Parsed Reader
  unfolding has_prefix on_candidate in_resolution
  on_body line s =
      let t = record s { previous = line } in
      and_in_resolution line (
        if has_prefix line (codes "Loading module as file / folder")
        then on_candidate g t.resolution (g.candidate_location line) t
        else ok t)

  unfoldable pub line_step : Text → Reader → Parsed Reader
  unfolding has_prefix parse_resolution_frame on_frame on_body
  line_step line s =
      if has_prefix line (codes "========")
      then forget_previous g (on_frame g (parse_resolution_frame g line) s)
      else on_body line s

  unfoldable pub lines_loop : List Text → Parsed Reader → Parsed Reader
  unfolding line_step trim_right
  lines_loop [] r = r
  lines_loop (line ∷ lines) malformed = malformed
  lines_loop (line ∷ lines) panics = panics
  lines_loop (line ∷ lines) (ok s) =
      lines_loop lines (line_step (trim_right (λ c. c == b'\r') line) s)

  abbrev pub empty_reader : Reader
  empty_reader = record {
    listing = record {
      files = [];
      roots = [];
      edges = [];
      types = [];
      implicit = [];
      diagnostics = [];
      unresolved = [];
      resolutions = [];
      candidates = [];
      package_targets = [];
    };
    file = [];
    previous = [];
    resolution = none;
    in_diagnostic = false;
  }

  abbrev pub completed : Option Attempt → Listing → Parsed Listing
  completed none l = ok l
  completed (some a) l = malformed

  abbrev pub finish : Parsed Reader → Parsed Listing
  finish (ok s) = completed s.resolution s.listing
  finish malformed = malformed
  finish panics = panics

  unfoldable pub parse : Text → Parsed Listing
  unfolding lines_loop split
  parse text = finish (lines_loop (split text b'\n') (ok empty_reader))
