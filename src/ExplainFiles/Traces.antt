-- ===== src/ExplainFiles/Traces.antt =====
-- ts/tools/explainfiles/explainfiles.go: the traces of resolutions in a listing. The groups that
-- the regular expressions match are Go's, and so is `filepath.IsAbs`.
use rules_typescript.Base.{
  ℕ, zero, suc, Bool, true, false, not, ◌&&◌, ◌||◌, Option, none, some, List, [], ◌∷◌, ◌++◌,
  if◌then◌else◌, length,
}
use rules_typescript.Base.Text.{Text, codes, text_eq, has_prefix}
use rules_typescript.ExplainFiles.{
  EdgeKind, import, reference, type_reference, augmentation, module_specifier, Edge, FailedLookup,
  Unresolved, Listing, Attempt,
}
use rules_typescript.ExplainFiles.Reasons.{Parsed, ok, malformed, panics}

pub record Frame : Type 0 where
  pub kind : EdgeKind
  pub specifier : Text
  pub from : Text
  pub to : Text
  pub start : Bool
  pub resolved : Bool

-- The groups of the regular expressions, each under its name.
pub record Grammar : Type 0 where
  pub resolution_start : Text → Option ((Text × Text) × (Text × Text))
  pub resolution_end : Text → Option ((Text × Text) × (Text × Text))
  pub missing_file_probe : Text → Option Text
  pub package_target : Text → Option (Text × Text)
  pub candidate_location : Text → Option Text
  pub path_substitution : Text → Option (Text × Text)
  pub diagnostic_line : Text → Bool
  pub missing_reference : Text → Option (Text × (Text × Text))
  pub find : Text → Text → Option (Text × Text)
  pub is_abs : Text → Bool

-- The variables of the loop.
pub record Reader : Type 0 where
  pub listing : Listing
  pub file : Text
  pub previous : Text
  pub resolution : Option Attempt
  pub in_diagnostic : Bool

abbrev pub is_import : EdgeKind → Bool
is_import import = true
is_import _ = false

abbrev pub same_kind : EdgeKind → EdgeKind → Bool
same_kind import import = true
same_kind reference reference = true
same_kind type_reference type_reference = true
same_kind augmentation augmentation = true
same_kind _ _ = false

abbrev pub end_frame : (Text × Text) × (Text × Text) → Frame
end_frame ((what, spec), (how, to)) = record {
  kind = if text_eq what (codes "Type reference directive") then type_reference else import;
  specifier = spec;
  from = [];
  to = to;
  start = false;
  resolved = not (text_eq how (codes "not resolved"));
}

abbrev pub start_frame : Bool → (Text × Text) × (Text × Text) → Frame
start_frame of_type ((m1, m2), (m3, m4)) = record {
  kind = if of_type then type_reference else import;
  specifier = if of_type then m3 else m1;
  from = if of_type then m4 else m2;
  to = [];
  start = true;
  resolved = false;
}

module _ (g : Grammar) where
  unfoldable pub parse_resolution_frame : Text → Option Frame
  unfolding has_prefix
  parse_resolution_frame line = elim (g.resolution_start line) [
    | some found ↦ some (
        start_frame (has_prefix line (codes "======== Resolving type reference directive '")) found)
    | none ↦ elim (g.resolution_end line) [ some found ↦ some (end_frame found) | none ↦ none ]
  ]

  abbrev pub opened : Frame → Attempt
  opened frame = record {
    unresolved = record {
      kind = frame.kind;
      from = frame.from;
      specifier = frame.specifier;
      candidates = [];
    };
    substitutions = [];
    package_start = none;
    candidate = [];
  }

  -- Whether a nested start is the redirect that the line before announces.
  abbrev pub redirects : Option (Text × Text) → Attempt → Frame → Bool
  redirects none a frame = false
  redirects (some (which, target)) a frame =
      is_import a.unresolved.kind
      && is_import frame.kind
      && text_eq which (codes "imports")
      && text_eq frame.specifier target
      && g.is_abs frame.from

  unfoldable pub on_start : Frame → Option Attempt → Reader → Parsed Reader
  on_start frame (some a) s =
      if redirects (g.package_target s.previous) a frame then ok s else malformed
  on_start frame none s =
      if is_import frame.kind && not (g.is_abs frame.from)
      then malformed
      else ok (record s { resolution = some (opened frame) })

  abbrev pub drop_first {ℓ} : {A : Type ℓ} → ℕ → List A → List A
  drop_first zero xs = xs
  drop_first (suc n) [] = []
  drop_first (suc n) (x ∷ xs) = drop_first n xs

  abbrev pub edges_to : Unresolved → List FailedLookup → List Edge
  edges_to u [] = []
  edges_to u (target ∷ targets) =
      (record { kind = u.kind; from = u.from; to = target.file; specifier = u.specifier })
      ∷ edges_to u targets

  -- The targets of a package's imports or exports: the probes since it was entered, and the file.
  abbrev pub targets_of : Option ℕ → Frame → Unresolved → List Edge
  targets_of none frame u = []
  targets_of (some n) frame u = edges_to u (
      drop_first n u.candidates
      ++ (if frame.resolved then (record { file = frame.to; candidate = [] }) ∷ [] else []))

  abbrev pub entered : Option ℕ → Bool
  entered none = false
  entered (some n) = true

  -- By whether the resolution found a file, and which.
  abbrev pub settled : Bool → Text → Attempt → Listing → Listing
  settled true to a l = record l {
    resolutions =
        l.resolutions
        ++ (record {
          edge = record {
            kind = a.unresolved.kind;
            from = a.unresolved.from;
            to = to;
            specifier = a.unresolved.specifier;
          };
          candidates = a.unresolved.candidates;
          substitutions = a.substitutions;
          from_package = entered a.package_start;
        })
          ∷ [];
  }
  settled false to a l = record l { unresolved = l.unresolved ++ a.unresolved ∷ [] }

  abbrev pub with_targets : List Edge → Listing → Listing
  with_targets targets l = record l { package_targets = l.package_targets ++ targets }

  unfoldable pub on_end : Frame → Option Attempt → Reader → Parsed Reader
  on_end frame none s = malformed
  on_end frame (some a) s =
      if not (same_kind frame.kind a.unresolved.kind)
        || not (text_eq frame.specifier a.unresolved.specifier)
      then malformed
      else ok (record s {
        listing =
            with_targets (targets_of a.package_start frame a.unresolved)
              (settled frame.resolved frame.to a s.listing);
        resolution = none;
      })

  unfoldable pub on_frame : Option Frame → Reader → Parsed Reader
  unfolding on_start on_end
  on_frame none s = malformed
  on_frame (some frame) s =
      if frame.start then on_start frame s.resolution s else on_end frame s.resolution s

  abbrev pub forget_previous : Parsed Reader → Parsed Reader
  forget_previous (ok s) = ok (record s { previous = [] })
  forget_previous malformed = malformed
  forget_previous panics = panics

  unfoldable pub on_candidate : Option Attempt → Option Text → Reader → Parsed Reader
  on_candidate none found s = malformed
  on_candidate (some a) none s = malformed
  on_candidate (some a) (some path) s =
      if is_import a.unresolved.kind && not (g.is_abs path)
      then malformed
      else ok (record s {
        resolution = some (record a { candidate = path });
        listing = record s.listing {
          candidates =
              s.listing.candidates
              ++ (record {
                kind = a.unresolved.kind;
                from = a.unresolved.from;
                specifier = a.unresolved.specifier;
                path = path;
              })
                ∷ [];
        };
      })

  abbrev pub entered_at : Option ℕ → ℕ → Option ℕ
  entered_at none n = some n
  entered_at (some k) n = some k

  abbrev pub is_match {ℓ} : {A : Type ℓ} → Option A → Bool
  is_match none = false
  is_match (some a) = true

  abbrev pub probed : Option Text → Attempt → Attempt
  probed none a = a
  probed (some file) a = record a {
    unresolved = record a.unresolved {
      candidates =
          a.unresolved.candidates ++ (record { file = file; candidate = a.candidate }) ∷ [];
    };
  }

  abbrev pub substituted : Option (Text × Text) → Option Text → Attempt → Attempt
  substituted none probe a = probed probe a
  substituted (some (pattern, path)) probe a = record a {
    substitutions = a.substitutions ++ pattern ∷ [];
    candidate = path;
  }

  -- A line inside a resolution.
  unfoldable pub on_trace : Text → Attempt → Attempt
  unfolding has_prefix module_specifier
  on_trace line a =
      let b =
        if has_prefix line (codes "Loading module '") then record a { candidate = [] } else a in
      if module_specifier b.unresolved.kind && is_match (g.package_target line)
      then record b {
        candidate = [];
        package_start = entered_at b.package_start (length b.unresolved.candidates);
      }
      else substituted (g.path_substitution line) (g.missing_file_probe line) b
