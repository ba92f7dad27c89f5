-- ===== src/ExplainFiles.antt =====
-- ts/tools/explainfiles/explainfiles.go: a listing of the compiler and its edges.
pub mod Reasons
pub mod Traces
pub mod Parse
pub mod Lines
pub mod Listed
pub mod Absolute
use rules_typescript.Base.{ℕ, Bool, true, false, Option, List}
use rules_typescript.Base.Text.{Text}

pub data EdgeKind : Type 0 where
  import reference type_reference augmentation : EdgeKind

unfoldable pub module_specifier : EdgeKind → Bool
module_specifier import = true
module_specifier augmentation = true
module_specifier _ = false

pub record Edge : Type 0 where
  pub kind : EdgeKind
  pub from : Text
  pub to : Text
  pub specifier : Text

pub record TypeEntry : Type 0 where
  pub entry : Text
  pub file : Text

pub record FailedLookup : Type 0 where
  pub file : Text
  pub candidate : Text

pub record Unresolved : Type 0 where
  pub kind : EdgeKind
  pub from : Text
  pub specifier : Text
  pub candidates : List FailedLookup

pub record Resolution : Type 0 where
  pub edge : Edge
  pub candidates : List FailedLookup
  pub substitutions : List Text
  pub from_package : Bool

pub record ResolutionCandidate : Type 0 where
  pub kind : EdgeKind
  pub from : Text
  pub specifier : Text
  pub path : Text

pub record Listing : Type 0 where
  pub files : List Text
  pub roots : List Text
  pub edges : List Edge
  pub types : List TypeEntry
  pub implicit : List TypeEntry
  pub diagnostics : List Text
  pub unresolved : List Unresolved
  pub resolutions : List Resolution
  pub candidates : List ResolutionCandidate
  pub package_targets : List Edge

-- `resolutionAttempt`; none stands for the package start -1.
pub record Attempt : Type 0 where
  pub unresolved : Unresolved
  pub substitutions : List Text
  pub package_start : Option ℕ
  pub candidate : Text
