-- ===== src/Drift/Check.antt =====
-- internal/core/drift.go. The rendering of an export (Export, ExportIterate), the preparation of
-- the tree data with the expanded templates, and what os.ReadFile returns are arguments.
use zhi.Common.{
  Text, bytes, Bool, true, false, ◌||◌, List, [], ◌∷◌, ◌++◌, Option, none, some, Result, ok, err,
  for_each, ◌==◌, if◌then◌else◌, not,
}
use zhi.Diff.Export.{DiffResult, ReadError, diff_export}

pub record DriftEntry : Type 0 where
  pub name : Text
  pub output_path : Text
  pub is_new : Bool
  pub diff : Text

-- Without the underlying error.
pub record DriftError : Type 0 where
  pub name : Text
  pub output_path : Text

pub record DriftCheckResult : Type 0 where
  pub drifted : List DriftEntry
  pub in_sync : List DriftEntry
  pub errors : List DriftError
  pub warnings : List Text

-- What an export renders.
pub record ExportResult : Type 0 where
  pub name : Text
  pub output_path : Text
  pub content : Text

-- The fields of an export configuration that this file reads.
pub record ExportRunConfig : Type 0 where
  pub format : Text
  pub template_path : Text
  pub output_path : Text
  pub iterate : Text

abbrev pub is_empty : {A : Type 0} → List A → Bool
is_empty [] = true
is_empty (x ∷ xs) = false

unfoldable pub has_drift : DriftCheckResult → Bool
has_drift r = not (is_empty r.drifted)

unfoldable pub has_errors : DriftCheckResult → Bool
has_errors r = not (is_empty r.errors)

unfoldable pub template_name : ExportRunConfig → Text
template_name cfg =
    if not (cfg.format == [])
    then cfg.format
    else if not (cfg.template_path == [])
    then cfg.template_path
    else bytes "unknown"

-- An output path that names no file.
abbrev pub is_stdout : Text → Bool
is_stdout path = path == [] || path == bytes "-"

abbrev pub with_error : Text → Text → DriftCheckResult → DriftCheckResult
with_error name path res = record res {
  errors = res.errors ++ record { name = name; output_path = path } ∷ [];
}

-- The entry for a diff of the export `r`.
abbrev pub with_diff : ExportResult → DiffResult → DriftCheckResult → DriftCheckResult
with_diff r d res = elim d.has_changes [
  | true ↦ record res {
    drifted =
        res.drifted
        ++ record { name = r.name; output_path = d.output_path; is_new = d.is_new; diff = d.diff }
          ∷ [];
  }
  | false ↦ record res {
    in_sync =
        res.in_sync
        ++ record { name = r.name; output_path = d.output_path; is_new = false; diff = [] } ∷ [];
  }
]

module _ (read_file : Text → Result ReadError Text) where
  -- The part that both checks share, from DiffExport on.
  unfoldable pub check_exported : ExportResult → DriftCheckResult → Option DriftCheckResult
  check_exported r res = elim (diff_export read_file r.output_path r.content) [
    | none ↦ none
    | some (err e) ↦ some (with_error r.name r.output_path res)
    | some (ok d) ↦ some (with_diff r d res)
  ]

  unfoldable pub check_iterated : ExportResult → DriftCheckResult → Option DriftCheckResult
  check_iterated r res = elim (is_stdout r.output_path) [
    | true ↦ some res
    | false ↦ check_exported r res
  ]

  module _ {E : Type 0} (export : ExportRunConfig → Result E ExportResult)
      (export_iterate : ExportRunConfig → Result E (List ExportResult)) where
    unfoldable pub check_single_drift : ExportRunConfig → DriftCheckResult → Option DriftCheckResult
    unfolding check_exported
    check_single_drift cfg res = elim (export cfg) [
      | err e ↦ some (with_error (template_name cfg) cfg.output_path res)
      | ok r ↦ check_exported r res
    ]

    unfoldable pub check_iterate_drift :
        ExportRunConfig → DriftCheckResult → Option DriftCheckResult
    unfolding check_iterated
    check_iterate_drift cfg res = elim (export_iterate cfg) [
      | err e ↦ some (with_error (template_name cfg) cfg.output_path res)
      | ok rs ↦ for_each check_iterated rs res
    ]

    -- The body of the loop of `CheckDrift`. The warning is the template's name.
    unfoldable pub check_config : ExportRunConfig → DriftCheckResult → Option DriftCheckResult
    unfolding check_single_drift check_iterate_drift template_name
    check_config cfg res = elim (cfg.iterate == []) [
      | false ↦ check_iterate_drift cfg res
      | true ↦ elim (is_stdout cfg.output_path) [
        | true ↦ some (record res { warnings = res.warnings ++ template_name cfg ∷ [] })
        | false ↦ check_single_drift cfg res
      ]
    ]

    abbrev pub no_results : DriftCheckResult
    no_results = record { drifted = []; in_sync = []; errors = []; warnings = [] }

    -- `CheckDrift`: `prepared` are the expanded templates, or the error of the preparation; `none`
    -- stands for a workspace that has no templates.
    unfoldable pub check_drift :
        Option (Result E (List ExportRunConfig)) → Option (Result E DriftCheckResult)
    unfolding check_config
    check_drift none = some (
        ok (record no_results {
          warnings = bytes "no export templates configured; nothing to check" ∷ [];
        }))
    check_drift (some (err e)) = some (err e)
    check_drift (some (ok configs)) = elim (for_each check_config configs no_results) [
      | none ↦ none
      | some res ↦ some (ok res)
    ]
