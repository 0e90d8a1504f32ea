-- ===== src/Drift/Found.antt =====
-- What the check of exported files finds.
use zhi.Common.{Text, true, false, Result, ok, ◌≡◌, ◌↔◌, ◌⊎◌}
use zhi.Diff.Export.{ReadError}
use zhi.Drift.Check.{ExportResult, DriftCheckResult, is_stdout, has_drift}

module _ (read_file : Text → Result ReadError Text) where
  -- A check that adds no error, and finds a drift unless `Same` holds.
  abbrev Finds : DriftCheckResult → Type 0 → DriftCheckResult → Type 0
  Finds res Same res' =
      (DriftCheckResult.errors res' ≡ res.errors)
      × ((has_drift res' ≡ false) ↔ ((has_drift res ≡ false) × Same))

  -- The file of an export has its content already, or there is none.
  abbrev pub InSync : ExportResult → Type 0
  InSync r = (is_stdout r.output_path ≡ true) ⊎ (read_file r.output_path ≡ ok r.content)
