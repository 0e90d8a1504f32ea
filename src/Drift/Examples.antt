-- ===== src/Drift/Examples.antt =====
-- A run of the drift check on two exported files.
use zhi.Common.{bytes, List, [], ◌∷◌}
use zhi.Diff.Examples.{new_text}
use zhi.Drift.Check.{ExportResult, DriftCheckResult}

abbrev exported : List ExportResult
exported =
    record { name = bytes "f"; output_path = bytes "f"; content = new_text }
    ∷ record { name = bytes "g"; output_path = bytes "-"; content = new_text }
    ∷ []

abbrev nothing : DriftCheckResult
nothing = record { drifted = []; in_sync = []; errors = []; warnings = [] }
