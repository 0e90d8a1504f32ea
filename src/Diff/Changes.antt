-- ===== src/Diff/Changes.antt =====
-- What `DiffExport` reports.
use zhi.Common.{
  Text, List, true, false, some, Result, ok, err, ◌≡◌, ◌≢◌, ◌↔◌, inl, inr, refl, arith, ◌==◌,
  eq_iff, Bool-cases,
}
use zhi.Diff.Hunks.{Hunk, compute_hunks}
use zhi.Diff.Ends.{compute_hunks_lem}
use zhi.Diff.Export.{
  DiffResult, ReadError, not_exist, unreadable, lines_of, unified_diff, diff_text, new_file,
  unchanged, changed, diff_export,
}

unified_diff-hunks :
    (path old new : Text) (hunks : List Hunk)
    → compute_hunks (lines_of old) (lines_of new) 3 ≡ some hunks
    → unified_diff path old new ≡ some (diff_text path hunks)
unfolding unified_diff
unified_diff-hunks path old new hunks e = rw (e, unified_diff) refl

unified_diff-total : (path old new : Text) → (text : Text) × (unified_diff path old new ≡ some text)
unified_diff-total path old new =
    let (edits, hunks, e, olds, news, placed, covered) =
      compute_hunks_lem (lines_of old) (lines_of new) 3 in
    (_, unified_diff-hunks path old new hunks e)

-- `DiffExport` has a result, and no error, for every file that can be read or does not exist. It
-- reports a new file exactly when the file does not exist, and changes exactly when the file does
-- not exist or its content differs.
pub diff_export_lem :
    (read_file : Text → Result ReadError Text) (path content : Text)
    → read_file path ≢ err unreadable
    → (r : DiffResult) × (diff_export read_file path content ≡ some (ok r))
      × (r.output_path ≡ path)
      × ((r.is_new ≡ true) ↔ (read_file path ≡ err not_exist))
      × ((r.has_changes ≡ false) ↔ (read_file path ≡ ok content))
unfolding diff_export
diff_export_lem read_file path content readable = go (read_file path) refl
  where
    go :
        (found : Result ReadError Text)
        → read_file path ≡ found
        → (r : DiffResult) × (diff_export read_file path content ≡ some (ok r))
          × (r.output_path ≡ path)
          × ((r.is_new ≡ true) ↔ (read_file path ≡ err not_exist))
          × ((r.has_changes ≡ false) ↔ (read_file path ≡ ok content))
    go (err not_exist) e = (
      new_file path content,
      rw (e, diff_export) refl,
      refl,
      ground (arith, e),
      ground (arith, e),
    )
    go (err unreadable) e = absurd (readable e)
    go (ok existing) e = elim (Bool-cases (existing == content)) [
      | inl same ↦
          let equal = (eq_iff existing content).0 same in
          (
            unchanged path,
            rw (e, diff_export) (rw same refl),
            refl,
            ground (arith, e),
            ground (arith, e, equal),
          )
      | inr other ↦
          let (text, printed) = unified_diff-total path existing content in
          (
            changed path text,
            rw (e, diff_export) (rw (other, printed) refl),
            refl,
            ground (arith, e),
            ground (arith, e, eq_iff existing content),
          )
    ]
