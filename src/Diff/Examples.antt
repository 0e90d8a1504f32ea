-- ===== src/Diff/Examples.antt =====
-- Runs of the diff, and the theorems at these inputs.
use zhi.Common.{
  Text, bytes, true, false, List, [], ◌∷◌, ◌++◌, some, Result, ok, err, ◌≡◌, ◌≢◌, ◌↔◌, refl, ◌==◌,
}
use zhi.Diff.Script.{keep, remove, add, EditOp, lcs_matrix, backtrack}
use zhi.Diff.Replay.{old_lines, new_lines, backtrack_lem}
use zhi.Diff.Hunks.{Edit}
use zhi.Diff.Export.{
  DiffResult, ReadError, not_exist, unreadable, newline, unified_diff, diff_export,
}
use zhi.Diff.Changes.{diff_export_lem}

abbrev before : List Text
before = bytes "a" ∷ bytes "b" ∷ bytes "c" ∷ []

abbrev after : List Text
after = bytes "a" ∷ bytes "d" ∷ bytes "c" ∷ []

matrix :
    lcs_matrix before after
    ≡ (0 ∷ 0 ∷ 0 ∷ 0 ∷ []) ∷ (0 ∷ 1 ∷ 1 ∷ 1 ∷ []) ∷ (0 ∷ 1 ∷ 1 ∷ 1 ∷ []) ∷ (0 ∷ 1 ∷ 1 ∷ 2 ∷ []) ∷ []
unfolding lcs_matrix ◌==◌
matrix = refl

-- The text between the two files' headers and the end.
abbrev shown : Text
shown =
    bytes "--- f (current)"
    ++ newline ∷ bytes "+++ f (new)"
    ++ newline ∷ bytes "@@ -1,3 +1,3 @@"
    ++ newline ∷ bytes " a"
    ++ newline ∷ bytes "-b"
    ++ newline ∷ bytes "+d"
    ++ newline ∷ bytes " c"
    ++ newline ∷ []

abbrev old_text : Text
old_text = bytes "a" ++ newline ∷ bytes "b" ++ newline ∷ bytes "c" ++ newline ∷ []

abbrev pub new_text : Text
new_text = bytes "a" ++ newline ∷ bytes "d" ++ newline ∷ bytes "c" ++ newline ∷ []

printed : unified_diff (bytes "f") old_text new_text ≡ some shown
unfolding unified_diff ◌==◌
printed = refl

backtrack_lem_example :
    (es : List EditOp) × (backtrack (lcs_matrix before after) before after ≡ some es)
    × (old_lines es ≡ before)
    × (new_lines es ≡ after)
backtrack_lem_example = backtrack_lem before after

abbrev numbered : List Edit
numbered =
    record { op = keep; line = bytes "a"; old_n = 1; new_n = 1 }
    ∷ record { op = remove; line = bytes "b"; old_n = 2; new_n = 0 }
    ∷ record { op = add; line = bytes "d"; old_n = 0; new_n = 2 }
    ∷ []

-- A file system with one file.
abbrev pub one_file : Text → Result ReadError Text
one_file path = elim (path == bytes "f") [ true ↦ ok old_text | false ↦ err not_exist ]

pub one_file-readable : one_file (bytes "f") ≢ err unreadable
unfolding ◌==◌
one_file-readable e = cc

diff_export_lem_example :
    (r : DiffResult) × (diff_export one_file (bytes "f") new_text ≡ some (ok r))
    × (r.output_path ≡ bytes "f")
    × ((r.is_new ≡ true) ↔ (one_file (bytes "f") ≡ err not_exist))
    × ((r.has_changes ≡ false) ↔ (one_file (bytes "f") ≡ ok new_text))
diff_export_lem_example = diff_export_lem one_file (bytes "f") new_text one_file-readable
