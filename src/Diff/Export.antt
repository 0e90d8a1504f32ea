-- ===== src/Diff/Export.antt =====
-- `DiffResult`, `DiffExport`, `formatNewFileDiff` and `unifiedDiff` of internal/core/diff.go, and the
-- text of a hunk in `computeHunks`. The file system is an argument: what os.ReadFile returns.
use zhi.Common.{
  ℕ, zero, suc, ◌+◌, ◌/◌, ◌%◌, Text, bytes, Bool, true, false, List, [], ◌∷◌, ◌++◌, Option, none,
  some, Result, ok, err, ltb, if◌then◌else◌, ◌==◌, length, split,
}
use zhi.Diff.Script.{Op, keep, remove, add}
use zhi.Diff.Hunks.{Edit, Hunk, compute_hunks}

abbrev pub newline : ℕ
newline = 10

-- %d of a number that is not negative, on a fuel of its digits.
unfoldable pub digits : ℕ → ℕ → Text
digits zero n = []
digits (suc fuel) n =
    let front = digits fuel (n / 10) in
    if ltb n 10 then (48 + n) ∷ [] else front ++ (48 + n % 10) ∷ []

abbrev pub decimal : ℕ → Text
decimal n = digits (n + 1) n

-- A trailing empty line from the split is removed.
unfoldable pub without_last_empty : List Text → List Text
without_last_empty [] = []
without_last_empty (l ∷ []) = if l == [] then [] else l ∷ []
without_last_empty (l ∷ m ∷ ls) = l ∷ without_last_empty (m ∷ ls)

unfoldable pub lines_of : Text → List Text
unfolding without_last_empty split
lines_of content = without_last_empty (split newline content)

abbrev pub op_byte : Op → ℕ
op_byte keep = b' '
op_byte remove = b'-'
op_byte add = b'+'

unfoldable pub print_edits : List Edit → Text
print_edits [] = []
print_edits (e ∷ es) = (op_byte e.op ∷ e.line) ++ newline ∷ print_edits es

unfoldable pub print_hunk : Hunk → Text
unfolding print_edits digits
print_hunk h =
    let c : ℕ = b',' in
    bytes "@@ -"
    ++ decimal h.header.old_start
    ++ c ∷ decimal h.header.old_count
    ++ bytes " +"
    ++ decimal h.header.new_start
    ++ c ∷ decimal h.header.new_count
    ++ bytes " @@"
    ++ newline ∷ print_edits h.edits

unfoldable pub print_hunks : List Hunk → Text
unfolding print_hunk
print_hunks [] = []
print_hunks (h ∷ hs) = print_hunk h ++ print_hunks hs

unfoldable pub diff_text : Text → List Hunk → Text
unfolding print_hunks
diff_text path hunks =
    bytes "--- "
    ++ path
    ++ bytes " (current)"
    ++ newline ∷ bytes "+++ "
    ++ path
    ++ bytes " (new)"
    ++ newline ∷ print_hunks hunks

unfoldable pub unified_diff : Text → Text → Text → Option Text
unfolding compute_hunks diff_text lines_of
unified_diff path old new = elim (compute_hunks (lines_of old) (lines_of new) 3) [
  | none ↦ none
  | some hunks ↦ some (diff_text path hunks)
]

unfoldable pub added_lines : List Text → Text
added_lines [] = []
added_lines (l ∷ ls) = (b'+' ∷ l) ++ newline ∷ added_lines ls

unfoldable pub format_new_file_diff : Text → Text → Text
unfolding lines_of added_lines digits
format_new_file_diff path content =
    let lines = lines_of content in
    bytes "--- /dev/null"
    ++ newline ∷ bytes "+++ "
    ++ path
    ++ newline ∷ bytes "@@ -0,0 +1,"
    ++ decimal (length lines)
    ++ bytes " @@"
    ++ newline ∷ added_lines lines

pub record DiffResult : Type 0 where
  pub output_path : Text
  pub has_changes : Bool
  pub is_new : Bool
  pub diff : Text

-- What os.ReadFile returns for a path.
pub data ReadError : Type 0 where
  not_exist : ReadError
  unreadable : ReadError

-- The three results that the source returns.
abbrev pub new_file : Text → Text → DiffResult
new_file path content = record {
  output_path = path;
  has_changes = true;
  is_new = true;
  diff = format_new_file_diff path content;
}

abbrev pub unchanged : Text → DiffResult
unchanged path = record { output_path = path; has_changes = false; is_new = false; diff = [] }

abbrev pub changed : Text → Text → DiffResult
changed path text = record { output_path = path; has_changes = true; is_new = false; diff = text }

-- `err path` stands for the message "reading existing file".
unfoldable pub diff_export :
    (Text → Result ReadError Text) → Text → Text → Option (Result Text DiffResult)
unfolding unified_diff
diff_export read_file path content = elim (read_file path) [
  | err not_exist ↦ some (ok (new_file path content))
  | err unreadable ↦ some (err path)
  | ok existing ↦ elim (existing == content) [
    | true ↦ some (ok (unchanged path))
    | false ↦ elim (unified_diff path existing content) [
      | none ↦ none
      | some text ↦ some (ok (changed path text))
    ]
  ]
]
