-- ===== src/Diff/Headers.antt =====
-- The counts in a hunk's header.
use zhi.Common.{take, drop, ℕ, ◌+◌, ◌-◌, List, [], ◌∷◌, ◌≡◌, arith}
use zhi.Diff.Script.{Op, keep, remove, add}
use zhi.Diff.Hunks.{Edit, Header, Hunk, header_step, header_of, hunk_at, empty_header}

-- How many lines of the old file, and of the new file, an edit holds.
abbrev pub old_of : Op → ℕ
old_of keep = 1
old_of remove = 1
old_of add = 0

abbrev pub new_of : Op → ℕ
new_of keep = 1
new_of remove = 0
new_of add = 1

unfoldable pub count_lines : (Op → ℕ) → List Edit → ℕ
count_lines of [] = 0
count_lines of (e ∷ es) = of e.op + count_lines of es

header_step-old :
    (e : Edit) (rest : List Edit) (h : Header)
    → Header.old_count (header_step e rest h) ≡ h.old_count + old_of e.op
unfolding header_step
header_step-old e rest h = ground arith

header_step-new :
    (e : Edit) (rest : List Edit) (h : Header)
    → Header.new_count (header_step e rest h) ≡ h.new_count + new_of e.op
unfolding header_step
header_step-new e rest h = ground arith

header_of-counts :
    (es : List Edit) (h : Header)
    → (Header.old_count (header_of es h) ≡ h.old_count + count_lines old_of es)
      × (Header.new_count (header_of es h) ≡ h.new_count + count_lines new_of es)
unfolding header_of count_lines
header_of-counts [] h = (omega arith, omega arith)
header_of-counts (e ∷ es) h =
    let (old, new) = header_of-counts es (header_step e es h) in
    let step_old = header_step-old e es h in
    let step_new = header_step-new e es h in (omega arith, omega arith)

-- The header of a hunk counts the lines of the old file and of the new file that the hunk holds.
hunk_at-counts :
    (edits : List Edit) (start end : ℕ)
    → (Header.old_count (Hunk.header (hunk_at edits start end))
        ≡ count_lines old_of (Hunk.edits (hunk_at edits start end)))
      × (Header.new_count (Hunk.header (hunk_at edits start end))
          ≡ count_lines new_of (Hunk.edits (hunk_at edits start end)))
unfolding hunk_at
hunk_at-counts edits start end =
    let (old, new) = header_of-counts (take (end - start) (drop start edits)) empty_header in
    (omega arith, omega arith)
