-- ===== src/Diff/Edits.antt =====
-- The edits of a hunk, and the numbers of their lines.
use zhi.Common.{
  ℕ, zero, suc, ◌+◌, ◌-◌, ◌≤◌, Text, List, [], ◌∷◌, ◌++◌, map, take, drop, All, length,
  length-append, append_assoc, ap, sym, ◌∙◌, ◌≡◌, refl, arith,
}
use zhi.Diff.Script.{Op, keep, remove, add, EditOp}
use zhi.Diff.Hunks.{Edit, number_edits, hunk_at}
use zhi.Diff.Replay.{old_lines, new_lines}

-- A hunk holds the edits from `start` up to `stop`.
abbrev pub IsSlice : List Edit → ℕ → ℕ → List Edit → Type 0
IsSlice edits start stop slice =
    (before after : List Edit) × (edits ≡ before ++ (slice ++ after))
    × (length before ≡ start)
    × (length (before ++ slice) ≡ stop)

split_at : (n : ℕ) (edits : List Edit) → n ≤ length edits → edits ≡ take n edits ++ drop n edits
unfolding take drop
split_at zero edits h = refl
split_at (suc n) [] h = absurd (omega arith)
split_at (suc n) (e ∷ es) h = ap (λ r. e ∷ r) (split_at n es (omega arith))

length-take : (n : ℕ) (edits : List Edit) → n ≤ length edits → length (take n edits) ≡ n
unfolding take
length-take zero edits h = refl
length-take (suc n) [] h = absurd (omega arith)
length-take (suc n) (e ∷ es) h = omega (arith, length-take n es (omega arith))

pub hunk_at-IsSlice :
    (edits : List Edit) (start stop : ℕ)
    → start ≤ stop
    → stop ≤ length edits
    → IsSlice edits start stop (hunk_at edits start stop).edits
unfolding hunk_at
hunk_at-IsSlice edits start stop lo hi =
    let first : start ≤ length edits = omega arith in
    let front = length-take start edits first in
    let whole = split_at start edits first in
    let size : length edits ≡ length (take start edits) + length (drop start edits) =
      ap length whole ∙ length-append (take start edits) (drop start edits) in
    let rest : stop - start ≤ length (drop start edits) = omega arith in
    let slice = take (stop - start) (drop start edits) in
    (
      take start edits,
      drop (stop - start) (drop start edits),
      whole ∙ ap (λ r. take start edits ++ r) (split_at (stop - start) (drop start edits) rest),
      front,
      length-append (take start edits) slice
          ∙ omega (arith, front, length-take (stop - start) (drop start edits) rest),
    )

-- The line is the `n`-th of a file, counted from 1.
abbrev pub IsNth : List Text → ℕ → Text → Type 0
IsNth lines n line =
    (before after : List Text) × (lines ≡ before ++ (line ∷ after)) × (n ≡ length before + 1)

-- A kept line stands at its numbers in both files, a removed one in the old file, an added one in
-- the new one.
abbrev pub IsPlaced : List Text → List Text → Edit → Type 0
IsPlaced old new e = elim e.op [
  | keep ↦ IsNth old e.old_n e.line × IsNth new e.new_n e.line
  | remove ↦ IsNth old e.old_n e.line × (e.new_n ≡ 0)
  | add ↦ (e.old_n ≡ 0) × IsNth new e.new_n e.line
]

-- An edit without its numbers.
abbrev pub edit_op : Edit → EditOp
edit_op e = record { op = e.op; line = e.line }

pub map-number_edits : (es : List EditOp) (oi ni : ℕ) → map edit_op (number_edits oi ni es) ≡ es
unfolding number_edits
map-number_edits [] oi ni = refl
map-number_edits (e ∷ es) oi ni = by_op e.op e.line (map-number_edits es)
  where
    by_op :
        (op : Op) (line : Text)
        → ((oi' ni' : ℕ) → map edit_op (number_edits oi' ni' es) ≡ es)
        → map edit_op (number_edits oi ni (record { op = op; line = line } ∷ es))
          ≡ record { op = op; line = line } ∷ es
    by_op keep line rest = ap (λ r. record { op = keep; line = line } ∷ r) (rest (oi + 1) (ni + 1))
    by_op remove line rest = ap (λ r. record { op = remove; line = line } ∷ r) (rest (oi + 1) ni)
    by_op add line rest = ap (λ r. record { op = add; line = line } ∷ r) (rest oi (ni + 1))

-- The lines of a file up to the next one, and behind it.
module _ (lines before rest : List Text) (line : Text) (n : ℕ) where
  further : lines ≡ before ++ (line ∷ rest) → lines ≡ (before ++ (line ∷ [])) ++ rest
  further e = e ∙ sym (append_assoc before (line ∷ []) rest)

  counted : n ≡ length before → n + 1 ≡ length (before ++ (line ∷ []))
  counted e = omega (arith, e, length-append before (line ∷ []))

  placed : n ≡ length before → lines ≡ before ++ (line ∷ rest) → IsNth lines (n + 1) line
  placed n_of e = (before, rest, e, ap (λ m. m + 1) n_of)

-- Behind these lines of the files, the numbers of the edits are right.
abbrev Places : List Text → List Text → List EditOp → Type 0
Places old new es =
    (bo bn : List Text) (oi ni : ℕ)
    → old ≡ bo ++ old_lines es
    → new ≡ bn ++ new_lines es
    → oi ≡ length bo
    → ni ≡ length bn
    → All (IsPlaced old new) (number_edits oi ni es)

module _ (old new : List Text) where
  placed_op :
      (op : Op) (line : Text) (es : List EditOp)
      → Places old new es
      → Places old new (record { op = op; line = line } ∷ es)
  unfolding number_edits old_lines new_lines
  placed_op keep line es ih bo bn oi ni fo fn ho hn = (
    (placed old bo (old_lines es) line oi ho fo, placed new bn (new_lines es) line ni hn fn),
    ih (bo ++ (line ∷ [])) (bn ++ (line ∷ [])) (oi + 1) (ni + 1)
        (further old bo (old_lines es) line oi fo) (further new bn (new_lines es) line ni fn)
        (counted old bo (old_lines es) line oi ho) (counted new bn (new_lines es) line ni hn),
  )
  placed_op remove line es ih bo bn oi ni fo fn ho hn = (
    (placed old bo (old_lines es) line oi ho fo, refl),
    ih (bo ++ (line ∷ [])) bn (oi + 1) ni (further old bo (old_lines es) line oi fo) fn
        (counted old bo (old_lines es) line oi ho) hn,
  )
  placed_op add line es ih bo bn oi ni fo fn ho hn = (
    (refl, placed new bn (new_lines es) line ni hn fn),
    ih bo (bn ++ (line ∷ [])) oi (ni + 1) fo (further new bn (new_lines es) line ni fn) ho
        (counted new bn (new_lines es) line ni hn),
  )

  pub number_edits-IsPlaced : (es : List EditOp) → Places old new es
  unfolding number_edits
  number_edits-IsPlaced [] bo bn oi ni fo fn ho hn = tt
  number_edits-IsPlaced (e ∷ es) bo bn oi ni fo fn ho hn =
      placed_op e.op e.line es (number_edits-IsPlaced es) bo bn oi ni fo fn ho hn
