-- ===== src/Diff/Matrix.antt =====
-- The matrix of `lcsMatrix` has a cell for every two prefixes of the files.
use zhi.Common.{
  ℕ, suc, ◌≤◌, Text, List, [], ◌∷◌, some, ◌≡◌, refl, ap, arith, length, get_elem?-All, All,
}
use zhi.Diff.Script.{fill_row, zero_row, fill_rows, lcs_matrix, cell_at}

length-fill_row :
    (x : Text) (ys : List Text) (above : List ℕ) (left : ℕ)
    → length (fill_row x ys above left) ≡ length ys
unfolding fill_row
length-fill_row x [] above left = refl
length-fill_row x (y ∷ ys) [] left = ap suc (length-fill_row x ys [] _)
length-fill_row x (y ∷ ys) (c ∷ above) left = ap suc (length-fill_row x ys above _)

length-zero_row : (ys : List Text) → length (zero_row ys) ≡ suc (length ys)
unfolding zero_row
length-zero_row [] = refl
length-zero_row (y ∷ ys) = ap suc (length-zero_row ys)

-- A row with a cell for every prefix of the new file.
abbrev IsRow : List Text → List ℕ → Type 0
IsRow b row = length row ≡ suc (length b)

fill_rows-IsRow :
    (xs b : List Text) (above : List ℕ)
    → All (IsRow b) (fill_rows xs b above) × (length (fill_rows xs b above) ≡ length xs)
unfolding fill_rows
fill_rows-IsRow [] b above = (tt, refl)
fill_rows-IsRow (x ∷ xs) b above =
    let (rows, count) = fill_rows-IsRow xs b (0 ∷ fill_row x b above 0) in
    ((ap suc (length-fill_row x b above 0), rows), ap suc count)

-- Every index up to the numbers of lines is in range.
abbrev pub InRange : List (List ℕ) → List Text → List Text → Type 0
InRange dp a b = (i j : ℕ) → i ≤ length a → j ≤ length b → (c : ℕ) × (cell_at dp i j ≡ some c)

pub lcs_matrix-InRange : (a b : List Text) → InRange (lcs_matrix a b) a b
unfolding lcs_matrix cell_at
lcs_matrix-InRange a b i j hi hj =
    let (rows, count) = fill_rows-IsRow a b (zero_row b) in
    let (row, found, wide) =
      get_elem?-All (IsRow b) (lcs_matrix a b) i (omega arith) (length-zero_row b, rows) in
    let (c, held, any) = get_elem?-All (λ n. Unit {0}) row j (omega arith) (anything row) in
    (c, rw (found, cell_at) held)
  where
    anything : (ns : List ℕ) → All (λ n. Unit {0}) ns
    anything [] = tt
    anything (n ∷ ns) = (tt, anything ns)
