-- ===== src/Diff/Script.antt =====
-- `lcsMatrix`, `editOp` and `backtrack` of internal/core/diff.go.
use zhi.Common.{
  ℕ, zero, suc, ◌+◌, Text, true, false, List, [], ◌∷◌, Option, none, some, leb, ◌==◌, if◌then◌else◌,
  get_or, get_elem?, length,
}

-- The field `op`: '=', '-' and '+'.
pub data Op : Type 0 where
  keep : Op
  remove : Op
  add : Op

pub record EditOp : Type 0 where
  pub op : Op
  pub line : Text

-- The cells of a row behind column 0: `x` is the row's line, `above` the row before from the
-- column to the left on, and `left` the cell to the left.
unfoldable pub fill_row : Text → List Text → List ℕ → ℕ → List ℕ
fill_row x [] above left = []
fill_row x (y ∷ ys) above left =
    let diagonal = get_or above 0 0 in
    let up = get_or above 1 0 in
    let cell = if x == y then diagonal + 1 else if leb left up then up else left in
    elim above [ [] ↦ cell ∷ fill_row x ys [] cell | _ ∷ above' ↦ cell ∷ fill_row x ys above' cell ]

unfoldable pub zero_row : List Text → List ℕ
zero_row [] = 0 ∷ []
zero_row (y ∷ ys) = 0 ∷ zero_row ys

unfoldable pub fill_rows : List Text → List Text → List ℕ → List (List ℕ)
unfolding fill_row
fill_rows [] b above = []
fill_rows (x ∷ xs) b above = let row = 0 ∷ fill_row x b above 0 in row ∷ fill_rows xs b row

unfoldable pub lcs_matrix : List Text → List Text → List (List ℕ)
unfolding fill_rows zero_row
lcs_matrix a b = zero_row b ∷ fill_rows a b (zero_row b)

-- dp[i][j]; `none`: an index is out of range, where the source panics.
unfoldable pub cell_at : List (List ℕ) → ℕ → ℕ → Option ℕ
cell_at dp i j = elim (get_elem? dp i) [ none ↦ none | some row ↦ get_elem? row j ]

-- The loop of `backtrack`, at `i`, `j` and `ops`; each round lowers `i` or `j`. `none`: no fuel, or
-- an index out of range. `i` and `j` start at the numbers of lines, so the lines are in range.
unfoldable pub backtrack_from :
    List (List ℕ) → List Text → List Text → ℕ → ℕ → ℕ → List EditOp → Option (List EditOp)
unfolding cell_at
backtrack_from dp a b zero i j ops = none
backtrack_from dp a b (suc fuel) zero zero ops = some ops
backtrack_from dp a b (suc fuel) zero (suc j) ops =
    backtrack_from dp a b fuel zero j (record { op = add; line = get_or b j [] } ∷ ops)
backtrack_from dp a b (suc fuel) (suc i) zero ops =
    backtrack_from dp a b fuel i zero (record { op = remove; line = get_or a i [] } ∷ ops)
backtrack_from dp a b (suc fuel) (suc i) (suc j) ops = elim (get_or a i [] == get_or b j []) [
  | true ↦ backtrack_from dp a b fuel i j (record { op = keep; line = get_or a i [] } ∷ ops)
  | false ↦ elim (cell_at dp (suc i) j) [
    | none ↦ none
    | some left ↦ elim (cell_at dp i (suc j)) [
      | none ↦ none
      | some up ↦ elim (leb up left) [
        | true ↦
            backtrack_from dp a b fuel (suc i) j (record { op = add; line = get_or b j [] } ∷ ops)
        | false ↦
            backtrack_from dp a b fuel i (suc j)
              (record { op = remove; line = get_or a i [] } ∷ ops)
      ]
    ]
  ]
]

unfoldable pub backtrack : List (List ℕ) → List Text → List Text → Option (List EditOp)
unfolding backtrack_from
backtrack dp a b = backtrack_from dp a b (length a + length b + 1) (length a) (length b) []
