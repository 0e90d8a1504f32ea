-- ===== src/Diff/Replay.antt =====
-- The edit script rebuilds both files.
use zhi.Common.{
  ℕ, zero, suc, ◌+◌, ◌≤◌, ◌<◌, Text, true, false, List, [], ◌∷◌, ◌++◌, some, ◌≡◌, refl, inl, inr,
  arith, leb, ◌==◌, eq_iff, get_or, length, take, take-length, take-suc, append_assoc, append-nil,
  ap, ◌∙◌, sym, Bool-cases,
}
use zhi.Diff.Matrix.{InRange, lcs_matrix-InRange}
use zhi.Diff.Script.{keep, remove, add, EditOp, cell_at, backtrack_from, backtrack, lcs_matrix}

-- The lines that a script leaves of the old file, and those that it makes the new file of.
unfoldable pub old_lines : List EditOp → List Text
old_lines [] = []
old_lines (e ∷ es) = elim e.op [
  | keep ↦ e.line ∷ old_lines es
  | remove ↦ e.line ∷ old_lines es
  | add ↦ old_lines es
]

unfoldable pub new_lines : List EditOp → List Text
new_lines [] = []
new_lines (e ∷ es) = elim e.op [
  | keep ↦ e.line ∷ new_lines es
  | remove ↦ new_lines es
  | add ↦ e.line ∷ new_lines es
]

-- A script that the loop returns from `i`, `j` and `ops`.
abbrev Rebuilds : List Text → List Text → ℕ → ℕ → List EditOp → List EditOp → Type 0
Rebuilds a b i j ops es =
    (old_lines es ≡ take i a ++ old_lines ops) × (new_lines es ≡ take j b ++ new_lines ops)

-- One line more in front of the script.
grown :
    (a rest lines : List Text) (i : ℕ)
    → i < length a
    → lines ≡ take i a ++ get_or a i [] ∷ rest
    → lines ≡ take (suc i) a ++ rest
grown a rest lines i h e =
    e
    ∙ sym (append_assoc (take i a) (get_or a i [] ∷ []) rest)
    ∙ ap (λ l. l ++ rest) (sym (take-suc i a [] h))

kept_line :
    (a b : List Text) (i j : ℕ) (ops es : List EditOp)
    → i < length a
    → j < length b
    → get_or a i [] ≡ get_or b j []
    → Rebuilds a b i j (record { op = keep; line = get_or a i [] } ∷ ops) es
    → Rebuilds a b (suc i) (suc j) ops es
unfolding old_lines new_lines
kept_line a b i j ops es hi hj same (old, new) = (
  grown a (old_lines ops) (old_lines es) i hi old,
  grown b (new_lines ops) (new_lines es) j hj (new ∙ ap (λ l. take j b ++ l ∷ new_lines ops) same),
)

removed_line :
    (a b : List Text) (i j : ℕ) (ops es : List EditOp)
    → i < length a
    → Rebuilds a b i j (record { op = remove; line = get_or a i [] } ∷ ops) es
    → Rebuilds a b (suc i) j ops es
unfolding old_lines new_lines
removed_line a b i j ops es hi (old, new) = (grown a (old_lines ops) (old_lines es) i hi old, new)

added_line :
    (a b : List Text) (i j : ℕ) (ops es : List EditOp)
    → j < length b
    → Rebuilds a b i j (record { op = add; line = get_or b j [] } ∷ ops) es
    → Rebuilds a b i (suc j) ops es
unfolding old_lines new_lines
added_line a b i j ops es hj (old, new) = (old, grown b (new_lines ops) (new_lines es) j hj new)

-- A round of the loop at two lines that are the same, and at two that differ.
module _ (dp : List (List ℕ)) (a b : List Text) (fuel i j : ℕ) (ops : List EditOp) where
  round-same :
      (get_or a i [] == get_or b j []) ≡ true
      → backtrack_from dp a b (suc fuel) (suc i) (suc j) ops
        ≡ backtrack_from dp a b fuel i j (record { op = keep; line = get_or a i [] } ∷ ops)
  unfolding backtrack_from
  round-same h = rw (h, backtrack_from) refl

  round-add :
      {left up : ℕ}
      → (get_or a i [] == get_or b j []) ≡ false
      → cell_at dp (suc i) j ≡ some left
      → cell_at dp i (suc j) ≡ some up
      → leb up left ≡ true
      → backtrack_from dp a b (suc fuel) (suc i) (suc j) ops
        ≡ backtrack_from dp a b fuel (suc i) j (record { op = add; line = get_or b j [] } ∷ ops)
  unfolding backtrack_from
  round-add h l u k = rw (h, l, u, k, backtrack_from) refl

  round-remove :
      {left up : ℕ}
      → (get_or a i [] == get_or b j []) ≡ false
      → cell_at dp (suc i) j ≡ some left
      → cell_at dp i (suc j) ≡ some up
      → leb up left ≡ false
      → backtrack_from dp a b (suc fuel) (suc i) (suc j) ops
        ≡ backtrack_from dp a b fuel i (suc j) (record { op = remove; line = get_or a i [] } ∷ ops)
  unfolding backtrack_from
  round-remove h l u k = rw (h, l, u, k, backtrack_from) refl

-- What the loop gives at `i`, `j` and `ops` on a fuel.
abbrev Works : List (List ℕ) → List Text → List Text → ℕ → Type 0
Works dp a b fuel =
    (i j : ℕ) (ops : List EditOp)
    → i ≤ length a
    → j ≤ length b
    → i + j < fuel
    → (es : List EditOp) × (backtrack_from dp a b fuel i j ops ≡ some es) × Rebuilds a b i j ops es

backtrack_from_lem :
    (dp : List (List ℕ)) (a b : List Text) → InRange dp a b → (fuel : ℕ) → Works dp a b fuel
unfolding backtrack_from take
backtrack_from_lem dp a b cells zero i j ops hi hj enough = absurd (omega arith)
backtrack_from_lem dp a b cells (suc fuel) zero zero ops hi hj enough = (ops, refl, (refl, refl))
backtrack_from_lem dp a b cells (suc fuel) zero (suc j) ops hi hj enough =
    let (es, e, built) =
      backtrack_from_lem dp a b cells fuel zero j (record { op = add; line = get_or b j [] } ∷ ops)
        (omega arith) (omega arith) (omega arith) in
    (es, e, added_line a b zero j ops es (omega arith) built)
backtrack_from_lem dp a b cells (suc fuel) (suc i) zero ops hi hj enough =
    let (es, e, built) =
      backtrack_from_lem dp a b cells fuel i zero
        (record { op = remove; line = get_or a i [] } ∷ ops) (omega arith) (omega arith)
        (omega arith) in
    (es, e, removed_line a b i zero ops es (omega arith) built)
backtrack_from_lem dp a b cells (suc fuel) (suc i) (suc j) ops hi hj enough =
    elim (Bool-cases (get_or a i [] == get_or b j [])) [
      | inl same ↦
          let (es, e, built) =
            backtrack_from_lem dp a b cells fuel i j
              (record { op = keep; line = get_or a i [] } ∷ ops) (omega arith) (omega arith)
              (omega arith) in
          (
            es,
            round-same dp a b fuel i j ops same ∙ e,
            kept_line a b i j ops es (omega arith) (omega arith) ((eq_iff _ _).0 same) built,
          )
      | inr differ ↦
          let (left, l) = cells (suc i) j hi (omega arith) in
          let (up, u) = cells i (suc j) (omega arith) hj in
          elim (Bool-cases (leb up left)) [
            | inl later ↦
                let (es, e, built) =
                  backtrack_from_lem dp a b cells fuel (suc i) j
                    (record { op = add; line = get_or b j [] } ∷ ops) (omega arith) (omega arith)
                    (omega arith) in
                (
                  es,
                  round-add dp a b fuel i j ops differ l u later ∙ e,
                  added_line a b (suc i) j ops es (omega arith) built,
                )
            | inr earlier ↦
                let (es, e, built) =
                  backtrack_from_lem dp a b cells fuel i (suc j)
                    (record { op = remove; line = get_or a i [] } ∷ ops) (omega arith) (omega arith)
                    (omega arith) in
                (
                  es,
                  round-remove dp a b fuel i j ops differ l u earlier ∙ e,
                  removed_line a b i (suc j) ops es (omega arith) built,
                )
          ]
    ]

-- For every two files `backtrack` ends on the matrix of `lcsMatrix` with an edit script; its kept
-- and removed lines are the old file, and its kept and added lines the new one, both in order.
pub backtrack_lem :
    (a b : List Text)
    → (es : List EditOp) × (backtrack (lcs_matrix a b) a b ≡ some es)
      × (old_lines es ≡ a)
      × (new_lines es ≡ b)
unfolding backtrack old_lines new_lines
backtrack_lem a b =
    let (es, e, (old, new)) =
      backtrack_from_lem (lcs_matrix a b) a b (lcs_matrix-InRange a b) (length a + length b + 1)
        (length a) (length b) [] (omega arith) (omega arith) (omega arith) in
    (
      es,
      e,
      old ∙ append-nil (take (length a) a) ∙ take-length a,
      new ∙ append-nil (take (length b) b) ∙ take-length b,
    )
