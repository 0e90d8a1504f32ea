-- ===== src/Diff/Hunks.antt =====
-- `computeHunks` of internal/core/diff.go: numbered edits, the bounds of a hunk, and its header.
use zhi.Common.{
  ℕ, zero, suc, ◌+◌, ◌-◌, ◌*◌, Text, Bool, true, false, ◌||◌, List, [], ◌∷◌, Option, none, some,
  ltb, leb, nat_eq, if◌then◌else◌, length, get_or, take, drop, min,
}
use zhi.Diff.Script.{Op, keep, remove, add, EditOp, lcs_matrix, backtrack}

-- The local type `edit`; a number 0 stands where the line is not in that file.
pub record Edit : Type 0 where
  pub op : Op
  pub line : Text
  pub old_n : ℕ
  pub new_n : ℕ

-- The first loop, at `oi` and `ni`.
unfoldable pub number_edits : ℕ → ℕ → List EditOp → List Edit
number_edits oi ni [] = []
number_edits oi ni (e ∷ es) = elim e.op [
  | keep ↦
      record { op = keep; line = e.line; old_n = oi + 1; new_n = ni + 1 }
      ∷ number_edits (oi + 1) (ni + 1) es
  | remove ↦
      record { op = remove; line = e.line; old_n = oi + 1; new_n = 0 } ∷ number_edits (oi + 1) ni es
  | add ↦
      record { op = add; line = e.line; old_n = 0; new_n = ni + 1 } ∷ number_edits oi (ni + 1) es
]

unfoldable pub is_context : Edit → Bool
is_context e = elim e.op [ keep ↦ true | remove ↦ false | add ↦ false ]

-- ctxEnd - end: the context lines that a list starts with.
unfoldable pub context_run : List Edit → ℕ
unfolding is_context
context_run [] = 0
context_run (e ∷ es) = let rest = context_run es in if is_context e then rest + 1 else 0

abbrev pub no_edit : Edit
no_edit = record { op = keep; line = []; old_n = 0; new_n = 0 }

-- The loop for the end of a hunk. Each round raises `end`; `none`: no fuel.
unfoldable pub find_end : ℕ → List Edit → ℕ → ℕ → Option ℕ
unfolding context_run drop
find_end zero edits context end = none
find_end (suc fuel) edits context end = elim (ltb end (length edits)) [
  | false ↦ some end
  | true ↦ elim (is_context (get_or edits end no_edit)) [
    | false ↦ find_end fuel edits context (end + 1)
    | true ↦
        let gap = context_run (drop end edits) in
        elim (ltb (2 * context) gap || leb (length edits) (end + gap)) [
          | true ↦ some (min (end + context) (length edits))
          | false ↦ find_end fuel edits context (end + gap)
        ]
  ]
]

pub record Header : Type 0 where
  pub old_start : ℕ
  pub old_count : ℕ
  pub new_start : ℕ
  pub new_count : ℕ

-- The number of the next line that is in the new file, or in the old file; else 1.
unfoldable pub next_new : List Edit → ℕ
next_new [] = 1
next_new (e ∷ es) = let rest = next_new es in if ltb 0 e.new_n then e.new_n else rest

unfoldable pub next_old : List Edit → ℕ
next_old [] = 1
next_old (e ∷ es) = let rest = next_old es in if ltb 0 e.old_n then e.old_n else rest

abbrev pub or_else : ℕ → ℕ → ℕ
or_else n d = if nat_eq n 0 then d else n

-- One round of the loop over a hunk's edits; `rest` are the edits behind `e`.
unfoldable pub header_step : Edit → List Edit → Header → Header
unfolding next_new next_old
header_step e rest h = elim e.op [
  | keep ↦ record {
    old_start = or_else h.old_start e.old_n;
    old_count = h.old_count + 1;
    new_start = or_else h.new_start e.new_n;
    new_count = h.new_count + 1;
  }
  | remove ↦ record {
    old_start = or_else h.old_start e.old_n;
    old_count = h.old_count + 1;
    new_start = or_else h.new_start (next_new rest);
    new_count = h.new_count;
  }
  | add ↦ record {
    old_start = or_else h.old_start (next_old rest);
    old_count = h.old_count;
    new_start = or_else h.new_start e.new_n;
    new_count = h.new_count + 1;
  }
]

unfoldable pub header_of : List Edit → Header → Header
unfolding header_step
header_of [] h = h
header_of (e ∷ rest) h = header_of rest (header_step e rest h)

abbrev pub empty_header : Header
empty_header = record { old_start = 0; old_count = 0; new_start = 0; new_count = 0 }

pub record Hunk : Type 0 where
  pub header : Header
  pub edits : List Edit

-- The edits from `start` to `end`, with their header.
unfoldable pub hunk_at : List Edit → ℕ → ℕ → Hunk
unfolding header_of take drop
hunk_at edits start end =
    let slice = take (end - start) (drop start edits) in
    record { header = header_of slice empty_header; edits = slice }

-- The main loop, at `i`. Each round raises `i`; `none`: no fuel.
unfoldable pub find_hunks : ℕ → List Edit → ℕ → ℕ → Option (List Hunk)
unfolding find_end hunk_at is_context
find_hunks zero edits context i = none
find_hunks (suc fuel) edits context i = elim (ltb i (length edits)) [
  | false ↦ some []
  | true ↦ elim (is_context (get_or edits i no_edit)) [
    | true ↦ find_hunks fuel edits context (i + 1)
    | false ↦ elim (find_end (length edits + 1) edits context i) [
      | none ↦ none
      | some end ↦ elim (find_hunks fuel edits context end) [
        | none ↦ none
        | some hunks ↦ some (hunk_at edits (i - context) end ∷ hunks)
      ]
    ]
  ]
]

unfoldable pub compute_hunks : List Text → List Text → ℕ → Option (List Hunk)
unfolding number_edits find_hunks backtrack lcs_matrix
compute_hunks old new context = elim (backtrack (lcs_matrix old new) old new) [
  | none ↦ none
  | some es ↦ let edits = number_edits 0 0 es in find_hunks (length edits + 1) edits context 0
]
