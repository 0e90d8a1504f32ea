-- ===== src/Diff/Ends.antt =====
-- The loops over the edits end, and a hunk covers its change.
use zhi.Common.{
  ℕ, zero, suc, ◌+◌, ◌-◌, ◌*◌, ◌≤◌, ◌<◌, Text, true, false, ◌||◌, List, [], ◌∷◌, map, All, ap, sym,
  ◌∙◌, Option, some, ltb, leb, ◌≡◌, refl, inl, inr, arith, length, get_or, drop, min, Bool-cases,
  subst,
}
use zhi.Diff.Hunks.{
  Edit, Hunk, number_edits, is_context, context_run, no_edit, find_end, hunk_at, find_hunks,
  compute_hunks,
}
use zhi.Diff.Edits.{
  IsSlice, hunk_at-IsSlice, IsPlaced, edit_op, map-number_edits, number_edits-IsPlaced,
}
use zhi.Diff.Replay.{old_lines, new_lines, backtrack_lem}

-- A list whose element at `n` is a context line starts with one from there.
context_run-positive :
    (edits : List Edit) (n : ℕ)
    → n < length edits
    → is_context (get_or edits n no_edit) ≡ true
    → 1 ≤ context_run (drop n edits)
unfolding context_run drop
context_run-positive [] n h on = absurd (omega arith)
context_run-positive (e ∷ es) zero h on = ground arith
context_run-positive (e ∷ es) (suc n) h on = context_run-positive es n (omega arith) on

-- One round of the loop for the end, in each of its branches.
module _ (fuel : ℕ) (edits : List Edit) (context end : ℕ) where
  end-over : ltb end (length edits) ≡ false → find_end (suc fuel) edits context end ≡ some end
  unfolding find_end
  end-over over = rw (over, find_end) refl

  end-change :
      {r : Option ℕ}
      → ltb end (length edits) ≡ true
      → is_context (get_or edits end no_edit) ≡ false
      → find_end fuel edits context (end + 1) ≡ r
      → find_end (suc fuel) edits context end ≡ r
  unfolding find_end
  end-change inside change e = rw (inside, change, find_end) e

  abbrev gap : ℕ
  gap = context_run (drop end edits)

  end-far :
      ltb end (length edits) ≡ true
      → is_context (get_or edits end no_edit) ≡ true
      → (ltb (2 * context) gap || leb (length edits) (end + gap)) ≡ true
      → find_end (suc fuel) edits context end ≡ some (min (end + context) (length edits))
  unfolding find_end
  end-far inside on far = rw (inside, on, far, find_end) refl

  end-near :
      {r : Option ℕ}
      → ltb end (length edits) ≡ true
      → is_context (get_or edits end no_edit) ≡ true
      → (ltb (2 * context) gap || leb (length edits) (end + gap)) ≡ false
      → find_end fuel edits context (end + gap) ≡ r
      → find_end (suc fuel) edits context end ≡ r
  unfolding find_end
  end-near inside on near e = rw (inside, on, near, find_end) e

-- One round of the main loop, in each of its branches.
module _ (fuel : ℕ) (edits : List Edit) (context i : ℕ) where
  hunks-over : ltb i (length edits) ≡ false → find_hunks (suc fuel) edits context i ≡ some []
  unfolding find_hunks
  hunks-over over = rw (over, find_hunks) refl

  hunks-skip :
      {r : Option (List Hunk)}
      → ltb i (length edits) ≡ true
      → is_context (get_or edits i no_edit) ≡ true
      → find_hunks fuel edits context (i + 1) ≡ r
      → find_hunks (suc fuel) edits context i ≡ r
  unfolding find_hunks
  hunks-skip inside on e = rw (inside, on, find_hunks) e

  hunks-hunk :
      {stop : ℕ} {hunks : List Hunk}
      → ltb i (length edits) ≡ true
      → is_context (get_or edits i no_edit) ≡ false
      → find_end (length edits + 1) edits context i ≡ some stop
      → find_hunks fuel edits context stop ≡ some hunks
      → find_hunks (suc fuel) edits context i ≡ some (hunk_at edits (i - context) stop ∷ hunks)
  unfolding find_hunks
  hunks-hunk inside change e₁ e₂ = rw (inside, change, find_hunks) (rw (e₁, e₂) refl)

-- The end of a hunk lies behind its first change, and within the edits.
find_end_lem :
    (fuel : ℕ) (edits : List Edit) (context end : ℕ)
    → end ≤ length edits
    → length edits - end < fuel
    → (stop : ℕ) × (find_end fuel edits context end ≡ some stop)
      × (end ≤ stop)
      × (stop ≤ length edits)
find_end_lem zero edits context end h enough = absurd (omega arith)
find_end_lem (suc fuel) edits context end h enough = elim (Bool-cases (ltb end (length edits))) [
  | inr over ↦ (end, end-over fuel edits context end over, omega arith, h)
  | inl inside ↦ elim (Bool-cases (is_context (get_or edits end no_edit))) [
    | inr change ↦
        let (stop, e, lo, hi) =
          find_end_lem fuel edits context (end + 1) (ground arith) (ground arith) in
        (stop, end-change fuel edits context end inside change e, omega arith, hi)
    | inl on ↦
        let some_gap : 1 ≤ context_run (drop end edits) =
          context_run-positive edits end (ground arith) on in
        elim (Bool-cases (
          ltb (2 * context) (context_run (drop end edits))
          || leb (length edits) (end + context_run (drop end edits)))) [
            | inl far ↦ (
              min (end + context) (length edits),
              end-far fuel edits context end inside on far,
              ground arith,
              ground arith,
            )
            | inr near ↦
                let (stop, e, lo, hi) =
                  find_end_lem fuel edits context (end + context_run (drop end edits))
                    (ground arith) (ground arith) in
                (stop, end-near fuel edits context end inside on near e, omega arith, hi)
          ]
  ]
]

-- The end of a hunk that starts at a change lies behind it.
find_end-change :
    (fuel : ℕ) (edits : List Edit) (context i : ℕ)
    → i < length edits
    → is_context (get_or edits i no_edit) ≡ false
    → length edits - i < suc fuel
    → (stop : ℕ) × (find_end (suc fuel) edits context i ≡ some stop)
      × (i < stop)
      × (stop ≤ length edits)
find_end-change fuel edits context i h change enough =
    let inside : ltb i (length edits) ≡ true = ground arith in
    let (stop, e, lo, hi) = find_end_lem fuel edits context (i + 1) (omega arith) (omega arith) in
    (stop, end-change fuel edits context i inside change e, omega arith, hi)

-- What the main loop has found: hunks that hold every change from `i` on, in order, each with the
-- context before its first change.
pub data Covers (edits : List Edit) (context : ℕ) : ℕ → List Hunk → Type 0 where
  done : {i : ℕ} → length edits ≤ i → Covers edits context i []
  skip :
      {i : ℕ} {hunks : List Hunk}
      → is_context (get_or edits i no_edit) ≡ true
      → Covers edits context (i + 1) hunks
      → Covers edits context i hunks
  hunk :
      {i stop : ℕ} {h : Hunk} {hunks : List Hunk}
      → is_context (get_or edits i no_edit) ≡ false
      → i < stop
      → stop ≤ length edits
      → IsSlice edits (i - context) stop h.edits
      → Covers edits context stop hunks
      → Covers edits context i (h ∷ hunks)

find_hunks_lem :
    (fuel : ℕ) (edits : List Edit) (context i : ℕ)
    → length edits - i < fuel
    → (hunks : List Hunk) × (find_hunks fuel edits context i ≡ some hunks)
      × Covers edits context i hunks
find_hunks_lem zero edits context i enough = absurd (omega arith)
find_hunks_lem (suc fuel) edits context i enough = elim (Bool-cases (ltb i (length edits))) [
  | inr over ↦ ([], hunks-over fuel edits context i over, done (ground arith))
  | inl inside ↦ elim (Bool-cases (is_context (get_or edits i no_edit))) [
    | inl on ↦
        let (hunks, e, covered) = find_hunks_lem fuel edits context (i + 1) (ground arith) in
        (hunks, hunks-skip fuel edits context i inside on e, skip on covered)
    | inr change ↦
        let (stop, e₁, lo, hi) =
          find_end-change (length edits) edits context i (ground arith) change (ground arith) in
        let fuel_of : suc (length edits) ≡ length edits + 1 = omega arith in
        let (hunks, e₂, covered) = find_hunks_lem fuel edits context stop (ground arith) in
        (
          hunk_at edits (i - context) stop ∷ hunks,
          hunks-hunk fuel edits context i inside change
              (subst (λ n. find_end n edits context i ≡ some stop) fuel_of e₁) e₂,
          hunk change lo hi (hunk_at-IsSlice edits (i - context) stop (omega arith) hi) covered,
        )
  ]
]

pub compute_hunks_lem :
    (old new : List Text) (context : ℕ)
    → (edits : List Edit) × (hunks : List Hunk) × (compute_hunks old new context ≡ some hunks)
      × (old_lines (map edit_op edits) ≡ old)
      × (new_lines (map edit_op edits) ≡ new)
      × All (IsPlaced old new) edits
      × Covers edits context 0 hunks
unfolding compute_hunks
compute_hunks_lem old new context =
    let (es, e, olds, news) = backtrack_lem old new in
    let edits = number_edits 0 0 es in
    let (hunks, found, covered) = find_hunks_lem (length edits + 1) edits context 0 (omega arith) in
    let script = map-number_edits es 0 0 in
    (
      edits,
      hunks,
      rw (e, compute_hunks) found,
      ap old_lines script ∙ olds,
      ap new_lines script ∙ news,
      number_edits-IsPlaced old new es [] [] 0 0 (sym olds) (sym news) refl refl,
      covered,
    )
