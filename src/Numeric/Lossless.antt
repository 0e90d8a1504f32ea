-- ===== src/Numeric/Lossless.antt =====
-- Which conversions between integers keep the value.
use zhi.Common.{
  ℕ, ◌≤◌, ◌<◌, Option, none, some, ◌≡◌, ◌↔◌, ◌⊎◌, inl, inr, refl, arith, leb, Bool-cases, ap, subst,
  sym,
}
use zhi.Numeric.Convert.{
  ℤ, pos, negsuc, max_int, uint_size, Any, int, int8, int16, int32, int64, uint, uint8, uint16,
  uint32, uint64, float32, float64, string, bool, other, Kind, int_kind, int64_kind, uint_kind,
  float64_kind, other_kind, FloatOps, wrap_int, try_numeric_convert,
}

-- The integer that an int, an int64 or a uint stands for.
abbrev pub value_of : {F O : Type 0} → Any F O → Option ℤ
value_of (int z) = some z
value_of (int64 z) = some z
value_of (uint n) = some (pos n)
value_of _ = none

-- The numbers of a signed, and of an unsigned, type of 64 bits.
abbrev pub InSigned : ℤ → Type 0
InSigned (pos n) = n ≤ max_int
InSigned (negsuc n) = n ≤ max_int

abbrev pub InUnsigned : ℤ → Type 0
InUnsigned (pos n) = n < uint_size
InUnsigned (negsuc n) = ⊥

-- The numbers of a type; those of float64 are not looked at.
abbrev pub InKind : Kind → ℤ → Type 0
InKind int_kind z = InSigned z
InKind int64_kind z = InSigned z
InKind uint_kind z = InUnsigned z
InKind float64_kind z = Unit
InKind other_kind z = ⊥

-- A value that its type can hold.
abbrev pub IsHeld : {F O : Type 0} → Any F O → Type 0
IsHeld (int z) = InSigned z
IsHeld (int64 z) = InSigned z
IsHeld (uint n) = n < uint_size
IsHeld _ = Unit

-- What an optional value stands for.
abbrev number_of : {F O : Type 0} → Option (Any F O) → Option ℤ
number_of none = none
number_of (some v) = value_of v

pub wrap_int_iff : (n : ℕ) → (wrap_int n ≡ pos n) ↔ (n ≤ max_int)
unfolding wrap_int
wrap_int_iff n = elim (Bool-cases (leb n max_int)) [
  | inl fits ↦ rw fits (λ h. ground arith, λ h. refl)
  | inr over ↦ rw over (λ h. absurd (cc), λ h. absurd (ground arith))
]

pos_unsigned : (n : ℕ) (z : ℤ) → n ≤ max_int → some (pos n) ≡ some z → InUnsigned z
pos_unsigned n z held e =
    let same : pos n ≡ z = ground (arith, e) in
    let within : n < uint_size = omega arith in subst InUnsigned same within

negsuc_unsigned : (n : ℕ) (z : ℤ) → some (negsuc n) ≡ some z → ¬ InUnsigned z
negsuc_unsigned n z e h =
    let same : negsuc n ≡ z = ground (arith, e) in subst InUnsigned (sym same) h

module _ {F O : Type 0} (ops : FloatOps F) where
  -- For an int, an int64 or a uint that its type can hold, tryNumericConvert to int succeeds
  -- exactly if an int can hold the number, and then gives the int of that number.
  pub try_numeric_convert-int :
      (v : Any F O) (z : ℤ)
      → IsHeld v
      → value_of v ≡ some z
      → ((try_numeric_convert ops v int_kind ≡ some (int z)) × InSigned z)
        ⊎ ((try_numeric_convert ops v int_kind ≡ none) × ¬ InSigned z)
  unfolding try_numeric_convert
  try_numeric_convert-int (int x) z held e =
      let same : x ≡ z = ground (arith, e) in
      inl (ap (λ y. some (int y)) same, subst InSigned same held)
  try_numeric_convert-int (int64 x) z held e =
      let same : x ≡ z = ground (arith, e) in
      inl (ap (λ y. some (int y)) same, subst InSigned same held)
  try_numeric_convert-int (uint n) z held e =
      let same : pos n ≡ z = ground (arith, e) in
      elim (Bool-cases (leb n max_int)) [
        | inl fits ↦
            let within : n ≤ max_int = ground arith in
            inl (rw fits (ap (λ y. some (int y)) same), subst InSigned same within)
        | inr over ↦ inr (
          rw over refl,
          λ h. let within : n ≤ max_int = subst InSigned (sym same) h in absurd (ground arith),
        )
      ]
  try_numeric_convert-int (int8 x) z held e = absurd (cc)
  try_numeric_convert-int (int16 x) z held e = absurd (cc)
  try_numeric_convert-int (int32 x) z held e = absurd (cc)
  try_numeric_convert-int (uint8 x) z held e = absurd (cc)
  try_numeric_convert-int (uint16 x) z held e = absurd (cc)
  try_numeric_convert-int (uint32 x) z held e = absurd (cc)
  try_numeric_convert-int (uint64 x) z held e = absurd (cc)
  try_numeric_convert-int (float32 x) z held e = absurd (cc)
  try_numeric_convert-int (float64 x) z held e = absurd (cc)
  try_numeric_convert-int (string x) z held e = absurd (cc)
  try_numeric_convert-int (bool x) z held e = absurd (cc)
  try_numeric_convert-int (other t x) z held e = absurd (cc)

  -- For an int, an int64 or a uint that its type can hold, tryNumericConvert to uint succeeds
  -- exactly if a uint can hold the number, and then gives a value of the same number.
  try_numeric_convert-uint :
      (v : Any F O) (z : ℤ)
      → IsHeld v
      → value_of v ≡ some z
      → ((w : Any F O) × (try_numeric_convert ops v uint_kind ≡ some w)
          × (value_of w ≡ some z)
          × InUnsigned z)
        ⊎ ((try_numeric_convert ops v uint_kind ≡ none) × ¬ InUnsigned z)
  unfolding try_numeric_convert
  try_numeric_convert-uint (int (pos n)) z held e = inl (uint n, refl, e, pos_unsigned n z held e)
  try_numeric_convert-uint (int (negsuc n)) z held e = inr (refl, negsuc_unsigned n z e)
  try_numeric_convert-uint (int64 (pos n)) z held e = inl (uint n, refl, e, pos_unsigned n z held e)
  try_numeric_convert-uint (int64 (negsuc n)) z held e = inr (refl, negsuc_unsigned n z e)
  try_numeric_convert-uint (uint n) z held e =
      let same : pos n ≡ z = ground (arith, e) in inl (uint n, refl, e, subst InUnsigned same held)
  try_numeric_convert-uint (int8 x) z held e = absurd (cc)
  try_numeric_convert-uint (int16 x) z held e = absurd (cc)
  try_numeric_convert-uint (int32 x) z held e = absurd (cc)
  try_numeric_convert-uint (uint8 x) z held e = absurd (cc)
  try_numeric_convert-uint (uint16 x) z held e = absurd (cc)
  try_numeric_convert-uint (uint32 x) z held e = absurd (cc)
  try_numeric_convert-uint (uint64 x) z held e = absurd (cc)
  try_numeric_convert-uint (float32 x) z held e = absurd (cc)
  try_numeric_convert-uint (float64 x) z held e = absurd (cc)
  try_numeric_convert-uint (string x) z held e = absurd (cc)
  try_numeric_convert-uint (bool x) z held e = absurd (cc)
  try_numeric_convert-uint (other t x) z held e = absurd (cc)

  -- A uint keeps its number in the conversion to int64, which always succeeds, exactly up to the
  -- greatest int64.
  try_numeric_convert-int64 :
      (n : ℕ)
      → (w : Any F O) × (try_numeric_convert ops (uint n) int64_kind ≡ some w)
        × ((value_of w ≡ some (pos n)) ↔ (n ≤ max_int))
  unfolding try_numeric_convert
  try_numeric_convert-int64 n = (
    int64 (wrap_int n),
    refl,
    (λ e. (wrap_int_iff n).0 (ground (arith, e)), λ h. ap some ((wrap_int_iff n).1 h)),
  )
