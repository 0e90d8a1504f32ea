-- ===== src/Numeric/Converted.antt =====
-- What TryConvert does to an integer.
use zhi.Common.{ℕ, ◌≤◌, Option, none, some, ok, err, ◌≡◌, ◌⊎◌, inl, inr, refl, arith, ◌==◌}
use zhi.Numeric.Convert.{
  ℤ, pos, negsuc, max_int, Any, int, int8, int16, int32, int64, uint, uint8, uint16, uint32, uint64,
  float32, float64, string, bool, other,
}
use zhi.Numeric.TryConvert.{
  ConvertOps, uint_type, negative, convert_uint, nonnegative_uint, type_of, try_convert,
}

-- The number of an integer, of any of its types.
abbrev pub number_of : {F O : Type 0} → Any F O → Option ℤ
number_of (int z) = some z
number_of (int8 z) = some z
number_of (int16 z) = some z
number_of (int32 z) = some z
number_of (int64 z) = some z
number_of (uint n) = some (pos n)
number_of (uint8 n) = some (pos n)
number_of (uint16 n) = some (pos n)
number_of (uint32 n) = some (pos n)
number_of (uint64 n) = some (pos n)
number_of _ = none

-- The numbers that the narrower types hold, and those of the types of 64 bits that an int holds.
abbrev pub FitsInt : {F O : Type 0} → Any F O → Type 0
FitsInt (uint n) = n ≤ max_int
FitsInt (uint64 n) = n ≤ max_int
FitsInt _ = Unit

module _ {F O : Type 0} (ops : ConvertOps F O) where
  nonnegative_uint_lem :
      (x z : ℤ)
      → some x ≡ some z
      → ((n : ℕ) × (z ≡ pos n) × (nonnegative_uint {F = F} {O = O} x ≡ ok (uint n)))
        ⊎ ((n : ℕ) × (z ≡ negsuc n) × (nonnegative_uint {F = F} {O = O} x ≡ err negative))
  unfolding nonnegative_uint
  nonnegative_uint_lem (pos n) z e = inl (n, ground (arith, e), refl)
  nonnegative_uint_lem (negsuc n) z e = inr (n, ground (arith, e), refl)

  -- An integer of any type is converted to a uint of the same number if it is not negative, and is
  -- refused otherwise.
  try_convert-uint :
      (v : Any F O) (z : ℤ)
      → number_of v ≡ some z
      → ((n : ℕ) × (z ≡ pos n) × (try_convert ops v uint_type ≡ ok (uint n)))
        ⊎ ((n : ℕ) × (z ≡ negsuc n) × (try_convert ops v uint_type ≡ err negative))
  unfolding try_convert convert_uint type_of ◌==◌
  try_convert-uint (int x) z e = nonnegative_uint_lem x z e
  try_convert-uint (int8 x) z e = nonnegative_uint_lem x z e
  try_convert-uint (int16 x) z e = nonnegative_uint_lem x z e
  try_convert-uint (int32 x) z e = nonnegative_uint_lem x z e
  try_convert-uint (int64 x) z e = nonnegative_uint_lem x z e
  try_convert-uint (uint n) z e = inl (n, ground (arith, e), refl)
  try_convert-uint (uint8 n) z e = inl (n, ground (arith, e), refl)
  try_convert-uint (uint16 n) z e = inl (n, ground (arith, e), refl)
  try_convert-uint (uint32 n) z e = inl (n, ground (arith, e), refl)
  try_convert-uint (uint64 n) z e = inl (n, ground (arith, e), refl)
  try_convert-uint (float32 x) z e = absurd (cc)
  try_convert-uint (float64 x) z e = absurd (cc)
  try_convert-uint (string x) z e = absurd (cc)
  try_convert-uint (bool x) z e = absurd (cc)
  try_convert-uint (other t x) z e = absurd (cc)
