-- ===== src/Numeric/Convert.antt =====
-- internal/core/numeric.go, on a platform whose int and uint have 64 bits. The type of float64 and
-- what the source asks of it are arguments.
use zhi.Common.{ℕ, ◌-◌, Text, Bool, Option, none, some, leb, if◌then◌else◌}

-- The integers over the native numbers: `pos n` is n, and `negsuc n` is -(n + 1).
pub data ℤ : Type 0 where
  pos : ℕ → ℤ
  negsuc : ℕ → ℤ

-- math.MaxInt, and the number of values of a uint.
abbrev pub max_int : ℕ
max_int = 9223372036854775807

abbrev pub uint_size : ℕ
uint_size = 18446744073709551616

-- A value of type any. `other` is a value of a type that is not listed, with the name of the type;
-- nil is one, and the kind of its type is no numeric one.
pub data Any (F O : Type 0) : Type 0 where
  int int8 int16 int32 int64 : ℤ → Any F O
  uint uint8 uint16 uint32 uint64 : ℕ → Any F O
  float32 float64 : F → Any F O
  string : Text → Any F O
  bool : Bool → Any F O
  other : Text → O → Any F O

pub data Kind : Type 0 where
  int_kind : Kind
  int64_kind : Kind
  uint_kind : Kind
  float64_kind : Kind
  other_kind : Kind

-- What the source uses of float64: v != math.Trunc(v) || IsNaN(v) || IsInf(v, 0); whether v lies
-- in the bounds that toInt, toInt64 and toUint test; and the conversions.
pub record FloatOps (F : Type 0) : Type 0 where
  pub is_fractional : F → Bool
  pub beyond_int : F → Bool
  pub beyond_exact : F → Bool
  pub beyond_uint : F → Bool
  pub int_of : F → ℤ
  pub uint_of : F → ℕ
  pub of_int : ℤ → F
  pub of_uint : ℕ → F

-- int64(v) for a uint v: two's complement.
unfoldable pub wrap_int : ℕ → ℤ
wrap_int v = if leb v max_int then pos v else negsuc (uint_size - 1 - v)

-- v >= 0 ? uint(v)
unfoldable pub nonnegative : {F O : Type 0} → ℤ → Option (Any F O)
nonnegative (pos n) = some (uint n)
nonnegative (negsuc n) = none

module _ {F O : Type 0} (ops : FloatOps F) where
  -- The test of the case int64 is always met: the bounds are those of the type.
  unfoldable pub to_int : Any F O → Option (Any F O)
  to_int (int v) = some (int v)
  to_int (int64 v) = some (int v)
  to_int (float64 v) =
      if ops.is_fractional v
      then none
      else if ops.beyond_int v
      then none
      else some (int (ops.int_of v))
  to_int (uint v) = if leb v max_int then some (int (pos v)) else none
  to_int _ = none

  unfoldable pub to_int64 : Any F O → Option (Any F O)
  unfolding wrap_int
  to_int64 (int64 v) = some (int64 v)
  to_int64 (int v) = some (int64 v)
  to_int64 (float64 v) =
      if ops.is_fractional v
      then none
      else if ops.beyond_exact v
      then none
      else some (int64 (ops.int_of v))
  to_int64 (uint v) = some (int64 (wrap_int v))
  to_int64 _ = none

  unfoldable pub to_float64 : Any F O → Option (Any F O)
  to_float64 (float64 v) = some (float64 v)
  to_float64 (int v) = some (float64 (ops.of_int v))
  to_float64 (int64 v) = some (float64 (ops.of_int v))
  to_float64 (uint v) = some (float64 (ops.of_uint v))
  to_float64 _ = none

  unfoldable pub to_uint : Any F O → Option (Any F O)
  unfolding nonnegative
  to_uint (uint v) = some (uint v)
  to_uint (int v) = nonnegative v
  to_uint (int64 v) = nonnegative v
  to_uint (float64 v) =
      if ops.is_fractional v
      then none
      else if ops.beyond_uint v
      then none
      else some (uint (ops.uint_of v))
  to_uint _ = none

  unfoldable pub try_numeric_convert : Any F O → Kind → Option (Any F O)
  unfolding to_int to_int64 to_float64 to_uint
  try_numeric_convert val int_kind = to_int val
  try_numeric_convert val int64_kind = to_int64 val
  try_numeric_convert val float64_kind = to_float64 val
  try_numeric_convert val uint_kind = to_uint val
  try_numeric_convert val other_kind = none
