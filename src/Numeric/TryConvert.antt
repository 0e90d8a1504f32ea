-- ===== src/Numeric/TryConvert.antt =====
-- pkg/zhiplugin/config/convert.go: `TryConvert`, on the value alone, with what the source asks of
-- float64, strconv and fmt as arguments. A float32 is held as the float64 of the same number.
use zhi.Common.{
  ℕ, Text, bytes, Bool, true, not, ◌||◌, Option, none, some, Result, ok, err, ◌==◌, nat_eq,
  if◌then◌else◌,
}
use zhi.Numeric.Convert.{
  ℤ, pos, negsuc, Any, int, int8, int16, int32, int64, uint, uint8, uint16, uint32, uint64, float32,
  float64, string, bool, other, wrap_int,
}

-- f != math.Trunc(f); f < 0; f != 0; the conversions; strconv.Atoi, ParseUint, ParseFloat and
-- ParseBool, where none is an error; fmt.Sprintf("%v", val).
pub record ConvertOps (F O : Type 0) : Type 0 where
  pub is_not_whole : F → Bool
  pub is_negative : F → Bool
  pub is_nonzero : F → Bool
  pub int_of : F → ℤ
  pub uint_of : F → ℕ
  pub of_int : ℤ → F
  pub of_uint : ℕ → F
  pub atoi : Text → Option ℤ
  pub parse_uint : Text → Option ℕ
  pub parse_float : Text → Option F
  pub parse_bool : Text → Option Bool
  pub sprint : Any F O → Text

-- The target type; `other_type` is one of another kind.
pub data Target : Type 0 where
  string_type int_type uint_type float64_type bool_type : Target
  other_type : Text → Target

pub data ConvertError : Type 0 where
  not_whole : ConvertError
  negative : ConvertError
  not_parsed : ConvertError
  no_conversion : ConvertError

-- reflect.TypeOf(val), by name.
unfoldable pub type_of : {F O : Type 0} → Any F O → Text
type_of (int z) = bytes "int"
type_of (int8 z) = bytes "int8"
type_of (int16 z) = bytes "int16"
type_of (int32 z) = bytes "int32"
type_of (int64 z) = bytes "int64"
type_of (uint n) = bytes "uint"
type_of (uint8 n) = bytes "uint8"
type_of (uint16 n) = bytes "uint16"
type_of (uint32 n) = bytes "uint32"
type_of (uint64 n) = bytes "uint64"
type_of (float32 v) = bytes "float32"
type_of (float64 v) = bytes "float64"
type_of (string s) = bytes "string"
type_of (bool b) = bytes "bool"
type_of (other name v) = name

abbrev pub target_name : Target → Text
target_name string_type = bytes "string"
target_name int_type = bytes "int"
target_name uint_type = bytes "uint"
target_name float64_type = bytes "float64"
target_name bool_type = bytes "bool"
target_name (other_type name) = name

-- typedVal != 0 for an integer.
abbrev pub nonzero : ℤ → Bool
nonzero (pos n) = not (nat_eq n 0)
nonzero (negsuc n) = true

abbrev pub parsed : {A B : Type 0} → (A → B) → Option A → Result ConvertError B
parsed f none = err not_parsed
parsed f (some a) = ok (f a)

module _ {F O : Type 0} where
  unfoldable pub nonnegative_uint : ℤ → Result ConvertError (Any F O)
  nonnegative_uint (pos n) = ok (uint n)
  nonnegative_uint (negsuc n) = err negative

  module _ (ops : ConvertOps F O) where
    unfoldable pub whole_int : F → Result ConvertError (Any F O)
    whole_int f = if ops.is_not_whole f then err not_whole else ok (int (ops.int_of f))

    unfoldable pub whole_uint : F → Result ConvertError (Any F O)
    whole_uint f =
        if ops.is_negative f || ops.is_not_whole f then err not_whole else ok (uint (ops.uint_of f))

    unfoldable pub convert_int : Any F O → Result ConvertError (Any F O)
    unfolding whole_int wrap_int
    convert_int (int z) = ok (int z)
    convert_int (int8 z) = ok (int z)
    convert_int (int16 z) = ok (int z)
    convert_int (int32 z) = ok (int z)
    convert_int (int64 z) = ok (int z)
    convert_int (uint n) = ok (int (wrap_int n))
    convert_int (uint8 n) = ok (int (pos n))
    convert_int (uint16 n) = ok (int (pos n))
    convert_int (uint32 n) = ok (int (pos n))
    convert_int (uint64 n) = ok (int (wrap_int n))
    convert_int (float32 v) = whole_int v
    convert_int (float64 v) = whole_int v
    convert_int (string s) = parsed int (ops.atoi s)
    convert_int _ = err no_conversion

    unfoldable pub convert_uint : Any F O → Result ConvertError (Any F O)
    unfolding whole_uint nonnegative_uint
    convert_uint (int z) = nonnegative_uint z
    convert_uint (int8 z) = nonnegative_uint z
    convert_uint (int16 z) = nonnegative_uint z
    convert_uint (int32 z) = nonnegative_uint z
    convert_uint (int64 z) = nonnegative_uint z
    convert_uint (uint n) = ok (uint n)
    convert_uint (uint8 n) = ok (uint n)
    convert_uint (uint16 n) = ok (uint n)
    convert_uint (uint32 n) = ok (uint n)
    convert_uint (uint64 n) = ok (uint n)
    convert_uint (float32 v) = whole_uint v
    convert_uint (float64 v) = whole_uint v
    convert_uint (string s) = parsed uint (ops.parse_uint s)
    convert_uint _ = err no_conversion

    unfoldable pub convert_float : Any F O → Result ConvertError (Any F O)
    convert_float (int z) = ok (float64 (ops.of_int z))
    convert_float (int8 z) = ok (float64 (ops.of_int z))
    convert_float (int16 z) = ok (float64 (ops.of_int z))
    convert_float (int32 z) = ok (float64 (ops.of_int z))
    convert_float (int64 z) = ok (float64 (ops.of_int z))
    convert_float (uint n) = ok (float64 (ops.of_uint n))
    convert_float (uint8 n) = ok (float64 (ops.of_uint n))
    convert_float (uint16 n) = ok (float64 (ops.of_uint n))
    convert_float (uint32 n) = ok (float64 (ops.of_uint n))
    convert_float (uint64 n) = ok (float64 (ops.of_uint n))
    convert_float (float32 v) = ok (float64 v)
    convert_float (float64 v) = ok (float64 v)
    convert_float (string s) = parsed float64 (ops.parse_float s)
    convert_float _ = err no_conversion

    unfoldable pub convert_bool : Any F O → Result ConvertError (Any F O)
    convert_bool (int z) = ok (bool (nonzero z))
    convert_bool (int8 z) = ok (bool (nonzero z))
    convert_bool (int16 z) = ok (bool (nonzero z))
    convert_bool (int32 z) = ok (bool (nonzero z))
    convert_bool (int64 z) = ok (bool (nonzero z))
    convert_bool (uint n) = ok (bool (not (nat_eq n 0)))
    convert_bool (uint8 n) = ok (bool (not (nat_eq n 0)))
    convert_bool (uint16 n) = ok (bool (not (nat_eq n 0)))
    convert_bool (uint32 n) = ok (bool (not (nat_eq n 0)))
    convert_bool (uint64 n) = ok (bool (not (nat_eq n 0)))
    convert_bool (float32 v) = ok (bool (ops.is_nonzero v))
    convert_bool (float64 v) = ok (bool (ops.is_nonzero v))
    convert_bool (string s) = parsed bool (ops.parse_bool s)
    convert_bool _ = err no_conversion

    -- The switch over the kind of the target.
    unfoldable pub convert_to : Any F O → Target → Result ConvertError (Any F O)
    unfolding convert_int convert_uint convert_float convert_bool
    convert_to val string_type = ok (string (ops.sprint val))
    convert_to val int_type = convert_int val
    convert_to val uint_type = convert_uint val
    convert_to val float64_type = convert_float val
    convert_to val bool_type = convert_bool val
    convert_to val (other_type name) = err no_conversion

    unfoldable pub try_convert : Any F O → Target → Result ConvertError (Any F O)
    unfolding convert_to type_of
    try_convert val target =
        if type_of val == target_name target then ok val else convert_to val target
