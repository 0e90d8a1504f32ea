-- ===== src/Numeric/Examples.antt =====
-- The theorems on conversions at concrete numbers, with whole numbers in the place of float64.
use zhi.Common.{ℕ, Text, [], false, none, some, ltb, ◌≡◌, ◌⊎◌, refl, arith}
use zhi.Numeric.Convert.{
  pos, negsuc, max_int, Any, int, uint, int_kind, int64_kind, FloatOps, try_numeric_convert,
}
use zhi.Numeric.TryConvert.{ConvertOps}
use zhi.Numeric.Lossless.{InSigned, try_numeric_convert-int}

abbrev whole : FloatOps ℕ
whole = record {
  is_fractional = λ v. false;
  beyond_int = λ v. ltb max_int v;
  beyond_exact = λ v. ltb 9007199254740992 v;
  beyond_uint = λ v. false;
  int_of = λ v. pos v;
  uint_of = λ v. v;
  of_int = λ z. elim z [ pos n ↦ n | negsuc n ↦ 0 ];
  of_uint = λ n. n;
}

wrapped :
    try_numeric_convert {O = Text} whole (uint 18446744073709551615) int64_kind
    ≡ some (Any.int64 (negsuc 0))
unfolding try_numeric_convert
wrapped = refl

try_numeric_convert-int_example :
    ((try_numeric_convert {O = Text} whole (uint 8080) int_kind ≡ some (int (pos 8080)))
      × InSigned (pos 8080))
    ⊎ ((try_numeric_convert {O = Text} whole (uint 8080) int_kind ≡ none) × ¬ InSigned (pos 8080))
try_numeric_convert-int_example =
    try_numeric_convert-int {O = Text} whole (uint 8080) (pos 8080) (omega arith) refl

abbrev whole_ops : ConvertOps ℕ Text
whole_ops = record {
  is_not_whole = λ v. false;
  is_negative = λ v. false;
  is_nonzero = λ v. ltb 0 v;
  int_of = λ v. pos v;
  uint_of = λ v. v;
  of_int = λ z. elim z [ pos n ↦ n | negsuc n ↦ 0 ];
  of_uint = λ n. n;
  atoi = λ s. none;
  parse_uint = λ s. none;
  parse_float = λ s. none;
  parse_bool = λ s. none;
  sprint = λ v. [];
}
