-- ===== src/Engine/Taken.antt =====
-- What LoadTree makes of a stored value and of a default, described without the code.
use zhi.Common.{Text, bytes, Bool, true, false, Option, none, some, ok, err, ◌≡◌, ◌≢◌, lookup}
use zhi.Numeric.Convert.{
  Any, int, int64, uint, float64, string, other, Kind, int_kind, int64_kind, uint_kind,
  float64_kind, other_kind, try_numeric_convert,
}
use zhi.Numeric.TryConvert.{
  Target, string_type, int_type, uint_type, float64_type, bool_type, other_type, ConvertError,
  type_of, try_convert,
}
use zhi.Engine.State.{Entry, Host}

-- The semantic types, with the types that values of them are converted to.
abbrev pub IsSemantic : Text → Target → Type 0
IsSemantic t string_type = t ≡ bytes "string"
IsSemantic t int_type = t ≡ bytes "int"
IsSemantic t uint_type = t ≡ bytes "uint"
IsSemantic t float64_type = t ≡ bytes "float"
IsSemantic t bool_type = t ≡ bytes "bool"
IsSemantic t (other_type name) = ⊥

-- The metadata name this semantic type.
abbrev pub HasType : {F O Fn : Type 0} → Entry F O Fn → Text → Type 0
HasType v t = lookup (bytes "core.type") v.metadata ≡ some (string t)

-- A stored value is converted to its semantic type if that can be done, and else taken as it is.
pub data IsStored {F O Fn : Type 0} (host : Host F O) (v : Entry F O Fn)
    : Entry F O Fn → Type 0 where
  converted :
      (t : Text) (target : Target) {x : Any F O}
      → HasType v t
      → IsSemantic t target
      → try_convert host.conv v.val target ≡ ok x
      → IsStored host v (record v { val = x })
  refused :
      (t : Text) (target : Target) {e : ConvertError}
      → HasType v t
      → IsSemantic t target
      → try_convert host.conv v.val target ≡ err e
      → IsStored host v v
  untyped : ((t : Text) (target : Target) → HasType v t → ¬ IsSemantic t target) → IsStored host v v

-- The kind of the type of a value, by the kinds that the numeric conversion tells apart.
abbrev pub IsKind : {F O : Type 0} → Host F O → Any F O → Kind → Type 0
IsKind host (int z) k = k ≡ int_kind
IsKind host (int64 z) k = k ≡ int64_kind
IsKind host (uint n) k = k ≡ uint_kind
IsKind host (float64 v) k = k ≡ float64_kind
IsKind host (other name v) k = k ≡ host.type_kind name
IsKind host _ k = k ≡ other_kind

-- The default takes a stored value of its type, or else what the numeric conversion to the kind of
-- its type makes of it, and stays as it is if that fails.
pub data IsTaken {F O : Type 0} (host : Host F O) (stored current : Any F O)
    : Any F O → Type 0 where
  same_type : type_of stored ≡ type_of current → IsTaken host stored current stored
  numeric :
      (k : Kind) {x : Any F O}
      → type_of stored ≢ type_of current
      → IsKind host current k
      → try_numeric_convert host.num stored k ≡ some x
      → IsTaken host stored current x
  kept :
      (k : Kind)
      → type_of stored ≢ type_of current
      → IsKind host current k
      → try_numeric_convert host.num stored k ≡ none
      → IsTaken host stored current current

-- What the tree has at a path: nothing if it is not listed or has no default; the default if nothing
-- is stored; and else the default with what it takes of the stored value.
abbrev pub IsLoaded :
    {F O Fn : Type 0}
    → Host F O
    → Bool
    → Option (Entry F O Fn)
    → Option (Entry F O Fn)
    → Option (Entry F O Fn)
    → Type 0
IsLoaded host false default stored out = out ≡ none
IsLoaded host true none stored out = out ≡ none
IsLoaded host true (some v) none out = out ≡ some v
IsLoaded {F} {O} {Fn} host true (some v) (some s) out =
    (w : Entry F O Fn) × (x : Any F O) × IsStored host s w
    × IsTaken host w.val v.val x
    × (out ≡ some (record v { val = x }))
