-- ===== src/Config/Tree.antt =====
-- `Value`, `Tree` and `unsafeTreeReader` of pkg/zhiplugin/config/config.go. The type of a `Val`,
-- of a metadata map and of a validator are arguments, and so is the call of a validator. A tree
-- maps paths to values: writes through the pointer that `GetPtr` returns are not modelled.
use zhi.Common.{
  Text, bytes, List, [], ◌∷◌, ◌++◌, Option, Result, ok, err, Map, lookup, insert, delete, keys,
}
use zhi.Config.Path.{PathError, validate_path}

pub data Severity : Type 0 where
  info : Severity
  warning : Severity
  blocking : Severity
  other_severity : Severity

unfoldable pub severity_string : Severity → Text
severity_string info = bytes "info"
severity_string warning = bytes "warning"
severity_string blocking = bytes "blocking"
severity_string other_severity = bytes "unknown"

pub record ValidationResult (M : Type 0) : Type 0 where
  pub severity : Severity
  pub message : Text
  pub metadata : M

pub record Value (A M F : Type 0) : Type 0 where
  pub val : A
  pub metadata : M
  pub version : Text
  pub validators : List F

pub record TreeReader (V : Type 0) : Type 0 where
  pub get : Text → Option V
  pub list : List Text

pub record Tree (V : Type 0) : Type 0 where
  pub values : Map V

module _ {V : Type 0} where
  abbrev pub new_tree : Tree V
  new_tree = record { values = [] }

  unfoldable pub set : Text → V → Tree V → Result PathError (Tree V)
  set path v t = elim (validate_path path) [
    | err e ↦ err e
    | ok _ ↦ ok (record { values = insert path v t.values })
  ]

  unfoldable pub get : Tree V → Text → Option V
  get t path = lookup path t.values

  unfoldable pub delete_path : Text → Tree V → Tree V
  delete_path path t = record { values = delete path t.values }

  unfoldable pub list : Tree V → List Text
  list t = keys t.values

  -- The reader that the validators are given.
  unfoldable pub reader : Tree V → TreeReader V
  reader t = record { get = λ path. lookup path t.values; list = keys t.values }

-- if results := v.Validate(reader); len(results) > 0 { out[path] = results }
unfoldable pub add_results : {R : Type 0} → Text → List R → Map (List R) → Map (List R)
add_results path [] out = out
add_results path (r ∷ rs) out = insert path (r ∷ rs) out

module _ {A M F : Type 0} (run : F → A → TreeReader (Value A M F) → List (ValidationResult M)) where
  unfoldable pub run_validators : List F → A → TreeReader (Value A M F) → List (ValidationResult M)
  run_validators [] val tree = []
  run_validators (fn ∷ fns) val tree = run fn val tree ++ run_validators fns val tree

  unfoldable pub validate_value : Value A M F → TreeReader (Value A M F) → List (ValidationResult M)
  unfolding run_validators
  validate_value v tree = run_validators v.validators v.val tree

  -- The loop of `Tree.Validate` over the entries, with the map `out`.
  unfoldable pub validate_entries :
      TreeReader (Value A M F)
      → Map (Value A M F)
      → Map (List (ValidationResult M))
      → Map (List (ValidationResult M))
  unfolding validate_value add_results
  validate_entries tree [] out = out
  validate_entries tree ((path, v) ∷ rest) out =
      validate_entries tree rest (add_results path (validate_value v tree) out)

  unfoldable pub validate_tree : Tree (Value A M F) → Map (List (ValidationResult M))
  unfolding validate_entries reader
  validate_tree t = validate_entries (reader t) t.values []
