-- ===== src/Engine/State.antt =====
-- The engine of internal/core/engine.go: its state, the values that it moves, and what it does with
-- them. The registry and the transform plugins' processes are left out.
use zhi.Common.{
  Text, bytes, [], Option, none, some, Result, ok, err, Map, lookup, if◌then◌else◌, ◌==◌,
}
use zhi.Numeric.Convert.{
  Any, int, int64, uint, float64, string, other, Kind, int_kind, int64_kind, uint_kind,
  float64_kind, other_kind, FloatOps, try_numeric_convert,
}
use zhi.Numeric.TryConvert.{
  ConvertOps, ConvertError, no_conversion, string_type, int_type, uint_type, float64_type,
  bool_type, type_of, try_convert,
}
use zhi.Config.Path.{PathError}
use zhi.Config.Tree.{Value}
use zhi.Config.Merged.{Plugin}
use zhi.Component.Manager.{ComponentManager}
use zhi.Store.Types.{StoreError}
use zhi.Store.Mirrored.{Replica}

-- A configuration value, with its metadata.
abbrev pub Entry : Type 0 → Type 0 → Type 0 → Type 0
Entry F O Fn = Value (Any F O) (Map (Any F O)) Fn

-- The floats, strconv and fmt, the kind of a type that `Any` does not list, by its name (a named
-- type such as time.Duration has the kind of the type it is made of, and the nil type counts as one
-- of another kind), and hex.EncodeToString of the first 8 bytes of sha256.Sum256.
pub record Host (F O : Type 0) : Type 0 where
  pub num : FloatOps F
  pub conv : ConvertOps F O
  pub type_kind : Text → Kind
  pub tree_hash : Text → Text

-- `store` is none if no store is configured. `workspace_dir` is none for a nil workspace.
pub record Engine (C S V R E : Type 0) : Type 0 where
  pub config_plugin : Plugin C V R E
  pub config_state : C
  pub store : Option (Replica S V)
  pub components : ComponentManager
  pub workspace_dir : Option Text

-- Errors, with the place where they are wrapped.
pub data EngineError (E : Type 0) : Type 0 where
  no_store : EngineError E
  listing : E → EngineError E
  getting : Text → E → EngineError E
  setting : Text → PathError → EngineError E
  validating : Text → E → EngineError E
  invalid_path : PathError → EngineError E
  config_error : E → EngineError E
  store_error : StoreError → EngineError E
  loading_stored : EngineError E → EngineError E

-- A method of the engine: its result, and the engine behind it.
abbrev pub Method : Type 0 → Type 0 → Type 0 → Type 0 → Type 0 → Type 0 → Type 0
Method C S V R E X = Engine C S V R E → Result (EngineError E) X × Engine C S V R E

module _ {C S V R E : Type 0} where
  unfoldable pub with_store : Engine C S V R E → Replica S V → S → Engine C S V R E
  with_store e r s = record e { store = some (record { impl = r.impl; state = s }) }

  -- An engine with this store.
  abbrev pub with_replica : Engine C S V R E → Replica S V → Engine C S V R E
  with_replica e r = record e { store = some r }

  unfoldable pub get_workspace_dir : Engine C S V R E → Text
  get_workspace_dir e = elim e.workspace_dir [ none ↦ [] | some dir ↦ dir ]

  unfoldable pub tree_id : {F O : Type 0} → Host F O → Engine C S V R E → Text
  unfolding get_workspace_dir
  tree_id host e =
      let dir = get_workspace_dir e in if dir == [] then bytes "default" else host.tree_hash dir

module _ {F O : Type 0} where
  -- labels.GetString and labels.GetSemanticType
  unfoldable pub get_string : Map (Any F O) → Text → Text → Text
  get_string metadata name default = elim (lookup name metadata) [
    | none ↦ default
    | some v ↦ elim v [ string s ↦ s | _ ↦ default ]
  ]

  unfoldable pub get_semantic_type : Map (Any F O) → Text
  unfolding get_string
  get_semantic_type metadata = get_string metadata (bytes "core.type") []

  module _ (host : Host F O) where
    -- reflect.TypeOf(v).Kind(), as far as isNumericType tells kinds apart
    unfoldable pub kind_of : Any F O → Kind
    kind_of (int z) = int_kind
    kind_of (int64 z) = int64_kind
    kind_of (uint n) = uint_kind
    kind_of (float64 v) = float64_kind
    kind_of (other name v) = host.type_kind name
    kind_of _ = other_kind

    -- The switch over the semantic type in LoadStoredTree.
    unfoldable pub to_semantic : Text → Any F O → Result ConvertError (Any F O)
    to_semantic desired v =
        if desired == bytes "string"
        then try_convert host.conv v string_type
        else if desired == bytes "int"
        then try_convert host.conv v int_type
        else if desired == bytes "uint"
        then try_convert host.conv v uint_type
        else if desired == bytes "float"
        then try_convert host.conv v float64_type
        else if desired == bytes "bool"
        then try_convert host.conv v bool_type
        else err no_conversion

    -- A value as LoadStoredTree puts it into the tree: an error of the conversion is logged.
    unfoldable pub stored_value : {Fn : Type 0} → Entry F O Fn → Entry F O Fn
    unfolding to_semantic get_semantic_type
    stored_value v =
        let desired = get_semantic_type v.metadata in
        if desired == []
        then v
        else elim (to_semantic desired v.val) [ ok x ↦ record v { val = x } | err e ↦ v ]

    -- What LoadTree takes of a stored value for a current one.
    unfoldable pub matching_val : (stored current : Any F O) → Option (Any F O)
    unfolding kind_of
    matching_val stored current =
        if type_of stored == type_of current
        then some stored
        else try_numeric_convert host.num stored (kind_of current)
