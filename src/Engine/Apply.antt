-- ===== src/Engine/Apply.antt =====
-- The configuration of an apply run: ApplyConfig of internal/core/workspace.go, ApplyRunConfig of
-- internal/core/apply.go, and BuildApplyRunConfig and the transforms of internal/core/engine.go.
use zhi.Common.{
  Text, bytes, Bool, true, false, not, List, [], ◌∷◌, Option, none, some, Result, ok, err, ◌>>=◌,
  refl, Map, lookup, In, here, there, inl, inr, Bool-cases, if◌then◌else◌, ◌==◌, subst,
}
use zhi.Numeric.Convert.{ℤ, negsuc}
use zhi.Config.Tree.{Tree}
use zhi.Component.Manager.{ComponentManager, ComponentState, list_components}

pub record ApplyTargetConfig : Type 0 where
  pub command : Text
  pub workdir : Text
  pub pre_export : Bool
  pub pre_check : List Text
  pub env : Map Text
  pub timeout : ℤ

pub record ApplyConfig : Type 0 where
  pub simple : ApplyTargetConfig
  pub targets : Map ApplyTargetConfig

pub record ApplyRunConfig : Type 0 where
  pub target : ApplyTargetConfig
  pub workspace_dir : Text
  pub skip_export : Bool
  pub env_overrides : Map Text
  pub timeout_override : ℤ
  pub enabled_components : List Text
  pub disabled_components : List Text

pub data ApplyError : Type 0 where
  no_workspace : ApplyError
  unknown_target : Text → ApplyError
  no_named_targets : Text → ApplyError
  no_command : ApplyError

unfoldable pub resolve_simple : ApplyTargetConfig → Text → Result ApplyError ApplyTargetConfig
resolve_simple simple name =
    if not (name == bytes "default")
    then err (no_named_targets name)
    else if simple.command == []
    then err no_command
    else ok simple

-- Behind the default of the name.
unfoldable pub resolve_named : ApplyConfig → Text → Result ApplyError ApplyTargetConfig
unfolding resolve_simple
resolve_named ac name = elim ac.targets [
  | [] ↦ resolve_simple ac.simple name
  | t ∷ ts ↦ elim (lookup name ac.targets) [ none ↦ err (unknown_target name) | some t ↦ ok t ]
]

unfoldable pub resolve_target : ApplyConfig → Text → Result ApplyError ApplyTargetConfig
unfolding resolve_named
resolve_target ac name =
    if name == [] then resolve_named ac (bytes "default") else resolve_named ac name

-- The names of the components that are enabled, or of those that are not.
unfoldable pub names_with : Bool → List ComponentState → List Text
names_with wanted [] = []
names_with wanted (c ∷ cs) =
    let rest = names_with wanted cs in
    if c.enabled
    then (if wanted then c.name ∷ rest else rest)
    else (if wanted then rest else c.name ∷ rest)

-- The workspace is its directory and its apply section, none for a nil workspace.
unfoldable pub build_apply_run_config :
    Option (Text × ApplyConfig) → ComponentManager → Text → Result ApplyError ApplyRunConfig
unfolding resolve_target names_with
build_apply_run_config none cm target = err no_workspace
build_apply_run_config (some ws) cm target = do
  t ← resolve_target ws.1 target
  ok (record {
    target = t;
    workspace_dir = ws.0;
    skip_export = false;
    env_overrides = [];
    timeout_override = negsuc 0;
    enabled_components = names_with true (list_components cm);
    disabled_components = names_with false (list_components cm);
  })

-- A transform plugin: each of its methods works on the tree, also where it fails.
pub record Transform (V X : Type 0) : Type 0 where
  pub before_display : Tree V → Result X (Unit {0}) × Tree V
  pub after_save : Tree V → Result X (Unit {0}) × Tree V

module _ {V X : Type 0} where
  unfoldable pub transform_for_display :
      List (Transform V X) → Tree V → Result X (Unit {0}) × Tree V
  transform_for_display [] tree = (ok tt, tree)
  transform_for_display (tp ∷ tps) tree =
      let (r, tree') = tp.before_display tree in
      elim r [ err x ↦ (err x, tree') | ok u ↦ transform_for_display tps tree' ]

  unfoldable pub transform_for_save : List (Transform V X) → Tree V → Result X (Unit {0}) × Tree V
  transform_for_save [] tree = (ok tt, tree)
  transform_for_save (tp ∷ tps) tree =
      let (r, tree') = tp.after_save tree in
      elim r [ err x ↦ (err x, tree') | ok u ↦ transform_for_save tps tree' ]

In-later :
    (wanted : Bool) (name : Text) (x : ComponentState) (cs : List ComponentState)
    → In name (names_with wanted cs)
    → In name (names_with wanted (x ∷ cs))
unfolding names_with
In-later true name x cs m = elim (Bool-cases x.enabled) [
  | inl on ↦ rw on (there m)
  | inr off ↦ rw off m
]
In-later false name x cs m = elim (Bool-cases x.enabled) [
  | inl on ↦ rw on m
  | inr off ↦ rw off (there m)
]

-- A component of the list stands among the names with its own flag.
pub In-names_with :
    (c : ComponentState) (cs : List ComponentState) → In c cs → In c.name (names_with c.enabled cs)
unfolding names_with
In-names_with c [] m = elim m [ ]
In-names_with c (x ∷ cs) (here same) =
    subst (λ y. In y.name (names_with y.enabled (x ∷ cs))) same (own x cs)
  where
    own :
        (x : ComponentState) (cs : List ComponentState) → In x.name (names_with x.enabled (x ∷ cs))
    own x cs = elim (Bool-cases x.enabled) [
      | inl on ↦ rw on (here refl)
      | inr off ↦ rw off (here refl)
    ]
In-names_with c (x ∷ cs) (there m) = In-later c.enabled c.name x cs (In-names_with c cs m)
