-- ===== src/Config/Merged.antt =====
-- `MergedPlugin`, its methods and `prefixedTreeReader` of pkg/zhiplugin/config/compose.go. A child
-- plugin is an argument: its state, and its methods on it. The children's listings, which the source
-- queries in parallel, are taken in order.
use zhi.Common.{
  ℕ, ◌+◌, Text, Bool, false, not, ◌||◌, List, [], ◌∷◌, ◌++◌, map, Option, none, some, Result, ok,
  err, ◌>>=◌, ◌>>◌, nat_eq, if◌then◌else◌, ◌==◌, has_prefix, trim_prefix,
}
use zhi.Component.Paths.{slash}
use zhi.Config.Tree.{TreeReader}

-- The interface `Plugin` of pkg/zhiplugin/config, with its state.
pub record Plugin (S V R E : Type 0) : Type 0 where
  pub list : S → Result E (List Text)
  pub get : S → Text → Result E (Option V)
  pub set : S → Text → V → Result E S
  pub validate : S → Text → TreeReader V → Result E (List R)

-- A child: `impl` is none for nil.
pub record MountedPlugin (S V R E : Type 0) : Type 0 where
  pub impl : Option (Plugin S V R E)
  pub prefix : Text
  pub state : S

pub data MergeError (E : Type 0) : Type 0 where
  no_children : MergeError E
  empty_prefix : ℕ → MergeError E
  no_slash : ℕ → Text → MergeError E
  nil_impl : ℕ → Text → MergeError E
  overlapping : Text → Text → MergeError E
  listing : Text → E → MergeError E
  no_child : Text → MergeError E
  child_error : E → MergeError E
  nil_call : MergeError E

-- strings.HasSuffix(s, "/")
unfoldable pub ends_slash : Text → Bool
ends_slash [] = false
ends_slash (c ∷ []) = nat_eq c slash
ends_slash (c ∷ d ∷ s) = ends_slash (d ∷ s)

unfoldable pub overlap : Text → Text → Bool
overlap a b = has_prefix a b || has_prefix b a

abbrev pub lift_error : {E A : Type 0} → Result E A → Result (MergeError E) A
lift_error (ok a) = ok a
lift_error (err e) = err (child_error e)

unfoldable pub prefixed_list : Text → List Text → List Text
prefixed_list prefix [] = []
prefixed_list prefix (path ∷ paths) =
    let rest = prefixed_list prefix paths in
    if has_prefix path prefix then trim_prefix path prefix ∷ rest else rest

unfoldable pub prefixed_reader : {V : Type 0} → Text → TreeReader V → TreeReader V
unfolding prefixed_list
prefixed_reader prefix tree = record {
  get = λ path. tree.get (prefix ++ path);
  list = prefixed_list prefix tree.list;
}

module _ {S V R E : Type 0} where
  -- The inner loop: child `a` at `i` against the children from `j` on.
  unfoldable pub check_others :
      ℕ
      → ℕ
      → MountedPlugin S V R E
      → List (MountedPlugin S V R E)
      → Result (MergeError E) (Unit {0})
  unfolding overlap
  check_others i j a [] = ok tt
  check_others i j a (b ∷ bs) =
      let rest = check_others i (j + 1) a bs in
      if nat_eq i j
      then rest
      else if overlap a.prefix b.prefix
      then err (overlapping a.prefix b.prefix)
      else rest

  unfoldable pub check_child :
      ℕ → MountedPlugin S V R E → List (MountedPlugin S V R E) → Result (MergeError E) (Unit {0})
  unfolding check_others ends_slash
  check_child i a all =
      if a.prefix == []
      then err (empty_prefix i)
      else if not (ends_slash a.prefix)
      then err (no_slash i a.prefix)
      else elim a.impl [ none ↦ err (nil_impl i a.prefix) | some _ ↦ check_others i 0 a all ]

  unfoldable pub check_children :
      ℕ
      → List (MountedPlugin S V R E)
      → List (MountedPlugin S V R E)
      → Result (MergeError E) (Unit {0})
  unfolding check_child
  check_children i [] all = ok tt
  check_children i (a ∷ rest) all = do check_child i a all; check_children (i + 1) rest all

  unfoldable pub merged_plugin :
      List (MountedPlugin S V R E) → Result (MergeError E) (List (MountedPlugin S V R E))
  unfolding check_children
  merged_plugin [] = err no_children
  merged_plugin (c ∷ cs) = do check_children 0 (c ∷ cs) (c ∷ cs); ok (c ∷ cs)

  -- The first child whose prefix the path has.
  unfoldable pub route : Text → List (MountedPlugin S V R E) → Option (MountedPlugin S V R E)
  route path [] = none
  route path (c ∷ cs) = if has_prefix path c.prefix then some c else route path cs

  unfoldable pub merged_get : List (MountedPlugin S V R E) → Text → Result (MergeError E) (Option V)
  unfolding route
  merged_get cs path = elim (route path cs) [
    | none ↦ ok none
    | some c ↦ elim c.impl [
      | none ↦ err nil_call
      | some p ↦ lift_error (p.get c.state (trim_prefix path c.prefix))
    ]
  ]

  -- The child after its plugin took the value.
  unfoldable pub set_child :
      MountedPlugin S V R E → Text → V → Result (MergeError E) (MountedPlugin S V R E)
  set_child c path v = elim c.impl [
    | none ↦ err nil_call
    | some p ↦ elim (p.set c.state (trim_prefix path c.prefix) v) [
      | ok st ↦ ok (record c { state = st })
      | err e ↦ err (child_error e)
    ]
  ]

  -- The children after the first one that has the path's prefix took the value.
  unfoldable pub merged_set :
      List (MountedPlugin S V R E) → Text → V → Result (MergeError E) (List (MountedPlugin S V R E))
  unfolding set_child
  merged_set [] path v = err (no_child path)
  merged_set (c ∷ cs) path v =
      let others = merged_set cs path v in
      if has_prefix path c.prefix
      then (set_child c path v >>= λ c'. ok (c' ∷ cs))
      else (others >>= λ cs'. ok (c ∷ cs'))

  unfoldable pub merged_validate :
      List (MountedPlugin S V R E) → Text → TreeReader V → Result (MergeError E) (List R)
  unfolding route prefixed_reader
  merged_validate cs path tree = elim (route path cs) [
    | none ↦ ok []
    | some c ↦ elim c.impl [
      | none ↦ err nil_call
      | some p ↦
          lift_error
            (p.validate c.state (trim_prefix path c.prefix) (prefixed_reader c.prefix tree))
    ]
  ]

  unfoldable pub list_child : MountedPlugin S V R E → Result (MergeError E) (List Text)
  list_child c = elim c.impl [
    | none ↦ err nil_call
    | some p ↦ elim (p.list c.state) [
      | err e ↦ err (listing c.prefix e)
      | ok paths ↦ ok (map (λ path. c.prefix ++ path) paths)
    ]
  ]

  unfoldable pub merged_list : List (MountedPlugin S V R E) → Result (MergeError E) (List Text)
  unfolding list_child
  merged_list [] = ok []
  merged_list (c ∷ cs) = do paths ← list_child c; rest ← merged_list cs; ok (paths ++ rest)
