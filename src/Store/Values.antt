-- ===== src/Store/Values.antt =====
-- The memory store: what each of its methods does to the values.
use zhi.Common.{
  Text, Bool, true, false, List, [], ◌∷◌, Option, none, some, ◌≡◌, refl, arith, Map, lookup, insert,
  delete, copy, latest, contains, if◌then◌else◌, ◌==◌, eq_iff, lookup-copy, lookup-insert,
  lookup-delete, Option-cases, inl, inr, Bool-cases, subst,
}
use zhi.Store.Contract.{View}
use zhi.Store.Memory.{
  Trees, pick_values, tree_or_new, put_memory, delete_paths, delete_memory, drop_memory,
}

module _ {V : Type 0} where
  abbrev pub in_tree : Text → Option (Map V) → Option V
  in_tree path none = none
  in_tree path (some tree) = lookup path tree

  unfoldable pub memory_view : Trees V → View V
  memory_view trees id path = in_tree path (lookup id trees)

  lookup-tree_or_new :
      (path : Text) (o : Option (Map V)) → lookup path (tree_or_new o) ≡ in_tree path o
  unfolding tree_or_new lookup
  lookup-tree_or_new path none = refl
  lookup-tree_or_new path (some tree) = refl

  -- What the loop of GetValues leaves at a path.
  abbrev pub picked : Bool → Option V → Option V → Option V
  picked true (some v) before = some v
  picked true none before = before
  picked false o before = before

  absent : (b : Bool) (before : Option V) → picked b none before ≡ before
  absent true before = refl
  absent false before = refl

  present : (b : Bool) (v : V) → picked b (some v) (some v) ≡ some v
  present true v = refl
  present false v = refl

  pub picked-none : (b : Bool) (o : Option V) → picked b o none ≡ (if b then o else none)
  picked-none true (some v) = refl
  picked-none true none = refl
  picked-none false o = refl

  pub lookup-pick_values :
      (tree : Map V) (ps : List Text) (result : Map V) (path : Text)
      → lookup path (pick_values tree ps result)
        ≡ picked (contains ps path) (lookup path tree) (lookup path result)
  unfolding pick_values contains
  lookup-pick_values tree [] result path = refl
  lookup-pick_values tree (p ∷ ps) result path = elim (Option-cases (lookup p tree)) [
    | inl missing ↦
        rw (missing, lookup-pick_values tree ps result path)
          (elim (Bool-cases (p == path)) [
            | inl same ↦
                let gone : lookup path tree ≡ none =
                  subst (λ q. lookup q tree ≡ none) ((eq_iff p path).0 same) missing in
                rw (same, gone) (absent (contains ps path) (lookup path result))
            | inr unlike ↦ rw unlike refl
          ])
    | inr (v, found) ↦
        rw
          (
            found,
            lookup-pick_values tree ps (insert p v result) path,
            lookup-insert p path v result,
          )
          (elim (Bool-cases (p == path)) [
            | inl same ↦
                let here : lookup path tree ≡ some v =
                  subst (λ q. lookup q tree ≡ some v) ((eq_iff p path).0 same) found in
                rw (same, here) (present (contains ps path) v)
            | inr unlike ↦ rw unlike refl
          ])
  ]

  lookup-delete_paths :
      (ps : List Text) (tree : Map V) (path : Text)
      → lookup path (delete_paths ps tree) ≡ (if contains ps path then none else lookup path tree)
  unfolding delete_paths contains
  lookup-delete_paths [] tree path = refl
  lookup-delete_paths (p ∷ ps) tree path = ground (
    arith,
    lookup-delete_paths ps (delete p tree) path,
    lookup-delete p path tree,
    eq_iff p path,
    eq_iff path p,
  )

  pub put_memory_lem :
      (id : Text) (vs : Map V) (s : Trees V) (tree path : Text)
      → memory_view (put_memory id vs s).1 tree path
        ≡ (if id == tree then latest path vs (memory_view s tree path) else memory_view s tree path)
  unfolding memory_view put_memory
  put_memory_lem id vs s tree path = ground (
    arith,
    eq_iff id tree,
    lookup-insert id tree (copy (tree_or_new (lookup id s)) vs) s,
    lookup-copy path (tree_or_new (lookup id s)) vs,
    lookup-tree_or_new path (lookup id s),
  )

  pub delete_memory_lem :
      (id : Text) (paths : List Text) (s : Trees V) (tree path : Text)
      → memory_view (delete_memory id paths s).1 tree path ≡ (
          if id == tree
          then (if contains paths path then none else memory_view s tree path)
          else memory_view s tree path)
  unfolding memory_view delete_memory
  delete_memory_lem id paths s tree path = elim (Option-cases (lookup id s)) [
    | inl missing ↦ ground (arith, eq_iff id tree)
    | inr (old, found) ↦ ground (
      arith,
      eq_iff id tree,
      lookup-insert id tree (delete_paths paths old) s,
      lookup-delete_paths paths old path,
    )
  ]

  pub drop_memory_lem :
      (id : Text) (s : Trees V) (tree path : Text)
      → memory_view (drop_memory id s).1 tree path
        ≡ (if id == tree then none else memory_view s tree path)
  unfolding memory_view drop_memory
  drop_memory_lem id s tree path = ground (arith, lookup-delete id tree s)
