-- ===== src/Config/Trees.antt =====
-- The laws of the configuration tree.
use zhi.Common.{
  Text, false, List, [], ◌∷◌, ◌++◌, map, Option, none, some, ok, err, ◌≡◌, subst, ◌⊎◌, inl, inr,
  refl, ap, arith, Map, lookup, insert, delete, keys, lookup-insert, lookup-delete, contains,
  Distinct, Distinct-keys-insert, if◌then◌else◌, ◌==◌, eq_iff, Result-cases, Bool-cases,
  contains-keys,
}
use zhi.Config.Path.{PathError, validate_path}
use zhi.Config.Tree.{
  Tree, Value, TreeReader, ValidationResult, new_tree, set, get, delete_path, reader,
  validate_value, validate_entries, add_results, validate_tree, run_validators,
}

-- Each path is listed once, and is valid.
pub record IsTree {V : Type 0} (t : Tree V) : Type 0 where
  pub once : Distinct (keys t.values)
  pub valid : (path : Text) (v : V) → lookup path t.values ≡ some v → validate_path path ≡ ok tt

module _ {V : Type 0} where
  pub new_tree-IsTree : IsTree (new_tree {V = V})
  unfolding lookup keys
  new_tree-IsTree = record { once = tt; valid = λ path v e. cc }

  pub set-IsTree :
      (path : Text) (v : V) (t : Tree V)
      → IsTree t
      → validate_path path ≡ ok tt
      → IsTree (record { values = insert path v t.values })
  set-IsTree path v t h ok' = record {
    once = Distinct-keys-insert path v t.values h.once;
    valid = inserted;
  }
    where
      inserted :
          (other : Text) (w : V)
          → lookup other (insert path v t.values) ≡ some w
          → validate_path other ≡ ok tt
      inserted other w e = elim (Bool-cases (path == other)) [
        | inl same ↦ subst (λ p. validate_path p ≡ ok tt) ((eq_iff path other).0 same) ok'
        | inr unlike ↦ h.valid other w (ground (arith, lookup-insert path other v t.values))
      ]

  -- From a tree that lists each path once, all of them valid: `Set` at a valid path gives such a
  -- tree, in which that path has the new value and every other path what it had; at an invalid
  -- path `Set` returns the error of `ValidatePath`.
  pub set_lem :
      (path : Text) (v : V) (t : Tree V)
      → IsTree t
      → ((t' : Tree V) × (set path v t ≡ ok t')
          × (validate_path path ≡ ok tt)
          × IsTree t'
          × ((other : Text) → get t' other ≡ (if path == other then some v else get t other)))
        ⊎ ((e : PathError) × (set path v t ≡ err e) × (validate_path path ≡ err e))
  unfolding set get
  set_lem path v t h = elim (Result-cases (validate_path path)) [
    | inl (u, e) ↦ inl (
      record { values = insert path v t.values },
      rw (e, set) refl,
      e,
      set-IsTree path v t h e,
      λ other. lookup-insert path other v t.values,
    )
    | inr (e, failed) ↦ inr (e, rw (failed, set) refl, failed)
  ]

  contains-delete :
      (path other : Text) (m : Map V)
      → contains (keys m) other ≡ false
      → contains (keys (delete path m)) other ≡ false
  unfolding delete keys contains
  contains-delete path other [] h = refl
  contains-delete path other ((name, v) ∷ m) h = ground (arith, contains-delete path other m)

  Distinct-delete : (path : Text) (m : Map V) → Distinct (keys m) → Distinct (keys (delete path m))
  unfolding delete keys
  Distinct-delete path [] h = tt
  Distinct-delete path ((name, v) ∷ m) h = elim (Bool-cases (name == path)) [
    | inl same ↦ rw same (Distinct-delete path m h.1)
    | inr other ↦ rw other (contains-delete path name m h.0, Distinct-delete path m h.1)
  ]

  -- `Delete` keeps that each path is listed once and is valid, removes the path, and leaves what
  -- every other path had; a path that is not there is no error.
  delete_path_lem :
      (path : Text) (t : Tree V)
      → IsTree t
      → IsTree (delete_path path t)
        × ((other : Text)
            → get (delete_path path t) other ≡ (if path == other then none else get t other))
  unfolding delete_path get
  delete_path_lem path t h = (
    record {
      once = Distinct-delete path t.values h.once;
      valid = λ other v e. h.valid other v (kept other v e);
    },
    λ other. lookup-delete path other t.values,
  )
    where
      kept :
          (other : Text) (v : V)
          → lookup other (delete path t.values) ≡ some v
          → lookup other t.values ≡ some v
      kept other v e = ground (arith, lookup-delete path other t.values)

-- The lists one behind the other.
abbrev pub concat : {R : Type 0} → List (List R) → List R
concat [] = []
concat (rs ∷ rest) = rs ++ concat rest

-- What `Validate` says of a value: nothing where there are no results.
abbrev pub reported : {R : Type 0} → List R → Option (List R) → Option (List R)
reported [] before = before
reported (r ∷ rs) before = some (r ∷ rs)

lookup-add_results :
    {R : Type 0} (path other : Text) (rs : List R) (out : Map (List R))
    → lookup other (add_results path rs out)
      ≡ (if path == other then reported rs (lookup other out) else lookup other out)
unfolding add_results
lookup-add_results path other [] out = ground arith
lookup-add_results path other (r ∷ rs) out = ground (arith, lookup-insert path other (r ∷ rs) out)

module _ {A M F : Type 0} (run : F → A → TreeReader (Value A M F) → List (ValidationResult M)) where
  missing :
      (path : Text) (m : Map (Value A M F)) → contains (keys m) path ≡ false → lookup path m ≡ none
  missing path m h = ground (arith, contains-keys path m)

  -- The results of all validators of a value, in order.
  abbrev pub all_results : TreeReader (Value A M F) → Value A M F → List (ValidationResult M)
  all_results tree v = concat (map (λ fn. run fn v.val tree) v.validators)

  run_validators-concat :
      (fns : List F) (x : A) (tree : TreeReader (Value A M F))
      → run_validators run fns x tree ≡ concat (map (λ fn. run fn x tree) fns)
  unfolding run_validators
  run_validators-concat [] x tree = refl
  run_validators-concat (fn ∷ fns) x tree =
      ap (λ rs. run fn x tree ++ rs) (run_validators-concat fns x tree)

  validate_value-all_results :
      (v : Value A M F) (tree : TreeReader (Value A M F))
      → validate_value run v tree ≡ all_results tree v
  unfolding validate_value
  validate_value-all_results v tree = run_validators-concat v.validators v.val tree

  -- What stands at a path after the loop, from its value and what stood there before.
  abbrev pub said :
      TreeReader (Value A M F)
      → Option (Value A M F)
      → Option (List (ValidationResult M))
      → Option (List (ValidationResult M))
  said tree none before = before
  said tree (some v) before = reported (all_results tree v) before

  validate_entries_lem :
      (tree : TreeReader (Value A M F)) (m : Map (Value A M F))
      (out : Map (List (ValidationResult M))) (path : Text)
      → Distinct (keys m)
      → lookup path (validate_entries run tree m out) ≡ said tree (lookup path m) (lookup path out)
  unfolding validate_entries lookup keys
  validate_entries_lem tree [] out path h = refl
  validate_entries_lem tree ((name, v) ∷ m) out path h =
      let rs = validate_value run v tree in
      let added = lookup-add_results name path rs out in
      let spoken : rs ≡ all_results tree v = validate_value-all_results v tree in
      let rest = validate_entries_lem tree m (add_results name rs out) path h.1 in
      elim (Bool-cases (name == path)) [
        | inl same ↦
            let gone : lookup path m ≡ none =
              missing path m
                (subst (λ p. contains (keys m) p ≡ false) ((eq_iff name path).0 same) h.0) in
            rw (same, rest, gone, added, same) (ap (λ r. reported r (lookup path out)) spoken)
        | inr other ↦
            let unchanged : lookup path (add_results name rs out) ≡ lookup path out =
              ground (arith, added) in
            rw (other, rest) (ap (said tree (lookup path m)) unchanged)
      ]

  -- In a tree that lists each path once, `Validate` has results at exactly those paths whose value
  -- has results, and they are those of all its validators, in order, each called on the value and
  -- on a reader that gets what is at any path of the tree and lists all its paths.
  pub validate_tree_lem :
      (t : Tree (Value A M F)) (path : Text)
      → IsTree t
      → lookup path (validate_tree run t)
        ≡ said
            (record { get = λ other. lookup other t.values; list = keys t.values })
            (lookup path t.values)
            none
  unfolding validate_tree get lookup reader
  validate_tree_lem t path h = validate_entries_lem (reader t) t.values [] path h.once
