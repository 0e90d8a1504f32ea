-- ===== src/Engine/Saved.antt =====
-- SaveTree, and LoadTree behind it.
use zhi.Common.{
  Text, true, false, List, [], ◌∷◌, Option, none, some, Result, ok, err, ◌≡◌, ◌∙◌, refl, subst, ap,
  inl, inr, arith, Map, lookup, insert, keys, contains, Distinct, Distinct-keys-insert,
  lookup-insert, All, if◌then◌else◌, ◌==◌, eq_iff, eq_refl, Option-cases, Bool-cases, contains-keys,
  contains-In, In-contains, In, All-In, All-of_In, sym, over, over-missing, over-present, over_id,
}
use zhi.Config.Path.{validate_path}
use zhi.Config.Tree.{Tree, get, list}
use zhi.Store.Types.{StoreError}
use zhi.Store.Plugin.{Plugin, put_values, call}
use zhi.Store.Mirrored.{Replica}
use zhi.Store.Contract.{Keeping, put_latest, View, IsStore}
use zhi.Engine.State.{
  Entry, Host, Engine, tree_id, get_workspace_dir, stored_value, matching_val, with_store,
  with_replica,
}
use zhi.Engine.Load.{load_tree}
use zhi.Engine.Store.{extract, save_tree, with_store_plugin, from_store}
use zhi.Engine.Loading.{HasDefaults, load_tree-merged}

module _ {V : Type 0} where
  -- The last value that a map gives a key is the only one.
  put_latest-lookup :
      (norm : V → V) (key : Text) (m : Map V) (before : Option V)
      → Distinct (keys m)
      → put_latest norm key m before ≡ over norm (lookup key m) before
  unfolding keys lookup
  put_latest-lookup norm key [] before once = refl
  put_latest-lookup norm key ((name, v) ∷ m) before (new, once) = elim (Bool-cases (name == key)) [
    | inl same ↦
        let gone : lookup key m ≡ none =
          subst (λ q. lookup q m ≡ none) ((eq_iff name key).0 same)
            (ground (arith, contains-keys name m)) in
        rw (same, put_latest-lookup norm key m (some (norm v)) once, gone) refl
    | inr unlike ↦ rw (unlike, put_latest-lookup norm key m before once) refl
  ]

  extract_lem :
      (t : Tree V) (ps : List Text) (values : Map V)
      → Distinct (keys values)
      → Distinct (keys (extract t ps values))
        × ((path : Text)
            → lookup path (extract t ps values) ≡ (
                if contains ps path
                then over (λ v. v) (get t path) (lookup path values)
                else lookup path values))
  unfolding extract contains
  extract_lem t [] values once = (once, λ path. refl)
  extract_lem t (p ∷ ps) values once = elim (Option-cases (get t p)) [
    | inl missing ↦
        let (once', got) = extract_lem t ps values once in
        (
          rw (missing, extract) once',
          λ path.
              rw (missing, extract)
                (got path ∙ over-missing (get t) ps p path (lookup path values) missing),
        )
    | inr (v, present) ↦
        let (once', got) =
          extract_lem t ps (insert p v values) (Distinct-keys-insert p v values once) in
        (
          rw (present, extract) once',
          λ path.
              rw (present, extract)
                (got path
                  ∙ rw (lookup-insert p path v values)
                      (over-present (get t) ps p path (lookup path values) v present)),
        )
  ]

  listed_or_none :
      (ps : List Text) (path : Text) (o : Option V)
      → (contains ps path ≡ false → o ≡ none)
      → (if contains ps path then over (λ v. v) o none else none) ≡ o
  listed_or_none ps path o h = elim (Bool-cases (contains ps path)) [
    | inl listed ↦ rw listed (over_id o)
    | inr unlisted ↦ rw unlisted (sym (h unlisted))
  ]

  -- SaveTree extracts exactly what the tree has.
  extract-list :
      (t : Tree V) (path : Text)
      → Distinct (keys (extract t (list t) [])) × (lookup path (extract t (list t) []) ≡ get t path)
  unfolding get list lookup keys
  extract-list t path =
      let (once, got) = extract_lem t (list t) [] tt in
      (
        once,
        got path
            ∙ listed_or_none (list t) path (get t path)
                (λ missing. ground (arith, contains-keys path t.values, missing)),
      )

from_store_ok :
    {E X : Type 0} (x : Result StoreError X) (a : X) → from_store {E = E} x ≡ ok a → x ≡ ok a
from_store_ok (ok b) a h = let same : b ≡ a = cc in ap ok same
from_store_ok (err b) a h = absurd (cc)

module _ {S V : Type 0} (k : Keeping V) where
  -- The value that the store has behind SaveTree.
  saved_view :
      (impl : Plugin S V) (view : S → View V) (id : Text) (t : Tree V) (s : S) (path : Text) (v : V)
      → IsStore impl k view
      → (impl.put_values id (extract t (list t) []) none s).0 ≡ ok tt
      → get t path ≡ some v
      → view (impl.put_values id (extract t (list t) []) none s).1 id path ≡ some (k.norm v)
  unfolding call
  saved_view impl view id t s path v law saved here' =
      let vs : Map V = extract t (list t) [] in
      let (once, got) = extract-list t path in
      let after = law.writes (put_values id vs none) s id path refl in
      after
      ∙ rw
          (
            saved,
            eq_refl (k.key id),
            put_latest-lookup k.norm path vs (view s id path) once,
            got,
            here',
          )
          refl

module _ {C S R E F O Fn : Type 0} (host : Host F O) where
  -- The values that the store returns stand at paths that it was asked for.
  valid_keys :
      (e : Engine C S (Entry F O Fn) R E) (ps : List Text) (d : Text → Option (Entry F O Fn))
      (m : Map (Entry F O Fn)) (w : Text → Option (Entry F O Fn))
      → HasDefaults host e ps d
      → ((path : Text) → lookup path m ≡ (if contains ps path then w path else none))
      → All (λ path. validate_path path ≡ ok tt) (keys m)
  valid_keys e ps d m w (listed, found) looked =
      All-of_In (λ p. validate_path p ≡ ok tt) (keys m) at_key
    where
      at_key : (path : Text) → In path (keys m) → validate_path path ≡ ok tt
      at_key path member =
          let present : contains (keys m) path ≡ true = In-contains (keys m) path member in
          let asked : contains ps path ≡ true =
            ground (arith, contains-keys path m, looked path, present) in
          (All-In
            (λ p. (e.config_plugin.get e.config_state p ≡ ok (d p)) × (validate_path p ≡ ok tt))
            found (contains-In ps path asked)).1

  -- An engine whose store keeps the contract, takes the tree that SaveTree puts, and can be read
  -- behind that: LoadTree succeeds, and a path that the config plugin lists with a default and that
  -- the saved tree has gets back the value saved, with the metadata of the default, if LoadTree
  -- takes that value from what the store keeps of it.
  pub load_tree-save_tree :
      (e : Engine C S (Entry F O Fn) R E) (r : Replica S (Entry F O Fn))
      (k : Keeping (Entry F O Fn)) (view : S → View (Entry F O Fn)) (ps : List Text)
      (d : Text → Option (Entry F O Fn)) (t : Tree (Entry F O Fn)) (m : Map (Entry F O Fn))
      (path : Text) (v dv : Entry F O Fn)
      → IsStore r.impl k view
      → HasDefaults host e ps d
      → (save_tree host t (with_replica e r)).0 ≡ ok tt
      → (r.impl.get_values
          (tree_id host e)
          ps
          (r.impl.put_values (tree_id host e) (extract t (list t) []) none r.state).1).0
        ≡ ok m
      → contains ps path ≡ true
      → d path ≡ some dv
      → get t path ≡ some v
      → matching_val host (stored_value host (k.norm v)).val dv.val ≡ some v.val
      → (t' : Tree (Entry F O Fn)) × ((load_tree host (save_tree host t (with_replica e r)).1).0
          ≡ ok t')
        × (get t' path ≡ some (record dv { val = v.val }))
  unfolding save_tree with_store_plugin with_store tree_id get_workspace_dir
  load_tree-save_tree e r k view ps d t m path v dv law defaults saved read asked default present
        taken =
      let id : Text = tree_id host e in
      let put = from_store_ok _ tt saved in
      let s : S = (r.impl.put_values id (extract t (list t) []) none r.state).1 in
      let kept = saved_view k r.impl view id t r.state path v law put present in
      let valid = valid_keys e ps d m (view s id) defaults (λ p. (law.reads id ps s m p read).0) in
      let (t', loaded, got) =
        load_tree-merged host e (record { impl = r.impl; state = s }) ps d m defaults read valid
          (law.reads id ps s m path read).1 in
      (
        t',
        loaded,
        got path ∙ rw (asked, default, (law.reads id ps s m path read).0, asked, kept, taken) refl,
      )
