-- ===== src/Engine/Steps.antt =====
-- The loops of LoadTree and LoadStoredTree.
use zhi.Common.{
  Text, false, List, [], ◌∷◌, Option, none, some, ok, ◌≡◌, ◌∙◌, refl, subst, inl, inr, arith, Map,
  lookup, insert, keys, contains, Distinct, All, if◌then◌else◌, ◌==◌, eq_iff, lookup-insert,
  Option-cases, Bool-cases, contains-keys, sym, over, over-missing, over-present,
}
use zhi.Config.Path.{validate_path}
use zhi.Config.Tree.{Tree, set, get}
use zhi.Config.Trees.{IsTree, set-IsTree}
use zhi.Engine.State.{Entry, Host, Engine, matching_val}
use zhi.Engine.Load.{load_paths, fill, merge_path, merge_paths}

module _ {V : Type 0} where
  -- Set at a valid path.
  set-valid :
      (path : Text) (v : V) (t : Tree V)
      → validate_path path ≡ ok tt
      → set path v t ≡ ok (record { values = insert path v t.values })
  unfolding set
  set-valid path v t h = rw (h, set) refl

  get-insert :
      (path other : Text) (v : V) (t : Tree V)
      → get (record { values = insert path v t.values }) other
        ≡ (if path == other then some v else get t other)
  unfolding get
  get-insert path other v t = lookup-insert path other v t.values

  module _ {E : Type 0} where
    -- The loop over stored values, of a map whose paths are valid.
    pub fill_lem :
        (f : V → V) (m : Map V) (t : Tree V)
        → All (λ path. validate_path path ≡ ok tt) (keys m)
        → Distinct (keys m)
        → (t' : Tree V) × (fill {E = E} f m t ≡ ok t')
          × ((path : Text) → get t' path ≡ over f (lookup path m) (get t path))
    unfolding fill keys lookup
    fill_lem f [] t valid once = (t, refl, λ path. refl)
    fill_lem f ((name, v) ∷ m) t (valid, valids) (new, once) =
        let t1 : Tree V = record { values = insert name (f v) t.values } in
        let (t', filled, got) = fill_lem f m t1 valids once in
        (t', rw (set-valid name (f v) t valid, fill) filled, λ path. got path ∙ at_path path)
      where
        missing : lookup name m ≡ none
        missing = ground (arith, contains-keys name m)

        at_path :
            (path : Text)
            → over f (lookup path m) (get (record { values = insert name (f v) t.values }) path)
              ≡ over f (lookup path ((name, v) ∷ m)) (get t path)
        at_path path = elim (Bool-cases (name == path)) [
          | inl same ↦
              let gone : lookup path m ≡ none =
                subst (λ q. lookup q m ≡ none) ((eq_iff name path).0 same) missing in
              rw (gone, same, get-insert name path (f v) t, same) refl
          | inr unlike ↦ rw (get-insert name path (f v) t, unlike) refl
        ]

  module _ {C S R E : Type 0} (e : Engine C S V R E) (d : Text → Option V) where
    -- The loop over the paths of the config plugin, which has `d` at them, all of them valid.
    pub load_paths_lem :
        (ps : List Text) (t : Tree V)
        → All
            (λ path.
              (e.config_plugin.get e.config_state path ≡ ok (d path))
              × (validate_path path ≡ ok tt))
            ps
        → IsTree t
        → (t' : Tree V) × (load_paths e ps t ≡ ok t')
          × IsTree t'
          × ((path : Text)
              → get t' path
                ≡ (if contains ps path then over (λ v. v) (d path) (get t path) else get t path))
    unfolding load_paths contains
    load_paths_lem [] t h it = (t, refl, it, λ path. refl)
    load_paths_lem (p ∷ ps) t ((found, valid), hs) it = elim (Option-cases (d p)) [
      | inl missing ↦
          let (t', loaded, it', got) = load_paths_lem ps t hs it in
          (
            t',
            rw (found, missing, load_paths) loaded,
            it',
            λ path. got path ∙ over-missing d ps p path (get t path) missing,
          )
      | inr (v, present) ↦
          let t1 : Tree V = record { values = insert p v t.values } in
          let (t', loaded, it', got) = load_paths_lem ps t1 hs (set-IsTree p v t it valid) in
          (
            t',
            rw (found, present, set-valid p v t valid, load_paths) loaded,
            it',
            λ path.
                got path
                ∙ rw (get-insert p path v t) (over-present d ps p path (get t path) v present),
          )
    ]

-- The current value with what LoadTree takes of the stored one.
abbrev pub merged :
    {F O Fn : Type 0}
    → Host F O
    → Option (Entry F O Fn)
    → Option (Entry F O Fn)
    → Option (Entry F O Fn)
merged host none stored = none
merged host (some v) none = some v
merged host (some v) (some s) =
    some (elim (matching_val host s.val v.val) [ none ↦ v | some x ↦ record v { val = x } ])

module _ {F O Fn : Type 0} (host : Host F O) (stored : Tree (Entry F O Fn)) where
  pub unmerged : (current : Option (Entry F O Fn)) → merged host current none ≡ current
  unmerged none = refl
  unmerged (some v) = refl

  -- A round that leaves the tree as it is.
  stays :
      (p path : Text) (t : Tree (Entry F O Fn))
      → merged host (get t p) (get stored p) ≡ get t p
      → get t path ≡ (if p == path then merged host (get t path) (get stored path) else get t path)
  stays p path t h = elim (Bool-cases (p == path)) [
    | inl same ↦ rw same (
        sym
          (subst (λ q. merged host (get t q) (get stored q) ≡ get t q) ((eq_iff p path).0 same) h))
    | inr unlike ↦ rw unlike refl
  ]

  merge_path_lem :
      (p path : Text) (t : Tree (Entry F O Fn))
      → get (merge_path host stored p t) path
        ≡ (if p == path then merged host (get t path) (get stored path) else get t path)
  unfolding merge_path
  merge_path_lem p path t = elim (Option-cases (get stored p)) [
    | inl missing ↦ rw (missing, merge_path) (stays p path t (rw missing (unmerged (get t p))))
    | inr (s, there) ↦ elim (Option-cases (get t p)) [
      | inl missing ↦ rw (there, missing, merge_path) (stays p path t (rw missing refl))
      | inr (v, here) ↦ elim (Option-cases (matching_val host s.val v.val)) [
        | inl unlike ↦
            rw (there, here, unlike, merge_path) (stays p path t (rw (there, here, unlike) refl))
        | inr (x, taken) ↦
            let v' : Entry F O Fn = record v { val = x } in
            rw (there, here, taken, merge_path)
              (get-insert p path v' t ∙ elim (Bool-cases (p == path)) [
                | inl same ↦
                    let both : merged host (get t p) (get stored p) ≡ some v' =
                      rw (there, here, taken) refl in
                    rw same (
                      sym (
                        subst (λ q. merged host (get t q) (get stored q) ≡ some v')
                          ((eq_iff p path).0 same) both))
                | inr unlike ↦ rw unlike refl
              ])
      ]
    ]
  ]

  pub merge_paths_lem :
      (ps : List Text) (t : Tree (Entry F O Fn)) (path : Text)
      → Distinct ps
      → get (merge_paths host stored ps t) path
        ≡ (if contains ps path then merged host (get t path) (get stored path) else get t path)
  unfolding merge_paths contains
  merge_paths_lem [] t path once = refl
  merge_paths_lem (p ∷ ps) t path (new, once) =
      merge_paths_lem ps (merge_path host stored p t) path once ∙ elim (Bool-cases (p == path)) [
        | inl same ↦
            let later : contains ps path ≡ false =
              subst (λ q. contains ps q ≡ false) ((eq_iff p path).0 same) new in
            rw (same, later, merge_path_lem p path t, same) refl
        | inr unlike ↦ rw (unlike, merge_path_lem p path t, unlike) refl
      ]
