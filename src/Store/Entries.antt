-- ===== src/Store/Entries.antt =====
-- The maps of the file store: what its loops leave at a path.
use zhi.Common.{
  All, Text, List, [], ◌∷◌, Option, none, some, ◌≡◌, ◌∙◌, refl, ap, inl, inr, arith, Map, lookup,
  insert, delete, keys, Distinct, Distinct-keys-insert, contains, lookup-insert, lookup-delete,
  Bool-cases, Option-cases, if◌then◌else◌, ◌==◌, eq_iff, over, over-missing, over-present, over_id,
}
use zhi.Store.Disk.{coded}
use zhi.Store.Contract.{put_latest}
use zhi.Store.Json.{flat, put_entries, delete_entries, pick_entries, picked_of, entries_or_new}

-- The value at a path in the map that a file holds.
abbrev pub entry_at : {V : Type 0} → Text → Option (Map (Option V)) → Option V
entry_at path none = none
entry_at path (some m) = flat (lookup path m)

-- Every value of the map is as a file gives it back.
abbrev pub IsSettled : {V : Type 0} → (V → V) → Option (Map (Option V)) → Type 0
IsSettled {V} norm o = (path : Text) (v : V) → entry_at path o ≡ some v → norm v ≡ v

module _ {V : Type 0} (norm : V → V) where
  put_entries_lem :
      (path : Text) (vs : Map V) (es : Map (Option V))
      → flat (coded norm (lookup path (put_entries vs es)))
        ≡ put_latest norm path vs (flat (coded norm (lookup path es)))
  unfolding put_entries
  put_entries_lem path [] es = refl
  put_entries_lem path ((p, v) ∷ vs) es =
      put_entries_lem path vs (insert p (some v) es)
      ∙ ap (put_latest norm path vs) (elim (Bool-cases (p == path)) [
        | inl same ↦ rw (same, lookup-insert p path (some v) es, same) refl
        | inr unlike ↦ rw (unlike, lookup-insert p path (some v) es, unlike) refl
      ])

  settled_entry :
      (path : Text) (o : Option (Map (Option V)))
      → IsSettled norm o
      → flat (coded norm (lookup path (entries_or_new o))) ≡ entry_at path o
  unfolding entries_or_new lookup
  settled_entry path none h = refl
  settled_entry path (some m) h = by_value (lookup path m) (h path)
    where
      by_value :
          (e : Option (Option V))
          → ((v : V) → flat e ≡ some v → norm v ≡ v)
          → flat (coded norm e) ≡ flat e
      by_value none k = refl
      by_value (some none) k = refl
      by_value (some (some v)) k = ap some (k v refl)

  pub put_entries-settled :
      (path : Text) (vs : Map V) (o : Option (Map (Option V)))
      → IsSettled norm o
      → flat (coded norm (lookup path (put_entries vs (entries_or_new o))))
        ≡ put_latest norm path vs (entry_at path o)
  put_entries-settled path vs o h =
      put_entries_lem path vs (entries_or_new o)
      ∙ ap (put_latest norm path vs) (settled_entry path o h)

  delete_entries_lem :
      (path : Text) (ps : List Text) (es : Map (Option V))
      → lookup path (delete_entries ps es) ≡ (if contains ps path then none else lookup path es)
  unfolding delete_entries contains
  delete_entries_lem path [] es = refl
  delete_entries_lem path (p ∷ ps) es =
      ground
        (arith, delete_entries_lem path ps (delete p es), lookup-delete p path es, eq_iff p path)

  pub delete_entries-settled :
      (path : Text) (ps : List Text) (m : Map (Option V))
      → IsSettled norm (some m)
      → flat (coded norm (lookup path (delete_entries ps m)))
        ≡ (if contains ps path then none else entry_at path (some m))
  unfolding entries_or_new
  delete_entries-settled path ps m h = elim (Bool-cases (contains ps path)) [
    | inl named ↦ rw (delete_entries_lem path ps m, named) refl
    | inr unnamed ↦ rw (delete_entries_lem path ps m, unnamed) (settled_entry path (some m) h)
  ]

module _ {V : Type 0} where
  pick_entries_lem :
      (es : Map (Option V)) (ps : List Text) (result : Map V)
      → Distinct (keys result)
      → Distinct (keys (pick_entries es ps result))
        × ((path : Text)
            → lookup path (pick_entries es ps result) ≡ (
                if contains ps path
                then over (λ v. v) (flat (lookup path es)) (lookup path result)
                else lookup path result))
  unfolding pick_entries contains
  pick_entries_lem es [] result once = (once, λ path. refl)
  pick_entries_lem es (p ∷ ps) result once = elim (Option-cases (flat (lookup p es))) [
    | inl missing ↦
        let (once', got) = pick_entries_lem es ps result once in
        (
          rw (missing, pick_entries) once',
          λ path.
              rw (missing, pick_entries)
                (got path
                  ∙ over-missing (λ q. flat (lookup q es)) ps p path (lookup path result) missing),
        )
    | inr (v, present) ↦
        let (once', got) =
          pick_entries_lem es ps (insert p v result) (Distinct-keys-insert p v result once) in
        (
          rw (present, pick_entries) once',
          λ path.
              rw (present, pick_entries)
                (got path
                  ∙ rw (lookup-insert p path v result) (
                      over-present (λ q. flat (lookup q es)) ps p path (lookup path result) v
                        present)),
        )
  ]

  -- GetValues picks the values that are there, each path once.
  pub picked_of_lem :
      (paths : List Text) (o : Option (Map (Option V))) (path : Text)
      → (lookup path (picked_of paths o) ≡ (if contains paths path then entry_at path o else none))
        × Distinct (keys (picked_of paths o))
  unfolding picked_of lookup keys
  picked_of_lem paths none path = (ground arith, tt)
  picked_of_lem paths (some m) path =
      let (once, got) = pick_entries_lem m paths [] tt in
      (
        got path ∙ elim (Bool-cases (contains paths path)) [
          | inl asked ↦ rw asked (over_id (flat (lookup path m)))
          | inr not_asked ↦ rw not_asked refl
        ],
        once,
      )

-- The keys that the loops leave are those of the map and of the values put.
module _ (P : Text → Type 0) where
  All-keys-insert :
      {X : Type 0} (p : Text) (v : X) (m : Map X)
      → P p
      → All P (keys m)
      → All P (keys (insert p v m))
  unfolding insert keys
  All-keys-insert p v [] h hs = (h, tt)
  All-keys-insert p v ((q, w) ∷ m) h hs = elim (Bool-cases (q == p)) [
    | inl same ↦ rw same hs
    | inr unlike ↦ rw unlike (hs.0, All-keys-insert p v m h hs.1)
  ]

  All-keys-delete : {X : Type 0} (p : Text) (m : Map X) → All P (keys m) → All P (keys (delete p m))
  unfolding delete keys
  All-keys-delete p [] hs = tt
  All-keys-delete p ((q, w) ∷ m) hs = elim (Bool-cases (q == p)) [
    | inl same ↦ rw same (All-keys-delete p m hs.1)
    | inr unlike ↦ rw unlike (hs.0, All-keys-delete p m hs.1)
  ]

  pub All-keys-put_entries :
      {V : Type 0} (vs : Map V) (es : Map (Option V))
      → All P (keys vs)
      → All P (keys es)
      → All P (keys (put_entries vs es))
  unfolding put_entries keys
  All-keys-put_entries [] es h hs = hs
  All-keys-put_entries ((p, v) ∷ vs) es h hs =
      All-keys-put_entries vs (insert p (some v) es) h.1 (All-keys-insert p (some v) es h.0 hs)

  pub All-keys-delete_entries :
      {V : Type 0} (ps : List Text) (es : Map (Option V))
      → All P (keys es)
      → All P (keys (delete_entries ps es))
  unfolding delete_entries
  All-keys-delete_entries [] es hs = hs
  All-keys-delete_entries (p ∷ ps) es hs =
      All-keys-delete_entries ps (delete p es) (All-keys-delete p es hs)
