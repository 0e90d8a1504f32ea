-- ===== src/Store/JsonMethods.antt =====
-- The file store: what each of its methods does to the values, whichever calls of the disk fail.
use zhi.Common.{
  Text, true, false, List, Option, none, some, Result, ok, err, ◌≡◌, ◌≢◌, ◌∙◌, refl, ap, subst, sym,
  inl, inr, Map, lookup, keys, Distinct, contains, Bool-cases, Result-cases, if◌then◌else◌, ◌==◌,
  eq_iff, if_same,
}
use zhi.Store.Contract.{View, on_ok, put_latest}
use zhi.Store.Disk.{OsError, not_exist, os_error, Os, Codec, IsOs, IsCodec, coded, HasValidKeys}
use zhi.Store.Json.{
  from_os, returned, flat, put_entries, delete_entries, entries_or_new, picked_of, unless_missing,
  file_path, read_entries, delete_from, json_delete_tree, json_get_values, json_put_values,
  json_delete_values,
}
use zhi.Store.JsonView.{shown, json_view, read_entries_lem, same_view, read_entries-HasValidKeys}
use zhi.Store.Writing.{Post, Written, Keeps, write_file-Post}
use zhi.Store.Entries.{
  put_entries-settled, delete_entries-settled, picked_of_lem, All-keys-put_entries,
  All-keys-delete_entries,
}

module _ {D N V : Type 0} (os : Os D N) (codec : Codec N V) (dir : Text)
    (content : D → Text → Option N) where
  abbrev view : D → View V
  view = json_view os codec dir content

  module _ (norm : V → V) (disk : IsOs os content) (coding : IsCodec codec norm) where
    -- A write that puts these entries, or fails.
    wrote :
        (id : Text) (entries : Map (Option V)) (d : D) (new : Text → Option V → Option V)
        → HasValidKeys codec entries
        → ((path : Text) → flat (coded norm (lookup path entries)) ≡ new path (view d id path))
        → (r : Result OsError (Unit {0}) × D)
        → Post
            (Keeps os codec dir content disk d)
            (λ u d'.
              (n : N) × (codec.marshal entries ≡ ok n)
              × Written os codec dir content disk id n d d')
            r
        → (tree path : Text)
        → view (returned r).1 tree path
          ≡ on_ok
              (returned r).0
              (if file_path os codec dir id == file_path os codec dir tree
                then new path (view d tree path)
                else view d tree path)
              (view d tree path)
    unfolding json_view
    wrote id entries d new fit puts (err e, d') kept tree path = ap (shown codec path) (kept tree)
    wrote id entries d new fit puts (ok u, d') (n, coded', written) tree path =
        ap (shown codec path) (written tree)
        ∙ elim (Bool-cases (file_path os codec dir id == file_path os codec dir tree)) [
          | inl same ↦
              let (m', back, round) = coding.round entries n fit coded' in
              rw (same, back, round path)
                (puts path
                  ∙ ap (new path)
                      (same_view os codec dir content norm disk coding id tree path d same))
          | inr unlike ↦ rw unlike refl
        ]

    pub put_json :
        (id : Text) (vs : Map V) (d : D) (tree path : Text)
        → HasValidKeys codec vs
        → view (json_put_values os codec dir id vs d).1 tree path
          ≡ on_ok
              (json_put_values os codec dir id vs d).0
              (if file_path os codec dir id == file_path os codec dir tree
                then put_latest norm path vs (view d tree path)
                else view d tree path)
              (view d tree path)
    unfolding json_put_values
    put_json id vs d tree path fit = elim (Result-cases (read_entries os codec dir id d)) [
      | inr (e, failed) ↦ rw (failed, json_put_values) refl
      | inl (o, read) ↦
          let (held, settled) =
            read_entries_lem os codec dir content norm disk coding id d o read in
          rw (read, json_put_values)
            (wrote id (put_entries vs (entries_or_new o)) d (λ p. put_latest norm p vs)
              (All-keys-put_entries (λ p. codec.valid p ≡ true) vs (entries_or_new o) fit
                (read_entries-HasValidKeys os codec dir content norm disk coding id d o read))
              (λ p. put_entries-settled norm p vs o settled ∙ ap (put_latest norm p vs) (held p)) _
              (write_file-Post os codec dir content disk id _ d) tree path)
    ]

    -- A tree without a file has nothing to delete.
    unchanged :
        (id : Text) (ps : List Text) (d : D) (tree path : Text)
        → ((file_path os codec dir id == file_path os codec dir tree) ≡ true
            → view d tree path ≡ none)
        → view d tree path ≡ (
            if file_path os codec dir id == file_path os codec dir tree
            then (if contains ps path then none else view d tree path)
            else view d tree path)
    unchanged id ps d tree path h =
        elim (Bool-cases (file_path os codec dir id == file_path os codec dir tree)) [
          | inl same ↦ rw (same, h same) (sym (if_same (contains ps path) none))
          | inr unlike ↦ rw unlike refl
        ]

    pub delete_json :
        (id : Text) (ps : List Text) (d : D) (tree path : Text)
        → view (json_delete_values os codec dir id ps d).1 tree path
          ≡ on_ok
              (json_delete_values os codec dir id ps d).0
              (if file_path os codec dir id == file_path os codec dir tree
                then (if contains ps path then none else view d tree path)
                else view d tree path)
              (view d tree path)
    unfolding json_delete_values delete_from entries_or_new
    delete_json id ps d tree path = elim (Result-cases (read_entries os codec dir id d)) [
      | inr (e, failed) ↦ rw (failed, json_delete_values) refl
      | inl (none, read) ↦
          let (held, settled) =
            read_entries_lem os codec dir content norm disk coding id d none read in
          rw (read, json_delete_values)
            (unchanged id ps d tree path (λ same.
              sym (same_view os codec dir content norm disk coding id tree path d same)
              ∙ sym (held path)))
      | inl (some m, read) ↦
          let (held, settled) =
            read_entries_lem os codec dir content norm disk coding id d (some m) read in
          rw (read, json_delete_values)
            (wrote id (delete_entries ps m) d (λ p x. if contains ps p then none else x)
              (All-keys-delete_entries (λ p. codec.valid p ≡ true) ps m
                (read_entries-HasValidKeys os codec dir content norm disk coding id d (some m)
                  read))
              (λ p.
                delete_entries-settled norm p ps m settled
                ∙ ap (λ x. if contains ps p then none else x) (held p))
              _ (write_file-Post os codec dir content disk id _ d) tree path)
    ]

    pub drop_json :
        (id : Text) (d : D) (tree path : Text)
        → view (json_delete_tree os codec dir id d).1 tree path
          ≡ on_ok
              (json_delete_tree os codec dir id d).0
              (if file_path os codec dir id == file_path os codec dir tree
                then none
                else view d tree path)
              (view d tree path)
    unfolding json_delete_tree json_view unless_missing
    drop_json id d tree path =
        by_result (os.remove (file_path os codec dir id) d) (disk.removes _ d)
          (disk.remove_missing _ d) (disk.remove_fails _ d)
          (λ name ne. disk.remove_keeps _ name d ne)
      where
        file : Text
        file = file_path os codec dir id

        here' :
            (d' : D) (o : Option V) (wanted : Option N)
            → shown codec path wanted ≡ o
            → content d' file ≡ wanted
            → (file == file_path os codec dir tree) ≡ true
            → shown codec path (content d' (file_path os codec dir tree)) ≡ o
        here' d' o wanted e held same =
            ap (λ name. shown codec path (content d' name)) (sym ((eq_iff _ _).0 same))
            ∙ ap (shown codec path) held
            ∙ e

        elsewhere :
            (d' : D)
            → ((name : Text) → file ≢ name → content d' name ≡ content d name)
            → (file == file_path os codec dir tree) ≡ false
            → shown codec path (content d' (file_path os codec dir tree))
              ≡ shown codec path (content d (file_path os codec dir tree))
        elsewhere d' others unlike = ap (shown codec path) (
            others _ (λ e.
              let t : (file == file_path os codec dir tree) ≡ true = (eq_iff _ _).1 e in
              absurd (cc)))

        gone :
            (d' : D)
            → content d' file ≡ none
            → ((name : Text) → file ≢ name → content d' name ≡ content d name)
            → shown codec path (content d' (file_path os codec dir tree)) ≡ (
                if file == file_path os codec dir tree
                then none
                else shown codec path (content d (file_path os codec dir tree)))
        gone d' removed others = elim (Bool-cases (file == file_path os codec dir tree)) [
          | inl same ↦ rw same (here' d' none none refl removed same)
          | inr unlike ↦ rw unlike (elsewhere d' others unlike)
        ]

        by_result :
            (r : Result OsError (Unit {0}) × D)
            → (r.0 ≡ ok tt → content r.1 file ≡ none)
            → (r.0 ≡ err not_exist → content r.1 file ≡ none)
            → ((t : Text) → r.0 ≡ err (os_error t) → content r.1 file ≡ content d file)
            → ((name : Text) → file ≢ name → content r.1 name ≡ content d name)
            → shown codec path (content (unless_missing r).1 (file_path os codec dir tree))
              ≡ on_ok
                  (unless_missing r).0
                  (if file == file_path os codec dir tree
                    then none
                    else shown codec path (content d (file_path os codec dir tree)))
                  (shown codec path (content d (file_path os codec dir tree)))
        by_result (ok u, d') removed missing kept others = gone d' (removed refl) others
        by_result (err not_exist, d') removed missing kept others = gone d' (missing refl) others
        by_result (err (os_error t), d') removed missing kept others =
            elim (Bool-cases (file == file_path os codec dir tree)) [
              | inl same ↦
                  here' d' _ _
                    (ap (λ name. shown codec path (content d name)) ((eq_iff _ _).0 same))
                    (kept t refl) same
              | inr unlike ↦ elsewhere d' others unlike
            ]

    pub reads_json :
        (id : Text) (ps : List Text) (d : D) (m : Map V) (path : Text)
        → (json_get_values os codec dir id ps d).0 ≡ ok m
        → (lookup path m ≡ (if contains ps path then view d id path else none)) × Distinct (keys m)
    unfolding json_get_values
    reads_json id ps d m path h = elim (Result-cases (read_entries os codec dir id d)) [
      | inr (e, failed) ↦
          let bad : (json_get_values os codec dir id ps d).0 ≡ err (from_os e) =
            rw (failed, json_get_values) refl in
          absurd (cc)
      | inl (o, read) ↦
          let (held, settled) =
            read_entries_lem os codec dir content norm disk coding id d o read in
          let got : (json_get_values os codec dir id ps d).0 ≡ ok (picked_of ps o) =
            rw (read, json_get_values) refl in
          let both : ok (picked_of ps o) ≡ ok m = sym got ∙ h in
          let same : picked_of ps o ≡ m = cc in
          let (picked', once) = picked_of_lem ps o path in
          subst
            (λ n.
              (lookup path n ≡ (if contains ps path then view d id path else none))
              × Distinct (keys n))
            same (picked' ∙ rw (held path) refl, once)
    ]
