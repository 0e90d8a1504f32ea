-- ===== src/Store/JsonView.antt =====
-- The file store: the values in its files, and what a read finds.
use zhi.Common.{
  keys, Text, true, Option, none, some, Result, ok, err, ◌≡◌, ◌∙◌, refl, ap, subst, sym, Map,
  lookup, ◌==◌, eq_iff,
}
use zhi.Store.Contract.{Keeping, View}
use zhi.Store.Disk.{OsError, not_exist, os_error, Os, Codec, IsOs, IsCodec, HasValidKeys}
use zhi.Store.Json.{flat, file_path, decoded, read_entries, entries_or_new}
use zhi.Store.Entries.{entry_at, IsSettled}

-- The value at a path in the content of a file.
abbrev pub entry_of : {V : Type 0} → Text → Result OsError (Option (Map (Option V))) → Option V
entry_of path (ok o) = entry_at path o
entry_of path (err e) = none

abbrev pub shown : {N V : Type 0} → Codec N V → Text → Option N → Option V
shown codec path none = none
shown codec path (some n) = entry_of path (codec.unmarshal n)

pointed_value : {V : Type 0} (e : Option (Option V)) (v : V) → flat e ≡ some v → e ≡ some (some v)
pointed_value none v h = absurd (cc)
pointed_value (some o) v h = ap some h

module _ {D N V : Type 0} (os : Os D N) (codec : Codec N V) (dir : Text)
    (content : D → Text → Option N) where
  -- The values in the files.
  unfoldable pub json_view : D → View V
  json_view d id path = shown codec path (content d (file_path os codec dir id))

  abbrev pub by_file : (V → V) → Keeping V
  by_file norm = record { key = file_path os codec dir; norm = norm }

  module _ (norm : V → V) (disk : IsOs os content) (coding : IsCodec codec norm) where
    IsSettled-unmarshal :
        (n : N) (o : Option (Map (Option V))) → codec.unmarshal n ≡ ok o → IsSettled norm o
    IsSettled-unmarshal n none e = λ path v held. absurd (cc)
    IsSettled-unmarshal n (some m) e =
        λ path v held. coding.settled n m path v e (pointed_value (lookup path m) v held)

    -- What a read that succeeds finds.
    pub read_entries_lem :
        (id : Text) (d : D) (o : Option (Map (Option V)))
        → read_entries os codec dir id d ≡ ok o
        → ((path : Text) → entry_at path o ≡ json_view d id path) × IsSettled norm o
    unfolding read_entries decoded json_view
    read_entries_lem id d o h = by_result _ refl
      where
        from_file :
            (n : N)
            → content d (file_path os codec dir id) ≡ some n
            → codec.unmarshal n ≡ ok o
            → ((path : Text)
                → entry_at path o ≡ shown codec path (content d (file_path os codec dir id)))
              × IsSettled norm o
        from_file n held coded' =
            (λ path. sym (rw (held, coded') refl), IsSettled-unmarshal n o coded')

        by_result :
            (r : Result OsError N)
            → os.read_file (file_path os codec dir id) d ≡ r
            → ((path : Text)
                → entry_at path o ≡ shown codec path (content d (file_path os codec dir id)))
              × IsSettled norm o
        by_result (ok n) e =
            from_file n (disk.reads _ d n e) (sym (ap (decoded os codec dir) e) ∙ h)
        by_result (err not_exist) e =
            let gone = disk.missing (file_path os codec dir id) d e in
            let none' : ok none ≡ ok o = sym (ap (decoded os codec dir) e) ∙ h in
            let same : none ≡ o = cc in
            (
              λ path.
                  subst
                    (λ x.
                      entry_at path x ≡ shown codec path (content d (file_path os codec dir id)))
                    same (sym (rw gone refl)),
              subst (IsSettled norm) same (λ path v held. absurd (cc)),
            )
        by_result (err (os_error text)) e =
            let bad : err (os_error text) ≡ ok o = sym (ap (decoded os codec dir) e) ∙ h in
            absurd (cc)

    -- The keys that a read finds are valid.
    pub read_entries-HasValidKeys :
        (id : Text) (d : D) (o : Option (Map (Option V)))
        → read_entries os codec dir id d ≡ ok o
        → HasValidKeys codec (entries_or_new o)
    unfolding read_entries decoded entries_or_new keys
    read_entries-HasValidKeys id d none h = tt
    read_entries-HasValidKeys id d (some m) h =
        by_result (os.read_file (file_path os codec dir id) d) h
      where
        by_result :
            (r : Result OsError N) → decoded os codec dir r ≡ ok (some m) → HasValidKeys codec m
        by_result (ok n) e = coding.keys_valid n m e
        by_result (err not_exist) e = absurd (cc)
        by_result (err (os_error text)) e = absurd (cc)

    -- Two trees of one file.
    pub same_view :
        (id tree path : Text) (d : D)
        → (file_path os codec dir id == file_path os codec dir tree) ≡ true
        → json_view d id path ≡ json_view d tree path
    unfolding json_view
    same_view id tree path d same =
        ap (λ name. shown codec path (content d name)) ((eq_iff _ _).0 same)
