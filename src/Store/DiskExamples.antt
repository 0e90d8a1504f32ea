-- ===== src/Store/DiskExamples.antt =====
-- The file store on a disk that is a map, where no call fails, with maps as the content of files.
use zhi.Common.{
  true, keys, All-of_In, ℕ, Text, bytes, [], ◌∷◌, Option, none, some, Result, ok, err, ◌≡◌, ◌≢◌,
  refl, ap, Map, lookup, insert, delete, lookup-insert, lookup-delete, ◌==◌, eq_refl, ne→eq_false,
  ◌∙◌, subst,
}
use zhi.Store.Disk.{OsError, not_exist, Os, Codec, IsOs, IsCodec, coded}
use zhi.Store.Json.{json_plugin, file_path, json_get_values, json_put_values, write_file}
use zhi.Store.Writing.{Post, Keeps, Written, write_file-Post}
use zhi.Store.Contract.{IsUnversioned}
use zhi.Store.JsonView.{json_view, by_file}
use zhi.Store.JsonStoring.{HasValidPaths, json_plugin-IsUnversioned}

abbrev Content : Type 0
Content = Map (Option ℕ)

abbrev temp : Text
temp = []

abbrev moved : Text → Text → Map Content → Option Content → Result OsError (Unit {0}) × Map Content
moved from to d none = (err not_exist, d)
moved from to d (some n) = (ok tt, insert to n (delete from d))

abbrev reading : Option Content → Result OsError Content
reading none = err not_exist
reading (some n) = ok n

abbrev map_os : Os (Map Content) Content
map_os = record {
  join = λ dir name. b'/' ∷ name;
  base = λ name. name;
  glob = λ pattern d. ok [];
  read_file = λ name d. reading (lookup name d);
  mkdir_all = λ dir d. (ok tt, d);
  create_temp = λ dir pattern d. (ok temp, insert temp [] d);
  write = λ tmp n d. (ok tt, insert tmp n d);
  sync = λ tmp d. (ok tt, d);
  close = λ tmp d. (ok tt, d);
  chmod = λ tmp d. (ok tt, d);
  rename = λ from to d. moved from to d (lookup from d);
  remove = λ name d. (ok tt, delete name d);
}

abbrev map_codec : Codec Content ℕ
map_codec = record { marshal = λ m. ok m; unmarshal = λ n. ok (some n); valid = λ path. true }

abbrev contents : Map Content → Text → Option Content
contents d name = lookup name d

reading_ok : (o : Option Content) (n : Content) → reading o ≡ ok n → o ≡ some n
reading_ok none n e = absurd (cc)
reading_ok (some m) n e = let same : m ≡ n = cc in ap some same

reading_missing : (o : Option Content) → reading o ≡ err not_exist → o ≡ none
reading_missing none e = refl
reading_missing (some m) e = absurd (cc)

put_same : (name : Text) (n : Content) (d : Map Content) → lookup name (insert name n d) ≡ some n
put_same name n d = rw (lookup-insert name name n d, eq_refl name) refl

put_other :
    (key name : Text) (n : Content) (d : Map Content)
    → key ≢ name
    → lookup name (insert key n d) ≡ lookup name d
put_other key name n d ne = rw (lookup-insert key name n d, ne→eq_false key name ne) refl

delete_other :
    (key name : Text) (d : Map Content) → key ≢ name → lookup name (delete key d) ≡ lookup name d
delete_other key name d ne = rw (lookup-delete key name d, ne→eq_false key name ne) refl

moved_moves :
    (from to : Text) (d : Map Content) (o : Option Content)
    → (moved from to d o).0 ≡ ok tt
    → lookup to (moved from to d o).1 ≡ o
moved_moves from to d none e = absurd (cc)
moved_moves from to d (some n) e = put_same to n (delete from d)

moved_keeps :
    (from to name : Text) (d : Map Content) (o : Option Content)
    → from ≢ name
    → to ≢ name
    → lookup name (moved from to d o).1 ≡ lookup name d
moved_keeps from to name d none ne1 ne2 = refl
moved_keeps from to name d (some n) ne1 ne2 =
    put_other to name n (delete from d) ne2 ∙ delete_other from name d ne1

moved_fails :
    (from to name : Text) (d : Map Content) (o : Option Content) (e : OsError)
    → (moved from to d o).0 ≡ err e
    → lookup name (moved from to d o).1 ≡ lookup name d
moved_fails from to name d none x e = refl
moved_fails from to name d (some n) x e = absurd (cc)

coded_same : (o : Option (Option ℕ)) → o ≡ coded (λ v. v) o
coded_same none = refl
coded_same (some none) = refl
coded_same (some (some v)) = refl

map_os-IsOs : IsOs map_os contents
map_os-IsOs = record {
  empty = [];
  reads = λ name d n e. reading_ok (lookup name d) n e;
  missing = λ name d e. reading_missing (lookup name d) e;
  mkdir_keeps = λ dir d name. refl;
  temp_keeps = λ dir id d name tree e. put_other temp name [] d (λ same. absurd (cc));
  temp_name = λ dir id d tmp tree e same. absurd (cc);
  temp_empty = λ dir id d tmp e.
      let same' : temp ≡ tmp = cc in
      subst (λ x. lookup x (insert temp [] d) ≡ some []) same' (put_same temp [] d);
  write_keeps = λ tmp name n d ne. put_other tmp name n d ne;
  write_fills = λ tmp n d blank e. put_same tmp n d;
  sync_keeps = λ tmp d name. refl;
  close_keeps = λ tmp d name. refl;
  chmod_keeps = λ tmp d name. refl;
  rename_moves = λ from to d e. moved_moves from to d (lookup from d) e;
  rename_keeps = λ from to name d ne1 ne2. moved_keeps from to name d (lookup from d) ne1 ne2;
  rename_fails = λ from to name d x e. moved_fails from to name d (lookup from d) x e;
  remove_keeps = λ tmp name d ne. delete_other tmp name d ne;
  removes = λ name d e. rw (lookup-delete name name d, eq_refl name) refl;
  remove_missing = λ name d e. absurd (cc);
  remove_fails = λ name d t e. absurd (cc);
}

map_codec-IsCodec : IsCodec map_codec (λ v. v)
map_codec-IsCodec = record {
  keys_valid = λ n m e. All-of_In (λ path. true ≡ true) (keys m) (λ path held. refl);
  round = λ m n fit e. (
    n,
    refl,
    λ path.
        let same : m ≡ n = cc in
        subst (λ x. lookup path x ≡ coded (λ v. v) (lookup path m)) same
          (coded_same (lookup path m)),
  );
  settled = λ n m path v e f. refl;
}

json_plugin-IsUnversioned_example :
    IsUnversioned
      (json_plugin map_os map_codec (bytes "/srv/store"))
      (by_file map_os map_codec (bytes "/srv/store") contents (λ v. v))
      (json_view map_os map_codec (bytes "/srv/store") contents)
      (HasValidPaths map_os map_codec (bytes "/srv/store") contents)
json_plugin-IsUnversioned_example =
    json_plugin-IsUnversioned map_os map_codec (bytes "/srv/store") contents (λ v. v) map_os-IsOs
      map_codec-IsCodec

abbrev entries : Map (Option ℕ)
entries = (bytes "db/host", some 7) ∷ []

write_file-Post_example :
    Post
      (Keeps map_os map_codec (bytes "/srv/store") contents map_os-IsOs [])
      (λ u d'.
        (n : Content) × (map_codec.marshal entries ≡ ok n)
        × Written map_os map_codec (bytes "/srv/store") contents map_os-IsOs (bytes "home") n [] d')
      (write_file map_os map_codec (bytes "/srv/store") (bytes "home") entries [])
write_file-Post_example =
    write_file-Post map_os map_codec (bytes "/srv/store") contents map_os-IsOs (bytes "home")
      entries []

-- What is put is what is read.
put_get_test :
    (json_get_values map_os map_codec []
      (bytes "home")
      (bytes "db/host" ∷ [])
      (json_put_values map_os map_codec [] (bytes "home") ((bytes "db/host", 7) ∷ []) []).1).0
    ≡ ok ((bytes "db/host", 7) ∷ [])
unfolding json_get_values json_put_values file_path lookup insert ◌==◌ delete
put_get_test = refl
