-- ===== src/Store/Writing.antt =====
-- The atomic write of pkg/providers/store/jsonfile/jsonfile.go, over a disk on which any call may
-- fail.
use zhi.Common.{
  Text, true, Option, some, Result, ok, err, ◌≡◌, ◌≢◌, ◌∙◌, refl, sym, ap, inl, inr, Map,
  Bool-cases, if◌then◌else◌, ◌==◌, eq_iff,
}
use zhi.Store.Disk.{OsError, Io, Os, Codec, IsOs, json_name, temp_pattern}
use zhi.Store.Json.{next, file_path, or_close, fill_temp, or_remove, write_file}

-- What holds behind a call: `P` of the disk if it fails, `Q` of the result and the disk if not.
abbrev pub Post : {X D : Type 0} → (D → Type 0) → (X → D → Type 0) → Result OsError X × D → Type 0
Post P Q (ok x, d) = Q x d
Post P Q (err e, d) = P d

module _ {X D : Type 0} (P : D → Type 0) (Q : X → D → Type 0) where
  Post-of :
      (r : Result OsError X × D)
      → ((x : X) → r.0 ≡ ok x → Q x r.1)
      → ((e : OsError) → r.0 ≡ err e → P r.1)
      → Post P Q r
  Post-of (ok x, d) done failed = done x refl
  Post-of (err e, d) done failed = failed e refl

  Post-weaken :
      (R : X → D → Type 0) (m : Result OsError X × D)
      → Post P Q m
      → ((x : X) (d : D) → Q x d → R x d)
      → Post P R m
  Post-weaken R (ok x, d) h f = f x d h
  Post-weaken R (err e, d) h f = h

  next-Post :
      {Y : Type 0} (R : Y → D → Type 0) (m : Result OsError X × D) (k : X → Io D Y)
      → Post P Q m
      → ((x : X) (d : D) → Q x d → Post P R (k x d))
      → Post P R (next m k)
  next-Post R (ok x, d) k h step = step x d h
  next-Post R (err e, d) k h step = h

module _ {D N V : Type 0} (os : Os D N) (codec : Codec N V) (dir : Text)
    (content : D → Text → Option N) (law : IsOs os content) where
  abbrev pub at : D → Text → Option N
  at d tree = content d (file_path os codec dir tree)

  -- No tree has another content than before.
  abbrev pub Keeps : D → D → Type 0
  Keeps d d' = (tree : Text) → at d' tree ≡ at d tree

  or_close-Post :
      (d0 : D) (Q : Unit {0} → D → Type 0) (tmp : Text) (m : Result OsError (Unit {0}) × D)
      → Post (Keeps d0) Q m
      → Post (Keeps d0) Q (or_close os codec dir tmp m)
  unfolding or_close
  or_close-Post d0 Q tmp (ok u, d) h = h
  or_close-Post d0 Q tmp (err e, d) h = λ tree. law.close_keeps tmp d _ ∙ h tree

  or_remove-Post :
      (d0 : D) (Q : Unit {0} → D → Type 0) (tmp : Text) (m : Result OsError (Unit {0}) × D)
      → ((tree : Text) → tmp ≢ file_path os codec dir tree)
      → Post (Keeps d0) Q m
      → Post (Keeps d0) Q (or_remove os codec dir tmp m)
  unfolding or_remove
  or_remove-Post d0 Q tmp (ok u, d) fresh h = h
  or_remove-Post d0 Q tmp (err e, d) fresh h =
      λ tree. law.remove_keeps tmp _ d (fresh tree) ∙ h tree

  -- The file of the tree has the new content, and no other file has changed.
  abbrev pub Written : Text → N → D → D → Type 0
  Written id n d d' =
      (tree : Text)
      → at d' tree
        ≡ (if file_path os codec dir id == file_path os codec dir tree then some n else at d tree)

  -- The trees are kept, and the temporary file is complete.
  abbrev Ready : Text → N → D → D → Type 0
  Ready tmp n d d' = Keeps d d' × (content d' tmp ≡ some n)

  fill_temp-Post :
      (id tmp : Text) (n : N) (d0 d : D)
      → ((tree : Text) → tmp ≢ file_path os codec dir tree)
      → Keeps d0 d
      → content d tmp ≡ some law.empty
      → Post (Keeps d0) (λ u. Written id n d0) (fill_temp os codec dir id tmp n d)
  unfolding fill_temp
  fill_temp-Post id tmp n d0 d fresh kept blank =
      next-Post (Keeps d0) (λ u. Ready tmp n d0) (λ u. Written id n d0) _ _
        (or_close-Post d0 (λ u. Ready tmp n d0) tmp _
          (Post-of (Keeps d0) (λ u. Ready tmp n d0) (os.write tmp n d)
            (λ u done. (
              λ tree. law.write_keeps tmp _ n d (fresh tree) ∙ kept tree,
              law.write_fills tmp n d blank done,
            ))
            (λ e failed tree. law.write_keeps tmp _ n d (fresh tree) ∙ kept tree)))
        (λ u1 d1 h1.
          next-Post (Keeps d0) (λ u. Ready tmp n d0) (λ u. Written id n d0) _ _
            (or_close-Post d0 (λ u. Ready tmp n d0) tmp _
              (quiet d1 (os.sync tmp d1) (law.sync_keeps tmp d1) h1))
            (λ u2 d2 h2.
              next-Post (Keeps d0) (λ u. Ready tmp n d0) (λ u. Written id n d0) _ _
                (quiet d2 (os.close tmp d2) (law.close_keeps tmp d2) h2)
                (λ u3 d3 h3.
                  next-Post (Keeps d0) (λ u. Ready tmp n d0) (λ u. Written id n d0) _ _
                    (quiet d3 (os.chmod tmp d3) (law.chmod_keeps tmp d3) h3)
                    (λ u4 d4 h4. renamed d4 h4))))
    where
      -- A call that changes no file.
      quiet :
          (d1 : D) (r : Result OsError (Unit {0}) × D)
          → ((name : Text) → content r.1 name ≡ content d1 name)
          → Ready tmp n d0 d1
          → Post (Keeps d0) (λ u. Ready tmp n d0) r
      quiet d1 r same h =
          Post-of (Keeps d0) (λ u. Ready tmp n d0) r
            (λ u done. (λ tree. same _ ∙ h.0 tree, same tmp ∙ h.1))
            (λ e failed tree. same _ ∙ h.0 tree)

      renamed :
          (d4 : D)
          → Ready tmp n d0 d4
          → Post (Keeps d0) (λ u. Written id n d0) (os.rename tmp (file_path os codec dir id) d4)
      renamed d4 h =
          Post-of (Keeps d0) (λ u. Written id n d0) (os.rename tmp (file_path os codec dir id) d4)
            (λ u done tree.
              elim (Bool-cases (file_path os codec dir id == file_path os codec dir tree)) [
                | inl same ↦ rw same (
                    ap (content (os.rename tmp (file_path os codec dir id) d4).1)
                      (sym ((eq_iff _ _).0 same))
                    ∙ law.rename_moves tmp (file_path os codec dir id) d4 done
                    ∙ h.1)
                | inr unlike ↦ rw unlike (
                    law.rename_keeps tmp (file_path os codec dir id) _ d4 (fresh tree) (λ e.
                      let t : (file_path os codec dir id == file_path os codec dir tree) ≡ true =
                        (eq_iff _ _).1 e in
                      absurd (cc))
                    ∙ h.0 tree)
              ])
            (λ e failed tree. law.rename_fails tmp _ _ d4 e failed ∙ h.0 tree)

  -- Over a disk whose calls keep to the documentation of their packages, and whichever of them fail:
  -- the atomic write either fails and leaves the file of every tree as it was, or succeeds, and then
  -- the file of its tree has the coding of the entries and the file of every other tree is as it was.
  pub write_file-Post :
      (id : Text) (entries : Map (Option V)) (d : D)
      → Post
          (Keeps d)
          (λ u d'. (n : N) × (codec.marshal entries ≡ ok n) × Written id n d d')
          (write_file os codec dir id entries d)
  unfolding write_file file_path
  write_file-Post id entries d =
      next-Post (Keeps d) (λ n d'. (codec.marshal entries ≡ ok n) × (d ≡ d')) End _ _
        (Post-of (Keeps d) (λ n d'. (codec.marshal entries ≡ ok n) × (d ≡ d'))
          (codec.marshal entries, d) (λ n done. (done, refl)) (λ e failed tree. refl))
        (λ n d0 h0.
          next-Post (Keeps d) (λ u d'. Keeps d d') End _ _
            (Post-of (Keeps d) (λ u d'. Keeps d d') (os.mkdir_all dir d0) (λ u done. made d0 h0.1)
              (λ e failed. made d0 h0.1))
            (λ u d1 h1.
              next-Post (Keeps d) (Fresh) End _ _
                (Post-of (Keeps d) Fresh (os.create_temp dir (temp_pattern id) d1)
                  (λ tmp done. (
                    λ tree. law.temp_keeps dir id d1 _ tree (named tree) ∙ h1 tree,
                    λ tree e. law.temp_name dir id d1 tmp tree done (e ∙ named tree),
                    law.temp_empty dir id d1 tmp done,
                  ))
                  (λ e failed tree. law.temp_keeps dir id d1 _ tree (named tree) ∙ h1 tree))
                (λ tmp d2 h2. finished n tmp d2 h0.0 h2)))
    where
      End : Unit {0} → D → Type 0
      End u d' = (n : N) × (codec.marshal entries ≡ ok n) × Written id n d d'

      Fresh : Text → D → Type 0
      Fresh tmp d2 =
          Keeps d d2
          × ((tree : Text) → tmp ≢ file_path os codec dir tree)
          × (content d2 tmp ≡ some law.empty)

      named : (tree : Text) → file_path os codec dir tree ≡ os.join dir (json_name tree)
      named tree = refl

      made : (d0 : D) → d ≡ d0 → Keeps d (os.mkdir_all dir d0).1
      made d0 e tree = law.mkdir_keeps dir d0 _ ∙ sym (ap (λ x. at x tree) e)

      finished :
          (n : N) (tmp : Text) (d2 : D)
          → codec.marshal entries ≡ ok n
          → Fresh tmp d2
          → Post (Keeps d) End (or_remove os codec dir tmp (fill_temp os codec dir id tmp n d2))
      finished n tmp d2 coded' (kept, fresh, blank) =
          Post-weaken (Keeps d) (λ u. Written id n d) End _
            (or_remove-Post d (λ u. Written id n d) tmp _ fresh
              (fill_temp-Post id tmp n d d2 fresh kept blank))
            (λ u d' w. (n, coded', w))
