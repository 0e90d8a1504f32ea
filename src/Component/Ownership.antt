-- ===== src/Component/Ownership.antt =====
-- No path has two owners: `checkOverlappingPaths` and `PathBelongsToComponent` of
-- internal/core/component.go.
use zhi.Common.{
  Text, true, false, List, [], ◌∷◌, ok, ◌≡◌, ◌⊎◌, inl, inr, refl, arith, In, here, there,
  In-append_left, In-append_right, ◌==◌, eq_iff, Bool-cases, ap, subst, sym, ◌∙◌,
}
use zhi.Component.Paths.{path_has_prefix, prefix_overlaps, prefix_overlaps_of_common}
use zhi.Component.Manager.{ComponentDef, Ownership, matches_any}
use zhi.Component.Setup.{owned_by, ownerships, check_against, check_pairs, check_overlapping_paths}

In-owned_by :
    (name p : Text) (ps : List Text)
    → In p ps
    → In (record { prefix = p; component = name }) (owned_by name ps)
unfolding owned_by
In-owned_by name p [] m = elim m [ ]
In-owned_by name p (q ∷ qs) (here same) = here (ground arith)
In-owned_by name p (q ∷ qs) (there m) = there (In-owned_by name p qs m)

In-ownerships :
    (p : Text) (d : ComponentDef) (ds : List ComponentDef)
    → In d ds
    → In p d.paths
    → In (record { prefix = p; component = d.name }) (ownerships ds)
unfolding ownerships
In-ownerships p d [] m mp = elim m [ ]
In-ownerships p d (e ∷ ds) (here same) mp = In-append_left (ownerships ds) (
    subst
      (λ (x : ComponentDef).
        In (record { prefix = p; component = d.name }) (owned_by x.name x.paths))
      (sym same) (In-owned_by d.name p d.paths mp))
In-ownerships p d (e ∷ ds) (there m) mp =
    In-append_right (owned_by e.name e.paths) (In-ownerships p d ds m mp)

-- Entries of two components, whose prefixes do not overlap.
abbrev Apart : Ownership → Ownership → Type 0
Apart a b = (a.component ≡ b.component) ⊎ (prefix_overlaps a.prefix b.prefix ≡ false)

check_against-Apart :
    (a : Ownership) (bs : List Ownership)
    → check_against a bs ≡ ok tt
    → (b : Ownership) → In b bs
    → Apart a b
unfolding check_against
check_against-Apart a [] h b m = elim m [ ]
check_against-Apart a (c ∷ cs) h b (here same) =
    subst (Apart a) same (elim (Bool-cases (a.component == c.component)) [
      | inl one ↦ inl ((eq_iff a.component c.component).0 one)
      | inr two ↦ inr (ground arith)
    ])
check_against-Apart a (c ∷ cs) h b (there m) = check_against-Apart a cs (ground arith) b m

check_pairs-Apart :
    (os : List Ownership)
    → check_pairs os ≡ ok tt
    → (a b : Ownership) → In a os
    → In b os
    → Apart a b ⊎ Apart b a
unfolding check_pairs
check_pairs-Apart [] h a b ma mb = elim ma [ ]
check_pairs-Apart (o ∷ os) h a b (here sa) (here sb) =
    inl (inl (ap (λ (x : Ownership). x.component) (sym sa ∙ sb)))
check_pairs-Apart (o ∷ os) h a b (here sa) (there mb) =
    inl (subst (λ x. Apart x b) sa (check_against-Apart o os (ground arith) b mb))
check_pairs-Apart (o ∷ os) h a b (there ma) (here sb) =
    inr (subst (λ x. Apart x a) sb (check_against-Apart o os (ground arith) a ma))
check_pairs-Apart (o ∷ os) h a b (there ma) (there mb) =
    check_pairs-Apart os (ground arith) a b ma mb

matches_any-In :
    (path : Text) (ps : List Text)
    → matches_any path ps ≡ true
    → (p : Text) × In p ps × (path_has_prefix path p ≡ true)
unfolding matches_any
matches_any-In path [] h = absurd (cc)
matches_any-In path (q ∷ qs) h = elim (Bool-cases (path_has_prefix path q)) [
  | inl yes_q ↦ (q, here refl, yes_q)
  | inr no_q ↦ let (p, m, e) = matches_any-In path qs (ground arith) in (p, there m, e)
]

-- In a list of definitions that passed the check, two components that both claim a path by one of
-- their prefixes have the same name.
pub owner_unique :
    (ds : List ComponentDef) (path : Text) (d e : ComponentDef)
    → check_overlapping_paths ds ≡ ok tt
    → In d ds
    → In e ds
    → matches_any path d.paths ≡ true
    → matches_any path e.paths ≡ true
    → d.name ≡ e.name
unfolding check_overlapping_paths
owner_unique ds path d e checked md me hd he =
    let (p, mp, hp) = matches_any-In path d.paths hd in
    let (q, mq, hq) = matches_any-In path e.paths he in
    let pq = prefix_overlaps_of_common path p q hp hq in
    let qp = prefix_overlaps_of_common path q p hq hp in
    elim (check_pairs-Apart (ownerships ds) checked _ _ (In-ownerships p d ds md mp)
      (In-ownerships q e ds me mq)) [
        | inl (inl same) ↦ same
        | inl (inr apart) ↦ absurd (cc)
        | inr (inl same) ↦ sym same
        | inr (inr apart) ↦ absurd (cc)
      ]
