-- ===== src/Config/Routing.antt =====
-- The merged plugin routes a path to one child.
use zhi.Common.{
  ℕ, zero, suc, ◌+◌, Text, true, false, List, [], ◌∷◌, ◌++◌, Option, none, some, ok, err, ◌≡◌, ◌≢◌,
  ◌↔◌, inl, inr, refl, arith, nat_eq, has_prefix, trim_prefix, In, here, there, has_prefix-append,
  trim_prefix-append, Bool-cases, subst, sym, ap, ◌∙◌, both_ok,
}
use zhi.Config.Merged.{
  Plugin, MountedPlugin, overlap, check_others, check_child, check_children, merged_plugin, route,
  merged_get, merged_set, set_child, nil_call, child_error,
}

-- Two prefixes of one text: one is a prefix of the other.
overlap_of_common :
    (path a b : Text) → has_prefix path a ≡ true → has_prefix path b ≡ true → overlap a b ≡ true
unfolding has_prefix overlap
overlap_of_common path [] [] ha hb = refl
overlap_of_common path [] (d ∷ b) ha hb = refl
overlap_of_common path (c ∷ a) [] ha hb = refl
overlap_of_common [] (c ∷ a) (d ∷ b) ha hb = ground arith
overlap_of_common (x ∷ path) (c ∷ a) (d ∷ b) ha hb =
    let rest = overlap_of_common path a b (ground arith) (ground arith) in ground arith

-- The element at a position.
data At {A : Type 0} (a : A) : ℕ → List A → Type 0 where
  first : {xs : List A} → At a zero (a ∷ xs)
  next : {i : ℕ} {b : A} {xs : List A} → At a i xs → At a (suc i) (b ∷ xs)

In→At : {A : Type 0} {a : A} {xs : List A} → In a xs → (i : ℕ) × At a i xs
In→At {a = a} (here {xs = xs} e) = (zero, subst (λ b. At a zero (b ∷ xs)) (sym e) first)
In→At (there m) = let (i, at) = In→At m in (suc i, next at)

At-same : {A : Type 0} {a b : A} {i : ℕ} {xs : List A} → At a i xs → At b i xs → a ≡ b
At-same first first = refl
At-same (next m) (next n) = At-same m n

module _ {S V R E : Type 0} where
  check_others-At :
      (i j : ℕ) (a : MountedPlugin S V R E) (bs : List (MountedPlugin S V R E))
      {b : MountedPlugin S V R E} {k : ℕ}
      → check_others i j a bs ≡ ok tt
      → At b k bs
      → i ≢ j + k
      → overlap a.prefix b.prefix ≡ false
  unfolding check_others
  check_others-At i j a [] h m apart = elim m [ ]
  check_others-At i j a (b ∷ bs) h first apart = ground arith
  check_others-At i j a (c ∷ bs) h (next {i = k} m) apart =
      check_others-At i (j + 1) a bs (ground arith) m (λ e. apart (omega arith))

  check_child-ok :
      (i : ℕ) (a : MountedPlugin S V R E) (all : List (MountedPlugin S V R E))
      → check_child i a all ≡ ok tt
      → (check_others i 0 a all ≡ ok tt) × (a.impl ≢ none)
  unfolding check_child
  check_child-ok i a all h = ground arith

  check_children-At :
      (i : ℕ) (rest all : List (MountedPlugin S V R E)) {a : MountedPlugin S V R E} {k : ℕ}
      → check_children i rest all ≡ ok tt
      → At a k rest
      → check_child (i + k) a all ≡ ok tt
  unfolding check_children
  check_children-At i [] all h m = elim m [ ]
  check_children-At i (a ∷ rest) all h first =
      let at : i ≡ i + 0 = omega arith in
      subst (λ n. check_child n a all ≡ ok tt) at
        (both_ok (check_child i a all) (check_children (i + 1) rest all) tt h).0
  check_children-At i (b ∷ rest) all {a = a} h (next {i = k} m) =
      let at : i + 1 + k ≡ i + suc k = omega arith in
      subst (λ n. check_child n a all ≡ ok tt) at
        (check_children-At (i + 1) rest all
          (both_ok (check_child i b all) (check_children (i + 1) rest all) tt h).1 m)

  route-In :
      (path : Text) (cs : List (MountedPlugin S V R E)) {c : MountedPlugin S V R E}
      → route path cs ≡ some c
      → In c cs × (has_prefix path c.prefix ≡ true)
  unfolding route
  route-In path [] e = ground arith
  route-In path (d ∷ cs) {c = c} e = elim (Bool-cases (has_prefix path d.prefix)) [
    | inl has ↦
        let same : d ≡ c = ground arith in
        (here same, subst (λ (x : MountedPlugin S V R E). has_prefix path x.prefix ≡ true) same has)
    | inr lacks ↦ let (m, h) = route-In path cs (ground arith) in (there m, h)
  ]

  route-some :
      (path : Text) (cs : List (MountedPlugin S V R E)) {c : MountedPlugin S V R E}
      → In c cs
      → has_prefix path c.prefix ≡ true
      → (d : MountedPlugin S V R E) × (route path cs ≡ some d)
  unfolding route
  route-some path [] m h = elim m [ ]
  route-some path (d ∷ cs) (here same) h = (
    d,
    rw (subst (λ (x : MountedPlugin S V R E). has_prefix path x.prefix ≡ true) (sym same) h) refl,
  )
  route-some path (d ∷ cs) (there m) h = elim (Bool-cases (has_prefix path d.prefix)) [
    | inl has ↦ (d, rw has refl)
    | inr lacks ↦ rw lacks (route-some path cs m h)
  ]

  merged-checked :
      (cs cs' : List (MountedPlugin S V R E))
      → merged_plugin cs ≡ ok cs'
      → (cs' ≡ cs) × (check_children 0 cs cs ≡ ok tt)
  unfolding merged_plugin
  merged-checked [] cs' h = absurd (cc)
  merged-checked (c ∷ cs) cs' h =
      let (checked, same) = both_ok (check_children 0 (c ∷ cs) (c ∷ cs)) (ok (c ∷ cs)) cs' h in
      (ground (arith, same), checked)

  -- In a plugin that `MergedPlugin` returned, the two children whose prefix a path has are one.
  route_unique :
      (cs cs' : List (MountedPlugin S V R E)) (path : Text) {c d : MountedPlugin S V R E}
      → merged_plugin cs ≡ ok cs'
      → In c cs
      → In d cs
      → has_prefix path c.prefix ≡ true
      → has_prefix path d.prefix ≡ true
      → c ≡ d
  route_unique cs cs' path {c} {d} h mc md hc hd =
      let (i, ci) = In→At mc in
      let (j, dj) = In→At md in
      let checked = check_children-At 0 cs cs (merged-checked cs cs' h).1 ci in
      let against = (check_child-ok (0 + i) c cs checked).0 in
      elim (Bool-cases (nat_eq i j)) [
        | inl same ↦ At-same ci (subst (λ n. At d n cs) (ground arith) dj)
        | inr other ↦ absurd (
            let apart = check_others-At (0 + i) 0 c cs against dj (λ e. ground arith) in
            let meet = overlap_of_common path c.prefix d.prefix hc hd in cc (apart, meet))
      ]

  -- In a plugin that `MergedPlugin` returned, a path is routed to a child exactly when that child
  -- is one of the given ones and the path has its prefix: the order of the children does not
  -- decide it.
  pub route_iff :
      (cs cs' : List (MountedPlugin S V R E)) (path : Text) (c : MountedPlugin S V R E)
      → merged_plugin cs ≡ ok cs'
      → (route path cs' ≡ some c) ↔ (In c cs × (has_prefix path c.prefix ≡ true))
  route_iff cs cs' path c h =
      let kept = (merged-checked cs cs' h).0 in
      (
        λ e. route-In path cs (subst (λ l. route path l ≡ some c) kept e),
        λ found.
            let (d, e) = route-some path cs found.0 found.1 in
            let (md, hd) = route-In path cs e in
            rw kept (e ∙ ap some (route_unique cs cs' path h md found.0 hd found.1)),
      )

  set_child-ok :
      (path : Text) (v : V) (c : MountedPlugin S V R E) (p : Plugin S V R E) (st : S)
      → c.impl ≡ some p
      → p.set c.state (trim_prefix path c.prefix) v ≡ ok st
      → set_child c path v ≡ ok (record c { state = st })
  unfolding set_child
  set_child-ok path v c p st impl done =
      subst
        (λ o.
          (elim o [
            | none ↦ err nil_call
            | some q ↦ elim (Plugin.set q c.state (trim_prefix path c.prefix) v) [
              | ok s ↦ ok (record c { state = s })
              | err e ↦ err (child_error e)
            ]
          ])
          ≡ ok (record c { state = st }))
        (sym impl) (rw done refl)

  merged_get-route :
      (path : Text) (cs : List (MountedPlugin S V R E)) (c : MountedPlugin S V R E)
      (p : Plugin S V R E) (o : Option V)
      → route path cs ≡ some c
      → c.impl ≡ some p
      → p.get c.state (trim_prefix path c.prefix) ≡ ok o
      → merged_get cs path ≡ ok o
  unfolding merged_get
  merged_get-route path cs c p o routed impl got = rw (routed, merged_get) (rw (impl, got) refl)

  -- A value that the routed child takes.
  merged_set-route :
      (path : Text) (v : V) (cs : List (MountedPlugin S V R E)) (c : MountedPlugin S V R E)
      (p : Plugin S V R E) (st : S)
      → route path cs ≡ some c
      → c.impl ≡ some p
      → p.set c.state (trim_prefix path c.prefix) v ≡ ok st
      → (cs' : List (MountedPlugin S V R E)) × (merged_set cs path v ≡ ok cs')
        × (route path cs' ≡ some (record c { state = st }))
  unfolding merged_set route
  merged_set-route path v [] c p st e impl done = absurd (cc)
  merged_set-route path v (d ∷ cs) c p st e impl done =
      elim (Bool-cases (has_prefix path d.prefix)) [
        | inl has ↦
            let same : d ≡ c = ground arith in
            let taken =
              subst (λ x. set_child x path v ≡ ok (record x { state = st })) (sym same)
                (set_child-ok path v c p st impl done) in
            (
              record d { state = st } ∷ cs,
              rw (has, taken) refl,
              rw has (ap (λ (x : MountedPlugin S V R E). some (record x { state = st })) same),
            )
        | inr lacks ↦
            let (cs', e₁, e₂) = merged_set-route path v cs c p st (ground arith) impl done in
            (d ∷ cs', rw (lacks, e₁) refl, rw (lacks, e₂) refl)
      ]

  -- In a plugin that `MergedPlugin` returned, `Set` and `Get` at a child's prefix followed by a
  -- text reach that child with the text: if the child takes the value and then returns it, so
  -- does the merged plugin.
  pub merged_get-merged_set :
      (cs cs' : List (MountedPlugin S V R E)) (c : MountedPlugin S V R E) (p : Plugin S V R E)
      (rest : Text) (v : V) (st : S)
      → merged_plugin cs ≡ ok cs'
      → In c cs
      → c.impl ≡ some p
      → p.set c.state rest v ≡ ok st
      → p.get st rest ≡ ok (some v)
      → (cs'' : List (MountedPlugin S V R E)) × (merged_set cs' (c.prefix ++ rest) v ≡ ok cs'')
        × (merged_get cs'' (c.prefix ++ rest) ≡ ok (some v))
  merged_get-merged_set cs cs' c p rest v st h m impl done read =
      let routed =
        (route_iff cs cs' (c.prefix ++ rest) c h).1 (m, has_prefix-append c.prefix rest) in
      let trimmed = trim_prefix-append c.prefix rest in
      let (cs'', e₁, e₂) =
        merged_set-route (c.prefix ++ rest) v cs' c p st routed impl (rw trimmed done) in
      let got =
        merged_get-route (c.prefix ++ rest) cs'' (record c { state = st }) p (some v) e₂ impl
          (rw trimmed read) in
      (cs'', e₁, got)
