-- ===== src/Engine/Semantic.antt =====
-- What LoadStoredTree makes of a stored value is what is described.
use zhi.Common.{
  Text, bytes, true, false, [], Option, none, some, ok, err, ◌≡◌, ◌≢◌, ◌⊎◌, inl, inr, refl, ap, sym,
  subst, ◌∙◌, lookup, ◌==◌, eq_iff, ne→eq_false, Bool-cases, Result-cases, if◌then◌else◌,
}
use zhi.Numeric.Convert.{
  Any, int, int8, int16, int32, int64, uint, uint8, uint16, uint32, uint64, float32, float64,
  string, bool, other,
}
use zhi.Numeric.TryConvert.{
  Target, string_type, int_type, uint_type, float64_type, bool_type, other_type, no_conversion,
  try_convert,
}
use zhi.Engine.State.{Entry, Host, get_string, get_semantic_type, to_semantic, stored_value}
use zhi.Engine.Taken.{IsSemantic, HasType, IsStored, converted, refused, untyped}

pub differ : (s t : Text) → (s == t) ≡ false → s ≢ t
differ s t h e = let same : (s == t) ≡ true = (eq_iff s t).1 e in absurd (cc)

string_inj :
    {F O : Type 0} (o : Option (Any F O)) (s t : Text)
    → o ≡ some (string s)
    → o ≡ some (string t)
    → s ≡ t
string_inj o s t e e' = cc

module _ {F O : Type 0} (host : Host F O) where
  -- What the switch over the semantic type does.
  to_semantic-cases :
      (t : Text)
      → ((target : Target) × IsSemantic t target
          × ((t == []) ≡ false)
          × ((x : Any F O) → to_semantic host t x ≡ try_convert host.conv x target))
        ⊎ (((target : Target) → ¬ IsSemantic t target)
            × ((x : Any F O) → to_semantic host t x ≡ err no_conversion))
  unfolding to_semantic
  to_semantic-cases t = elim (Bool-cases (t == bytes "string")) [
    | inl same ↦
        let e = (eq_iff _ _).0 same in
        inl (string_type, e, ne→eq_false t [] (λ z. absurd (cc)), λ x. rw same refl)
    | inr n1 ↦ elim (Bool-cases (t == bytes "int")) [
      | inl same ↦
          let e = (eq_iff _ _).0 same in
          inl (int_type, e, ne→eq_false t [] (λ z. absurd (cc)), λ x. rw (n1, same) refl)
      | inr n2 ↦ elim (Bool-cases (t == bytes "uint")) [
        | inl same ↦
            let e = (eq_iff _ _).0 same in
            inl (uint_type, e, ne→eq_false t [] (λ z. absurd (cc)), λ x. rw (n1, n2, same) refl)
        | inr n3 ↦ elim (Bool-cases (t == bytes "float")) [
          | inl same ↦
              let e = (eq_iff _ _).0 same in
              inl (
                float64_type,
                e,
                ne→eq_false t [] (λ z. absurd (cc)),
                λ x. rw (n1, n2, n3, same) refl,
              )
          | inr n4 ↦ elim (Bool-cases (t == bytes "bool")) [
            | inl same ↦
                let e = (eq_iff _ _).0 same in
                inl (
                  bool_type,
                  e,
                  ne→eq_false t [] (λ z. absurd (cc)),
                  λ x. rw (n1, n2, n3, n4, same) refl,
                )
            | inr n5 ↦ inr (no_type t n1 n2 n3 n4 n5, λ x. rw (n1, n2, n3, n4, n5) refl)
          ]
        ]
      ]
    ]
  ]
    where
      no_type :
          (s : Text)
          → (s == bytes "string") ≡ false
          → (s == bytes "int") ≡ false
          → (s == bytes "uint") ≡ false
          → (s == bytes "float") ≡ false
          → (s == bytes "bool") ≡ false
          → (target : Target) → ¬ IsSemantic s target
      no_type s n1 n2 n3 n4 n5 string_type h = differ s (bytes "string") n1 h
      no_type s n1 n2 n3 n4 n5 int_type h = differ s (bytes "int") n2 h
      no_type s n1 n2 n3 n4 n5 uint_type h = differ s (bytes "uint") n3 h
      no_type s n1 n2 n3 n4 n5 float64_type h = differ s (bytes "float") n4 h
      no_type s n1 n2 n3 n4 n5 bool_type h = differ s (bytes "bool") n5 h
      no_type s n1 n2 n3 n4 n5 (other_type name) h = h

  module _ {Fn : Type 0} where
    -- What stored_value does for a semantic type.
    stored_value-of :
        (v : Entry F O Fn) (t : Text)
        → get_semantic_type v.metadata ≡ t
        → stored_value host v ≡ (
            if t == []
            then v
            else elim (to_semantic host t v.val) [ ok x ↦ record v { val = x } | err e ↦ v ])
    unfolding stored_value
    stored_value-of v t h =
        ap
          (λ u.
            if u == []
            then v
            else elim (to_semantic host u v.val) [ ok x ↦ record v { val = x } | err e ↦ v ])
          h

    -- A value with this string as its semantic type.
    stored_value-typed :
        (v : Entry F O Fn) (t : Text) → HasType v t → IsStored host v (stored_value host v)
    unfolding get_semantic_type get_string
    stored_value-typed v t has =
        let typed : get_semantic_type v.metadata ≡ t =
          rw (has, get_semantic_type, get_string) refl in
        let of = stored_value-of v t typed in
        elim (to_semantic-cases t) [
          | inl (target, semantic, given, to) ↦
              elim (Result-cases (try_convert host.conv v.val target)) [
                | inl (x, done) ↦
                    let e : stored_value host v ≡ record v { val = x } =
                      of ∙ rw (given, to v.val, done) refl in
                    subst (IsStored host v) (sym e) (converted t target has semantic done)
                | inr (x, failed) ↦
                    let e : stored_value host v ≡ v = of ∙ rw (given, to v.val, failed) refl in
                    subst (IsStored host v) (sym e) (refused t target has semantic failed)
              ]
          | inr (no_semantic, to) ↦
              let free : (s : Text) (target : Target) → HasType v s → ¬ IsSemantic s target =
                λ s target has' semantic.
                  let same : t ≡ s = string_inj _ t s has has' in
                  no_semantic target (subst (λ u. IsSemantic u target) (sym same) semantic) in
              let e : stored_value host v ≡ v = of ∙ elim (Bool-cases (t == [])) [
                | inl empty ↦ rw (empty) refl
                | inr given ↦ rw (given, to v.val) refl
              ] in
              subst (IsStored host v) (sym e) (untyped free)
        ]

    pub stored_value-IsStored : (v : Entry F O Fn) → IsStored host v (stored_value host v)
    unfolding get_semantic_type get_string ◌==◌
    stored_value-IsStored v = by_type (lookup (bytes "core.type") v.metadata) refl
      where
        plain :
            get_semantic_type v.metadata ≡ []
            → ((t : Text) → ¬ HasType v t)
            → IsStored host v (stored_value host v)
        plain none' free =
            subst (IsStored host v) (sym (stored_value-of v [] none'))
              (untyped (λ t target has. absurd (free t has)))

        by_type :
            (o : Option (Any F O))
            → lookup (bytes "core.type") v.metadata ≡ o
            → IsStored host v (stored_value host v)
        by_type none e = plain (rw (e, get_semantic_type, get_string) refl) (λ t has. absurd (cc))
        by_type (some (string t)) e = stored_value-typed v t e
        by_type (some (int x)) e =
            plain (rw (e, get_semantic_type, get_string) refl) (λ t has. absurd (cc))
        by_type (some (int8 x)) e =
            plain (rw (e, get_semantic_type, get_string) refl) (λ t has. absurd (cc))
        by_type (some (int16 x)) e =
            plain (rw (e, get_semantic_type, get_string) refl) (λ t has. absurd (cc))
        by_type (some (int32 x)) e =
            plain (rw (e, get_semantic_type, get_string) refl) (λ t has. absurd (cc))
        by_type (some (int64 x)) e =
            plain (rw (e, get_semantic_type, get_string) refl) (λ t has. absurd (cc))
        by_type (some (uint x)) e =
            plain (rw (e, get_semantic_type, get_string) refl) (λ t has. absurd (cc))
        by_type (some (uint8 x)) e =
            plain (rw (e, get_semantic_type, get_string) refl) (λ t has. absurd (cc))
        by_type (some (uint16 x)) e =
            plain (rw (e, get_semantic_type, get_string) refl) (λ t has. absurd (cc))
        by_type (some (uint32 x)) e =
            plain (rw (e, get_semantic_type, get_string) refl) (λ t has. absurd (cc))
        by_type (some (uint64 x)) e =
            plain (rw (e, get_semantic_type, get_string) refl) (λ t has. absurd (cc))
        by_type (some (float32 x)) e =
            plain (rw (e, get_semantic_type, get_string) refl) (λ t has. absurd (cc))
        by_type (some (float64 x)) e =
            plain (rw (e, get_semantic_type, get_string) refl) (λ t has. absurd (cc))
        by_type (some (bool x)) e =
            plain (rw (e, get_semantic_type, get_string) refl) (λ t has. absurd (cc))
        by_type (some (other n x)) e =
            plain (rw (e, get_semantic_type, get_string) refl) (λ t has. absurd (cc))
