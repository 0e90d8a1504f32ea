-- ===== src/Engine/Merging.antt =====
-- The merge of LoadTree is the one that is described.
use zhi.Common.{
  true, Option, none, some, ◌≡◌, ◌≢◌, inl, inr, refl, ap, ◌==◌, eq_iff, Bool-cases, Option-cases,
  over,
}
use zhi.Numeric.Convert.{
  Any, int, int8, int16, int32, int64, uint, uint8, uint16, uint32, uint64, float32, float64,
  string, bool, other, try_numeric_convert,
}
use zhi.Numeric.TryConvert.{type_of}
use zhi.Engine.State.{Entry, Host, kind_of, stored_value, matching_val}
use zhi.Engine.Steps.{merged}
use zhi.Engine.Taken.{IsKind, IsTaken, same_type, numeric, kept, IsLoaded}
use zhi.Engine.Semantic.{differ, stored_value-IsStored}

module _ {F O : Type 0} (host : Host F O) where
  kind_of-IsKind : (v : Any F O) → IsKind host v (kind_of host v)
  unfolding kind_of
  kind_of-IsKind (int x) = refl
  kind_of-IsKind (int64 x) = refl
  kind_of-IsKind (uint x) = refl
  kind_of-IsKind (float64 x) = refl
  kind_of-IsKind (int8 x) = refl
  kind_of-IsKind (int16 x) = refl
  kind_of-IsKind (int32 x) = refl
  kind_of-IsKind (uint8 x) = refl
  kind_of-IsKind (uint16 x) = refl
  kind_of-IsKind (uint32 x) = refl
  kind_of-IsKind (uint64 x) = refl
  kind_of-IsKind (float32 x) = refl
  kind_of-IsKind (string x) = refl
  kind_of-IsKind (bool x) = refl
  kind_of-IsKind (other name x) = refl

  matching_val-IsTaken :
      (stored current : Any F O)
      → (x : Any F O) × IsTaken host stored current x
        × ((elim (matching_val host stored current) [ none ↦ current | some y ↦ y ]) ≡ x)
  unfolding matching_val
  matching_val-IsTaken stored current = elim (Bool-cases (type_of stored == type_of current)) [
    | inl same ↦ (stored, same_type ((eq_iff _ _).0 same), rw (same, matching_val) refl)
    | inr unlike ↦
        let differ' : type_of stored ≢ type_of current =
          differ (type_of stored) (type_of current) unlike in
        elim (Option-cases (try_numeric_convert host.num stored (kind_of host current))) [
          | inl failed ↦ (
            current,
            kept (kind_of host current) differ' (kind_of-IsKind current) failed,
            rw (unlike, failed, matching_val) refl,
          )
          | inr (x, done) ↦ (
            x,
            numeric (kind_of host current) differ' (kind_of-IsKind current) done,
            rw (unlike, done, matching_val) refl,
          )
        ]
  ]

  pub merged-IsLoaded :
      (Fn : Type 0) (d o : Option (Entry F O Fn))
      → IsLoaded host true d o (merged host d (over (stored_value host) o none))
  merged-IsLoaded Fn none o = refl
  merged-IsLoaded Fn (some v) none = refl
  merged-IsLoaded Fn (some v) (some s) =
      let (x, taken, e) = matching_val-IsTaken (stored_value host s).val v.val in
      (
        stored_value host s,
        x,
        stored_value-IsStored host s,
        taken,
        by_match (matching_val host (stored_value host s).val v.val) v x e,
      )
    where
      by_match :
          (m : Option (Any F O)) (v : Entry F O Fn) (x : Any F O)
          → (elim m [ none ↦ v.val | some y ↦ y ]) ≡ x
          → some (elim m [ none ↦ v | some y ↦ record v { val = y } ]) ≡ some (record v { val = x })
      by_match none v x e = ap (λ y. some (record v { val = y })) e
      by_match (some y) v x e = ap (λ y. some (record v { val = y })) e
