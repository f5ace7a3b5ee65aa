-- ===== src/Base/Maps.antt =====
-- `HashMap<String, V>` as an association list.
use mathlib.Core.List.{List, [], ◌∷◌}
use mathlib.Core.Logic.{inl, inr}
use mathlib.Core.Option.{Option, none, some}
use mathlib.Core.Path.{◌≡◌, refl}
use native.Mathlib.Omega.{arith}
use dnsd_rs.Base.Strings.{Bytes, bytes_eq, bytes_eq-differs, bytes_eq→eq}
use dnsd_rs.Base.Tests.{Bool-cases, if◌then◌else◌}

module _ {ℓ} {V : Type ℓ} where
  -- `HashMap::get`
  unfoldable pub map_get : Bytes → List (Bytes × V) → Option V
  map_get k [] = none
  map_get k (x ∷ xs) = if bytes_eq x.0 k then some x.1 else map_get k xs

  -- `HashMap::insert`
  unfoldable pub map_insert : Bytes → V → List (Bytes × V) → List (Bytes × V)
  map_insert k v [] = (k, v) ∷ []
  map_insert k v (x ∷ xs) = if bytes_eq x.0 k then (k, v) ∷ xs else x ∷ map_insert k v xs

  pub map_get-insert :
      (j k : Bytes) (v : V) (m : List (Bytes × V))
      → map_get j (map_insert k v m) ≡ (if bytes_eq k j then some v else map_get j m)
  unfolding map_get map_insert
  map_get-insert j k v [] = refl
  map_get-insert j k v (x ∷ xs) = elim (Bool-cases (bytes_eq x.0 k)) [
    | inl same ↦ rw (same, bytes_eq→eq x.0 k same) (ground arith)
    | inr other ↦ rw other (elim (Bool-cases (bytes_eq x.0 j)) [
      | inl here ↦ rw (here, bytes_eq-differs x.0 k j other here) refl
      | inr not_here ↦ rw not_here (map_get-insert j k v xs)
    ])
  ]
