-- ===== src/Prelude/Assoc.antt =====
-- Maps with byte-string keys: std::flat_map as an association list that is kept in key order.
use mathlib.Core.Path.{◌≡◌, refl}
use mathlib.Core.Option.{Option, none, some}
use mathlib.Core.List.{List, [], ◌∷◌}
use native.Mathlib.Omega.{arith}
use cinder.Prelude.Tests.{if◌then◌else◌}
use cinder.Prelude.Lists.{Bytes, same_bytes, bytes_lt, same_bytes_iff}

abbrev pub Map {ℓ} : Type ℓ → Type ℓ
Map V = List (Bytes × V)

module _ {ℓ} {V : Type ℓ} where
  unfoldable pub find : Map V → Bytes → Option V
  find [] k = none
  find ((j, v) ∷ m) k = if same_bytes j k then some v else find m k

  -- m.insert_or_assign(k, v)
  unfoldable pub insert_or_assign : Map V → Bytes → V → Map V
  insert_or_assign [] k v = (k, v) ∷ []
  insert_or_assign ((j, w) ∷ m) k v =
      if same_bytes j k
      then (k, v) ∷ m
      else if bytes_lt k j
      then (k, v) ∷ (j, w) ∷ m
      else (j, w) ∷ insert_or_assign m k v

  pub find-insert_or_assign :
      (m : Map V) (k j : Bytes) (v : V)
      → find (insert_or_assign m k v) j ≡ (if same_bytes k j then some v else find m j)
  unfolding find insert_or_assign
  find-insert_or_assign [] k j v = refl
  find-insert_or_assign ((i, w) ∷ m) k j v = ground (
    arith,
    same_bytes_iff k j,
    same_bytes_iff i k,
    same_bytes_iff i j,
    find-insert_or_assign m k j v,
  )
