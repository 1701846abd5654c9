-- ===== src/Common/Assoc.antt =====
-- `BTreeMap` and `HashMap` as association lists, by the operations that the source uses.
use mathlib.Core.Path.{◌≡◌, refl}
use mathlib.Core.Bool.{Bool, false, ◌||◌}
use mathlib.Core.Option.{Option, none, some}
use mathlib.Core.List.{List, [], ◌∷◌}
use native.Mathlib.Omega.{arith}
use idk.Common.Tests.{if◌then◌else◌}
use idk.Common.Equality.{Eq}

module _ {K V : Type 0} ⦃e : Eq K⦄ where
  unfoldable pub lookup : K → List (K × V) → Option V
  lookup k [] = none
  lookup k ((j, v) ∷ m) = if e.eqb j k then some v else lookup k m

  unfoldable pub contains_key : K → List (K × V) → Bool
  contains_key k [] = false
  contains_key k ((j, v) ∷ m) = e.eqb j k || contains_key k m

  unfoldable pub insert : K → V → List (K × V) → List (K × V)
  insert k v [] = (k, v) ∷ []
  insert k v ((j, w) ∷ m) = if e.eqb j k then (k, v) ∷ m else (j, w) ∷ insert k v m

  unfoldable pub remove : K → List (K × V) → List (K × V)
  remove k [] = []
  remove k ((j, v) ∷ m) = if e.eqb j k then remove k m else (j, v) ∷ remove k m

  pub contains_key-insert :
      (k j : K) (v : V) (m : List (K × V))
      → contains_key j (insert k v m) ≡ (e.eqb k j || contains_key j m)
  unfolding contains_key insert
  contains_key-insert k j v [] = refl
  contains_key-insert k j v ((i, w) ∷ m) =
      ground (arith, e.eqb_iff i k, e.eqb_iff k j, e.eqb_iff i j, contains_key-insert k j v m)

  pub contains_key-remove_ne :
      (k j : K) (m : List (K × V))
      → e.eqb k j ≡ false
      → contains_key j (remove k m) ≡ contains_key j m
  unfolding contains_key remove
  contains_key-remove_ne k j [] h = refl
  contains_key-remove_ne k j ((i, w) ∷ m) h =
      ground (arith, e.eqb_iff i k, e.eqb_iff k j, e.eqb_iff i j, contains_key-remove_ne k j m h)

  pub remove-insert_fresh :
      (k : K) (v : V) (m : List (K × V)) → contains_key k m ≡ false → remove k (insert k v m) ≡ m
  unfolding contains_key remove insert
  remove-insert_fresh k v [] h = ground (arith, e.eqb_iff k k)
  remove-insert_fresh k v ((i, w) ∷ m) h = ground (arith, e.eqb_iff i k, remove-insert_fresh k v m)

  pub lookup-insert :
      (k j : K) (v : V) (m : List (K × V))
      → lookup j (insert k v m) ≡ (if e.eqb k j then some v else lookup j m)
  unfolding lookup insert
  lookup-insert k j v [] = refl
  lookup-insert k j v ((i, w) ∷ m) =
      ground (arith, e.eqb_iff i k, e.eqb_iff k j, e.eqb_iff i j, lookup-insert k j v m)

  pub lookup-insert_same : (k : K) (v : V) (m : List (K × V)) → lookup k (insert k v m) ≡ some v
  lookup-insert_same k v m = rw (lookup-insert k k v m, (e.eqb_iff k k).1 refl) refl
