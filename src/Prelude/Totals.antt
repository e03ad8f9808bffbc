-- ===== src/Prelude/Totals.antt =====
-- The sum of a number over the entries of a map, and maps in which no key stands twice, as those of
-- the program.
use kuasar.Prelude.Map
use kuasar.Prelude.Map.{Map, get-put, get-delete}
use kuasar.Prelude.Tests.{==_iff}
use mathlib.Core.Bool.{false}
use mathlib.Core.List.{[], ◌∷◌}
use mathlib.Core.Option.{some}
use mathlib.Core.Path.{◌≡◌, refl}
use native.Mathlib.Omega.{arith}
use Prim.Native.Nat.{ℕ, ◌+◌}
use Prim.Native.String.{String}

abbrev pub IsUnique {ℓ} : {V : Type ℓ} → Map V → Type 0
IsUnique [] = Unit {0}
IsUnique ((k, v) ∷ m) = (Map.contains_key k m ≡ false) × IsUnique m

module _ {ℓ} {V : Type ℓ} where
  pub IsUnique-put : (k : String) (v : V) (m : Map V) → IsUnique m → IsUnique (Map.put k v m)
  unfolding Map.put Map.contains_key Map.get
  IsUnique-put k v [] u = (refl, tt)
  IsUnique-put k v ((j, w) ∷ m) u =
      ground (arith, IsUnique-put k v m u.1, get-put k j v m, ==_iff k j, ==_iff j k)

  pub IsUnique-delete : (k : String) (m : Map V) → IsUnique m → IsUnique (Map.delete k m)
  unfolding Map.delete Map.contains_key Map.get
  IsUnique-delete k [] u = tt
  IsUnique-delete k ((j, w) ∷ m) u = ground (arith, IsUnique-delete k m u.1, get-delete k j m)

module _ {ℓ} {V : Type ℓ} (f : V → ℕ) where
  abbrev pub total : Map V → ℕ
  total [] = 0
  total ((k, v) ∷ m) = f v + total m

  pub total-put :
      (k : String) (v v' : V) (m : Map V)
      → Map.get k m ≡ some v
      → total (Map.put k v' m) + f v ≡ total m + f v'
  unfolding Map.get Map.put
  total-put k v v' [] e = cc
  total-put k v v' ((j, w) ∷ m) e = ground (arith, total-put k v v' m)

  pub total-put_new :
      (k : String) (v : V) (m : Map V)
      → Map.contains_key k m ≡ false
      → total (Map.put k v m) ≡ total m + f v
  unfolding Map.get Map.put Map.contains_key
  total-put_new k v [] e = omega arith
  total-put_new k v ((j, w) ∷ m) e = ground (arith, total-put_new k v m)

  pub total-delete_absent :
      (k : String) (m : Map V) → Map.contains_key k m ≡ false → total (Map.delete k m) ≡ total m
  unfolding Map.get Map.delete Map.contains_key
  total-delete_absent k [] e = refl
  total-delete_absent k ((j, w) ∷ m) e = ground (arith, total-delete_absent k m)

  pub total-delete :
      (k : String) (v : V) (m : Map V)
      → IsUnique m
      → Map.get k m ≡ some v
      → total (Map.delete k m) + f v ≡ total m
  unfolding Map.get Map.delete Map.contains_key
  total-delete k v [] u e = cc
  total-delete k v ((j, w) ∷ m) u e =
      ground (arith, total-delete k v m u.1, total-delete_absent k m, ==_iff j k, u.0)
