-- ===== src/Prelude/Map.antt =====
-- `HashMap` with text keys, as a list of entries. The order of a hash map's entries is not
-- specified: here it is the order of the list, which is arbitrary in every theorem.
use Prim.Native.String.{String}
use mathlib.Core.Bool.{Bool}
use mathlib.Core.Logic.{inl, inr}
use mathlib.Core.List.{List, [], ◌∷◌, ◌++◌}
use mathlib.Core.Option.{Option, none, some}
use mathlib.Core.Path.{◌≡◌, refl, subst}
use native.Mathlib.Omega.{arith}
use kuasar.Prelude.Lists.{All}
use kuasar.Prelude.Tests.{◌==◌, ==_iff, ==_refl, if◌then◌else◌, is_some, Bool-cases}

abbrev pub Map {ℓ} : Type ℓ → Type ℓ
Map V = List (String × V)

module _ {ℓ} {V : Type ℓ} where
  unfoldable pub get : String → Map V → Option V
  get k [] = none
  get k ((j, v) ∷ m) = let rest = get k m in if j == k then some v else rest

  -- `insert`: an entry of the key is replaced where it stands.
  unfoldable pub put : String → V → Map V → Map V
  put k v [] = (k, v) ∷ []
  put k v ((j, w) ∷ m) = let rest = put k v m in if j == k then (j, v) ∷ m else (j, w) ∷ rest

  -- `remove`.
  unfoldable pub delete : String → Map V → Map V
  delete k [] = []
  delete k ((j, v) ∷ m) = let rest = delete k m in if j == k then rest else (j, v) ∷ rest

  unfoldable pub contains_key : String → Map V → Bool
  contains_key k m = is_some (get k m)

  abbrev pub values : Map V → List V
  values [] = []
  values ((k, v) ∷ m) = v ∷ values m

  abbrev pub keys : Map V → List String
  keys [] = []
  keys ((k, v) ∷ m) = k ∷ keys m

  -- `values_mut().for_each(f)`.
  abbrev pub map_values : (V → V) → Map V → Map V
  map_values f [] = []
  map_values f ((k, v) ∷ m) = (k, f v) ∷ map_values f m

  pub get-put :
      (k j : String) (v : V) (m : Map V) → get j (put k v m) ≡ (if k == j then some v else get j m)
  unfolding get put
  get-put k j v [] = refl
  get-put k j v ((i, w) ∷ m) = ground (arith, ==_iff k j, ==_iff i k, ==_iff i j, get-put k j v m)

  pub get-delete :
      (k j : String) (m : Map V) → get j (delete k m) ≡ (if k == j then none else get j m)
  unfolding get delete
  get-delete k j [] = ground arith
  get-delete k j ((i, w) ∷ m) = ground (arith, ==_iff k j, ==_iff i k, ==_iff i j, get-delete k j m)

  pub delete-put : (k : String) (v : V) (m : Map V) → delete k (put k v m) ≡ delete k m
  unfolding put delete
  delete-put k v [] = ground (arith, ==_refl k)
  delete-put k v ((j, w) ∷ m) = ground (arith, delete-put k v m)

  pub get-put_self : (k : String) (v : V) (m : Map V) → get k (put k v m) ≡ some v
  get-put_self k v m = ground (arith, get-put k k v m, ==_refl k)

  pub All-put {κ} :
      (P : String × V → Type κ) (k : String) (v : V) (m : Map V)
      → P (k, v)
      → All P m
      → All P (put k v m)
  unfolding put
  All-put P k v [] h hs = (h, tt)
  All-put P k v ((j, w) ∷ m) h hs = elim (Bool-cases (j == k)) [
    | inl e ↦ rw (e, put) (rw ((==_iff j k).0 e) h, hs.1)
    | inr e ↦ rw (e, put) (hs.0, All-put P k v m h hs.1)
  ]

  pub All-delete {κ} :
      (P : String × V → Type κ) (k : String) (m : Map V) → All P m → All P (delete k m)
  unfolding delete
  All-delete P k [] h = tt
  All-delete P k ((j, w) ∷ m) h = elim (Bool-cases (j == k)) [
    | inl e ↦ rw (e, delete) (All-delete P k m h.1)
    | inr e ↦ rw (e, delete) (h.0, All-delete P k m h.1)
  ]

  pub All-get {κ} :
      (P : String × V → Type κ) (k : String) {v : V} (m : Map V)
      → All P m
      → get k m ≡ some v
      → P (k, v)
  unfolding get
  All-get P k [] h e = cc
  All-get P k {v} ((j, w) ∷ m) h e = elim (Bool-cases (j == k)) [
    | inl hit ↦ subst P (ground (arith, ==_iff j k)) h.0
    | inr miss ↦ All-get P k m h.1 (ground arith)
  ]

  pub All-map_values {κ} :
      (P : String × V → Type κ) (f : V → V) (m : Map V)
      → ((k : String) (v : V) → P (k, v) → P (k, f v))
      → All P m
      → All P (map_values f m)
  All-map_values P f [] g h = tt
  All-map_values P f ((k, v) ∷ m) g h = (g k v h.0, All-map_values P f m g h.1)

-- `values().flat_map(|q| q.iter())`.
abbrev pub flat_values {ℓ} : {A : Type ℓ} → Map (List A) → List A
flat_values [] = []
flat_values ((k, q) ∷ m) = q ++ flat_values m

pub ruleset map_laws = (get-put, get-delete)
