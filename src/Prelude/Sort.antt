-- ===== src/Prelude/Sort.antt =====
-- `sort_by_key`: the standard library's stable sort, as an insertion sort.
use Prim.Native.Nat.{ℕ, suc, ◌≤◌}
use mathlib.Core.List.{List, [], ◌∷◌, Perm}
use mathlib.Core.List.Perm
use mathlib.Core.Logic.{inl, inr}
use mathlib.Core.Path.{◌≡◌, refl}
use native.Mathlib.Nat.{le_trans}
use native.Mathlib.Omega.{arith}
use kuasar.Prelude.Lists.{length, All, All-mono}
use kuasar.Prelude.Tests.{leb, leb→le, leb-false, if◌then◌else◌, Bool-cases}

module _ {ℓ} {A : Type ℓ} (key : A → ℕ) where
  unfoldable pub insert : A → List A → List A
  insert a [] = a ∷ []
  insert a (x ∷ xs) = if leb (key a) (key x) then a ∷ x ∷ xs else x ∷ insert a xs

  unfoldable pub sort_by_key : List A → List A
  unfolding insert
  sort_by_key [] = []
  sort_by_key (x ∷ xs) = insert x (sort_by_key xs)

  -- No later entry has a smaller key.
  abbrev pub IsSorted : List A → Type 0
  IsSorted [] = Unit {0}
  IsSorted (x ∷ xs) = All (λ y. key x ≤ key y) xs × IsSorted xs

module _ {ℓ κ} {A : Type ℓ} (key : A → ℕ) (P : A → Type κ) where
  pub All-insert : (a : A) (xs : List A) → P a → All P xs → All P (insert key a xs)
  unfolding insert
  All-insert a [] h hs = (h, tt)
  All-insert a (x ∷ xs) h hs = elim (Bool-cases (leb (key a) (key x))) [
    | inl e ↦ rw (e, insert) (h, hs)
    | inr e ↦ rw (e, insert) (hs.0, All-insert a xs h hs.1)
  ]

  pub All-sort_by_key : (xs : List A) → All P xs → All P (sort_by_key key xs)
  unfolding sort_by_key
  All-sort_by_key [] h = tt
  All-sort_by_key (x ∷ xs) h = All-insert x _ h.0 (All-sort_by_key xs h.1)

module _ {ℓ} {A : Type ℓ} (key : A → ℕ) where
  insert-perm : (a : A) (xs : List A) → Perm (insert key a xs) (a ∷ xs)
  unfolding insert
  insert-perm a [] = Perm.refl _
  insert-perm a (x ∷ xs) = elim (Bool-cases (leb (key a) (key x))) [
    | inl e ↦ rw (e, insert) (Perm.refl _)
    | inr e ↦ rw (e, insert) (Perm.trans (Perm.cons x (insert-perm a xs)) (Perm.swap a x xs))
  ]

  -- The sorted list has the same entries, as often.
  pub sort_by_key-perm : (xs : List A) → Perm (sort_by_key key xs) xs
  unfolding sort_by_key
  sort_by_key-perm [] = Perm.refl _
  sort_by_key-perm (x ∷ xs) =
      Perm.trans (insert-perm x (sort_by_key key xs)) (Perm.cons x (sort_by_key-perm xs))

  length-insert : (a : A) (xs : List A) → length (insert key a xs) ≡ suc (length xs)
  unfolding insert
  length-insert a [] = refl
  length-insert a (x ∷ xs) = ground (arith, length-insert a xs)

  pub length-sort_by_key : (xs : List A) → length (sort_by_key key xs) ≡ length xs
  unfolding sort_by_key
  length-sort_by_key [] = refl
  length-sort_by_key (x ∷ xs) =
      omega (arith, length-insert x (sort_by_key key xs), length-sort_by_key xs)

  insert-IsSorted : (a : A) (xs : List A) → IsSorted key xs → IsSorted key (insert key a xs)
  unfolding insert
  insert-IsSorted a [] h = (tt, tt)
  insert-IsSorted a (x ∷ xs) h = elim (Bool-cases (leb (key a) (key x))) [
    | inl e ↦
        rw (e, insert)
          (
            (
              leb→le _ _ e,
              All-mono (λ y. key x ≤ key y) (λ y. key a ≤ key y) xs
                  (λ y k. le_trans (leb→le _ _ e) k) h.0,
            ),
            h,
          )
    | inr e ↦
        rw (e, insert)
          (
            All-insert key (λ y. key x ≤ key y) a xs (omega (arith, leb-false _ _ e)) h.0,
            insert-IsSorted a xs h.1,
          )
  ]

  pub sort_by_key-IsSorted : (xs : List A) → IsSorted key (sort_by_key key xs)
  unfolding sort_by_key
  sort_by_key-IsSorted [] = tt
  sort_by_key-IsSorted (x ∷ xs) = insert-IsSorted x _ (sort_by_key-IsSorted xs)
