-- ===== src/Prelude/Lists.antt =====
-- Lists measured by native numbers, and what the source calls on iterators, `Vec` and `VecDeque`.
use Prim.Native.Nat.{ℕ, zero, suc, ◌+◌, ◌≤◌, min}
use mathlib.Core.Path.{◌≡◌, refl, ap, subst}
use mathlib.Core.Logic.{inl, inr}
use mathlib.Core.Bool.{Bool, true, false, ◌&&◌}
use mathlib.Core.List.{List, [], ◌∷◌, ◌++◌}
use mathlib.Core.Option.{Option, none, some}
use native.Mathlib.Omega.{arith}
use kuasar.Prelude.Tests.{if◌then◌else◌, Bool-cases}

module _ {ℓ} {A : Type ℓ} where
  abbrev pub length : List A → ℕ
  length [] = 0
  length (x ∷ xs) = suc (length xs)

  pub length-append : (xs ys : List A) → length (xs ++ ys) ≡ length xs + length ys
  length-append [] ys = omega arith
  length-append (x ∷ xs) ys = omega (arith, length-append xs ys)

  abbrev pub take : ℕ → List A → List A
  take zero xs = []
  take (suc n) [] = []
  take (suc n) (x ∷ xs) = x ∷ take n xs

  abbrev pub drop : ℕ → List A → List A
  drop zero xs = xs
  drop (suc n) [] = []
  drop (suc n) (x ∷ xs) = drop n xs

  pub drop-length : (xs ys : List A) → drop (length xs) (xs ++ ys) ≡ ys
  drop-length [] ys = refl
  drop-length (x ∷ xs) ys = drop-length xs ys

  pub length-take : (n : ℕ) (xs : List A) → length (take n xs) ≡ min n (length xs)
  length-take zero xs = omega arith
  length-take (suc n) [] = omega arith
  length-take (suc n) (x ∷ xs) = omega (arith, length-take n xs)

  -- `retain`, and `filter` on an iterator.
  abbrev pub retain : (A → Bool) → List A → List A
  retain p [] = []
  retain p (x ∷ xs) = let rest = retain p xs in if p x then x ∷ rest else rest

  -- `find` on an iterator.
  abbrev pub find : (A → Bool) → List A → Option A
  find p [] = none
  find p (x ∷ xs) = let rest = find p xs in if p x then some x else rest

  -- `VecDeque::front`.
  abbrev pub front : List A → Option A
  front [] = none
  front (x ∷ xs) = some x

  -- `VecDeque::back`, and what `pop_back` leaves.
  abbrev pub back : List A → Option A
  back [] = none
  back (x ∷ []) = some x
  back (x ∷ y ∷ xs) = back (y ∷ xs)

  abbrev pub but_back : List A → List A
  but_back [] = []
  but_back (x ∷ []) = []
  but_back (x ∷ y ∷ xs) = x ∷ but_back (y ∷ xs)

  abbrev pub push_back : List A → A → List A
  push_back xs a = xs ++ a ∷ []

  abbrev pub any : (A → Bool) → List A → Bool
  any p [] = false
  any p (x ∷ xs) = let rest = any p xs in if p x then true else rest

  -- A predicate by recursion, so that tactics read and build it.
  abbrev pub all : (A → Bool) → List A → Bool
  all p [] = true
  all p (x ∷ xs) = p x && all p xs

  abbrev pub All {κ} : (A → Type κ) → List A → Type κ
  All P [] = Unit
  All P (x ∷ xs) = P x × All P xs

module _ {ℓ} {A : Type ℓ} where
  pub push_back-back : (xs : List A) (a : A) → back xs ≡ some a → push_back (but_back xs) a ≡ xs
  push_back-back [] a h = ground arith
  push_back-back (x ∷ []) a h = ground arith
  push_back-back (x ∷ y ∷ xs) a h = ap (◌∷◌ x) (push_back-back (y ∷ xs) a h)

  pub back-push_back : (xs : List A) (a : A) → back (push_back xs a) ≡ some a
  back-push_back [] a = refl
  back-push_back (x ∷ []) a = refl
  back-push_back (x ∷ y ∷ xs) a = back-push_back (y ∷ xs) a

  pub but_back-push_back : (xs : List A) (a : A) → but_back (push_back xs a) ≡ xs
  but_back-push_back [] a = refl
  but_back-push_back (x ∷ []) a = refl
  but_back-push_back (x ∷ y ∷ xs) a = ap (◌∷◌ x) (but_back-push_back (y ∷ xs) a)

  pub length-retain-le : (p : A → Bool) (xs : List A) → length (retain p xs) ≤ length xs
  length-retain-le p [] = omega arith
  length-retain-le p (x ∷ xs) = ground (arith, length-retain-le p xs)

  pub retain-append :
      (p : A → Bool) (xs ys : List A) → retain p (xs ++ ys) ≡ retain p xs ++ retain p ys
  retain-append p [] ys = refl
  retain-append p (x ∷ xs) ys = ground (arith, retain-append p xs ys)

  -- Retaining by `q` first loses nothing that `p` keeps, if `q` keeps whatever `p` keeps.
  pub retain-retain :
      (p q : A → Bool) (xs : List A)
      → ((x : A) → p x ≡ true → q x ≡ true)
      → retain p (retain q xs) ≡ retain p xs
  retain-retain p q [] h = refl
  retain-retain p q (x ∷ xs) h = ground (arith, h x, retain-retain p q xs h)

  -- Retaining everything.
  pub retain-All : (p : A → Bool) (xs : List A) → All (λ x. p x ≡ true) xs → retain p xs ≡ xs
  retain-All p [] h = refl
  retain-All p (x ∷ xs) h = ground (arith, retain-All p xs h.1)

  pub retain_none : (p : A → Bool) (xs : List A) → All (λ x. p x ≡ false) xs → retain p xs ≡ []
  retain_none p [] h = refl
  retain_none p (x ∷ xs) h = ground (arith, retain_none p xs h.1)

  pub All-append {κ} : (P : A → Type κ) (xs ys : List A) → All P xs → All P ys → All P (xs ++ ys)
  All-append P [] ys hx hy = hy
  All-append P (x ∷ xs) ys hx hy = (hx.0, All-append P xs ys hx.1 hy)

  pub All-append_left {κ} : (P : A → Type κ) (xs ys : List A) → All P (xs ++ ys) → All P xs
  All-append_left P [] ys h = tt
  All-append_left P (x ∷ xs) ys h = (h.0, All-append_left P xs ys h.1)

  pub All-append_right {κ} : (P : A → Type κ) (xs ys : List A) → All P (xs ++ ys) → All P ys
  All-append_right P [] ys h = h
  All-append_right P (x ∷ xs) ys h = All-append_right P xs ys h.1

  pub All-retain {κ} :
      (P : A → Type κ) (p : A → Bool) (xs : List A) → All P xs → All P (retain p xs)
  All-retain P p [] h = tt
  All-retain P p (x ∷ xs) h = elim (Bool-cases (p x)) [
    | inl e ↦ rw (e, retain) (h.0, All-retain P p xs h.1)
    | inr e ↦ rw (e, retain) (All-retain P p xs h.1)
  ]

  -- What a filter lets through has passed its test.
  pub All-retain_test : (p : A → Bool) (xs : List A) → All (λ x. p x ≡ true) (retain p xs)
  All-retain_test p [] = tt
  All-retain_test p (x ∷ xs) = elim (Bool-cases (p x)) [
    | inl e ↦ rw (e, retain) (e, All-retain_test p xs)
    | inr e ↦ rw (e, retain) (All-retain_test p xs)
  ]

  pub All-mono {κ} : (P Q : A → Type κ) (xs : List A) → ((x : A) → P x → Q x) → All P xs → All Q xs
  All-mono P Q [] f h = tt
  All-mono P Q (x ∷ xs) f h = (f x h.0, All-mono P Q xs f h.1)

  pub All-intro {κ} : (P : A → Type κ) (xs : List A) → ((x : A) → P x) → All P xs
  All-intro P [] f = tt
  All-intro P (x ∷ xs) f = (f x, All-intro P xs f)

  pub All-take {κ} : (P : A → Type κ) (n : ℕ) (xs : List A) → All P xs → All P (take n xs)
  All-take P zero xs h = tt
  All-take P (suc n) [] h = tt
  All-take P (suc n) (x ∷ xs) h = (h.0, All-take P n xs h.1)

  pub All-but_back {κ} : (P : A → Type κ) (xs : List A) → All P xs → All P (but_back xs)
  All-but_back P [] h = tt
  All-but_back P (x ∷ []) h = tt
  All-but_back P (x ∷ y ∷ xs) h = (h.0, All-but_back P (y ∷ xs) h.1)

  pub All-back {κ} : (P : A → Type κ) (xs : List A) {a : A} → All P xs → back xs ≡ some a → P a
  All-back P [] h e = cc
  All-back P (x ∷ []) h e = subst P (ground arith) h.0
  All-back P (x ∷ y ∷ xs) h e = All-back P (y ∷ xs) h.1 e

  pub All-find {κ} :
      (P : A → Type κ) (p : A → Bool) (xs : List A) {a : A} → All P xs → find p xs ≡ some a → P a
  All-find P p [] h e = cc
  All-find P p (x ∷ xs) h e = elim (Bool-cases (p x)) [
    | inl hit ↦ subst P (ground arith) h.0
    | inr miss ↦ All-find P p xs h.1 (ground arith)
  ]

  pub find-test : (p : A → Bool) (xs : List A) {a : A} → find p xs ≡ some a → p a ≡ true
  find-test p [] e = cc
  find-test p (x ∷ xs) e = elim (Bool-cases (p x)) [
    | inl hit ↦ subst (λ y. p y ≡ true) (ground arith) hit
    | inr miss ↦ find-test p xs (ground arith)
  ]
