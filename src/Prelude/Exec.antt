-- ===== src/Prelude/Exec.antt =====
-- A method that changes an object and may fail or panic. What was written before the failure
-- stays written, so the state comes back beside the error.

use kuasar.Prelude.Tests.{if◌then◌else◌}
use mathlib.Core.Logic.{◌⊎◌, inl, inr}
use mathlib.Core.Bool.{Bool, true, false}
use mathlib.Core.Path.{◌≡◌, refl}

pub data Result {ℓ} (E A : Type ℓ) : Type ℓ where
  ok : A → Result E A
  err : E → Result E A

abbrev pub Exec {ℓ} : Type ℓ → Type ℓ → Type ℓ → Type ℓ
Exec E S A = S → Result E A × S

module _ {ℓ} {E S A : Type ℓ} where
  abbrev pub pure : A → Exec E S A
  pure a s = (ok a, s)

  abbrev pub fail : E → Exec E S A
  fail e s = (err e, s)

  abbrev pub of_result : Result E A → Exec E S A
  of_result r s = (r, s)

module _ {ℓ} {E S : Type ℓ} where
  abbrev pub gets : {A : Type ℓ} → (S → A) → Exec E S A
  gets f s = (ok (f s), s)

  abbrev pub modify : (S → S) → Exec E S (Unit {ℓ})
  modify f s = (ok tt, f s)

module _ {ℓ} {E S A B : Type ℓ} where
  abbrev pub and_then : Result E A × S → (A → Exec E S B) → Result E B × S
  and_then (ok a, s) f = f a s
  and_then (err e, s) f = (err e, s)

  infixl 10 ◌>>=◌ ◌>>◌
  abbrev pub ◌>>=◌ : Exec E S A → (A → Exec E S B) → Exec E S B
  ◌>>=◌ m f s = and_then (m s) f

  abbrev pub ◌>>◌ : Exec E S A → Exec E S B → Exec E S B
  ◌>>◌ m n s = and_then (m s) (λ _. n)

-- The action keeps `P`, whether it succeeds or fails.
pub record Keeps {ℓ κ} {E S A : Type ℓ} (P : S → Type κ) (m : Exec E S A) : Type (ℓ ⊔ κ) where
  pub from : (s : S) → P s → P (m s).1

module _ {ℓ κ} {E S A B : Type ℓ} {P : S → Type κ} where
  pub and_then-keeps :
      (r : Result E A × S) (f : A → Exec E S B)
      → P r.1
      → ((a : A) → Keeps P (f a))
      → P (and_then r f).1
  and_then-keeps (ok a, s) f h k = (k a).from s h
  and_then-keeps (err e, s) f h k = h

  pub bind-Keeps :
      (m : Exec E S A) (f : A → Exec E S B)
      → Keeps P m
      → ((a : A) → Keeps P (f a))
      → Keeps P (m >>= f)
  bind-Keeps m f km kf = record { from = λ s h. and_then-keeps (m s) f (km.from s h) kf }

module _ {ℓ κ} {E S A : Type ℓ} (P : S → Type κ) where
  pub pure-Keeps : (a : A) → Keeps {E = E} P (pure a)
  pure-Keeps a = record { from = λ s h. h }

  pub fail-Keeps : (e : E) → Keeps {A = A} P (fail e)
  fail-Keeps e = record { from = λ s h. h }

  -- A branch is looked at under the outcome of its test.
  pub if-keeps :
      (b : Bool) (x y : Result E A × S)
      → (b ≡ true → P x.1)
      → (b ≡ false → P y.1)
      → P (if b then x else y).1
  if-keeps true x y h k = h refl
  if-keeps false x y h k = k refl

pub Result-cases :
    {E A : Type 0} (r : Result E A) → ((a : A) × (r ≡ ok a)) ⊎ ((e : E) × (r ≡ err e))
Result-cases (ok a) = inl (a, refl)
Result-cases (err e) = inr (e, refl)
