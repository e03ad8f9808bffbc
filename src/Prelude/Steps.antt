-- ===== src/Prelude/Steps.antt =====
-- Methods as sequences of steps. Unlike the operators of the actions on a pool, these do not unfold by
-- themselves, so that the laws below apply to a sequence step by step.
use kuasar.Prelude.Exec.{Result, ok, err, Exec, and_then, pure, Keeps, and_then-keeps}
use mathlib.Core.Bool.{Bool, true, false}

infixl 10 ◌>>=◌ ◌>>◌
unfoldable pub ◌>>=◌ {ℓ} : {E S A B : Type ℓ} → Exec E S A → (A → Exec E S B) → Exec E S B
◌>>=◌ m f s = and_then (m s) f

unfoldable pub ◌>>◌ {ℓ} : {E S A B : Type ℓ} → Exec E S A → Exec E S B → Exec E S B
◌>>◌ m n s = and_then (m s) (λ _. n)

-- `if let Err(e) = m { cleanup; return Err(e) }`: what the cleanup answers is only logged.
module _ {ℓ} {E S A : Type ℓ} where
  abbrev settle : Result E A × S → Exec E S (Unit {ℓ}) → Result E A × S
  settle (ok a, s) cleanup = (ok a, s)
  settle (err e, s) cleanup = (err e, (cleanup s).1)

  unfoldable pub on_error : Exec E S A → Exec E S (Unit {ℓ}) → Exec E S A
  on_error m cleanup s = settle (m s) cleanup

-- A call whose failure is only logged.
unfoldable pub ignore {ℓ} : {E S A : Type ℓ} → Exec E S A → Exec E S (Unit {ℓ})
ignore m s = (ok tt, (m s).1)

unfoldable pub when {ℓ} : {E S : Type ℓ} → Bool → Exec E S (Unit {ℓ}) → Exec E S (Unit {ℓ})
when true m = m
when false m = pure tt

-- What holds after a success, with its value, and what holds after a failure.
abbrev pub Ends {ℓ κ} : {E S A : Type ℓ} → (A → S → Type κ) → (S → Type κ) → Result E A × S → Type κ
Ends P Q (ok a, s) = P a s
Ends P Q (err e, s) = Q s

-- Started where `R` holds, the action ends in `P` or fails in `Q`.
pub record Triple {ℓ κ} {E S A : Type ℓ} (R : S → Type κ) (m : Exec E S A) (P : A → S → Type κ)
    (Q : S → Type κ) : Type (ℓ ⊔ κ) where
  pub ends : (s : S) → R s → Ends P Q (m s)

module _ {ℓ κ} {E S A : Type ℓ} where
  keeps-Ends : (R : S → Type κ) (r : Result E A × S) → R r.1 → Ends (λ a. R) R r
  keeps-Ends R (ok a, s) h = h
  keeps-Ends R (err e, s) h = h

  pub Keeps-Triple : (R : S → Type κ) (m : Exec E S A) → Keeps R m → Triple R m (λ a. R) R
  Keeps-Triple R m k = record { ends = λ s h. keeps-Ends R (m s) (k.from s h) }

  settle-keeps :
      (P : S → Type κ) (r : Result E A × S) (c : Exec E S (Unit {ℓ}))
      → P r.1
      → Keeps P c
      → P (settle r c).1
  settle-keeps P (ok a, s) c h k = h
  settle-keeps P (err e, s) c h k = k.from s h

  pub on_error-Keeps :
      (P : S → Type κ) (m : Exec E S A) (c : Exec E S (Unit {ℓ}))
      → Keeps P m
      → Keeps P c
      → Keeps P (on_error m c)
  unfolding on_error
  on_error-Keeps P m c km kc = record { from = λ s h. settle-keeps P (m s) c (km.from s h) kc }

  settle-Ends :
      (P : A → S → Type κ) (Q Q' : S → Type κ) (r : Result E A × S) (c : Exec E S (Unit {ℓ}))
      → Ends P Q r
      → ((s : S) → Q s → Q' (c s).1)
      → Ends P Q' (settle r c)
  settle-Ends P Q Q' (ok a, s) c h k = h
  settle-Ends P Q Q' (err e, s) c h k = k s h

  pub on_error-Triple :
      {R : S → Type κ} {P : A → S → Type κ} {Q Q' : S → Type κ} (m : Exec E S A)
      (c : Exec E S (Unit {ℓ}))
      → Triple R m P Q
      → ((s : S) → Q s → Q' (c s).1)
      → Triple R (on_error m c) P Q'
  unfolding on_error
  on_error-Triple {R} {P} {Q} {Q'} m c t k = record {
    ends = λ s h. settle-Ends P Q Q' (m s) c (t.ends s h) k;
  }

  weaken-Ends :
      (P P' : A → S → Type κ) (Q Q' : S → Type κ) (r : Result E A × S)
      → Ends P Q r
      → ((a : A) (s : S) → P a s → P' a s)
      → ((s : S) → Q s → Q' s)
      → Ends P' Q' r
  weaken-Ends P P' Q Q' (ok a, s) h p q = p a s h
  weaken-Ends P P' Q Q' (err e, s) h p q = q s h

  pub Triple-weaken :
      {R : S → Type κ} {P P' : A → S → Type κ} {Q Q' : S → Type κ} (m : Exec E S A)
      → Triple R m P Q
      → ((a : A) (s : S) → P a s → P' a s)
      → ((s : S) → Q s → Q' s)
      → Triple R m P' Q'
  Triple-weaken {R} {P} {P'} {Q} {Q'} m t p q = record {
    ends = λ s h. weaken-Ends P P' Q Q' (m s) (t.ends s h) p q;
  }

module _ {ℓ κ} {E S A B : Type ℓ} where
  and_then-Ends :
      (P : A → S → Type κ) (P' : B → S → Type κ) (Q : S → Type κ) (r : Result E A × S)
      (f : A → Exec E S B)
      → Ends P Q r
      → ((a : A) → Triple (P a) (f a) P' Q)
      → Ends P' Q (and_then r f)
  and_then-Ends P P' Q (ok a, s) f h k = (k a).ends s h
  and_then-Ends P P' Q (err e, s) f h k = h

  pub bind-Triple :
      {R : S → Type κ} {P : A → S → Type κ} {P' : B → S → Type κ} {Q : S → Type κ} (m : Exec E S A)
      (f : A → Exec E S B)
      → Triple R m P Q
      → ((a : A) → Triple (P a) (f a) P' Q)
      → Triple R (m >>= f) P' Q
  unfolding ◌>>=◌
  bind-Triple {R} {P} {P'} {Q} m f t k = record {
    ends = λ s h. and_then-Ends P P' Q (m s) f (t.ends s h) k;
  }

module _ {ℓ κ} {E S : Type ℓ} (P : S → Type κ) where
  pub when-Keeps : (b : Bool) (m : Exec E S (Unit {ℓ})) → Keeps P m → Keeps P (when b m)
  unfolding when
  when-Keeps true m k = k
  when-Keeps false m k = record { from = λ s h. h }

  pub ignore-Keeps : {A : Type ℓ} (m : Exec E S A) → Keeps P m → Keeps P (ignore m)
  unfolding ignore
  ignore-Keeps m k = record { from = λ s h. k.from s h }

module _ {ℓ κ} {E S A B : Type ℓ} (P : S → Type κ) where
  pub bind-Keeps :
      (m : Exec E S A) (f : A → Exec E S B)
      → Keeps P m
      → ((a : A) → Keeps P (f a))
      → Keeps P (m >>= f)
  unfolding ◌>>=◌
  bind-Keeps m f km kf = record { from = λ s h. and_then-keeps (m s) f (km.from s h) kf }

  pub then-Keeps : (m : Exec E S A) (n : Exec E S B) → Keeps P m → Keeps P n → Keeps P (m >> n)
  unfolding ◌>>◌
  then-Keeps m n km kn = record { from = λ s h. and_then-keeps (m s) _ (km.from s h) λ _. kn }

module _ {ℓ κ} {E S A B : Type ℓ} where
  pub then-Triple :
      {R : S → Type κ} {P : S → Type κ} {P' : B → S → Type κ} {Q : S → Type κ} (m : Exec E S A)
      (n : Exec E S B)
      → Triple R m (λ a. P) Q
      → Triple P n P' Q
      → Triple R (m >> n) P' Q
  unfolding ◌>>◌
  then-Triple {R} {P} {P'} {Q} m n t k = record {
    ends = λ s h. and_then-Ends (λ a. P) P' Q (m s) _ (t.ends s h) λ a. k;
  }

module _ {ℓ κ} {E S A : Type ℓ} where
  ended : (P : S → Type κ) (r : Result E A × S) → Ends (λ a. P) P r → P r.1
  ended P (ok a, s) h = h
  ended P (err e, s) h = h

  -- An action that ends in the same way whether it fails or not.
  pub always :
      {R P : S → Type κ} (m : Exec E S A) → Triple R m (λ a. P) P → (s : S) → R s → P (m s).1
  always {R} {P} m t s h = ended P (m s) (t.ends s h)
