-- ===== src/Sandboxer/Pins/Counts.antt =====
-- What the steps of a request of vmm/sandbox/src/sandbox.rs do to the references that the pool counts.
use kuasar.Prelude.{ℕ, ◌+◌, String, true, Option, some, refl, arith, ==_iff}
use kuasar.Prelude.Exec.{Result, ok, err}
use kuasar.Prelude.Steps.{Triple, Ends}
use kuasar.Sandbox.State.{Action, KuasarSandbox, SandboxError}
use kuasar.Sandboxer.Pins.{PoolCounts, pin_of_id}
use kuasar.Sandboxer.State.{Locked, on_sandbox}
use kuasar.Template.Disk.{Io}
use kuasar.Template.Pool.Counting.{count-decrement, count-increment, in_use_count-deref}
use kuasar.Template.Pool.Refs.{deref, ref_template}
use kuasar.Template.Pool.State.{TemplatePool}
use kuasar.Template.Pool.Validity.{increment-IsPositive}
use kuasar.Template.Pool.Validity.Evict.{deref-IsValid}

abbrev pub ShareLock :
    {W : Type 0} → (KuasarSandbox W → Type 0) → (Option TemplatePool → Type 0) → Locked W → Type 0
ShareLock P C l = P l.sandbox × C l.pool

module _ {W A : Type 0} (C : Option TemplatePool → Type 0) where
  -- An action on the sandbox does not touch the pool.
  pub on_sandbox-Triple :
      {R : KuasarSandbox W → Type 0} {P : A → KuasarSandbox W → Type 0}
      {Q : KuasarSandbox W → Type 0} (m : Action W A)
      → Triple R m P Q
      → Triple (ShareLock R C) (on_sandbox m) (λ a. ShareLock (P a) C) (ShareLock Q C)
  unfolding on_sandbox
  on_sandbox-Triple {R} {P} {Q} m t = record {
    ends = λ l h. lifted (m l.sandbox) (t.ends l.sandbox h.0) h.1;
  }
    where
      lifted :
          (r : Result SandboxError A × KuasarSandbox W) {pool : Option TemplatePool}
          → Ends P Q r
          → C pool
          → Ends
              (λ a. ShareLock (P a) C)
              (ShareLock Q C)
              (r.0, record { sandbox = r.1; pool = pool })
      lifted (ok a, s) h c = (h, c)
      lifted (err e, s) h c = (h, c)

-- The effects of `ref_template` and `deref` on what a pool counts.
module _ (x : String) (n : ℕ) where
  pub PoolCounts-ref_template :
      (tid : String) (p : TemplatePool)
      → PoolCounts x n (some p)
      → PoolCounts x (n + pin_of_id (some tid) true x) (some (ref_template tid p))
  unfolding ref_template
  PoolCounts-ref_template tid p (v, c) = (
    record {
      filed = v.filed;
      refills = v.refills;
      restores = v.restores;
      references = increment-IsPositive tid p.in_use_count v.references;
    },
    ground (arith, count-increment tid x p.in_use_count, ==_iff tid x),
  )

  pub PoolCounts-deref :
      (io : Io) (tid : String) (p : TemplatePool)
      → PoolCounts x (n + pin_of_id (some tid) true x) (some p)
      → PoolCounts x n (some (deref io tid p).1)
  PoolCounts-deref io tid p (v, c) = (
    (deref-IsValid io tid).from p v,
    rw (in_use_count-deref io tid p)
        (ground (arith, c, count-decrement tid x p.in_use_count _ refl, ==_iff tid x)),
  )
