-- ===== src/Sandboxer/Pins/Starting.antt =====
-- `start_from_snapshot` of `KuasarSandboxer` (vmm/sandbox/src/sandbox.rs) and the references that the
-- pool counts.
use kuasar.Prelude.{
  ℕ, ◌+◌, String, Bool, true, false, Option, some, refl, arith, subst, Option-cases, inl, inr,
}
use kuasar.Prelude.Exec.{Keeps}
use kuasar.Prelude.Steps.{
  bind-Triple, then-Triple, Triple, Keeps-Triple, on_error-Triple, Triple-weaken, ◌>>◌, when,
  always, Ends,
}
use kuasar.Sandbox.Lifecycle.{clear_template_restore_state}
use kuasar.Sandbox.State.{Action}
use kuasar.Sandbox.Tags.{
  Tagged, add_to_cgroup-Tagged, destroy_network-Tagged, dump-Tagged, stop-Tagged,
}
use kuasar.Sandboxer.Pins.{PoolCounts, env_pins, pin_of_id}
use kuasar.Sandboxer.Pins.Counts.{
  PoolCounts-deref, PoolCounts-ref_template, ShareLock, on_sandbox-Triple,
}
use kuasar.Sandboxer.Pins.Restoring.{
  HooksKeepTags, KeepsNone, Tagged-KeepsNone, restore_sandbox-target, target,
}
use kuasar.Sandboxer.Restore.{
  env_non_copy, or_rollback_post_restore, pin, rollback_post_restore, start_from_snapshot, unpin,
}
use kuasar.Sandboxer.State.{Locked, Setting, SnapshotRestoreParams, on_sandbox, on_pool}
use kuasar.Template.Pool.Panics.{is_ok-deref}
use kuasar.Template.Pool.State.{TemplatePool}

module _ {W : Type 0} (setting : Setting W) (params : SnapshotRestoreParams) (x : String)
    (n : ℕ) where
  -- What the pool counts after the pin was taken, or was not.
  abbrev Pinned : Bool → Option TemplatePool → Type 0
  Pinned true pool =
      PoolCounts x (n + pin_of_id params.template_id true x) pool
      × PoolCounts x (n + env_pins (target setting params) x) pool
  Pinned false pool =
      PoolCounts x n pool × PoolCounts x (n + env_pins (target setting params) x) pool

  abbrev Restored : Bool → Locked W → Type 0
  Restored b = ShareLock (Tagged (target setting params)) (Pinned b)

  pin-Restored :
      Triple
        (ShareLock (Tagged (target setting params)) (PoolCounts x n))
        (pin setting params)
        Restored
        (ShareLock (KeepsNone) (PoolCounts x n))
  unfolding pin on_pool env_non_copy ◌>>◌
  pin-Restored = record {
    ends = λ l h. elim (Option-cases params.template_id) [
      | inl e ↦ ground arith
      | inr (tid, e) ↦ elim (Option-cases l.pool) [
        | inl e' ↦ ground arith
        | inr (p, e') ↦
            ground (arith, PoolCounts-ref_template x n tid p (subst (PoolCounts x n) e' h.1))
      ]
    ];
  }

  unpin-Restored :
      (b : Bool)
      → Triple
          (Restored b)
          (when b (unpin setting params))
          (λ a. ShareLock (Tagged (target setting params)) (PoolCounts x n))
          (ShareLock (KeepsNone) (PoolCounts x n))
  unfolding unpin on_pool when
  unpin-Restored false = record { ends = λ l h. (h.0, h.1.0) }
  unpin-Restored true = record {
    ends = λ l h. elim (Option-cases params.template_id) [
      | inl e ↦ ground arith
      | inr (tid, e) ↦ elim (Option-cases l.pool) [
        | inl e' ↦ ground arith
        | inr (p, e') ↦
            let c =
              subst (PoolCounts x (n + pin_of_id (some tid) true x)) e' (ground (arith, h.1.0)) in
            ground
              (arith, PoolCounts-deref x n setting.io tid p c, is_ok-deref setting.io tid p c.0)
      ]
    ];
  }

  rolled_back :
      (b : Bool) (l : Locked W)
      → Restored b l
      → ShareLock (KeepsNone) (PoolCounts x n) (rollback_post_restore setting params b l).1
  unfolding rollback_post_restore clear_template_restore_state
  rolled_back b = always _ (
      then-Triple _ _ (unpin-Restored b) (
        then-Triple _ _ (on_sandbox-Triple _ _ (record { ends = λ s h. refl })) (
          then-Triple _ _
            (on_sandbox-Triple _ _
              (Keeps-Triple _ _ (Tagged-KeepsNone _ λ t. stop-Tagged setting.host t true)))
            (on_sandbox-Triple _ _
              (Keeps-Triple _ _ (Tagged-KeepsNone _ (destroy_network-Tagged setting.host)))))))

  step-Restored :
      (b : Bool) (m : Action W (Unit {0}))
      → Keeps (Tagged (target setting params)) m
      → Triple
          (Restored b)
          (or_rollback_post_restore setting params b m)
          (λ a. Restored b)
          (ShareLock (KeepsNone) (PoolCounts x n))
  step-Restored b m k =
      on_error-Triple _ _ (on_sandbox-Triple _ _ (Keeps-Triple _ _ k)) (rolled_back b)

  start_from_snapshot-Triple :
      HooksKeepTags setting.hooks
      → Triple
          (ShareLock (KeepsNone) (PoolCounts x n))
          (start_from_snapshot setting params)
          (λ a.
            ShareLock
              (Tagged (target setting params))
              (PoolCounts x (n + env_pins (target setting params) x)))
          (ShareLock (KeepsNone) (PoolCounts x n))
  unfolding start_from_snapshot on_sandbox
  start_from_snapshot-Triple law =
      then-Triple _ _ (on_sandbox-Triple _ _ (restore_sandbox-target setting params law)) (
        bind-Triple _ _ pin-Restored λ b.
          then-Triple _ _ (record { ends = λ l h. h })
            (then-Triple _ _ (step-Restored b _ (add_to_cgroup-Tagged setting.host _)) (
              then-Triple _ _ (step-Restored b _ (law.post_start _)) (
                Triple-weaken _ (step-Restored b _ (dump-Tagged setting.host _)) (λ a. counted b)
                  (λ s h. h)))))
    where
      counted :
          (b : Bool) (l : Locked W)
          → Restored b l
          → ShareLock
              (Tagged (target setting params))
              (PoolCounts x (n + env_pins (target setting params) x))
              l
      counted true l h = (h.0, h.1.1)
      counted false l h = (h.0, h.1.1)

  -- For a sandbox whose restore metadata names no type of template, and a pool that counts `n`
  -- references to a template, if there is a pool: a restore that succeeds leaves the sandbox with the
  -- restore metadata of its parameters, and one more reference where it has to pin an environment; one
  -- that fails at any step leaves a sandbox whose metadata names no type of template, and `n`
  -- references. The hooks must leave the metadata alone. What else a failed restore leaves in the
  -- sandbox, such as the storages it took over, is not part of the statement.
  pub start_from_snapshot-counts :
      (l : Locked W)
      → HooksKeepTags setting.hooks
      → KeepsNone l.sandbox
      → PoolCounts x n l.pool
      → Ends
          (λ a.
            ShareLock
              (Tagged (target setting params))
              (PoolCounts x (n + env_pins (target setting params) x)))
          (ShareLock KeepsNone (PoolCounts x n))
          (start_from_snapshot setting params l)
  start_from_snapshot-counts l law h c = (start_from_snapshot-Triple law).ends l (h, c)
