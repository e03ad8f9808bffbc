-- ===== src/Sandbox/Tags/Restoring.antt =====
-- The restore of a VM (vmm/sandbox/src/sandbox.rs) leaves the restore metadata as they are, except for
-- the list of orphans.
use kuasar.Prelude.{String, Option, none, some, arith}
use kuasar.Prelude.Exec.{Keeps, fail-Keeps, pure-Keeps}
use kuasar.Prelude.Steps.{bind-Keeps, then-Keeps, on_error-Keeps, when-Keeps, ◌>>=◌}
use kuasar.Sandbox.Agent.{inject_warm_fork_task, update_network, refresh_instance_identity}
use kuasar.Sandbox.Host.{Host}
use kuasar.Sandbox.Restore.{
  try_restore, start_from_snapshot, restore_warm_fork, restore_continuation, restore_environment,
  cleanup_work_dir, or_rollback, inject, restore_guest,
}
use kuasar.Sandbox.State.{Action, Network, RestoreSource, WarmForkParams, on_vm, failed}
use kuasar.Sandbox.Tags.{
  Tags, Tagged, on_vm-Tagged, or_kill-Tagged, init_client-Tagged, setup_sandbox-Tagged,
  push_sandbox_files-Tagged, sync_clock-Tagged, reseed-Tagged, forward_events-Tagged,
}
use kuasar.Template.Types.{SnapshotType, environment, warm_fork, continuation}

module _ {W : Type 0} (host : Host W) (t : Tags) where
  or_rollback-Tagged :
      {A : Type 0} (m : Action W A) → Keeps (Tagged t) m → Keeps (Tagged t) (or_rollback host m)
  unfolding or_rollback
  or_rollback-Tagged m k = or_kill-Tagged host t m k

  cleanup_work_dir-Tagged : (src : RestoreSource) → Keeps (Tagged t) (cleanup_work_dir host src)
  unfolding cleanup_work_dir
  cleanup_work_dir-Tagged src = on_vm-Tagged t _

  refresh-Tagged : Keeps (Tagged t) (refresh_instance_identity host)
  unfolding refresh_instance_identity
  refresh-Tagged = record {
    from = λ s p.
        (then-Keeps _ _ _ (when-Keeps (Tagged t) _ _ (push_sandbox_files-Tagged host t))
            (then-Keeps _ _ _ (network s.client s.network) (sync_clock-Tagged host t))).from
          s p;
  }
    where
      network :
          (c : Option String) (n : Option Network) → Keeps (Tagged t) (update_network host c n)
      network none n = pure-Keeps (Tagged t) tt
      network (some c) none = pure-Keeps (Tagged t) tt
      network (some c) (some n) =
          then-Keeps _ _ _ (when-Keeps (Tagged t) _ _ (on_vm-Tagged t _))
            (when-Keeps (Tagged t) _ _ (on_vm-Tagged t _))

  inject-Tagged : (o : Option WarmForkParams) → Keeps (Tagged t) (inject host o)
  unfolding inject_warm_fork_task ◌>>=◌ on_vm
  inject-Tagged none = fail-Keeps (Tagged t) failed
  inject-Tagged (some params) = record { from = λ s p. ground arith }

  restore_guest-Tagged :
      (src : RestoreSource) (type : SnapshotType) → Keeps (Tagged t) (restore_guest host src type)
  unfolding restore_environment restore_warm_fork restore_continuation
  restore_guest-Tagged src environment = record {
    from = λ s p.
        (then-Keeps _ _ _ (or_rollback-Tagged _ (on_vm-Tagged t _)) (
            then-Keeps _ _ _
              (when-Keeps (Tagged t) _ _ (or_rollback-Tagged _ (push_sandbox_files-Tagged host t)))
              (then-Keeps _ _ _ (or_rollback-Tagged _ (setup_sandbox-Tagged host t))
                (reseed-Tagged host t)))).from
          s p;
  }
  restore_guest-Tagged src warm_fork = then-Keeps _ _ _ (or_rollback-Tagged _ (on_vm-Tagged t _)) (
      then-Keeps _ _ _ (record { from = λ s p. p })
        (then-Keeps _ _ _ (or_rollback-Tagged _ refresh-Tagged)
          (then-Keeps _ _ _ (reseed-Tagged host t) (or_rollback-Tagged _ (inject-Tagged _)))))
  restore_guest-Tagged src continuation =
      then-Keeps _ _ _ (record { from = λ s p. p }) (sync_clock-Tagged host t)

  pub start_from_snapshot-Tagged :
      (src : RestoreSource) → Keeps (Tagged t) (start_from_snapshot host src)
  unfolding start_from_snapshot try_restore
  start_from_snapshot-Tagged src =
      on_error-Keeps (Tagged t) _ _ restored (cleanup_work_dir-Tagged src)
    where
      restored : Keeps (Tagged t) (try_restore host src)
      restored = then-Keeps _ _ _ (on_vm-Tagged t _) (
          bind-Keeps _ _ _ (record { from = λ s p. p })
            λ pid. then-Keeps _ _ _ (or_rollback-Tagged _ (init_client-Tagged host t)) (
              then-Keeps _ _ _ (restore_guest-Tagged src _) (
                then-Keeps _ _ _ (forward_events-Tagged host t) (
                  then-Keeps _ _ _ (record { from = λ s p. p })
                    (when-Keeps (Tagged t) _ _ (cleanup_work_dir-Tagged src))))))
