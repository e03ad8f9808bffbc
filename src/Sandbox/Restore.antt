-- ===== src/Sandbox/Restore.antt =====
-- The restore of a sandbox from a snapshot: `start_from_snapshot` and `try_restore` of
-- vmm/sandbox/src/sandbox.rs, over the transaction of vmm/sandbox/src/restore.rs.
use kuasar.Prelude.{ℕ, String, ◌&&◌, Option, none, some, List, ◌==◌, map, is_some, if◌then◌else◌}
use kuasar.Prelude.Exec.{fail, modify, ok}
use kuasar.Prelude.Steps.{when, on_error, ◌>>=◌, ◌>>◌}
use kuasar.Prelude.Text.{append}
use kuasar.Sandbox.Agent.{
  init_client, push_sandbox_files, setup_sandbox, sync_clock, reseed_guest_entropy, forward_events,
  inject_warm_fork_task, refresh_instance_identity,
}
use kuasar.Sandbox.Host.{Host}
use kuasar.Sandbox.Lifecycle.{kill_vm, set_status}
use kuasar.Sandbox.State.{Action, RestoreSource, WarmForkParams, failed, running, on_vm, is_copy}
use kuasar.Storage.{Storage}
use kuasar.Template.Types.{SnapshotType, environment, warm_fork, continuation}

unfoldable pub remap_storage : String → Storage → Storage
remap_storage base_dir s =
    if s.owned_by_runtime && is_some s.device_id
    then record s { cleanup_path = some (append (append (append base_dir "/") s.id) ".img") }
    else s

unfoldable pub remap_restored_storage_artifacts : String → RestoreSource → List Storage
remap_restored_storage_artifacts base_dir src = map (remap_storage base_dir) src.storages

abbrev or_zero : Option ℕ → ℕ
or_zero none = 0
or_zero (some pid) = pid

module _ {W : Type 0} (host : Host W) where
  -- `RestoreTransaction::rollback_vm`, whose failure is only logged, as what a failed step does.
  unfoldable pub or_rollback : {A : Type 0} → Action W A → Action W A
  or_rollback m = on_error m (kill_vm host)

  unfoldable pub cleanup_work_dir : RestoreSource → Action W (Unit {0})
  cleanup_work_dir src = on_vm (λ w. (ok tt, (host.remove_dir_all src.work_dir w).1))

  abbrev adopt_storages : RestoreSource → Action W (Unit {0})
  adopt_storages src = modify λ s. record s {
    storages = remap_restored_storage_artifacts s.base_dir src;
    restore = record s.restore { orphan_container_ids = src.orphan_container_ids };
  }

  abbrev pub inject : Option WarmForkParams → Action W (Unit {0})
  inject none = fail failed
  inject (some params) = inject_warm_fork_task host params

  unfoldable pub restore_warm_fork : RestoreSource → Action W (Unit {0})
  restore_warm_fork src = do
    or_rollback (on_vm host.hotplug_pending_network)
    adopt_storages src
    or_rollback (refresh_instance_identity host)
    reseed_guest_entropy host
    or_rollback (inject src.warm_fork_params)

  unfoldable pub restore_continuation : RestoreSource → Action W (Unit {0})
  restore_continuation src = do adopt_storages src; sync_clock host

  unfoldable pub restore_environment : Action W (Unit {0})
  restore_environment s =
      (do
        or_rollback (on_vm host.hotplug_pending_network)
        when (s.storage_policy.storage_backend == "virtio-blk")
            (or_rollback (push_sandbox_files host))
        or_rollback (setup_sandbox host)
        reseed_guest_entropy host)
        s

  abbrev pub restore_guest : RestoreSource → SnapshotType → Action W (Unit {0})
  restore_guest src environment = restore_environment
  restore_guest src warm_fork = restore_warm_fork src
  restore_guest src continuation = restore_continuation src

  abbrev vmm_pid : Action W ℕ
  vmm_pid s = (ok (or_zero (host.vmm_pid s.vm)), s)

  unfoldable pub try_restore : RestoreSource → Action W (Unit {0})
  try_restore src = do
    on_vm (host.vm_restore src)
    pid ← vmm_pid
    or_rollback (init_client host)
    restore_guest src src.snapshot_type
    forward_events host
    set_status host (running pid)
    when (is_copy src.memory_restore_mode) (cleanup_work_dir src)

  unfoldable pub start_from_snapshot : RestoreSource → Action W (Unit {0})
  start_from_snapshot src = on_error (try_restore src) (cleanup_work_dir src)
