-- ===== src/Sandboxer/Restore.antt =====
-- `start_from_snapshot` of `KuasarSandboxer` (vmm/sandbox/src/sandbox.rs): a created sandbox is
-- restored, its template is pinned if the VM goes on reading the snapshot, and a step that fails
-- after the restore takes everything back.
use kuasar.Prelude.{String, Bool, true, false, not, ◌&&◌, Option, none, some, ◌==◌}
use kuasar.Prelude.Exec.{pure, modify, ok}
use kuasar.Prelude.Steps.{when, on_error, ◌>>=◌, ◌>>◌}
use kuasar.Prelude.Text.{append}
use kuasar.Sandbox.Lifecycle.{
  prepare_network, destroy_network, clear_template_restore_state, stop, add_to_cgroup, dump,
}
use kuasar.Sandbox.Restore as Sandbox
use kuasar.Sandbox.State.{
  Action, KuasarSandbox, MemoryRestoreMode, RestoreMetadata, RestoreSource, is_copy,
}
use kuasar.Sandboxer.State.{LockedAction, Setting, SnapshotRestoreParams, on_sandbox, on_pool}
use kuasar.Template.Pool.Refs.{ref_template, deref}
use kuasar.Template.Types.{SnapshotType, environment, continuation, same_type}

abbrev pub is_type : SnapshotType → Option SnapshotType → Bool
is_type t none = false
is_type t (some t') = same_type t t'

abbrev pub non_copy : Option MemoryRestoreMode → Bool
non_copy none = false
non_copy (some m) = not (is_copy m)

-- `!sandbox.data.netns.is_empty() && !matches!(params.snapshot_type, Continuation)`.
unfoldable pub wants_network : String → SnapshotType → Bool
wants_network netns t = not (netns == "") && not (same_type t continuation)

-- An environment whose snapshot backs the memory of the running VM.
unfoldable pub env_non_copy : RestoreMetadata → Bool
env_non_copy r = is_type environment r.template_snapshot_type && non_copy r.memory_restore_mode

module _ {W : Type 0} (setting : Setting W) (params : SnapshotRestoreParams) where
  abbrev restore_source : KuasarSandbox W → RestoreSource
  restore_source s = record {
    snapshot_dir = params.snapshot_dir;
    work_dir = append s.base_dir "/restore";
    original_task_vsock = params.original_task_vsock;
    snapshot_type = params.snapshot_type;
    disk_images = params.disk_images;
    storages = params.storages;
    orphan_container_ids = params.orphan_container_ids;
    memory_restore_mode = setting.config.default_memory_restore_mode;
    reflink_supported = params.reflink_supported;
    lease_mode = params.lease_mode;
    warm_fork_params = params.warm_fork_params;
  }

  abbrev pub record_restore : RestoreMetadata → RestoreMetadata
  record_restore r = record r {
    template_id = params.template_id;
    template_snapshot_type = some params.snapshot_type;
    lease_mode = some params.lease_mode;
    reflink_supported = some params.reflink_supported;
    memory_restore_mode = some setting.config.default_memory_restore_mode;
  }

  abbrev pub network_up : Action W (Unit {0})
  network_up s =
      when (wants_network s.sandbox_data.netns params.snapshot_type)
        (on_error (prepare_network setting.host) (destroy_network setting.host)) s

  abbrev pub restore_vm : Action W (Unit {0})
  restore_vm s =
      on_error (Sandbox.start_from_snapshot setting.host (restore_source s))
        (clear_template_restore_state setting.host >> destroy_network setting.host) s

  -- Up to the restore, only the sandbox changes.
  unfoldable pub restore_sandbox : Action W (Unit {0})
  restore_sandbox = do
    setting.hooks.pre_start
    network_up
    modify λ s. record s { restore = record_restore s.restore }
    restore_vm

  abbrev pin_if : Bool → String → LockedAction W Bool
  pin_if true tid = do on_pool (λ p. (ok tt, ref_template tid p)); pure true
  pin_if false tid = pure false

  abbrev pin_template : Option String → LockedAction W Bool
  pin_template none l = (ok false, l)
  pin_template (some tid) l = elim l.pool [
    | none ↦ (ok false, l)
    | some p ↦ pin_if (env_non_copy l.sandbox.restore) tid l
  ]

  unfoldable pub pin : LockedAction W Bool
  pin l = pin_template l.sandbox.restore.template_id l

  abbrev unpin_template : Option String → LockedAction W (Unit {0})
  unpin_template none = pure tt
  unpin_template (some tid) = on_pool (deref setting.io tid)

  unfoldable pub unpin : LockedAction W (Unit {0})
  unpin l = unpin_template l.sandbox.restore.template_id l

  unfoldable pub rollback_post_restore : Bool → LockedAction W (Unit {0})
  rollback_post_restore pinned = do
    when pinned unpin
    on_sandbox (clear_template_restore_state setting.host)
    on_sandbox (stop setting.host true)
    on_sandbox (destroy_network setting.host)

  abbrev pub or_rollback_post_restore : Bool → Action W (Unit {0}) → LockedAction W (Unit {0})
  or_rollback_post_restore pinned m = on_error (on_sandbox m) (rollback_post_restore pinned)

  unfoldable pub start_from_snapshot : LockedAction W (Unit {0})
  start_from_snapshot = do
    on_sandbox restore_sandbox
    pinned ← pin
    on_sandbox (modify λ s. record s { id_generator = params.id_generator })
    or_rollback_post_restore pinned (add_to_cgroup setting.host)
    or_rollback_post_restore pinned setting.hooks.post_start
    or_rollback_post_restore pinned (dump setting.host)
