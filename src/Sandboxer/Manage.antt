-- ===== src/Sandboxer/Manage.antt =====
-- The requests of `KuasarSandboxer` (vmm/sandbox/src/sandbox.rs) that create, update, stop and delete a
-- sandbox, and the end of a VM.
use kuasar.Prelude.{ℕ, String, Bool, true, false, not, ◌&&◌, Option, none, some, [], if◌then◌else◌}
use kuasar.Prelude.Exec.{Result, ok, err, modify}
use kuasar.Prelude.Map
use kuasar.Prelude.Map.{Map}
use kuasar.Prelude.Steps.{◌>>◌, when}
use kuasar.Continuation.Scan as Scan
use kuasar.Continuation.Store.{Store}
use kuasar.Sandbox.Host.{PathResult, absent, done, refused}
use kuasar.Sandbox.Lifecycle.{dump, stop, vm_terminated}
use kuasar.Sandbox.State.{
  Action, KuasarSandbox, RestoreMetadata, SandboxData, SandboxError, already_exist, created,
  default_restore, failed, on_vm,
}
use kuasar.Sandboxer.Restore.{non_copy}
use kuasar.Sandboxer.State.{KuasarSandboxer, Request, Setting, on_sandbox, with_sandbox}
use kuasar.Template.Pool.Recovery.{cleanup_consumed}
use kuasar.Template.Pool.Refs.{deref}
use kuasar.Template.Pool.State.{TemplatePool}
use kuasar.Template.Types.{continuation, environment, exclusive, shared, warm_fork}

-- What the deletion of a sandbox does with its template.
pub data Release : Type 0 where
  keep_pool deref_template delete_consumed delete_continuation : Release

unfoldable pub release_of : RestoreMetadata → Release
release_of r = elim r.template_snapshot_type [
  | some environment ↦ if non_copy r.memory_restore_mode then deref_template else keep_pool
  | some warm_fork ↦ elim r.lease_mode [
    | some shared ↦ deref_template
    | some exclusive ↦ delete_consumed
    | none ↦ delete_consumed
  ]
  | some continuation ↦ delete_continuation
  | none ↦ delete_consumed
]

module _ {W : Type 0} (setting : Setting W) where
  abbrev pub new_sandbox : String → String → SandboxData → W → KuasarSandbox W
  new_sandbox id base_dir d vm = record {
    vm = vm;
    id = id;
    status = created;
    base_dir = base_dir;
    sandbox_data = d;
    containers = [];
    storages = [];
    id_generator = 0;
    network = none;
    client = none;
    exit_signal = false;
    storage_policy = setting.storage_policy;
    restore = default_restore;
  }

  abbrev pub write_files : Action W (Unit {0})
  write_files s = on_vm (setting.host.setup_sandbox_files s.base_dir s.sandbox_data) s

  abbrev pub set_up : Action W (Unit {0})
  set_up = do write_files; setting.hooks.post_create; dump setting.host

  abbrev pub inserted :
      String
      → Result SandboxError (Unit {0}) × KuasarSandbox W
      → KuasarSandboxer W
      → Result SandboxError (Unit {0}) × KuasarSandboxer W
  inserted id (err e, s) st = (err e, st)
  inserted id (ok u, s) st = (ok tt, record st { sandboxes = Map.put id s st.sandboxes })

  abbrev pub with_vm : String → String → SandboxData → Result SandboxError W → Request W (Unit {0})
  with_vm id base_dir d (err e) st = (err e, st)
  with_vm id base_dir d (ok vm) st = inserted id (set_up (new_sandbox id base_dir d vm)) st

  unfoldable pub create : String → String → SandboxData → Request W (Unit {0})
  create id base_dir d st =
      if Map.contains_key id st.sandboxes
      then (err already_exist, st)
      else if not setting.host.cgroup2 && setting.cgroup_fails id
      then (err failed, st)
      else with_vm id base_dir d (setting.create_vm id d) st

  unfoldable pub update : String → SandboxData → Request W (Unit {0})
  update id d =
      with_sandbox id (on_sandbox do modify λ s. record s { sandbox_data = d }; dump setting.host)

  -- A sandbox that is not there is nothing to stop.
  unfoldable pub stop_sandbox : String → Bool → Request W (Unit {0})
  stop_sandbox id force st =
      if Map.contains_key id st.sandboxes
      then with_sandbox id
          (on_sandbox do
            setting.hooks.pre_stop
            stop setting.host force
            setting.hooks.post_stop
            dump setting.host)
          st
      else (ok tt, st)

  abbrev base_removed : PathResult × W → Result SandboxError (Unit {0}) × W
  base_removed (done, w) = (ok tt, w)
  base_removed (absent, w) = (ok tt, w)
  base_removed (refused, w) = (err failed, w)

  abbrev remove_files : Action W (Unit {0})
  remove_files s =
      (do
        when (not setting.host.cgroup2) (on_vm (setting.host.remove_cgroups s.id))
        on_vm (setting.host.cleanup_mounts s.base_dir)
        on_vm (λ w. base_removed (setting.host.remove_dir_all s.base_dir w)))
        s

  unfoldable pub tear_down : Action W (Unit {0})
  tear_down = do stop setting.host true; remove_files

  abbrev delete_continuation_of : String → Option Store → Option Store
  delete_continuation_of tid none = none
  delete_continuation_of tid (some s) = some (Scan.delete_by_template_id setting.store_io tid s).1

  abbrev pub release_by : Release → String → TemplatePool → KuasarSandboxer W → KuasarSandboxer W
  release_by keep_pool tid p st = st
  release_by deref_template tid p st = record st { template_pool = some (deref setting.io tid p).1 }
  release_by delete_consumed tid p st = record st {
    template_pool = some (cleanup_consumed setting.io tid p);
  }
  release_by delete_continuation tid p st = record st {
    continuation_store = delete_continuation_of tid st.continuation_store;
  }

  -- Without a pool nothing is released, not even a continuation.
  unfoldable pub release_template :
      Option String → RestoreMetadata → KuasarSandboxer W → KuasarSandboxer W
  release_template consumed r st = elim consumed [
    | none ↦ st
    | some tid ↦ elim st.template_pool [ none ↦ st | some p ↦ release_by (release_of r) tid p st ]
  ]

  abbrev pub remove_entry : String → Request W (Unit {0})
  remove_entry id = modify λ st. record st { sandboxes = Map.delete id st.sandboxes }

  abbrev pub released :
      String
      → Option String
      → Result SandboxError (Unit {0}) × KuasarSandbox W
      → Request W (Unit {0})
  released id consumed (err e, s) st = (err e, record st { sandboxes = Map.put id s st.sandboxes })
  released id consumed (ok u, s) st =
      remove_entry id
        (release_template consumed s.restore (record st { sandboxes = Map.put id s st.sandboxes }))

  unfoldable pub delete : String → Request W (Unit {0})
  delete id st = elim (Map.get id st.sandboxes) [
    | none ↦ remove_entry id st
    | some s ↦ released id s.restore.template_id (tear_down s) st
  ]

  -- `monitor`, when the VM of a sandbox has ended.
  unfoldable pub terminated : String → ℕ → ℕ → Request W (Unit {0})
  terminated id code ts = with_sandbox id (on_sandbox (vm_terminated setting.host code ts))
