-- ===== src/Sandbox/Tags.antt =====
-- What the operations of a sandbox (vmm/sandbox/src/sandbox.rs) leave of its restore metadata: the
-- template, its type, the lease mode and the memory mode.
pub mod Restoring
use kuasar.Prelude.{String, Bool, true, false, Option, List, [], ◌∷◌, ◌≡◌, arith}
use kuasar.Prelude.Exec.{fail-Keeps, Keeps, pure-Keeps}
use kuasar.Prelude.Steps.{
  then-Keeps, ◌>>=◌, ◌>>◌, bind-Keeps, on_error-Keeps, when-Keeps, ignore-Keeps, on_error, ◌>>=◌,
  ◌>>◌,
}
use kuasar.Sandbox.Agent.{
  init_client, push_sandbox_files, setup_sandbox, sync_clock, reseed_guest_entropy, forward_events,
}
use kuasar.Sandbox.Host.{Host}
use kuasar.Sandbox.Lifecycle.{
  kill_vm, detach_io, stop_vm, stop_by_status, destroy_network, prepare_network, add_to_cgroup,
  dump, remove_container, remove_containers, stop, start,
}
use kuasar.Sandbox.State.{
  SandboxStatus, created, paused, running, stopped, failed, Action, Call, KuasarSandbox,
  MemoryRestoreMode, RestoreMetadata, on_vm,
}
use kuasar.Sandbox.Storages.{detach_storage, detach_each, gc_storages, deference_container_storages}
use kuasar.Storage.{Storage}
use kuasar.Template.Types.{SnapshotType, TemplateLeaseMode}

pub record Tags : Type 0 where
  pub template_id : Option String
  pub template_snapshot_type : Option SnapshotType
  pub lease_mode : Option TemplateLeaseMode
  pub memory_restore_mode : Option MemoryRestoreMode

abbrev pub tags_of : RestoreMetadata → Tags
tags_of r = record {
  template_id = r.template_id;
  template_snapshot_type = r.template_snapshot_type;
  lease_mode = r.lease_mode;
  memory_restore_mode = r.memory_restore_mode;
}

abbrev pub Tagged : {W : Type 0} → Tags → KuasarSandbox W → Type 0
Tagged t s = tags_of s.restore ≡ t

module _ {W : Type 0} (t : Tags) where
  pub on_vm-Tagged : {A : Type 0} (m : Call W A) → Keeps (Tagged t) (on_vm m)
  unfolding on_vm
  on_vm-Tagged m = record { from = λ s p. p }

module _ {W : Type 0} (host : Host W) (t : Tags) where
  pub init_client-Tagged : Keeps (Tagged t) (init_client host)
  unfolding init_client ◌>>=◌ ◌>>◌ on_vm
  init_client-Tagged = record { from = λ s p. ground arith }

  pub setup_sandbox-Tagged : Keeps (Tagged t) (setup_sandbox host)
  unfolding setup_sandbox on_vm
  setup_sandbox-Tagged = record { from = λ s p. ground arith }

  pub push_sandbox_files-Tagged : Keeps (Tagged t) (push_sandbox_files host)
  unfolding push_sandbox_files on_vm
  push_sandbox_files-Tagged = record { from = λ s p. ground arith }

  pub sync_clock-Tagged : Keeps (Tagged t) (sync_clock host)
  unfolding sync_clock
  sync_clock-Tagged = record { from = λ s p. ground arith }

  pub reseed-Tagged : Keeps (Tagged t) (reseed_guest_entropy host)
  unfolding reseed_guest_entropy
  reseed-Tagged = record { from = λ s p. ground arith }

  pub forward_events-Tagged : Keeps (Tagged t) (forward_events host)
  unfolding forward_events
  forward_events-Tagged = record { from = λ s p. ground arith }

  pub destroy_network-Tagged : Keeps (Tagged t) (destroy_network host)
  unfolding destroy_network
  destroy_network-Tagged = record { from = λ s p. ground arith }

  pub prepare_network-Tagged : Keeps (Tagged t) (prepare_network host)
  unfolding prepare_network ◌>>=◌ ◌>>◌ on_vm
  prepare_network-Tagged = record { from = λ s p. ground arith }

  pub add_to_cgroup-Tagged : Keeps (Tagged t) (add_to_cgroup host)
  unfolding add_to_cgroup on_vm
  add_to_cgroup-Tagged = record { from = λ s p. ground arith }

  pub dump-Tagged : Keeps (Tagged t) (dump host)
  unfolding dump on_vm
  dump-Tagged = record { from = λ s p. p }

  detach_storage-Tagged : (s : Storage) → Keeps (Tagged t) (detach_storage host s)
  unfolding detach_storage ◌>>◌ on_vm
  detach_storage-Tagged s = record { from = λ sb p. ground arith }

  detach_each-Tagged : (ss : List Storage) → Keeps (Tagged t) (detach_each host ss)
  unfolding detach_each
  detach_each-Tagged [] = pure-Keeps (Tagged t) tt
  detach_each-Tagged (s ∷ ss) =
      then-Keeps _ _ _ (detach_storage-Tagged s)
        (then-Keeps _ _ _ (record { from = λ sb p. p }) (detach_each-Tagged ss))

  deference_storages-Tagged :
      (id : String) → Keeps (Tagged t) (deference_container_storages host id)
  unfolding deference_container_storages gc_storages
  deference_storages-Tagged id =
      then-Keeps _ _ _ (record { from = λ sb p. p })
        (record { from = λ sb p. (detach_each-Tagged _).from sb p })

  detach_io-Tagged : (ids : List String) → Keeps (Tagged t) (detach_io host ids)
  detach_io-Tagged [] = pure-Keeps (Tagged t) tt
  detach_io-Tagged (id ∷ ids) = then-Keeps _ _ _ (on_vm-Tagged t _) (detach_io-Tagged ids)

  remove_container-Tagged : (id : String) → Keeps (Tagged t) (remove_container host id)
  unfolding remove_container
  remove_container-Tagged id = then-Keeps _ _ _ (deference_storages-Tagged id) (
      bind-Keeps _ _ _ (record { from = λ s p. p })
        λ bundle. then-Keeps _ _ _ (on_vm-Tagged t _) (
          bind-Keeps _ _ _ (record { from = λ s p. p })
            λ c. then-Keeps _ _ _ (detach_io-Tagged _) dump-Tagged))

  remove_containers-Tagged :
      (force : Bool) (ids : List String) → Keeps (Tagged t) (remove_containers host force ids)
  unfolding remove_containers
  remove_containers-Tagged force [] = pure-Keeps (Tagged t) tt
  remove_containers-Tagged true (id ∷ ids) =
      then-Keeps _ _ _ (ignore-Keeps (Tagged t) _ (remove_container-Tagged id))
        (remove_containers-Tagged true ids)
  remove_containers-Tagged false (id ∷ ids) =
      then-Keeps _ _ _ (remove_container-Tagged id) (remove_containers-Tagged false ids)

  stop_vm-Tagged : (force : Bool) → Keeps (Tagged t) (stop_vm host force)
  stop_vm-Tagged force = record {
    from = λ s p.
        (then-Keeps _ _ _ (remove_containers-Tagged force _)
            (then-Keeps _ _ _ (on_vm-Tagged t _) destroy_network-Tagged)).from
          s p;
  }

  stop_by_status-Tagged :
      (status : SandboxStatus) (force : Bool) → Keeps (Tagged t) (stop_by_status host status force)
  stop_by_status-Tagged created force = stop_vm-Tagged true
  stop_by_status-Tagged (running pid) force = stop_vm-Tagged force
  stop_by_status-Tagged (stopped code ts) force = destroy_network-Tagged
  stop_by_status-Tagged paused force = fail-Keeps (Tagged t) failed

  pub stop-Tagged : (force : Bool) → Keeps (Tagged t) (stop host force)
  unfolding stop
  stop-Tagged force = record { from = λ s p. (stop_by_status-Tagged s.status force).from s p }

  -- A step of a start or a restore that stops the VM where it fails.
  pub or_kill-Tagged :
      {A : Type 0} (m : Action W A)
      → Keeps (Tagged t) m
      → Keeps (Tagged t) (on_error m (kill_vm host))
  or_kill-Tagged m k = on_error-Keeps (Tagged t) m (kill_vm host) k (on_vm-Tagged t _)

  pub start-Tagged : Keeps (Tagged t) (start host)
  unfolding start
  start-Tagged = record {
    from = λ s p.
        (bind-Keeps _ _ _ (on_vm-Tagged t _) λ pid.
            then-Keeps _ _ _ (or_kill-Tagged _ init_client-Tagged) (
              then-Keeps _ _ _
                (when-Keeps (Tagged t) _ _ (or_kill-Tagged _ push_sandbox_files-Tagged))
                (then-Keeps _ _ _ (or_kill-Tagged _ setup_sandbox-Tagged)
                  (then-Keeps _ _ _ forward_events-Tagged (record { from = λ s' p'. p' }))))).from
          s p;
  }
