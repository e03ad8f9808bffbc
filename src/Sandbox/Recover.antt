-- ===== src/Sandbox/Recover.antt =====
-- `recover` of `KuasarSandbox` (vmm/sandbox/src/sandbox.rs), on a sandbox as it was read from its dump.
use kuasar.Prelude.{true}
use kuasar.Prelude.Exec.{pure}
use kuasar.Prelude.Steps.{◌>>◌, on_error}
use kuasar.Sandbox.Agent.{forward_events, init_client_fail_fast, sync_clock}
use kuasar.Sandbox.Host.{Host}
use kuasar.Sandbox.Lifecycle.{stop}
use kuasar.Sandbox.State.{Action, SandboxStatus, created, on_vm, paused, running, stopped}

module _ {W : Type 0} (host : Host W) where
  abbrev reconnect : Action W (Unit {0})
  reconnect = do
    on_error (on_vm host.vm_recover) (stop host true)
    on_error (init_client_fail_fast host) (stop host true)
    sync_clock host
    forward_events host

  abbrev pub recover_by_status : SandboxStatus → Action W (Unit {0})
  recover_by_status (running pid) = reconnect
  recover_by_status created = pure tt
  recover_by_status paused = pure tt
  recover_by_status (stopped code ts) = pure tt

  abbrev recreate_cgroups : Action W (Unit {0})
  recreate_cgroups s = on_vm (host.create_cgroups s.id) s

  unfoldable pub recover_sandbox : Action W (Unit {0})
  recover_sandbox s = (do recover_by_status s.status; recreate_cgroups) s
