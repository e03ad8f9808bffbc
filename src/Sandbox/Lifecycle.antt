-- ===== src/Sandbox/Lifecycle.antt =====
-- The life of a sandbox of vmm/sandbox/src/sandbox.rs: its cold start, its stop, its network and its
-- control group, its dump, and the end of its VM.
use kuasar.Prelude.{
  ℕ, ◌+◌, ◌-◌, ◌/◌, ◌^◌, String, Bool, true, ◌&&◌, Option, none, some, List, [], ◌∷◌, ◌==◌, ltb,
  min, if◌then◌else◌,
}
use kuasar.Prelude.Exec.{Result, pure, fail, modify, gets, ok, err}
use kuasar.Prelude.Steps.{when, ignore, on_error, ◌>>=◌, ◌>>◌}
use kuasar.Prelude.Map
use kuasar.Prelude.Text.{append}
use kuasar.Sandbox.Agent.{init_client, push_sandbox_files, setup_sandbox, forward_events}
use kuasar.Sandbox.Host.{Host, PathResult, done, absent, refused}
use kuasar.Sandbox.State.{
  Action, Call, KuasarContainer, Network, SandboxData, SandboxError, SandboxStatus, created, paused,
  running, stopped, failed, on_vm, default_restore,
}
use kuasar.Sandbox.Storages.{deference_container_storages, get_sandbox_shared_path}

module _ {W : Type 0} (host : Host W) where
  abbrev opened : PathResult × W → Call W (Unit {0}) → Result SandboxError (Unit {0}) × W
  opened (done, w) write = write w
  opened (absent, w) write = (ok tt, w)
  opened (refused, w) write = (err failed, w)

  -- A directory that is gone is no error.
  unfoldable pub dump : Action W (Unit {0})
  dump s =
      let path = append s.base_dir "/sandbox.json" in
      on_vm (λ w. opened (host.open_dump path w) (host.write_dump path s)) s

  abbrev destroy : Option Network → Action W (Unit {0})
  destroy none s = (ok tt, s)
  destroy (some n) s = (ok tt, record s { network = none; vm = host.network_destroy n s.vm })

  -- The network is taken out, so it is destroyed once.
  unfoldable pub destroy_network : Action W (Unit {0})
  destroy_network s = destroy s.network s

  -- The quotient is rounded up; the source computes it on 64-bit floats.
  unfoldable pub network_queue : SandboxData → ℕ
  network_queue d =
      if ltb 0 d.cpu_period && ltb 0 d.cpu_quota
      then min ((d.cpu_quota + d.cpu_period - 1) / d.cpu_period) (2 ^ 32 - 1)
      else 1

  unfoldable pub prepare_network : Action W (Unit {0})
  prepare_network s =
      (do
        n ← on_vm (
            host.network_new (record {
              netns = s.sandbox_data.netns;
              sandbox_id = s.id;
              queue = network_queue s.sandbox_data;
            }))
        on_vm (host.network_attach n)
        modify λ s. record s { network = some n })
        s

  abbrev add_affiliated : List ℕ → Call W (Unit {0})
  add_affiliated [] = pure tt
  add_affiliated (pid ∷ pids) = do host.add_process pid none; add_affiliated pids

  abbrev add_vmm : ℕ → Call W (Unit {0})
  add_vmm pid = do
    threads ← host.vcpus
    host.add_process pid (some threads)
    λ w. add_affiliated (host.affiliated_pids w) w

  abbrev add_running : SandboxStatus → Action W (Unit {0})
  add_running (running pid) = on_vm (add_vmm pid)
  add_running created = fail failed
  add_running paused = fail failed
  add_running (stopped code ts) = fail failed

  unfoldable pub add_to_cgroup : Action W (Unit {0})
  add_to_cgroup s = if host.cgroup2 then (ok tt, s) else add_running s.status s

  abbrev pub detach_io : List String → Action W (Unit {0})
  detach_io [] = pure tt
  detach_io (id ∷ ids) = do on_vm (host.hot_detach id); detach_io ids

  abbrev io_devices_of : Option KuasarContainer → List String
  io_devices_of none = []
  io_devices_of (some c) = c.io_devices

  abbrev bundle_removed : PathResult × W → Result SandboxError (Unit {0}) × W
  bundle_removed (done, w) = (ok tt, w)
  bundle_removed (absent, w) = (ok tt, w)
  bundle_removed (refused, w) = (err failed, w)

  -- The container leaves the map before its devices are detached.
  abbrev pub take_container : String → Action W (Option KuasarContainer)
  take_container id s =
      (ok (Map.get id s.containers), record s { containers = Map.delete id s.containers })

  unfoldable pub remove_container : String → Action W (Unit {0})
  remove_container id = do
    deference_container_storages host id
    bundle ← gets λ s. append (append (get_sandbox_shared_path s) "/") id
    on_vm (λ w. bundle_removed (host.remove_dir_all bundle w))
    c ← take_container id
    detach_io (io_devices_of c)
    dump

  unfoldable pub remove_containers : Bool → List String → Action W (Unit {0})
  remove_containers force [] = pure tt
  remove_containers force (id ∷ ids) = do
    if force then ignore (remove_container id) else remove_container id
    remove_containers force ids

  abbrev pub stop_vm : Bool → Action W (Unit {0})
  stop_vm force s =
      (do
        remove_containers force (Map.keys s.containers)
        on_vm (host.vm_stop force)
        destroy_network)
        s

  -- A sandbox that never ran is stopped by force.
  abbrev pub stop_by_status : SandboxStatus → Bool → Action W (Unit {0})
  stop_by_status created force = stop_vm true
  stop_by_status (running pid) force = stop_vm force
  stop_by_status (stopped code ts) force = destroy_network
  stop_by_status paused force = fail failed

  unfoldable pub stop : Bool → Action W (Unit {0})
  stop force s = stop_by_status s.status force s

  abbrev pub set_status : SandboxStatus → Action W (Unit {0})
  set_status status = modify λ s. record s { status = status }

  abbrev pub kill_vm : Action W (Unit {0})
  kill_vm = on_vm (host.vm_stop true)

  unfoldable pub start : Action W (Unit {0})
  start s =
      (do
        pid ← on_vm host.vm_start
        on_error (init_client host) kill_vm
        when (s.storage_policy.storage_backend == "virtio-blk")
            (on_error (push_sandbox_files host) kill_vm)
        on_error (setup_sandbox host) kill_vm
        forward_events host
        set_status (running pid))
        s

  unfoldable pub clear_template_restore_state : Action W (Unit {0})
  clear_template_restore_state = modify λ s. record s { restore = default_restore }

  -- What `monitor` does when the VM has ended.
  unfoldable pub vm_terminated : ℕ → ℕ → Action W (Unit {0})
  vm_terminated code ts = do
    set_status (stopped code ts)
    modify λ s. record s { exit_signal = true }
    destroy_network
    ignore dump
