-- ===== src/Sandbox/Agent.antt =====
-- What a sandbox of vmm/sandbox/src/sandbox.rs asks of its guest: the client and the requests of the
-- start and of the restore.
use kuasar.Sandbox.GuestFile.{ensure_dir, exec, push_file, shell_quote}
use kuasar.Prelude.{
  String, Bool, true, false, Option, none, some, List, ◌==◌, ◌&&◌, eqb, all, any, length, map,
  if◌then◌else◌,
}
use kuasar.Prelude.Exec.{of_result, pure, fail, modify, ok, err}
use kuasar.Prelude.Steps.{when, ◌>>=◌, ◌>>◌}
use kuasar.Prelude.Text.{append}
use kuasar.Sandbox.Host.{Host}
use kuasar.Sandbox.State.{Action, Call, Network, WarmForkParams, failed, on_vm}
use kuasar.Sandbox.Storages.{get_sandbox_shared_path}
use kuasar.WarmFork.Talk.{ContainerInjectResult, InjectStatus, inject_started}

unfoldable pub is_started : InjectStatus → Bool
is_started s = elim s [ inject_started ↦ true | _ ↦ false ]

abbrev pub contains : List String → String → Bool
contains ids id = any (λ x. x == id) ids

-- Two `HashSet`s that were collected from the ids.
abbrev pub same_set : List String → List String → Bool
same_set xs ys = all (contains ys) xs && all (contains xs) ys

unfoldable pub check_results : WarmForkParams → List ContainerInjectResult → Bool
check_results params results =
    eqb (length results) (length params.targets)
    && same_set (map (λ r. r.container_id) results) (map (λ t. t.container_id) params.targets)
    && all (λ r. is_started r.status) results

module _ {W : Type 0} (host : Host W) where
  abbrev connect : (String → Call W (Unit {0})) → Action W (Unit {0})
  connect new_client s =
      let address = host.socket_address s.vm in
      if address == ""
      then (err failed, s)
      else (do
        on_vm (new_client address)
        on_vm (host.client_check address)
        modify λ s. record s { client = some address })
          s

  abbrev init_with : (String → Call W (Unit {0})) → Action W (Unit {0})
  init_with new_client s = elim s.client [ none ↦ connect new_client s | some c ↦ (ok tt, s) ]

  -- A client that is there is kept.
  unfoldable pub init_client : Action W (Unit {0})
  init_client = init_with host.new_sandbox_client

  unfoldable pub init_client_fail_fast : Action W (Unit {0})
  init_client_fail_fast = init_with host.new_sandbox_client_fail_fast

  unfoldable pub setup_sandbox : Action W (Unit {0})
  setup_sandbox s = elim s.client [
    | none ↦ (ok tt, s)
    | some c ↦ on_vm (host.client_setup_sandbox c s.sandbox_data s.network) s
  ]

  abbrev with_client : (String → W → W) → Action W (Unit {0})
  with_client f s = elim s.client [
    | none ↦ (ok tt, s)
    | some c ↦ (ok tt, record s { vm = f c s.vm })
  ]

  unfoldable pub sync_clock : Action W (Unit {0})
  sync_clock = with_client host.client_sync_clock

  unfoldable pub reseed_guest_entropy : Action W (Unit {0})
  reseed_guest_entropy = with_client host.client_reseed_entropy

  unfoldable pub forward_events : Action W (Unit {0})
  forward_events = with_client host.get_events

  abbrev push_content : String → String → Option String → Call W (Unit {0})
  push_content c dest none = pure tt
  push_content c dest (some content) = push_file host c dest content 420

  abbrev push_resolv : String → Option String → Call W (Unit {0})
  push_resolv c none = pure tt
  push_resolv c (some content) = do
    push_file host c "/run/kuasar/state/resolv.conf" content 420
    exec host c (
        append "mount --bind " (
          append (shell_quote "/run/kuasar/state/resolv.conf")
            (append " " (shell_quote "/etc/resolv.conf"))))

  -- The three pushes all run to their end; here, one after the other.
  abbrev join3 : Call W (Unit {0}) → Call W (Unit {0}) → Call W (Unit {0}) → Call W (Unit {0})
  join3 m n o w =
      let (r1, w1) = m w in
      let (r2, w2) = n w1 in
      let (r3, w3) = o w2 in (of_result r1 >> (of_result r2 >> of_result r3)) w3

  abbrev push_files : String → String → Call W (Unit {0})
  push_files c shared_path = do
    ensure_dir host c "/run/kuasar/state"
    λ w.
        let hostname = host.read_file (append shared_path "/hostname") w in
        let resolv = host.read_file (append shared_path "/resolv.conf") w in
        let hosts = host.read_file (append shared_path "/hosts") w in
        join3 (push_content c "/run/kuasar/state/hostname" hostname) (push_resolv c resolv)
          (push_content c "/run/kuasar/state/hosts" hosts) w

  unfoldable pub push_sandbox_files : Action W (Unit {0})
  push_sandbox_files s = elim s.client [
    | none ↦ (err failed, s)
    | some c ↦ on_vm (push_files c (get_sandbox_shared_path s)) s
  ]

  abbrev checked : WarmForkParams → List ContainerInjectResult → Action W (Unit {0})
  checked params results = if check_results params results then pure tt else fail failed

  unfoldable pub inject_warm_fork_task : WarmForkParams → Action W (Unit {0})
  inject_warm_fork_task params s = elim s.client [
    | none ↦ (err failed, s)
    | some c ↦ (do results ← on_vm (host.inject_task c params); checked params results) s
  ]

  abbrev pub update_network : Option String → Option Network → Action W (Unit {0})
  update_network none n = pure tt
  update_network (some c) none = pure tt
  update_network (some c) (some n) = do
    when (host.has_interfaces n) (on_vm (host.update_interfaces c n))
    when (host.has_routes n) (on_vm (host.update_routes c n))

  unfoldable pub refresh_instance_identity : Action W (Unit {0})
  refresh_instance_identity s =
      (do
        when (s.storage_policy.storage_backend == "virtio-blk") push_sandbox_files
        update_network s.client s.network
        sync_clock)
        s
