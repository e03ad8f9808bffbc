-- ===== src/Container/Files.antt =====
-- The specification of a container as a file (vmm/sandbox/src/container/handler/spec.rs).
use kuasar.Prelude.{
  String, Bool, false, Option, none, some, List, [], ◌∷◌, ◌++◌, ◌==◌, any, if◌then◌else◌,
}
use kuasar.Container.Chain.{Handler}
use kuasar.Container.Entry.{with_spec}
use kuasar.Container.Pipes.{get_container, set_container}
use kuasar.Prelude.Exec.{Result, ok, err, fail, gets, of_result}
use kuasar.Prelude.Steps.{◌>>=◌, ◌>>◌}
use kuasar.Prelude.Text.{append}
use kuasar.Sandbox.Attach.Small.{with_client}
use kuasar.Sandbox.GuestFile.{ensure_dir, join_guest_component, push_file}
use kuasar.Sandbox.Host.{Host, PathResult, done, absent, refused}
use kuasar.Sandbox.State.{
  Action, Call, KuasarContainer, KuasarSandbox, Root, SandboxError, Spec, failed, invalid_argument,
  on_vm,
}
use kuasar.Sandbox.Storages.{get_sandbox_shared_path}
use kuasar.Storage.{Mount}

abbrev emptied : Option String → Option String
emptied none = none
emptied (some s) = some ""

abbrev is_readonly : Option Root → Bool
is_readonly none = false
is_readonly (some r) = r.readonly

module _ {W : Type 0} (host : Host W) where
  unfoldable pub is_in_cri_mounts : String → List Mount → Bool
  is_in_cri_mounts dst mounts = any (λ m. host.clean m.destination == host.clean dst) mounts

  -- The mount of one file of the sandbox, unless the container mounts something there itself or the
  -- host has no such file.
  unfoldable pub cri_mount : String → Spec → W → String → String → List Mount
  unfolding is_in_cri_mounts
  cri_mount shared_path spec w dst filename =
      if is_in_cri_mounts dst spec.mounts
      then []
      else if host.path_exists (append shared_path (append "/" filename)) w
      then record {
        type = "bind";
        source = append "/run/kuasar/state/" filename;
        destination = dst;
        options = "rbind" ∷ "rprivate" ∷ (if is_readonly spec.root then "ro" else "rw") ∷ [];
      }
        ∷ []
      else []

  unfoldable pub container_mounts : String → Spec → W → Spec
  unfolding cri_mount
  container_mounts shared_path spec w = record spec {
    mounts =
        spec.mounts
        ++ (cri_mount shared_path spec w "/etc/hostname" "hostname"
            ++ (cri_mount shared_path spec w "/etc/hosts" "hosts"
                ++ cri_mount shared_path spec w "/etc/resolv.conf" "resolv.conf"));
  }

  unfoldable pub guest_spec : String → Spec → W → Spec
  unfolding container_mounts
  guest_spec shared_path spec w =
      container_mounts shared_path
        (record spec { apparmor_profile = emptied spec.apparmor_profile; cpus = emptied spec.cpus })
        w

  abbrev push_config : String → String → String → Call W (Unit {0})
  push_config dir text client = do
    ensure_dir host client dir
    push_file host client (append dir "/config.json") text 420

  abbrev push_if_blk : String → String → Action W (Unit {0})
  push_if_blk id text s =
      if s.storage_policy.storage_backend == "virtio-blk"
      then with_client {A = Unit {0}}
          (λ client. do
            dir ← of_result (join_guest_component "/run/kuasar/state" id)
            push_config dir text client)
          s
      else (ok tt, s)

  abbrev write_spec : String → KuasarContainer → Option Spec → Action W (Unit {0})
  write_spec id c none = fail invalid_argument
  write_spec id c (some spec) = do
    spec' ← gets λ s. guest_spec (get_sandbox_shared_path s) spec s.vm
    set_container id (with_spec c spec')
    text ← of_result (host.spec_json spec')
    on_vm (host.write_file_atomic (append c.container_data.bundle "/config.json") text)
    push_if_blk id text

  unfoldable pub handle_spec : String → Action W (Unit {0})
  handle_spec id = do c ← get_container id; write_spec id c c.container_data.spec

  abbrev removed_bundle : PathResult × W → Result SandboxError (Unit {0}) × W
  removed_bundle (done, w) = (ok tt, w)
  removed_bundle (absent, w) = (err failed, w)
  removed_bundle (refused, w) = (err failed, w)

  unfoldable pub remove_bundle : String → Action W (Unit {0})
  remove_bundle id = do
    bundle ← gets λ s. append (get_sandbox_shared_path s) (append "/" id)
    on_vm λ w. removed_bundle (host.remove_dir_all bundle w)

  abbrev pub spec_handler : String → Handler SandboxError (KuasarSandbox W)
  spec_handler id = record { handle = handle_spec id; rollback = remove_bundle id }
