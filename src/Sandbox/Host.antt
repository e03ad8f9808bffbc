-- ===== src/Sandbox/Host.antt =====
-- What a sandbox of vmm/sandbox/src/sandbox.rs asks of its surroundings: the VM (the trait `VM` of
-- vmm/sandbox/src/vm.rs), the guest agent, the network and the host. Each answer may depend on
-- everything that happened there before.
use kuasar.Prelude.{ℕ, String, Bool, Option, List}
use kuasar.Device.{BusType}
use kuasar.Sandbox.Devices.{BlockFs, DeviceInfo, DirTreeStats, FileType, ScannedDir}
use kuasar.Sandbox.State.{
  Action, Call, Io, KuasarSandbox, Network, SandboxError, Spec, NetworkConfig, RestoreSource,
  SandboxData, WarmForkParams,
}
use kuasar.Prelude.Exec.{Result}
use kuasar.Storage.{Storage}
use kuasar.WarmFork.Talk.{ContainerInjectResult}

-- The kinds of failure that the program tells apart when it opens or removes a path.
pub data PathResult : Type 0 where
  done absent refused : PathResult

pub record Host (W : Type 0) : Type 0 where
  -- The VM.
  pub vm_start : Call W ℕ
  pub vm_stop : Bool → Call W (Unit {0})
  pub vm_restore : RestoreSource → Call W (Unit {0})
  pub vm_recover : Call W (Unit {0})
  pub hot_attach : DeviceInfo → Call W (BusType × String)
  pub hot_detach : String → Call W (Unit {0})
  pub hotplug_pending_network : Call W (Unit {0})
  pub vcpus : Call W (List ℕ)
  pub vmm_pid : W → Option ℕ
  pub affiliated_pids : W → List ℕ
  pub socket_address : W → String
  -- The client and the requests to the guest agent.
  pub new_sandbox_client : String → Call W (Unit {0})
  pub new_sandbox_client_fail_fast : String → Call W (Unit {0})
  pub client_check : String → Call W (Unit {0})
  pub client_setup_sandbox : String → SandboxData → Option Network → Call W (Unit {0})
  pub client_sync_clock : String → W → W
  pub client_reseed_entropy : String → W → W
  pub update_interfaces : String → Network → Call W (Unit {0})
  pub update_routes : String → Network → Call W (Unit {0})
  pub has_interfaces : Network → Bool
  pub has_routes : Network → Bool
  pub inject_task : String → WarmForkParams → Call W (List ContainerInjectResult)
  pub adopt_container : String → String → String → Call W (Unit {0})
  -- A command that is run in the guest, with its input.
  pub exec_vm_process : String → String → String → Call W (Unit {0})
  pub get_events : String → W → W
  -- The network of a pod.
  pub network_new : NetworkConfig → Call W Network
  pub network_attach : Network → Call W (Unit {0})
  pub network_destroy : Network → W → W
  -- Files, mounts and control groups of the host.
  pub read_file : String → W → Option String
  pub remove_dir_all : String → W → PathResult × W
  pub remove_dir : String → W → PathResult × W
  pub remove_file : String → W → PathResult × W
  pub is_dir : String → W → Bool
  -- The type of the file that a path leads to, and that of the path itself with its mode; `none`
  -- is a failed lookup.
  pub file_type : String → W → Option FileType
  pub symlink_metadata : String → W → Option (FileType × ℕ)
  pub path_exists : String → W → Bool
  pub read_content : String → Call W String
  pub write_file_atomic : String → String → Call W (Unit {0})
  pub create_dir_all : String → Call W (Unit {0})
  pub create_file : String → Call W (Unit {0})
  -- `serde_json::to_string`, which may fail, and `path_clean::clean`.
  pub spec_json : Spec → Result SandboxError String
  pub io_json : Option Io → Result SandboxError String
  pub storages_json : List Storage → Result SandboxError String
  pub clean : String → String
  -- The text of `/proc/self/mountinfo`, and the output of `blkid` for a device.
  pub mountinfo : Call W String
  pub blkid : String → Call W String
  pub bind_mount : String → String → List String → Call W (Unit {0})
  pub mount_rootfs : String → String → List String → String → Call W (Unit {0})
  -- The walks over a directory, and the tools that make an image.
  pub scan_dir : String → Call W ScannedDir
  pub estimate_dir_tree_stats : String → Call W DirTreeStats
  pub create_ext4_image : String → ℕ → ℕ → Call W (Unit {0})
  pub create_xfs_image : String → ℕ → Call W (Unit {0})
  pub copy_dir_to_loop_image : String → String → BlockFs → Call W (Unit {0})
  pub unmount : String → Call W (Unit {0})
  pub cleanup_mounts : String → Call W (Unit {0})
  pub open_dump : String → W → PathResult × W
  pub write_dump : String → KuasarSandbox W → Call W (Unit {0})
  pub cgroup2 : Bool
  pub add_process : ℕ → Option (List ℕ) → Call W (Unit {0})
  pub remove_cgroups : String → Call W (Unit {0})
  pub create_cgroups : String → Call W (Unit {0})
  -- `setup_sandbox_files`, which writes the host's copies of the configuration files.
  pub setup_sandbox_files : String → SandboxData → Call W (Unit {0})

-- The trait `Hooks` of vmm/sandbox/src/vm.rs.
pub record Hooks (W : Type 0) : Type 0 where
  pub post_create : Action W (Unit {0})
  pub pre_start : Action W (Unit {0})
  pub post_start : Action W (Unit {0})
  pub pre_stop : Action W (Unit {0})
  pub post_stop : Action W (Unit {0})
