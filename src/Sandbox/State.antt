-- ===== src/Sandbox/State.antt =====
-- The state of `KuasarSandbox` of vmm/sandbox/src/sandbox.rs, with the types of
-- vmm/sandbox/src/vm.rs and vmm/sandbox/src/container/mod.rs that it holds. `W` is what a sandbox
-- finds around it: its VM with the guest, and the host.
use kuasar.Prelude.{ℕ, String, Bool, Option, none, List, []}
use kuasar.Prelude.Exec.{Exec}
use kuasar.Prelude.Map.{Map}
use kuasar.Storage.{Mount, Storage}
use kuasar.Template.Pool.State.{PoolError}
use kuasar.Template.Types.{SnapshotType, TemplateLeaseMode, DiskImageEntry, WarmForkTarget}

-- The error of a call outside the model is `failed`.
pub data SandboxError : Type 0 where
  not_found already_exist invalid_argument failed panicked : SandboxError
  pool_error : PoolError → SandboxError

pub data SandboxStatus : Type 0 where
  created paused : SandboxStatus
  running : ℕ → SandboxStatus
  stopped : ℕ → ℕ → SandboxStatus

pub data MemoryRestoreMode : Type 0 where
  copy on_demand file_backend external_uffd : MemoryRestoreMode

pub record RestoreMetadata : Type 0 where
  pub template_id : Option String
  pub template_snapshot_type : Option SnapshotType
  pub lease_mode : Option TemplateLeaseMode
  pub reflink_supported : Option Bool
  pub memory_restore_mode : Option MemoryRestoreMode
  pub orphan_container_ids : List String

abbrev pub default_restore : RestoreMetadata
default_restore = record {
  template_id = none;
  template_snapshot_type = none;
  lease_mode = none;
  reflink_supported = none;
  memory_restore_mode = none;
  orphan_container_ids = [];
}

-- The streams of a process, each a path, an address or nothing.
pub record Io : Type 0 where
  pub stdin : String
  pub stdout : String
  pub stderr : String
  pub terminal : Bool

pub record Namespace : Type 0 where
  pub type : String
  pub path : String

pub record Root : Type 0 where
  pub path : String
  pub readonly : Bool

-- The part of an OCI specification that the program reads or changes.
pub record Spec : Type 0 where
  pub mounts : List Mount
  pub annotations : Map String
  pub root : Option Root
  pub namespaces : Option (List Namespace)
  pub apparmor_profile : Option String
  pub cpus : Option String

pub record ProcessData : Type 0 where
  pub id : String
  pub io : Option Io

pub record ContainerData : Type 0 where
  pub id : String
  pub spec : Option Spec
  pub rootfs : List Mount
  pub io : Option Io
  pub processes : List ProcessData
  pub bundle : String

pub record KuasarProcess : Type 0 where
  pub id : String
  pub io_devices : List String
  pub process_data : ProcessData

pub record KuasarContainer : Type 0 where
  pub id : String
  pub container_data : ContainerData
  pub io_devices : List String
  pub processes : List KuasarProcess

-- `annotations` is `none` where the sandbox has no configuration.
pub record SandboxData : Type 0 where
  pub netns : String
  pub annotations : Option (Map String)
  -- The process namespace of the pod is shared by its containers.
  pub shared_pid_namespace : Bool
  pub cpu_period : ℕ
  pub cpu_quota : ℕ
  pub task_address : String

pub record ContainerStoragePolicy : Type 0 where
  pub storage_backend : String
  pub allow_large_bind_mount : Bool
  pub enable_reflink_cow : Bool
  pub block_image_size_overhead_percent : ℕ
  pub small_dir_max_files : ℕ
  pub small_dir_max_bytes : ℕ
  pub overlay_image_fallback_size_mb : ℕ
  pub bind_image_fallback_size_mb : ℕ

pub record NetworkConfig : Type 0 where
  pub netns : String
  pub sandbox_id : String
  pub queue : ℕ

pub record Network : Type 0 where
  pub config : NetworkConfig

-- A client is the address that it is connected to.
pub record KuasarSandbox (W : Type 0) : Type 0 where
  pub vm : W
  pub id : String
  pub status : SandboxStatus
  pub base_dir : String
  pub sandbox_data : SandboxData
  pub containers : Map KuasarContainer
  pub storages : List Storage
  pub id_generator : ℕ
  pub network : Option Network
  pub client : Option String
  pub exit_signal : Bool
  pub storage_policy : ContainerStoragePolicy
  pub restore : RestoreMetadata

pub record WarmForkParams : Type 0 where
  pub task_id : Option String
  pub targets : List WarmForkTarget
  pub prepare_timeout_ms : ℕ
  pub commit_timeout_ms : ℕ

-- The paths of the guest's sockets are left to the VM.
pub record RestoreSource : Type 0 where
  pub snapshot_dir : String
  pub work_dir : String
  pub original_task_vsock : String
  pub snapshot_type : SnapshotType
  pub disk_images : List DiskImageEntry
  pub storages : List Storage
  pub orphan_container_ids : List String
  pub memory_restore_mode : MemoryRestoreMode
  pub reflink_supported : Bool
  pub lease_mode : TemplateLeaseMode
  pub warm_fork_params : Option WarmForkParams

abbrev pub Action : Type 0 → Type 0 → Type 0
Action W A = Exec SandboxError (KuasarSandbox W) A

-- A call of the surroundings.
abbrev pub Call : Type 0 → Type 0 → Type 0
Call W A = Exec SandboxError W A

unfoldable pub on_vm : {W A : Type 0} → Call W A → Action W A
on_vm m s = let (r, w) = m s.vm in (r, record s { vm = w })

-- A call that cannot fail, or whose failure is only logged where it is made.
abbrev pub effect : {W : Type 0} → (W → W) → W → W
effect f w = f w

unfoldable pub is_copy : MemoryRestoreMode → Bool
is_copy m = elim m [ copy ↦ Bool.true | _ ↦ Bool.false ]
