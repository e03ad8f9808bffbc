-- ===== src/Template/Types.antt =====
-- vmm/sandbox/src/template/types.rs, with the types of vmm/sandbox/src/vm.rs and
-- vmm/sandbox/src/sandbox.rs that a template holds. A `PathBuf` is its text.
use kuasar.Prelude.{ℕ, String, Bool, true, false, Option, none, some, List, ◌==◌, if◌then◌else◌}
use kuasar.Prelude.Map.{Map}
use kuasar.Storage.{Storage}

pub data SnapshotType : Type 0 where
  environment warm_fork continuation : SnapshotType

pub data TemplateLeaseMode : Type 0 where
  shared exclusive : TemplateLeaseMode

unfoldable pub from_annotation : String → Option SnapshotType
from_annotation value =
    if value == "warm-fork"
    then some warm_fork
    else if value == "warm_fork"
    then some warm_fork
    else if value == "continuation"
    then some continuation
    else none

unfoldable pub requires_network_hotplug : SnapshotType → Bool
requires_network_hotplug environment = true
requires_network_hotplug warm_fork = true
requires_network_hotplug continuation = false

-- `==` and the comparison of discriminants.
abbrev pub same_type : SnapshotType → SnapshotType → Bool
same_type environment environment = true
same_type warm_fork warm_fork = true
same_type continuation continuation = true
same_type _ _ = false

abbrev pub is_shared : TemplateLeaseMode → Bool
is_shared shared = true
is_shared exclusive = false

pub record WorkloadIdentity : Type 0 where
  pub pod_uid : String
  pub generation : ℕ

pub record SnapshotContainerMeta : Type 0 where
  pub id : String
  pub lower_dirs : String
  pub storage_id : String
  pub device_id : String
  pub img_path : String

pub record TemplateKey : Type 0 where
  pub key : String

pub record DiskImageEntry : Type 0 where
  pub storage_id : String
  pub device_id : String
  pub filename : String

pub record WarmForkTarget : Type 0 where
  pub container_name : String
  pub container_id : String
  pub socket_path : String
  pub env_overrides : Map String
  pub context : String

pub record PooledTemplate : Type 0 where
  pub id : String
  pub key : TemplateKey
  pub snapshot_dir : String
  pub pmem_path : String
  pub kernel_path : String
  pub vcpus : ℕ
  pub memory_mb : ℕ
  pub created_at_secs : ℕ
  pub original_task_vsock : String
  pub original_console_path : String
  pub hypervisor_api_version : String
  pub snapshot_type : SnapshotType
  pub id_generator : ℕ
  pub disk_images : List DiskImageEntry
  pub storages : List Storage
  pub orphan_container_ids : List String
  pub snapshot_containers : List SnapshotContainerMeta
  pub ready_protocol_version : Option String
  pub workload_identity : Option WorkloadIdentity
  pub warm_fork_targets : List WarmForkTarget
