-- ===== src/Sandbox/Blocks.antt =====
-- Block images of directories: their preparation and removal
-- (vmm/sandbox/src/storage/block_provider.rs), and their attachment to the VM
-- (vmm/sandbox/src/storage/attach.rs).
use kuasar.Prelude.{
  ℕ, ◌+◌, ◌*◌, ◌/◌, ◌%◌, ◌^◌, max, String, Bool, true, Option, none, some, List, [],
}
use kuasar.Device.{BusType}
use kuasar.Prelude.Exec.{Exec, Result, ok, err, pure, fail}
use kuasar.Prelude.Steps.{◌>>=◌, ◌>>◌, ignore, on_error}
use kuasar.Sandbox.Devices.{
  BlockFs, DirTreeStats, as_str, block, ext4, from_bus_type, to_driver_string, xfs,
}
use kuasar.Sandbox.Host.{Host}
use kuasar.Sandbox.State.{Call, SandboxError, failed}
use kuasar.Storage.{Storage}

pub record BlockPrepareRequest : Type 0 where
  pub src_dir : String
  pub img_path : String
  pub fstype : BlockFs
  pub fallback_size_mb : ℕ
  pub overhead_percent : ℕ
  pub source_identity : Option String
  pub readonly : Bool

pub record BlockArtifact : Type 0 where
  pub path : String
  pub fstype : String
  pub readonly : Bool
  pub owned_by_runtime : Bool
  pub cleanup_path : Option String
  pub source_identity : Option String

-- On `u64`, whose product wraps around.
unfoldable pub apply_overhead : ℕ → ℕ → ℕ
apply_overhead base overhead_percent = (base * (100 + overhead_percent)) % 2 ^ 64 / 100

abbrev pub min_ext4_inodes : ℕ
min_ext4_inodes = 1024

unfoldable pub ext4_inode_count : DirTreeStats → ℕ → ℕ
unfolding apply_overhead
ext4_inode_count s overhead_percent =
    max (apply_overhead (max s.entries 1) overhead_percent) min_ext4_inodes

abbrev pub base_size : BlockPrepareRequest → Result SandboxError DirTreeStats → ℕ
base_size req (ok s) = s.size_mb
base_size req (err e) = req.fallback_size_mb

abbrev pub inodes : BlockPrepareRequest → Result SandboxError DirTreeStats → ℕ
inodes req (ok s) = ext4_inode_count s req.overhead_percent
inodes req (err e) = min_ext4_inodes

unfoldable pub image_size : BlockPrepareRequest → Result SandboxError DirTreeStats → ℕ
unfolding apply_overhead
image_size req stats =
    max (apply_overhead (base_size req stats) req.overhead_percent) req.fallback_size_mb

unfoldable pub artifact_of : BlockPrepareRequest → BlockArtifact
artifact_of req = record {
  path = req.img_path;
  fstype = as_str req.fstype;
  readonly = req.readonly;
  owned_by_runtime = true;
  cleanup_path = some req.img_path;
  source_identity = req.source_identity;
}

-- What a call answers, with no error of its own.
unfoldable pub attempt : {E S A : Type 0} → Exec E S A → Exec E S (Result E A)
attempt m s = let (r, s') = m s in (ok r, s')

pub record AttachedBlock : Type 0 where
  pub artifact : BlockArtifact
  pub device_id : String
  pub bus_type : BusType
  pub guest_addr : String

pub record BlockStorageMetadata : Type 0 where
  pub host_source : String
  pub mount_type : String
  pub storage_id : String
  pub options : List String
  pub mount_point : String
  pub lower_dirs : Option String

unfoldable pub into_storage : AttachedBlock → BlockStorageMetadata → Storage
unfolding from_bus_type to_driver_string
into_storage a meta = record {
  host_source = meta.host_source;
  type = meta.mount_type;
  id = meta.storage_id;
  device_id = some a.device_id;
  ref_container = [];
  need_guest_handle = true;
  source = a.guest_addr;
  driver = to_driver_string (from_bus_type a.bus_type);
  driver_options = [];
  fstype = a.artifact.fstype;
  options = meta.options;
  mount_point = meta.mount_point;
  lower_dirs = meta.lower_dirs;
  cleanup_path = a.artifact.cleanup_path;
  owned_by_runtime = a.artifact.owned_by_runtime;
  source_identity = a.artifact.source_identity;
}

module _ {W : Type 0} (host : Host W) where
  abbrev make_image : BlockPrepareRequest → BlockFs → ℕ → ℕ → Call W (Unit {0})
  make_image req ext4 size count = do
    host.create_ext4_image req.img_path size count
    host.copy_dir_to_loop_image req.src_dir req.img_path ext4
  make_image req xfs size count = do
    host.create_xfs_image req.img_path size
    host.copy_dir_to_loop_image req.src_dir req.img_path xfs

  -- `remove_file`, whose failure is only logged.
  abbrev pub drop_image : String → Call W (Unit {0})
  drop_image path w = (ok tt, (host.remove_file path w).1)

  unfoldable pub prepare : BlockPrepareRequest → Call W BlockArtifact
  prepare req = do
    stats ← attempt (host.estimate_dir_tree_stats req.src_dir)
    on_error (make_image req req.fstype (image_size req stats) (inodes req stats))
        (drop_image req.img_path)
    pure (artifact_of req)

  abbrev release_path : Option String → Call W (Unit {0})
  release_path none = fail failed
  release_path (some path) = drop_image path

  unfoldable pub release : BlockArtifact → Call W (Unit {0})
  release a = elim a.owned_by_runtime [ true ↦ release_path a.cleanup_path | _ ↦ pure tt ]

  -- `BlockAttachTransaction::attach`: a device that is refused gives its artifact back.
  unfoldable pub attach_block : BlockArtifact → String → Bool → Call W AttachedBlock
  attach_block artifact device_id read_only = do
    bus_addr ←
        on_error
          (host.hot_attach
            (block (record { id = device_id; path = artifact.path; read_only = read_only })))
          (ignore (release artifact))
    pure (record {
      artifact = artifact;
      device_id = device_id;
      bus_type = bus_addr.0;
      guest_addr = bus_addr.1;
    })
