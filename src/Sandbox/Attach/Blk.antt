-- ===== src/Sandbox/Attach/Blk.antt =====
-- The mounts of a sandbox that shares no file system with its guest
-- (vmm/sandbox/src/storage/mod.rs): images on virtio-blk, and files that are pushed.
use kuasar.Prelude.{
  ℕ, ◌%◌, String, Bool, true, false, not, ◌&&◌, Option, none, some, ◌==◌, leb, if◌then◌else◌,
}
use kuasar.Prelude.Exec.{ok, err, fail, of_result}
use kuasar.Prelude.Steps.{◌>>=◌, ◌>>◌, ignore, on_error}
use kuasar.Prelude.Text.{append}
use kuasar.Sandbox.Attach.Shared.{guest_share_dir, overlay_identity}
use kuasar.Sandbox.Attach.Small.{
  bind_storage, inject_small_dir, is_read_only, next_device_id, push_storage, ro_options,
  with_client,
}
use kuasar.Sandbox.Blocks.{
  BlockArtifact, BlockPrepareRequest, attach_block, attempt, into_storage, prepare,
}
use kuasar.Sandbox.Devices.{
  BlockFs, FileType, ScannedDir, block_special, char_special, directory, ext4, fifo, regular,
  socket, symlink, xfs,
}
use kuasar.Sandbox.GuestFile.{join_guest_component, push_file}
use kuasar.Sandbox.Host.{Host}
use kuasar.Sandbox.State.{Action, Call, KuasarSandbox, failed, invalid_argument, on_vm}
use kuasar.Storage.Graph.{extract_lower_dirs}
use kuasar.Storage.{Mount}
use kuasar.Template.Types.{TemplateLeaseMode, exclusive, shared}

abbrev is_shared : Option TemplateLeaseMode → Bool
is_shared none = false
is_shared (some exclusive) = false
is_shared (some shared) = true

-- XFS for a template that is shared, where copies by reference are on.
unfoldable pub image_fs : {W : Type 0} → KuasarSandbox W → BlockFs
image_fs s =
    if is_shared s.restore.lease_mode && s.storage_policy.enable_reflink_cow then xfs else ext4

abbrev image_path : {W : Type 0} → String → KuasarSandbox W → String
image_path id s = append s.base_dir (append "/" (append id ".img"))

module _ {W : Type 0} (host : Host W) where
  abbrev remove_dir_logged : String → Call W (Unit {0})
  remove_dir_logged path w = (ok tt, (host.remove_dir_all path w).1)

  -- The image of an overlay, which is mounted for the time of the copy only.
  unfoldable pub prepare_overlay : String → Mount → BlockPrepareRequest → Call W BlockArtifact
  prepare_overlay dir m req = do
    host.create_dir_all dir
    on_error (host.mount_rootfs m.type m.source m.options dir) (remove_dir_logged dir)
    result ← attempt (prepare host req)
    ignore (host.unmount dir)
    remove_dir_logged dir
    of_result result

  -- The image becomes a device of the VM, and the device a storage.
  unfoldable pub attach_image :
      String → String → Mount → Option String → BlockArtifact → Action W (Unit {0})
  attach_image id container_id m lower_dirs artifact = do
    device_id ← next_device_id
    attached ← on_vm (attach_block host artifact device_id (is_read_only m))
    push_storage container_id (
        into_storage attached (record {
          host_source = m.source;
          mount_type = m.type;
          storage_id = id;
          options = ro_options m;
          mount_point = append guest_share_dir id;
          lower_dirs = lower_dirs;
        }))

  unfoldable pub handle_overlay_mount_blk : String → String → Mount → Action W (Unit {0})
  handle_overlay_mount_blk id container_id m s =
      if m.source == ""
      then (err invalid_argument, s)
      else (do
        let dir = append s.base_dir (append "/overlay-" id)
        artifact ← on_vm (
            prepare_overlay dir m (record {
              src_dir = dir;
              img_path = image_path id s;
              fstype = image_fs s;
              fallback_size_mb = s.storage_policy.overlay_image_fallback_size_mb;
              overhead_percent = s.storage_policy.block_image_size_overhead_percent;
              source_identity = overlay_identity (extract_lower_dirs m.options);
              readonly = is_read_only m;
            }))
        attach_image id container_id m (extract_lower_dirs m.options) artifact)
          s

  abbrev push_bind_file : String → String → Mount → ℕ → Action W (Unit {0})
  push_bind_file id container_id m mode = do
    content ← on_vm (host.read_content m.source)
    dest ← of_result (join_guest_component "/run/kuasar/state" id)
    with_client λ client. push_file host client dest content mode
    push_storage container_id (record (bind_storage id dest m) { driver = "guest-file" })

  unfoldable pub handle_file_blk : String → String → Mount → Bool → ℕ → Action W (Unit {0})
  handle_file_blk id container_id m is_rootfs mode =
      if is_rootfs then fail invalid_argument else push_bind_file id container_id m (mode % 512)

  abbrev pub small_dir : String → String → Mount → ScannedDir → Action W (Unit {0})
  small_dir id container_id m scan = do
    dest ← of_result (join_guest_component "/run/kuasar/state" id)
    inject_small_dir host id container_id scan dest m

  abbrev pub large_dir : String → String → Mount → Action W (Unit {0})
  large_dir id container_id m s =
      (do
        artifact ← on_vm (
            prepare host (record {
              src_dir = m.source;
              img_path = image_path id s;
              fstype = image_fs s;
              fallback_size_mb = s.storage_policy.bind_image_fallback_size_mb;
              overhead_percent = s.storage_policy.block_image_size_overhead_percent;
              source_identity = some (append "bind:" m.source);
              readonly = is_read_only m;
            }))
        attach_image id container_id m none artifact)
        s

  unfoldable pub dir_by_size : String → String → Mount → Bool → ScannedDir → Action W (Unit {0})
  dir_by_size id container_id m is_rootfs scan s =
      if leb scan.file_count s.storage_policy.small_dir_max_files
        && leb scan.total_bytes s.storage_policy.small_dir_max_bytes
      then (if is_rootfs then (err invalid_argument, s) else small_dir id container_id m scan s)
      else if not s.storage_policy.allow_large_bind_mount
      then (err invalid_argument, s)
      else large_dir id container_id m s

  unfoldable pub handle_dir_blk : String → String → Mount → Bool → Action W (Unit {0})
  handle_dir_blk id container_id m is_rootfs = do
    scan ← on_vm (host.scan_dir m.source)
    dir_by_size id container_id m is_rootfs scan

  unfoldable pub bind_by_type :
      String → String → Mount → Bool → Option (FileType × ℕ) → Action W (Unit {0})
  bind_by_type id container_id m is_rootfs none = fail failed
  bind_by_type id container_id m is_rootfs (some (regular, mode)) =
      handle_file_blk id container_id m is_rootfs mode
  bind_by_type id container_id m is_rootfs (some (directory, mode)) =
      handle_dir_blk id container_id m is_rootfs
  bind_by_type id container_id m is_rootfs (some (symlink, mode)) = fail invalid_argument
  bind_by_type id container_id m is_rootfs (some (block_special, mode)) = fail invalid_argument
  bind_by_type id container_id m is_rootfs (some (char_special, mode)) = fail invalid_argument
  bind_by_type id container_id m is_rootfs (some (fifo, mode)) = fail invalid_argument
  bind_by_type id container_id m is_rootfs (some (socket, mode)) = fail invalid_argument

  unfoldable pub handle_bind_mount_blk : String → String → Mount → Bool → Action W (Unit {0})
  handle_bind_mount_blk id container_id m is_rootfs s =
      if m.source == ""
      then (err invalid_argument, s)
      else bind_by_type id container_id m is_rootfs (host.symlink_metadata m.source s.vm) s
