-- ===== src/Sandbox/Attach/Shared.antt =====
-- The mounts that the host shares with the guest, and the block devices and memory file systems that
-- the guest mounts itself (vmm/sandbox/src/storage/mod.rs).
use kuasar.Prelude.{String, not, ◌||◌, Option, none, some, ◌++◌, ◌==◌, retain, if◌then◌else◌, true}
use kuasar.Prelude.Exec.{err, fail, gets}
use kuasar.Prelude.Split.{starts_with}
use kuasar.Prelude.Steps.{◌>>=◌, ◌>>◌}
use kuasar.Prelude.Text.{append}
use kuasar.Sandbox.Attach.Small.{
  bind_storage, get_fstype, is_propagation_option, is_read_only, is_type_dir, is_type_regular,
  next_device_id, push_storage, ro_options,
}
use kuasar.Sandbox.Devices.{FileType, block, from_bus_type, to_driver_string}
use kuasar.Sandbox.Host.{Host}
use kuasar.Sandbox.State.{Action, Call, KuasarSandbox, failed, invalid_argument, on_vm}
use kuasar.Sandbox.Storages.{get_sandbox_shared_path}
use kuasar.Storage.Graph.{extract_lower_dirs}
use kuasar.Storage.MountInfo.{MountInfo}
use kuasar.Storage.{Mount}

abbrev pub guest_share_dir : String
guest_share_dir = "/run/kuasar/storage/containers/"

abbrev pub overlay_identity : Option String → Option String
overlay_identity none = none
overlay_identity (some lower) = some (append "overlay:" lower)

abbrev shared_dest : {W : Type 0} → String → KuasarSandbox W → String
shared_dest id s = append (append (get_sandbox_shared_path s) "/") id

unfoldable pub handle_tmpfs_mount :
    {W : Type 0} → String → String → Mount → MountInfo → Action W (Unit {0})
handle_tmpfs_mount id container_id m info =
    push_storage container_id (record (bind_storage id (append guest_share_dir id) m) {
      need_guest_handle = true;
      source = "tmpfs";
      driver = "ephemeral";
      fstype = "tmpfs";
      options =
          ro_options m
          ++ retain (λ o. starts_with o "size=" || is_propagation_option o) info.options;
      source_identity = some (append "tmpfs:" m.source);
    })

module _ {W : Type 0} (host : Host W) where
  -- The type of the file system is looked up after the device was attached.
  unfoldable pub handle_block_device : String → String → Mount → Action W (Unit {0})
  handle_block_device id container_id m s =
      if m.source == ""
      then (err invalid_argument, s)
      else (do
        device_id ← next_device_id
        bus_addr ← on_vm (
            host.hot_attach
              (block (record { id = device_id; path = m.source; read_only = is_read_only m })))
        fstype ← on_vm (get_fstype host m.source)
        push_storage container_id (record (bind_storage id (append guest_share_dir id) m) {
          device_id = some device_id;
          need_guest_handle = true;
          source = bus_addr.1;
          driver = to_driver_string (from_bus_type bus_addr.0);
          fstype = fstype;
          source_identity = some (append "block:" m.source);
        }))
          s

  abbrev regular_or_refuse : Option FileType → Call W (Unit {0}) → Call W (Unit {0})
  regular_or_refuse none make = fail failed
  regular_or_refuse (some t) make = if is_type_regular t then make else fail invalid_argument

  -- The target of a bind mount: a directory for a directory, and else a file.
  abbrev make_target : String → String → Call W (Unit {0})
  make_target source dest w =
      if is_type_dir (host.file_type source w)
      then host.create_dir_all dest w
      else regular_or_refuse (host.file_type source w) (host.create_file dest) w

  unfoldable pub handle_bind_mount : String → String → Mount → Action W (Unit {0})
  handle_bind_mount id container_id m s =
      if m.source == ""
      then (err invalid_argument, s)
      else (do
        dest ← gets (shared_dest id)
        on_vm (make_target m.source dest)
        on_vm
            (host.bind_mount m.source dest (retain (λ o. not (is_propagation_option o)) m.options))
        push_storage container_id (bind_storage id (append "/run/kuasar/state/" id) m))
          s

  unfoldable pub handle_overlay_mount : String → String → Mount → Action W (Unit {0})
  handle_overlay_mount id container_id m s =
      if m.source == ""
      then (err invalid_argument, s)
      else (do
        dest ← gets (shared_dest id)
        on_vm (host.create_dir_all dest)
        on_vm (host.mount_rootfs m.type m.source m.options dest)
        push_storage container_id (record (bind_storage id (append "/run/kuasar/state/" id) m) {
          lower_dirs = extract_lower_dirs m.options;
          source_identity = overlay_identity (extract_lower_dirs m.options);
        }))
          s
