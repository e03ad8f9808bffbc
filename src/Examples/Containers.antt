-- ===== src/Examples/Containers.antt =====
-- The theorems on the mounts, the storages and the containers of a sandbox, at concrete states.
use kuasar.Prelude.{
  Option, All, ℕ, ◌+◌, ◌-◌, ◌==◌, String, true, false, ◌≡◌, refl, none, some, [], ◌∷◌,
}
use kuasar.Container.Chain.{Handler, handle_chain, rollback_all}
use kuasar.Container.Entry.{handle_storages}
use kuasar.Container.Forgetting.{append_container-forgets}
use kuasar.Container.Roots.{attach_storage-root, root_path}
use kuasar.Container.Unwinding.{handle_chain-unwinds, rolled_back}
use kuasar.Container.Update.{append_container}
use kuasar.Examples.Hosts.{good_host, pinned_restore, sandbox}
use kuasar.Prelude.Exec.{ok, err}
use kuasar.Prelude.Map
use kuasar.Prelude.Steps.{Ends}
use Prim.Native.String.{◌∷◌ as char_before}
use kuasar.Prelude.Text.{append}
use kuasar.Sandbox.Attach.{attach_storage}
use kuasar.Sandbox.Attach.Others.{attach_storage-others, owned}
use kuasar.Sandbox.GuestFile.{shell_quote}
use kuasar.Sandbox.GuestFile.Quoting.{plain, read_word, read_word-shell_quote}
use kuasar.Sandbox.Host.{Host}
use kuasar.Sandbox.State.{ContainerData, KuasarContainer, KuasarSandbox, Spec, failed}
use kuasar.Prelude.Split.{split_on, split_commas, split_whitespace, starts_with}
use kuasar.Storage.MountInfo.Origin.{AmongLines}
use kuasar.Storage.MountInfo.{
  MountInfo, at_separator, entry_of, fields_of, is_parent_or_eq, parse_mount_info_content,
  step_line, propagation, push_options,
}
use kuasar.Storage.MountInfo.Longest.{covers, holds_path, within, parse_mount_info_content-longest}
use kuasar.Storage.{Mount, Storage, is_for_mount}

read_word-shell_quote_example :
    read_word plain (append (shell_quote "it's") (char_before " " "tail"))
    ≡ some ("it's", char_before " " "tail")
read_word-shell_quote_example = read_word-shell_quote "it's" "tail"

abbrev bind : Mount
bind = record { type = "bind"; source = "/data"; options = "rbind" ∷ []; destination = "/mnt" }

abbrev root_mount : Mount
root_mount = record {
  type = "overlay";
  source = "overlay";
  options = "lowerdir=/b" ∷ [];
  destination = "";
}

-- The root of the container `d`.
abbrev other_root : Storage
other_root = record {
  host_source = "overlay";
  type = "overlay";
  id = "storage1";
  source_identity = none;
  device_id = none;
  ref_container = ("d", 1) ∷ [];
  need_guest_handle = false;
  source = "";
  driver = "";
  driver_options = [];
  fstype = "bind";
  options = [];
  mount_point = "/run/kuasar/storage/containers/storage1";
  lower_dirs = none;
  cleanup_path = none;
  owned_by_runtime = true;
}

abbrev spec : Spec
spec = record {
  mounts = [];
  annotations = [];
  root = some (record { path = "rootfs"; readonly = false });
  namespaces = none;
  apparmor_profile = none;
  cpus = none;
}

abbrev data_of : String → ContainerData
data_of id = record {
  id = id;
  spec = some spec;
  rootfs = root_mount ∷ [];
  io = none;
  processes = [];
  bundle = "/bundle";
}

abbrev container : String → KuasarContainer
container id = record { id = id; container_data = data_of id; io_devices = []; processes = [] }

abbrev two_containers : KuasarSandbox ℕ
two_containers = record (sandbox pinned_restore) {
  containers = ("c", container "c") ∷ ("d", container "d") ∷ [];
  storages = other_root ∷ [];
}

attach_storage-others_example :
    owned "d" (attach_storage good_host "c" bind false two_containers).1.storages
    ≡ owned "d" two_containers.storages
unfolding ◌==◌
attach_storage-others_example =
    attach_storage-others good_host "c" "d" refl bind false two_containers refl

-- The container `c` gets the root of the container `d`, since both are overlays.
attach_storage-root_example :
    Ends
      (λ a t. root_path "c" t ≡ some "/run/kuasar/storage/containers/storage1")
      (λ t. Unit {0})
      (handle_storages good_host "c"
        (attach_storage good_host "c" root_mount true two_containers).1)
unfolding Map.get ◌==◌ is_for_mount
attach_storage-root_example =
    attach_storage-root good_host "c" root_mount (container "c") spec
      (record { path = "rootfs"; readonly = false }) refl refl refl true two_containers refl refl

-- Each handler adds its number to the sum, and takes it off again.
abbrev adds : ℕ → Handler ℕ ℕ
adds n = record { handle = λ s. (ok tt, s + n); rollback = λ s. (ok tt, s - n) }

abbrev fails : Handler ℕ ℕ
fails = record { handle = λ s. (err 7, s + 100); rollback = λ s. (ok tt, 0) }

handle_chain-unwinds_example :
    handle_chain (adds 1 ∷ adds 2 ∷ fails ∷ adds 3 ∷ []) 0
    ≡ (err 7, rollback_all (rolled_back (adds 1 ∷ adds 2 ∷ []) fails) 103)
handle_chain-unwinds_example =
    handle_chain-unwinds (adds 1 ∷ adds 2 ∷ []) (adds 3 ∷ []) fails 0 (1, (refl, (3, (refl, refl))))
      refl

abbrev full_host : Host ℕ
full_host = record good_host { create_dir_all = λ path n. (err failed, n) }

append_container-forgets_example : append_container full_host "c" (data_of "c") two_containers ≡ (
  err failed,
  record two_containers { vm = 0; containers = Map.delete "c" two_containers.containers },
)
append_container-forgets_example =
    append_container-forgets full_host "c" (data_of "c") two_containers refl

abbrev mounts : String
mounts = "1 0 0:1 / / rw shared:1 - ext4 /dev/sda rw\n2 1 0:2 / /mnt rw - tmpfs tmpfs rw"

abbrev found : Option MountInfo
found = some (record { mount_point = "/mnt"; fs_type = "tmpfs"; options = "rw" ∷ "private" ∷ [] })

parse_mount_info_content-longest_example :
    AmongLines found (fields_of (split_on b'\n' mounts))
    × (All (λ l. within (covers "/mnt/a" l) found ≡ true) (fields_of (split_on b'\n' mounts))
        × (holds_path "/mnt/a" found ≡ true))
unfolding parse_mount_info_content split_on split_commas step_line split_whitespace is_parent_or_eq
    ◌==◌ entry_of at_separator starts_with append propagation push_options
parse_mount_info_content-longest_example = parse_mount_info_content-longest mounts "/mnt/a" refl
