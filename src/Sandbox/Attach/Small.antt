-- ===== src/Sandbox/Attach/Small.antt =====
-- What the handlers of mounts share (vmm/sandbox/src/storage/mod.rs): the numbering of storages and
-- devices, the entry of a storage, and the files that are pushed one by one.
use kuasar.Prelude.{
  ℕ, ◌+◌, ◌%◌, ◌^◌, String, Bool, true, false, Option, none, some, List, [], ◌∷◌, ◌++◌, ◌==◌, any,
  if◌then◌else◌,
}
use kuasar.Prelude.Exec.{Result, ok, err, pure, fail, modify, of_result}
use kuasar.Prelude.Split.{split_on}
use kuasar.Prelude.Steps.{◌>>=◌, ◌>>◌}
use kuasar.Prelude.Text.{append, show_u32}
use kuasar.Sandbox.Devices.{
  FileType, ScannedDir, ScannedFile, block_special, char_special, directory, fifo, regular, socket,
  symlink,
}
use kuasar.Sandbox.GuestFile.{ensure_dir, ensure_dirs, join_guest_path, push_file}
use kuasar.Sandbox.Host.{Host}
use kuasar.Sandbox.State.{Action, Call, SandboxError, failed, invalid_argument, on_vm}
use kuasar.Storage.{Mount, Storage, refer}

unfoldable pub is_propagation_option : String → Bool
is_propagation_option o =
    any (λ p. p == o)
      ("shared" ∷ "rshared" ∷ "slave" ∷ "rslave" ∷ "private" ∷ "rprivate" ∷ "unbindable"
        ∷ "runbindable" ∷ [])

unfoldable pub is_read_only : Mount → Bool
is_read_only m = any (λ o. o == "ro") m.options

abbrev pub ro_options : Mount → List String
ro_options m = if is_read_only m then "ro" ∷ [] else []

-- A storage that is in the guest already, which the handlers change where theirs differs.
abbrev pub bind_storage : String → String → Mount → Storage
bind_storage id mount_point m = record {
  host_source = m.source;
  type = m.type;
  id = id;
  device_id = none;
  ref_container = [];
  need_guest_handle = false;
  source = "";
  driver = "";
  driver_options = [];
  fstype = "bind";
  options = ro_options m;
  mount_point = mount_point;
  lower_dirs = none;
  cleanup_path = none;
  owned_by_runtime = false;
  source_identity = some (append "bind:" m.source);
}

abbrev is_type_block : Option FileType → Bool
is_type_block none = false
is_type_block (some block_special) = true
is_type_block (some directory) = false
is_type_block (some regular) = false
is_type_block (some symlink) = false
is_type_block (some char_special) = false
is_type_block (some fifo) = false
is_type_block (some socket) = false

abbrev pub is_type_regular : FileType → Bool
is_type_regular regular = true
is_type_regular block_special = false
is_type_regular directory = false
is_type_regular symlink = false
is_type_regular char_special = false
is_type_regular fifo = false
is_type_regular socket = false

abbrev pub is_type_dir : Option FileType → Bool
is_type_dir none = false
is_type_dir (some directory) = true
is_type_dir (some regular) = false
is_type_dir (some block_special) = false
is_type_dir (some symlink) = false
is_type_dir (some char_special) = false
is_type_dir (some fifo) = false
is_type_dir (some socket) = false

abbrev fstype_of_line : List String → Option String
fstype_of_line (k ∷ v ∷ []) = if k == "TYPE" then some v else none
fstype_of_line kv = none

-- The lines of the output of `blkid`.
unfoldable pub fstype_in : List String → Result SandboxError String
fstype_in [] = err failed
fstype_in (l ∷ ls) = elim (fstype_of_line (split_on b'=' l)) [ some v ↦ ok v | none ↦ fstype_in ls ]

module _ {W : Type 0} where
  unfoldable pub increment_and_get_id : Action W ℕ
  increment_and_get_id s =
      let n = (s.id_generator + 1) % 2 ^ 32 in (ok n, record s { id_generator = n })

  unfoldable pub next_device_id : Action W String
  next_device_id = do n ← increment_and_get_id; pure (append "blk" (show_u32 n))

  unfoldable pub push_storage : String → Storage → Action W (Unit {0})
  push_storage container_id t =
      modify λ s. record s { storages = s.storages ++ refer container_id t ∷ [] }

  -- The client, or an error where the sandbox has none.
  abbrev pub with_client : {A : Type 0} → (String → Call W A) → Action W A
  with_client f s = elim s.client [ none ↦ (err failed, s) | some c ↦ on_vm (f c) s ]

module _ {W : Type 0} (host : Host W) where
  unfoldable pub is_block_device : String → W → Bool
  is_block_device path w = is_type_block (host.file_type path w)

  unfoldable pub get_fstype : String → Call W String
  unfolding fstype_in
  get_fstype path = do out ← host.blkid path; of_result (fstype_in (split_on b'\n' out))

  unfoldable pub push_files : String → String → List ScannedFile → Call W (Unit {0})
  push_files client dest [] = pure tt
  push_files client dest (f ∷ fs) = do
    path ← of_result (join_guest_path dest f.rel)
    content ← host.read_content f.path
    push_file host client path content f.mode
    push_files client dest fs

  abbrev inject_entries : String → String → ScannedDir → List String → Call W (Unit {0})
  inject_entries client dest scan (l ∷ ls) = fail invalid_argument
  inject_entries client dest scan [] = do
    ensure_dir host client dest
    ensure_dirs host client dest scan.dirs
    push_files client dest scan.files

  -- A symbolic link is refused before anything is written.
  unfoldable pub inject_from_scan : String → String → ScannedDir → Call W (Unit {0})
  inject_from_scan client dest scan = inject_entries client dest scan scan.symlinks

  unfoldable pub inject_small_dir :
      String → String → ScannedDir → String → Mount → Action W (Unit {0})
  inject_small_dir id container_id scan dest m = do
    with_client λ client. inject_from_scan client dest scan
    push_storage container_id (record (bind_storage id dest m) { driver = "guest-file" })
