-- ===== src/Sandbox/Attach.antt =====
-- The attaching of a mount to a sandbox (vmm/sandbox/src/storage/mod.rs): a storage of the sandbox
-- is used again where one serves the mount, and else a new one is made.
pub mod Small
pub mod Shared
pub mod Blk
pub mod Stable
pub mod Keeping
pub mod Others
use kuasar.Prelude.{
  ℕ, zero, suc, String, Bool, not, ◌&&◌, Option, none, some, List, [], ◌∷◌, ◌==◌, retain,
  if◌then◌else◌,
}
use kuasar.Prelude.Exec.{Result, ok, err, pure, fail, modify}
use kuasar.Prelude.Split.{contains_text}
use kuasar.Prelude.Steps.{◌>>=◌, ◌>>◌}
use kuasar.Prelude.Text.{append, show_u32}
use kuasar.Sandbox.Attach.Blk.{handle_bind_mount_blk, handle_overlay_mount_blk}
use kuasar.Sandbox.Attach.Shared.{
  handle_bind_mount, handle_block_device, handle_overlay_mount, handle_tmpfs_mount,
}
use kuasar.Sandbox.Attach.Small.{increment_and_get_id, is_block_device, with_client}
use kuasar.Sandbox.Host.{Host}
use kuasar.Sandbox.State.{Action, Call, KuasarSandbox, SandboxError, failed, on_vm}
use kuasar.Storage.Graph.{
  find_orphan_for_mount, find_reusable_index, is_bind, is_bind_shm, is_overlay,
}
use kuasar.Storage.MountInfo.{MountInfo, parse_mount_info_content}
use kuasar.Storage.{Mount, Storage, defer, refer}

abbrev pub modify_at : {A : Type 0} → ℕ → (A → A) → List A → List A
modify_at n f [] = []
modify_at zero f (x ∷ xs) = f x ∷ xs
modify_at (suc n) f (x ∷ xs) = x ∷ modify_at n f xs

-- `find_reusable_storage`, and a change of what it finds.
unfoldable pub update_reusable : Mount → Bool → (Storage → Storage) → List Storage → List Storage
update_reusable m is_rootfs f ss = elim (find_reusable_index ss m is_rootfs) [
  | none ↦ ss
  | some i ↦ modify_at i f ss
]

module _ {W : Type 0} where
  -- The orphan's storage goes to the container, and the orphan is one no more.
  unfoldable pub take_over : String → String → Mount → Bool → KuasarSandbox W → KuasarSandbox W
  take_over orphan container_id m is_rootfs s = record s {
    storages = update_reusable m is_rootfs (λ t. refer container_id (defer orphan t)) s.storages;
    restore = record s.restore {
      orphan_container_ids = retain (λ id. not (id == orphan)) s.restore.orphan_container_ids;
    };
  }

  unfoldable pub refer_reusable : String → Mount → ℕ → Action W (Unit {0})
  refer_reusable container_id m i =
      modify λ s. record s { storages = modify_at i (refer container_id) s.storages }

  unfoldable pub orphan_match : Mount → Bool → KuasarSandbox W → Option (String × String)
  orphan_match m is_rootfs s = elim s.restore.orphan_container_ids [
    | [] ↦ none
    | o ∷ os ↦ find_orphan_for_mount s.storages (o ∷ os) m is_rootfs
  ]

module _ {W : Type 0} (host : Host W) where
  abbrev info_or_none : String → String → Call W (Option MountInfo)
  info_or_none mount_point text w = (parse_mount_info_content text mount_point, w)

  unfoldable pub get_mount_info : String → Call W (Option MountInfo)
  get_mount_info mount_point w =
      if mount_point == ""
      then (ok none, w)
      else (do text ← host.mountinfo; info_or_none mount_point text) w

  abbrev pub is_tmpfs_empty_dir : MountInfo → Bool
  is_tmpfs_empty_dir mi =
      mi.fs_type == "tmpfs" && contains_text mi.mount_point "kubernetes.io~empty-dir"

  unfoldable pub handle_bind : String → String → Mount → Bool → Action W (Unit {0})
  handle_bind id container_id m is_rootfs s =
      if s.storage_policy.storage_backend == "virtio-blk"
      then handle_bind_mount_blk host id container_id m is_rootfs s
      else handle_bind_mount host id container_id m s

  unfoldable pub handle_overlay : String → String → Mount → Action W (Unit {0})
  handle_overlay id container_id m s =
      if s.storage_policy.storage_backend == "virtio-blk"
      then handle_overlay_mount_blk host id container_id m s
      else handle_overlay_mount host id container_id m s

  unfoldable pub handle_other : String → String → Mount → Bool → Action W (Unit {0})
  handle_other id container_id m is_rootfs =
      if is_bind_shm m
      then pure tt
      else if is_bind m
      then handle_bind id container_id m is_rootfs
      else if is_overlay m
      then handle_overlay id container_id m
      else pure tt

  abbrev pub by_info : String → String → Mount → Bool → Option MountInfo → Action W (Unit {0})
  by_info id container_id m is_rootfs none = handle_other id container_id m is_rootfs
  by_info id container_id m is_rootfs (some mi) =
      if is_tmpfs_empty_dir mi
      then handle_tmpfs_mount id container_id m mi
      else handle_other id container_id m is_rootfs

  unfoldable pub handle_empty_dir : String → String → Mount → Bool → Action W (Unit {0})
  handle_empty_dir id container_id m is_rootfs = do
    info ← on_vm (get_mount_info m.source)
    by_info id container_id m is_rootfs info

  unfoldable pub handle_new : String → String → Mount → Bool → Action W (Unit {0})
  handle_new id container_id m is_rootfs s =
      if is_block_device host m.source s.vm
      then handle_block_device host id container_id m s
      else if contains_text m.source "kubernetes.io~empty-dir"
      then handle_empty_dir id container_id m is_rootfs s
      else handle_other id container_id m is_rootfs s

  unfoldable pub attach_new : String → Mount → Bool → Action W (Unit {0})
  attach_new container_id m is_rootfs = do
    n ← increment_and_get_id
    handle_new (append "storage" (show_u32 n)) container_id m is_rootfs

  unfoldable pub call_adopt_container : String → String → Action W (Unit {0})
  call_adopt_container old_id new_id =
      with_client λ client. host.adopt_container client old_id new_id

  unfoldable pub adopt : String → String → Mount → Bool → Action W (Unit {0})
  adopt orphan container_id m is_rootfs = do
    call_adopt_container orphan container_id
    modify (take_over orphan container_id m is_rootfs)

  abbrev attach_unadopted : String → Mount → Bool → Option ℕ → Action W (Unit {0})
  attach_unadopted container_id m is_rootfs none = attach_new container_id m is_rootfs
  attach_unadopted container_id m is_rootfs (some i) = refer_reusable container_id m i

  abbrev pub attach_by :
      String → Mount → Bool → Option (String × String) → Option ℕ → Action W (Unit {0})
  attach_by container_id m is_rootfs (some (orphan, id)) i = adopt orphan container_id m is_rootfs
  attach_by container_id m is_rootfs none i = attach_unadopted container_id m is_rootfs i

  unfoldable pub attach_storage : String → Mount → Bool → Action W (Unit {0})
  attach_storage container_id m is_rootfs s =
      attach_by container_id m is_rootfs (orphan_match m is_rootfs s)
        (find_reusable_index s.storages m is_rootfs) s
