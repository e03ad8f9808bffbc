-- ===== src/Sandbox/Attach/Stable.antt =====
-- What the attaching of a mount leaves as it is (vmm/sandbox/src/storage/mod.rs): a property of
-- sandboxes that survives each of the few changes that are made to a sandbox survives the whole.
use kuasar.Sandbox.Attach.Blk.{
  small_dir, large_dir, bind_by_type, attach_image, handle_overlay_mount_blk, handle_file_blk,
  dir_by_size, handle_dir_blk, handle_bind_mount_blk,
}
use kuasar.Sandbox.Devices.{
  FileType, ScannedDir, block_special, char_special, directory, fifo, regular, socket, symlink,
}
use kuasar.Sandbox.Blocks.{BlockArtifact, into_storage}
use kuasar.Prelude.{
  ℕ, String, Option, none, some, [], ◌∷◌, ◌++◌, ◌==◌, not, Bool, true, false, if◌then◌else◌, leb,
  ◌&&◌, ◌≡◌, refl,
}
use kuasar.Prelude.Exec.{Keeps, Result, err, if-keeps, of_result, pure-Keeps, fail-Keeps}
use kuasar.Prelude.Steps.{bind-Keeps, then-Keeps}
use kuasar.Sandbox.Attach.Shared.{
  handle_bind_mount, handle_block_device, handle_overlay_mount, handle_tmpfs_mount,
}
use kuasar.Sandbox.Attach.Small.{
  increment_and_get_id, inject_small_dir, next_device_id, push_storage, with_client,
}
use kuasar.Sandbox.Host.{Host}
use kuasar.Sandbox.State.{Call, KuasarSandbox, SandboxError, on_vm, Action}
use kuasar.Storage.{Mount, Storage, refer}
use kuasar.Storage.MountInfo.{MountInfo}

pub record Stable {W : Type 0} (P : KuasarSandbox W → Type 0) (container_id : String) : Type 0 where
  pub vm : (s : KuasarSandbox W) (w : W) → P s → P (record s { vm = w })
  pub number : (s : KuasarSandbox W) (n : ℕ) → P s → P (record s { id_generator = n })
  pub push :
      (s : KuasarSandbox W) (t : Storage)
      → t.ref_container ≡ []
      → P s
      → P (record s { storages = s.storages ++ refer container_id t ∷ [] })

pub if-Keeps :
    {W : Type 0} {P : KuasarSandbox W → Type 0} (b : Bool) (m n : Action W (Unit {0}))
    → Keeps P m
    → Keeps P n
    → Keeps P (if b then m else n)
if-Keeps true m n k l = k
if-Keeps false m n k l = l

module _ {W : Type 0} {P : KuasarSandbox W → Type 0} {c : String} (k : Stable P c) where
  pub on_vm-Keeps : {A : Type 0} (m : Call W A) → Keeps P (on_vm m)
  unfolding on_vm
  on_vm-Keeps m = record { from = λ s h. k.vm s (m s.vm).1 h }

  client_option :
      {A : Type 0} (f : String → Call W A) (s : KuasarSandbox W) (o : Option String)
      → P s
      → P
          (elim o as (λ x. Result SandboxError A × KuasarSandbox W) [
            | none ↦ (err SandboxError.failed, s)
            | some a ↦ on_vm (f a) s
          ]).1
  client_option f s none h = h
  client_option f s (some a) h = (on_vm-Keeps (f a)).from s h

  with_client-Keeps : {A : Type 0} (f : String → Call W A) → Keeps P (with_client f)
  with_client-Keeps f = record { from = λ s h. client_option f s s.client h }

  pub increment-Keeps : Keeps P (increment_and_get_id)
  unfolding increment_and_get_id
  increment-Keeps = record { from = λ s h. k.number s _ h }

  next_device_id-Keeps : Keeps P next_device_id
  unfolding next_device_id
  next_device_id-Keeps = bind-Keeps P _ _ increment-Keeps λ n. pure-Keeps P _

  push_storage-Keeps : (t : Storage) → t.ref_container ≡ [] → Keeps P (push_storage c t)
  unfolding push_storage
  push_storage-Keeps t e = record { from = λ s h. k.push s t e h }

  of_result-Keeps : {A : Type 0} (r : Result SandboxError A) → Keeps P (of_result r)
  of_result-Keeps r = record { from = λ s h. h }

  pub handle_tmpfs-Keeps :
      (id : String) (m : Mount) (i : MountInfo) → Keeps P (handle_tmpfs_mount id c m i)
  unfolding handle_tmpfs_mount
  handle_tmpfs-Keeps id m i = push_storage-Keeps _ refl

module _ {W : Type 0} (host : Host W) {P : KuasarSandbox W → Type 0} {c : String}
    (k : Stable P c) where
  inject_small_dir-Keeps :
      (id : String) (scan : _) (dest : String) (m : Mount)
      → Keeps P (inject_small_dir host id c scan dest m)
  unfolding inject_small_dir
  inject_small_dir-Keeps id scan dest m =
      then-Keeps P _ _ (with_client-Keeps k _) (push_storage-Keeps k _ refl)

  pub handle_block_device-Keeps :
      (id : String) (m : Mount) → Keeps P (handle_block_device host id c m)
  unfolding handle_block_device
  handle_block_device-Keeps id m = record {
    from = λ s h.
        if-keeps P (m.source == "") _ _ (λ e. h)
          (λ e.
            (bind-Keeps P _ _ (next_device_id-Keeps k) (λ d.
                bind-Keeps P _ _ (on_vm-Keeps k _) (λ a.
                  bind-Keeps P _ _ (on_vm-Keeps k _) (λ f. push_storage-Keeps k _ refl)))).from
              s h);
  }

  pub handle_bind_mount-Keeps : (id : String) (m : Mount) → Keeps P (handle_bind_mount host id c m)
  unfolding handle_bind_mount
  handle_bind_mount-Keeps id m = record {
    from = λ s h.
        if-keeps P (m.source == "") _ _ (λ e. h)
          (λ e.
            (bind-Keeps P _ _ (record { from = λ s h. h })
                (λ d.
                  then-Keeps P _ _ (on_vm-Keeps k _)
                    (then-Keeps P _ _ (on_vm-Keeps k _) (push_storage-Keeps k _ refl)))).from
              s h);
  }

  pub handle_overlay_mount-Keeps :
      (id : String) (m : Mount) → Keeps P (handle_overlay_mount host id c m)
  unfolding handle_overlay_mount
  handle_overlay_mount-Keeps id m = record {
    from = λ s h.
        if-keeps P (m.source == "") _ _ (λ e. h)
          (λ e.
            (bind-Keeps P _ _ (record { from = λ s h. h })
                (λ d.
                  then-Keeps P _ _ (on_vm-Keeps k _)
                    (then-Keeps P _ _ (on_vm-Keeps k _) (push_storage-Keeps k _ refl)))).from
              s h);
  }

  attach_image-Keeps :
      (id : String) (m : Mount) (l : Option String) (a : BlockArtifact)
      → Keeps P (attach_image host id c m l a)
  unfolding attach_image into_storage
  attach_image-Keeps id m l a =
      bind-Keeps P _ _ (next_device_id-Keeps k)
        λ d. bind-Keeps P _ _ (on_vm-Keeps k _) λ b. push_storage-Keeps k _ refl

  pub handle_overlay_mount_blk-Keeps :
      (id : String) (m : Mount) → Keeps P (handle_overlay_mount_blk host id c m)
  unfolding handle_overlay_mount_blk
  handle_overlay_mount_blk-Keeps id m = record {
    from = λ s h.
        if-keeps P (m.source == "") _ _ (λ e. h)
          (λ e. (bind-Keeps P _ _ (on_vm-Keeps k _) λ a. attach_image-Keeps id m _ a).from s h);
  }

  handle_file_blk-Keeps :
      (id : String) (m : Mount) (r : Bool) (mode : ℕ) → Keeps P (handle_file_blk host id c m r mode)
  unfolding handle_file_blk
  handle_file_blk-Keeps id m true mode = fail-Keeps P _
  handle_file_blk-Keeps id m false mode = bind-Keeps P _ _ (on_vm-Keeps k _) λ content.
      bind-Keeps P _ _ (of_result-Keeps k _)
        λ dest. then-Keeps P _ _ (with_client-Keeps k _) (push_storage-Keeps k _ refl)

  small_dir-Keeps :
      (id : String) (m : Mount) (scan : ScannedDir) → Keeps P (small_dir host id c m scan)
  small_dir-Keeps id m scan =
      bind-Keeps P _ _ (of_result-Keeps k _) λ dest. inject_small_dir-Keeps id scan dest m

  large_dir-Keeps : (id : String) (m : Mount) → Keeps P (large_dir host id c m)
  large_dir-Keeps id m = record {
    from = λ s h. (bind-Keeps P _ _ (on_vm-Keeps k _) λ a. attach_image-Keeps id m none a).from s h;
  }

  pub either_mode-Keeps :
      (b : KuasarSandbox W → Bool) (m n : Action W (Unit {0}))
      → Keeps P m
      → Keeps P n
      → Keeps P (λ s. if b s then m s else n s)
  either_mode-Keeps b m n km kn = record {
    from = λ s h. if-keeps P (b s) (m s) (n s) (λ e. km.from s h) (λ e. kn.from s h);
  }

  dir_by_size-Keeps :
      (id : String) (m : Mount) (r : Bool) (scan : ScannedDir)
      → Keeps P (dir_by_size host id c m r scan)
  unfolding dir_by_size
  dir_by_size-Keeps id m r scan =
      either_mode-Keeps
        (λ s.
          leb scan.file_count s.storage_policy.small_dir_max_files
          && leb scan.total_bytes s.storage_policy.small_dir_max_bytes)
        (λ s. if r then (err SandboxError.invalid_argument, s) else small_dir host id c m scan s)
        (λ s.
          if not s.storage_policy.allow_large_bind_mount
          then (err SandboxError.invalid_argument, s)
          else large_dir host id c m s)
        (either_mode-Keeps (λ s. r) _ _ (fail-Keeps P SandboxError.invalid_argument)
          (small_dir-Keeps id m scan))
        (either_mode-Keeps (λ s. not s.storage_policy.allow_large_bind_mount) _ _
          (fail-Keeps P SandboxError.invalid_argument) (large_dir-Keeps id m))

  bind_by_type-Keeps :
      (id : String) (m : Mount) (r : Bool) (t : Option (FileType × ℕ))
      → Keeps P (bind_by_type host id c m r t)
  unfolding bind_by_type handle_dir_blk
  bind_by_type-Keeps id m r none = fail-Keeps P _
  bind_by_type-Keeps id m r (some (regular, mode)) = handle_file_blk-Keeps id m r mode
  bind_by_type-Keeps id m r (some (directory, mode)) =
      bind-Keeps P _ _ (on_vm-Keeps k _) λ scan. dir_by_size-Keeps id m r scan
  bind_by_type-Keeps id m r (some (symlink, mode)) = fail-Keeps P _
  bind_by_type-Keeps id m r (some (block_special, mode)) = fail-Keeps P _
  bind_by_type-Keeps id m r (some (char_special, mode)) = fail-Keeps P _
  bind_by_type-Keeps id m r (some (fifo, mode)) = fail-Keeps P _
  bind_by_type-Keeps id m r (some (socket, mode)) = fail-Keeps P _

  pub handle_bind_mount_blk-Keeps :
      (id : String) (m : Mount) (r : Bool) → Keeps P (handle_bind_mount_blk host id c m r)
  unfolding handle_bind_mount_blk
  handle_bind_mount_blk-Keeps id m r = record {
    from = λ s h.
        if-keeps P (m.source == "") _ _ (λ e. h)
          (λ e. (bind_by_type-Keeps id m r (host.symlink_metadata m.source s.vm)).from s h);
  }
