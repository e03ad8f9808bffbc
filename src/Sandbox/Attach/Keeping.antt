-- ===== src/Sandbox/Attach/Keeping.antt =====
-- The attaching of a mount (vmm/sandbox/src/storage/mod.rs) keeps what each change that is made to a
-- sandbox keeps: adoption, reuse, and the choice between the handlers.
use kuasar.Sandbox.Attach.Stable.{
  Stable, on_vm-Keeps, increment-Keeps, handle_tmpfs-Keeps, handle_block_device-Keeps,
  handle_bind_mount-Keeps, handle_overlay_mount-Keeps, handle_overlay_mount_blk-Keeps,
  either_mode-Keeps, handle_bind_mount_blk-Keeps, if-Keeps,
}
use kuasar.Storage.Graph.{is_bind, is_bind_shm, is_overlay, find_reusable_index}
use kuasar.Prelude.Split.{contains_text}
use kuasar.Sandbox.Attach.{
  by_info, is_tmpfs_empty_dir, handle_new, handle_other, handle_bind, handle_overlay,
  handle_empty_dir, attach_new, adopt, attach_by, attach_storage, call_adopt_container, modify_at,
  orphan_match, refer_reusable, take_over,
}
use kuasar.Prelude.{ℕ, String, Option, none, some, Bool-cases, inl, inr, Bool, ◌≡◌, refl}
use kuasar.Prelude.Exec.{Keeps, Result, err, if-keeps, pure-Keeps, and_then, modify, ok}
use kuasar.Prelude.Steps.{bind-Keeps, ◌>>◌}
use kuasar.Sandbox.Attach.Small.{is_block_device}
use kuasar.Sandbox.Host.{Host}
use kuasar.Sandbox.State.{KuasarSandbox, SandboxError, on_vm}
use kuasar.Storage.{Mount, refer}
use kuasar.Storage.MountInfo.{MountInfo}

module _ {W : Type 0} (host : Host W) {P : KuasarSandbox W → Type 0} {c : String}
    (k : Stable P c) where
  handle_other-Keeps : (id : String) (m : Mount) (r : Bool) → Keeps P (handle_other host id c m r)
  unfolding handle_other handle_bind handle_overlay
  handle_other-Keeps id m r = if-Keeps (is_bind_shm m) _ _ (pure-Keeps P tt) (
      if-Keeps (is_bind m) _ _
        (either_mode-Keeps host k _ _ _ (handle_bind_mount_blk-Keeps host k id m r)
          (handle_bind_mount-Keeps host k id m))
        (if-Keeps (is_overlay m) _ _
          (either_mode-Keeps host k _ _ _ (handle_overlay_mount_blk-Keeps host k id m)
            (handle_overlay_mount-Keeps host k id m))
          (pure-Keeps P tt)))

  by_info-Keeps :
      (id : String) (m : Mount) (r : Bool) (i : Option MountInfo)
      → Keeps P (by_info host id c m r i)
  by_info-Keeps id m r none = handle_other-Keeps id m r
  by_info-Keeps id m r (some i) = elim (Bool-cases (is_tmpfs_empty_dir host i)) [
    | inl e ↦ rw e (handle_tmpfs-Keeps k id m i)
    | inr e ↦ rw e (handle_other-Keeps id m r)
  ]

  handle_new-Keeps : (id : String) (m : Mount) (r : Bool) → Keeps P (handle_new host id c m r)
  unfolding handle_new handle_empty_dir
  handle_new-Keeps id m r = record {
    from = λ s h.
        if-keeps P (is_block_device host m.source s.vm) _ _
          (λ e. (handle_block_device-Keeps host k id m).from s h)
          (λ e.
            if-keeps P (contains_text m.source "kubernetes.io~empty-dir") _ _
              (λ f. (bind-Keeps P _ _ (on_vm-Keeps k _) (by_info-Keeps id m r)).from s h)
              (λ f. (handle_other-Keeps id m r).from s h));
  }

  pub attach_new-Keeps : (m : Mount) (r : Bool) → Keeps P (attach_new host c m r)
  unfolding attach_new
  attach_new-Keeps m r = bind-Keeps P _ _ (increment-Keeps k) λ n. handle_new-Keeps _ m r

  taken_over :
      (o : String) (m : Mount) (r : Bool) (s : KuasarSandbox W) (x : Result SandboxError (Unit {0}))
      (w : W)
      → ((u : KuasarSandbox W)
          → u.storages ≡ s.storages
          → u.restore ≡ s.restore
          → P u
          → P (take_over o c m r u))
      → P s
      → P (and_then (x, record s { vm = w }) (λ _. modify (take_over o c m r))).1
  taken_over o m r s (ok a) w t h = t (record s { vm = w }) refl refl (k.vm s w h)
  taken_over o m r s (err e) w t h = k.vm s w h

  adopted :
      (o : String) (m : Mount) (r : Bool) (s : KuasarSandbox W) (client : Option String)
      → ((u : KuasarSandbox W)
          → u.storages ≡ s.storages
          → u.restore ≡ s.restore
          → P u
          → P (take_over o c m r u))
      → P s
      → P
          (and_then
            (elim client as (λ x. Result SandboxError (Unit {0}) × KuasarSandbox W) [
              | none ↦ (err SandboxError.failed, s)
              | some a ↦ on_vm (host.adopt_container a o c) s
            ])
            (λ _. modify (take_over o c m r))).1
  unfolding on_vm
  adopted o m r s none t h = h
  adopted o m r s (some a) t h =
      taken_over o m r s (host.adopt_container a o c s.vm).0 (host.adopt_container a o c s.vm).1 t h

  adopt-keeps :
      (o : String) (m : Mount) (r : Bool) (s : KuasarSandbox W)
      → ((u : KuasarSandbox W)
          → u.storages ≡ s.storages
          → u.restore ≡ s.restore
          → P u
          → P (take_over o c m r u))
      → P s
      → P (adopt host o c m r s).1
  unfolding adopt call_adopt_container ◌>>◌
  adopt-keeps o m r s t h = adopted o m r s s.client t h

  attach_by-keeps :
      (m : Mount) (r : Bool) (s : KuasarSandbox W) (o : Option (String × String)) (i : Option ℕ)
      → ((o' i' : String) (u : KuasarSandbox W)
          → o ≡ some (o', i')
          → u.storages ≡ s.storages
          → u.restore ≡ s.restore
          → P u
          → P (take_over o' c m r u))
      → ((n : ℕ) → P (record s { storages = modify_at n (refer c) s.storages }))
      → P s
      → P (attach_by host c m r o i s).1
  unfolding refer_reusable
  attach_by-keeps m r s none none t g h = (attach_new-Keeps m r).from s h
  attach_by-keeps m r s none (some n) t g h = g n
  attach_by-keeps m r s (some (o, i)) n t g h = adopt-keeps o m r s (λ u. t o i u refl) h

  -- The changes that are left: a storage that serves the mount is referred to, or is taken over from
  -- an orphan.
  pub attach_storage-keeps :
      (m : Mount) (r : Bool) (s : KuasarSandbox W)
      → ((o i : String) (u : KuasarSandbox W)
          → orphan_match m r s ≡ some (o, i)
          → u.storages ≡ s.storages
          → u.restore ≡ s.restore
          → P u
          → P (take_over o c m r u))
      → ((n : ℕ) → P (record s { storages = modify_at n (refer c) s.storages }))
      → P s
      → P (attach_storage host c m r s).1
  unfolding attach_storage
  attach_storage-keeps m r s t g h =
      attach_by-keeps m r s (orphan_match m r s) (find_reusable_index s.storages m r) t g h
