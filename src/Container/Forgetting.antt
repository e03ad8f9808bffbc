-- ===== src/Container/Forgetting.antt =====
-- What `append_container` of vmm/sandbox/src/sandbox.rs leaves when its first step fails.
use kuasar.Prelude.{String, ◌≡◌, refl, ap, []}
use kuasar.Container.Chain.{rollback_all}
use kuasar.Container.Entry.{add_metadata, bundle_in, drop_metadata, metadata_add_handler}
use kuasar.Container.Unwinding.{handle_chain-unwinds}
use kuasar.Container.Update.{append_container, container_append_handlers}
use kuasar.Prelude.Exec.{err, and_then}
use kuasar.Prelude.Map
use kuasar.Prelude.Steps.{◌>>=◌, ◌>>◌}
use kuasar.Sandbox.Host.{Host}
use kuasar.Sandbox.Lifecycle.{dump}
use kuasar.Sandbox.State.{ContainerData, KuasarSandbox, SandboxError, on_vm}

module _ {W : Type 0} (host : Host W) (id : String) (d : ContainerData) (s : KuasarSandbox W) where
  add_metadata-fails :
      {e : SandboxError} {w : W}
      → host.create_dir_all (bundle_in d.id s) s.vm ≡ (err e, w)
      → add_metadata host id d s ≡ (err e, record s { vm = w })
  unfolding add_metadata ◌>>=◌ ◌>>◌ on_vm
  add_metadata-fails h = rw h refl

  -- If the directory of a container cannot be made, appending it answers the error, and the sandbox
  -- has no container of that name afterwards, even if it had one before; nothing else of the sandbox
  -- changes.
  pub append_container-forgets :
      {e : SandboxError} {w : W}
      → host.create_dir_all (bundle_in d.id s) s.vm ≡ (err e, w)
      → append_container host id d s
        ≡ (err e, record s { vm = w; containers = Map.delete id s.containers })
  unfolding append_container container_append_handlers ◌>>◌ rollback_all drop_metadata
  append_container-forgets h =
      ap (λ r. and_then r λ _. dump host)
        (handle_chain-unwinds [] _ (metadata_add_handler host id d) s refl (add_metadata-fails h))
