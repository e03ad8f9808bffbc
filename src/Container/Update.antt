-- ===== src/Container/Update.antt =====
-- `append_container` and `update_container` of vmm/sandbox/src/sandbox.rs, with their chains
-- (vmm/sandbox/src/container/handler/mod.rs).
use kuasar.Prelude.{
  String, Bool, not, Option, none, some, List, [], ◌∷◌, ◌++◌, ◌==◌, any, map, retain,
}
use kuasar.Container.Chain.{Handler, handle_chain}
use kuasar.Container.Entry.{
  metadata_add_handler, mount_handler, namespace_handler, spec_mounts, storage_handler,
}
use kuasar.Container.Files.{spec_handler}
use kuasar.Container.Pipes.{get_container, io_handler}
use kuasar.Container.Process.{has_process, process_handler, process_remove_handler}
use kuasar.Prelude.Steps.{◌>>=◌, ◌>>◌}
use kuasar.Sandbox.Host.{Host}
use kuasar.Sandbox.Lifecycle.{dump}
use kuasar.Sandbox.State.{
  Action, ContainerData, Io, KuasarProcess, KuasarSandbox, ProcessData, SandboxError,
}

unfoldable pub lists_process : String → List ProcessData → Bool
lists_process id ps = any (λ p. p.id == id) ps

module _ {W : Type 0} (host : Host W) where
  abbrev io_handlers : String → Option Io → List (Handler SandboxError (KuasarSandbox W))
  io_handlers id none = []
  io_handlers id (some io) = io_handler host id io ∷ []

  unfoldable pub container_append_handlers :
      String → ContainerData → List (Handler SandboxError (KuasarSandbox W))
  container_append_handlers id d =
      metadata_add_handler host id d
      ∷ namespace_handler host id
      ∷ (map (mount_handler host id Bool.true) d.rootfs
          ++ (map (mount_handler host id Bool.false) (spec_mounts d.spec)
              ++ (storage_handler host id ∷ (io_handlers id d.io ++ spec_handler host id ∷ []))))

  unfoldable pub append_container : String → ContainerData → Action W (Unit {0})
  append_container id d = do handle_chain (container_append_handlers id d); dump host

  -- The processes that are gone are removed, and then the new ones are added.
  unfoldable pub container_update_handlers :
      String → List KuasarProcess → List ProcessData → List (Handler SandboxError (KuasarSandbox W))
  container_update_handlers id old new =
      map (λ p. process_remove_handler host id p.id)
        (retain (λ p. not (lists_process p.id new)) old)
      ++ map (process_handler host id) (retain (λ p. not (has_process p.id old)) new)

  unfoldable pub update_container : String → ContainerData → Action W (Unit {0})
  update_container id d = do
    c ← get_container id
    handle_chain (container_update_handlers id c.processes d.processes)
    dump host
