-- ===== src/Container/Process.antt =====
-- The processes that are started in a container and leave it
-- (vmm/sandbox/src/container/handler/process.rs).
use kuasar.Prelude.{
  String, Bool, not, Option, none, some, List, [], ◌∷◌, ◌++◌, ◌==◌, any, retain, if◌then◌else◌,
}
use kuasar.Container.Chain.{Handler}
use kuasar.Container.Pipes.{attach_io, get_container, io_file, set_container}
use kuasar.Prelude.Exec.{Result, ok, err, pure, of_result}
use kuasar.Prelude.Map
use kuasar.Prelude.Steps.{◌>>=◌, ◌>>◌, ignore}
use kuasar.Prelude.Text.{append}
use kuasar.Sandbox.Host.{Host, PathResult, done, absent, refused}
use kuasar.Sandbox.State.{
  Action, Io, KuasarContainer, KuasarProcess, KuasarSandbox, ProcessData, SandboxError, failed,
  on_vm,
}

unfoldable pub has_process : String → List KuasarProcess → Bool
has_process id ps = any (λ p. p.id == id) ps

abbrev pub without_process : String → KuasarContainer → KuasarContainer
without_process id c = record c { processes = retain (λ p. not (p.id == id)) c.processes }

-- The devices of the processes with this id.
unfoldable pub devices_of : String → List KuasarProcess → List String
devices_of id [] = []
devices_of id (p ∷ ps) = if p.id == id then p.io_devices ++ devices_of id ps else devices_of id ps

-- `if let Ok(c) = container_mut(id)`.
abbrev forget : {W : Type 0} → String → String → Option KuasarContainer → Action W (Unit {0})
forget id process none = pure tt
forget id process (some c) = set_container id (without_process process c)

unfoldable pub forget_process : {W : Type 0} → String → String → Action W (Unit {0})
unfolding set_container
forget_process id process s = forget id process (Map.get id s.containers) s

module _ {W : Type 0} (host : Host W) where
  -- Failures to detach are dropped.
  unfoldable pub detach_logged : List String → Action W (Unit {0})
  detach_logged [] = pure tt
  detach_logged (d ∷ ds) = do ignore (on_vm (host.hot_detach d)); detach_logged ds

  abbrev removed_file : PathResult × W → Result SandboxError (Unit {0}) × W
  removed_file (done, w) = (ok tt, w)
  removed_file (absent, w) = (ok tt, w)
  removed_file (refused, w) = (err failed, w)

  abbrev remove_devices : String → String → Option KuasarContainer → Action W (Unit {0})
  remove_devices id process none = pure tt
  remove_devices id process (some c) = do
    detach_logged (devices_of process c.processes)
    on_vm λ w.
        removed_file
          (host.remove_file (io_file c.container_data.bundle (append id (append "-" process))) w)

  unfoldable pub remove_io_devices_for_process : String → String → Action W (Unit {0})
  remove_io_devices_for_process id process s = remove_devices id process (Map.get id s.containers) s

  -- The process without streams, or with the streams that were attached for it.
  abbrev with_streams : String → String → ProcessData → Option Io → Action W KuasarProcess
  with_streams id bundle p none = pure (record { id = p.id; io_devices = []; process_data = p })
  with_streams id bundle p (some io) = do
    (attached, devices) ← attach_io host io
    text ← of_result (host.io_json (some attached))
    on_vm (host.write_file_atomic (io_file bundle (append id (append "-" p.id))) text)
    pure
        (record { id = p.id; io_devices = devices; process_data = record p { io = some attached } })

  abbrev start_in : String → ProcessData → KuasarContainer → Action W (Unit {0})
  start_in id p c = do
    q ← with_streams id c.container_data.bundle p p.io
    c' ← get_container id
    set_container id (record c' { processes = c'.processes ++ q ∷ [] })

  abbrev start_unless : Bool → String → ProcessData → KuasarContainer → Action W (Unit {0})
  start_unless there id p c = if there then pure tt else start_in id p c

  -- A process that is there already is left alone.
  unfoldable pub add_process : String → ProcessData → Action W (Unit {0})
  add_process id p = do c ← get_container id; start_unless (has_process p.id c.processes) id p c

  unfoldable pub remove_process : String → String → Action W (Unit {0})
  remove_process id process = do remove_io_devices_for_process id process; forget_process id process

  abbrev pub process_handler : String → ProcessData → Handler SandboxError (KuasarSandbox W)
  process_handler id p = record { handle = add_process id p; rollback = remove_process id p.id }

  abbrev pub process_remove_handler : String → String → Handler SandboxError (KuasarSandbox W)
  process_remove_handler id process = record {
    handle = remove_process id process;
    rollback = pure tt;
  }
