-- ===== src/Container/Pipes.antt =====
-- The streams of a container and of its processes (vmm/sandbox/src/container/handler/io.rs and
-- vmm/sandbox/src/io.rs).
use kuasar.Prelude.{String, not, ◌&&◌, Option, none, some, List, [], ◌∷◌, ◌++◌, ◌==◌, if◌then◌else◌}
use kuasar.Container.Chain.{Handler}
use kuasar.Prelude.Exec.{ok, pure, fail, modify, of_result}
use kuasar.Prelude.Map
use kuasar.Prelude.Split.{contains_text}
use kuasar.Prelude.Steps.{◌>>=◌, ◌>>◌}
use kuasar.Prelude.Text.{append, show_u32}
use kuasar.Sandbox.Attach.Small.{increment_and_get_id}
use kuasar.Sandbox.Devices.{char_device}
use kuasar.Sandbox.Host.{Host}
use kuasar.Sandbox.Lifecycle.{detach_io}
use kuasar.Sandbox.State.{
  Action, Call, Io, KuasarContainer, KuasarSandbox, SandboxError, not_found, on_vm,
}

abbrev found : {W : Type 0} → Option KuasarContainer → Action W KuasarContainer
found none = fail not_found
found (some c) = pure c

-- `container` and `container_mut`.
unfoldable pub get_container : {W : Type 0} → String → Action W KuasarContainer
get_container id s = found (Map.get id s.containers) s

unfoldable pub set_container : {W : Type 0} → String → KuasarContainer → Action W (Unit {0})
set_container id c = modify λ s. record s { containers = Map.put id c s.containers }

abbrev pub io_file : String → String → String
io_file bundle name = append bundle (append "/io-" name)

module _ {W : Type 0} (host : Host W) where
  unfoldable pub hot_attach_pipe : String → Action W (String × String)
  hot_attach_pipe path = do
    n ← increment_and_get_id
    let device_id = append "virtioserial" (show_u32 n)
    let chardev_id = append "chardev" (show_u32 n)
    on_vm (
        host.hot_attach (
          char_device
            (record { id = device_id; chardev_id = chardev_id; name = chardev_id; pipe = path })))
    pure (device_id, chardev_id)

  -- The name of the stream in the guest, and the devices with the one that was attached.
  unfoldable pub attach_pipe : String → List String → Action W (String × List String)
  attach_pipe path devices =
      if not (path == "") && not (contains_text path "://")
      then (do (device_id, name) ← hot_attach_pipe path; pure (name, devices ++ device_id ∷ []))
      else pure (path, devices)

  unfoldable pub attach_io : Io → Action W (Io × List String)
  attach_io io = do
    (stdin, devices) ← attach_pipe io.stdin []
    (stdout, devices') ← attach_pipe io.stdout devices
    (stderr, devices'') ← attach_pipe io.stderr devices'
    pure (
      record { stdin = stdin; stdout = stdout; stderr = stderr; terminal = io.terminal },
      devices'',
    )

  -- `IoHandler::handle`. The container keeps its devices once the file is written.
  unfoldable pub handle_io : String → Io → Action W (Unit {0})
  handle_io id io = do
    (attached, devices) ← attach_io io
    c ← get_container id
    let c' = record c { container_data = record c.container_data { io = some attached } }
    set_container id c'
    text ← of_result (host.io_json (some attached))
    on_vm (host.write_file_atomic (io_file c.container_data.bundle id) text)
    set_container id (record c' { io_devices = devices })

  abbrev pub drop_file : String → Call W (Unit {0})
  drop_file path w = (ok tt, (host.remove_file path w).1)

  unfoldable pub rollback_io : String → Action W (Unit {0})
  rollback_io id = do
    c ← get_container id
    detach_io host c.io_devices
    on_vm (drop_file (io_file c.container_data.bundle id))
    c' ← get_container id
    set_container id
        (record c' { io_devices = []; container_data = record c'.container_data { io = none } })

  abbrev pub io_handler : String → Io → Handler SandboxError (KuasarSandbox W)
  io_handler id io = record { handle = handle_io id io; rollback = rollback_io id }
