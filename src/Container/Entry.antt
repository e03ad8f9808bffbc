-- ===== src/Container/Entry.antt =====
-- The entry of a container in its sandbox, its namespaces, its mounts and its storages
-- (vmm/sandbox/src/container/handler: append.rs, ns.rs, mount.rs and storage.rs).
use kuasar.Prelude.{
  String, Bool, not, ◌&&◌, ◌||◌, Option, none, some, List, [], ◌∷◌, ◌++◌, ◌==◌, any, find, map,
  retain, if◌then◌else◌,
}
use kuasar.Container.Chain.{Handler}
use kuasar.Container.Pipes.{drop_file, get_container, set_container}
use kuasar.Prelude.Exec.{Result, ok, err, pure, gets, modify, of_result}
use kuasar.Prelude.Map
use kuasar.Prelude.Steps.{◌>>=◌, ◌>>◌}
use kuasar.Prelude.Text.{append}
use kuasar.Sandbox.Attach.{attach_storage}
use kuasar.Sandbox.Host.{Host}
use kuasar.Sandbox.State.{
  Action, ContainerData, KuasarContainer, KuasarSandbox, Namespace, SandboxError, Spec, not_found,
  on_vm,
}
use kuasar.Sandbox.Storages.{deference_storage, get_sandbox_shared_path}
use kuasar.Storage.Graph.{is_bind_shm}
use kuasar.Storage.{Mount, Storage, is_for_mount}

abbrev pub bundle_in : {W : Type 0} → String → KuasarSandbox W → String
bundle_in id s = append (get_sandbox_shared_path s) (append "/" id)

abbrev shares_path : Bool → String → Bool
shares_path share_pid type = type == "ipc" || (type == "uts" || type == "pid" && share_pid)

abbrev guest_namespace : Bool → Namespace → Namespace
guest_namespace share_pid n = record n {
  path = if shares_path share_pid n.type then append "/run/sandbox-ns/" n.type else "";
}

-- Namespaces of the network and of control groups are dropped. Those that the sandbox shares get its
-- path, and the others none.
unfoldable pub guest_namespaces : Bool → List Namespace → List Namespace
guest_namespaces share_pid ns =
    map (guest_namespace share_pid)
      (retain (λ n. not (n.type == "network") && not (n.type == "cgroup")) ns)

abbrev namespaces_of : Bool → Option (List Namespace) → Option (List Namespace)
namespaces_of share_pid none = none
namespaces_of share_pid (some ns) = some (guest_namespaces share_pid ns)

abbrev pub with_spec : KuasarContainer → Spec → KuasarContainer
with_spec c spec = record c { container_data = record c.container_data { spec = some spec } }

abbrev set_namespaces :
    {W : Type 0} → String → KuasarContainer → Bool → Option Spec → Action W (Unit {0})
set_namespaces id c share_pid none = pure tt
set_namespaces id c share_pid (some spec) =
    set_container id
      (with_spec c (record spec { namespaces = namespaces_of share_pid spec.namespaces }))

unfoldable pub handle_namespaces : {W : Type 0} → String → Action W (Unit {0})
handle_namespaces id = do
  share_pid ← gets λ s. s.sandbox_data.shared_pid_namespace
  c ← get_container id
  set_namespaces id c share_pid c.container_data.spec

unfoldable pub contains_guest_storage : List Storage → Storage → Bool
contains_guest_storage storages t =
    any
      (λ s. s.host_source == t.host_source && (s.type == t.type && s.mount_point == t.mount_point))
      storages

-- The storages that the guest has to mount, with one more if it is one of them.
abbrev pub and_guest_storage : List Storage → Storage → List Storage
and_guest_storage storages t =
    if t.need_guest_handle && not (contains_guest_storage storages t)
    then storages ++ t ∷ []
    else storages

abbrev bound_at : Option Storage → Mount → Mount
bound_at none m = m
bound_at (some t) m = record m { source = t.mount_point; options = m.options ++ "bind" ∷ [] }

abbrev shm_of_guest : Mount → Mount
shm_of_guest m =
    if is_bind_shm m
    then record m { source = "/dev/shm"; options = m.options ++ "rbind" ∷ [] }
    else m

-- A mount of the container, as the guest sees it.
unfoldable pub guest_mount : List Storage → Mount → Mount
guest_mount storages m = shm_of_guest (bound_at (find (λ t. is_for_mount t m) storages) m)

abbrev and_found : List Storage → Option Storage → List Storage
and_found guest none = guest
and_found guest (some t) = and_guest_storage guest t

unfoldable pub mounted_storages : List Storage → List Storage → List Mount → List Storage
mounted_storages storages guest [] = guest
mounted_storages storages guest (m ∷ ms) =
    mounted_storages storages (and_found guest (find (λ t. is_for_mount t m) storages)) ms

-- The root of the container and the storages, from the mounts of its root.
unfoldable pub root_storages :
    List Storage → String → List Storage → List Mount → Result SandboxError (String × List Storage)
root_storages storages root guest [] = ok (root, guest)
root_storages storages root guest (m ∷ ms) = elim (find (λ t. is_for_mount t m) storages) [
  | none ↦ err not_found
  | some t ↦ root_storages storages t.mount_point (and_guest_storage guest t) ms
]

abbrev pub spec_mounts : Option Spec → List Mount
spec_mounts none = []
spec_mounts (some spec) = spec.mounts

unfoldable pub stored_spec : List Storage → String → String → Spec → Spec
stored_spec storages root text spec = record spec {
  mounts = map (guest_mount storages) spec.mounts;
  annotations = Map.put "io.kuasar.storages" text spec.annotations;
  root = elim spec.root [ none ↦ none | some r ↦ some (record r { path = root }) ];
}

abbrev stored_specs : List Storage → String → String → Option Spec → Option Spec
stored_specs storages root text none = none
stored_specs storages root text (some spec) = some (stored_spec storages root text spec)

abbrev pub storage_file : ContainerData → String → String
storage_file d id = append d.bundle (append "/storage-" id)

module _ {W : Type 0} (host : Host W) where
  unfoldable pub add_metadata : String → ContainerData → Action W (Unit {0})
  add_metadata id d = do
    bundle ← gets (bundle_in d.id)
    on_vm (host.create_dir_all bundle)
    set_container id (record {
      id = id;
      container_data = record d { bundle = bundle };
      io_devices = [];
      processes = [];
    })

  unfoldable pub drop_metadata : String → Action W (Unit {0})
  drop_metadata id = modify λ s. record s { containers = Map.delete id s.containers }

  abbrev pub store_at :
      String → KuasarContainer → String → List Storage → String → Action W (Unit {0})
  store_at id c root storages text = do
    let d = record c.container_data { spec = stored_specs storages root text c.container_data.spec }
    set_container id (record c { container_data = d })
    on_vm (host.write_file_atomic (storage_file d id) text)
    set_container id (record c { container_data = record d { rootfs = [] } })

  -- The container with the storages that its mounts are found in.
  abbrev pub store_in : String → KuasarContainer → List Storage → Action W (Unit {0})
  store_in id c storages = do
    let mounted = mounted_storages storages [] (spec_mounts c.container_data.spec)
    root_guest ← of_result (root_storages storages "rootfs" mounted c.container_data.rootfs)
    text ← of_result (host.storages_json root_guest.1)
    store_at id c root_guest.0 storages text

  unfoldable pub handle_storages : String → Action W (Unit {0})
  handle_storages id = do
    c ← get_container id
    storages ← gets λ s. s.storages
    store_in id c storages

  unfoldable pub rollback_storages : String → Action W (Unit {0})
  rollback_storages id = do
    c ← get_container id
    on_vm (drop_file host (storage_file c.container_data id))

  abbrev pub metadata_add_handler : String → ContainerData → Handler SandboxError (KuasarSandbox W)
  metadata_add_handler id d = record { handle = add_metadata id d; rollback = drop_metadata id }

  abbrev pub namespace_handler : String → Handler SandboxError (KuasarSandbox W)
  namespace_handler id = record { handle = handle_namespaces id; rollback = pure tt }

  abbrev pub mount_handler : String → Bool → Mount → Handler SandboxError (KuasarSandbox W)
  mount_handler id is_rootfs m = record {
    handle = attach_storage host id m is_rootfs;
    rollback = deference_storage host id m;
  }

  abbrev pub storage_handler : String → Handler SandboxError (KuasarSandbox W)
  storage_handler id = record { handle = handle_storages id; rollback = rollback_storages id }
