-- ===== src/Sandboxer/State.antt =====
-- The state of `KuasarSandboxer` of vmm/sandbox/src/sandbox.rs. A request locks the sandbox that it
-- is about: what holds the lock sees that sandbox and the pool.
use kuasar.Prelude.{ℕ, String, Bool, Option, none, some, List}
use kuasar.Prelude.Exec.{Exec, Result, ok, err}
use kuasar.Prelude.Map
use kuasar.Prelude.Map.{Map}
use kuasar.Continuation.Store.{Store, StoreIo}
use kuasar.Sandbox.Host.{Host, Hooks}
use kuasar.Sandbox.State.{
  ContainerStoragePolicy, SandboxData, KuasarSandbox, MemoryRestoreMode, SandboxError, failed,
  not_found, pool_error, WarmForkParams,
}
use kuasar.Storage.{Storage}
use kuasar.Template.Disk.{Io}
use kuasar.Template.Pool.State as Pool
use kuasar.Template.Pool.State.{PoolError, TemplatePool}
use kuasar.Template.Pool.Wait.{Refill}
use kuasar.Template.Types.{DiskImageEntry, SnapshotType, TemplateKey, TemplateLeaseMode}

pub record SnapshotConfig : Type 0 where
  pub enable_environment_restore : Bool
  pub enable_warmfork_restore : Bool
  pub enable_continuation_restore : Bool
  pub fallback_to_fresh_boot : Bool
  pub default_memory_restore_mode : MemoryRestoreMode

-- What does not change while the sandboxer runs, and what it finds around it.
pub record Setting (W : Type 0) : Type 0 where
  pub host : Host W
  pub hooks : Hooks W
  pub io : Io
  pub store_io : StoreIo
  pub config : SnapshotConfig
  pub environment_key : TemplateKey
  -- The control groups of a new sandbox fail, and are removed again; the VM that the factory makes.
  pub cgroup_fails : String → Bool
  pub create_vm : String → SandboxData → Result SandboxError W
  pub storage_policy : ContainerStoragePolicy
  -- The file of a snapshot is there and can be looked at.
  pub file_there : String → Bool
  -- What refills do while a request waits for the key.
  pub refills : TemplateKey → List Refill
  -- `str::parse`; `none` is the error.
  pub parse_u64 : String → Option ℕ

pub record KuasarSandboxer (W : Type 0) : Type 0 where
  pub sandboxes : Map (KuasarSandbox W)
  pub template_pool : Option TemplatePool
  pub continuation_store : Option Store

abbrev pub Request : Type 0 → Type 0 → Type 0
Request W A = Exec SandboxError (KuasarSandboxer W) A

pub record Locked (W : Type 0) : Type 0 where
  pub sandbox : KuasarSandbox W
  pub pool : Option TemplatePool

abbrev pub LockedAction : Type 0 → Type 0 → Type 0
LockedAction W A = Exec SandboxError (Locked W) A

pub record SnapshotRestoreParams : Type 0 where
  pub snapshot_dir : String
  pub template_id : Option String
  pub snapshot_type : SnapshotType
  pub id_generator : ℕ
  pub disk_images : List DiskImageEntry
  pub storages : List Storage
  pub orphan_container_ids : List String
  pub lease_mode : TemplateLeaseMode
  pub reflink_supported : Bool
  pub original_task_vsock : String
  pub warm_fork_params : Option WarmForkParams

abbrev pub pool_result : {A : Type 0} → Result PoolError A → Result SandboxError A
pool_result (ok a) = ok a
pool_result (err e) = err (pool_error e)

module _ {W : Type 0} where
  unfoldable pub on_sandbox :
      {A : Type 0} → Exec SandboxError (KuasarSandbox W) A → LockedAction W A
  on_sandbox m l = let (r, s) = m l.sandbox in (r, record l { sandbox = s })

  abbrev on_some : TemplatePool → Pool.Action (Unit {0}) → LockedAction W (Unit {0})
  on_some p m l = let (r, p') = m p in (pool_result r, record l { pool = some p' })

  -- A call of the pool, where there is one.
  unfoldable pub on_pool : Pool.Action (Unit {0}) → LockedAction W (Unit {0})
  on_pool m l = elim l.pool [ none ↦ (ok tt, l) | some p ↦ on_some p m l ]

  abbrev unlocked :
      {A : Type 0}
      → String
      → Result SandboxError A × Locked W
      → KuasarSandboxer W
      → Result SandboxError A × KuasarSandboxer W
  unlocked id (r, l) st =
      (r, record st { sandboxes = Map.put id l.sandbox st.sandboxes; template_pool = l.pool })

  -- The lock of a sandbox, held during an action.
  unfoldable pub with_sandbox : {A : Type 0} → String → LockedAction W A → Request W A
  with_sandbox id m st = elim (Map.get id st.sandboxes) [
    | none ↦ (err not_found, st)
    | some s ↦ unlocked id (m (record { sandbox = s; pool = st.template_pool })) st
  ]

  abbrev pooled :
      {A : Type 0}
      → Result PoolError A × TemplatePool
      → KuasarSandboxer W
      → Result SandboxError A × KuasarSandboxer W
  pooled (r, p) st = (pool_result r, record st { template_pool = some p })

  -- A call of the pool; without a pool the request fails.
  unfoldable pub on_template_pool : {A : Type 0} → Pool.Action A → Request W A
  on_template_pool m st = elim st.template_pool [
    | none ↦ (err failed, st)
    | some p ↦ pooled (m p) st
  ]

  abbrev stored :
      {A : Type 0} → A × Store → KuasarSandboxer W → Result SandboxError A × KuasarSandboxer W
  stored (a, s) st = (ok a, record st { continuation_store = some s })

  -- A call of the store of continuations; without a store the request fails.
  unfoldable pub on_store : {A : Type 0} → (Store → A × Store) → Request W A
  on_store m st = elim st.continuation_store [ none ↦ (err failed, st) | some s ↦ stored (m s) st ]

  abbrev updated :
      String
      → (KuasarSandbox W → KuasarSandbox W)
      → Option (KuasarSandbox W)
      → KuasarSandboxer W
      → KuasarSandboxer W
  updated id f none st = st
  updated id f (some s) st = record st { sandboxes = Map.put id (f s) st.sandboxes }

  -- A change of a sandbox, if it is there.
  unfoldable pub update_sandbox :
      String → (KuasarSandbox W → KuasarSandbox W) → Request W (Unit {0})
  update_sandbox id f st = (ok tt, updated id f (Map.get id st.sandboxes) st)
