-- ===== src/Sandboxer/Templates.antt =====
-- The restores of `KuasarSandboxer` from the template pool and from the store of continuations
-- (vmm/sandbox/src/sandbox.rs). The semaphore that bounds their number is not modelled.
use kuasar.Prelude.{
  String, Bool, true, false, not, ◌&&◌, ◌||◌, Option, none, some, List, [], ◌∷◌, ◌==◌, eqb, find,
  map, if◌then◌else◌, is_none,
}
use kuasar.Prelude.Exec.{ok, err, pure, fail, gets}
use kuasar.Prelude.Map
use kuasar.Prelude.Map.{Map}
use kuasar.Prelude.Text.{append}
use kuasar.Prelude.Steps.{◌>>=◌, ◌>>◌, on_error}
use kuasar.Sandbox.Agent.{same_set}
use kuasar.Sandbox.State.{KuasarSandbox, WarmForkParams, failed, panicked}
use kuasar.Sandboxer.Params.{parse_warm_fork_params}
use kuasar.Sandboxer.Restore.{start_from_snapshot}
use kuasar.Sandboxer.State.{Request, Setting, SnapshotRestoreParams, on_template_pool, with_sandbox}
use kuasar.Template.Pool.Acquire.{acquire_for_restore, acquire_by_id_for_restore}
use kuasar.Template.Pool.Lease.{TemplateLease, complete, fail_lease}
use kuasar.Template.Pool.Lease as Lease
use kuasar.Template.Pool.Refs.{in_flight_count_for_key}
use kuasar.Template.Pool.State.{TemplatePool}
use kuasar.Template.Pool.Wait.{wait_and_acquire_for_restore}
use kuasar.Template.Types.{
  PooledTemplate, SnapshotType, TemplateKey, TemplateLeaseMode, WarmForkTarget, continuation,
  environment, same_type, shared, warm_fork,
}

abbrev pub resolve_target : List WarmForkTarget → WarmForkTarget → WarmForkTarget
resolve_target resolved t = elim (find (λ r. r.container_name == t.container_name) resolved) [
  | none ↦ t
  | some r ↦ record t { container_id = r.container_id }
]

-- The containers of the request against those of the template; `none` is the mismatch.
unfoldable pub resolve_targets : List WarmForkTarget → WarmForkParams → Option WarmForkParams
resolve_targets [] params = some params
resolve_targets (r ∷ rs) params =
    if same_set (map (λ t. t.container_name) (r ∷ rs)) (map (λ t. t.container_name) params.targets)
    then some (record params { targets = map (resolve_target (r ∷ rs)) params.targets })
    else none

module _ {W : Type 0} (setting : Setting W) (id : String) where
  abbrev pub restore_params :
      PooledTemplate
      → SnapshotType
      → TemplateLeaseMode
      → Bool
      → Option WarmForkParams
      → SnapshotRestoreParams
  restore_params t type mode reflink params = record {
    snapshot_dir = t.snapshot_dir;
    template_id = some t.id;
    snapshot_type = type;
    id_generator = t.id_generator;
    disk_images = t.disk_images;
    storages = t.storages;
    orphan_container_ids = t.orphan_container_ids;
    lease_mode = mode;
    reflink_supported = reflink;
    original_task_vsock = t.original_task_vsock;
    warm_fork_params = params;
  }

  unfoldable pub snapshot_ok : PooledTemplate → Bool
  snapshot_ok t =
      setting.file_there (append t.snapshot_dir "/state.json") && setting.file_there t.pmem_path

  -- A restore that is given up before it began.
  unfoldable pub give_up : TemplateLease → Request W (Unit {0})
  give_up l = do on_template_pool (fail_lease setting.io l); fail failed

  abbrev pool_reflink : Option TemplatePool → Bool
  pool_reflink none = false
  pool_reflink (some p) = p.reflink_supported

  unfoldable pub restore_leased : TemplateLease → SnapshotRestoreParams → Request W (Unit {0})
  restore_leased l params = do
    on_error (with_sandbox id (start_from_snapshot setting params))
        (on_template_pool (fail_lease setting.io l))
    on_template_pool (complete setting.io l)

  abbrev annotations_of : Option (KuasarSandbox W) → Map String
  annotations_of none = []
  annotations_of (some s) = elim s.sandbox_data.annotations [ none ↦ [] | some a ↦ a ]

  abbrev warm_fork_params : PooledTemplate → Map String → Option WarmForkParams
  warm_fork_params t annotations = elim (parse_warm_fork_params annotations) [
    | err e ↦ none
    | ok params ↦ resolve_targets t.warm_fork_targets params
  ]

  abbrev restore_with :
      PooledTemplate
      → TemplateLease
      → TemplateLeaseMode
      → Option WarmForkParams
      → Request W (Unit {0})
  restore_with t l mode none = give_up l
  restore_with t l mode (some params) = do
    reflink ← gets λ st. pool_reflink st.template_pool
    restore_leased l (restore_params t warm_fork mode reflink (some params))

  unfoldable pub restore_from_warm_fork_template :
      PooledTemplate → TemplateLease → TemplateLeaseMode → Request W (Unit {0})
  restore_from_warm_fork_template t l mode st =
      if is_none t.ready_protocol_version || not (snapshot_ok t)
      then give_up l st
      else restore_with t l mode (warm_fork_params t (annotations_of (Map.get id st.sandboxes))) st

  abbrev restore_environment :
      PooledTemplate → TemplateLease → TemplateLeaseMode → Request W (Unit {0})
  restore_environment t l mode st =
      if not (snapshot_ok t)
      then give_up l st
      else restore_leased l (restore_params t environment mode (pool_reflink st.template_pool) none)
          st

  abbrev restore_by_type :
      PooledTemplate → TemplateLease → SnapshotType → TemplateLeaseMode → Request W (Unit {0})
  restore_by_type t l environment mode = restore_environment t l shared
  restore_by_type t l warm_fork mode =
      if setting.config.enable_warmfork_restore
      then restore_from_warm_fork_template t l mode
      else give_up l
  restore_by_type t l continuation mode = fail panicked

  abbrev restore_lease :
      TemplateLeaseMode → TemplateLease → Option PooledTemplate → Request W (Unit {0})
  restore_lease mode l none = fail failed
  restore_lease mode l (some t) = restore_by_type t l t.snapshot_type mode

  abbrev lease_mode_of : Option TemplatePool → TemplateLeaseMode
  lease_mode_of none = shared
  lease_mode_of (some p) = p.lease_mode

  unfoldable pub restore_acquired : Option PooledTemplate → Request W (Unit {0})
  restore_acquired none = fail failed
  restore_acquired (some t) = do
    mode ← gets λ st. lease_mode_of st.template_pool
    l ← on_template_pool (Lease.new t)
    restore_lease mode l l.tmpl

  abbrev acquire_or_wait : TemplateKey → Option PooledTemplate → Request W (Option PooledTemplate)
  acquire_or_wait k (some t) = pure (some t)
  acquire_or_wait k none = on_template_pool λ p.
      if eqb (in_flight_count_for_key k p) 0
      then (ok none, p)
      else wait_and_acquire_for_restore setting.io k (setting.refills k) p

  unfoldable pub start_with_template_key : TemplateKey → Request W (Unit {0})
  start_with_template_key k = do
    first ← on_template_pool (acquire_for_restore setting.io k)
    found ← acquire_or_wait k first
    restore_acquired found

  abbrev key_matches : Option String → PooledTemplate → Bool
  key_matches none t = true
  key_matches (some k) t = t.key.key == k

  abbrev restore_named :
      Option String → TemplateLease → Option PooledTemplate → Request W (Unit {0})
  restore_named key l none = give_up l
  restore_named key l (some t) =
      if not (key_matches key t)
      then give_up l
      else if not setting.config.enable_warmfork_restore
      then give_up l
      else (do
        mode ← gets λ st. lease_mode_of st.template_pool
        restore_from_warm_fork_template t l mode)

  -- A template of another type is not given back.
  abbrev restore_found : Option String → Option PooledTemplate → Request W (Unit {0})
  restore_found key none = fail failed
  restore_found key (some t) =
      if not (same_type t.snapshot_type warm_fork)
      then fail failed
      else (do l ← on_template_pool (Lease.new t); restore_named key l l.tmpl)

  unfoldable pub start_with_template_id : String → Option String → Request W (Unit {0})
  start_with_template_id template_id key = do
    found ← on_template_pool (acquire_by_id_for_restore setting.io template_id)
    restore_found key found
