-- ===== src/Sandboxer/Start.antt =====
-- `start` of `KuasarSandboxer` (vmm/sandbox/src/sandbox.rs): what the annotations of a pod ask for, the
-- snapshots that are tried for it, and the cold start.
use kuasar.Sandboxer.Intent.{SnapshotIntent, parse_annotations}
use kuasar.Prelude.{
  String, Bool, true, false, not, ◌&&◌, ◌||◌, Option, none, some, ◌==◌, if◌then◌else◌, is_some,
}
use kuasar.Prelude.Exec.{Result, ok, err, fail}
use kuasar.Prelude.Map
use kuasar.Prelude.Map.{Map}
use kuasar.Prelude.Steps.{◌>>=◌, ◌>>◌, on_error, when}
use kuasar.Continuation.Store as Store
use kuasar.Sandbox.Lifecycle.{add_to_cgroup, destroy_network, dump, prepare_network, start, stop}
use kuasar.Sandbox.State.{Action, KuasarSandbox, SandboxError, default_restore, failed, not_found}
use kuasar.Sandboxer.Restore.{start_from_snapshot}
use kuasar.Sandboxer.State.{
  KuasarSandboxer, LockedAction, Request, Setting, SnapshotConfig, on_sandbox, on_store,
  update_sandbox, with_sandbox,
}
use kuasar.Sandboxer.Templates.{
  restore_params, snapshot_ok, start_with_template_id, start_with_template_key,
}
use kuasar.Template.Pool.State.{TemplatePool}
use kuasar.Template.Types.{
  PooledTemplate, SnapshotType, WorkloadIdentity, continuation, environment, exclusive, warm_fork,
}

module _ {W : Type 0} (setting : Setting W) (id : String) where
  unfoldable pub parse_snapshot_intent : Request W SnapshotIntent
  parse_snapshot_intent st = elim (Map.get id st.sandboxes) [
    | none ↦ (err not_found, st)
    | some s ↦ (
      parse_annotations setting.parse_u64 setting.config.enable_continuation_restore
          s.sandbox_data.annotations,
      st,
    )
  ]

  abbrev set_template_id : String → KuasarSandbox W → KuasarSandbox W
  set_template_id tid s = record s { restore = record s.restore { template_id = some tid } }

  abbrev clear_restore : KuasarSandbox W → KuasarSandbox W
  clear_restore s = record s { restore = default_restore }

  abbrev fail_store : PooledTemplate → Request W (Unit {0})
  fail_store t = on_store λ s. (tt, Store.fail_lease setting.store_io (some t) s)

  abbrev reflink_of : Option TemplatePool → Bool
  reflink_of none = false
  reflink_of (some p) = p.reflink_supported

  abbrev restore_continuation : PooledTemplate → Request W (Unit {0})
  restore_continuation t st =
      (on_error
            (with_sandbox id (
              start_from_snapshot setting (
                restore_params setting id t continuation exclusive (reflink_of st.template_pool)
                  none)))
            (fail_store t)
          >> on_store λ s. (tt, Store.complete_lease setting.store_io (some t) s))
        st

  abbrev restore_entry : Option PooledTemplate → Request W (Unit {0})
  restore_entry none = fail failed
  restore_entry (some t) = do
    update_sandbox id (set_template_id t.id)
    if snapshot_ok setting id t
        then restore_continuation t
        else (do update_sandbox id clear_restore; fail_store t; fail failed)

  unfoldable pub start_with_continuation_snapshot : WorkloadIdentity → Request W (Unit {0})
  start_with_continuation_snapshot identity = do
    found ← on_store (Store.acquire setting.store_io identity)
    restore_entry found

  abbrev apply_pool_settings : LockedAction W (Unit {0})
  apply_pool_settings l = elim l.pool [
    | none ↦ (ok tt, l)
    | some p ↦ (
      ok tt,
      record l {
        sandbox = record l.sandbox {
          restore = record l.sandbox.restore {
            lease_mode = some p.lease_mode;
            reflink_supported = some p.reflink_supported;
          };
        };
      },
    )
  ]

  abbrev or_stop : Action W (Unit {0}) → Action W (Unit {0})
  or_stop m = on_error m (stop setting.host true >> destroy_network setting.host)

  abbrev cold_network : Action W (Unit {0})
  cold_network s = when (not (s.sandbox_data.netns == "")) (prepare_network setting.host) s

  unfoldable pub cold_start : LockedAction W (Unit {0})
  cold_start = do
    apply_pool_settings
    on_sandbox setting.hooks.pre_start
    on_sandbox cold_network
    on_sandbox (on_error (start setting.host) (destroy_network setting.host))
    on_sandbox (or_stop (add_to_cgroup setting.host))
    on_sandbox (or_stop setting.hooks.post_start)
    on_sandbox (or_stop (dump setting.host))

  abbrev any_snapshot_restore_enabled : SnapshotConfig → Bool
  any_snapshot_restore_enabled c =
      (c.enable_warmfork_restore || c.enable_continuation_restore) || c.enable_environment_restore

  -- A failure is only logged, and the next snapshot is tried.
  abbrev or_else : Request W (Unit {0}) → Request W (Unit {0}) → Request W (Unit {0})
  or_else m n st = decided (m st)
    where
      decided :
          Result SandboxError (Unit {0}) × KuasarSandboxer W
          → Result SandboxError (Unit {0}) × KuasarSandboxer W
      decided (ok u, st') = (ok u, st')
      decided (err e, st') = n st'

  abbrev boot : Request W (Unit {0})
  boot = with_sandbox id cold_start

  abbrev boot_after_miss : Request W (Unit {0})
  boot_after_miss =
      if any_snapshot_restore_enabled setting.config && not setting.config.fallback_to_fresh_boot
      then fail failed
      else boot

  abbrev try_environment : Request W (Unit {0})
  try_environment st =
      if setting.config.enable_environment_restore && is_some st.template_pool
      then or_else (start_with_template_key setting id setting.environment_key) boot_after_miss st
      else boot_after_miss st

  -- `none`: no template is asked for.
  abbrev try_warm_fork : Option String → Option String → Option (Request W (Unit {0}))
  try_warm_fork none none = none
  try_warm_fork (some tid) key = some (start_with_template_id setting id tid key)
  try_warm_fork none (some key) = some (start_with_template_key setting id (record { key = key }))

  abbrev implicit_warm_fork : Option (Request W (Unit {0})) → Request W (Unit {0})
  implicit_warm_fork none = try_environment
  implicit_warm_fork (some m) = or_else m try_environment

  abbrev implicit_start : Option WorkloadIdentity → SnapshotIntent → Request W (Unit {0})
  implicit_start (some identity) intent = start_with_continuation_snapshot identity
  implicit_start none intent =
      implicit_warm_fork (try_warm_fork intent.template_id intent.template_key)

  abbrev explicit_continuation : Option WorkloadIdentity → Request W (Unit {0})
  explicit_continuation none = fail failed
  explicit_continuation (some identity) = start_with_continuation_snapshot identity

  abbrev explicit_warm_fork : Option (Request W (Unit {0})) → Request W (Unit {0})
  explicit_warm_fork none = fail failed
  explicit_warm_fork (some m) = m

  abbrev start_by_type : Option SnapshotType → SnapshotIntent → Request W (Unit {0})
  start_by_type (some continuation) intent =
      if setting.config.enable_continuation_restore
      then explicit_continuation intent.cont_identity
      else fail failed
  start_by_type (some warm_fork) intent =
      if setting.config.enable_warmfork_restore
      then explicit_warm_fork (try_warm_fork intent.template_id intent.template_key)
      else fail failed
  start_by_type (some environment) intent = implicit_start intent.cont_identity intent
  start_by_type none intent = implicit_start intent.cont_identity intent

  unfoldable pub dispatch : SnapshotIntent → Request W (Unit {0})
  dispatch intent = start_by_type intent.explicit_type intent

  abbrev restores_enabled : Bool
  restores_enabled =
      setting.config.enable_warmfork_restore || setting.config.enable_continuation_restore

  unfoldable pub start_sandbox : Request W (Unit {0})
  start_sandbox st =
      if is_some st.template_pool || is_some st.continuation_store
      then (if restores_enabled
          then (do intent ← parse_snapshot_intent; dispatch intent) st
          else try_environment st)
      else boot st
