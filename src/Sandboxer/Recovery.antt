-- ===== src/Sandboxer/Recovery.antt =====
-- `recover` of `KuasarSandboxer` (vmm/sandbox/src/sandbox.rs), after a restart.
use kuasar.Prelude.{String, Bool, true, false, not, ◌&&◌, Option, none, some, List, [], ◌∷◌, ◌++◌}
use kuasar.Prelude.Exec.{Result, ok, err}
use kuasar.Prelude.Map
use kuasar.Prelude.Map.{Map}
use kuasar.Continuation.Scan as Scan
use kuasar.Continuation.Store.{Store}
use kuasar.Sandbox.Recover.{recover_sandbox}
use kuasar.Sandbox.State.{KuasarSandbox, RestoreMetadata, SandboxError}
use kuasar.Sandboxer.Restore.{is_type, non_copy}
use kuasar.Sandboxer.State.{KuasarSandboxer, Setting}
use kuasar.Template.Pool.Recovery.{gc_orphaned_consumed}
use kuasar.Template.Pool.Refs.{rebuild_active_refs}
use kuasar.Template.Pool.State.{TemplatePool}
use kuasar.Template.Types.{TemplateLeaseMode, environment, is_shared, warm_fork}

abbrev pub shared_of : Option TemplateLeaseMode → Bool
shared_of none = false
shared_of (some m) = is_shared m

abbrev pub id_list : Option String → Bool → List String
id_list none b = []
id_list (some tid) true = tid ∷ []
id_list (some tid) false = []

abbrev pub is_shared_ref : RestoreMetadata → Bool
is_shared_ref r = is_type warm_fork r.template_snapshot_type && shared_of r.lease_mode

abbrev pub is_pinned_ref : RestoreMetadata → Bool
is_pinned_ref r =
    not (is_shared_ref r)
    && (is_type environment r.template_snapshot_type && non_copy r.memory_restore_mode)

module _ {W : Type 0} where
  unfoldable pub active_ids : Map (KuasarSandbox W) → List String
  active_ids [] = []
  active_ids ((id, s) ∷ m) = id_list s.restore.template_id true ++ active_ids m

  unfoldable pub shared_ids : Map (KuasarSandbox W) → List String
  shared_ids [] = []
  shared_ids ((id, s) ∷ m) = id_list s.restore.template_id (is_shared_ref s.restore) ++ shared_ids m

  unfoldable pub pinned_ids : Map (KuasarSandbox W) → List String
  pinned_ids [] = []
  pinned_ids ((id, s) ∷ m) = id_list s.restore.template_id (is_pinned_ref s.restore) ++ pinned_ids m

module _ {W : Type 0} (setting : Setting W) where
  abbrev pub keep_recovered :
      String
      → Result SandboxError (Unit {0}) × KuasarSandbox W
      → Map (KuasarSandbox W)
      → Map (KuasarSandbox W)
  keep_recovered name (err e, s) m = m
  keep_recovered name (ok u, s) m = Map.put name s m

  -- The sandboxes whose dumps could be read; one that cannot be recovered is dropped.
  unfoldable pub recover_all : Map (KuasarSandbox W) → Map (KuasarSandbox W) → Map (KuasarSandbox W)
  recover_all [] m = m
  recover_all ((name, s) ∷ dumps) m =
      recover_all dumps (keep_recovered name (recover_sandbox setting.host s) m)

  abbrev collected : List String → Option Store → Option Store
  collected active none = none
  collected active (some s) = some (Scan.gc_orphaned_consumed setting.store_io active s).1

  abbrev rebuilt : Option TemplatePool → KuasarSandboxer W → KuasarSandboxer W
  rebuilt none st = st
  rebuilt (some p) st =
      let active = active_ids st.sandboxes in
      record st {
        template_pool = some (
            gc_orphaned_consumed setting.io active
              (rebuild_active_refs (shared_ids st.sandboxes) (pinned_ids st.sandboxes) p));
        continuation_store = collected active st.continuation_store;
      }

  unfoldable pub recover : Map (KuasarSandbox W) → KuasarSandboxer W → KuasarSandboxer W
  recover dumps st =
      let st' = record st { sandboxes = recover_all dumps st.sandboxes } in
      rebuilt st'.template_pool st'
