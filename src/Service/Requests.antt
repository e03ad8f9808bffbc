-- ===== src/Service/Requests.antt =====
-- The handlers of the management requests (vmm/sandbox/src/service/mod.rs).
use kuasar.Prelude.{
  ℕ, zero, suc, ◌+◌, ◌-◌, ◌^◌, String, Bool, true, false, ◌==◌, Option, none, some, List, find, ltb,
  length, map, if◌then◌else◌,
}
use kuasar.Continuation.Scan.{list}
use kuasar.Continuation.Store.{Store, StoreError}
use kuasar.Continuation.Store as Continuation
use kuasar.Prelude.Exec.{Exec, Result, ok, err, of_result}
use kuasar.Prelude.Map
use kuasar.Prelude.Steps.{◌>>=◌, ◌>>◌}
use kuasar.Sandbox.State.{KuasarSandbox, RestoreMetadata}
use kuasar.Sandboxer.State.{KuasarSandboxer, Setting}
use kuasar.Service.Fields.{
  Fields, ServiceError, TemplateItem, delete_failed, generation_too_large, is_continuation,
  missing_field, not_configured, not_found, not_refilled, pool_error, sandbox_status_str,
  snapshot_type_str, template_json, unknown_kind, validate_id,
}
use kuasar.Template.Pool.Acquire.{get_template}
use kuasar.Template.Pool.Gc.{remove_by_id}
use kuasar.Template.Pool.Refs.{begin_refill, in_flight_count_for_key}
use kuasar.Template.Pool.State.{PoolError, TemplatePool, total_depth}
use kuasar.Template.Types.{
  PooledTemplate, SnapshotType, TemplateKey, WorkloadIdentity, environment, warm_fork,
}

pub record SandboxItem : Type 0 where
  pub id : String
  pub status : String
  pub base_dir : String
  pub template_id : Option String
  pub template_snapshot_type : Option String

pub record ContinuationItem : Type 0 where
  pub template_id : String
  pub pod_uid : String
  pub generation : ℕ
  pub created_at_secs : ℕ
  pub snapshot_dir : String

-- `refused` is the answer of a handler that does not fail but says `"ok": false`.
pub data Reply : Type 0 where
  refused : ServiceError → Reply
  sandbox_list : List SandboxItem → Reply
  sandbox_item : SandboxItem → RestoreMetadata → Reply
  template_item : TemplateItem → Reply
  refilled : ℕ → ℕ → Reply
  collected : String → ℕ → Reply
  entry_list : List ContinuationItem → Reply
  deleted : Bool → WorkloadIdentity → Reply

abbrev pub Handling : Type 0 → Type 0
Handling W = Exec ServiceError (KuasarSandboxer W) Reply

abbrev type_str : Option SnapshotType → Option String
type_str none = none
type_str (some t) = some (snapshot_type_str t)

unfoldable pub item_of : {W : Type 0} → String → KuasarSandbox W → SandboxItem
item_of id s = record {
  id = id;
  status = sandbox_status_str s.status;
  base_dir = s.base_dir;
  template_id = s.restore.template_id;
  template_snapshot_type = type_str s.restore.template_snapshot_type;
}

abbrev item_of_entry : {W : Type 0} → String × KuasarSandbox W → SandboxItem
item_of_entry (id, s) = item_of id s

unfoldable pub resolve_sandbox_id : {V : Type 0} → Map.Map V → String → Result ServiceError String
resolve_sandbox_id sandboxes id = if Map.contains_key id sandboxes then ok id else err not_found

abbrev pub field : Option String → Result ServiceError String
field none = err missing_field
field (some s) = ok s

-- The field `sandbox_id` or `template_id`, checked.
unfoldable pub id_field : Option String → Result ServiceError String
id_field none = err missing_field
id_field (some s) = elim (validate_id s) [ ok u ↦ ok s | err e ↦ err e ]

abbrev identity_item : Option WorkloadIdentity → String × ℕ
identity_item none = ("", 0)
identity_item (some wi) = (wi.pod_uid, wi.generation)

unfoldable pub continuation_item : PooledTemplate → ContinuationItem
continuation_item t = record {
  template_id = t.id;
  pod_uid = (identity_item t.workload_identity).0;
  generation = (identity_item t.workload_identity).1;
  created_at_secs = t.created_at_secs;
  snapshot_dir = t.snapshot_dir;
}

abbrev queue_length : Option (List PooledTemplate) → ℕ
queue_length none = 0
queue_length (some q) = length q

unfoldable pub depth : TemplateKey → TemplatePool → ℕ
depth k p = queue_length (Map.get k.key p.available)

-- The refills that the request starts; each ends in a task of its own.
unfoldable pub begin_refills : ℕ → TemplateKey → TemplatePool → TemplatePool
begin_refills zero k p = p
begin_refills (suc n) k p = begin_refills n k (begin_refill k p)

abbrev pub generation_of : Option ℕ → Result ServiceError ℕ
generation_of none = ok 0
generation_of (some v) = if ltb v (2 ^ 32) then ok v else err generation_too_large

-- `"environment"` or `"warm_fork"`.
unfoldable pub kind_of : String → Option SnapshotType
kind_of kind =
    if kind == "environment"
    then some environment
    else if kind == "warm_fork"
    then some warm_fork
    else none

module _ {W : Type 0} (setting : Setting W) where
  unfoldable pub handle_sandbox_list : Handling W
  handle_sandbox_list st = (ok (sandbox_list (map item_of_entry st.sandboxes)), st)

  abbrev pub found : Option (KuasarSandbox W) → Handling W
  found none st = (err not_found, st)
  found (some s) st = (ok (sandbox_item (item_of s.id s) s.restore), st)

  unfoldable pub handle_sandbox_get : Fields → Handling W
  handle_sandbox_get f = do
    id ← of_result (id_field f.sandbox_id)
    λ st. (resolve_sandbox_id st.sandboxes id, st)
    λ st. found (Map.get id st.sandboxes) st

  abbrev pub in_pool : String → Option TemplatePool → Option PooledTemplate
  in_pool id none = none
  in_pool id (some p) = get_template id p

  abbrev pub in_store : String → Option Store → Option PooledTemplate
  in_store id none = none
  in_store id (some s) = find (λ t. t.id == id) (list setting.store_io s)

  abbrev pub template_found : Option PooledTemplate → Option PooledTemplate → Handling W
  template_found (some t) u st = (ok (template_item (template_json t)), st)
  template_found none (some t) st = (ok (template_item (template_json t)), st)
  template_found none none st = (err not_found, st)

  -- The pool comes before the store.
  unfoldable pub handle_template_get : Fields → Handling W
  handle_template_get f = do
    id ← of_result (id_field f.template_id)
    λ st. template_found (in_pool id st.template_pool) (in_store id st.continuation_store) st

  abbrev need_of : ℕ → TemplateKey → TemplatePool → ℕ
  need_of target k p = target - (depth k p + in_flight_count_for_key k p)

  abbrev refill : Fields → TemplatePool → String → Handling W
  refill f p kind st =
      let need =
        need_of (elim f.target_depth [ none ↦ 1 | some n ↦ n ]) setting.environment_key p in
      let p' = begin_refills need setting.environment_key p in
      if kind == "environment"
      then (
        ok (refilled need (in_flight_count_for_key setting.environment_key p')),
        record st { template_pool = some p' },
      )
      else (ok (refused not_refilled), st)

  abbrev pub refill_in : Fields → Option TemplatePool → Option String → Handling W
  refill_in f none kind st = (err not_configured, st)
  refill_in f (some p) none st = (ok (refused missing_field), st)
  refill_in f (some p) (some kind) st = refill f p kind st

  unfoldable pub handle_pool_refill : Fields → Handling W
  handle_pool_refill f st = refill_in f st.template_pool f.kind st

  abbrev pub removal_reply : String → Result PoolError Bool × TemplatePool → Reply
  removal_reply kind (err e, p) = refused (pool_error e)
  removal_reply kind (ok false, p) = refused not_found
  removal_reply kind (ok true, p) = collected kind (total_depth p)

  abbrev pub remove_kind : TemplatePool → String → String → Option SnapshotType → Handling W
  remove_kind p kind id none st = (ok (refused unknown_kind), st)
  remove_kind p kind id (some expected) st =
      let r = remove_by_id setting.io id expected p in
      (ok (removal_reply kind r), record st { template_pool = some r.1 })

  abbrev pub gc_in : Option TemplatePool → Option String → Option String → Handling W
  gc_in none kind id st = (err not_configured, st)
  gc_in (some p) none id st = (ok (refused missing_field), st)
  gc_in (some p) (some kind) none st = (ok (refused missing_field), st)
  gc_in (some p) (some kind) (some id) st =
      if kind == "continuation"
      then (ok (refused is_continuation), st)
      else remove_kind p kind id (kind_of kind) st

  unfoldable pub handle_pool_gc : Fields → Handling W
  handle_pool_gc f st = gc_in st.template_pool f.kind f.template_id st

  abbrev pub list_in : Option Store → Handling W
  list_in none st = (err not_configured, st)
  list_in (some s) st = (ok (entry_list (map continuation_item (list setting.store_io s))), st)

  unfoldable pub handle_continuation_list : Handling W
  handle_continuation_list st = list_in st.continuation_store st

  abbrev pub deletion : WorkloadIdentity → Result StoreError Bool × Store → Handling W
  deletion identity (ok removed, s) st =
      (ok (deleted removed identity), record st { continuation_store = some s })
  deletion identity (err e, s) st = (err delete_failed, record st { continuation_store = some s })

  abbrev pub delete_entry : WorkloadIdentity → Store → Handling W
  delete_entry identity s = deletion identity (Continuation.delete setting.store_io identity s)

  abbrev pub delete_in : Fields → Option Store → Handling W
  delete_in f none st = (err not_configured, st)
  delete_in f (some s) st =
      (do
        pod_uid ← of_result (field f.pod_uid)
        generation ← of_result (generation_of f.generation)
        delete_entry (record { pod_uid = pod_uid; generation = generation }) s)
        st

  unfoldable pub handle_continuation_delete : Fields → Handling W
  handle_continuation_delete f st = delete_in f st.continuation_store st
