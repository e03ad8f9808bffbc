-- ===== src/Examples/Sandboxes.antt =====
-- The theorems on sandboxes and on the sandboxer, at concrete states.
use kuasar.Prelude.{ℕ, ◌+◌, String, true, false, ◌≡◌, refl, none, some, [], ◌∷◌, ◌==◌, arith, All}
use kuasar.Prelude.Exec.{err}
use kuasar.Prelude.Map
use kuasar.Prelude.Steps.{Ends}
use kuasar.Sandbox.Collecting.{NoneUnused, left_over, deference_container_storages-collects}
use kuasar.Sandbox.Halting.{Failed, IsRunning, start-halts}
use kuasar.Sandbox.Lifecycle.{start}
use kuasar.Sandbox.State.{KuasarSandbox, is_copy, default_restore, failed}
use kuasar.Sandbox.Storages.{defer_all, deference_container_storages, holds}
use kuasar.Sandbox.Tags.{Tagged, tags_of}
use kuasar.Sandboxer.Manage.{release_of}
use kuasar.Sandboxer.Pins.{IsBalanced, IsConsistent, PoolCounts, env_pins, holds_ref, pins}
use kuasar.Sandboxer.Pins.Counts.{ShareLock}
use kuasar.Sandboxer.Pins.Releasing.{is_deref, recover-IsBalanced, release_of-recovered}
use kuasar.Sandboxer.Pins.Restoring.{KeepsNone, target}
use kuasar.Sandboxer.Pins.Serving.{deletes, serve_all, serve_all-IsConsistent, stops, terminates}
use kuasar.Sandboxer.Pins.Starting.{start_from_snapshot-counts}
use kuasar.Sandboxer.Policy.{start-no_continuation, start_with_template_id-leaks}
use kuasar.Sandboxer.Recovery.{id_list, is_pinned_ref, is_shared_ref, recover}
use kuasar.Sandboxer.Restore.{start_from_snapshot}
use kuasar.Sandboxer.Start.{start_sandbox}
use kuasar.Sandboxer.State.{Locked, KuasarSandboxer}
use kuasar.Sandboxer.Templates.{start_with_template_id}
use kuasar.Service.Fields.{Fields}
use kuasar.Service.Keeping.{PoolSpares, pool_gc, serve_request, serve_request-IsConsistent}
use kuasar.Storage.{Storage}
use kuasar.Template.Pool.Acquire.{get_template}
use kuasar.Template.Pool.Counting.{count, occurrences}
use kuasar.Template.Pool.State.{TemplatePool}
use kuasar.Template.Pool.Validity.{IsValid}
use kuasar.Examples.Data.{old_template}
use kuasar.Continuation.Store as Store
use kuasar.Continuation.Store.{Store}
use kuasar.Examples.Hosts.{
  good_host, one_created, one_pinned, one_template, params, pinned_restore, quiet_law, sandbox,
  setting,
}

one_template-IsValid : IsValid one_template
one_template-IsValid = record {
  filed = (((refl, refl), tt), tt);
  refills = tt;
  restores = tt;
  references = (ground arith, tt);
}

one_pinned-IsConsistent : IsConsistent one_pinned
unfolding Map.contains_key Map.get is_copy
one_pinned-IsConsistent = ((refl, tt), λ x. (one_template-IsValid, ground arith))

-- The VM ends, the sandbox is stopped and deleted.
serve_all-IsConsistent_example : IsConsistent (
    serve_all
      ((setting, terminates "s1" 0 9) ∷ (setting, stops "s1" true) ∷ (setting, deletes "s1") ∷ [])
      one_pinned)
serve_all-IsConsistent_example =
    serve_all-IsConsistent
      ((setting, terminates "s1" 0 9) ∷ (setting, stops "s1" true) ∷ (setting, deletes "s1") ∷ [])
      one_pinned (quiet_law, (quiet_law, (quiet_law, tt))) one_pinned-IsConsistent

abbrev fields : Fields
fields = record {
  sandbox_id = none;
  template_id = some "a";
  kind = some "environment";
  pod_uid = none;
  target_depth = some 3;
  generation = none;
}

-- The template `a` is in use, so that the request is refused.
serve_request-IsConsistent_example :
    let st = (serve_request setting (pool_gc fields) one_pinned).1 in
    IsConsistent st × PoolSpares one_pinned.template_pool st.template_pool
serve_request-IsConsistent_example =
    serve_request-IsConsistent setting (pool_gc fields) one_pinned one_pinned-IsConsistent

abbrev locked : Locked ℕ
locked = record { sandbox = sandbox default_restore; pool = some one_template }

start_from_snapshot-counts_example :
    Ends
      (λ a.
        ShareLock
          (Tagged (target setting params))
          (PoolCounts "a" (1 + env_pins (target setting params) "a")))
      (ShareLock KeepsNone (PoolCounts "a" 1))
      (start_from_snapshot setting params locked)
unfolding Map.get ◌==◌
start_from_snapshot-counts_example =
    start_from_snapshot-counts setting params "a" 1 locked quiet_law refl
      (one_template-IsValid, refl)

recover-IsBalanced_example :
    IsBalanced (recover setting (("s1", sandbox pinned_restore) ∷ []) one_created)
recover-IsBalanced_example =
    recover-IsBalanced setting (("s1", sandbox pinned_restore) ∷ []) one_created
      one_template-IsValid

release_of-recovered_example :
    (is_deref (release_of pinned_restore) ≡ holds_ref (tags_of pinned_restore))
    × ((x : String)
        → occurrences x (id_list (some "a") (is_shared_ref pinned_restore))
            + occurrences x (id_list (some "a") (is_pinned_ref pinned_restore))
          ≡ pins (tags_of pinned_restore) x)
release_of-recovered_example = release_of-recovered pinned_restore

start-halts_example :
    Ends (λ a s. IsRunning s.status) (Failed good_host) (start good_host (sandbox default_restore))
start-halts_example = start-halts good_host (sandbox default_restore)

abbrev bound : String → Map.Map ℕ → Storage
bound id refs = record {
  host_source = "/data";
  type = "bind";
  id = id;
  source_identity = none;
  device_id = none;
  ref_container = refs;
  need_guest_handle = false;
  source = "";
  driver = "";
  driver_options = [];
  fstype = "bind";
  options = [];
  mount_point = "/run/kuasar/state/data";
  lower_dirs = none;
  cleanup_path = none;
  owned_by_runtime = false;
}

-- The container `c` holds the first storage alone and the second one with the container `d`.
abbrev two_storages : KuasarSandbox ℕ
two_storages = record (sandbox default_restore) {
  storages = bound "storage1" (("c", 1) ∷ []) ∷ bound "storage2" (("c", 1) ∷ ("d", 1) ∷ []) ∷ [];
}

deference_container_storages-collects_example :
    Ends
      (λ a s.
        (s.storages ≡ left_over (defer_all "c" two_storages.storages))
        × (NoneUnused s × All (λ t. holds "c" t ≡ false) s.storages))
      (λ s. Unit)
      (deference_container_storages good_host "c" two_storages)
deference_container_storages-collects_example =
    deference_container_storages-collects good_host "c" two_storages

abbrev empty_store : Store
empty_store = []

-- The store has no continuation of the pod.
abbrev no_continuation : KuasarSandboxer ℕ
no_continuation = record one_created { continuation_store = some empty_store }

start-no_continuation_example :
    start_sandbox setting "s1" no_continuation ≡ (err failed, no_continuation)
unfolding Store.acquire Map.get ◌==◌ Store.entry_at
start-no_continuation_example =
    start-no_continuation setting "s1" (sandbox default_restore)
      (("kuasar.io/pod-uid", "pod") ∷ ("kuasar.io/workload-generation", "12") ∷ []) "pod" "12" 12
      empty_store empty_store no_continuation refl refl refl refl refl refl (ground arith) refl refl
      refl

start_with_template_id-leaks_example :
    let (r, st) = start_with_template_id setting "s1" "a" none one_created in
    (r ≡ err failed)
    × ((q : TemplatePool)
        → st.template_pool ≡ some q
        → count "a" q.in_flight_restores ≡ count "a" one_template.in_flight_restores + 1)
unfolding get_template ◌==◌
start_with_template_id-leaks_example =
    start_with_template_id-leaks setting "s1" "a" none old_template one_template one_created refl
      refl refl
