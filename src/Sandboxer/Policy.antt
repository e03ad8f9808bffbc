-- ===== src/Sandboxer/Policy.antt =====
-- Which restore a pod gets from `start` of vmm/sandbox/src/sandbox.rs, and what a restore by id leaves
-- behind.
use kuasar.Template.Pool.State.{TemplatePool}
use kuasar.Template.Pool.Counting.{count, count-increment}
use kuasar.Template.Pool.Acquire.{acquire_by_id_for_restore, get_template, peek_by_id_for_restore}
use kuasar.Sandboxer.Templates.{start_with_template_id}
use kuasar.Prelude.{String, true, ◌≡◌, arith, some, ◌+◌, Option, ==_refl}
use kuasar.Prelude.Exec.{err}
use kuasar.Prelude.Map
use kuasar.Prelude.Map.{Map}
use kuasar.Prelude.Steps.{◌>>=◌}
use kuasar.Sandbox.State.{KuasarSandbox, failed}
use kuasar.Sandboxer.Intent.{parse_annotations}
use kuasar.Sandboxer.Start.{
  dispatch, start_sandbox, start_with_continuation_snapshot, parse_snapshot_intent,
}
use kuasar.Sandboxer.State.{KuasarSandboxer, Setting, on_template_pool}
use kuasar.Template.Types.{PooledTemplate, environment}
use kuasar.Continuation.Store as Store
use kuasar.Continuation.Store.{Store}
use kuasar.Prelude.{ℕ, none, ◌<◌}
use kuasar.Sandboxer.State.{on_store}

module _ {W : Type 0} (setting : Setting W) (id : String) where
  -- A pod whose annotations name a workload identity, with a generation that fits in 32 bits, and no
  -- type of snapshot, where continuations are enabled: if the continuation store does not give its
  -- continuation, the start fails, and nothing but the store differs from before. There is no other
  -- restore and no cold start, whatever `fallback_to_fresh_boot` is.
  pub start-no_continuation :
      (s : KuasarSandbox W) (annotations : Map String) (uid generation : String) (n : ℕ)
      (store store' : Store) (st : KuasarSandboxer W)
      → Map.get id st.sandboxes ≡ some s
      → s.sandbox_data.annotations ≡ some annotations
      → Map.get "kuasar.io/snapshot-type" annotations ≡ none
      → Map.get "kuasar.io/pod-uid" annotations ≡ some uid
      → Map.get "kuasar.io/workload-generation" annotations ≡ some generation
      → setting.parse_u64 generation ≡ some n
      → n < 4294967296
      → setting.config.enable_continuation_restore ≡ true
      → st.continuation_store ≡ some store
      → Store.acquire setting.store_io (record { pod_uid = uid; generation = n }) store
        ≡ (none, store')
      → start_sandbox setting id st ≡ (err failed, record st { continuation_store = some store' })
  unfolding start_sandbox parse_snapshot_intent dispatch ◌>>=◌ parse_annotations
      start_with_continuation_snapshot on_store
  start-no_continuation s annotations uid generation n store store' st there a kind u g parsed small
        enabled held miss =
      ground arith

  -- A restore by id that finds an environment template fails, and leaves the template with one more
  -- restore in flight than before.
  pub start_with_template_id-leaks :
      (tid : String) (key : Option String) (t : PooledTemplate) (p : TemplatePool)
      (st : KuasarSandboxer W)
      → st.template_pool ≡ some p
      → get_template tid p ≡ some t
      → t.snapshot_type ≡ environment
      → let (r, st') = start_with_template_id setting id tid key st in
        (r ≡ err failed)
        × ((q : TemplatePool)
            → st'.template_pool ≡ some q
            → count t.id q.in_flight_restores ≡ count t.id p.in_flight_restores + 1)
  unfolding start_with_template_id on_template_pool acquire_by_id_for_restore peek_by_id_for_restore
      ◌>>=◌
  start_with_template_id-leaks tid key t p st e found type = (
    ground arith,
    λ q e'. ground (arith, count-increment t.id t.id p.in_flight_restores, ==_refl t.id),
  )
