-- ===== src/Service/Keeping.antt =====
-- The management requests, the counts of the pool and the templates in use (vmm/sandbox/src/service/mod.rs).
use kuasar.Prelude.{
  ℕ, zero, suc, String, Bool, true, ◌==◌, ◌≡◌, refl, ◌∙◌, subst, sym, Option, none, some, arith,
  Bool-cases, inl, inr,
}
use kuasar.Prelude.Exec.{Result, ok, err, Keeps, of_result}
use kuasar.Prelude.Steps.{bind-Keeps, then-Keeps}
use kuasar.Continuation.Store.{Store, StoreError}
use kuasar.Prelude.Map
use kuasar.Sandbox.State.{KuasarSandbox}
use kuasar.Sandboxer.Pins.{IsConsistent, PoolCounts, held}
use kuasar.Sandboxer.State.{KuasarSandboxer, Setting}
use kuasar.Service.Fields.{Fields}
use kuasar.Service.Requests.{
  Handling, begin_refills, handle_continuation_delete, handle_continuation_list, handle_pool_gc,
  handle_pool_refill, handle_sandbox_get, handle_sandbox_list, handle_template_get, kind_of, found,
  template_found, refill_in, gc_in, list_in, deletion, delete_in, generation_of, field, in_pool,
  in_store, remove_kind,
}
use kuasar.Template.Disk.{Io, Subdir, dir_at}
use kuasar.Template.Pool.Counting.{count}
use kuasar.Template.Pool.Gc.{remove_by_id}
use kuasar.Template.Pool.Refs.{begin_refill}
use kuasar.Template.Pool.State.{TemplatePool, all_templates}
use kuasar.Template.Pool.Oldest.{pinned}
use kuasar.Template.Pool.Pinned.Holds.{named}
use kuasar.Template.Pool.Pinned.Survive.{evict, removes, evict-pinned}
use kuasar.Template.Pool.Step
use kuasar.Template.Pool.Step.{step}
use kuasar.Template.Pool.Validity.{IsValid}
use kuasar.Template.Pool.Validity.Evict.{remove_by_id-IsValid}
use kuasar.Template.Pool.Validity.Run.{step-IsValid}
use kuasar.Template.Types.{PooledTemplate, SnapshotType, TemplateKey, WorkloadIdentity}

-- The management requests that do not make or end a sandbox.
pub data ServiceRequest : Type 0 where
  sandbox_list continuation_list : ServiceRequest
  sandbox_get template_get pool_refill pool_gc continuation_delete : Fields → ServiceRequest

unfoldable pub serve_request : {W : Type 0} → Setting W → ServiceRequest → Handling W
serve_request setting sandbox_list = handle_sandbox_list setting
serve_request setting continuation_list = handle_continuation_list setting
serve_request setting (sandbox_get f) = handle_sandbox_get setting f
serve_request setting (template_get f) = handle_template_get setting f
serve_request setting (pool_refill f) = handle_pool_refill setting f
serve_request setting (pool_gc f) = handle_pool_gc setting f
serve_request setting (continuation_delete f) = handle_continuation_delete setting f

-- What a template that is in use keeps: its entries, its directories, and that it is in use.
pub record Spares (p q : TemplatePool) (x : String) : Type 0 where
  pub entries : named x (all_templates q) ≡ named x (all_templates p)
  pub dirs : (s : Subdir) → dir_at s x q.disk ≡ dir_at s x p.disk
  pub pin : pinned q x ≡ true

-- A pool that keeps the templates with a restore in flight or a reference.
abbrev pub PoolSpares : Option TemplatePool → Option TemplatePool → Type 0
PoolSpares none o = Unit
PoolSpares (some p) none = ⊥
PoolSpares (some p) (some q) = (x : String) → pinned p x ≡ true → Spares p q x

-- What a request on the pool may not change.
pub record SameCounts (p q : TemplatePool) : Type 0 where
  pub valid : IsValid p → IsValid q
  pub counts : q.in_use_count ≡ p.in_use_count
  pub spares : (x : String) → pinned p x ≡ true → Spares p q x

remove_by_id-Spares :
    (io : Io) (id : String) (kind : SnapshotType) (p : TemplatePool) (x : String)
    → pinned p x ≡ true
    → Spares p (remove_by_id io id kind p).1 x
unfolding evict
remove_by_id-Spares io id kind p x h =
    let k = evict-pinned io (removes id kind) x p h tt in
    record { entries = k.0; dirs = k.1; pin = k.2 }

remove_by_id-SameCounts :
    (io : Io) (id : String) (kind : SnapshotType) (p : TemplatePool)
    → SameCounts p (remove_by_id io id kind p).1
unfolding remove_by_id
remove_by_id-SameCounts io id kind p = record {
  valid = λ v. (remove_by_id-IsValid io id kind).from p v;
  counts = ground arith;
  spares = remove_by_id-Spares io id kind p;
}

begin_refill-SameCounts :
    (io : Io) (k : TemplateKey) (p : TemplatePool) → SameCounts p (begin_refill k p)
unfolding begin_refill step
begin_refill-SameCounts io k p = record {
  valid = λ v. step-IsValid io (Step.begin_refill k) p v;
  counts = refl;
  spares = λ x h. record { entries = refl; dirs = λ s. refl; pin = h };
}

Spares-trans : (p q r : TemplatePool) (x : String) → Spares p q x → Spares q r x → Spares p r x
Spares-trans p q r x a b = record {
  entries = b.entries ∙ a.entries;
  dirs = λ s. b.dirs s ∙ a.dirs s;
  pin = b.pin;
}

PoolSpares-refl : (o : Option TemplatePool) → PoolSpares o o
PoolSpares-refl none = tt
PoolSpares-refl (some p) = λ x h. record { entries = refl; dirs = λ s. refl; pin = h }

PoolSpares-trans :
    (o : Option TemplatePool) (p q : TemplatePool)
    → PoolSpares o (some p)
    → PoolSpares (some p) (some q)
    → PoolSpares o (some q)
PoolSpares-trans none p q a b = tt
PoolSpares-trans (some r) p q a b =
    λ x h. let first = a x h in Spares-trans r p q x first (b x first.pin)

begin_refills-SameCounts :
    (n : ℕ) (io : Io) (k : TemplateKey) (p : TemplatePool) → SameCounts p (begin_refills n k p)
unfolding begin_refills
begin_refills-SameCounts zero io k p = record {
  valid = λ v. v;
  counts = refl;
  spares = PoolSpares-refl (some p);
}
begin_refills-SameCounts (suc n) io k p =
    let q = begin_refill k p in
    let first = begin_refill-SameCounts io k p in
    let rest = begin_refills-SameCounts n io k q in
    record {
      valid = λ v. rest.valid (first.valid v);
      counts = rest.counts ∙ first.counts;
      spares = PoolSpares-trans (some p) q (begin_refills n k q) first.spares rest.spares;
    }

abbrev Good : {W : Type 0} → Option TemplatePool → KuasarSandboxer W → Type 0
Good o st = IsConsistent st × PoolSpares o st.template_pool

module _ {W : Type 0} (setting : Setting W) (before : Option TemplatePool) where
  changed-Good :
      (st : KuasarSandboxer W) (p q : TemplatePool)
      → st.template_pool ≡ some p
      → SameCounts p q
      → Good before st
      → Good before (record st { template_pool = some q })
  changed-Good st p q e k ((u, b), g) = (
    (
      u,
      λ x.
          let c : PoolCounts x (held x st.sandboxes) (some p) =
            subst (PoolCounts x (held x st.sandboxes)) e (b x) in
          (k.valid c.0, subst (λ m. count x m ≡ held x st.sandboxes) (sym k.counts) c.1),
    ),
    PoolSpares-trans before p q (subst (PoolSpares before) e g) k.spares,
  )

  refill_in-Good :
      (f : Fields) (o : Option TemplatePool) (kind : Option String) (st : KuasarSandboxer W)
      → st.template_pool ≡ o
      → Good before st
      → Good before (refill_in setting f o kind st).1
  refill_in-Good f none kind st e c = c
  refill_in-Good f (some p) none st e c = c
  refill_in-Good f (some p) (some kind) st e c = elim (Bool-cases (kind == "environment")) [
    | inl t ↦
        rw t (
          changed-Good st p _ e (begin_refills-SameCounts _ setting.io setting.environment_key p) c)
    | inr t ↦ rw t c
  ]

  remove_kind-Good :
      (p : TemplatePool) (kind id : String) (o : Option SnapshotType) (st : KuasarSandboxer W)
      → st.template_pool ≡ some p
      → Good before st
      → Good before (remove_kind setting p kind id o st).1
  remove_kind-Good p kind id none st e c = c
  remove_kind-Good p kind id (some expected) st e c =
      changed-Good st p _ e (remove_by_id-SameCounts setting.io id expected p) c

  gc_in-Good :
      (o : Option TemplatePool) (kind id : Option String) (st : KuasarSandboxer W)
      → st.template_pool ≡ o
      → Good before st
      → Good before (gc_in setting o kind id st).1
  gc_in-Good none kind id st e c = c
  gc_in-Good (some p) none id st e c = c
  gc_in-Good (some p) (some kind) none st e c = c
  gc_in-Good (some p) (some kind) (some id) st e c = elim (Bool-cases (kind == "continuation")) [
    | inl t ↦ rw t c
    | inr t ↦ rw t (remove_kind-Good p kind id (kind_of kind) st e c)
  ]

  deletion-Good :
      (identity : WorkloadIdentity) (r : Result StoreError Bool × Store)
      → Keeps (Good before) (deletion setting identity r)
  deletion-Good identity (ok removed, s) = record { from = λ st c. c }
  deletion-Good identity (err e, s) = record { from = λ st c. c }

  delete_in-Good : (f : Fields) (o : Option Store) → Keeps (Good before) (delete_in setting f o)
  delete_in-Good f none = record { from = λ st c. c }
  delete_in-Good f (some s) = record {
    from = λ st c.
        (bind-Keeps (Good before) (of_result (field f.pod_uid)) _ (record { from = λ st c. c })
            λ uid.
              bind-Keeps (Good before) (of_result (generation_of f.generation)) _
                (record { from = λ st c. c }) λ n. deletion-Good _ _).from
          st c;
  }

  found-Good : (o : Option (KuasarSandbox W)) → Keeps (Good before) (found setting o)
  found-Good none = record { from = λ st c. c }
  found-Good (some s) = record { from = λ st c. c }

  template_found-Good :
      (o q : Option PooledTemplate) → Keeps (Good before) (template_found setting o q)
  template_found-Good (some t) q = record { from = λ st c. c }
  template_found-Good none (some t) = record { from = λ st c. c }
  template_found-Good none none = record { from = λ st c. c }

  list_in-Good : (o : Option Store) → Keeps (Good before) (list_in setting o)
  list_in-Good none = record { from = λ st c. c }
  list_in-Good (some s) = record { from = λ st c. c }

  serve_request-Good :
      (q : ServiceRequest) (st : KuasarSandboxer W)
      → Good before st
      → Good before (serve_request setting q st).1
  unfolding serve_request handle_sandbox_list handle_continuation_list handle_sandbox_get
      handle_template_get handle_pool_refill handle_pool_gc handle_continuation_delete
  serve_request-Good sandbox_list st c = c
  serve_request-Good continuation_list st c = (list_in-Good st.continuation_store).from st c
  serve_request-Good (sandbox_get f) st c =
      (bind-Keeps (Good before) _ _ (record { from = λ st c. c })
          λ id.
            then-Keeps (Good before) _ _ (record { from = λ st c. c })
              (record { from = λ st. (found-Good (Map.get id st.sandboxes)).from st })).from
        st c
  serve_request-Good (template_get f) st c =
      (bind-Keeps (Good before) _ _ (record { from = λ st c. c })
          λ id. record {
            from = λ st.
                (template_found-Good (in_pool setting id st.template_pool)
                    (in_store setting id st.continuation_store)).from
                  st;
          }).from
        st c
  serve_request-Good (pool_refill f) st c = refill_in-Good f st.template_pool f.kind st refl c
  serve_request-Good (pool_gc f) st c = gc_in-Good st.template_pool f.kind f.template_id st refl c
  serve_request-Good (continuation_delete f) st c =
      (delete_in-Good f st.continuation_store).from st c

module _ {W : Type 0} (setting : Setting W) where
  -- If the pool is valid and counts for every template the sandboxes that keep it, then the same
  -- holds after a management request on the pool, the continuations or the list of sandboxes, answered
  -- or refused; and every template with a restore in flight or a reference keeps its entries in the
  -- pool, its directories on the disk, and that it is in use.
  pub serve_request-IsConsistent :
      (q : ServiceRequest) (st : KuasarSandboxer W)
      → IsConsistent st
      → let st' = (serve_request setting q st).1 in
        IsConsistent st' × PoolSpares st.template_pool st'.template_pool
  serve_request-IsConsistent q st c =
      serve_request-Good setting st.template_pool q st (c, PoolSpares-refl st.template_pool)
