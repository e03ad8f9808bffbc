-- ===== src/Template/Pool/Rollback.antt =====
-- A restore that fails (vmm/sandbox/src/template/pool.rs): what `TemplateLease::fail` undoes.
use kuasar.Prelude.Map
use kuasar.Template.Pool.Refs.{end_restore, deref, ref_template, decrement}
use kuasar.Prelude.{
  String, Option, none, some, ℕ, arith, Option-cases, inl, inr, ◌≡◌, refl, List, ◌⊎◌, but_back,
}
use kuasar.Prelude.Exec.{Keeps, pure, ◌>>=◌}
use kuasar.Prelude.Map.{Map}
use kuasar.Template.Disk.{Io}
use kuasar.Template.Types.{
  PooledTemplate, TemplateKey, SnapshotType, environment, warm_fork, continuation, exclusive,
  shared, TemplateLeaseMode,
}
use kuasar.Template.Pool.State.{Action, TemplatePool}
use kuasar.Template.Pool.Acquire.{
  consume, pop_back, acquire, release, acquire_for_restore, pin_restore, latest,
  peek_latest_for_restore, peek_with_ref,
}
use kuasar.Template.Pool.Lease.{new, fail_lease}
use kuasar.Template.Pool.Counting.{
  Counts, count, count-increment, count-decrement, gc_if_needed-Counts,
}
use kuasar.Template.Pool.Acquire.{
  acquire_by_id_for_restore, peek_by_id_for_restore, peek_by_id_with_ref, acquire_by_id,
  get_template,
}
use kuasar.Template.Pool.Chosen.{found-taken}

abbrev give_back : Io → Option PooledTemplate → Action (Unit {0})
give_back io none = pure tt
give_back io (some t) = do l ← new t; fail_lease io l

-- The newest template of a key, or the template with an id.
pub data Choice : Type 0 where
  with_key : TemplateKey → Choice
  with_id : String → Choice

abbrev pub choose : Io → Choice → Action (Option PooledTemplate)
choose io (with_key k) = acquire_for_restore io k
choose io (with_id id) = acquire_by_id_for_restore io id

-- A template is chosen, and its lease is made and failed.
unfoldable pub failed_restore : Io → Choice → Action (Unit {0})
failed_restore io c = do o ← choose io c; give_back io o

module _ (x : String) (io : Io) where
  consume-Counts :
      (restores refs : Map ℕ) (t : PooledTemplate) → Keeps (Counts restores refs) (consume io t)
  unfolding consume
  consume-Counts restores refs t = record { from = λ p v. ground arith }

  release-Counts :
      (restores refs : Map ℕ) (t : PooledTemplate) → Keeps (Counts restores refs) (release io t)
  unfolding release
  release-Counts restores refs t = record { from = λ p v. ground arith }

  acquire-Counts :
      (k : TemplateKey) (restores refs : Map ℕ) → Keeps (Counts restores refs) (acquire io k)
  unfolding acquire
  acquire-Counts k restores refs = record {
    from = λ p v. elim (Option-cases (pop_back k.key p.available)) [
      | inl e ↦ rw (e, acquire) v
      | inr ((t, m), e) ↦
          rw (e, acquire) ((consume-Counts restores refs t).from (record p { available = m }) v)
    ];
  }

-- What a restore that is given up has to leave as it was.
abbrev pub SameCounts : String → TemplatePool → TemplatePool → Type 0
SameCounts x p q =
    (count x q.in_flight_restores ≡ count x p.in_flight_restores)
    × (count x q.in_use_count ≡ count x p.in_use_count)

module _ (x : String) (io : Io) (p : TemplatePool) where
  pin_restore-end_restore :
      (t : PooledTemplate) → SameCounts x p (end_restore io t.id (pin_restore (some t) p).1).1
  unfolding end_restore
  pin_restore-end_restore t =
      let p' = (pin_restore (some t) p).1 in
      let next = decrement t.id p'.in_flight_restores (Map.get t.id p'.in_flight_restores) in
      let q = record p' { in_flight_restores = next.0 } in
      ground (
        arith,
        count-increment t.id x p.in_flight_restores,
        count-decrement t.id x p'.in_flight_restores _ refl,
        (gc_if_needed-Counts next.0 p.in_use_count io).from q (refl, refl),
      )

  pin_ref-deref : (t : PooledTemplate) → SameCounts x p (deref io t.id (ref_template t.id p)).1
  unfolding deref ref_template
  pin_ref-deref t =
      let p' = ref_template t.id p in
      let next = decrement t.id p'.in_use_count (Map.get t.id p'.in_use_count) in
      let q = record p' { in_use_count = next.0 } in
      ground (
        arith,
        count-increment t.id x p.in_use_count,
        count-decrement t.id x p'.in_use_count _ refl,
        (gc_if_needed-Counts p.in_flight_restores next.0 io).from q (refl, refl),
      )

  consume-give_back :
      (t : PooledTemplate) (m : Map (List PooledTemplate))
      → t.snapshot_type ≡ warm_fork
      → p.lease_mode ≡ exclusive
      → SameCounts x p ((consume io t >>= give_back io) (record p { available = m })).1
  unfolding consume new fail_lease release
  consume-give_back t m e e' = ground arith

  latest-pop_back :
      (k : TemplateKey) (t : PooledTemplate)
      → latest k p ≡ some t
      → (m : Map (List PooledTemplate)) × (pop_back k.key p.available ≡ some (t, m))
  unfolding latest pop_back
  latest-pop_back k t e = elim (Option-cases (Map.get k.key p.available)) [
    | inl none_there ↦ ground arith
    | inr (q, there) ↦ (Map.put k.key (but_back q) p.available, ground arith)
  ]

  type-cases : (s : SnapshotType) → ((s ≡ environment) ⊎ (s ≡ warm_fork)) ⊎ (s ≡ continuation)
  type-cases environment = inl (inl refl)
  type-cases warm_fork = inl (inr refl)
  type-cases continuation = inr refl

  mode-cases : (s : TemplateLeaseMode) → (s ≡ shared) ⊎ (s ≡ exclusive)
  mode-cases shared = inl refl
  mode-cases exclusive = inr refl

  with_key-counts : (k : TemplateKey) → SameCounts x p (failed_restore io (with_key k) p).1
  unfolding failed_restore acquire_for_restore peek_latest_for_restore peek_with_ref new fail_lease
      acquire ref_template
  with_key-counts k = elim (Option-cases (latest k p)) [
    | inl e ↦ ground arith
    | inr (t, e) ↦ elim (type-cases t.snapshot_type) [
      | inl (inl type) ↦ ground (arith, pin_restore-end_restore t)
      | inl (inr type) ↦ elim (mode-cases p.lease_mode) [
        | inl mode ↦ ground (arith, pin_ref-deref t)
        | inr mode ↦
            let (m, popped) = latest-pop_back k t e in
            ground (arith, popped, consume-give_back t m type mode)
      ]
      | inr type ↦ ground arith
    ]
  ]

  with_id-counts : (id : String) → SameCounts x p (failed_restore io (with_id id) p).1
  unfolding failed_restore acquire_by_id_for_restore peek_by_id_for_restore peek_by_id_with_ref new
      fail_lease acquire_by_id ref_template get_template
  with_id-counts id = elim (Option-cases (get_template id p)) [
    | inl e ↦ ground arith
    | inr (t, e) ↦ elim (type-cases t.snapshot_type) [
      | inl (inl type) ↦ ground (arith, pin_restore-end_restore t)
      | inl (inr type) ↦ elim (mode-cases p.lease_mode) [
        | inl mode ↦ ground (arith, pin_ref-deref t)
        | inr mode ↦
            let (m, taken) = found-taken id p.available t e in
            ground (arith, taken, consume-give_back t m type mode)
      ]
      | inr type ↦ ground arith
    ]
  ]

  -- Choosing the newest template of a key with `acquire_for_restore`, or the template with an id with
  -- `acquire_by_id_for_restore`, making a lease of what that gives, if anything, and failing the lease
  -- leaves every count of restores in flight and of references as it was before, whatever the type of
  -- the template, the lease mode, and what calls of the operating system fail.
  pub failed_restore-counts : (c : Choice) → SameCounts x p (failed_restore io c p).1
  failed_restore-counts (with_key k) = with_key-counts k
  failed_restore-counts (with_id id) = with_id-counts id
