-- ===== src/Template/Pool/Refs.antt =====
-- The counters of vmm/sandbox/src/template/pool.rs: restores in flight, references of running
-- sandboxes, and background refills.
use kuasar.Prelude.{
  ℕ, zero, suc, ◌+◌, ◌-◌, ◌%◌, ◌^◌, String, Bool, true, false, Option, none, some, List, [], ◌∷◌,
  ◌++◌, eqb, if◌then◌else◌,
}
use kuasar.Prelude.Exec.{ok}
use kuasar.Prelude.Map
use kuasar.Prelude.Map.{Map}
use kuasar.Template.Disk.{Io}
use kuasar.Template.Pool.Gc.{gc_if_needed}
use kuasar.Template.Pool.State.{TemplatePool, Action, increment}
use kuasar.Template.Types.{TemplateKey}

-- What `end_restore` and `deref` do to a counter, and if it fell to zero.
abbrev pub decrement : String → Map ℕ → Option ℕ → Map ℕ × Bool
decrement id m none = (m, false)
decrement id m (some zero) = (m, false)
decrement id m (some (suc zero)) = (Map.delete id m, true)
decrement id m (some (suc (suc n))) = (Map.put id (suc n) m, false)

unfoldable pub end_restore : Io → String → Action (Unit {0})
end_restore io id p =
    let (restores, trigger_gc) =
      decrement id p.in_flight_restores (Map.get id p.in_flight_restores) in
    let p' = record p { in_flight_restores = restores } in
    if trigger_gc then gc_if_needed io p' else (ok tt, p')

unfoldable pub deref : Io → String → Action (Unit {0})
deref io id p =
    let (counts, trigger_gc) = decrement id p.in_use_count (Map.get id p.in_use_count) in
    let p' = record p { in_use_count = counts } in
    if trigger_gc then gc_if_needed io p' else (ok tt, p')

unfoldable pub ref_template : String → TemplatePool → TemplatePool
ref_template id p = record p { in_use_count = increment id p.in_use_count }

unfoldable pub count_ids : List String → Map ℕ → Map ℕ
count_ids [] counts = counts
count_ids (id ∷ ids) counts = count_ids ids (increment id counts)

unfoldable pub rebuild_active_refs : List String → List String → TemplatePool → TemplatePool
rebuild_active_refs shared_container_ids env_non_copy_pinned_ids p = record p {
  in_use_count = count_ids (shared_container_ids ++ env_non_copy_pinned_ids) [];
}

unfoldable pub begin_refill : TemplateKey → TemplatePool → TemplatePool
begin_refill k p = record p { in_flight_refills = increment k.key p.in_flight_refills }

-- The version of the watch channel is a `u64`.
unfoldable pub notify : TemplatePool → TemplatePool
notify p = record p { template_ready = (p.template_ready + 1) % 2 ^ 64 }

abbrev pub drop_refill : String → Map ℕ → Option ℕ → Map ℕ
drop_refill k m none = m
drop_refill k m (some n) =
    let left = n - 1 in if eqb left 0 then Map.delete k (Map.put k left m) else Map.put k left m

unfoldable pub end_refill : TemplateKey → TemplatePool → TemplatePool
unfolding notify
end_refill k p = notify (record p {
  in_flight_refills = drop_refill k.key p.in_flight_refills (Map.get k.key p.in_flight_refills);
})

unfoldable pub in_flight_count_for_key : TemplateKey → TemplatePool → ℕ
in_flight_count_for_key k p = elim (Map.get k.key p.in_flight_refills) [ none ↦ 0 | some n ↦ n ]
