-- ===== src/Template/Pool/Validity.antt =====
-- What holds of a pool between any two calls (vmm/sandbox/src/template/pool.rs).
pub mod Evict
pub mod Take
pub mod Insert
pub mod Run
use kuasar.Prelude.{
  none, ℕ, ◌<◌, String, ◌≡◌, false, not, List, [], ◌∷◌, ◌==◌, inl, inr, arith, All, All-append,
  All-retain, Option-cases, Option, some, Bool-cases, retain, back, but_back, All-but_back, take,
  length, ◌-◌, zero, suc, refl,
}
use kuasar.Prelude.Exec.{Keeps, bind-Keeps}
use kuasar.Template.Pool.Refs.{decrement, end_restore, deref}
use kuasar.Template.Pool.Acquire.{
  keep_head, keep_entry, pin_restore, pin_ref, by_key, by_id, peek_latest_for_restore,
  peek_with_ref, peek_by_id_for_restore, peek_by_id_with_ref, latest, get_template,
  acquire_for_restore, acquire_by_id_for_restore, consume, release, acquire, pop_back, pop_queue,
  remove_first, take_by_id, acquire_by_id,
}
use kuasar.Prelude.Sort.{sort_by_key}
use kuasar.Prelude.Map
use kuasar.Prelude.Map.{Map}
use kuasar.Template.Disk.{Io}
use kuasar.Template.Types.{
  environment, warm_fork, PooledTemplate, SnapshotType, continuation, same_type, TemplateKey,
}
use kuasar.Template.Pool.State.{
  total_depth, all_templates, TemplatePool, push_template, retain_other_ids, increment, subdir_of,
}
use kuasar.Template.Pool.Gc.{
  gc_candidates, kind_evictable, remove_candidate, remove_candidates, gc_if_needed, remove_by_id,
  evict_by_kind,
}

-- The template lies under its own key, and is no continuation snapshot.
abbrev pub Filed : String → PooledTemplate → Type 0
Filed k t = (t.key.key ≡ k) × (same_type t.snapshot_type continuation ≡ false)

abbrev pub FiledQueue : String × List PooledTemplate → Type 0
FiledQueue (k, q) = All (Filed k) q

abbrev pub IsPositive : String × ℕ → Type 0
IsPositive (k, n) = 0 < n

pub record IsValid (p : TemplatePool) : Type 0 where
  pub filed : All FiledQueue p.available
  pub refills : All IsPositive p.in_flight_refills
  pub restores : All IsPositive p.in_flight_restores
  pub references : All IsPositive p.in_use_count

pub push_template-filed :
    (t : PooledTemplate) (m : Map (List PooledTemplate))
    → same_type t.snapshot_type continuation ≡ false
    → All FiledQueue m
    → All FiledQueue (push_template t m)
unfolding push_template
push_template-filed t m c h = elim (Option-cases (Map.get t.key.key m)) [
  | inl e ↦ rw (e, push_template) (Map.All-put FiledQueue _ _ m ((refl, c), tt) h)
  | inr (q, e) ↦ rw e (
      Map.All-put FiledQueue _ _ m
        (All-append (Filed t.key.key) q (t ∷ []) (Map.All-get FiledQueue t.key.key m h e)
          ((refl, c), tt))
        h)
]

pub retain_other_ids-filed :
    (id : String) (m : Map (List PooledTemplate))
    → All FiledQueue m
    → All FiledQueue (retain_other_ids id m)
unfolding retain_other_ids
retain_other_ids-filed id m =
    Map.All-map_values FiledQueue _ m (λ k q. All-retain (Filed k) (λ t. not (t.id == id)) q)

pub increment-IsPositive :
    (id : String) (m : Map ℕ) → All IsPositive m → All IsPositive (increment id m)
unfolding increment
increment-IsPositive id m h = elim (Option-cases (Map.get id m)) [
  | inl e ↦ rw (e, increment) (Map.All-put IsPositive id 1 m (omega arith) h)
  | inr (n, e) ↦ rw (e, increment) (Map.All-put IsPositive id _ m (omega arith) h)
]
