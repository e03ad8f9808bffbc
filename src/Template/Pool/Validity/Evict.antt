-- ===== src/Template/Pool/Validity/Evict.antt =====
-- The evicting methods and the counters keep a pool valid.
use kuasar.Prelude.{
  none, ℕ, String, List, [], ◌∷◌, inl, inr, arith, All, Option, some, Bool-cases, retain, take,
  length, ◌-◌, zero, suc,
}
use kuasar.Prelude.Exec.{Keeps, bind-Keeps}
use kuasar.Template.Pool.Refs.{decrement, end_restore, deref}
use kuasar.Prelude.Sort.{sort_by_key}
use kuasar.Prelude.Map
use kuasar.Prelude.Map.{Map}
use kuasar.Template.Disk.{Io}
use kuasar.Template.Types.{PooledTemplate, SnapshotType}
use kuasar.Template.Pool.State.{total_depth, all_templates}
use kuasar.Template.Pool.Gc.{
  gc_candidates, kind_evictable, remove_candidate, remove_candidates, gc_if_needed, remove_by_id,
  evict_by_kind,
}
use kuasar.Template.Pool.Validity.{IsPositive, IsValid, retain_other_ids-filed}

pub remove_candidate-IsValid :
    (io : Io) (t : PooledTemplate) → Keeps IsValid (remove_candidate io t)
unfolding remove_candidate
remove_candidate-IsValid io t = record {
  from = λ p v. ground (arith, retain_other_ids-filed t.id p.available);
}

pub remove_candidates-IsValid :
    (io : Io) (ts : List PooledTemplate) (n : ℕ) → Keeps IsValid (remove_candidates io ts n)
unfolding remove_candidates
remove_candidates-IsValid io [] n = record { from = λ p v. v }
remove_candidates-IsValid io (t ∷ ts) n =
    bind-Keeps (remove_candidate io t) _ (remove_candidate-IsValid io t)
      λ done. remove_candidates-IsValid io ts _

pub gc_if_needed-IsValid : (io : Io) → Keeps IsValid (gc_if_needed io)
unfolding gc_if_needed
gc_if_needed-IsValid io = record {
  from = λ p v.
      let cs = take (total_depth p - p.gc_watermark) (gc_candidates p) in
      ground (arith, (remove_candidates-IsValid io cs 0).from p v);
}

pub evict_by_kind-IsValid :
    (io : Io) (kind : SnapshotType) (n : ℕ) → Keeps IsValid (evict_by_kind io kind n)
unfolding evict_by_kind
evict_by_kind-IsValid io kind n = record {
  from = λ p v.
      let found = retain (kind_evictable p kind) (all_templates p) in
      let cs = take (length found - n) (sort_by_key (λ t. t.created_at_secs) found) in
      ground (arith, (remove_candidates-IsValid io cs 0).from p v);
}

pub remove_by_id-IsValid :
    (io : Io) (id : String) (kind : SnapshotType) → Keeps IsValid (remove_by_id io id kind)
unfolding remove_by_id
remove_by_id-IsValid io id kind = record {
  from = λ p v. ground (arith, retain_other_ids-filed id p.available);
}

decrement-IsPositive :
    (id : String) (m : Map ℕ) (o : Option ℕ)
    → All IsPositive m
    → All IsPositive (decrement id m o).0
decrement-IsPositive id m none h = h
decrement-IsPositive id m (some zero) h = h
decrement-IsPositive id m (some (suc zero)) h = Map.All-delete IsPositive id m h
decrement-IsPositive id m (some (suc (suc n))) h = Map.All-put IsPositive id _ m (omega arith) h

pub end_restore-IsValid : (io : Io) (id : String) → Keeps IsValid (end_restore io id)
unfolding end_restore
end_restore-IsValid io id = record {
  from = λ p v.
      let next = decrement id p.in_flight_restores (Map.get id p.in_flight_restores) in
      let p' = record p { in_flight_restores = next.0 } in
      let v' : IsValid p' = record {
        filed = v.filed;
        refills = v.refills;
        references = v.references;
        restores = decrement-IsPositive id p.in_flight_restores _ v.restores;
      } in
      elim (Bool-cases next.1) [
        | inl e ↦ rw (e, end_restore) ((gc_if_needed-IsValid io).from p' v')
        | inr e ↦ rw (e, end_restore) v'
      ];
}

pub deref-IsValid : (io : Io) (id : String) → Keeps IsValid (deref io id)
unfolding deref
deref-IsValid io id = record {
  from = λ p v.
      let next = decrement id p.in_use_count (Map.get id p.in_use_count) in
      let p' = record p { in_use_count = next.0 } in
      let v' : IsValid p' = record {
        filed = v.filed;
        refills = v.refills;
        restores = v.restores;
        references = decrement-IsPositive id p.in_use_count _ v.references;
      } in
      elim (Bool-cases next.1) [
        | inl e ↦ rw (e, deref) ((gc_if_needed-IsValid io).from p' v')
        | inr e ↦ rw (e, deref) v'
      ];
}
