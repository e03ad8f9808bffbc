-- ===== src/Template/Pool/Validity/Run.antt =====
-- Every call keeps a pool valid, so every history of calls does.
use kuasar.Prelude.{
  String, List, [], ◌∷◌, ◌++◌, All, arith, ℕ, Option, some, none, eqb, Bool, Bool-cases, inl, inr,
}
use Prim.Native.Nat.{◌-◌}
use kuasar.Prelude.Map
use kuasar.Prelude.Map.{Map}
use kuasar.Template.Disk.{Io, Disk}
use kuasar.Template.Types.{TemplateLeaseMode}
use kuasar.Template.Pool.State.{TemplatePool, new}
use kuasar.Template.Pool.Refs.{
  begin_refill, end_refill, ref_template, rebuild_active_refs, count_ids, drop_refill,
}
use kuasar.Template.Pool.Recovery.{cleanup_consumed, gc_orphaned_consumed}
use kuasar.Template.Pool.Step.{Op, step, run}
use kuasar.Template.Pool.Acquire.{peek_latest_for_restore, peek_with_ref, latest}
use kuasar.Template.Pool.Validity.{IsPositive, IsValid, increment-IsPositive}
use kuasar.Template.Pool.Validity.Evict.{
  gc_if_needed-IsValid, evict_by_kind-IsValid, remove_by_id-IsValid, end_restore-IsValid,
  deref-IsValid,
}
use kuasar.Template.Pool.Validity.Take.{
  release-IsValid, acquire-IsValid, acquire_by_id-IsValid, acquire_for_restore-IsValid,
  acquire_by_id_for_restore-IsValid, pin_restore-IsValid, pin_ref-IsValid,
}
use kuasar.Template.Pool.Validity.Insert.{add-IsValid}

count_ids-IsPositive :
    (ids : List String) (m : Map ℕ) → All IsPositive m → All IsPositive (count_ids ids m)
unfolding count_ids
count_ids-IsPositive [] m h = h
count_ids-IsPositive (id ∷ ids) m h = count_ids-IsPositive ids _ (increment-IsPositive id m h)

drop_refill-IsPositive :
    (k : String) (m : Map ℕ) (o : Option ℕ) → All IsPositive m → All IsPositive (drop_refill k m o)
drop_refill-IsPositive k m none h = h
drop_refill-IsPositive k m (some n) h = elim (Bool-cases (eqb (n - 1) 0)) [
  | inl e ↦ rw (e, drop_refill) (rw (Map.delete-put k (n - 1) m) (Map.All-delete IsPositive k m h))
  | inr e ↦ rw (e, drop_refill) (Map.All-put IsPositive k _ m (ground arith) h)
]

pub step-IsValid : (io : Io) (op : Op) (p : TemplatePool) → IsValid p → IsValid (step io op p)
unfolding step
step-IsValid io (Op.add t) p v = (add-IsValid io t).from p v
step-IsValid io (Op.release t) p v = (release-IsValid io t).from p v
step-IsValid io (Op.begin_refill k) p v =
    unfold begin_refill in ground (arith, increment-IsPositive k.key p.in_flight_refills v.refills)
step-IsValid io (Op.end_refill k) p v =
    unfold end_refill in
    ground (
      arith,
      drop_refill-IsPositive k.key p.in_flight_refills (Map.get k.key p.in_flight_refills)
          v.refills,
    )
step-IsValid io (Op.acquire k) p v = (acquire-IsValid io k).from p v
step-IsValid io (Op.acquire_for_restore k) p v = (acquire_for_restore-IsValid io k).from p v
step-IsValid io (Op.peek_latest_for_restore k) p v =
    unfold peek_latest_for_restore in (pin_restore-IsValid (latest k p)).from p v
step-IsValid io (Op.peek_with_ref k) p v =
    unfold peek_with_ref in (pin_ref-IsValid (latest k p)).from p v
step-IsValid io (Op.acquire_by_id id) p v = (acquire_by_id-IsValid io id).from p v
step-IsValid io (Op.acquire_by_id_for_restore id) p v =
    (acquire_by_id_for_restore-IsValid io id).from p v
step-IsValid io (Op.end_restore id) p v = (end_restore-IsValid io id).from p v
step-IsValid io (Op.deref id) p v = (deref-IsValid io id).from p v
step-IsValid io (Op.ref_template id) p v =
    unfold ref_template in ground (arith, increment-IsPositive id p.in_use_count v.references)
step-IsValid io (Op.rebuild_active_refs shared pinned) p v =
    unfold rebuild_active_refs in ground (arith, count_ids-IsPositive (shared ++ pinned) [] tt)
step-IsValid io Op.gc_if_needed p v = (gc_if_needed-IsValid io).from p v
step-IsValid io (Op.evict_by_kind kind n) p v = (evict_by_kind-IsValid io kind n).from p v
step-IsValid io (Op.remove_by_id id kind) p v = (remove_by_id-IsValid io id kind).from p v
step-IsValid io (Op.cleanup_consumed id) p v = unfold cleanup_consumed in ground arith
step-IsValid io (Op.gc_orphaned_consumed active) p v = unfold gc_orphaned_consumed in ground arith

run_from-IsValid : (ops : List (Io × Op)) (p : TemplatePool) → IsValid p → IsValid (run ops p)
unfolding run
run_from-IsValid [] p v = v
run_from-IsValid ((io, op) ∷ ops) p v = run_from-IsValid ops _ (step-IsValid io op p v)

-- After any history of calls on a new pool, with any failures of the operating system, every
-- template lies under its own key, none is a continuation snapshot, and every counter that the pool
-- holds (refills, restores in flight, references) is at least one.
pub run-IsValid :
    (store_dir : Disk) (environment_max warmfork_max watermark : ℕ) (mode : TemplateLeaseMode)
    (reflink : Bool) (ops : List (Io × Op))
    → IsValid (run ops (new store_dir environment_max warmfork_max watermark mode reflink))
unfolding new
run-IsValid store_dir environment_max warmfork_max watermark mode reflink ops =
    run_from-IsValid ops _ (record { filed = tt; refills = tt; restores = tt; references = tt })
