-- ===== src/Template/Pool/Step.antt =====
-- Every call that changes a pool (vmm/sandbox/src/template/pool.rs), and histories of calls.
use kuasar.Prelude.{ℕ, String, List, [], ◌∷◌}
use kuasar.Template.Disk.{Io}
use kuasar.Template.Pool.Acquire
use kuasar.Template.Pool.Add
use kuasar.Template.Pool.Gc
use kuasar.Template.Pool.Recovery
use kuasar.Template.Pool.Refs
use kuasar.Template.Pool.State.{TemplatePool}
use kuasar.Template.Types.{PooledTemplate, TemplateKey, SnapshotType}

pub data Op : Type 0 where
  add release : PooledTemplate → Op
  begin_refill end_refill acquire acquire_for_restore : TemplateKey → Op
  peek_latest_for_restore peek_with_ref : TemplateKey → Op
  acquire_by_id acquire_by_id_for_restore end_restore deref ref_template : String → Op
  rebuild_active_refs : List String → List String → Op
  gc_if_needed : Op
  evict_by_kind : SnapshotType → ℕ → Op
  remove_by_id : String → SnapshotType → Op
  cleanup_consumed : String → Op
  gc_orphaned_consumed : List String → Op

-- The pool after a call, whether the call succeeded or not.
unfoldable pub step : Io → Op → TemplatePool → TemplatePool
step io (add t) p = (Add.add io t p).1
step io (release t) p = (Acquire.release io t p).1
step io (begin_refill k) p = Refs.begin_refill k p
step io (end_refill k) p = Refs.end_refill k p
step io (acquire k) p = (Acquire.acquire io k p).1
step io (acquire_for_restore k) p = (Acquire.acquire_for_restore io k p).1
step io (peek_latest_for_restore k) p = (Acquire.peek_latest_for_restore k p).1
step io (peek_with_ref k) p = (Acquire.peek_with_ref k p).1
step io (acquire_by_id id) p = (Acquire.acquire_by_id io id p).1
step io (acquire_by_id_for_restore id) p = (Acquire.acquire_by_id_for_restore io id p).1
step io (end_restore id) p = (Refs.end_restore io id p).1
step io (deref id) p = (Refs.deref io id p).1
step io (ref_template id) p = Refs.ref_template id p
step io (rebuild_active_refs shared pinned) p = Refs.rebuild_active_refs shared pinned p
step io gc_if_needed p = (Gc.gc_if_needed io p).1
step io (evict_by_kind kind n) p = (Gc.evict_by_kind io kind n p).1
step io (remove_by_id id kind) p = (Gc.remove_by_id io id kind p).1
step io (cleanup_consumed id) p = Recovery.cleanup_consumed io id p
step io (gc_orphaned_consumed active) p = Recovery.gc_orphaned_consumed io active p

unfoldable pub run : List (Io × Op) → TemplatePool → TemplatePool
run [] p = p
run ((io, op) ∷ ops) p = run ops (step io op p)
