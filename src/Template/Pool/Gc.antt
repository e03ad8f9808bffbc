-- ===== src/Template/Pool/Gc.antt =====
-- The methods of vmm/sandbox/src/template/pool.rs that evict templates: garbage collection, forced
-- eviction and removal by id, with what they share.
use kuasar.Prelude.{
  ℕ, ◌+◌, ◌-◌, String, Bool, true, false, not, ◌&&◌, ◌||◌, none, some, List, [], ◌∷◌, leb, ◌==◌,
  find, length, retain, take, any, if◌then◌else◌,
}
use kuasar.Prelude.Exec.{ok, pure, fail, ◌>>=◌, ◌>>◌, and_then}
use kuasar.Prelude.Sort.{sort_by_key}
use kuasar.Template.Disk.{Io, Removal, removed, not_found, failed}
use kuasar.Template.Pool.State.{
  TemplatePool, Action, panicked, wrong_kind, being_restored, in_use, remove_failed, all_templates,
  total_depth, restoring, referenced, template_dir, remove_dir, retain_other_ids,
}
use kuasar.Template.Types.{
  PooledTemplate, SnapshotType, environment, warm_fork, continuation, same_type, is_shared,
}

-- The test of `gc_if_needed` on a template.
unfoldable pub gc_evictable : TemplatePool → PooledTemplate → Bool
gc_evictable p t =
    if restoring p t.id
    then false
    else if referenced p t.id
    then false
    else not (same_type t.snapshot_type warm_fork && not (is_shared p.lease_mode))

unfoldable pub gc_candidates : TemplatePool → List PooledTemplate
gc_candidates p = sort_by_key (λ t. t.created_at_secs) (retain (gc_evictable p) (all_templates p))

abbrev pub drop_template : String → Action (Unit {0})
drop_template id p = (ok tt, record p { available = retain_other_ids id p.available })

abbrev pub after_removal : PooledTemplate → Removal → Action Bool
after_removal t failed = pure false
after_removal t not_found = do drop_template t.id; pure true
after_removal t removed = do drop_template t.id; pure true

-- One round of the loop: the directory goes first, and the entry only if that did not fail.
unfoldable pub remove_candidate : Io → PooledTemplate → Action Bool
remove_candidate io t = do s ← template_dir t; r ← remove_dir io s t.id; after_removal t r

unfoldable pub remove_candidates : Io → List PooledTemplate → ℕ → Action ℕ
remove_candidates io [] deleted = pure deleted
remove_candidates io (t ∷ ts) deleted = do
  done ← remove_candidate io t
  remove_candidates io ts (if done then deleted + 1 else deleted)

unfoldable pub gc_if_needed : Io → Action (Unit {0})
gc_if_needed io p =
    let total = total_depth p in
    if leb total p.gc_watermark
    then (ok tt, p)
    else and_then (remove_candidates io (take (total - p.gc_watermark) (gc_candidates p)) 0 p)
        λ _. pure tt

-- The test of `evict_by_kind` on a template; for a continuation snapshot it is `unreachable!`.
unfoldable pub kind_evictable : TemplatePool → SnapshotType → PooledTemplate → Bool
kind_evictable p kind t =
    if not (same_type t.snapshot_type kind) || restoring p t.id
    then false
    else elim t.snapshot_type [
      | environment ↦ not (referenced p t.id)
      | warm_fork ↦ not (is_shared p.lease_mode) || not (referenced p t.id)
      | continuation ↦ false
    ]

abbrev kind_panics : TemplatePool → SnapshotType → PooledTemplate → Bool
kind_panics p kind t =
    same_type kind continuation && same_type t.snapshot_type continuation && not (restoring p t.id)

unfoldable pub evict_by_kind : Io → SnapshotType → ℕ → Action ℕ
evict_by_kind io kind target_depth p =
    let candidates = retain (kind_evictable p kind) (all_templates p) in
    let current = length candidates in
    if any (kind_panics p kind) (all_templates p)
    then fail panicked p
    else if leb current target_depth
    then pure 0 p
    else remove_candidates io
        (take (current - target_depth) (sort_by_key (λ t. t.created_at_secs) candidates)) 0 p

abbrev pub after_removal_by_id : String → Removal → Action Bool
after_removal_by_id id failed = fail remove_failed
after_removal_by_id id not_found = do drop_template id; pure true
after_removal_by_id id removed = do drop_template id; pure true

unfoldable pub remove_by_id : Io → String → SnapshotType → Action Bool
remove_by_id io id expected_kind p = elim (find (λ t. t.id == id) (all_templates p)) [
  | none ↦ pure false p
  | some t ↦
      if not (same_type t.snapshot_type expected_kind)
      then fail wrong_kind p
      else if restoring p t.id
      then fail being_restored p
      else if referenced p t.id
      then fail in_use p
      else (do s ← template_dir t; r ← remove_dir io s t.id; after_removal_by_id id r) p
]
