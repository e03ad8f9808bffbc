-- ===== src/Template/Pool/Add.antt =====
-- `add` of vmm/sandbox/src/template/pool.rs, in the four parts that its comments name: the staging
-- directory, the water level, the depth of the key, and the insertion.
use kuasar.Prelude.{
  ℕ, String, Bool, true, false, not, ◌&&◌, Option, none, some, List, [], ◌∷◌, leb, ltb, front,
  length, retain, ◌==◌, if◌then◌else◌,
}
use kuasar.Prelude.Exec.{ok, err, fail, ◌>>=◌, ◌>>◌}
use kuasar.Prelude.Map
use kuasar.Template.Disk.{
  Io, Subdir, Disk, TemplateDir, Removal, removed, not_found, failed, dir_at, write_dir,
  create_dir_all,
}
use kuasar.Template.Pool.Refs.{notify}
use kuasar.Template.Pool.State.{
  TemplatePool, PoolError, Action, panicked, create_dir_failed, watermark_evict_failed,
  watermark_exceeded, max_per_key_exceeded, max_per_key_evict_failed, save_failed, all_templates,
  total_depth, restoring, referenced, template_dir, remove_dir, push_template, retain_other_ids,
}
use kuasar.Template.Types.{
  PooledTemplate, TemplateKey, environment, warm_fork, continuation, is_shared,
}

abbrev pub make_dir : Io → Subdir → String → Action (Unit {0})
make_dir io s id p =
    let (done, d) = create_dir_all io s id p.disk in
    if done then (ok tt, record p { disk = d }) else (err create_dir_failed, record p { disk = d })

-- Remove the staging directory, whatever comes of it, and fail.
abbrev pub abandon : Io → Subdir → String → PoolError → Action (Unit {0})
abandon io s id e = do remove_dir io s id; fail e

-- If a template may be evicted for the water level; `none` is the `unreachable!`.
abbrev pub evictable : TemplatePool → PooledTemplate → Option Bool
evictable p t = elim t.snapshot_type [
  | environment ↦ some (not (referenced p t.id))
  | warm_fork ↦ some (is_shared p.lease_mode && not (referenced p t.id))
  | continuation ↦ none
]

abbrev pub is_older : PooledTemplate → Option PooledTemplate → Bool
is_older t none = true
is_older t (some o) = ltb t.created_at_secs o.created_at_secs

-- The candidate after a template has been looked at.
abbrev pub better : PooledTemplate → Option PooledTemplate → Bool → Option PooledTemplate
better t candidate can_evict = if can_evict && is_older t candidate then some t else candidate

abbrev pub consider :
    TemplatePool → PooledTemplate → Option PooledTemplate → Option (Option PooledTemplate)
consider p t candidate =
    if restoring p t.id
    then some candidate
    else elim (evictable p t) [ none ↦ none | some b ↦ some (better t candidate b) ]

-- The loop for the oldest idle template; `none` is a panic.
unfoldable pub oldest_candidate :
    TemplatePool → List PooledTemplate → Option PooledTemplate → Option (Option PooledTemplate)
oldest_candidate p [] candidate = some candidate
oldest_candidate p (t ∷ ts) candidate = elim (consider p t candidate) [
  | none ↦ none
  | some c ↦ oldest_candidate p ts c
]

-- Unlike in garbage collection, a directory that is not there is an error here.
abbrev pub after_evict : Action (Unit {0}) → Action (Unit {0}) → Removal → Action (Unit {0})
after_evict drop give_up removed = drop
after_evict drop give_up not_found = give_up
after_evict drop give_up failed = give_up

abbrev pub drop_everywhere : String → Action (Unit {0})
drop_everywhere id p = (ok tt, record p { available = retain_other_ids id p.available })

unfoldable pub evict_for_watermark : Io → Subdir → String → PooledTemplate → Action (Unit {0})
evict_for_watermark io s id candidate = do
  s' ← template_dir candidate
  r ← remove_dir io s' candidate.id
  after_evict (drop_everywhere candidate.id) (abandon io s id watermark_evict_failed) r

abbrev pub evict_oldest : Io → Subdir → String → Option (Option PooledTemplate) → Action (Unit {0})
evict_oldest io s id none = fail panicked
evict_oldest io s id (some none) = abandon io s id watermark_exceeded
evict_oldest io s id (some (some candidate)) = evict_for_watermark io s id candidate

-- Step 1: the water level.
unfoldable pub make_room : Io → Subdir → String → Action (Unit {0})
make_room io s id p =
    if leb p.gc_watermark (total_depth p)
    then evict_oldest io s id (oldest_candidate p (all_templates p) none) p
    else (ok tt, p)

unfoldable pub kind_max_per_key : TemplatePool → PooledTemplate → Option ℕ
kind_max_per_key p t = elim t.snapshot_type [
  | environment ↦ some p.environment_max_per_key
  | warm_fork ↦ some p.warmfork_max_per_key
  | continuation ↦ none
]

abbrev pub can_evict : TemplatePool → PooledTemplate → Bool
can_evict p t = not (restoring p t.id) && not (referenced p t.id)

-- The oldest template of a key that is full, and if it may go.
unfoldable pub eviction : TemplatePool → TemplateKey → ℕ → Option (PooledTemplate × Bool)
eviction p k limit = elim (Map.get k.key p.available) [
  | none ↦ none
  | some q ↦
      if leb limit (length q)
      then elim (front q) [ none ↦ none | some oldest ↦ some (oldest, can_evict p oldest) ]
      else none
]

abbrev pub drop_from_key : TemplateKey → String → Action (Unit {0})
drop_from_key k id p = elim (Map.get k.key p.available) [
  | none ↦ (ok tt, p)
  | some q ↦
      (ok tt, record p { available = Map.put k.key (retain (λ t. not (t.id == id)) q) p.available })
]

unfoldable pub evict_from_key :
    Io → Subdir → String → TemplateKey → PooledTemplate × Bool → Action (Unit {0})
evict_from_key io s id k (oldest, false) = abandon io s id max_per_key_exceeded
evict_from_key io s id k (oldest, true) = do
  s' ← template_dir oldest
  r ← remove_dir io s' oldest.id
  after_evict (drop_from_key k oldest.id) (abandon io s id max_per_key_evict_failed) r

-- Step 2: the depth of the key.
unfoldable pub make_key_room : Io → Subdir → PooledTemplate → Action (Unit {0})
make_key_room io s t p = elim (kind_max_per_key p t) [
  | none ↦ fail panicked p
  | some limit ↦ elim (eviction p t.key limit) [
    | none ↦ (ok tt, p)
    | some found ↦ evict_from_key io s t.id t.key found p
  ]
]

abbrev pub save_into : PooledTemplate → Option TemplateDir → Subdir → Disk → Bool × Disk
save_into t none s d = (false, d)
save_into t (some dir) s d = (true, write_dir s t.id (record dir { saved = some t }) d)

-- `PooledTemplate::save`: an atomic write, which needs the directory.
unfoldable pub save : Io → Subdir → PooledTemplate → Disk → Bool × Disk
save io s t d = if io.save_fails s t.id then (false, d) else save_into t (dir_at s t.id d) s d

-- The last part: write the metadata, insert, and wake who waits.
unfoldable pub insert_template : Io → Subdir → PooledTemplate → Action (Unit {0})
insert_template io s t p =
    let (done, d) = save io s t p.disk in
    if done
    then (ok tt, notify (record p { available = push_template t p.available; disk = d }))
    else (err save_failed, record p { disk = d })

unfoldable pub add : Io → PooledTemplate → Action (Unit {0})
add io t = do
  s ← template_dir t
  make_dir io s t.id
  make_room io s t.id
  make_key_room io s t
  insert_template io s t
