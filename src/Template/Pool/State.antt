-- ===== src/Template/Pool/State.antt =====
-- The state of `TemplatePool` (vmm/sandbox/src/template/pool.rs) and the helpers of its methods.
-- A mutex is the field that it guards; `store_dir` is what the directory holds.
use kuasar.Prelude.{
  ℕ, ◌+◌, String, Bool, not, none, some, Option, List, [], ◌∷◌, ◌==◌, length, push_back, retain,
}
use kuasar.Prelude.Exec.{Exec, ok, pure, fail}
use kuasar.Prelude.Map
use kuasar.Prelude.Map.{Map, flat_values}
use kuasar.Template.Disk.{Disk, Io, Subdir, environment_dir, warmfork_dir, Removal, remove_dir_all}
use kuasar.Template.Types.{
  PooledTemplate, TemplateLeaseMode, SnapshotType, environment, warm_fork, continuation,
}

pub record TemplatePool : Type 0 where
  pub available : Map (List PooledTemplate)
  pub disk : Disk
  pub environment_max_per_key : ℕ
  pub warmfork_max_per_key : ℕ
  pub in_flight_refills : Map ℕ
  pub in_flight_restores : Map ℕ
  pub template_ready : ℕ
  pub in_use_count : Map ℕ
  pub gc_watermark : ℕ
  pub lease_mode : TemplateLeaseMode
  pub reflink_supported : Bool

-- The errors of the methods. `panicked` is an `unreachable!` or an `expect` that was reached.
pub data PoolError : Type 0 where
  panicked create_dir_failed watermark_evict_failed watermark_exceeded : PoolError
  max_per_key_exceeded max_per_key_evict_failed save_failed : PoolError
  wrong_kind being_restored in_use remove_failed : PoolError

abbrev pub Action : Type 0 → Type 0
Action A = Exec PoolError TemplatePool A

unfoldable pub new : Disk → ℕ → ℕ → ℕ → TemplateLeaseMode → Bool → TemplatePool
new store_dir environment_max_per_key warmfork_max_per_key gc_watermark lease_mode reflink =
    record {
      available = [];
      disk = store_dir;
      environment_max_per_key = environment_max_per_key;
      warmfork_max_per_key = warmfork_max_per_key;
      in_flight_refills = [];
      in_flight_restores = [];
      template_ready = 0;
      in_use_count = [];
      gc_watermark = gc_watermark;
      lease_mode = lease_mode;
      reflink_supported = reflink;
    }

abbrev pub all_templates : TemplatePool → List PooledTemplate
all_templates p = flat_values p.available

abbrev pub queue_lengths : List (List PooledTemplate) → ℕ
queue_lengths [] = 0
queue_lengths (q ∷ qs) = length q + queue_lengths qs

unfoldable pub total_depth : TemplatePool → ℕ
total_depth p = queue_lengths (Map.values p.available)

abbrev pub restoring : TemplatePool → String → Bool
restoring p id = Map.contains_key id p.in_flight_restores

abbrev pub referenced : TemplatePool → String → Bool
referenced p id = Map.contains_key id p.in_use_count

-- The subdirectory in which the directory of a template of this type lies.
abbrev pub subdir_of : SnapshotType → Action Subdir
subdir_of environment = pure environment_dir
subdir_of warm_fork = pure warmfork_dir
subdir_of continuation = fail panicked

abbrev pub template_dir : PooledTemplate → Action Subdir
template_dir t = subdir_of t.snapshot_type

abbrev pub remove_dir : Io → Subdir → String → Action Removal
remove_dir io s id p = let (r, d) = remove_dir_all io s id p.disk in (ok r, record p { disk = d })

abbrev pub or_default : Option (List PooledTemplate) → List PooledTemplate
or_default none = []
or_default (some q) = q

-- `entry(key).or_default()`.
abbrev pub queue_or_default : String → Map (List PooledTemplate) → List PooledTemplate
queue_or_default k m = or_default (Map.get k m)

-- `entry(tmpl.key.clone()).or_default().push_back(tmpl)`.
unfoldable pub push_template :
    PooledTemplate → Map (List PooledTemplate) → Map (List PooledTemplate)
push_template t m = Map.put t.key.key (push_back (queue_or_default t.key.key m) t) m

-- `values_mut().for_each(|q| q.retain(|t| t.id != id))`.
unfoldable pub retain_other_ids : String → Map (List PooledTemplate) → Map (List PooledTemplate)
retain_other_ids id = Map.map_values (retain (λ t. not (t.id == id)))

-- `entry(id).or_insert(0) += 1`.
unfoldable pub increment : String → Map ℕ → Map ℕ
increment id m = elim (Map.get id m) [ none ↦ Map.put id 1 m | some n ↦ Map.put id (n + 1) m ]
