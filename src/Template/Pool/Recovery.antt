-- ===== src/Template/Pool/Recovery.antt =====
-- What vmm/sandbox/src/template/pool.rs does on a restart, and when the sandbox of a consumed
-- template is deleted.
use kuasar.Prelude.{
  ℕ, String, Bool, true, false, not, ◌&&◌, ◌||◌, Option, none, some, List, [], ◌∷◌, ◌==◌, any,
  if◌then◌else◌,
}
use kuasar.Prelude.Map.{Map}
use kuasar.Template.Disk.{
  Disk, Io, Subdir, environment_dir, warmfork_dir, TemplateDir, dir_at, read_dir, seen_consumed,
  remove_dir_all,
}
use kuasar.Template.Pool.State
use kuasar.Template.Pool.State.{TemplatePool, push_template}
use kuasar.Template.Types.{PooledTemplate, TemplateLeaseMode}

abbrev pub loaded : Io → Subdir → String → TemplateDir → Option PooledTemplate
loaded io s name dir =
    if seen_consumed io s name dir then none else if io.load_fails s name then none else dir.saved

abbrev pub push_loaded :
    Option PooledTemplate → Map (List PooledTemplate) → Map (List PooledTemplate)
push_loaded none m = m
push_loaded (some t) m = push_template t m

-- The scan of one subdirectory.
unfoldable pub load_entries :
    Io → Subdir → Map TemplateDir → Map (List PooledTemplate) → Map (List PooledTemplate)
load_entries io s [] m = m
load_entries io s ((name, dir) ∷ entries) m =
    load_entries io s entries (push_loaded (loaded io s name dir) m)

-- `none` is the error that `store_dir` could not be made.
unfoldable pub load_from_disk :
    Io → Bool → Disk → ℕ → ℕ → ℕ → TemplateLeaseMode → Bool → Option TemplatePool
load_from_disk io create_fails d environment_max warmfork_max gc_watermark lease_mode reflink =
    let pool = State.new d environment_max warmfork_max gc_watermark lease_mode reflink in
    if create_fails
    then none
    else some (record pool {
      available =
          load_entries io warmfork_dir (read_dir io warmfork_dir d)
            (load_entries io environment_dir (read_dir io environment_dir d) []);
    })

abbrev there : Option TemplateDir → Bool
there none = false
there (some t) = true

abbrev dir_exists : Io → Subdir → String → Disk → Bool
dir_exists io s id d = there (dir_at s id d) && not (io.exists_fails s id)

unfoldable pub find_template_dir : Io → String → Disk → Subdir
find_template_dir io id d =
    if dir_exists io environment_dir id d
    then environment_dir
    else if dir_exists io warmfork_dir id d
    then warmfork_dir
    else environment_dir

abbrev marker_exists : Io → Subdir → String → Option TemplateDir → Bool
marker_exists io s id none = false
marker_exists io s id (some t) = seen_consumed io s id t

-- An error of the marker's `stat` ends the call, as does a missing marker.
unfoldable pub cleanup_consumed : Io → String → TemplatePool → TemplatePool
cleanup_consumed io id p =
    let s = find_template_dir io id p.disk in
    if marker_exists io s id (dir_at s id p.disk)
    then record p { disk = (remove_dir_all io s id p.disk).1 }
    else p

abbrev remove_orphan : Io → Subdir → List String → String → TemplateDir → Disk → Disk
remove_orphan io s active name dir d =
    if not (seen_consumed io s name dir) || any (λ id. id == name) active
    then d
    else (remove_dir_all io s name d).1

unfoldable pub remove_orphans : Io → Subdir → List String → Map TemplateDir → Disk → Disk
remove_orphans io s active [] d = d
remove_orphans io s active ((name, dir) ∷ entries) d =
    remove_orphans io s active entries (remove_orphan io s active name dir d)

unfoldable pub gc_orphaned_consumed : Io → List String → TemplatePool → TemplatePool
gc_orphaned_consumed io active p =
    let d = remove_orphans io environment_dir active (read_dir io environment_dir p.disk) p.disk in
    record p { disk = remove_orphans io warmfork_dir active (read_dir io warmfork_dir d) d }
