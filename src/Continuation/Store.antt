-- ===== src/Continuation/Store.antt =====
-- `ContinuationStore` and `ContinuationLease` of vmm/sandbox/src/template/continuation.rs. A store is
-- its directory: the pods, and for each the entries by their names.
use kuasar.Prelude.{
  String, Bool, true, false, not, ◌&&◌, ◌||◌, Option, none, some, [], ◌==◌, eqb, if◌then◌else◌,
  is_some,
}
use kuasar.Prelude.Exec.{Exec, Result, ok, err}
use kuasar.Prelude.Map
use kuasar.Prelude.Map.{Map}
use kuasar.Prelude.Text.{append, show_u32}
use kuasar.Template.Disk.{TemplateDir}
use kuasar.Template.Types.{PooledTemplate, WorkloadIdentity, continuation, same_type}

-- The pod and the name of the entry.
abbrev pub EntryPath : Type 0
EntryPath = String × String

abbrev pub Store : Type 0
Store = Map (Map TemplateDir)

pub data RootRead : Type 0 where
  opened missing unreadable : RootRead

-- The calls of the operating system that fail, and what a failed call leaves behind.
pub record StoreIo : Type 0 where
  -- `some made`: `made` says if the pod's directory is there all the same.
  pub create_fault : EntryPath → Option Bool
  -- `some saved`: what is there as metadata afterwards.
  pub save_fault : EntryPath → Option (Option PooledTemplate)
  pub exists_fails : EntryPath → Bool
  pub marker_stat_fails : EntryPath → Bool
  pub load_fails : EntryPath → Bool
  pub marker_fault : EntryPath → Option Bool
  pub remove_marker_fails : EntryPath → Bool
  pub remove_fault : EntryPath → Option (TemplateDir → TemplateDir)
  pub remove_pod_fails : String → Bool
  pub root_read : RootRead
  -- The pod's path is no directory, or its listing cannot be opened; the entry is no directory.
  pub pod_skipped : String → Bool
  pub entry_skipped : EntryPath → Bool
  -- The listing breaks off before this entry, or (`none`) before its end is seen.
  pub next_pod_fails : Option String → Bool
  pub next_entry_fails : String → Option String → Bool

pub data StoreError : Type 0 where
  identity_missing create_failed save_failed delete_failed : StoreError
  root_unreadable pod_listing_failed entry_listing_failed : StoreError

unfoldable pub entry_dir : WorkloadIdentity → EntryPath
entry_dir identity = (identity.pod_uid, append "g" (show_u32 identity.generation))

-- The store at a restart; `none` is the error that its directory could not be made.
unfoldable pub load_from_disk : Bool → Store → Option Store
load_from_disk create_fails s = if create_fails then none else some s

abbrev or_empty : Option (Map TemplateDir) → Map TemplateDir
or_empty none = []
or_empty (some m) = m

abbrev pub entries_of : String → Store → Map TemplateDir
entries_of pod s = or_empty (Map.get pod s)

unfoldable pub entry_at : EntryPath → Store → Option TemplateDir
entry_at (pod, name) s = Map.get name (entries_of pod s)

unfoldable pub write_entry : EntryPath → TemplateDir → Store → Store
write_entry (pod, name) t s = Map.put pod (Map.put name t (entries_of pod s)) s

unfoldable pub delete_entry : EntryPath → Store → Store
delete_entry (pod, name) s = Map.put pod (Map.delete name (entries_of pod s)) s

abbrev make_pod : String → Bool → Store → Store
make_pod pod true s = Map.put pod (entries_of pod s) s
make_pod pod false s = s

abbrev pub with_metadata : Option TemplateDir → Option PooledTemplate → TemplateDir
with_metadata none saved = record { saved = saved; consumed = false }
with_metadata (some t) saved = record t { saved = saved }

abbrev save_metadata : StoreIo → EntryPath → PooledTemplate → Exec StoreError Store (Unit {0})
save_metadata io path t s = elim (io.save_fault path) [
  | none ↦ (ok tt, write_entry path (with_metadata (entry_at path s) (some t)) s)
  | some saved ↦ (err save_failed, write_entry path (with_metadata (entry_at path s) saved) s)
]

abbrev save_at : StoreIo → EntryPath → PooledTemplate → Exec StoreError Store (Unit {0})
save_at io path t s = elim (io.create_fault path) [
  | none ↦ save_metadata io path t s
  | some made ↦ (err create_failed, make_pod path.0 made s)
]

unfoldable pub save : StoreIo → PooledTemplate → Exec StoreError Store (Unit {0})
save io t s = elim t.workload_identity [
  | none ↦ (err identity_missing, s)
  | some identity ↦ save_at io (entry_dir identity) t s
]

abbrev pub same_identity : WorkloadIdentity → WorkloadIdentity → Bool
same_identity a b = a.pod_uid == b.pod_uid && eqb a.generation b.generation

abbrev pub declares : Option WorkloadIdentity → WorkloadIdentity → Bool
declares none identity = false
declares (some identity') identity = same_identity identity' identity

-- The marker of a directory that is there.
abbrev write_marker :
    StoreIo → EntryPath → PooledTemplate → TemplateDir → Store → Option PooledTemplate × Store
write_marker io path t dir s = elim (io.marker_fault path) [
  | none ↦ (some t, write_entry path (record dir { consumed = true }) s)
  | some true ↦ (none, write_entry path (record dir { consumed = true }) s)
  | some false ↦ (none, s)
]

abbrev checked :
    StoreIo
    → WorkloadIdentity
    → TemplateDir
    → Option PooledTemplate
    → Store
    → Option PooledTemplate × Store
checked io identity dir none s = (none, s)
checked io identity dir (some t) s =
    if not (same_type t.snapshot_type continuation) || not (declares t.workload_identity identity)
    then (none, s)
    else write_marker io (entry_dir identity) t dir s

abbrev acquire_dir :
    StoreIo → WorkloadIdentity → Option TemplateDir → Store → Option PooledTemplate × Store
acquire_dir io identity none s = (none, s)
acquire_dir io identity (some dir) s =
    let path = entry_dir identity in
    if io.exists_fails path
    then (none, s)
    else if dir.consumed && not (io.marker_stat_fails path)
    then (none, s)
    else if io.load_fails path
    then (none, s)
    else checked io identity dir dir.saved s

-- The template of the lease, if there is one.
unfoldable pub acquire : StoreIo → WorkloadIdentity → Store → Option PooledTemplate × Store
acquire io identity s = acquire_dir io identity (entry_at (entry_dir identity) s) s

abbrev clear_marker : EntryPath → Option TemplateDir → Store → Store
clear_marker path none s = s
clear_marker path (some dir) s = write_entry path (record dir { consumed = false }) s

abbrev unmark : StoreIo → EntryPath → Store → Store
unmark io path s = if io.remove_marker_fails path then s else clear_marker path (entry_at path s) s

-- `ContinuationLease::fail`, on the lease's template.
unfoldable pub fail_lease : StoreIo → Option PooledTemplate → Store → Store
fail_lease io none s = s
fail_lease io (some t) s = elim t.workload_identity [
  | none ↦ s
  | some identity ↦ unmark io (entry_dir identity) s
]

-- `ContinuationLease::complete`.
unfoldable pub complete_lease : StoreIo → Option PooledTemplate → Store → Store
complete_lease io lease s = s

pub data Removed : Type 0 where
  gone absent kept : Removed

abbrev remove_there :
    StoreIo → EntryPath → Option (TemplateDir → TemplateDir) → TemplateDir → Store → Removed × Store
remove_there io path none dir s = (gone, delete_entry path s)
remove_there io path (some left) dir s = (kept, write_entry path (left dir) s)

abbrev remove_at : StoreIo → EntryPath → Option TemplateDir → Store → Removed × Store
remove_at io path none s = if is_some (io.remove_fault path) then (kept, s) else (absent, s)
remove_at io path (some dir) s = remove_there io path (io.remove_fault path) dir s

-- `remove_dir_all` of an entry.
unfoldable pub remove_entry : StoreIo → EntryPath → Store → Removed × Store
remove_entry io path s = remove_at io path (entry_at path s) s

abbrev deleted : Removed × Store → Result StoreError Bool × Store
deleted (gone, s) = (ok true, s)
deleted (absent, s) = (ok false, s)
deleted (kept, s) = (err delete_failed, s)

unfoldable pub delete : StoreIo → WorkloadIdentity → Exec StoreError Store Bool
delete io identity s = deleted (remove_entry io (entry_dir identity) s)
