-- ===== src/Continuation/Scan.antt =====
-- The methods of vmm/sandbox/src/template/continuation.rs that walk over the whole store. A listing
-- names the entries that were there when it was opened; each is looked at again when its turn comes.
use kuasar.Prelude.{
  ℕ, ◌+◌, String, Bool, true, false, not, ◌&&◌, ◌||◌, Option, none, some, List, [], ◌∷◌, ◌++◌, ◌==◌,
  any, if◌then◌else◌,
}
use kuasar.Prelude.Exec.{Exec, Result, ok, err, pure, ◌>>=◌}
use kuasar.Prelude.Map
use kuasar.Prelude.Map.{Map, keys}
use kuasar.Template.Disk.{TemplateDir}
use kuasar.Template.Types.{PooledTemplate}
use kuasar.Continuation.Store.{
  EntryPath, Store, StoreIo, StoreError, opened, missing, unreadable, root_unreadable,
  pod_listing_failed, entry_listing_failed, delete_failed, entries_of, entry_at, Removed, gone,
  absent, kept, remove_entry,
}

abbrev consumed_at : StoreIo → EntryPath → TemplateDir → Bool
consumed_at io path dir = dir.consumed && not (io.marker_stat_fails path)

-- `PooledTemplate::load`.
abbrev pub load : StoreIo → EntryPath → TemplateDir → Option PooledTemplate
load io path dir = if io.load_fails path then none else dir.saved

abbrev listed : StoreIo → EntryPath → Option TemplateDir → List PooledTemplate
listed io path none = []
listed io path (some dir) =
    if io.entry_skipped path || consumed_at io path dir
    then []
    else elim (load io path dir) [ none ↦ [] | some t ↦ t ∷ [] ]

unfoldable pub list_entries : StoreIo → String → List String → Store → List PooledTemplate
list_entries io pod [] s = []
list_entries io pod (name ∷ names) s =
    let rest = list_entries io pod names s in
    if io.next_entry_fails pod (some name)
    then []
    else listed io (pod, name) (entry_at (pod, name) s) ++ rest

unfoldable pub list_pods : StoreIo → List String → Store → List PooledTemplate
list_pods io [] s = []
list_pods io (pod ∷ pods) s =
    let rest = list_pods io pods s in
    if io.next_pod_fails (some pod)
    then []
    else if io.pod_skipped pod
    then rest
    else list_entries io pod (keys (entries_of pod s)) s ++ rest

unfoldable pub list : StoreIo → Store → List PooledTemplate
list io s = elim io.root_read [ opened ↦ list_pods io (keys s) s | missing ↦ [] | unreadable ↦ [] ]

abbrev counted : ℕ → Removed × Store → ℕ × Store
counted n (gone, s) = (n + 1, s)
counted n (absent, s) = (n, s)
counted n (kept, s) = (n, s)

abbrev gc_loaded : StoreIo → List String → EntryPath → ℕ → Option PooledTemplate → Store → ℕ × Store
gc_loaded io active path n none s = (n, s)
gc_loaded io active path n (some t) s =
    if any (λ id. id == t.id) active then (n, s) else counted n (remove_entry io path s)

abbrev gc_dir : StoreIo → List String → EntryPath → ℕ → Option TemplateDir → Store → ℕ × Store
gc_dir io active path n none s = (n, s)
gc_dir io active path n (some dir) s =
    if io.entry_skipped path || not (consumed_at io path dir)
    then (n, s)
    else gc_loaded io active path n (load io path dir) s

unfoldable pub gc_entry : StoreIo → List String → EntryPath → ℕ → Store → ℕ × Store
gc_entry io active path n s = gc_dir io active path n (entry_at path s) s

-- The number of entries that were removed.
unfoldable pub gc_entries :
    StoreIo → List String → String → List String → ℕ → Exec StoreError Store ℕ
gc_entries io active pod [] n s =
    if io.next_entry_fails pod none then (err entry_listing_failed, s) else (ok n, s)
gc_entries io active pod (name ∷ names) n s =
    let (n', s') = gc_entry io active (pod, name) n s in
    let rest = gc_entries io active pod names n' s' in
    if io.next_entry_fails pod (some name) then (err entry_listing_failed, s) else rest

abbrev remove_if_empty : String → Option (Map TemplateDir) → Store → Store
remove_if_empty pod none s = s
remove_if_empty pod (some []) s = Map.delete pod s
remove_if_empty pod (some (e ∷ es)) s = s

-- `remove_dir` of a pod's directory, which removes an empty one only.
unfoldable pub remove_empty_pod : StoreIo → String → ℕ → Exec StoreError Store ℕ
remove_empty_pod io pod n s =
    if io.remove_pod_fails pod then (ok n, s) else (ok n, remove_if_empty pod (Map.get pod s) s)

abbrev pub gc_pod : StoreIo → List String → String → ℕ → Exec StoreError Store ℕ
gc_pod io active pod n s =
    if io.pod_skipped pod
    then (ok n, s)
    else (do n' ← gc_entries io active pod (keys (entries_of pod s)) n; remove_empty_pod io pod n')
        s

unfoldable pub gc_pods : StoreIo → List String → List String → ℕ → Exec StoreError Store ℕ
gc_pods io active [] n s = if io.next_pod_fails none then (err pod_listing_failed, s) else (ok n, s)
gc_pods io active (pod ∷ pods) n s =
    let rest = (do n' ← gc_pod io active pod n; gc_pods io active pods n') s in
    if io.next_pod_fails (some pod) then (err pod_listing_failed, s) else rest

unfoldable pub gc_orphaned_consumed : StoreIo → List String → Exec StoreError Store ℕ
gc_orphaned_consumed io active s = elim io.root_read [
  | opened ↦ gc_pods io active (keys s) 0 s
  | missing ↦ (ok 0, s)
  | unreadable ↦ (err root_unreadable, s)
]

-- `none` goes on with the next entry.
abbrev deleted_at : StoreIo → String → Removed × Store → Result StoreError (Option Bool) × Store
deleted_at io pod (gone, s) = (ok (some true), (remove_empty_pod io pod 0 s).1)
deleted_at io pod (absent, s) = (ok (some false), s)
deleted_at io pod (kept, s) = (err delete_failed, s)

abbrev delete_loaded :
    StoreIo → String → EntryPath → Option PooledTemplate → Exec StoreError Store (Option Bool)
delete_loaded io id path none s = (ok none, s)
delete_loaded io id path (some t) s =
    if not (t.id == id) then (ok none, s) else deleted_at io path.0 (remove_entry io path s)

abbrev delete_dir :
    StoreIo → String → EntryPath → Option TemplateDir → Exec StoreError Store (Option Bool)
delete_dir io id path none s = (ok none, s)
delete_dir io id path (some dir) s =
    if io.entry_skipped path then (ok none, s) else delete_loaded io id path (load io path dir) s

unfoldable pub delete_in_pod :
    StoreIo → String → String → List String → Exec StoreError Store (Option Bool)
delete_in_pod io id pod [] s =
    if io.next_entry_fails pod none then (err entry_listing_failed, s) else (ok none, s)
delete_in_pod io id pod (name ∷ names) s =
    let rest =
      (do
        found ← delete_dir io id (pod, name) (entry_at (pod, name) s)
        elim found [ none ↦ delete_in_pod io id pod names | some b ↦ pure (some b) ])
        s in
    if io.next_entry_fails pod (some name) then (err entry_listing_failed, s) else rest

abbrev delete_pod : StoreIo → String → String → Exec StoreError Store (Option Bool)
delete_pod io id pod s =
    if io.pod_skipped pod then (ok none, s) else delete_in_pod io id pod (keys (entries_of pod s)) s

unfoldable pub delete_in_pods : StoreIo → String → List String → Exec StoreError Store Bool
delete_in_pods io id [] s =
    if io.next_pod_fails none then (err pod_listing_failed, s) else (ok false, s)
delete_in_pods io id (pod ∷ pods) s =
    let rest =
      (do
        found ← delete_pod io id pod
        elim found [ none ↦ delete_in_pods io id pods | some b ↦ pure b ])
        s in
    if io.next_pod_fails (some pod) then (err pod_listing_failed, s) else rest

unfoldable pub delete_by_template_id : StoreIo → String → Exec StoreError Store Bool
delete_by_template_id io id s = elim io.root_read [
  | opened ↦ delete_in_pods io id (keys s) s
  | missing ↦ (ok false, s)
  | unreadable ↦ (err root_unreadable, s)
]
