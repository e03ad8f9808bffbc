-- ===== src/Template/Pool/Acquire.antt =====
-- The methods of vmm/sandbox/src/template/pool.rs that hand a template out, and `release`.
use kuasar.Prelude.{
  String, Bool, true, false, Option, none, some, List, [], ◌∷◌, ◌==◌, back, but_back, find,
  if◌then◌else◌,
}
use kuasar.Prelude.Exec.{Result, pure, ok, ◌>>=◌, ◌>>◌}
use kuasar.Prelude.Map
use kuasar.Prelude.Map.{Map}
use kuasar.Template.Disk.{Io, Subdir, Disk, TemplateDir, dir_at, write_dir}
use kuasar.Template.Pool.State.{
  TemplatePool, Action, panicked, all_templates, template_dir, push_template, increment,
}
use kuasar.Template.Types.{
  PooledTemplate, TemplateKey, SnapshotType, environment, warm_fork, continuation, is_shared,
}

abbrev mark : Subdir → String → Option TemplateDir → Bool → Disk → Bool × Disk
mark s id none made d = (false, d)
mark s id (some t) true d = (true, write_dir s id (record t { consumed = true }) d)
mark s id (some t) false d = (false, d)

-- `write_consumed_marker`: with no directory there is nowhere to make the file. A failed `sync_all`
-- leaves the file behind.
unfoldable pub write_consumed_marker : Io → Subdir → String → Disk → Bool × Disk
write_consumed_marker io s id d = elim (io.write_marker_fault s id) [
  | none ↦ mark s id (dir_at s id d) true d
  | some made ↦ (false, (mark s id (dir_at s id d) made d).1)
]

abbrev write_marker : Io → Subdir → String → Action Bool
write_marker io s id p =
    let (done, d) = write_consumed_marker io s id p.disk in (ok done, record p { disk = d })

abbrev put_back : PooledTemplate → Action (Unit {0})
put_back t p = (ok tt, record p { available = push_template t p.available })

abbrev after_marker : PooledTemplate → Bool → Action (Option PooledTemplate)
after_marker t true = pure (some t)
after_marker t false = do put_back t; pure none

-- A template that has left the pool is marked; if that fails it goes back.
unfoldable pub consume : Io → PooledTemplate → Action (Option PooledTemplate)
consume io t = do s ← template_dir t; done ← write_marker io s t.id; after_marker t done

abbrev pub pop_queue :
    String
    → List PooledTemplate
    → Map (List PooledTemplate)
    → Option PooledTemplate
    → Option (PooledTemplate × Map (List PooledTemplate))
pop_queue k q m none = none
pop_queue k q m (some t) = some (t, Map.put k (but_back q) m)

-- `map.get_mut(key)?.pop_back()`.
unfoldable pub pop_back :
    String → Map (List PooledTemplate) → Option (PooledTemplate × Map (List PooledTemplate))
pop_back k m = elim (Map.get k m) [ none ↦ none | some q ↦ pop_queue k q m (back q) ]

unfoldable pub acquire : Io → TemplateKey → Action (Option PooledTemplate)
acquire io k p = elim (pop_back k.key p.available) [
  | none ↦ pure none p
  | some (t, m) ↦ consume io t (record p { available = m })
]

abbrev pub keep_head :
    PooledTemplate
    → Option (PooledTemplate × List PooledTemplate)
    → Option (PooledTemplate × List PooledTemplate)
keep_head x none = none
keep_head x (some (t, q)) = some (t, x ∷ q)

-- `position` and `remove`.
unfoldable pub remove_first :
    String → List PooledTemplate → Option (PooledTemplate × List PooledTemplate)
remove_first id [] = none
remove_first id (x ∷ q) =
    let rest = keep_head x (remove_first id q) in if x.id == id then some (x, q) else rest

abbrev pub keep_entry :
    String
    → List PooledTemplate
    → Map (List PooledTemplate)
    → Option (PooledTemplate × List PooledTemplate)
    → Option (PooledTemplate × Map (List PooledTemplate))
    → Option (PooledTemplate × Map (List PooledTemplate))
keep_entry k q m (some (t, q')) rest = some (t, (k, q') ∷ m)
keep_entry k q m none none = none
keep_entry k q m none (some (t, m')) = some (t, (k, q) ∷ m')

-- The loop over the queues of `acquire_by_id`.
unfoldable pub take_by_id :
    String → Map (List PooledTemplate) → Option (PooledTemplate × Map (List PooledTemplate))
take_by_id id [] = none
take_by_id id ((k, q) ∷ m) = keep_entry k q m (remove_first id q) (take_by_id id m)

unfoldable pub acquire_by_id : Io → String → Action (Option PooledTemplate)
acquire_by_id io id p = elim (take_by_id id p.available) [
  | none ↦ pure none p
  | some (t, m) ↦ consume io t (record p { available = m })
]

abbrev clear_mark : Option TemplateDir → Subdir → String → Disk → Disk
clear_mark none s id d = d
clear_mark (some t) s id d = write_dir s id (record t { consumed = false }) d

-- `tokio::fs::remove_file` of the marker, whose failure is only logged.
unfoldable pub remove_marker : Io → Subdir → String → Disk → Disk
remove_marker io s id d =
    if io.remove_marker_fails s id then d else clear_mark (dir_at s id d) s id d

abbrev unmark : Io → Subdir → String → Action (Unit {0})
unmark io s id p = (ok tt, record p { disk = remove_marker io s id p.disk })

unfoldable pub release : Io → PooledTemplate → Action (Unit {0})
release io t = do s ← template_dir t; unmark io s t.id; put_back t

-- The newest template of a key.
unfoldable pub latest : TemplateKey → TemplatePool → Option PooledTemplate
latest k p = elim (Map.get k.key p.available) [ none ↦ none | some q ↦ back q ]

unfoldable pub get_template : String → TemplatePool → Option PooledTemplate
get_template id p = find (λ t. t.id == id) (all_templates p)

abbrev pub pin_restore : Option PooledTemplate → Action (Option PooledTemplate)
pin_restore none p = (ok none, p)
pin_restore (some t) p =
    (ok (some t), record p { in_flight_restores = increment t.id p.in_flight_restores })

abbrev pub pin_ref : Option PooledTemplate → Action (Option PooledTemplate)
pin_ref none p = (ok none, p)
pin_ref (some t) p =
    if is_shared p.lease_mode
    then (ok (some t), record p { in_use_count = increment t.id p.in_use_count })
    else (ok none, p)

unfoldable pub peek_latest_for_restore : TemplateKey → Action (Option PooledTemplate)
peek_latest_for_restore k p = pin_restore (latest k p) p

unfoldable pub peek_with_ref : TemplateKey → Action (Option PooledTemplate)
peek_with_ref k p = pin_ref (latest k p) p

unfoldable pub peek_by_id_for_restore : String → Action (Option PooledTemplate)
peek_by_id_for_restore id p = pin_restore (get_template id p) p

unfoldable pub peek_by_id_with_ref : String → Action (Option PooledTemplate)
peek_by_id_with_ref id p = pin_ref (get_template id p) p

abbrev pub by_key : Io → TemplateKey → SnapshotType → Action (Option PooledTemplate)
by_key io k environment p = peek_latest_for_restore k p
by_key io k warm_fork p = if is_shared p.lease_mode then peek_with_ref k p else acquire io k p
by_key io k continuation p = (Result.err panicked, p)

unfoldable pub acquire_for_restore : Io → TemplateKey → Action (Option PooledTemplate)
acquire_for_restore io k p = elim (latest k p) [
  | none ↦ pure none p
  | some t ↦ by_key io k t.snapshot_type p
]

abbrev pub by_id : Io → String → SnapshotType → Action (Option PooledTemplate)
by_id io id environment p = peek_by_id_for_restore id p
by_id io id warm_fork p =
    if is_shared p.lease_mode then peek_by_id_with_ref id p else acquire_by_id io id p
by_id io id continuation p = (Result.err panicked, p)

unfoldable pub acquire_by_id_for_restore : Io → String → Action (Option PooledTemplate)
acquire_by_id_for_restore io id p = elim (get_template id p) [
  | none ↦ pure none p
  | some t ↦ by_id io id t.snapshot_type p
]
