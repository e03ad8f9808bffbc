-- ===== src/Template/Pool/Crash.antt =====
-- The `consumed` marker of vmm/sandbox/src/template/pool.rs: an exclusive template that has been
-- handed out does not come back with a restart, until it is released.
use kuasar.Prelude.{
  String, Bool, ◌≡◌, refl, ◌∙◌, true, false, Option, none, some, List, [], ◌∷◌, ==_refl, arith,
  Option-cases, Bool-cases, inl, inr, ℕ, if◌then◌else◌, ap,
}
use kuasar.Prelude.Exec.{Result, ok}
use kuasar.Prelude.Map.{Map}
use kuasar.Template.Disk.{
  Io, Disk, Subdir, environment_dir, warmfork_dir, TemplateDir, dir_at, dir_at-write_dir, read_dir,
  same_subdir,
}
use kuasar.Template.Types.{
  PooledTemplate, TemplateKey, TemplateLeaseMode, environment, warm_fork, continuation,
}
use kuasar.Template.Pool.State.{TemplatePool, PoolError}
use kuasar.Template.Pool.Acquire.{
  write_consumed_marker, consume, acquire, acquire_by_id, take_by_id, pop_back,
}
use kuasar.Template.Pool.Recovery.{loaded, push_loaded, load_entries, load_from_disk}

abbrev unconsumed_dirs : Map TemplateDir → Map TemplateDir
unconsumed_dirs [] = []
unconsumed_dirs ((name, dir) ∷ m) =
    let rest = unconsumed_dirs m in if dir.consumed then rest else (name, dir) ∷ rest

-- The disk without the directories that hold the marker.
abbrev pub without_consumed : Disk → Disk
without_consumed d = record {
  environment = unconsumed_dirs d.environment;
  warmfork = unconsumed_dirs d.warmfork;
}

abbrev pub available_of : Option TemplatePool → Map (List PooledTemplate)
available_of none = []
available_of (some p) = p.available

load_entries-unconsumed :
    (io : Io) (s : Subdir) (entries : Map TemplateDir) (m : Map (List PooledTemplate))
    → ((id : String) → io.stat_fails s id ≡ false)
    → load_entries io s entries m ≡ load_entries io s (unconsumed_dirs entries) m
unfolding load_entries
load_entries-unconsumed io s [] m h = refl
load_entries-unconsumed io s ((name, dir) ∷ entries) m h = elim (Bool-cases dir.consumed) [
  | inl e ↦ ground (arith, h name, load_entries-unconsumed io s entries m h)
  | inr e ↦
      ground (arith, load_entries-unconsumed io s entries (push_loaded (loaded io s name dir) m) h)
]

scan-unconsumed :
    (io : Io) (s : Subdir) (d : Disk) (m : Map (List PooledTemplate))
    → ((id : String) → io.stat_fails s id ≡ false)
    → io.next_entry_stops s ≡ none
    → load_entries io s (read_dir io s d) m
      ≡ load_entries io s (read_dir io s (without_consumed d)) m
unfolding read_dir
scan-unconsumed io environment_dir d m h whole =
    ground (arith, load_entries-unconsumed io environment_dir d.environment m h)
scan-unconsumed io warmfork_dir d m h whole =
    ground (arith, load_entries-unconsumed io warmfork_dir d.warmfork m h)

-- A restart that can read the markers, and the whole listing, offers exactly the templates that a
-- restart would offer if every directory with a marker were gone: what was handed out is not
-- offered again, and nothing else is lost.
pub load_from_disk-unconsumed :
    (io : Io) (d : Disk) (environment_max warmfork_max gc_watermark : ℕ)
    (lease_mode : TemplateLeaseMode) (reflink : Bool)
    → ((s : Subdir) (id : String) → io.stat_fails s id ≡ false)
    → ((s : Subdir) → io.next_entry_stops s ≡ none)
    → available_of
        (load_from_disk io false d environment_max warmfork_max gc_watermark lease_mode reflink)
      ≡ available_of (
          load_from_disk io false
            (without_consumed d)
            environment_max
            warmfork_max
            gc_watermark
            lease_mode
            reflink)
unfolding load_from_disk
load_from_disk-unconsumed io d environment_max warmfork_max gc_watermark lease_mode reflink h
      whole =
    let scan = load_entries io environment_dir (read_dir io environment_dir d) [] in
    scan-unconsumed io warmfork_dir d scan (h warmfork_dir) (whole warmfork_dir)
    ∙ ap (load_entries io warmfork_dir (read_dir io warmfork_dir (without_consumed d)))
        (scan-unconsumed io environment_dir d [] (h environment_dir) (whole environment_dir))

abbrev holds_marker : Option TemplateDir → Bool
holds_marker none = false
holds_marker (some dir) = dir.consumed

-- Whether the directory of a template holds the marker; a continuation has none here.
abbrev pub marked : PooledTemplate → Disk → Bool
marked t d = elim t.snapshot_type [
  | environment ↦ holds_marker (dir_at environment_dir t.id d)
  | warm_fork ↦ holds_marker (dir_at warmfork_dir t.id d)
  | continuation ↦ false
]

write_consumed_marker-marks :
    (io : Io) (s : Subdir) (id : String) (d : Disk)
    → (write_consumed_marker io s id d).0 ≡ true
    → holds_marker (dir_at s id (write_consumed_marker io s id d).1) ≡ true
unfolding write_consumed_marker
write_consumed_marker-marks io s id d h = elim (Option-cases (io.write_marker_fault s id)) [
  | inr (made, e) ↦ ground arith
  | inl e ↦ elim (Option-cases (dir_at s id d)) [
    | inl e' ↦ ground arith
    | inr (t, e') ↦
        ground
          (arith, dir_at-write_dir s id (record t { consumed = true }) d s id, ==_refl id, same s)
  ]
]
  where
    same : (s : Subdir) → same_subdir s s ≡ true
    same environment_dir = refl
    same warmfork_dir = refl

-- The method handed nothing out, or a template whose directory holds the marker.
abbrev pub marks_answer : Result PoolError (Option PooledTemplate) × TemplatePool → Bool
marks_answer (Result.err e, q) = true
marks_answer (ok none, q) = true
marks_answer (ok (some t), q) = marked t q.disk

consume-marks :
    (io : Io) (t : PooledTemplate) (p : TemplatePool) → marks_answer (consume io t p) ≡ true
unfolding consume
consume-marks io t p = ground (
  arith,
  write_consumed_marker-marks io environment_dir t.id p.disk,
  write_consumed_marker-marks io warmfork_dir t.id p.disk,
)

acquire-marks :
    (io : Io) (k : TemplateKey) (p : TemplatePool) → marks_answer (acquire io k p) ≡ true
unfolding acquire
acquire-marks io k p = elim (Option-cases (pop_back k.key p.available)) [
  | inl e ↦ rw (e, acquire) refl
  | inr ((t, m), e) ↦ rw (e, acquire) (consume-marks io t (record p { available = m }))
]

acquire_by_id-marks :
    (io : Io) (id : String) (p : TemplatePool) → marks_answer (acquire_by_id io id p) ≡ true
unfolding acquire_by_id
acquire_by_id-marks io id p = elim (Option-cases (take_by_id id p.available)) [
  | inl e ↦ rw (e, acquire_by_id) refl
  | inr ((t, m), e) ↦ rw (e, acquire_by_id) (consume-marks io t (record p { available = m }))
]

-- Whatever fails, a template that `acquire` or `acquire_by_id` hands out has the marker in its
-- directory when the method returns.
pub acquire-crash_safe :
    (io : Io) (k : TemplateKey) (id : String) (p : TemplatePool)
    → (marks_answer (acquire io k p) ≡ true) × (marks_answer (acquire_by_id io id p) ≡ true)
acquire-crash_safe io k id p = (acquire-marks io k p, acquire_by_id-marks io id p)
