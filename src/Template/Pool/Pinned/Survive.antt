-- ===== src/Template/Pool/Pinned/Survive.antt =====
-- Evictions spare what is pinned.
use kuasar.Prelude.{
  String, ◌≡◌, refl, ◌≢◌, true, Option, some, none, List, ℕ, zero, suc, arith, ==_iff,
}
use kuasar.Prelude.Map
use kuasar.Prelude.Map.{Map, get-put, get-delete}
use kuasar.Prelude.Exec.{Keeps}
use kuasar.Template.Types.{PooledTemplate, SnapshotType}
use kuasar.Template.Disk.{Io, Subdir, environment_dir, warmfork_dir, dir_at, TemplateDir}
use kuasar.Template.Pool.Oldest.{pinned}
use kuasar.Template.Pool.State.{TemplatePool, all_templates}
use kuasar.Template.Pool.Refs.{decrement}
use kuasar.Template.Pool.Refs
use kuasar.Template.Pool.Gc
use kuasar.Template.Pool.Add
use kuasar.Template.Pool.Pinned.Holds.{named, Holds}
use kuasar.Template.Pool.Pinned.Candidates.{kind_pinned}
use kuasar.Template.Pool.Pinned.Evict.{gc_if_needed-Holds, evict_by_kind-Holds, remove_by_id-Holds}
use kuasar.Template.Pool.Pinned.Insert.{add-Holds}

-- The calls that can remove a template which nobody has acquired.
pub data Eviction : Type 0 where
  adds : PooledTemplate → Eviction
  collects : Eviction
  evicts : SnapshotType → ℕ → Eviction
  removes : String → SnapshotType → Eviction
  ends_restore derefs : String → Eviction

unfoldable pub evict : Io → Eviction → TemplatePool → TemplatePool
evict io (adds t) p = (Add.add io t p).1
evict io collects p = (Gc.gc_if_needed io p).1
evict io (evicts kind n) p = (Gc.evict_by_kind io kind n p).1
evict io (removes id kind) p = (Gc.remove_by_id io id kind p).1
evict io (ends_restore id) p = (Refs.end_restore io id p).1
evict io (derefs id) p = (Refs.deref io id p).1

-- The call is not about this template itself; a forced eviction of warm-fork templates from a pool
-- with exclusive leases needs a restore in flight to spare it.
abbrev pub IsForeign : TemplatePool → String → Eviction → Type 0
IsForeign p x (adds t) = t.id ≢ x
IsForeign p x (evicts kind n) = kind_pinned p kind x ≡ true
IsForeign p x (ends_restore id) = id ≢ x
IsForeign p x (derefs id) = id ≢ x
IsForeign p x _ = Unit

contains_key-decrement :
    (id x : String) (m : Map ℕ) (o : Option ℕ)
    → id ≢ x
    → Map.contains_key x (decrement id m o).0 ≡ Map.contains_key x m
unfolding Map.contains_key
contains_key-decrement id x m none h = refl
contains_key-decrement id x m (some zero) h = refl
contains_key-decrement id x m (some (suc zero)) h = ground (arith, ==_iff id x, get-delete id x m)
contains_key-decrement id x m (some (suc (suc n))) h =
    ground (arith, ==_iff id x, get-put id x (suc n) m)

module _ (x : String) (ts : List PooledTemplate) (de dw : Option TemplateDir) (io : Io) where
  end_restore-Holds : (id : String) → id ≢ x → Keeps (Holds x ts de dw) (Refs.end_restore io id)
  unfolding Refs.end_restore
  end_restore-Holds id h = record {
    from = λ p v.
        let next = decrement id p.in_flight_restores (Map.get id p.in_flight_restores) in
        let p' = record p { in_flight_restores = next.0 } in
        let kept =
          contains_key-decrement id x p.in_flight_restores (Map.get id p.in_flight_restores) h in
        ground (arith, kept, (gc_if_needed-Holds x ts de dw io).from p');
  }

  deref-Holds : (id : String) → id ≢ x → Keeps (Holds x ts de dw) (Refs.deref io id)
  unfolding Refs.deref
  deref-Holds id h = record {
    from = λ p v.
        let next = decrement id p.in_use_count (Map.get id p.in_use_count) in
        let p' = record p { in_use_count = next.0 } in
        let kept = contains_key-decrement id x p.in_use_count (Map.get id p.in_use_count) h in
        ground (arith, kept, (gc_if_needed-Holds x ts de dw io).from p');
  }

  evict-Holds :
      (e : Eviction) (p : TemplatePool)
      → IsForeign p x e
      → Holds x ts de dw p
      → Holds x ts de dw (evict io e p)
  unfolding evict
  evict-Holds (adds t) p f v = (add-Holds x ts de dw io t f).from p v
  evict-Holds collects p f v = (gc_if_needed-Holds x ts de dw io).from p v
  evict-Holds (evicts kind n) p f v = evict_by_kind-Holds x ts de dw io kind n p f v
  evict-Holds (removes id kind) p f v = (remove_by_id-Holds x ts de dw io id kind).from p v
  evict-Holds (ends_restore id) p f v = (end_restore-Holds id f).from p v
  evict-Holds (derefs id) p f v = (deref-Holds id f).from p v

-- While a template id has a restore in flight or a reference, a call of `add`, `gc_if_needed`,
-- `evict_by_kind` or `remove_by_id`, or of `end_restore` or `deref` with the collection that they
-- trigger, leaves the entries of that id and its directories as they were and the id pinned,
-- whatever calls of the operating system fail; provided that the call is not about the id itself
-- and that a forced eviction of warm-fork templates under exclusive leases meets a restore.
pub evict-pinned :
    (io : Io) (e : Eviction) (x : String) (p : TemplatePool)
    → pinned p x ≡ true
    → IsForeign p x e
    → (named x (all_templates (evict io e p)) ≡ named x (all_templates p))
      × ((s : Subdir) → dir_at s x (evict io e p).disk ≡ dir_at s x p.disk)
      × (pinned (evict io e p) x ≡ true)
evict-pinned io e x p pin f = (held.entries, on_disk, held.pin)
  where
    held :
        Holds x
          (named x (all_templates p))
          (dir_at environment_dir x p.disk)
          (dir_at warmfork_dir x p.disk)
          (evict io e p)
    held =
        evict-Holds x _ _ _ io e p f
          (record { entries = refl; environment = refl; warmfork = refl; pin = pin })

    on_disk : (s : Subdir) → dir_at s x (evict io e p).disk ≡ dir_at s x p.disk
    on_disk environment_dir = held.environment
    on_disk warmfork_dir = held.warmfork
