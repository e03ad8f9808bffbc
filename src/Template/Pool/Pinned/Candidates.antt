-- ===== src/Template/Pool/Pinned/Candidates.antt =====
-- What the evicting methods choose is not pinned.
use kuasar.Prelude.{
  All-intro, String, ◌≡◌, ◌≢◌, true, false, not, ◌&&◌, ◌||◌, none, List, arith, take, retain, All,
  All-take, All-mono, All-retain_test, ℕ, Bool,
}
use kuasar.Prelude.Sort.{sort_by_key, All-sort_by_key}
use kuasar.Template.Types.{PooledTemplate, SnapshotType, warm_fork, is_shared, same_type}
use kuasar.Template.Pool.State.{TemplatePool, all_templates, restoring, referenced}
use kuasar.Template.Pool.Gc.{gc_evictable, gc_candidates, kind_evictable}
use kuasar.Template.Pool.Add.{oldest_candidate}
use kuasar.Template.Pool.Oldest.{pinned, Chosen, oldest_candidate-Chosen}

-- `evict_by_kind` takes a warm-fork template of a pool with exclusive leases whatever refers to it;
-- what guards a template from it is then the restore alone.
abbrev pub kind_pinned : TemplatePool → SnapshotType → String → Bool
kind_pinned p kind x =
    restoring p x || (referenced p x && (is_shared p.lease_mode || not (same_type kind warm_fork)))

module _ (p : TemplatePool) (x : String) where
  gc_evictable-ne : (t : PooledTemplate) → pinned p x ≡ true → gc_evictable p t ≡ true → t.id ≢ x
  unfolding gc_evictable
  gc_evictable-ne t pin e same = ground arith

  pub gc_candidates-ne :
      (n : ℕ) → pinned p x ≡ true → All (λ t. t.id ≢ x) (take n (gc_candidates p))
  unfolding gc_candidates
  gc_candidates-ne n pin = All-take _ n _ (
      All-sort_by_key _ _ _ (
        All-mono _ _ _ (λ t e. gc_evictable-ne t pin e)
          (All-retain_test (gc_evictable p) (all_templates p))))

  kind_evictable-ne :
      (kind : SnapshotType) (t : PooledTemplate)
      → kind_pinned p kind x ≡ true
      → kind_evictable p kind t ≡ true
      → t.id ≢ x
  unfolding kind_evictable
  kind_evictable-ne kind t pin e same = ground arith

  pub kind_candidates-ne :
      (kind : SnapshotType) (n : ℕ)
      → kind_pinned p kind x ≡ true
      → All
          (λ t. t.id ≢ x)
          (take n (
            sort_by_key
              (λ t. t.created_at_secs)
              (retain (kind_evictable p kind) (all_templates p))))
  kind_candidates-ne kind n pin = All-take _ n _ (
      All-sort_by_key _ _ _ (
        All-mono _ _ _ (λ t e. kind_evictable-ne kind t pin e)
          (All-retain_test (kind_evictable p kind) (all_templates p))))

  pub oldest_candidate-ne :
      (ts : List PooledTemplate)
      → pinned p x ≡ true
      → Chosen (λ t. t.id ≢ x) (oldest_candidate p ts none)
  oldest_candidate-ne ts pin =
      oldest_candidate-Chosen p _ ts none
        (All-intro (λ t. pinned p t.id ≡ false → t.id ≢ x) ts (λ t free same. ground arith)) tt
