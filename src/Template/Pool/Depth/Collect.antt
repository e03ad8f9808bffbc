-- ===== src/Template/Pool/Depth/Collect.antt =====
-- What a garbage collection of vmm/sandbox/src/template/pool.rs leaves in the pool.
use kuasar.Prelude.{
  ◌≡◌, true, false, List, ◌≤◌, ◌-◌, min, arith, length, length-take, take, All, All-take,
  All-retain, All-mono,
}
use kuasar.Prelude.Sort.{All-sort_by_key}
use kuasar.Template.Disk.{Io}
use kuasar.Template.Types.{PooledTemplate, continuation, same_type}
use kuasar.Template.Pool.State.{TemplatePool, all_templates, total_depth}
use kuasar.Template.Pool.Gc.{gc_evictable, gc_candidates, gc_if_needed, remove_candidates}
use kuasar.Template.Pool.Validity.{IsValid}
use kuasar.Template.Pool.Depth.Distinct.{
  Distinct, has, total_depth-length, Distinct-retain, Distinct-take, Distinct-sort_by_key, All-has,
  All-flat_values,
}
use kuasar.Template.Pool.Depth.Removal.{
  Within, remove_candidates-Within, NoFault, remove_candidates-length,
}

victims : TemplatePool → List PooledTemplate
victims p = take (total_depth p - p.gc_watermark) (gc_candidates p)

-- Whatever fails, a collection never takes a pool whose templates have distinct ids below its
-- watermark, does not touch one at or below it, and adds nothing.
pub gc_if_needed_bounds :
    (io : Io) (p : TemplatePool)
    → Distinct (all_templates p)
    → (min (total_depth p) p.gc_watermark ≤ total_depth (gc_if_needed io p).1)
      × (total_depth (gc_if_needed io p).1 ≤ total_depth p)
unfolding gc_if_needed
gc_if_needed_bounds io p d =
    let n = total_depth p - p.gc_watermark in
    let cs = take n (gc_candidates p) in
    let start : Within (total_depth p) 0 p = record {
      distinct = d;
      lower = omega (arith, total_depth-length p);
      upper = omega (arith, total_depth-length p);
    } in
    let end = remove_candidates-Within io cs 0 (total_depth p) 0 p start in
    let after = (remove_candidates io cs 0 p).1 in
    ground (arith, end, total_depth-length after, length-take n (gc_candidates p))

module _ (p : TemplatePool) where
  All-victims : (P : PooledTemplate → Type 0) → All P (all_templates p) → All P (victims p)
  unfolding victims gc_candidates
  All-victims P h = All-take P _ _ (All-sort_by_key _ P _ (All-retain P (gc_evictable p) _ h))

  Distinct-victims : Distinct (all_templates p) → Distinct (victims p)
  unfolding victims gc_candidates
  Distinct-victims d = Distinct-take _ _ (Distinct-sort_by_key _ _ (Distinct-retain _ _ d))

-- If no removal of a directory fails, a collection over a valid pool with distinct ids removes as
-- many templates as the pool has above its watermark, or all its candidates if those are fewer.
pub gc_if_needed-depth :
    (io : Io) (p : TemplatePool)
    → IsValid p
    → Distinct (all_templates p)
    → NoFault io
    → total_depth (gc_if_needed io p).1
      ≡ total_depth p - min (total_depth p - p.gc_watermark) (length (gc_candidates p))
unfolding gc_if_needed victims
gc_if_needed-depth io p v d nf =
    let n = total_depth p - p.gc_watermark in
    let cs = take n (gc_candidates p) in
    let kinds =
      All-flat_values (λ t. same_type t.snapshot_type continuation ≡ false) p.available
        (All-mono _ _ p.available (λ e h. All-mono _ _ e.1 (λ t f. f.1) h) v.filed) in
    let counted =
      remove_candidates-length io cs 0 p nf d (Distinct-victims p d) (All-victims p _ kinds)
        (All-victims p (λ t. has (all_templates p) t.id ≡ true) (All-has (all_templates p))) in
    let after = (remove_candidates io cs 0 p).1 in
    ground (
      arith,
      counted.0,
      total_depth-length p,
      total_depth-length after,
      length-take n (gc_candidates p),
    )
