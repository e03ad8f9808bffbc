-- ===== src/Template/Pool/Panics.antt =====
-- The methods of vmm/sandbox/src/template/pool.rs that run while a reference or a restore ends reach
-- no `unreachable!` on a valid pool.
use kuasar.Prelude.{
  ◌≡◌, refl, true, false, ℕ, String, List, [], ◌∷◌, All, arith, take, All-append, All-mono,
  All-retain, All-take, ◌-◌, Bool,
}
use kuasar.Prelude.Exec.{Exec, and_then, Result, ok, err, and_then}
use kuasar.Prelude.Map
use kuasar.Prelude.Map.{Map, flat_values}
use kuasar.Prelude.Sort.{All-sort_by_key}
use kuasar.Template.Disk.{Io}
use kuasar.Template.Pool.Gc.{
  gc_if_needed, gc_candidates, gc_evictable, remove_candidate, remove_candidates,
}
use kuasar.Template.Pool.Refs.{decrement, deref, end_restore}
use kuasar.Template.Pool.State.{TemplatePool, all_templates, total_depth}
use kuasar.Template.Pool.Validity.{FiledQueue, IsValid}
use kuasar.Template.Types.{PooledTemplate, continuation, same_type}

abbrev pub is_ok : {E A : Type 0} → Result E A → Bool
is_ok (ok a) = true
is_ok (err e) = false

abbrev Pooled : PooledTemplate → Type 0
Pooled t = same_type t.snapshot_type continuation ≡ false

flat_values-Pooled : (m : Map (List PooledTemplate)) → All FiledQueue m → All Pooled (flat_values m)
flat_values-Pooled [] h = tt
flat_values-Pooled ((k, q) ∷ m) h =
    All-append Pooled q (flat_values m) (All-mono _ Pooled q (λ t f. f.1) h.0)
      (flat_values-Pooled m h.1)

is_ok-and_then :
    {E S A B : Type 0} (r : Result E A × S) (f : A → Exec E S B)
    → is_ok r.0 ≡ true
    → ((a : A) (s : S) → is_ok (f a s).0 ≡ true)
    → is_ok (and_then r f).0 ≡ true
is_ok-and_then (ok a, s) f e k = k a s
is_ok-and_then (err x, s) f e k = cc

module _ (io : Io) where
  is_ok-remove_candidate :
      (t : PooledTemplate) (p : TemplatePool) → Pooled t → is_ok (remove_candidate io t p).0 ≡ true
  unfolding remove_candidate
  is_ok-remove_candidate t p h = ground arith

  is_ok-remove_candidates :
      (ts : List PooledTemplate) (n : ℕ) (p : TemplatePool)
      → All Pooled ts
      → is_ok (remove_candidates io ts n p).0 ≡ true
  unfolding remove_candidates
  is_ok-remove_candidates [] n p h = refl
  is_ok-remove_candidates (t ∷ ts) n p h =
      is_ok-and_then (remove_candidate io t p) _ (is_ok-remove_candidate t p h.0)
        λ done q. is_ok-remove_candidates ts _ q h.1

  is_ok-gc_if_needed :
      (p : TemplatePool) → All FiledQueue p.available → is_ok (gc_if_needed io p).0 ≡ true
  unfolding gc_if_needed gc_candidates
  is_ok-gc_if_needed p h =
      let cs = take (total_depth p - p.gc_watermark) (gc_candidates p) in
      let found = All-retain Pooled (gc_evictable p) (all_templates p) (flat_values-Pooled _ h) in
      let chosen =
        All-take Pooled (total_depth p - p.gc_watermark) (gc_candidates p)
          (All-sort_by_key _ Pooled _ found) in
      ground (arith, is_ok-remove_candidates cs 0 p chosen)

  pub is_ok-deref : (id : String) (p : TemplatePool) → IsValid p → is_ok (deref io id p).0 ≡ true
  unfolding deref
  is_ok-deref id p v =
      let next = decrement id p.in_use_count (Map.get id p.in_use_count) in
      ground (arith, is_ok-gc_if_needed (record p { in_use_count = next.0 }) v.filed)

  pub is_ok-end_restore :
      (id : String) (p : TemplatePool) → IsValid p → is_ok (end_restore io id p).0 ≡ true
  unfolding end_restore
  is_ok-end_restore id p v =
      let next = decrement id p.in_flight_restores (Map.get id p.in_flight_restores) in
      ground (arith, is_ok-gc_if_needed (record p { in_flight_restores = next.0 }) v.filed)
