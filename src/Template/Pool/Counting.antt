-- ===== src/Template/Pool/Counting.antt =====
-- The counters of vmm/sandbox/src/template/pool.rs against plain numbers: a map that holds only the
-- ids whose count is positive stands for a function that counts every id.
use kuasar.Prelude.{
  String, ◌≡◌, refl, ◌∙◌, Option, none, some, List, [], ◌∷◌, ◌++◌, ◌==◌, ==_iff, ◌+◌, ◌-◌, ℕ, zero,
  suc, arith, ap, Option-cases, inl, inr, if◌then◌else◌, take,
}
use kuasar.Prelude.Exec.{Keeps, bind-Keeps}
use kuasar.Prelude.Map
use kuasar.Prelude.Map.{Map, get-put, get-delete}
use kuasar.Template.Disk.{Io}
use kuasar.Template.Types.{PooledTemplate}
use kuasar.Template.Pool.State.{TemplatePool, increment, total_depth}
use kuasar.Template.Pool.Gc.{remove_candidate, remove_candidates, gc_if_needed, gc_candidates}
use kuasar.Template.Pool.Refs.{
  decrement, deref, end_restore, ref_template, rebuild_active_refs, count_ids,
}

abbrev or_zero : Option ℕ → ℕ
or_zero none = 0
or_zero (some n) = n

-- The count of an id; an id that is not in the map counts zero.
abbrev pub count : String → Map ℕ → ℕ
count x m = or_zero (Map.get x m)

pub count-increment :
    (id x : String) (m : Map ℕ)
    → count x (increment id m) ≡ (if id == x then count x m + 1 else count x m)
unfolding increment
count-increment id x m = elim (Option-cases (Map.get id m)) [
  | inl e ↦ rw (e, increment) (ground (arith, ==_iff id x, get-put id x 1 m))
  | inr (n, e) ↦ rw (e, increment) (ground (arith, ==_iff id x, get-put id x (n + 1) m))
]

pub count-decrement :
    (id x : String) (m : Map ℕ) (o : Option ℕ)
    → Map.get id m ≡ o
    → count x (decrement id m o).0 ≡ (if id == x then count x m - 1 else count x m)
count-decrement id x m none e = ground (arith, ==_iff id x)
count-decrement id x m (some zero) e = ground (arith, ==_iff id x)
count-decrement id x m (some (suc zero)) e = ground (arith, ==_iff id x, get-delete id x m)
count-decrement id x m (some (suc (suc n))) e = ground (arith, ==_iff id x, get-put id x (suc n) m)

-- What a collection leaves alone.
abbrev pub Counts : Map ℕ → Map ℕ → TemplatePool → Type 0
Counts restores refs p = (p.in_flight_restores ≡ restores) × (p.in_use_count ≡ refs)

module _ (restores refs : Map ℕ) (io : Io) where
  remove_candidate-Counts :
      (t : PooledTemplate) → Keeps (Counts restores refs) (remove_candidate io t)
  unfolding remove_candidate
  remove_candidate-Counts t = record { from = λ p v. ground arith }

  remove_candidates-Counts :
      (cs : List PooledTemplate) (n : ℕ) → Keeps (Counts restores refs) (remove_candidates io cs n)
  unfolding remove_candidates
  remove_candidates-Counts [] n = record { from = λ p v. v }
  remove_candidates-Counts (t ∷ cs) n =
      bind-Keeps (remove_candidate io t) _ (remove_candidate-Counts t)
        λ done. remove_candidates-Counts cs _

  pub gc_if_needed-Counts : Keeps (Counts restores refs) (gc_if_needed io)
  unfolding gc_if_needed
  gc_if_needed-Counts = record {
    from = λ p v.
        let cs = take (total_depth p - p.gc_watermark) (gc_candidates p) in
        ground (arith, (remove_candidates-Counts cs 0).from p v);
  }

pub in_use_count-deref :
    (io : Io) (id : String) (p : TemplatePool)
    → (deref io id p).1.in_use_count ≡ (decrement id p.in_use_count (Map.get id p.in_use_count)).0
unfolding deref
in_use_count-deref io id p =
    let next = decrement id p.in_use_count (Map.get id p.in_use_count) in
    let p' = record p { in_use_count = next.0 } in
    ground (arith, (gc_if_needed-Counts p.in_flight_restores next.0 io).from p' (refl, refl))

pub in_flight_restores-end_restore :
    (io : Io) (id : String) (p : TemplatePool)
    → (end_restore io id p).1.in_flight_restores
      ≡ (decrement id p.in_flight_restores (Map.get id p.in_flight_restores)).0
unfolding end_restore
in_flight_restores-end_restore io id p =
    let next = decrement id p.in_flight_restores (Map.get id p.in_flight_restores) in
    let p' = record p { in_flight_restores = next.0 } in
    ground (arith, (gc_if_needed-Counts next.0 p.in_use_count io).from p' (refl, refl))

pub data RefCall : Type 0 where
  takes : String → RefCall
  drops : Io → String → RefCall

unfoldable pub ref_step : RefCall → TemplatePool → TemplatePool
ref_step (takes id) p = ref_template id p
ref_step (drops io id) p = (deref io id p).1

unfoldable pub ref_run : List RefCall → TemplatePool → TemplatePool
ref_run [] p = p
ref_run (c ∷ cs) p = ref_run cs (ref_step c p)

-- The count that one id has after the calls, as a number: up, down, and never below zero.
abbrev pub counted_step : String → RefCall → ℕ → ℕ
counted_step x (takes id) n = if id == x then n + 1 else n
counted_step x (drops io id) n = if id == x then n - 1 else n

abbrev pub counted : String → List RefCall → ℕ → ℕ
counted x [] n = n
counted x (c ∷ cs) n = counted x cs (counted_step x c n)

count-ref_step :
    (x : String) (c : RefCall) (p : TemplatePool)
    → count x (ref_step c p).in_use_count ≡ counted_step x c (count x p.in_use_count)
unfolding ref_step ref_template
count-ref_step x (takes id) p = count-increment id x p.in_use_count
count-ref_step x (drops io id) p =
    rw (in_use_count-deref io id p) (count-decrement id x p.in_use_count _ refl)

-- `ref_template` and `deref`, with the collections that `deref` triggers, refine a counter for each
-- id that goes up by one and down by one and stays at zero; calls for other ids do not move it.
pub count-ref_run :
    (x : String) (cs : List RefCall) (p : TemplatePool)
    → count x (ref_run cs p).in_use_count ≡ counted x cs (count x p.in_use_count)
unfolding ref_run
count-ref_run x [] p = refl
count-ref_run x (c ∷ cs) p =
    count-ref_run x cs (ref_step c p) ∙ ap (counted x cs) (count-ref_step x c p)

abbrev pub occurrences : String → List String → ℕ
occurrences x [] = 0
occurrences x (id ∷ ids) = (if id == x then 1 else 0) + occurrences x ids

count-count_ids :
    (x : String) (ids : List String) (m : Map ℕ)
    → count x (count_ids ids m) ≡ occurrences x ids + count x m
unfolding count_ids
count-count_ids x [] m = omega arith
count-count_ids x (id ∷ ids) m =
    ground (arith, count-count_ids x ids (increment id m), count-increment id x m)

pub occurrences-append :
    (x : String) (xs ys : List String)
    → occurrences x (xs ++ ys) ≡ occurrences x xs + occurrences x ys
occurrences-append x [] ys = omega arith
occurrences-append x (y ∷ xs) ys = omega (arith, occurrences-append x xs ys)

-- After a restart the count of an id is the number of times that the recovered sandboxes name it,
-- in both lists together, whatever was counted before.
pub count-rebuild_active_refs :
    (x : String) (shared pinned : List String) (p : TemplatePool)
    → count x (rebuild_active_refs shared pinned p).in_use_count
      ≡ occurrences x shared + occurrences x pinned
unfolding rebuild_active_refs Map.get
count-rebuild_active_refs x shared pinned p =
    omega (arith, count-count_ids x (shared ++ pinned) [], occurrences-append x shared pinned)
