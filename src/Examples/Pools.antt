-- ===== src/Examples/Pools.antt =====
-- The theorems on the pool of vmm/sandbox/src/template/pool.rs, at concrete pools.
use kuasar.Template.Pool.Rollback.{with_id, SameCounts, failed_restore, failed_restore-counts}
use kuasar.Prelude.{◌-◌, ◌≤◌, ◌≡◌, refl, true, false, List, [], ◌∷◌, min, length, arith, ◌==◌}
use kuasar.Prelude.Map
use kuasar.Template.Types.{exclusive}
use kuasar.Template.Disk.{Io, Subdir, dir_at}
use kuasar.Template.Pool.State.{all_templates, total_depth, new}
use kuasar.Template.Pool.Oldest.{pinned}
use kuasar.Template.Pool.Gc.{gc_if_needed, gc_candidates}
use kuasar.Template.Pool.Acquire.{acquire, acquire_by_id}
use kuasar.Template.Pool.Recovery.{load_from_disk}
use kuasar.Template.Pool.Step.{run, Op}
use kuasar.Template.Pool.Validity.{IsValid}
use kuasar.Template.Pool.Validity.Run.{run-IsValid}
use kuasar.Template.Pool.Pinned.Holds.{named}
use kuasar.Template.Pool.Pinned.Survive.{evict, evict-pinned, collects}
use kuasar.Template.Pool.Depth.Collect.{gc_if_needed-depth, gc_if_needed_bounds}
use kuasar.Template.Pool.Counting.{RefCall, takes, drops, ref_run, count, counted, count-ref_run}
use kuasar.Template.Pool.Crash.{
  load_from_disk-unconsumed, acquire-crash_safe, available_of, without_consumed, marks_answer,
}
use kuasar.Examples.Data.{old_template, fork_template, good_io, two_dirs, two_templates}

-- A collection that has to remove both templates spares the one that is being restored.
evict-pinned_example :
    (named "a" (all_templates (evict good_io collects two_templates))
      ≡ named "a" (all_templates two_templates))
    × ((s : Subdir)
        → dir_at s "a" (evict good_io collects two_templates).disk
          ≡ dir_at s "a" two_templates.disk)
    × (pinned (evict good_io collects two_templates) "a" ≡ true)
unfolding Map.contains_key Map.get ◌==◌
evict-pinned_example = evict-pinned good_io collects "a" two_templates refl tt

abbrev calls : List (Io × Op)
calls =
    (good_io, Op.add old_template)
    ∷ (good_io, Op.acquire_for_restore old_template.key)
    ∷ (good_io, Op.add fork_template)
    ∷ (good_io, Op.end_restore "a")
    ∷ []

run-IsValid_example : IsValid (run calls (new two_dirs 4 4 1 exclusive false))
run-IsValid_example = run-IsValid two_dirs 4 4 1 exclusive false calls

two_templates-IsValid : IsValid two_templates
two_templates-IsValid = record {
  filed = (((refl, refl), ((refl, refl), tt)), tt);
  refills = tt;
  restores = (omega arith, tt);
  references = tt;
}

gc_if_needed-depth_example :
    total_depth (gc_if_needed good_io two_templates).1
    ≡ total_depth two_templates
      - min (total_depth two_templates - 0) (length (gc_candidates two_templates))
unfolding ◌==◌
gc_if_needed-depth_example =
    gc_if_needed-depth good_io two_templates two_templates-IsValid ((refl, tt), (tt, tt))
      (λ s id. refl)

gc_if_needed_bounds_example :
    (min (total_depth two_templates) 0 ≤ total_depth (gc_if_needed good_io two_templates).1)
    × (total_depth (gc_if_needed good_io two_templates).1 ≤ total_depth two_templates)
unfolding ◌==◌
gc_if_needed_bounds_example = gc_if_needed_bounds good_io two_templates ((refl, tt), (tt, tt))

abbrev ref_calls : List RefCall
ref_calls = takes "b" ∷ takes "a" ∷ drops good_io "b" ∷ drops good_io "b" ∷ []

count-ref_run_example :
    count "a" (ref_run ref_calls two_templates).in_use_count
    ≡ counted "a" ref_calls (count "a" two_templates.in_use_count)
count-ref_run_example = count-ref_run "a" ref_calls two_templates

load_from_disk-unconsumed_example :
    available_of (load_from_disk good_io false two_dirs 4 4 1 exclusive false)
    ≡ available_of (load_from_disk good_io false (without_consumed two_dirs) 4 4 1 exclusive false)
load_from_disk-unconsumed_example =
    load_from_disk-unconsumed good_io two_dirs 4 4 1 exclusive false (λ s id. refl) (λ s. refl)

acquire-crash_safe_example :
    (marks_answer (acquire good_io old_template.key two_templates) ≡ true)
    × (marks_answer (acquire_by_id good_io "a" two_templates) ≡ true)
acquire-crash_safe_example = acquire-crash_safe good_io old_template.key "a" two_templates

failed_restore-counts_example :
    SameCounts "a" two_templates (failed_restore good_io (with_id old_template.id) two_templates).1
failed_restore-counts_example =
    failed_restore-counts "a" good_io two_templates (with_id old_template.id)
