-- ===== src/Examples/Restores.antt =====
-- The theorems on continuations and on the injection of tasks, at concrete stores and requests.
use kuasar.WarmFork.Talk.{
  inject_prepare_one, connect_in_ns, read_and_verify_capabilities, inject_commit_one,
}
use kuasar.Prelude.{ℕ, ◌≡◌, refl, true, false, Option, none, some, List, [], ◌∷◌, ◌++◌, arith, ◌==◌}
use kuasar.Prelude.Map
use kuasar.Prelude.Text.{append, show_u32}
use kuasar.Template.Types.{continuation}
use kuasar.Continuation.Store.{entry_at, entry_dir, acquire, fail_lease}
use kuasar.Continuation.Scan.{gc_orphaned_consumed}
use kuasar.Continuation.Guard.{gc-protected}
use kuasar.Continuation.Lease.{acquire-identified, acquire-exclusive, fail_lease-restores}
use kuasar.WarmFork.Inject.{
  inject_task, all_autonomous, inject_two_phase, failed_results, commit_all, joined,
}
use kuasar.WarmFork.Commit.{all_ready}
use kuasar.WarmFork.AllOrNothing.{commit-all_ready, commit-no_cancel, some_cancel}
use kuasar.WarmFork.Answers.{answers, answers-inject_task, tasks}
use kuasar.WarmFork.Framing.{
  write_framed_message, read_framed_message, framed-roundtrip, oversize-refused,
}
use kuasar.Examples.Data.{
  identity, snapshot, good_store_io, one_entry, used_entry, saved_dir, in_time, both_ready,
  one_rejects,
}

gc-protected_example :
    entry_at ("pod", "g12") (gc_orphaned_consumed good_store_io ("s" ∷ []) used_entry).1
    ≡ some (saved_dir snapshot true)
unfolding entry_at Map.get ◌==◌
gc-protected_example =
    gc-protected good_store_io ("s" ∷ []) "pod" "g12" (saved_dir snapshot true) used_entry refl refl

acquired : (acquire good_store_io identity one_entry).0 ≡ some snapshot
unfolding acquire entry_at entry_dir append show_u32 Map.get ◌==◌
acquired = refl

acquire-identified_example :
    (snapshot.snapshot_type ≡ continuation) × (snapshot.workload_identity ≡ some identity)
acquire-identified_example = acquire-identified good_store_io identity one_entry snapshot acquired

acquire-exclusive_example :
    (acquire good_store_io identity (acquire good_store_io identity one_entry).1).0 ≡ none
acquire-exclusive_example =
    acquire-exclusive good_store_io good_store_io identity one_entry snapshot acquired refl

fail_lease-restores_example :
    entry_at
      (entry_dir identity)
      (fail_lease good_store_io (some snapshot) (acquire good_store_io identity one_entry).1)
    ≡ some (saved_dir snapshot false)
unfolding entry_at entry_dir append show_u32 Map.get ◌==◌
fail_lease-restores_example =
    fail_lease-restores good_store_io identity one_entry snapshot (saved_dir snapshot false)
      acquired refl refl refl

commit-all_ready_example : all_ready [] both_ready ≡ true
unfolding inject_task ◌==◌ all_autonomous inject_two_phase failed_results inject_prepare_one
    connect_in_ns read_and_verify_capabilities commit_all joined inject_commit_one
commit-all_ready_example = commit-all_ready in_time in_time [] both_ready refl refl

commit-no_cancel_example : some_cancel (inject_task in_time in_time [] both_ready) ≡ false
unfolding inject_task ◌==◌ all_autonomous inject_two_phase failed_results inject_prepare_one
    connect_in_ns read_and_verify_capabilities commit_all joined inject_commit_one
commit-no_cancel_example = commit-no_cancel in_time in_time [] both_ready refl

answers-inject_task_example :
    answers (λ x. x == "") (inject_task in_time in_time [] one_rejects).results
    ≡ tasks (λ x. x == "") one_rejects
answers-inject_task_example = answers-inject_task (λ x. x == "") in_time in_time [] one_rejects

-- Bytes that stand for themselves.
abbrev same_bytes : List ℕ → Option (List ℕ)
same_bytes bs = some bs

framed-roundtrip_example :
    (frame : List ℕ) × (write_framed_message same_bytes same_bytes (7 ∷ 8 ∷ []) ≡ some frame)
    × (read_framed_message same_bytes same_bytes 4194304 (frame ++ 9 ∷ [])
        ≡ some (7 ∷ 8 ∷ [], 9 ∷ []))
framed-roundtrip_example =
    framed-roundtrip same_bytes same_bytes 4194304 (7 ∷ 8 ∷ []) (7 ∷ 8 ∷ []) (9 ∷ []) refl refl
      (omega arith) (omega arith)

oversize-refused_example :
    (frame : List ℕ) × (write_framed_message same_bytes same_bytes (7 ∷ 8 ∷ []) ≡ some frame)
    × (read_framed_message same_bytes same_bytes 1 (frame ++ []) ≡ none)
oversize-refused_example =
    oversize-refused same_bytes same_bytes 1 (7 ∷ 8 ∷ []) (7 ∷ 8 ∷ []) [] refl (omega arith)
      (omega arith)
