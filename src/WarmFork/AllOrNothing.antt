-- ===== src/WarmFork/AllOrNothing.antt =====
-- `inject_task` of vmm/task/src/sandbox_service.rs as one call: which messages go out together, and
-- what it answers.
use kuasar.Prelude.{ℕ, ◌≡◌, Bool, true, false, map, any, arith, inl, inr}
use kuasar.Prelude.Map.{Map}
use kuasar.WarmFork.Inject.{
  Clock, Batch, Injection, autonomous_target, sent_of, inject_autonomous, inject_two_phase,
  inject_task, all_autonomous,
}
use kuasar.WarmFork.Commit.{
  is_commit, is_cancel, all_ready, two_phase, any-Lacks, All-cut_off, autonomous-Lack-cancel,
}

-- Some target was sent a COMMIT, or a CANCEL.
abbrev pub some_commit : Injection → Bool
some_commit i = any (any is_commit) i.sent

abbrev pub some_cancel : Injection → Bool
some_cancel i = any (any is_cancel) i.sent

-- Unless every task is autonomous, no target is sent COMMIT before every target of the request is
-- connected, has declared the protocol's version, and has answered READY; whatever times out.
pub commit-all_ready :
    (p c : Clock) (pids : Map ℕ) (batch : Batch)
    → all_autonomous batch ≡ false
    → some_commit (inject_task p c pids batch) ≡ true
    → all_ready pids batch ≡ true
unfolding inject_task
commit-all_ready p c pids batch h e = elim (two_phase p c pids batch) [
  | inl lacks ↦ ground (arith, any-Lacks is_commit (inject_two_phase p c pids batch).sent lacks)
  | inr (ready, lacks) ↦ ready
]

autonomous-no_cancel :
    (c : Clock) (pids : Map ℕ) (batch : Batch)
    → some_cancel (inject_autonomous c pids batch) ≡ false
unfolding inject_autonomous
autonomous-no_cancel c pids batch =
    let sent = map sent_of (map (autonomous_target pids) batch) in
    ground (
      arith,
      any-Lacks is_cancel sent (autonomous-Lack-cancel pids batch),
      any-Lacks is_cancel _ (All-cut_off is_cancel c.cuts sent (autonomous-Lack-cancel pids batch)),
    )

-- No call sends both a COMMIT and a CANCEL, to the same target or to two of them: a COMMIT is never
-- taken back.
pub commit-no_cancel :
    (p c : Clock) (pids : Map ℕ) (batch : Batch)
    → some_commit (inject_task p c pids batch) ≡ true
    → some_cancel (inject_task p c pids batch) ≡ false
unfolding inject_task
commit-no_cancel p c pids batch h = elim (two_phase p c pids batch) [
  | inl lacks ↦ ground (
    arith,
    any-Lacks is_commit (inject_two_phase p c pids batch).sent lacks,
    autonomous-no_cancel c pids batch,
  )
  | inr (ready, lacks) ↦ ground (
    arith,
    any-Lacks is_cancel (inject_two_phase p c pids batch).sent lacks,
    autonomous-no_cancel c pids batch,
  )
]
