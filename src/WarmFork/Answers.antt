-- ===== src/WarmFork/Answers.antt =====
-- What `inject_task` of vmm/task/src/sandbox_service.rs answers: a result for each task.
use kuasar.Prelude.{
  ℕ, ◌+◌, ◌≡◌, refl, String, Bool, List, [], ◌∷◌, ◌++◌, map, length, length-append, retain,
  retain-append, arith, Bool-cases, inl, inr, ◌∙◌, ap,
}
use kuasar.Prelude.Exec.{ok, err}
use kuasar.Prelude.Map.{Map}
use kuasar.WarmFork.Commit.{List-cases}
use kuasar.WarmFork.Inject.{
  Batch, Clock, Outcome, Prepared, autonomous_target, cancelled_results, commit_all, commit_target,
  failed_results, inject_autonomous, inject_task, inject_two_phase, prepare_target, result_of,
  timed_out,
}
use kuasar.WarmFork.Talk.{
  ContainerInjectResult, ContainerTask, Peer, inject_autonomous_one, inject_commit_one,
  inject_prepare_one, new_conn, read_and_verify_capabilities,
}

-- The number of results, and of tasks, whose container passes the test.
abbrev pub answers : (String → Bool) → List ContainerInjectResult → ℕ
answers f rs = length (retain (λ r. f r.container_id) rs)

abbrev pub tasks : (String → Bool) → Batch → ℕ
tasks f batch = length (retain (λ b. f b.0.container_id) batch)

abbrev name_of : Outcome → String
name_of (ok id, c) = id
name_of (err r, c) = r.container_id

abbrev named : (String → Bool) → List Prepared → ℕ
named f ps = length (retain (λ p. f (name_of p.1)) ps)

name_of-prepare :
    (pids : Map ℕ) (task : ContainerTask) (peer : Peer)
    → name_of (inject_prepare_one peer pids task new_conn) ≡ task.container_id
unfolding inject_prepare_one read_and_verify_capabilities
name_of-prepare pids task peer = ground arith

name_of-autonomous :
    (pids : Map ℕ) (task : ContainerTask) (peer : Peer)
    → name_of (inject_autonomous_one peer pids task new_conn) ≡ task.container_id
unfolding inject_autonomous_one read_and_verify_capabilities
name_of-autonomous pids task peer = ground arith

name_of-result : (o : Outcome) → (result_of o).container_id ≡ name_of o
name_of-result (ok id, c) = refl
name_of-result (err r, c) = refl

name_of-commit : (p : Prepared) → name_of (commit_target p) ≡ name_of p.1
unfolding inject_commit_one
name_of-commit (peer, (err r, c)) = refl
name_of-commit (peer, (ok id, c)) = ground arith

module _ (f : String → Bool) where
  answers-timed_out :
      (status : _) (phase : _) (text : _) (batch : Batch)
      → answers f (timed_out status phase text batch) ≡ tasks f batch
  answers-timed_out status phase text [] = refl
  answers-timed_out status phase text ((task, peer) ∷ batch) =
      ground (arith, answers-timed_out status phase text batch)

  named-prepare :
      (pids : Map ℕ) (batch : Batch) → named f (map (prepare_target pids) batch) ≡ tasks f batch
  named-prepare pids [] = refl
  named-prepare pids ((task, peer) ∷ batch) =
      ground (arith, name_of-prepare pids task peer, named-prepare pids batch)

  answers-autonomous :
      (pids : Map ℕ) (batch : Batch)
      → answers f (map result_of (map (autonomous_target pids) batch)) ≡ tasks f batch
  answers-autonomous pids [] = refl
  answers-autonomous pids ((task, peer) ∷ batch) =
      let o = inject_autonomous_one peer pids task new_conn in
      ground
        (arith, name_of-autonomous pids task peer, name_of-result o, answers-autonomous pids batch)

  answers-commit :
      (ps : List Prepared) → answers f (map result_of (map commit_target ps)) ≡ named f ps
  answers-commit [] = refl
  answers-commit (p ∷ ps) =
      ground (arith, name_of-commit p, name_of-result (commit_target p), answers-commit ps)

  answers-failed :
      (ps : List Prepared)
      → answers f (failed_results ps) + answers f (cancelled_results ps) ≡ named f ps
  unfolding failed_results cancelled_results
  answers-failed [] = refl
  answers-failed ((peer, (ok id, c)) ∷ ps) = ground (arith, answers-failed ps)
  answers-failed ((peer, (err r, c)) ∷ ps) = ground (arith, answers-failed ps)

  answers-append :
      (rs qs : List ContainerInjectResult) → answers f (rs ++ qs) ≡ answers f rs + answers f qs
  answers-append rs qs =
      ap length (retain-append (λ r. f r.container_id) rs qs)
      ∙ length-append (retain (λ r. f r.container_id) rs) (retain (λ r. f r.container_id) qs)

  answers-commit_all :
      (c : Clock) (batch : Batch) (ps : List Prepared)
      → named f ps ≡ tasks f batch
      → answers f (commit_all c batch ps).results ≡ tasks f batch
  unfolding commit_all
  answers-commit_all c batch ps h = elim (Bool-cases c.late) [
    | inl e ↦ rw e (answers-timed_out _ _ _ batch)
    | inr e ↦ rw e (answers-commit ps ∙ h)
  ]

  answers-two_phase :
      (p c : Clock) (pids : Map ℕ) (batch : Batch)
      → answers f (inject_two_phase p c pids batch).results ≡ tasks f batch
  unfolding inject_two_phase
  answers-two_phase p c pids batch =
      let ps = map (prepare_target pids) batch in
      elim (Bool-cases p.late) [
        | inl e ↦ rw e (answers-timed_out _ _ _ batch)
        | inr e ↦ elim (List-cases (failed_results ps)) [
          | inl e' ↦ rw (e, e') (answers-commit_all c batch ps (named-prepare pids batch))
          | inr (r, rs, e') ↦
              rw (e, e')
                (omega (
                  arith,
                  answers-append (r ∷ rs) (cancelled_results ps),
                  ap (answers f) e',
                  answers-failed ps,
                  named-prepare pids batch,
                ))
        ]
      ]

  answers-inject_autonomous :
      (c : Clock) (pids : Map ℕ) (batch : Batch)
      → answers f (inject_autonomous c pids batch).results ≡ tasks f batch
  unfolding inject_autonomous
  answers-inject_autonomous c pids batch = elim (Bool-cases c.late) [
    | inl e ↦ rw e (answers-timed_out _ _ _ batch)
    | inr e ↦ rw e (answers-autonomous pids batch)
  ]

  -- The results name the containers of the request, each as often as the request does, and no other:
  -- for any set of container ids there are as many results as tasks with an id in the set, after a
  -- timeout, a failure of some targets, or none.
  pub answers-inject_task :
      (p c : Clock) (pids : Map ℕ) (batch : Batch)
      → answers f (inject_task p c pids batch).results ≡ tasks f batch
  unfolding inject_task
  answers-inject_task p c pids batch =
      ground (arith, answers-inject_autonomous c pids batch, answers-two_phase p c pids batch)
