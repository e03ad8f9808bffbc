-- ===== src/WarmFork/Inject.antt =====
-- `inject_task` and `check_inject_socket` of vmm/task/src/sandbox_service.rs. The futures of a phase
-- share nothing, so each runs by itself; a phase that runs out of time stops each of them after some
-- of its messages.
use kuasar.Prelude.{
  ℕ, String, Bool, true, ◌&&◌, List, [], ◌∷◌, ◌++◌, ◌==◌, take, map, if◌then◌else◌,
}
use kuasar.Prelude.Exec.{Result, ok, err}
use kuasar.Prelude.Map.{Map}
use kuasar.WarmFork.Message.{SandboxerMessage, cancel}
use kuasar.WarmFork.Talk.{
  ContainerTask, Peer, Conn, new_conn, ContainerInjectResult, failure, inject_started,
  inject_internal_error, inject_timeout_prepare, inject_timeout_commit, inject_phase_prepare,
  inject_phase_commit, no_message, prepare_timed_out, commit_timed_out, autonomous_timed_out,
  cancelled_for_peer, InjectStatus, InjectPhase, ResultMessage, inject_prepare_one,
  inject_commit_one, inject_autonomous_one,
}

-- Each phase's clock: if it ran out, and how many messages each target had been sent by then.
pub record Clock : Type 0 where
  pub late : Bool
  pub cuts : List ℕ

abbrev pub Batch : Type 0
Batch = List (ContainerTask × Peer)

abbrev pub Outcome : Type 0
Outcome = Result ContainerInjectResult String × Conn

-- What the call answers, and what each target of the request was sent.
pub record Injection : Type 0 where
  pub results : List ContainerInjectResult
  pub sent : List (List SandboxerMessage)

abbrev pub Prepared : Type 0
Prepared = Peer × Outcome

unfoldable pub all_autonomous : Batch → Bool
all_autonomous [] = true
all_autonomous ((task, peer) ∷ batch) = (task.task_id == "") && all_autonomous batch

abbrev pub prepare_target : Map ℕ → ContainerTask × Peer → Prepared
prepare_target pids (task, peer) = (peer, inject_prepare_one peer pids task new_conn)

abbrev pub autonomous_target : Map ℕ → ContainerTask × Peer → Outcome
autonomous_target pids (task, peer) = inject_autonomous_one peer pids task new_conn

abbrev pub sent_of : Outcome → List SandboxerMessage
sent_of (r, c) = c.sent

abbrev pub sent_to : Prepared → List SandboxerMessage
sent_to (peer, o) = sent_of o

-- What the targets were sent when time ran out.
unfoldable pub cut_off : List ℕ → List (List SandboxerMessage) → List (List SandboxerMessage)
cut_off cuts [] = []
cut_off [] (ms ∷ sent) = [] ∷ cut_off [] sent
cut_off (n ∷ cuts) (ms ∷ sent) = take n ms ∷ cut_off cuts sent

abbrev pub timed_out :
    InjectStatus → InjectPhase → ResultMessage → Batch → List ContainerInjectResult
timed_out status phase message batch =
    map (λ (task, peer). failure task.container_id status phase message) batch

abbrev pub started_result : Result ContainerInjectResult String → ContainerInjectResult
started_result (ok id) = failure id inject_started inject_phase_commit no_message
started_result (err r) = r

abbrev pub failed_of : Outcome → List ContainerInjectResult → List ContainerInjectResult
failed_of (ok id, c) rs = rs
failed_of (err r, c) rs = r ∷ rs

unfoldable pub failed_results : List Prepared → List ContainerInjectResult
failed_results [] = []
failed_results ((peer, o) ∷ ps) = failed_of o (failed_results ps)

-- CANCEL to a target that is ready; its failure is ignored.
abbrev pub cancelled_of : Outcome → List ContainerInjectResult → List ContainerInjectResult
cancelled_of (err r, c) rs = rs
cancelled_of (ok id, c) rs =
    failure id inject_internal_error inject_phase_prepare cancelled_for_peer ∷ rs

unfoldable pub cancelled_results : List Prepared → List ContainerInjectResult
cancelled_results [] = []
cancelled_results ((peer, o) ∷ ps) = cancelled_of o (cancelled_results ps)

abbrev pub cancel_ready : Prepared → List SandboxerMessage
cancel_ready (peer, (err r, c)) = c.sent
cancel_ready (peer, (ok id, c)) = c.sent ++ cancel "rollback" ∷ []

-- The second phase of a target, on an empty record of messages.
abbrev pub commit_target : Prepared → Outcome
commit_target (peer, (err r, c)) = (err r, new_conn)
commit_target (peer, (ok id, c)) = inject_commit_one peer id (record c { sent = [] })

-- The messages of both phases.
unfoldable pub joined :
    List (List SandboxerMessage) → List (List SandboxerMessage) → List (List SandboxerMessage)
joined [] sent' = sent'
joined (ms ∷ sent) [] = ms ∷ sent
joined (ms ∷ sent) (ms' ∷ sent') = (ms ++ ms') ∷ joined sent sent'

abbrev pub result_of : Outcome → ContainerInjectResult
result_of (r, c) = started_result r

unfoldable pub inject_autonomous : Clock → Map ℕ → Batch → Injection
inject_autonomous clock pids batch =
    let outcomes = map (autonomous_target pids) batch in
    if clock.late
    then record {
      results = timed_out inject_timeout_commit inject_phase_commit autonomous_timed_out batch;
      sent = cut_off clock.cuts (map sent_of outcomes);
    }
    else record { results = map result_of outcomes; sent = map sent_of outcomes }

unfoldable pub commit_all : Clock → Batch → List Prepared → Injection
commit_all clock batch ps =
    let outcomes = map commit_target ps in
    if clock.late
    then record {
      results = timed_out inject_timeout_commit inject_phase_commit commit_timed_out batch;
      sent = joined (map sent_to ps) (cut_off clock.cuts (map sent_of outcomes));
    }
    else record {
      results = map result_of outcomes;
      sent = joined (map sent_to ps) (map sent_of outcomes);
    }

abbrev after_prepare : Clock → Batch → List Prepared → List ContainerInjectResult → Injection
after_prepare clock batch ps [] = commit_all clock batch ps
after_prepare clock batch ps (r ∷ rs) = record {
  results = (r ∷ rs) ++ cancelled_results ps;
  sent = map cancel_ready ps;
}

unfoldable pub inject_two_phase : Clock → Clock → Map ℕ → Batch → Injection
inject_two_phase prepare_clock commit_clock pids batch =
    let ps = map (prepare_target pids) batch in
    if prepare_clock.late
    then record {
      results = timed_out inject_timeout_prepare inject_phase_prepare prepare_timed_out batch;
      sent = cut_off prepare_clock.cuts (map sent_to ps);
    }
    else after_prepare commit_clock batch ps (failed_results ps)

unfoldable pub inject_task : Clock → Clock → Map ℕ → Batch → Injection
inject_task prepare_clock commit_clock pids batch =
    if all_autonomous batch
    then inject_autonomous commit_clock pids batch
    else inject_two_phase prepare_clock commit_clock pids batch
