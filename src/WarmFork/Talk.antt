-- ===== src/WarmFork/Talk.antt =====
-- What vmm/task/src/sandbox_service.rs says to one workload. The workload, the sockets and the
-- mount namespaces are the argument `Peer`, which says what each call answers.
use kuasar.Prelude.{
  ℕ, ◌+◌, String, Bool, Option, none, some, List, [], ◌∷◌, ◌++◌, ◌==◌, if◌then◌else◌,
}
use kuasar.Prelude.Exec.{Exec, Result, ok, err, ◌>>◌}
use kuasar.Prelude.Map
use kuasar.Prelude.Map.{Map}
use kuasar.WarmFork.Message.{
  protocol_version, WorkloadMessage, capabilities, ready, started, cancel_ack, reject,
  PreparePayload, SandboxerMessage, prepare, commit, as_str,
}

pub record ContainerTask : Type 0 where
  pub container_id : String
  pub socket_path : String
  pub task_id : String
  pub env_overrides : Map String
  pub context : String

pub data InjectStatus : Type 0 where
  inject_started inject_reject inject_connect_failed inject_namespace_error : InjectStatus
  inject_protocol_error inject_timeout_prepare inject_timeout_commit : InjectStatus
  inject_target_not_found inject_internal_error : InjectStatus

pub data InjectPhase : Type 0 where
  inject_phase_prepare inject_phase_commit : InjectPhase

-- A `format!` is the constructor of its text, over the values that it prints.
pub data ResultMessage : Type 0 where
  no_message prepare_timed_out commit_timed_out autonomous_timed_out : ResultMessage
  cancelled_for_peer : ResultMessage
  error_text write_prepare_failed read_ready_failed : String → ResultMessage
  write_commit_failed read_started_failed capabilities_unread : String → ResultMessage
  expected_capabilities expected_ready expected_started : WorkloadMessage → ResultMessage
  version_mismatch : String → ResultMessage
  rejected : String → String → ResultMessage

pub record ContainerInjectResult : Type 0 where
  pub container_id : String
  pub status : InjectStatus
  pub phase : InjectPhase
  pub message : ResultMessage

-- An error of a connection, its text and whether that contains the two phrases that are looked for.
pub record ConnectError : Type 0 where
  pub text : String
  pub says_not_found : Bool
  pub says_mnt_ns : Bool

-- `connect` takes the process whose mount namespace is entered, if one is. The functions on numbers
-- answer the calls of a kind in the order of the calls.
pub record Peer : Type 0 where
  pub connect : Option ℕ → String → Option ConnectError
  pub no_container : ConnectError
  pub read : ℕ → Result String WorkloadMessage
  pub write_fault : ℕ → Option String

-- A connection: the messages that were written, whole or in part, and the reads so far.
pub record Conn : Type 0 where
  pub sent : List SandboxerMessage
  pub writes : ℕ
  pub reads : ℕ

abbrev pub new_conn : Conn
new_conn = record { sent = []; writes = 0; reads = 0 }

abbrev pub Talk : Type 0 → Type 0
Talk A = Exec ContainerInjectResult Conn A

unfoldable pub connect_in_ns : Peer → String → String → Map ℕ → Option ConnectError
connect_in_ns peer container_id socket pids =
    if container_id == "" then peer.connect none socket else elim (Map.get container_id pids) [
      | none ↦ some peer.no_container
      | some pid ↦ peer.connect (some pid) socket
    ]

abbrev pub default_readiness_socket : String
default_readiness_socket = "/run/warmfork-readiness.sock"

abbrev pub socket_of : ContainerTask → String
socket_of task = if task.socket_path == "" then default_readiness_socket else task.socket_path

abbrev pub connect_status : ConnectError → InjectStatus
connect_status e =
    if e.says_not_found
    then inject_target_not_found
    else if e.says_mnt_ns
    then inject_namespace_error
    else inject_connect_failed

abbrev pub failure : String → InjectStatus → InjectPhase → ResultMessage → ContainerInjectResult
failure id status phase message = record {
  container_id = id;
  status = status;
  phase = phase;
  message = message;
}

abbrev pub connected : ContainerTask → InjectPhase → Option ConnectError → Talk (Unit {0})
connected task phase none c = (ok tt, c)
connected task phase (some e) c =
    (err (failure task.container_id (connect_status e) phase (error_text e.text)), c)

abbrev count_read : Conn → Conn
count_read c = record c { reads = c.reads + 1 }

abbrev answered :
    {A : Type 0}
    → (String → ContainerInjectResult)
    → (WorkloadMessage → Result ContainerInjectResult A)
    → Result String WorkloadMessage
    → Result ContainerInjectResult A
answered failed f (ok m) = f m
answered failed f (err e) = err (failed e)

-- `read_framed_message`, and what is made of its answer.
abbrev pub read_framed :
    {A : Type 0}
    → Peer
    → (String → ContainerInjectResult)
    → (WorkloadMessage → Result ContainerInjectResult A)
    → Talk A
read_framed peer failed f c = (answered failed f (peer.read c.reads), count_read c)

abbrev written :
    (String → ContainerInjectResult) → Option String → Result ContainerInjectResult (Unit {0})
written failed none = ok tt
written failed (some e) = err (failed e)

-- `write_framed_message`.
abbrev pub write_framed :
    Peer → (String → ContainerInjectResult) → SandboxerMessage → Talk (Unit {0})
write_framed peer failed m c = (
  written failed (peer.write_fault c.writes),
  record c { sent = c.sent ++ m ∷ []; writes = c.writes + 1 },
)

-- `read_and_verify_capabilities`.
abbrev verify_capabilities :
    (ResultMessage → ContainerInjectResult)
    → WorkloadMessage
    → Result ContainerInjectResult (Unit {0})
verify_capabilities failed (capabilities c) =
    if c.protocol_version == protocol_version
    then ok tt
    else err (failed (version_mismatch c.protocol_version))
verify_capabilities failed ready = err (failed (expected_capabilities ready))
verify_capabilities failed started = err (failed (expected_capabilities started))
verify_capabilities failed cancel_ack = err (failed (expected_capabilities cancel_ack))
verify_capabilities failed (reject r m) = err (failed (expected_capabilities (reject r m)))

unfoldable pub read_and_verify_capabilities :
    Peer → (ResultMessage → ContainerInjectResult) → Talk (Unit {0})
read_and_verify_capabilities peer failed =
    read_framed peer (λ e. failed (capabilities_unread e)) (verify_capabilities failed)

abbrev ready_or_reject : ContainerTask → WorkloadMessage → Result ContainerInjectResult String
ready_or_reject task ready = ok task.container_id
ready_or_reject task (reject reason message) = err (
    failure task.container_id inject_reject inject_phase_prepare (rejected (as_str reason) message))
ready_or_reject task started =
    err (
      failure task.container_id inject_protocol_error inject_phase_prepare (expected_ready started))
ready_or_reject task cancel_ack = err (
    failure task.container_id inject_protocol_error inject_phase_prepare
      (expected_ready cancel_ack))
ready_or_reject task (capabilities c) = err (
    failure task.container_id inject_protocol_error inject_phase_prepare
      (expected_ready (capabilities c)))

abbrev payload : ContainerTask → PreparePayload
payload task = record {
  task_id = task.task_id;
  env_overrides = task.env_overrides;
  context = task.context;
}

abbrev prepare_failure : ContainerTask → ResultMessage → ContainerInjectResult
prepare_failure task = failure task.container_id inject_protocol_error inject_phase_prepare

-- Connect, CAPABILITIES, PREPARE, READY.
unfoldable pub inject_prepare_one : Peer → Map ℕ → ContainerTask → Talk String
inject_prepare_one peer pids task =
    connected task inject_phase_prepare (connect_in_ns peer task.container_id (socket_of task) pids)
    >> read_and_verify_capabilities peer (prepare_failure task)
    >> write_framed peer (λ e. prepare_failure task (write_prepare_failed e))
        (prepare (payload task))
    >> read_framed peer (λ e. prepare_failure task (read_ready_failed e)) (ready_or_reject task)

abbrev commit_failure : String → ResultMessage → ContainerInjectResult
commit_failure id = failure id inject_protocol_error inject_phase_commit

abbrev started_only : String → WorkloadMessage → Result ContainerInjectResult String
started_only id started = ok id
started_only id ready = err (commit_failure id (expected_started ready))
started_only id cancel_ack = err (commit_failure id (expected_started cancel_ack))
started_only id (capabilities c) = err (commit_failure id (expected_started (capabilities c)))
started_only id (reject r m) = err (commit_failure id (expected_started (reject r m)))

-- COMMIT, STARTED.
unfoldable pub inject_commit_one : Peer → String → Talk String
inject_commit_one peer id =
    write_framed peer (λ e. commit_failure id (write_commit_failed e)) commit
    >> read_framed peer (λ e. commit_failure id (read_started_failed e)) (started_only id)

-- Connect, CAPABILITIES, COMMIT, STARTED.
unfoldable pub inject_autonomous_one : Peer → Map ℕ → ContainerTask → Talk String
inject_autonomous_one peer pids task =
    connected task inject_phase_commit (connect_in_ns peer task.container_id (socket_of task) pids)
    >> read_and_verify_capabilities peer (commit_failure task.container_id)
    >> write_framed peer (λ e. commit_failure task.container_id (write_commit_failed e)) commit
    >> read_framed peer (λ e. commit_failure task.container_id (read_started_failed e))
        (started_only task.container_id)
