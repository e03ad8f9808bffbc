-- ===== src/Examples/Data.antt =====
-- Data for the examples.
use kuasar.Prelude.{String, ℕ, Option, none, some, [], ◌∷◌, Bool, true, false, eqb, if◌then◌else◌}
use kuasar.Prelude.Exec.{Result, ok}
use kuasar.Template.Types.{
  PooledTemplate, WorkloadIdentity, SnapshotType, environment, warm_fork, continuation, exclusive,
}
use kuasar.Template.Disk.{Io, Disk, TemplateDir}
use kuasar.Template.Pool.State.{TemplatePool}
use kuasar.Continuation.Store.{StoreIo, Store, opened}
use kuasar.WarmFork.Message.{
  WorkloadMessage, capabilities, ready, started, reject, resource_exhausted,
}
use kuasar.WarmFork.Talk.{ContainerTask, Peer}
use kuasar.WarmFork.Inject.{Clock, Batch}

abbrev pub identity : WorkloadIdentity
identity = record { pod_uid = "pod"; generation = 12 }

abbrev pub template : String → SnapshotType → ℕ → Option WorkloadIdentity → PooledTemplate
template id type created identity = record {
  id = id;
  key = record { key = "k" };
  snapshot_dir = "snapshot";
  pmem_path = "pmem";
  kernel_path = "kernel";
  vcpus = 1;
  memory_mb = 512;
  created_at_secs = created;
  original_task_vsock = "vsock";
  original_console_path = "console";
  hypervisor_api_version = "1";
  snapshot_type = type;
  id_generator = 0;
  disk_images = [];
  storages = [];
  orphan_container_ids = [];
  snapshot_containers = [];
  ready_protocol_version = none;
  workload_identity = identity;
  warm_fork_targets = [];
}

abbrev pub old_template : PooledTemplate
old_template = template "a" environment 1 none

abbrev pub young_template : PooledTemplate
young_template = template "b" environment 2 none

abbrev pub fork_template : PooledTemplate
fork_template = template "c" warm_fork 3 none

abbrev pub saved_dir : PooledTemplate → Bool → TemplateDir
saved_dir t used = record { saved = some t; consumed = used }

abbrev pub two_dirs : Disk
two_dirs = record {
  environment = ("a", saved_dir old_template false) ∷ ("b", saved_dir young_template true) ∷ [];
  warmfork = ("c", saved_dir fork_template false) ∷ [];
}

-- No call fails.
abbrev pub good_io : Io
good_io = record {
  create_dir_fails = λ s id. false;
  remove_dir_fault = λ s id. none;
  write_marker_fault = λ s id. none;
  remove_marker_fails = λ s id. false;
  save_fails = λ s id. false;
  exists_fails = λ s id. false;
  stat_fails = λ s id. false;
  load_fails = λ s id. false;
  read_dir_fails = λ s. false;
  next_entry_stops = λ s. none;
}

-- Two templates under one key, the older of which is being restored; the watermark is zero.
abbrev pub two_templates : TemplatePool
two_templates = record {
  available = ("k", old_template ∷ young_template ∷ []) ∷ [];
  disk = two_dirs;
  environment_max_per_key = 4;
  warmfork_max_per_key = 4;
  in_flight_refills = [];
  in_flight_restores = ("a", 1) ∷ [];
  template_ready = 0;
  in_use_count = [];
  gc_watermark = 0;
  lease_mode = exclusive;
  reflink_supported = false;
}

abbrev pub good_store_io : StoreIo
good_store_io = record {
  create_fault = λ p. none;
  save_fault = λ p. none;
  exists_fails = λ p. false;
  marker_stat_fails = λ p. false;
  load_fails = λ p. false;
  marker_fault = λ p. none;
  remove_marker_fails = λ p. false;
  remove_fault = λ p. none;
  remove_pod_fails = λ p. false;
  root_read = opened;
  pod_skipped = λ p. false;
  entry_skipped = λ p. false;
  next_pod_fails = λ p. false;
  next_entry_fails = λ p n. false;
}

abbrev pub snapshot : PooledTemplate
snapshot = template "s" continuation 5 (some identity)

abbrev pub one_entry : Store
one_entry = ("pod", ("g12", saved_dir snapshot false) ∷ []) ∷ []

abbrev pub used_entry : Store
used_entry = ("pod", ("g12", saved_dir snapshot true) ∷ []) ∷ []

abbrev pub task : ContainerTask
task = record {
  container_id = "";
  socket_path = "";
  task_id = "t";
  env_overrides = [];
  context = "";
}

abbrev version_one : WorkloadMessage
version_one = capabilities (record { protocol_version = "1"; supported_features = [] })

abbrev answers : WorkloadMessage → ℕ → Result String WorkloadMessage
answers second n = if eqb n 0 then ok version_one else if eqb n 1 then ok second else ok started

abbrev peer : WorkloadMessage → Peer
peer second = record {
  connect = λ pid socket. none;
  no_container = record { text = "not found"; says_not_found = true; says_mnt_ns = false };
  read = answers second;
  write_fault = λ n. none;
}

abbrev pub in_time : Clock
in_time = record { late = false; cuts = [] }

abbrev pub both_ready : Batch
both_ready = (task, peer ready) ∷ (task, peer ready) ∷ []

abbrev pub one_rejects : Batch
one_rejects = (task, peer ready) ∷ (task, peer (reject resource_exhausted "full")) ∷ []
