-- ===== src/Examples/Hosts.antt =====
-- Surroundings for the examples on sandboxes: the number of calls that changed something, none of
-- which fails.
use kuasar.Device.{pci}
use kuasar.Sandbox.Devices.{ScannedDir, directory}
use kuasar.Prelude.{ℕ, ◌+◌, true, false, none, some, [], ◌∷◌}
use kuasar.Prelude.Exec.{ok, pure, pure-Keeps}
use kuasar.Sandbox.Host.{Hooks, Host, done}
use kuasar.Sandbox.State.{
  Call, KuasarSandbox, RestoreMetadata, SandboxData, created, default_restore, file_backend,
  ContainerStoragePolicy,
}
use kuasar.Sandbox.Tags.{Tagged}
use kuasar.Sandboxer.Pins.Restoring.{HooksKeepTags}
use kuasar.Sandboxer.State.{KuasarSandboxer, Setting, SnapshotRestoreParams}
use kuasar.Examples.Data.{good_io, good_store_io, one_entry, two_dirs, old_template}
use kuasar.Template.Pool.State.{TemplatePool}
use kuasar.Template.Types.{environment, exclusive, shared}

abbrev pub counted : Call ℕ (Unit {0})
counted n = (ok tt, n + 1)

abbrev empty_dir : ScannedDir
empty_dir = record { file_count = 0; total_bytes = 0; dirs = []; files = []; symlinks = [] }

abbrev pub virtio_fs_policy : ContainerStoragePolicy
virtio_fs_policy = record {
  storage_backend = "virtio-fs";
  allow_large_bind_mount = false;
  enable_reflink_cow = false;
  block_image_size_overhead_percent = 20;
  small_dir_max_files = 64;
  small_dir_max_bytes = 1048576;
  overlay_image_fallback_size_mb = 1024;
  bind_image_fallback_size_mb = 64;
}

abbrev pub good_host : Host ℕ
good_host = record {
  vm_start = λ n. (ok 7, n + 1);
  vm_stop = λ force. counted;
  vm_restore = λ src. counted;
  vm_recover = counted;
  hot_attach = λ d n. (ok (pci, "0000:00:05.0"), n + 1);
  hot_detach = λ id. counted;
  hotplug_pending_network = counted;
  vcpus = λ n. (ok [], n);
  vmm_pid = λ n. some 7;
  affiliated_pids = λ n. [];
  socket_address = λ n. "vsock";
  new_sandbox_client = λ a. counted;
  new_sandbox_client_fail_fast = λ a. counted;
  client_check = λ a. counted;
  client_setup_sandbox = λ a d n. counted;
  client_sync_clock = λ a n. n + 1;
  client_reseed_entropy = λ a n. n + 1;
  update_interfaces = λ a n. counted;
  update_routes = λ a n. counted;
  has_interfaces = λ n. true;
  has_routes = λ n. true;
  inject_task = λ a params n. (ok [], n + 1);
  adopt_container = λ a old new. counted;
  exec_vm_process = λ a command stdin. counted;
  get_events = λ a n. n + 1;
  network_new = λ config n. (ok (record { config = config }), n + 1);
  network_attach = λ network. counted;
  network_destroy = λ network n. n + 1;
  read_file = λ path n. none;
  remove_dir_all = λ path n. (done, n + 1);
  remove_dir = λ path n. (done, n + 1);
  remove_file = λ path n. (done, n + 1);
  is_dir = λ path n. true;
  file_type = λ path n. some directory;
  symlink_metadata = λ path n. some (directory, 493);
  path_exists = λ path n. true;
  read_content = λ path n. (ok "", n);
  write_file_atomic = λ path content. counted;
  create_dir_all = λ path. counted;
  create_file = λ path. counted;
  spec_json = λ spec. ok "spec";
  io_json = λ io. ok "io";
  storages_json = λ storages. ok "storages";
  clean = λ path. path;
  mountinfo = λ n. (ok "", n);
  blkid = λ path n. (ok "TYPE=ext4", n);
  bind_mount = λ source target options. counted;
  mount_rootfs = λ type source options target. counted;
  scan_dir = λ path n. (ok empty_dir, n);
  estimate_dir_tree_stats = λ path n. (ok (record { size_mb = 1; entries = 1 }), n);
  create_ext4_image = λ path size inodes. counted;
  create_xfs_image = λ path size. counted;
  copy_dir_to_loop_image = λ source image fs. counted;
  unmount = λ path. counted;
  cleanup_mounts = λ path. counted;
  open_dump = λ path n. (done, n);
  write_dump = λ path s. counted;
  cgroup2 = true;
  add_process = λ pid threads. counted;
  remove_cgroups = λ id. counted;
  create_cgroups = λ id. counted;
  setup_sandbox_files = λ dir d. counted;
}

abbrev pub quiet_hooks : Hooks ℕ
quiet_hooks = record {
  post_create = pure tt;
  pre_start = pure tt;
  post_start = pure tt;
  pre_stop = pure tt;
  post_stop = pure tt;
}

pub quiet_law : HooksKeepTags quiet_hooks
quiet_law = record {
  post_create = λ t. pure-Keeps (Tagged t) tt;
  pre_start = λ t. pure-Keeps (Tagged t) tt;
  post_start = λ t. pure-Keeps (Tagged t) tt;
  pre_stop = λ t. pure-Keeps (Tagged t) tt;
  post_stop = λ t. pure-Keeps (Tagged t) tt;
}

abbrev pub setting : Setting ℕ
setting = record {
  host = good_host;
  hooks = quiet_hooks;
  io = good_io;
  store_io = good_store_io;
  config = record {
    enable_environment_restore = true;
    enable_warmfork_restore = true;
    enable_continuation_restore = true;
    fallback_to_fresh_boot = true;
    default_memory_restore_mode = file_backend;
  };
  environment_key = record { key = "k" };
  cgroup_fails = λ id. false;
  create_vm = λ id d. ok 0;
  storage_policy = virtio_fs_policy;
  file_there = λ path. true;
  refills = λ k. [];
  parse_u64 = λ s. some 12;
}

abbrev pub pod_data : SandboxData
pod_data = record {
  netns = "";
  annotations = some (("kuasar.io/pod-uid", "pod") ∷ ("kuasar.io/workload-generation", "12") ∷ []);
  shared_pid_namespace = false;
  cpu_period = 0;
  cpu_quota = 0;
  task_address = "";
}

abbrev pub sandbox : RestoreMetadata → KuasarSandbox ℕ
sandbox restore = record {
  vm = 0;
  id = "s1";
  status = created;
  base_dir = "/run/s1";
  sandbox_data = pod_data;
  containers = [];
  storages = [];
  id_generator = 0;
  network = none;
  client = none;
  exit_signal = false;
  storage_policy = setting.storage_policy;
  restore = restore;
}

-- What a restore of the template `a` with file-backed memory records.
abbrev pub pinned_restore : RestoreMetadata
pinned_restore = record {
  template_id = some "a";
  template_snapshot_type = some environment;
  lease_mode = some shared;
  reflink_supported = some false;
  memory_restore_mode = some file_backend;
  orphan_container_ids = [];
}

abbrev pub params : SnapshotRestoreParams
params = record {
  snapshot_dir = "snapshot";
  template_id = some "a";
  snapshot_type = environment;
  id_generator = 3;
  disk_images = [];
  storages = [];
  orphan_container_ids = [];
  lease_mode = shared;
  reflink_supported = false;
  original_task_vsock = "vsock";
  warm_fork_params = none;
}

-- One template, to which one running sandbox refers.
abbrev pub one_template : TemplatePool
one_template = record {
  available = ("k", old_template ∷ []) ∷ [];
  disk = two_dirs;
  environment_max_per_key = 4;
  warmfork_max_per_key = 4;
  in_flight_refills = [];
  in_flight_restores = [];
  template_ready = 0;
  in_use_count = ("a", 1) ∷ [];
  gc_watermark = 8;
  lease_mode = exclusive;
  reflink_supported = false;
}

abbrev pub one_pinned : KuasarSandboxer ℕ
one_pinned = record {
  sandboxes = ("s1", sandbox pinned_restore) ∷ [];
  template_pool = some one_template;
  continuation_store = some one_entry;
}

abbrev pub one_created : KuasarSandboxer ℕ
one_created = record one_pinned { sandboxes = ("s1", sandbox default_restore) ∷ [] }
